-- ===== src/StateMachine.antt =====
-- CommonSource/StateMachine/StateMachine.c and .h: the two engines that run a table of states. A
-- table's functions are parameters: each gets what its argument points to and returns it as it
-- leaves it. `DoesBreak` is a function of the next state and the counter. The calls of
-- `StateRecorder` are kept as a list, the latest first; those of `onDebug` are not kept.
pub mod Simple
pub mod Targets
pub mod Hops
mod Tests
pub mod Range
use eclipse_code.Prelude.{ℕ, Bool, Option, List}

-- `s_StateMachineParam` with what the user's record has behind it
pub record MachineParam {ℓ} (U : Type ℓ) : Type ℓ where
  pub current_state : ℕ
  pub user : U

-- `MAX_STATE_NUMBER`, `MAX_STATE_EVENT_NUMBER`, `DEFAULT_STATE_NUMBER`, `USE_VARIABLE_STATE_FLAG`
abbrev pub max_state_number : ℕ
max_state_number = 20

abbrev pub max_state_event_number : ℕ
max_state_event_number = 6

abbrev pub default_state_number : ℕ
default_state_number = 0

abbrev pub use_variable_state_flag : ℕ
use_variable_state_flag = 255

-- `sHopHandle`
pub record HopHandle {ℓ} (U : Type ℓ) : Type ℓ where
  pub on_hop : Option (MachineParam U → Bool × MachineParam U)
  pub next_state_when_true : ℕ
  pub next_state_when_false : ℕ

-- `StateHandle`
pub record StateHandle {ℓ} (U : Type ℓ) : Type ℓ where
  pub current_max_hop_times : ℕ
  pub p_hop : Option (List (HopHandle U))

-- `StateBasicParam` with the state number that it points to
pub record StateBasicParam {ℓ} (U : Type ℓ) : Type ℓ where
  pub all_state_num : ℕ
  pub max_hop_times : ℕ
  pub p_handle : Option (List (StateHandle U))
  pub current_state_num : ℕ

-- `StateAction` and `StateSimpleParam`
abbrev pub StateAction {ℓ} : Type ℓ → Type ℓ
StateAction U = Option (MachineParam U → ℕ × MachineParam U)

pub record StateSimpleParam {ℓ} (U : Type ℓ) : Type ℓ where
  pub all_state_num : ℕ
  pub max_hop_times : ℕ
  pub p_action : Option (List (StateAction U))
  pub current_state_num : ℕ

-- The state numbers that `StateRecorder` was called with.
abbrev pub Records : Type 0
Records = List (ℕ × ℕ)
