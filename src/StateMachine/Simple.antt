-- ===== src/StateMachine/Simple.antt =====
-- `SimpleStateMachineRun` and `SimpleStateMachineStateSet` of StateMachine.c.
use eclipse_code.Prelude.{
  ℕ, zero, suc, ◌+◌, ◌%◌, Bool, true, false, Option, some, none, List, ◌∷◌, get_or, ltb, ◌==◌, ◌||◌,
  if◌then◌else◌, not, u8_mod, u16_mod, AppResult, app_successed, app_error, app_beyond_scope,
  app_pointer_null,
}
use eclipse_code.StateMachine.{
  MachineParam, StateAction, StateSimpleParam, Records, max_state_number, default_state_number,
}

-- the variables of the run: `isStateJumpWrong`, `current_state`, `*p_smp`, and the records
pub record Outcome {ℓ} (U : Type ℓ) : Type ℓ where
  pub is_state_jump_wrong : Bool
  pub current_state_num : ℕ
  pub p_smp : MachineParam U
  pub records : Records

-- a round: whether the loop is left behind it, `Counter`, and the other variables
pub record Round {ℓ} (U : Type ℓ) : Type ℓ where
  pub stop : Bool
  pub counter : ℕ
  pub outcome : Outcome U

-- `StateRecorder(previous_state,current_state)` where the state changes
abbrev pub recorded : ℕ → ℕ → Records → Records
recorded previous current records =
    if previous == current then records else (previous, current) ∷ records

-- The test of `DoesBreak` at the end of a round, on the state and the counter that it gets. What it
-- answers depends on these two only: a `DoesBreak` that keeps a state of its own, or that reads the table
-- through its pointer and changes it, is not modelled.
abbrev pub breaks : Option (ℕ → ℕ → Bool) → ℕ → ℕ → Bool
breaks none current counter = true
breaks (some f) current counter = f current counter

module _ {ℓ} {U : Type ℓ} (all_state_num max_hop_times : ℕ) (actions : List (StateAction U))
    (does_break : Option (ℕ → ℕ → Bool)) where
  -- the part of a round behind the call of `Action`
  unfoldable pub round_behind : ℕ → ℕ × MachineParam U → Outcome U → Round U
  round_behind counter (next, p) o =
      if ltb all_state_num (next + 1)
      then record {
        stop = true;
        counter = counter;
        outcome = record {
          is_state_jump_wrong = true;
          current_state_num = default_state_number;
          p_smp = p;
          records = o.records;
        };
      }
      else record {
        stop = breaks does_break next counter;
        counter = counter;
        outcome = record o {
          current_state_num = next;
          p_smp = p;
          records = recorded o.current_state_num next o.records;
        };
      }

  -- one round, by the action of the current state
  unfoldable pub simple_round : StateAction U → ℕ → Outcome U → Round U
  unfolding round_behind
  simple_round none counter o = record {
    stop = breaks does_break o.current_state_num counter;
    counter = counter;
    outcome = o;
  }
  simple_round (some action) counter o =
      round_behind ((counter + 1) % u16_mod)
        (action (record (o.p_smp) { current_state = o.current_state_num })) o

  -- The loop: `i` is a `uint8_t`, the number of rounds a `uint16_t`. `none` is a loop that has not
  -- ended after `fuel` tests of its condition.
  unfoldable pub simple_loop : ℕ → ℕ → ℕ → Outcome U → Option (Outcome U)
  simple_loop zero i counter o = none
  simple_loop (suc fuel) i counter o =
      let r = simple_round (get_or actions o.current_state_num none) counter o in
      let rest = simple_loop fuel ((i + 1) % u8_mod) r.counter r.outcome in
      if not (ltb i max_hop_times) then some o else if r.stop then some r.outcome else rest

-- What `SimpleStateMachineRun` returns, and leaves in the state number, in `*p_smp` and the records.
pub record RunResult {ℓ} (U : Type ℓ) : Type ℓ where
  pub result : AppResult
  pub state : ℕ
  pub p_smp : MachineParam U
  pub records : Records

-- the end of `SimpleStateMachineRun`
unfoldable pub simple_end {ℓ} : {U : Type ℓ} → Option (Outcome U) → Option (RunResult U)
simple_end none = none
simple_end (some o) = some (record {
  result = if o.is_state_jump_wrong then app_error else app_successed;
  state = o.current_state_num;
  p_smp = o.p_smp;
  records = o.records;
})

-- a return before the loop
abbrev pub returns {ℓ} :
    {U : Type ℓ} → AppResult → ℕ → MachineParam U → Records → Option (RunResult U)
returns result state p records =
    some (record { result = result; state = state; p_smp = p; records = records })

-- `SimpleStateMachineRun` behind the null tests of `p_ssp` and `p_smp`, by the pointer to the
-- actions; `none` as in the loop.
unfoldable pub simple_run_by {ℓ} :
    {U : Type ℓ}
    → ℕ
    → Option (ℕ → ℕ → Bool)
    → Option (List (StateAction U))
    → StateSimpleParam U
    → MachineParam U
    → Records
    → Option (RunResult U)
unfolding simple_end
simple_run_by fuel does_break none s p records =
    returns app_pointer_null s.current_state_num p records
simple_run_by fuel does_break (some actions) s p records =
    if ltb max_state_number s.all_state_num || s.all_state_num == 0
    then returns app_beyond_scope s.current_state_num p records
    else if ltb max_state_number s.current_state_num
    then returns app_beyond_scope default_state_number p records
    else let start : Outcome _ = record {
      is_state_jump_wrong = false;
      current_state_num = s.current_state_num;
      p_smp = p;
      records = records;
    } in
      simple_end (simple_loop s.all_state_num s.max_hop_times actions does_break fuel 0 0 start)

unfoldable pub simple_state_machine_run {ℓ} :
    {U : Type ℓ}
    → ℕ
    → Option (ℕ → ℕ → Bool)
    → StateSimpleParam U
    → MachineParam U
    → Records
    → Option (RunResult U)
unfolding simple_run_by
simple_state_machine_run fuel does_break s p records =
    simple_run_by fuel does_break s.p_action s p records

-- `SimpleStateMachineStateSet`
unfoldable pub simple_state_machine_state_set {ℓ} :
    {U : Type ℓ} → ℕ → StateSimpleParam U → StateSimpleParam U
simple_state_machine_state_set state s = record s { current_state_num = state }
