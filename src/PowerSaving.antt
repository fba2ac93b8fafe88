-- ===== src/PowerSaving.antt =====
-- [T]LogicLab/TB_PowerSaving: the states of a pen (PenState.c), and the simulated inputs that its
-- checks read (the end of PowerSaving.c, other_function.c). All static variables are one record.
mod Tests
pub mod Factors
pub mod Decide
pub mod Checks
pub mod Next
pub mod Entered
pub mod Follow
pub mod Steps
pub mod Connected
pub mod Disconnected
pub mod Quiet
pub mod ShutDown
pub mod ChargeWhenShutDown
pub mod Basic
pub mod Scene
pub mod Generators
pub mod Scripts
pub mod Conditional
pub mod Loops
use eclipse_code.Prelude.{ℕ, ◌+◌, Bool, true, false, not, ◌==◌, if◌then◌else◌}
use eclipse_code.BitOperation.{byte_factor_set, byte_getbit}

-- `FactorAboutPenState`
pub data FactorAboutPenState : Type 0 where
  pen_state_user_shut_down : FactorAboutPenState
  pen_state_ble_connected : FactorAboutPenState
  pen_state_pen_move : FactorAboutPenState
  pen_state_pen_charge : FactorAboutPenState
  pen_state_pen_near_magnetic : FactorAboutPenState
  pen_state_pen_power_low : FactorAboutPenState
  pen_state_pen_charge_when_shut_down : FactorAboutPenState
  pen_state_wake_up_button_push : FactorAboutPenState

-- `PenBasicState`
pub data PenBasicState : Type 0 where
  pbs_just_wake_up : PenBasicState
  pbs_get_global_state : PenBasicState
  pbs_charge_when_shut_down : PenBasicState
  pbs_disconnected : PenBasicState
  pbs_connected : PenBasicState
  pbs_going_to_shut_down : PenBasicState
  pbs_quiet : PenBasicState

-- the number of an enumerator
abbrev pub pbs_number : PenBasicState → ℕ
pbs_number pbs_just_wake_up = 0
pbs_number pbs_get_global_state = 1
pbs_number pbs_charge_when_shut_down = 2
pbs_number pbs_disconnected = 3
pbs_number pbs_connected = 4
pbs_number pbs_going_to_shut_down = 5
pbs_number pbs_quiet = 6

-- the simulated inputs of PowerSaving.c
pub record Inputs : Type 0 where
  pub is_user_app_locked : Bool
  pub is_battery_charge : Bool
  pub is_pen_move : Bool
  pub is_ble_connected : Bool
  pub is_magnetic_near : Bool
  pub is_power_low : Bool
  pub is_user_shut_down : Bool
  pub is_wake_up_button_pushed : Bool

-- the variables of PenState.c, and the flags of EmarkQuiet.c and EmarkShutDown.c
pub record Pen : Type 0 where
  pub factor : ℕ
  pub current_state : PenBasicState
  pub time_stamp : ℕ
  pub delay_counter : ℕ
  pub is_sure_quiet : Bool
  pub is_sure_shut_down : Bool
  pub inputs : Inputs

-- the bit of a factor
abbrev bit_position : FactorAboutPenState → ℕ
bit_position pen_state_user_shut_down = 0
bit_position pen_state_ble_connected = 1
bit_position pen_state_pen_move = 2
bit_position pen_state_pen_charge = 3
bit_position pen_state_pen_near_magnetic = 4
bit_position pen_state_pen_power_low = 5
bit_position pen_state_pen_charge_when_shut_down = 6
bit_position pen_state_wake_up_button_push = 7

-- `DoesUserShutDown` and its seven fellows
abbrev pub does : FactorAboutPenState → Pen → Bool
does k p = byte_getbit p.factor (bit_position k) == 1

-- `PenStateFactorCollector`
abbrev pen_state_factor_collector : FactorAboutPenState → ℕ → Pen → Pen
pen_state_factor_collector k factor p = record p {
  factor = byte_factor_set p.factor (bit_position k) (not (factor == 0));
}

-- a check: the input is collected as 1 or 0
abbrev pub collect : FactorAboutPenState → Bool → Pen → Pen
collect k input p = pen_state_factor_collector k (if input then 1 else 0) p

-- the getters of the inputs
abbrev pub battery_is_charger_connected : Pen → Bool
battery_is_charger_connected p = p.inputs.is_battery_charge

abbrev pen_move_state_get : Pen → Bool
pen_move_state_get p = p.inputs.is_pen_move

abbrev ble_state_get : Pen → Bool
ble_state_get p = p.inputs.is_ble_connected

abbrev magnetic_state_get : Pen → Bool
magnetic_state_get p = p.inputs.is_magnetic_near

abbrev power_state_get : Pen → Bool
power_state_get p = p.inputs.is_power_low

abbrev pub user_shut_down_state_get : Pen → Bool
user_shut_down_state_get p = p.inputs.is_user_shut_down

abbrev pub user_wake_button_state_get : Pen → Bool
user_wake_button_state_get p = p.inputs.is_wake_up_button_pushed

-- the checks of PenState.c and of other_function.c
abbrev pub ble_stata_check : Pen → Pen
ble_stata_check p = collect pen_state_ble_connected (ble_state_get p) p

abbrev pub magnetic_strength_check : Pen → Pen
magnetic_strength_check p = collect pen_state_pen_near_magnetic (magnetic_state_get p) p

abbrev pub user_shut_down_check : Pen → Pen
user_shut_down_check p = collect pen_state_user_shut_down (user_shut_down_state_get p) p

abbrev pub wake_up_button_pushed_check : Pen → Pen
wake_up_button_pushed_check p =
    collect pen_state_wake_up_button_push (user_wake_button_state_get p) p

abbrev pub motion_state_check : Pen → Pen
motion_state_check p = collect pen_state_pen_move (pen_move_state_get p) p

abbrev pub does_charge_in : Pen → Pen
does_charge_in p = collect pen_state_pen_charge (battery_is_charger_connected p) p

-- not called, `USE_POWER_LOW_SHUTDOWN` is 0
abbrev battery_level_state_collect : Pen → Pen
battery_level_state_collect p = collect pen_state_pen_power_low (power_state_get p) p
