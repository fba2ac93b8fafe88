-- ===== src/PowerSaving/Scene.antt =====
-- The parameter of the script functions, and the inputs that they set, in
-- [T]LogicLab/TB_PowerSaving/PowerSaving.c. A write behind `buf_8` changes nothing here.
use eclipse_code.Prelude.{ℕ, ◌+◌, ◌%◌, Bool, true, false, not, List, get_or, set, u8_mod}
use eclipse_code.PowerSaving.{Inputs, Pen}

-- `ScriptFunctionParamBufLength`, and the places of `buf_8`
abbrev pub script_function_param_buf_length : ℕ
script_function_param_buf_length = 10

-- `ScriptFunctionParam`
pub record ScriptFunctionParam : Type 0 where
  pub is_param_valid : Bool
  pub recent_pass_function_number : ℕ
  pub param_from_script : ℕ
  pub buf_8 : List ℕ
  pub buf_16 : List ℕ
  pub buf_32 : List ℕ

-- the parameter, and the bench that the functions work on
pub record Scene : Type 0 where
  pub param : ScriptFunctionParam
  pub pen : Pen

abbrev pub ScriptAction : Type 0
ScriptAction = Scene → Bool × Scene

abbrev pub with_inputs : (Inputs → Inputs) → Scene → Scene
with_inputs f s = record s { pen = record (s.pen) { inputs = f s.pen.inputs } }

-- the setters of the inputs
abbrev pub pen_move_state_set : Bool → Scene → Scene
pen_move_state_set on = with_inputs (λ i. record i { is_pen_move = on })

abbrev pub ble_state_set : Bool → Scene → Scene
ble_state_set on = with_inputs (λ i. record i { is_ble_connected = on })

abbrev pub magnetic_state_set : Bool → Scene → Scene
magnetic_state_set on = with_inputs (λ i. record i { is_magnetic_near = on })

abbrev pub power_state_set : Bool → Scene → Scene
power_state_set on = with_inputs (λ i. record i { is_power_low = on })

abbrev pub user_shut_down_state_set : Bool → Scene → Scene
user_shut_down_state_set on = with_inputs (λ i. record i { is_user_shut_down = on })

abbrev pub user_wake_button_state_set : Bool → Scene → Scene
user_wake_button_state_set on = with_inputs (λ i. record i { is_wake_up_button_pushed = on })

-- the inits of the inputs
abbrev pub pen_move_state_init : Scene → Scene
pen_move_state_init = pen_move_state_set true

abbrev pub ble_state_init : Scene → Scene
ble_state_init = ble_state_set false

abbrev pub magnetic_state_init : Scene → Scene
magnetic_state_init = magnetic_state_set false

abbrev pub power_state_init : Scene → Scene
power_state_init = power_state_set false

abbrev pub user_shut_down_state_init : Scene → Scene
user_shut_down_state_init = user_shut_down_state_set false

abbrev pub user_wake_button_state_init : Scene → Scene
user_wake_button_state_init = user_wake_button_state_set false

-- `BatteryChargeInit`
abbrev pub battery_charge_init : Scene → Scene
battery_charge_init = with_inputs (λ i. record i { is_battery_charge = false })

-- `BatteryChargeStateToggle`, whose result is only printed
abbrev pub battery_charge_state_toggle : Scene → Scene
battery_charge_state_toggle =
    with_inputs (λ i. record i { is_battery_charge = not i.is_battery_charge })

-- a place of `buf_8`
abbrev pub buf_at : Scene → ℕ → ℕ
buf_at s n = get_or s.param.buf_8 n 0

abbrev pub buf_put : ℕ → ℕ → Scene → Scene
buf_put n v s = record s { param = record (s.param) { buf_8 = set s.param.buf_8 n v } }

-- `buf_8[n] + random_num`, as it is stored
abbrev pub buf_sum : Scene → ℕ → ℕ
buf_sum s n = (buf_at s n + buf_at s 2) % u8_mod

abbrev pub valid : Scene → Scene
valid s = record s { param = record (s.param) { is_param_valid = true } }
