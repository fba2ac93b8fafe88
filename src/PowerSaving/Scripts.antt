-- ===== src/PowerSaving/Scripts.antt =====
-- The functions that the scripts call, in [T]LogicLab/TB_PowerSaving/PowerSaving.c. `buf_16` and
-- `buf_32` are only cleared.
use eclipse_code.Prelude.{
  ℕ, zero, suc, ◌+◌, ◌%◌, true, false, ◌||◌, Option, some, none, List, [], ◌∷◌, ◌==◌, leb,
  if◌then◌else◌, set, u8_mod,
}
use eclipse_code.RandomNumber.{get_random_number}
use eclipse_code.PowerSaving.{Pen}
use eclipse_code.PowerSaving.Basic.{all_peripheral_init}
use eclipse_code.PowerSaving.Scene.{
  script_function_param_buf_length, ScriptAction, with_inputs, user_shut_down_state_set,
  pen_move_state_init, ble_state_init, magnetic_state_init, power_state_init,
  user_shut_down_state_init, user_wake_button_state_init, battery_charge_init, buf_at, buf_put,
  valid,
}
use eclipse_code.PowerSaving.Generators.{
  user_shut_down_generator, ble_state_generator, pen_move_state_generator,
  pen_charge_state_generator, quick_pen_charge_state_generator,
  pen_distance_from_magnetic_generator, quick_pen_distance_from_magnetic_generator,
  pen_power_state_generator, quick_pen_power_state_generator,
}

abbrev pub user_app_lock : ScriptAction
user_app_lock s = (true, with_inputs (λ i. record i { is_user_app_locked = true }) s)

abbrev pub user_app_unlock : ScriptAction
user_app_unlock s = (true, with_inputs (λ i. record i { is_user_app_locked = false }) s)

-- the loop of `ScriptsFunctionInitial`
abbrev clear_loop : ℕ → List ℕ → List ℕ
clear_loop zero xs = xs
clear_loop (suc n) xs = clear_loop n (set xs n 0)

unfoldable pub scripts_function_initial : ScriptAction
scripts_function_initial s = (
  true,
  record s {
    param = record {
      is_param_valid = false;
      recent_pass_function_number = 0;
      param_from_script = 0;
      buf_8 = clear_loop script_function_param_buf_length s.param.buf_8;
      buf_16 = clear_loop script_function_param_buf_length s.param.buf_16;
      buf_32 = clear_loop script_function_param_buf_length s.param.buf_32;
    };
  },
)

unfoldable pub for_now : ScriptAction
for_now s =
    let t = battery_charge_init (buf_put 0 s.param.param_from_script (valid s)) in
    (
      true,
      user_wake_button_state_init (
          user_shut_down_state_init
            (power_state_init (magnetic_state_init (ble_state_init (pen_move_state_init t))))),
    )

unfoldable pub loop_specific_times : ScriptAction
loop_specific_times s =
    let t = valid s in
    if leb s.param.param_from_script (buf_at t 1 + 1)
    then (true, buf_put 1 0 t)
    else (false, buf_put 1 ((buf_at t 1 + 1) % u8_mod) t)

unfoldable pub random_number_generator : ℕ → ScriptAction
random_number_generator rand s =
    (true, buf_put 2 (get_random_number rand 1 s.param.param_from_script % u8_mod) (valid s))

-- `ClearShutDownState_TB` and `ClearQuietState_TB`
abbrev clear_shut_down_state : Pen → Pen
clear_shut_down_state p = record p { is_sure_shut_down = false }

abbrev clear_quiet_state : Pen → Pen
clear_quiet_state p = record p { is_sure_quiet = false }

unfoldable pub power_off : ScriptAction
power_off s = (
  true,
  user_shut_down_state_set false
      (record s { pen = clear_quiet_state (clear_shut_down_state s.pen) }),
)

unfoldable pub start_again : ScriptAction
start_again s =
    let t =
      user_wake_button_state_init
        (user_shut_down_state_init (ble_state_init (pen_move_state_init s))) in
    (true, record t { pen = all_peripheral_init t.pen })

abbrev back_to_start : ScriptAction
back_to_start s = (true, s)

-- `DoesPowerOff`, with `DoesSureQuiet_TB` and `DoesSureShutDown_TB`
abbrev does_power_off : ScriptAction
does_power_off s = (s.pen.is_sure_quiet || s.pen.is_sure_shut_down, s)

-- a row of `ScriptsFunctionArray`
abbrev ScriptRow : Type 0
ScriptRow = ℕ × Option ScriptAction

-- `ScriptsFunctionArray`, with what `rand` returns
unfoldable pub scripts_function_array : ℕ → List ScriptRow
scripts_function_array rand =
    (1, some scripts_function_initial)
    ∷ (2, some for_now)
    ∷ (3, some loop_specific_times)
    ∷ (4, some (random_number_generator rand))
    ∷ (5, some user_shut_down_generator)
    ∷ (6, some ble_state_generator)
    ∷ (7, some pen_move_state_generator)
    ∷ (8, some pen_charge_state_generator)
    ∷ (9, some pen_distance_from_magnetic_generator)
    ∷ (10, some power_off)
    ∷ (11, some start_again)
    ∷ (12, some pen_power_state_generator)
    ∷ (13, some user_app_lock)
    ∷ (14, some user_app_unlock)
    ∷ (15, some back_to_start)
    ∷ (16, some quick_pen_charge_state_generator)
    ∷ (17, some quick_pen_distance_from_magnetic_generator)
    ∷ (18, some quick_pen_power_state_generator)
    ∷ (19, some does_power_off)
    ∷ []

-- the loop of `CallFunction`
unfoldable pub call_loop : List ScriptRow → ℕ → ScriptAction
call_loop [] func_num s = (false, s)
call_loop ((number, some action) ∷ rows) func_num s =
    if number == func_num then action s else call_loop rows func_num s
call_loop ((number, none) ∷ rows) func_num s = call_loop rows func_num s

-- `CallFunction`
unfoldable pub call_function : ℕ → ℕ → ScriptAction
call_function rand func_num s = call_loop (scripts_function_array rand) func_num s
