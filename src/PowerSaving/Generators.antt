-- ===== src/PowerSaving/Generators.antt =====
-- The generators of the inputs, in [T]LogicLab/TB_PowerSaving/PowerSaving.c.
use eclipse_code.Prelude.{◌%◌, true, false, ◌&&◌, ◌||◌, ◌==◌, ltb, leb, if◌then◌else◌}
use eclipse_code.PowerSaving.Scene.{
  script_function_param_buf_length, ScriptAction, pen_move_state_set, ble_state_set,
  magnetic_state_set, power_state_set, user_shut_down_state_set, user_wake_button_state_set,
  battery_charge_state_toggle, buf_at, buf_put, buf_sum,
}

unfoldable pub user_shut_down_generator : ScriptAction
user_shut_down_generator s =
    let random_num = buf_at s 2 in
    let t =
      if random_num == 20
      then user_shut_down_state_set true (buf_put script_function_param_buf_length 1 s)
      else user_shut_down_state_set false (buf_put script_function_param_buf_length 0 s) in
    (
      true,
      if (random_num % 2 == 0) && ltb random_num 10
          then user_wake_button_state_set true t
          else user_wake_button_state_set false t,
    )

unfoldable pub ble_state_generator : ScriptAction
ble_state_generator s =
    let sum = buf_sum s 6 in
    let t = buf_put 6 sum s in
    if ltb 40 sum && ltb sum 80
    then (true, ble_state_set true t)
    else if leb sum 80
    then (true, ble_state_set false t)
    else (true, buf_put 6 0 t)

unfoldable pub pen_move_state_generator : ScriptAction
pen_move_state_generator s =
    let random_num = buf_at s 2 in
    if (random_num % 4 == 0) || (random_num % 6 == 0)
    then (true, pen_move_state_set false s)
    else if (random_num % 3 == 0) || (random_num % 5 == 0)
    then (true, pen_move_state_set true s)
    else (true, s)

unfoldable pub pen_charge_state_generator : ScriptAction
pen_charge_state_generator s =
    if leb s.param.param_from_script (buf_at s 3)
    then (true, battery_charge_state_toggle (buf_put 3 0 s))
    else (true, buf_put 3 (buf_sum s 3) s)

unfoldable pub quick_pen_charge_state_generator : ScriptAction
quick_pen_charge_state_generator s =
    if leb s.param.param_from_script (buf_at s 2)
    then (true, battery_charge_state_toggle s)
    else (true, s)

unfoldable pub pen_distance_from_magnetic_generator : ScriptAction
pen_distance_from_magnetic_generator s =
    let sum = buf_sum s 4 in
    let t = buf_put 4 sum s in
    if leb 200 sum && leb sum 210
    then (true, magnetic_state_set true (buf_put 4 0 t))
    else if ltb sum 210
    then (true, magnetic_state_set false t)
    else (true, buf_put 4 0 t)

unfoldable pub quick_pen_distance_from_magnetic_generator : ScriptAction
quick_pen_distance_from_magnetic_generator s =
    if buf_at s 2 % 4 == 0
    then (true, magnetic_state_set true s)
    else (true, magnetic_state_set false s)

unfoldable pub pen_power_state_generator : ScriptAction
pen_power_state_generator s =
    let sum = buf_sum s 7 in
    let t = buf_put 7 sum s in
    if leb 100 sum && leb sum 120
    then (true, power_state_set true t)
    else if ltb sum 100
    then (true, power_state_set false t)
    else (true, buf_put 7 0 t)

unfoldable pub quick_pen_power_state_generator : ScriptAction
quick_pen_power_state_generator s =
    if leb (buf_at s 2) 2 then (true, power_state_set true s) else (true, power_state_set false s)
