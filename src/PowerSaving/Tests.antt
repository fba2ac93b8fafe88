-- ===== src/PowerSaving/Tests.antt =====
-- Tests of the script functions, and the theorems on the pen at concrete pens.
use eclipse_code.Prelude.{ℕ, true, false, List, [], ◌∷◌, ◌≡◌, refl, arith, get_or}
use eclipse_code.PowerSaving.{pbs_quiet, pbs_connected, Inputs, Pen}
use eclipse_code.PowerSaving.Next.{next_state}
use eclipse_code.PowerSaving.Basic.{pen_basic_state_handle}
use eclipse_code.PowerSaving.Follow.{handle-next_state}
use eclipse_code.PowerSaving.Loops.{loop_lines, loop_lines_lem}
use eclipse_code.PowerSaving.Scene.{Scene}
use eclipse_code.PowerSaving.Generators.{pen_distance_from_magnetic_generator}
use eclipse_code.PowerSaving.Scripts.{
  call_function, call_loop, scripts_function_array, loop_specific_times,
}

abbrev some_inputs : Inputs
some_inputs = record {
  is_user_app_locked = false;
  is_battery_charge = true;
  is_pen_move = true;
  is_ble_connected = false;
  is_magnetic_near = false;
  is_power_low = false;
  is_user_shut_down = false;
  is_wake_up_button_pushed = false;
}

abbrev some_pen : Pen
some_pen = record {
  factor = 17;
  current_state = pbs_connected;
  time_stamp = 5;
  delay_counter = 0;
  is_sure_quiet = false;
  is_sure_shut_down = false;
  inputs = some_inputs;
}

abbrev a_scene : ℕ → List ℕ → Scene
a_scene n buf = record {
  param = record {
    is_param_valid = false;
    recent_pass_function_number = 0;
    param_from_script = n;
    buf_8 = buf;
    buf_16 = [];
    buf_32 = [];
  };
  pen = some_pen;
}

unknown_function : call_function 7 20 (a_scene 1 []) ≡ (false, a_scene 1 [])
unfolding call_function call_loop scripts_function_array
unknown_function = refl

loop_goes_on : (call_function 7 3 (a_scene 5 (9 ∷ 3 ∷ 0 ∷ []))).1.param.buf_8 ≡ 9 ∷ 4 ∷ 0 ∷ []
unfolding call_function call_loop scripts_function_array loop_specific_times
loop_goes_on = refl

magnetic_near :
    (call_function 7 9 (a_scene 5 (0 ∷ 0 ∷ 15 ∷ 0 ∷ 190 ∷ []))).1.pen.inputs.is_magnetic_near ≡ true
unfolding call_function call_loop scripts_function_array pen_distance_from_magnetic_generator
magnetic_near = refl

handle-next_state_example :
    (pen_basic_state_handle pbs_quiet some_pen).current_state ≡ next_state pbs_connected some_pen
handle-next_state_example = handle-next_state pbs_quiet some_pen

loop_lines_lem_example :
    ((loop_lines 7 21 20 5 (omega arith) (omega arith) 3 5 (a_scene 1 (4 ∷ 0 ∷ []))).0
      ≡ 19 ∷ 19 ∷ 19 ∷ 19 ∷ 20 ∷ [])
    × (get_or
          (loop_lines 7 21 20 5
            (omega arith)
            (omega arith)
            3
            5
            (a_scene 1 (4 ∷ 0 ∷ []))).1.param.buf_8
          1
          0
        ≡ 0)
loop_lines_lem_example =
    loop_lines_lem 7 21 20 5 (omega arith) (omega arith) 3 4 (a_scene 1 (4 ∷ 0 ∷ [])) (omega arith)
      refl refl (omega arith)
