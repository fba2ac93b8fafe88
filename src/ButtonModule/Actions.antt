-- ===== src/ButtonModule/Actions.antt =====
-- The eleven actions of ButtonModule.c, and the table of them.
use eclipse_code.Prelude.{ℕ, Option, some, none, List, [], ◌∷◌, leb, if◌then◌else◌}
use eclipse_code.StateMachine.{MachineParam, StateAction}
use eclipse_code.ButtonModule.{
  ParamSingleButton, ButtonStateFlag, Button, pat_default, does_valid_push, does_valid_release,
  does_valid_long_push, does_valid_long_release, clear_push_counter, clear_release_counter,
  button_flag_init, button_flag_set, ba_click, ba_doubleclick, ba_longpush, ba_longpushrelease,
}

-- a state number and the parameter as the action leaves it
abbrev pub Jump : Type 0
Jump = ℕ × MachineParam Button

abbrev pub with_psb : MachineParam Button → ParamSingleButton → MachineParam Button
with_psb p b = record p { user = record (p.user) { s_psb = b } }

abbrev pub with_flag : MachineParam Button → ButtonStateFlag → MachineParam Button
with_flag p f = record p { user = record (p.user) { s_bsf = f } }

-- the settings: `ModuleLoopTimeInMS`, `button_number`, and `config` that may be null
module _ (loop_time button_number : ℕ)
    (config : Option (ParamSingleButton → ParamSingleButton)) where
  -- `config(&s_psb)`, or the default thresholds
  abbrev pub configured :
      Option (ParamSingleButton → ParamSingleButton) → ParamSingleButton → ParamSingleButton
  configured none b = record b { p_spat = pat_default }
  configured (some f) b = f b

  unfoldable pub init_action : MachineParam Button → Jump
  init_action p =
      let b = configured config p.user.s_psb in
      let c = record b {
        push_time_counter = 0;
        release_time_counter = 0;
        latest_push_time_counter_backup = 0;
      } in
      (1, with_flag (with_psb p c) (button_flag_init p.user.s_bsf))

  unfoldable pub start_action : MachineParam Button → Jump
  start_action p = (2, p)

  unfoldable pub click_detect_action : MachineParam Button → Jump
  click_detect_action p =
      if does_valid_push loop_time p.user.s_psb
      then (3, with_psb p (clear_push_counter p.user.s_psb))
      else if does_valid_long_release loop_time p.user.s_psb
      then (1, p)
      else (p.current_state, p)

  unfoldable pub long_push_detect_action : MachineParam Button → Jump
  long_push_detect_action p =
      if does_valid_long_push loop_time p.user.s_psb
      then (4, p)
      else if does_valid_release loop_time p.user.s_psb
      then (7, with_psb p (clear_release_counter p.user.s_psb))
      else (p.current_state, p)

  unfoldable pub sure_long_push_action : MachineParam Button → Jump
  sure_long_push_action p =
      (5, with_flag p (button_flag_set ba_longpush p.user.current_button_number 0 p.user.s_bsf))

  unfoldable pub long_push_release_detect_action : MachineParam Button → Jump
  long_push_release_detect_action p =
      if leb button_number p.user.current_button_number
      then (0, p)
      else if does_valid_release loop_time p.user.s_psb
      then (6, p)
      else (p.current_state, p)

  unfoldable pub sure_long_push_release_action : MachineParam Button → Jump
  sure_long_push_release_action p =
      if leb button_number p.user.current_button_number then (0, p) else (
        1,
        with_flag p (
            button_flag_set ba_longpushrelease p.user.current_button_number
              p.user.s_psb.latest_push_time_counter_backup p.user.s_bsf),
      )

  unfoldable pub click_release_detect_action : MachineParam Button → Jump
  click_release_detect_action p =
      if leb button_number p.user.current_button_number
      then (0, p)
      else if does_valid_long_release loop_time p.user.s_psb
      then (9, p)
      else if does_valid_push loop_time p.user.s_psb
      then (8, with_psb p (clear_push_counter p.user.s_psb))
      else (p.current_state, p)

  unfoldable pub double_click_detect_action : MachineParam Button → Jump
  double_click_detect_action p =
      if leb button_number p.user.current_button_number
      then (0, p)
      else if does_valid_release loop_time p.user.s_psb
      then (10, p)
      else if does_valid_long_push loop_time p.user.s_psb
      then (4, p)
      else (p.current_state, p)

  unfoldable pub sure_click_action : MachineParam Button → Jump
  sure_click_action p =
      (1, with_flag p (button_flag_set ba_click p.user.current_button_number 0 p.user.s_bsf))

  unfoldable pub sure_double_click_action : MachineParam Button → Jump
  sure_double_click_action p =
      (1, with_flag p (button_flag_set ba_doubleclick p.user.current_button_number 0 p.user.s_bsf))

  -- the table of the actions, in the order of `ButtonMonitorState`
  unfoldable pub button_state_action : List (StateAction Button)
  button_state_action =
      some init_action
      ∷ some start_action
      ∷ some click_detect_action
      ∷ some long_push_detect_action
      ∷ some sure_long_push_action
      ∷ some long_push_release_detect_action
      ∷ some sure_long_push_release_action
      ∷ some click_release_detect_action
      ∷ some double_click_detect_action
      ∷ some sure_click_action
      ∷ some sure_double_click_action
      ∷ []
