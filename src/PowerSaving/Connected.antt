-- ===== src/PowerSaving/Connected.antt =====
-- [T]LogicLab/TB_PowerSaving/EmarkConnected.c: the steps of the pen in the state.
use eclipse_code.Prelude.{some, none, List, [], ◌∷◌}
use eclipse_code.PowerSaving.{PenBasicState, pbs_connected, Pen}
use eclipse_code.PowerSaving.Steps.{
  ps_state_jump_detected, ps_set, ps_get, ps_config, ps_the_end, PenAction, StateHandle,
  handle_loop, state_jump_detected,
}

-- what a variable of the decision holds before it is set
module _ (unset : PenBasicState) where
  abbrev pub state_jump_detected_action : PenAction
  state_jump_detected_action = state_jump_detected unset pbs_connected

  abbrev pub set_action : PenAction
  set_action p = (ps_get, p)

  abbrev pub get_action : PenAction
  get_action p = (ps_config, p)

  abbrev pub config_action : PenAction
  config_action p = (ps_the_end, p)

  -- `StateHandle`
  abbrev pub state_handle : List StateHandle
  state_handle =
      record { state = ps_state_jump_detected; action = some state_jump_detected_action }
      ∷ record { state = ps_set; action = some set_action }
      ∷ record { state = ps_get; action = some get_action }
      ∷ record { state = ps_config; action = some config_action }
      ∷ record { state = ps_the_end; action = none }
      ∷ []

  unfoldable pub pen_connected_state_handle : Pen → Pen
  pen_connected_state_handle p = (handle_loop state_handle ps_state_jump_detected p).1
