-- ===== src/PowerSaving/Steps.antt =====
-- The tables of the files EmarkConnected.c, EmarkDisconnected.c, EmarkQuiet.c, EmarkShutDown.c and
-- EmarkChargeWhenShutDown.c: the same loop runs each of them. Their `CurrentState` is set anew in
-- each call.
use eclipse_code.Prelude.{ℕ, Option, some, none, List, [], ◌∷◌, ◌==◌, if◌then◌else◌}
use eclipse_code.PowerSaving.{PenBasicState, pbs_number, Pen}
use eclipse_code.PowerSaving.Decide.{
  pen_basic_state_get_under_certain_state, set_current_basic_state,
}

-- `PenState`
pub data PenState : Type 0 where
  ps_state_jump_detected : PenState
  ps_set : PenState
  ps_get : PenState
  ps_config : PenState
  ps_the_end : PenState

abbrev ps_number : PenState → ℕ
ps_number ps_state_jump_detected = 0
ps_number ps_set = 1
ps_number ps_get = 2
ps_number ps_config = 3
ps_number ps_the_end = 4

-- `Action`
abbrev pub PenAction : Type 0
PenAction = Pen → PenState × Pen

-- `_StateHandle`
pub record StateHandle : Type 0 where
  pub state : PenState
  pub action : Option PenAction

abbrev acted : Option PenAction → PenState → Pen → PenState × Pen
acted none s p = (s, p)
acted (some f) s p = f p

abbrev pub unless_end : (PenState → Pen → PenState × Pen) → PenState × Pen → PenState × Pen
unless_end go (s, p) = if ps_number s == 4 then (s, p) else go s p

-- the loop over the rows that are left, and what stands behind it
unfoldable pub handle_loop : List StateHandle → PenState → Pen → PenState × Pen
handle_loop [] s p = (ps_state_jump_detected, p)
handle_loop (row ∷ rows) s p =
    if ps_number row.state == ps_number s
    then unless_end (handle_loop rows) (acted row.action s p)
    else handle_loop rows s p

-- `StateJumpDetectedAction` of the file for the state `me`
abbrev pub jump_decided : PenBasicState → PenBasicState × Pen → PenState × Pen
jump_decided me (pbs, p) =
    if pbs_number pbs == pbs_number me
    then (ps_set, p)
    else (ps_the_end, (set_current_basic_state pbs p).1)

unfoldable pub state_jump_detected : PenBasicState → PenBasicState → PenAction
state_jump_detected unset me p =
    jump_decided me (pen_basic_state_get_under_certain_state unset me p)
