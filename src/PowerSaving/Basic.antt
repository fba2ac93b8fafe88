-- ===== src/PowerSaving/Basic.antt =====
-- The basic states of PenState.c: the actions, the table, and the loop that runs one of them.
use eclipse_code.Prelude.{ℕ, ◌+◌, Option, some, none, List, [], ◌∷◌, ◌==◌, ltb, if◌then◌else◌}
use eclipse_code.PowerSaving.{
  PenBasicState, pbs_just_wake_up, pbs_get_global_state, pbs_charge_when_shut_down,
  pbs_disconnected, pbs_connected, pbs_going_to_shut_down, pbs_quiet, pbs_number, Pen,
  battery_is_charger_connected, collect, pen_state_pen_charge_when_shut_down,
}
use eclipse_code.PowerSaving.Decide.{
  pen_state_collect, pen_basic_state_get, set_current_basic_state, pen_quiet_state_init,
  pen_shut_down_state_init,
}
use eclipse_code.PowerSaving.Connected.{pen_connected_state_handle}
use eclipse_code.PowerSaving.Disconnected.{pen_disconnected_state_handle}
use eclipse_code.PowerSaving.Quiet.{pen_quiet_state_handle}
use eclipse_code.PowerSaving.ShutDown.{pen_shut_down_state_handle}
use eclipse_code.PowerSaving.ChargeWhenShutDown.{pen_charge_when_shut_down_state_handle}

-- `WAKE_UP_DELAY`
abbrev wake_up_delay : ℕ
wake_up_delay = 3

abbrev BasicAction : Type 0
BasicAction = Pen → PenBasicState × Pen

-- the row of the table
pub record BasicHandle : Type 0 where
  pub state : PenBasicState
  pub action : Option BasicAction

abbrev just_wake_up_action : BasicAction
just_wake_up_action p =
    if ltb p.delay_counter wake_up_delay
    then (pbs_just_wake_up, record p { delay_counter = p.delay_counter + 1 })
    else (pbs_get_global_state, record p { delay_counter = 0 })

abbrev get_global_state_action : BasicAction
get_global_state_action p =
    let q = pen_state_collect p in
    let state = pen_basic_state_get q in (state, (set_current_basic_state state q).1)

-- an action that runs the handle of its state
abbrev handled : (Pen → Pen) → BasicAction
handled handle p = let q = handle p in (q.current_state, q)

abbrev put_state : PenBasicState × Pen → Pen
put_state (s, p) = record p { current_state = s }

abbrev row_done : Option BasicAction → (Pen → Pen) → Pen → Pen
row_done none go p = go p
row_done (some f) go p = put_state (f p)

-- the loop of `PenBasicStateHandle`
unfoldable pub basic_loop : List BasicHandle → Pen → Pen
basic_loop [] p = record p { current_state = pbs_just_wake_up }
basic_loop (row ∷ rows) p =
    if pbs_number row.state == pbs_number p.current_state
    then row_done row.action (basic_loop rows) p
    else basic_loop rows p

module _ (unset : PenBasicState) where
  -- `StateHandle`
  abbrev basic_handle : List BasicHandle
  basic_handle =
      record { state = pbs_just_wake_up; action = some just_wake_up_action }
      ∷ record { state = pbs_get_global_state; action = some get_global_state_action }
      ∷ record {
        state = pbs_charge_when_shut_down;
        action = some (handled (pen_charge_when_shut_down_state_handle unset));
      }
      ∷ record {
        state = pbs_disconnected;
        action = some (handled (pen_disconnected_state_handle unset));
      }
      ∷ record { state = pbs_connected; action = some (handled (pen_connected_state_handle unset)) }
      ∷ record {
        state = pbs_going_to_shut_down;
        action = some (handled (pen_shut_down_state_handle unset));
      }
      ∷ record { state = pbs_quiet; action = some (handled (pen_quiet_state_handle unset)) }
      ∷ []

  -- `PenBasicStateHandle`
  unfoldable pub pen_basic_state_handle : Pen → Pen
  pen_basic_state_handle p = basic_loop basic_handle p

-- `PenStateInit`
abbrev pen_state_init : Pen → Pen
pen_state_init p =
    let q = pen_quiet_state_init (pen_shut_down_state_init p) in
    collect pen_state_pen_charge_when_shut_down (battery_is_charger_connected q) q

-- `AllPeripheralInit`
unfoldable pub all_peripheral_init : Pen → Pen
all_peripheral_init p =
    pen_state_init
      (record p { current_state = pbs_just_wake_up; time_stamp = 0; delay_counter = 0 })
