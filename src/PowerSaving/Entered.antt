-- ===== src/PowerSaving/Entered.antt =====
-- `SetCurrentBasicState` of PenState.c enters the state that was decided, in each of the tables.
use eclipse_code.Prelude.{◌≡◌, refl, sym, Bool, true, false, if◌then◌else◌, List, [], ◌∷◌}
use eclipse_code.PowerSaving.{
  PenBasicState, pbs_just_wake_up, pbs_get_global_state, pbs_charge_when_shut_down,
  pbs_disconnected, pbs_connected, pbs_going_to_shut_down, pbs_quiet, Pen, Inputs,
}
use eclipse_code.PowerSaving.Decide.{set_current_basic_state}
use mathlib.Core.Bool.{true≢false}
use eclipse_code.PowerSaving.Connected
use eclipse_code.PowerSaving.Steps.{StateHandle, handle_loop, unless_end, jump_decided}
use eclipse_code.PowerSaving.Connected.{pen_connected_state_handle}
use eclipse_code.PowerSaving.Disconnected
use eclipse_code.PowerSaving.Disconnected.{pen_disconnected_state_handle}
use eclipse_code.PowerSaving.Quiet
use eclipse_code.PowerSaving.Quiet.{pen_quiet_state_handle}
use eclipse_code.PowerSaving.ChargeWhenShutDown
use eclipse_code.PowerSaving.ChargeWhenShutDown.{pen_charge_when_shut_down_state_handle}
use eclipse_code.PowerSaving.Next.{stop, awake, linked, plugged}

-- a state that `SetCurrentBasicState` takes
abbrev pub entered : PenBasicState → Bool
entered pbs_just_wake_up = false
entered pbs_get_global_state = false
entered pbs_charge_when_shut_down = true
entered pbs_disconnected = true
entered pbs_connected = true
entered pbs_going_to_shut_down = true
entered pbs_quiet = true

either-entered :
    (b : Bool) (s t : PenBasicState)
    → entered s ≡ true
    → entered t ≡ true
    → entered (if b then s else t) ≡ true
either-entered true s t es et = es
either-entered false s t es et = et

pub linked-entered : (i : Inputs) → entered (linked i) ≡ true
linked-entered i =
    either-entered (stop i) pbs_going_to_shut_down
      (if i.is_ble_connected then pbs_connected else pbs_disconnected) refl
      (either-entered i.is_ble_connected pbs_connected pbs_disconnected refl refl)

pub awake-entered : (i : Inputs) → entered (awake i) ≡ true
awake-entered i =
    either-entered (stop i) pbs_going_to_shut_down
      (if i.is_ble_connected
        then pbs_connected
        else if i.is_pen_move
        then pbs_disconnected
        else pbs_quiet)
      refl
      (either-entered i.is_ble_connected pbs_connected
        (if i.is_pen_move then pbs_disconnected else pbs_quiet) refl
        (either-entered i.is_pen_move pbs_disconnected pbs_quiet refl refl))

pub plugged-entered : (i : Inputs) → entered (plugged i) ≡ true
plugged-entered i =
    either-entered i.is_wake_up_button_pushed pbs_disconnected
      (if i.is_battery_charge then pbs_charge_when_shut_down else pbs_going_to_shut_down) refl
      (either-entered i.is_battery_charge pbs_charge_when_shut_down pbs_going_to_shut_down refl
        refl)

abbrev pub at : PenBasicState → Pen → Pen
at s p = record p { current_state = s }

abbrev pub rest : List StateHandle → List StateHandle
rest [] = []
rest (row ∷ rows) = rows

-- The handle behind a decision, in each of the states.
pub connected_decided :
    (unset s : PenBasicState) (p : Pen)
    → entered s ≡ true
    → (unless_end
        (handle_loop (rest (Connected.state_handle unset)))
        (jump_decided pbs_connected (s, at pbs_connected p))).1.current_state
      ≡ s
unfolding handle_loop set_current_basic_state
connected_decided unset pbs_just_wake_up p ok = absurd (true≢false (sym ok))
connected_decided unset pbs_get_global_state p ok = absurd (true≢false (sym ok))
connected_decided unset pbs_charge_when_shut_down p ok = refl
connected_decided unset pbs_disconnected p ok = refl
connected_decided unset pbs_connected p ok = refl
connected_decided unset pbs_going_to_shut_down p ok = refl
connected_decided unset pbs_quiet p ok = refl

pub disconnected_decided :
    (unset s : PenBasicState) (p : Pen)
    → entered s ≡ true
    → (unless_end
        (handle_loop (rest (Disconnected.state_handle unset)))
        (jump_decided pbs_disconnected (s, at pbs_disconnected p))).1.current_state
      ≡ s
unfolding handle_loop set_current_basic_state
disconnected_decided unset pbs_just_wake_up p ok = absurd (true≢false (sym ok))
disconnected_decided unset pbs_get_global_state p ok = absurd (true≢false (sym ok))
disconnected_decided unset pbs_charge_when_shut_down p ok = refl
disconnected_decided unset pbs_disconnected p ok = refl
disconnected_decided unset pbs_connected p ok = refl
disconnected_decided unset pbs_going_to_shut_down p ok = refl
disconnected_decided unset pbs_quiet p ok = refl

pub quiet_decided :
    (unset s : PenBasicState) (p : Pen)
    → entered s ≡ true
    → (unless_end
        (handle_loop (rest (Quiet.state_handle unset)))
        (jump_decided pbs_quiet (s, at pbs_quiet p))).1.current_state
      ≡ s
unfolding handle_loop set_current_basic_state
quiet_decided unset pbs_just_wake_up p ok = absurd (true≢false (sym ok))
quiet_decided unset pbs_get_global_state p ok = absurd (true≢false (sym ok))
quiet_decided unset pbs_charge_when_shut_down p ok = refl
quiet_decided unset pbs_disconnected p ok = refl
quiet_decided unset pbs_connected p ok = refl
quiet_decided unset pbs_going_to_shut_down p ok = refl
quiet_decided unset pbs_quiet p ok = refl

pub charge_when_shut_down_decided :
    (unset s : PenBasicState) (p : Pen)
    → entered s ≡ true
    → (unless_end (handle_loop (rest (ChargeWhenShutDown.state_handle unset))) (
        jump_decided pbs_charge_when_shut_down (s, at pbs_charge_when_shut_down p))).1.current_state
      ≡ s
unfolding handle_loop set_current_basic_state
charge_when_shut_down_decided unset pbs_just_wake_up p ok = absurd (true≢false (sym ok))
charge_when_shut_down_decided unset pbs_get_global_state p ok = absurd (true≢false (sym ok))
charge_when_shut_down_decided unset pbs_charge_when_shut_down p ok = refl
charge_when_shut_down_decided unset pbs_disconnected p ok = refl
charge_when_shut_down_decided unset pbs_connected p ok = refl
charge_when_shut_down_decided unset pbs_going_to_shut_down p ok = refl
charge_when_shut_down_decided unset pbs_quiet p ok = refl
