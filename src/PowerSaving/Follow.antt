-- ===== src/PowerSaving/Follow.antt =====
-- `PenBasicStateHandle` of PenState.c goes to the state that `next_state` says.
use eclipse_code.Prelude.{
  ◌≡◌, refl, ap, ◌∙◌, Bool, true, false, leb, ltb, if◌then◌else◌, Bool-cases, inl, inr, arith,
}
use eclipse_code.PowerSaving.{
  PenBasicState, pbs_just_wake_up, pbs_get_global_state, pbs_charge_when_shut_down,
  pbs_disconnected, pbs_connected, pbs_going_to_shut_down, pbs_quiet, Pen, motion_state_check,
  wake_up_button_pushed_check, does_charge_in,
}
use eclipse_code.PowerSaving.Decide.{
  set_current_basic_state, quiet_or_disconnected, charging, connected, checked,
  pen_basic_state_get_under_certain_state,
}
use eclipse_code.PowerSaving.Steps.{
  ps_config, ps_state_jump_detected, handle_loop, state_jump_detected,
}
use eclipse_code.PowerSaving.Connected.{pen_connected_state_handle}
use eclipse_code.PowerSaving.Disconnected.{pen_disconnected_state_handle}
use eclipse_code.PowerSaving.Quiet
use eclipse_code.PowerSaving.Quiet.{pen_quiet_state_handle}
use eclipse_code.PowerSaving.ShutDown.{pen_shut_down_state_handle}
use eclipse_code.PowerSaving.ChargeWhenShutDown.{pen_charge_when_shut_down_state_handle}
use eclipse_code.PowerSaving.Basic.{basic_loop, pen_basic_state_handle}
use eclipse_code.PowerSaving.Next.{
  awake, linked, plugged, next_state, connected_lem, awake_lem, charging_lem, begun_lem,
}
use eclipse_code.PowerSaving.Entered.{
  entered, linked-entered, awake-entered, plugged-entered, at, connected_decided,
  disconnected_decided, quiet_decided, charge_when_shut_down_decided,
}

connected_handled :
    (unset : PenBasicState) (p : Pen)
    → (pen_connected_state_handle unset (at pbs_connected p)).current_state ≡ linked p.inputs
unfolding pen_connected_state_handle handle_loop state_jump_detected
    pen_basic_state_get_under_certain_state set_current_basic_state
connected_handled unset p =
    let q : Pen = checked unset (at pbs_connected p) in
    let same : connected unset q ≡ linked p.inputs = connected_lem unset (at pbs_connected p) in
    connected_decided unset (connected unset q) q (ap entered same ∙ linked-entered p.inputs) ∙ same

disconnected_handled :
    (unset : PenBasicState) (p : Pen)
    → (pen_disconnected_state_handle unset (at pbs_disconnected p)).current_state ≡ awake p.inputs
unfolding pen_disconnected_state_handle handle_loop state_jump_detected
    pen_basic_state_get_under_certain_state set_current_basic_state
disconnected_handled unset p =
    let q : Pen = motion_state_check (checked unset (at pbs_disconnected p)) in
    let same : quiet_or_disconnected unset q ≡ awake p.inputs =
      awake_lem unset (at pbs_disconnected p) in
    disconnected_decided unset (quiet_or_disconnected unset q) q
      (ap entered same ∙ awake-entered p.inputs)
    ∙ same

charge_when_shut_down_handled :
    (unset : PenBasicState) (p : Pen)
    → (pen_charge_when_shut_down_state_handle unset (at pbs_charge_when_shut_down p)).current_state
      ≡ plugged p.inputs
unfolding pen_charge_when_shut_down_state_handle handle_loop state_jump_detected
    pen_basic_state_get_under_certain_state set_current_basic_state
charge_when_shut_down_handled unset p =
    let q : Pen = wake_up_button_pushed_check (does_charge_in (at pbs_charge_when_shut_down p)) in
    let same : charging unset q ≡ plugged p.inputs =
      charging_lem unset (at pbs_charge_when_shut_down p) in
    charge_when_shut_down_decided unset (charging unset q) q
      (ap entered same ∙ plugged-entered p.inputs)
    ∙ same

quiet_from :
    (sure : Bool) (unset : PenBasicState) (p : Pen)
    → (handle_loop
        (Quiet.state_handle unset)
        (if sure then ps_config else ps_state_jump_detected)
        (at pbs_quiet p)).1.current_state
      ≡ (if sure then pbs_quiet else awake p.inputs)
unfolding handle_loop state_jump_detected pen_basic_state_get_under_certain_state
    set_current_basic_state
quiet_from true unset p = refl
quiet_from false unset p =
    let q : Pen = motion_state_check (checked unset (at pbs_quiet p)) in
    let same : quiet_or_disconnected unset q ≡ awake p.inputs = awake_lem unset (at pbs_quiet p) in
    quiet_decided unset (quiet_or_disconnected unset q) q (ap entered same ∙ awake-entered p.inputs)
    ∙ same

quiet_handled :
    (unset : PenBasicState) (p : Pen)
    → (pen_quiet_state_handle unset (at pbs_quiet p)).current_state
      ≡ (if p.is_sure_quiet then pbs_quiet else awake p.inputs)
unfolding pen_quiet_state_handle
quiet_handled unset p = quiet_from p.is_sure_quiet unset p

going_to_shut_down_handled :
    (unset : PenBasicState) (p : Pen)
    → (pen_shut_down_state_handle unset (at pbs_going_to_shut_down p)).current_state
      ≡ pbs_going_to_shut_down
unfolding pen_shut_down_state_handle handle_loop state_jump_detected
    pen_basic_state_get_under_certain_state
going_to_shut_down_handled unset p = elim (Bool-cases p.is_sure_shut_down) [
  | inl e ↦ rw e refl
  | inr e ↦ rw e refl
]

-- the handle at a known state
handle_at :
    (unset c : PenBasicState) (p : Pen)
    → (pen_basic_state_handle unset (at c p)).current_state ≡ next_state c p
unfolding pen_basic_state_handle basic_loop
handle_at unset pbs_just_wake_up p = elim (Bool-cases (leb 3 p.delay_counter)) [
  | inl e ↦ let late : ltb p.delay_counter 3 ≡ false = ground arith in rw (e, late) refl
  | inr e ↦ let early : ltb p.delay_counter 3 ≡ true = ground arith in rw (e, early) refl
]
handle_at unset pbs_get_global_state p = begun_lem (at pbs_get_global_state p)
handle_at unset pbs_charge_when_shut_down p = charge_when_shut_down_handled unset p
handle_at unset pbs_disconnected p = disconnected_handled unset p
handle_at unset pbs_connected p = connected_handled unset p
handle_at unset pbs_going_to_shut_down p = going_to_shut_down_handled unset p
handle_at unset pbs_quiet p = quiet_handled unset p

-- `PenBasicStateHandle` goes to the state of `next_state`. After the wake-up the delay counter decides;
-- at the start the factor bit of a charge when shut down, and the inputs; a pen that is sure to be quiet
-- stays quiet and one that is going to shut down stays so; else the inputs decide. No other bit of the
-- factors counts, nor what a variable holds before it is set.
pub handle-next_state :
    (unset : PenBasicState) (p : Pen)
    → (pen_basic_state_handle unset p).current_state ≡ next_state p.current_state p
handle-next_state unset p = handle_at unset p.current_state p
