-- ===== src/PowerSaving/Next.antt =====
-- The basic states of PenState.c that follow one another.
use eclipse_code.Prelude.{◌≡◌, refl, Bool, ◌||◌, leb, if◌then◌else◌, Bool-cases, inl, inr}
use eclipse_code.PowerSaving.{
  PenBasicState, pbs_just_wake_up, pbs_get_global_state, pbs_charge_when_shut_down,
  pbs_disconnected, pbs_connected, pbs_going_to_shut_down, pbs_quiet, Pen, Inputs, does,
  pen_state_pen_charge_when_shut_down, motion_state_check, wake_up_button_pushed_check,
  does_charge_in,
}
use eclipse_code.PowerSaving.Checks.{
  checked-user, checked-magnetic, checked-ble, moved-user, moved-magnetic, moved-ble, moved-move,
  plugged-wake, plugged-charge, collected-user, collected-magnetic, collected-ble,
  collected-charged,
}
use eclipse_code.PowerSaving.Decide.{
  pen_state_collect, pen_basic_state_get, quiet_or_disconnected, charging, connected, checked,
}

-- The inputs alone decide: what stops the pen, and the state behind each of the four decisions.
abbrev pub stop : Inputs → Bool
stop i = i.is_user_shut_down || i.is_magnetic_near

abbrev pub awake : Inputs → PenBasicState
awake i =
    if stop i
    then pbs_going_to_shut_down
    else if i.is_ble_connected
    then pbs_connected
    else if i.is_pen_move
    then pbs_disconnected
    else pbs_quiet

abbrev pub linked : Inputs → PenBasicState
linked i =
    if stop i
    then pbs_going_to_shut_down
    else if i.is_ble_connected
    then pbs_connected
    else pbs_disconnected

abbrev pub plugged : Inputs → PenBasicState
plugged i =
    if i.is_wake_up_button_pushed
    then pbs_disconnected
    else if i.is_battery_charge
    then pbs_charge_when_shut_down
    else pbs_going_to_shut_down

abbrev begun : Pen → PenBasicState
begun p =
    if does pen_state_pen_charge_when_shut_down p
    then pbs_charge_when_shut_down
    else linked p.inputs

-- The state that follows: after the wake-up by the delay counter, at the start by the bit of a charge
-- when shut down and by the inputs, in a pen that is sure to be quiet by nothing, else by the inputs.
abbrev pub next_state : PenBasicState → Pen → PenBasicState
next_state pbs_just_wake_up p =
    if leb 3 p.delay_counter then pbs_get_global_state else pbs_just_wake_up
next_state pbs_get_global_state p = begun p
next_state pbs_charge_when_shut_down p = plugged p.inputs
next_state pbs_disconnected p = awake p.inputs
next_state pbs_connected p = linked p.inputs
next_state pbs_going_to_shut_down p = pbs_going_to_shut_down
next_state pbs_quiet p = if p.is_sure_quiet then pbs_quiet else awake p.inputs

pub connected_lem :
    (unset : PenBasicState) (p : Pen) → connected unset (checked unset p) ≡ linked p.inputs
connected_lem unset p =
    rw (checked-user unset p, checked-magnetic unset p, checked-ble unset p)
      (elim (Bool-cases p.inputs.is_ble_connected) [ inl e ↦ rw e refl | inr e ↦ rw e refl ])

pub awake_lem :
    (unset : PenBasicState) (p : Pen)
    → quiet_or_disconnected unset (motion_state_check (checked unset p)) ≡ awake p.inputs
awake_lem unset p =
    rw (moved-user unset p, moved-magnetic unset p, moved-ble unset p, moved-move unset p)
      (elim (Bool-cases p.inputs.is_pen_move) [ inl e ↦ rw e refl | inr e ↦ rw e refl ])

pub charging_lem :
    (unset : PenBasicState) (p : Pen)
    → charging unset (wake_up_button_pushed_check (does_charge_in p)) ≡ plugged p.inputs
charging_lem unset p =
    rw (plugged-wake p, plugged-charge p)
      (elim (Bool-cases p.inputs.is_battery_charge) [ inl e ↦ rw e refl | inr e ↦ rw e refl ])

pub begun_lem : (p : Pen) → pen_basic_state_get (pen_state_collect p) ≡ begun p
unfolding pen_basic_state_get
begun_lem p =
    rw (collected-user p, collected-magnetic p, collected-ble p, collected-charged p)
      (elim (Bool-cases p.inputs.is_magnetic_near) [
        | inl e ↦ elim (Bool-cases p.inputs.is_user_shut_down) [
          | inl d ↦ rw (e, d) refl
          | inr d ↦ rw (e, d) refl
        ]
        | inr e ↦ elim (Bool-cases p.inputs.is_user_shut_down) [
          | inl d ↦ rw (e, d) refl
          | inr d ↦ rw (e, d) refl
        ]
      ])
