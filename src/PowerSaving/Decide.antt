-- ===== src/PowerSaving/Decide.antt =====
-- `PenStateCollect`, `PenBasicStateGet`, `PenBasicStateGetUnderCertainState` and
-- `SetCurrentBasicState` of PenState.c, and the five inits of the states.
use eclipse_code.Prelude.{Bool, true, false, ◌||◌, not, ◌==◌, if◌then◌else◌}
use eclipse_code.PowerSaving.{
  PenBasicState, pbs_just_wake_up, pbs_get_global_state, pbs_charge_when_shut_down,
  pbs_disconnected, pbs_connected, pbs_going_to_shut_down, pbs_quiet, pbs_number, Pen, does,
  pen_state_user_shut_down, pen_state_ble_connected, pen_state_pen_move, pen_state_pen_charge,
  pen_state_pen_near_magnetic, pen_state_pen_charge_when_shut_down, pen_state_wake_up_button_push,
  ble_stata_check, magnetic_strength_check, user_shut_down_check, wake_up_button_pushed_check,
  motion_state_check, does_charge_in,
}

-- `PenStateCollect`
unfoldable pub pen_state_collect : Pen → Pen
pen_state_collect p =
    magnetic_strength_check
      (ble_stata_check (motion_state_check (does_charge_in (user_shut_down_check p))))

-- `PenBasicStateGet`
unfoldable pub pen_basic_state_get : Pen → PenBasicState
pen_basic_state_get p =
    if does pen_state_pen_charge_when_shut_down p
    then pbs_charge_when_shut_down
    else if does pen_state_pen_near_magnetic p
    then pbs_going_to_shut_down
    else if does pen_state_user_shut_down p
    then pbs_going_to_shut_down
    else if does pen_state_ble_connected p
    then pbs_connected
    else pbs_disconnected

-- the inits of the states; two of them reset a flag
abbrev pub pen_quiet_state_init : Pen → Pen
pen_quiet_state_init p = record p { is_sure_quiet = false }

abbrev pub pen_shut_down_state_init : Pen → Pen
pen_shut_down_state_init p = record p { is_sure_shut_down = false }

abbrev enter : PenBasicState → Pen → Bool × Pen
enter pbs_charge_when_shut_down p = (true, record p { current_state = pbs_charge_when_shut_down })
enter pbs_disconnected p = (true, record p { current_state = pbs_disconnected })
enter pbs_connected p = (true, record p { current_state = pbs_connected })
enter pbs_going_to_shut_down p =
    (true, record (pen_shut_down_state_init p) { current_state = pbs_going_to_shut_down })
enter pbs_quiet p = (true, record (pen_quiet_state_init p) { current_state = pbs_quiet })
enter pbs_just_wake_up p = (false, p)
enter pbs_get_global_state p = (false, p)

-- `SetCurrentBasicState`
unfoldable pub set_current_basic_state : PenBasicState → Pen → Bool × Pen
set_current_basic_state state p =
    if pbs_number state == pbs_number p.current_state then (true, p) else enter state p

-- what `pbs` holds before it is set
module _ (unset : PenBasicState) where
  abbrev pub quiet_or_disconnected : Pen → PenBasicState
  quiet_or_disconnected p =
      if does pen_state_user_shut_down p || does pen_state_pen_near_magnetic p
      then pbs_going_to_shut_down
      else if does pen_state_ble_connected p
      then pbs_connected
      else if not (does pen_state_pen_move p)
      then pbs_quiet
      else pbs_disconnected

  abbrev pub charging : Pen → PenBasicState
  charging p =
      if does pen_state_pen_charge p
      then if does pen_state_wake_up_button_push p
        then pbs_disconnected
        else pbs_charge_when_shut_down
      else if does pen_state_wake_up_button_push p
      then pbs_disconnected
      else pbs_going_to_shut_down

  abbrev pub connected : Pen → PenBasicState
  connected p =
      if does pen_state_user_shut_down p || does pen_state_pen_near_magnetic p
      then pbs_going_to_shut_down
      else if not (does pen_state_ble_connected p)
      then pbs_disconnected
      else pbs_connected

  abbrev pub checked : Pen → Pen
  checked p = user_shut_down_check (does_charge_in (magnetic_strength_check (ble_stata_check p)))

  -- `PenBasicStateGetUnderCertainState`
  unfoldable pub pen_basic_state_get_under_certain_state : PenBasicState → Pen → PenBasicState × Pen
  pen_basic_state_get_under_certain_state pbs_charge_when_shut_down p =
      let q = wake_up_button_pushed_check (does_charge_in p) in (charging q, q)
  pen_basic_state_get_under_certain_state pbs_quiet p =
      let q = motion_state_check (checked p) in (quiet_or_disconnected q, q)
  pen_basic_state_get_under_certain_state pbs_disconnected p =
      let q = motion_state_check (checked p) in (quiet_or_disconnected q, q)
  pen_basic_state_get_under_certain_state pbs_connected p = let q = checked p in (connected q, q)
  pen_basic_state_get_under_certain_state pbs_going_to_shut_down p = (pbs_going_to_shut_down, p)
  pen_basic_state_get_under_certain_state pbs_just_wake_up p = (unset, p)
  pen_basic_state_get_under_certain_state pbs_get_global_state p = (unset, p)
