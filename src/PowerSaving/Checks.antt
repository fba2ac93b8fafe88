-- ===== src/PowerSaving/Checks.antt =====
-- What the checks of PenState.c leave in the factors that the decisions read.
use eclipse_code.Prelude.{◌≡◌, refl, ◌∙◌, arith}
use eclipse_code.PowerSaving.{
  PenBasicState, Pen, does, pen_state_user_shut_down, pen_state_ble_connected, pen_state_pen_move,
  pen_state_pen_charge, pen_state_pen_near_magnetic, pen_state_pen_charge_when_shut_down,
  pen_state_wake_up_button_push, motion_state_check, wake_up_button_pushed_check, does_charge_in,
}
use eclipse_code.PowerSaving.Factors.{test-collect-same, test-collect-other}
use eclipse_code.PowerSaving.Decide.{pen_state_collect, checked}

pub checked-user :
    (unset : PenBasicState) (p : Pen)
    → does pen_state_user_shut_down (checked unset p) ≡ p.inputs.is_user_shut_down
checked-user unset p = test-collect-same _ 0 p.inputs.is_user_shut_down (omega arith)

pub checked-magnetic :
    (unset : PenBasicState) (p : Pen)
    → does pen_state_pen_near_magnetic (checked unset p) ≡ p.inputs.is_magnetic_near
checked-magnetic unset p =
    test-collect-other _ 0 4 p.inputs.is_user_shut_down (omega arith) (omega arith) refl
    ∙ test-collect-other _ 3 4 p.inputs.is_battery_charge (omega arith) (omega arith) refl
    ∙ test-collect-same _ 4 p.inputs.is_magnetic_near (omega arith)

pub checked-ble :
    (unset : PenBasicState) (p : Pen)
    → does pen_state_ble_connected (checked unset p) ≡ p.inputs.is_ble_connected
checked-ble unset p =
    test-collect-other _ 0 1 p.inputs.is_user_shut_down (omega arith) (omega arith) refl
    ∙ test-collect-other _ 3 1 p.inputs.is_battery_charge (omega arith) (omega arith) refl
    ∙ test-collect-other _ 4 1 p.inputs.is_magnetic_near (omega arith) (omega arith) refl
    ∙ test-collect-same _ 1 p.inputs.is_ble_connected (omega arith)

pub moved-user :
    (unset : PenBasicState) (p : Pen)
    → does pen_state_user_shut_down (motion_state_check (checked unset p))
      ≡ p.inputs.is_user_shut_down
moved-user unset p =
    test-collect-other _ 2 0 p.inputs.is_pen_move (omega arith) (omega arith) refl
    ∙ test-collect-same _ 0 p.inputs.is_user_shut_down (omega arith)

pub moved-magnetic :
    (unset : PenBasicState) (p : Pen)
    → does pen_state_pen_near_magnetic (motion_state_check (checked unset p))
      ≡ p.inputs.is_magnetic_near
moved-magnetic unset p =
    test-collect-other _ 2 4 p.inputs.is_pen_move (omega arith) (omega arith) refl
    ∙ test-collect-other _ 0 4 p.inputs.is_user_shut_down (omega arith) (omega arith) refl
    ∙ test-collect-other _ 3 4 p.inputs.is_battery_charge (omega arith) (omega arith) refl
    ∙ test-collect-same _ 4 p.inputs.is_magnetic_near (omega arith)

pub moved-ble :
    (unset : PenBasicState) (p : Pen)
    → does pen_state_ble_connected (motion_state_check (checked unset p))
      ≡ p.inputs.is_ble_connected
moved-ble unset p =
    test-collect-other _ 2 1 p.inputs.is_pen_move (omega arith) (omega arith) refl
    ∙ test-collect-other _ 0 1 p.inputs.is_user_shut_down (omega arith) (omega arith) refl
    ∙ test-collect-other _ 3 1 p.inputs.is_battery_charge (omega arith) (omega arith) refl
    ∙ test-collect-other _ 4 1 p.inputs.is_magnetic_near (omega arith) (omega arith) refl
    ∙ test-collect-same _ 1 p.inputs.is_ble_connected (omega arith)

pub moved-move :
    (unset : PenBasicState) (p : Pen)
    → does pen_state_pen_move (motion_state_check (checked unset p)) ≡ p.inputs.is_pen_move
moved-move unset p = test-collect-same _ 2 p.inputs.is_pen_move (omega arith)

pub plugged-wake :
    (p : Pen)
    → does pen_state_wake_up_button_push (wake_up_button_pushed_check (does_charge_in p))
      ≡ p.inputs.is_wake_up_button_pushed
plugged-wake p = test-collect-same _ 7 p.inputs.is_wake_up_button_pushed (omega arith)

pub plugged-charge :
    (p : Pen)
    → does pen_state_pen_charge (wake_up_button_pushed_check (does_charge_in p))
      ≡ p.inputs.is_battery_charge
plugged-charge p =
    test-collect-other _ 7 3 p.inputs.is_wake_up_button_pushed (omega arith) (omega arith) refl
    ∙ test-collect-same _ 3 p.inputs.is_battery_charge (omega arith)

pub collected-user :
    (p : Pen) → does pen_state_user_shut_down (pen_state_collect p) ≡ p.inputs.is_user_shut_down
unfolding pen_state_collect
collected-user p =
    test-collect-other _ 4 0 p.inputs.is_magnetic_near (omega arith) (omega arith) refl
    ∙ test-collect-other _ 1 0 p.inputs.is_ble_connected (omega arith) (omega arith) refl
    ∙ test-collect-other _ 2 0 p.inputs.is_pen_move (omega arith) (omega arith) refl
    ∙ test-collect-other _ 3 0 p.inputs.is_battery_charge (omega arith) (omega arith) refl
    ∙ test-collect-same _ 0 p.inputs.is_user_shut_down (omega arith)

pub collected-magnetic :
    (p : Pen) → does pen_state_pen_near_magnetic (pen_state_collect p) ≡ p.inputs.is_magnetic_near
unfolding pen_state_collect
collected-magnetic p = test-collect-same _ 4 p.inputs.is_magnetic_near (omega arith)

pub collected-ble :
    (p : Pen) → does pen_state_ble_connected (pen_state_collect p) ≡ p.inputs.is_ble_connected
unfolding pen_state_collect
collected-ble p =
    test-collect-other _ 4 1 p.inputs.is_magnetic_near (omega arith) (omega arith) refl
    ∙ test-collect-same _ 1 p.inputs.is_ble_connected (omega arith)

pub collected-charged :
    (p : Pen)
    → does pen_state_pen_charge_when_shut_down (pen_state_collect p)
      ≡ does pen_state_pen_charge_when_shut_down p
unfolding pen_state_collect
collected-charged p =
    test-collect-other _ 4 6 p.inputs.is_magnetic_near (omega arith) (omega arith) refl
    ∙ test-collect-other _ 1 6 p.inputs.is_ble_connected (omega arith) (omega arith) refl
    ∙ test-collect-other _ 2 6 p.inputs.is_pen_move (omega arith) (omega arith) refl
    ∙ test-collect-other _ 3 6 p.inputs.is_battery_charge (omega arith) (omega arith) refl
    ∙ test-collect-other _ 0 6 p.inputs.is_user_shut_down (omega arith) (omega arith) refl
