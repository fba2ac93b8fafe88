-- ===== src/ButtonModule/Siblings.antt =====
-- The turns of the other buttons in `ButtonStateMonitor` of ButtonModule.c: a button that is past its
-- initial state stays so, and leaves the bit of button `i` in the flag of long pushes.
use eclipse_code.Prelude.{
  ℕ, zero, suc, ◌<◌, ◌≡◌, ◌≢◌, refl, ap, ◌∙◌, Bool, true, false, Option, some, none, leb,
  if◌then◌else◌, arith, Bool-cases, inl, inr, test_bit, get_or,
}
use eclipse_code.BitOperation.{twobyte_lem}
use eclipse_code.StateMachine.{MachineParam, Records}
use eclipse_code.ButtonModule.{
  ParamSingleButton, ButtonStateFlag, Button, button_flag_set, ba_click, ba_doubleclick,
  ba_longpush, ba_longpushrelease, does_valid_push, does_valid_release, does_valid_long_push,
  does_valid_long_release, ButtonAction,
}
use eclipse_code.ButtonModule.Actions.{
  Jump, with_flag, start_action, click_detect_action, long_push_detect_action,
  sure_long_push_action, long_push_release_detect_action, sure_long_push_release_action,
  click_release_detect_action, double_click_detect_action, sure_click_action,
  sure_double_click_action, button_state_action,
}
use eclipse_code.ButtonModule.Monitor.{ButtonPlace, button_turn}
use eclipse_code.ButtonModule.Turns.{at_state, turn_action}

-- past the initial state
pub record IsStarted (state : ℕ) : Type 0 where
  pub later : 0 < state
  pub inside : state < 11

-- another button's flag leaves the bit
flag_kept :
    (a : ButtonAction) (i j last : ℕ) (f : ButtonStateFlag)
    → i ≢ j
    → i < 16
    → j < 16
    → test_bit (button_flag_set a j last f).is_longpush i ≡ test_bit f.is_longpush i
unfolding button_flag_set
flag_kept ba_click i j last f ne li lj = refl
flag_kept ba_doubleclick i j last f ne li lj = refl
flag_kept ba_longpush i j last f ne li lj =
    (twobyte_lem f.is_longpush j i (omega (arith, lj)) li).0 ∙ ground arith
flag_kept ba_longpushrelease i j last f ne li lj = elim (Bool-cases (leb 16 j)) [
  | inl e ↦ rw e refl
  | inr e ↦ rw e refl
]

module _ (loop_time button_number : ℕ) (config : Option (ParamSingleButton → ParamSingleButton))
    (hops : ℕ) (some_hop : 0 < hops) (i j : ℕ) (other : i ≢ j) (low : i < 16) (room : j < 16)
    (inside : j < button_number) where
  -- a jump to a started state that keeps the bit
  record Kept (word : ℕ) (jump : Jump) : Type 0 where
    started : IsStarted jump.0
    bit : test_bit jump.1.user.s_bsf.is_longpush i ≡ test_bit word i

  either-Kept :
      (word : ℕ) (b : Bool) (s t : Jump)
      → Kept word s
      → Kept word t
      → Kept word (if b then s else t)
  either-Kept word true s t ks kt = ks
  either-Kept word false s t ks kt = kt

  plain :
      (next : ℕ) (p : MachineParam Button)
      → 0 < next
      → next < 11
      → Kept p.user.s_bsf.is_longpush (next, p)
  plain next p later inner = record {
    started = record { later = later; inside = inner };
    bit = refl;
  }

  -- the button is one of the buttons
  one_of : (n : ℕ) → n ≡ j → leb button_number n ≡ false
  one_of n e = ground arith

  -- a jump behind `ButtonFlagSet`
  flagged :
      (a : ButtonAction) (last next : ℕ) (p : MachineParam Button)
      → p.user.current_button_number ≡ j
      → 0 < next
      → next < 11
      → Kept p.user.s_bsf.is_longpush
          (next, with_flag p (button_flag_set a p.user.current_button_number last p.user.s_bsf))
  flagged a last next p num later inner = record {
    started = record { later = later; inside = inner };
    bit =
        ap (λ n. test_bit (button_flag_set a n last p.user.s_bsf).is_longpush i) num
        ∙ flag_kept a i j last p.user.s_bsf other low room;
  }

  start-Kept :
      (p : MachineParam Button)
      → p.user.current_button_number ≡ j
      → 0 < p.current_state
      → p.current_state < 11
      → Kept p.user.s_bsf.is_longpush (start_action loop_time button_number config p)
  unfolding start_action
  start-Kept p num l h = plain 2 p (omega arith) (omega arith)

  click_detect-Kept :
      (p : MachineParam Button)
      → p.user.current_button_number ≡ j
      → 0 < p.current_state
      → p.current_state < 11
      → Kept p.user.s_bsf.is_longpush (click_detect_action loop_time button_number config p)
  unfolding click_detect_action
  click_detect-Kept p num l h =
      either-Kept _ (does_valid_push loop_time p.user.s_psb) _ _
        (plain 3 _ (omega arith) (omega arith))
        (either-Kept _ (does_valid_long_release loop_time p.user.s_psb) _ _
          (plain 1 _ (omega arith) (omega arith)) (plain p.current_state p l h))

  long_push_detect-Kept :
      (p : MachineParam Button)
      → p.user.current_button_number ≡ j
      → 0 < p.current_state
      → p.current_state < 11
      → Kept p.user.s_bsf.is_longpush (long_push_detect_action loop_time button_number config p)
  unfolding long_push_detect_action
  long_push_detect-Kept p num l h =
      either-Kept _ (does_valid_long_push loop_time p.user.s_psb) _ _
        (plain 4 _ (omega arith) (omega arith))
        (either-Kept _ (does_valid_release loop_time p.user.s_psb) _ _
          (plain 7 _ (omega arith) (omega arith)) (plain p.current_state p l h))

  sure_long_push-Kept :
      (p : MachineParam Button)
      → p.user.current_button_number ≡ j
      → 0 < p.current_state
      → p.current_state < 11
      → Kept p.user.s_bsf.is_longpush (sure_long_push_action loop_time button_number config p)
  unfolding sure_long_push_action
  sure_long_push-Kept p num l h = flagged ba_longpush 0 5 p num (omega arith) (omega arith)

  long_push_release_detect-Kept :
      (p : MachineParam Button)
      → p.user.current_button_number ≡ j
      → 0 < p.current_state
      → p.current_state < 11
      → Kept p.user.s_bsf.is_longpush
          (long_push_release_detect_action loop_time button_number config p)
  unfolding long_push_release_detect_action
  long_push_release_detect-Kept p num l h = rw (one_of p.user.current_button_number num) (
      either-Kept _ (does_valid_release loop_time p.user.s_psb) _ _
        (plain 6 _ (omega arith) (omega arith)) (plain p.current_state p l h))

  sure_long_push_release-Kept :
      (p : MachineParam Button)
      → p.user.current_button_number ≡ j
      → 0 < p.current_state
      → p.current_state < 11
      → Kept p.user.s_bsf.is_longpush
          (sure_long_push_release_action loop_time button_number config p)
  unfolding sure_long_push_release_action
  sure_long_push_release-Kept p num l h = rw (one_of p.user.current_button_number num) (
      flagged ba_longpushrelease p.user.s_psb.latest_push_time_counter_backup 1 p num (omega arith)
        (omega arith))

  click_release_detect-Kept :
      (p : MachineParam Button)
      → p.user.current_button_number ≡ j
      → 0 < p.current_state
      → p.current_state < 11
      → Kept p.user.s_bsf.is_longpush (click_release_detect_action loop_time button_number config p)
  unfolding click_release_detect_action
  click_release_detect-Kept p num l h = rw (one_of p.user.current_button_number num) (
      either-Kept _ (does_valid_long_release loop_time p.user.s_psb) _ _
        (plain 9 _ (omega arith) (omega arith))
        (either-Kept _ (does_valid_push loop_time p.user.s_psb) _ _
          (plain 8 _ (omega arith) (omega arith)) (plain p.current_state p l h)))

  double_click_detect-Kept :
      (p : MachineParam Button)
      → p.user.current_button_number ≡ j
      → 0 < p.current_state
      → p.current_state < 11
      → Kept p.user.s_bsf.is_longpush (double_click_detect_action loop_time button_number config p)
  unfolding double_click_detect_action
  double_click_detect-Kept p num l h = rw (one_of p.user.current_button_number num) (
      either-Kept _ (does_valid_release loop_time p.user.s_psb) _ _
        (plain 10 _ (omega arith) (omega arith))
        (either-Kept _ (does_valid_long_push loop_time p.user.s_psb) _ _
          (plain 4 _ (omega arith) (omega arith)) (plain p.current_state p l h)))

  sure_click-Kept :
      (p : MachineParam Button)
      → p.user.current_button_number ≡ j
      → 0 < p.current_state
      → p.current_state < 11
      → Kept p.user.s_bsf.is_longpush (sure_click_action loop_time button_number config p)
  unfolding sure_click_action
  sure_click-Kept p num l h = flagged ba_click 0 1 p num (omega arith) (omega arith)

  sure_double_click-Kept :
      (p : MachineParam Button)
      → p.user.current_button_number ≡ j
      → 0 < p.current_state
      → p.current_state < 11
      → Kept p.user.s_bsf.is_longpush (sure_double_click_action loop_time button_number config p)
  unfolding sure_double_click_action
  sure_double_click-Kept p num l h = flagged ba_doubleclick 0 1 p num (omega arith) (omega arith)

  -- a turn that leaves the button started and keeps the bit
  pub record Turned (word : ℕ) (turn : Option (ButtonPlace × ButtonStateFlag × Records))
      : Type 0 where
    pub place : ButtonPlace
    pub flags : ButtonStateFlag
    pub records : Records
    pub ends : turn ≡ some (place, flags, records)
    pub started : IsStarted place.state
    pub bit : test_bit flags.is_longpush i ≡ test_bit word i

  module _ (pushed : Bool) (flags : ButtonStateFlag) (records : Records) where
    action-Turned :
        (place : ButtonPlace) (action : MachineParam Button → Jump)
        → place.state < 11
        → get_or (button_state_action loop_time button_number config) place.state none ≡ some action
        → Kept flags.is_longpush (
            action
              (at_state loop_time button_number config hops some_hop j place.state place flags))
        → Turned flags.is_longpush
            (button_turn loop_time button_number config hops j pushed place flags records)
    action-Turned place action lt at kept = record {
      place = _;
      flags = _;
      records = _;
      ends =
          turn_action loop_time button_number config hops some_hop j pushed place flags records
            action _ _ lt kept.started.inside at refl;
      started = kept.started;
      bit = kept.bit;
    }

    state-Turned :
        (state : ℕ) (place : ButtonPlace)
        → IsStarted state
        → Turned flags.is_longpush (
            button_turn loop_time button_number config hops j pushed
              (record place { state = state })
              flags
              records)
    unfolding button_state_action
    state-Turned zero place is = absurd (omega (arith, is.later))
    state-Turned (suc zero) place is =
        action-Turned (record place { state = 1 }) _ is.inside refl
          (start-Kept _ refl (omega arith) (omega arith))
    state-Turned (suc (suc zero)) place is =
        action-Turned (record place { state = 2 }) _ is.inside refl
          (click_detect-Kept _ refl (omega arith) (omega arith))
    state-Turned (suc (suc (suc zero))) place is =
        action-Turned (record place { state = 3 }) _ is.inside refl
          (long_push_detect-Kept _ refl (omega arith) (omega arith))
    state-Turned (suc (suc (suc (suc zero)))) place is =
        action-Turned (record place { state = 4 }) _ is.inside refl
          (sure_long_push-Kept _ refl (omega arith) (omega arith))
    state-Turned (suc (suc (suc (suc (suc zero))))) place is =
        action-Turned (record place { state = 5 }) _ is.inside refl
          (long_push_release_detect-Kept _ refl (omega arith) (omega arith))
    state-Turned (suc (suc (suc (suc (suc (suc zero)))))) place is =
        action-Turned (record place { state = 6 }) _ is.inside refl
          (sure_long_push_release-Kept _ refl (omega arith) (omega arith))
    state-Turned (suc (suc (suc (suc (suc (suc (suc zero))))))) place is =
        action-Turned (record place { state = 7 }) _ is.inside refl
          (click_release_detect-Kept _ refl (omega arith) (omega arith))
    state-Turned (suc (suc (suc (suc (suc (suc (suc (suc zero)))))))) place is =
        action-Turned (record place { state = 8 }) _ is.inside refl
          (double_click_detect-Kept _ refl (omega arith) (omega arith))
    state-Turned (suc (suc (suc (suc (suc (suc (suc (suc (suc zero))))))))) place is =
        action-Turned (record place { state = 9 }) _ is.inside refl
          (sure_click-Kept _ refl (omega arith) (omega arith))
    state-Turned (suc (suc (suc (suc (suc (suc (suc (suc (suc (suc zero)))))))))) place is =
        action-Turned (record place { state = 10 }) _ is.inside refl
          (sure_double_click-Kept _ refl (omega arith) (omega arith))
    state-Turned (suc (suc (suc (suc (suc (suc (suc (suc (suc (suc (suc n))))))))))) place is =
        absurd (omega (arith, is.inside))

    pub sibling-Turned :
        (place : ButtonPlace)
        → IsStarted place.state
        → Turned flags.is_longpush
            (button_turn loop_time button_number config hops j pushed place flags records)
    sibling-Turned place is = state-Turned place.state place is
