-- ===== src/ButtonModule/Tests.antt =====
-- The theorems on a button at concrete buttons.
use eclipse_code.Prelude.{
  ℕ, zero, suc, ◌<◌, ◌≡◌, ◌≢◌, Option, some, get_elem?, subst, ap, refl, inr, true, false, [], ◌∷◌,
  none, arith,
}
use eclipse_code.ButtonModule.{ParamSingleButton, pat_default}
use eclipse_code.ButtonModule.Counters.{IsCounting, time_run, time_run-IsCounting}
use eclipse_code.ButtonModule.Monitor.{ButtonPlace, Callbacks, Monitor}
use eclipse_code.ButtonModule.Siblings.{IsStarted}
use eclipse_code.ButtonModule.Rounds.{Ready}
use eclipse_code.ButtonModule.Delivered.{Delivered, long_push-Delivered}
use eclipse_code.ButtonModule.Pushed.{at_rest}

abbrev pushed_button : ParamSingleButton
pushed_button = record {
  push_time_counter = 65535;
  release_time_counter = 0;
  latest_push_time_counter_backup = 3;
  p_spat = pat_default;
}

time_run-IsCounting_example : IsCounting (time_run (true ∷ false ∷ false ∷ []) pushed_button)
unfolding IsCounting
time_run-IsCounting_example =
    time_run-IsCounting (true ∷ false ∷ false ∷ []) pushed_button
      (omega arith, omega arith, inr refl)

-- buttons 0 and 1, the first waiting for a click, the second at rest
abbrev two_buttons : Monitor
two_buttons = record {
  spe =
      (record { state = 2; current_state = 1; place_psb = pushed_button })
      ∷ at_rest 1 7 0 pat_default
      ∷ [];
  sbsf = record {
    is_click = 0;
    is_double_click = 0;
    is_longpush = 0;
    is_longpush_release = 0;
    long_push_last_cycle = [];
  };
  records = [];
  reports = [];
}

abbrev all_set : Callbacks
all_set = record {
  has_click = true;
  has_double_click = true;
  has_long_push = true;
  has_long_push_release = true;
}

abbrev state_of : Option ButtonPlace → ℕ
state_of none = 1
state_of (some p) = p.state

two_buttons-Ready : Ready 10 2 none 3 (omega arith) 1 (omega arith) (omega arith) two_buttons
two_buttons-Ready = record { size = omega arith; others = others }
  where
    others :
        (j : ℕ) (p : ButtonPlace)
        → j < 2
        → 1 ≢ j
        → get_elem? two_buttons.spe j ≡ some p
        → IsStarted p.state
    others zero p lt ne e =
        subst IsStarted (ap state_of e) (record { later = omega arith; inside = omega arith })
    others (suc zero) p lt ne e = absurd (ne refl)
    others (suc (suc j)) p lt ne e = absurd (omega (arith, lt))

long_push-Delivered_example :
    Delivered 10 2 none 3 (omega arith) 1 (omega arith) (omega arith) all_set refl 112 two_buttons
long_push-Delivered_example =
    long_push-Delivered 10 2 none 3 (omega arith) 1 (omega arith) (omega arith) all_set refl
      pat_default 10 100 1 7 0 two_buttons (omega arith) (omega arith) (omega arith) (omega arith)
      (omega arith) (omega arith) (omega arith) (omega arith) (omega arith) two_buttons-Ready refl
