-- ===== src/AppTimer/Tests.antt =====
-- The theorems on app_timer.c at two timers with intervals of 2 and 3 ticks.
use native.Mathlib.Nat
use eclipse_code.Prelude.{
  ℕ, ◌<◌, ◌≡◌, ◌↔◌, refl, true, false, some, none, List, [], ◌∷◌, replicate, arith, app_successed,
}
use eclipse_code.AppTimer.{
  AppTimer, app_timer_module_start, create_all, note, run, app_timer_created,
}
use eclipse_code.AppTimer.Spec
use eclipse_code.AppTimer.Spec.{Timer, Op, hook, start, stop, lock, unlock}
use eclipse_code.AppTimer.Hooks.{Divide}
use eclipse_code.AppTimer.Created.{created_behind}
use eclipse_code.AppTimer.Start.{fresh_schedule, run_lem, module_start_iff}

abbrev two : Timer
two = record { pointer = 100; interval = 2; action = some 7 }

abbrev three : Timer
three = record { pointer = 200; interval = 3; action = some 8 }

abbrev memory : AppTimer (List ℕ)
memory = record {
  current_entry_number = 4;
  app_timer_counter_threshold = 9;
  app_timer_counter = 1;
  p_entry_buf = replicate 10 none;
  is_timer_start = true;
  is_timer_locked = true;
  is_timer_just_begin = false;
  entries = λ p. record { entry_number = 0; divider = 0; is_timer_start = false; p_action = none };
  world = [];
}

abbrev ops : List Op
ops = start 100 ∷ hook ∷ start 200 ∷ hook ∷ hook ∷ lock ∷ hook ∷ unlock ∷ hook ∷ hook ∷ []

run_lem_example :
    (run note ops (app_timer_module_start false 77 (create_all (two ∷ three ∷ [])) memory).1).world
    ≡ (Spec.run (two ∷ three ∷ []) ops (fresh_schedule [])).log
run_lem_example =
    run_lem false 77 two three [] memory refl (omega arith)
      (omega arith, omega arith, omega arith, omega arith)
      ((module_start_iff false 77 two three [] memory refl (omega arith) (omega arith)).1
        (6, omega arith, omega arith, (Nat.dvd-mul_right 2 3, (Nat.dvd-mul_right 3 2, tt))))
      ops

calls : (Spec.run (two ∷ three ∷ []) ops (fresh_schedule [])).log ≡ 7 ∷ 7 ∷ 8 ∷ 7 ∷ []
unfolding Spec.run Spec.step Spec.due Spec.call_of
calls = refl

module_start_iff_example :
    ((app_timer_module_start false 77 (create_all (two ∷ three ∷ [])) memory).0 ≡ app_successed)
    ↔ ((t : ℕ) × (0 < t) × (t < 50000000) × Divide (two ∷ three ∷ []) t)
module_start_iff_example =
    module_start_iff false 77 two three [] memory refl (omega arith)
      (omega arith, omega arith, omega arith, omega arith)

created_behind_example :
    ((app_timer_created 5 60 none (record memory { current_entry_number = 10 })).0 ≡ app_successed)
    × ((app_timer_created 5 60 none
          (record memory { current_entry_number = 10 })).1.current_entry_number
        ≡ 11)
    × ((app_timer_created 5 60 none (record memory { current_entry_number = 10 })).1.p_entry_buf
        ≡ replicate 10 none)
created_behind_example =
    created_behind 5 60 none (record memory { current_entry_number = 10 }) refl refl (omega arith)
      (omega arith)
