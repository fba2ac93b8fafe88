-- ===== src/SystemTimer/Tests.antt =====
-- The theorem on user_irq.c at an entry with an interval of two ticks, which is called at every third.
use eclipse_code.Prelude.{ℕ, ◌≡◌, refl, true, some, none, List, [], ◌∷◌, ◌++◌, replicate, arith}
use eclipse_code.AppTimer.Spec.{Timer, call_of}
use eclipse_code.SystemTimer.{SystemTimer, hooks}
use eclipse_code.SystemTimer.Period.{note, calls, due, hooks-calls}

abbrev two : Timer
two = record { pointer = 100; interval = 2; action = some 7 }

abbrev one_started : SystemTimer (List ℕ)
one_started = record {
  current_entry_number = 1;
  p_entry_buf = some 100 ∷ replicate 9 none;
  entries = λ p. record {
    entry_number = 0;
    divider = 2;
    current_counter = 0;
    is_timer_start = true;
    p_action = some 7;
  };
  world = [];
}

hooks-calls_example : (hooks note 7 one_started).world ≡ [] ++ calls 7 0 (two ∷ [])
hooks-calls_example =
    hooks-calls 7 0 (two ∷ []) one_started (omega arith) refl (refl, tt) (omega arith, tt, tt)
      ((refl, refl, refl, refl), tt)

called_twice : calls 7 0 (two ∷ []) ≡ 7 ∷ 7 ∷ []
unfolding calls due call_of
called_twice = refl
