-- ===== src/TimeManager/Tests.antt =====
-- The theorems on TimeManagerExtern.c at a memory with two counters.
use eclipse_code.Prelude.{
  ℕ, zero, suc, ◌-◌, ◌≡◌, ◌≢◌, ◌⊎◌, inl, inr, refl, some, none, List, [], ◌∷◌, replicate, get_or,
  arith, update, ◌==◌, if◌then◌else◌,
}
use eclipse_code.TimeManager.{
  Manager, Op, add, release, set_value, handle, run, extern_init, extern_add, get_basic_value,
}
use eclipse_code.TimeManager.Places.{used}
use eclipse_code.TimeManager.Inv.{Local, IsValid, run-IsValid}
use eclipse_code.TimeManager.Turns.{handles}
use eclipse_code.TimeManager.Handle.{init_run-IsValid, Lent, extern_add-Lent, handles_lem}

-- a function `ToDo` that only sets its own counter to 5
abbrev to_five : ℕ → ℕ → Manager ℕ → Manager ℕ
to_five k p s = record s {
  counters = update s.counters p (record (s.counters p) { counter = 5 });
  world = k;
}

to_five-Local : Local to_five
to_five-Local = record {
  places = λ k p s. refl;
  number = λ k p s. refl;
  elsewhere = λ k p q s ne. ground arith;
}

abbrev memory : Manager ℕ
memory = record {
  p_stmb = some 100 ∷ none ∷ some 200 ∷ replicate 7 none;
  entry_counter = 2;
  counters = λ p. record { counter = 3; to_do = if p == 200 then some 1 else none };
  world = 0;
}

none_tail : (n j p : ℕ) → get_or (replicate n none) j none ≢ some p
none_tail zero j p h = cc
none_tail (suc n) zero p h = cc
none_tail (suc n) (suc j) p h = none_tail n j p h

place_of :
    (j p : ℕ) → get_or memory.p_stmb j none ≡ some p → ((j ≡ 0) × (p ≡ 100)) ⊎ ((j ≡ 2) × (p ≡ 200))
place_of zero p h = inl (refl, cc)
place_of (suc zero) p h = absurd (cc)
place_of (suc (suc zero)) p h = inr (refl, cc)
place_of (suc (suc (suc j))) p h = absurd (none_tail 7 j p h)

memory-IsValid : IsValid memory
unfolding used
memory-IsValid = record {
  size = refl;
  count = refl;
  single = λ i j p ei ej. ground (arith, place_of i p, place_of j p);
}

abbrev ops : List Op
ops = add 300 none ∷ set_value 1 4 ∷ handle ∷ add 300 none ∷ release 0 ∷ release 0 ∷ []

run-IsValid_example : IsValid (run to_five ops memory)
run-IsValid_example = run-IsValid to_five to_five-Local ops memory memory-IsValid

init_run-IsValid_example : IsValid (run to_five ops (extern_init memory))
init_run-IsValid_example = init_run-IsValid to_five to_five-Local ops memory refl

not_held : (j : ℕ) → get_or memory.p_stmb j none ≢ some 300
not_held j = λ h. ground (arith, place_of j 300)

extern_add-Lent_example : (i : ℕ) × Lent 300 none memory i (extern_add 300 none memory)
extern_add-Lent_example = extern_add-Lent 300 none memory memory-IsValid (omega arith) not_held

handles_lem_example : get_basic_value 0 (handles to_five 2 memory) ≡ 3 - 2
handles_lem_example =
    handles_lem to_five to_five-Local 0 100 (omega arith) 2 3 memory
      (record { valid = memory-IsValid; at = refl; plain = refl; value = refl })
