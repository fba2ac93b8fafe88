-- ===== src/TimeManager/Inv.antt =====
-- The places of TimeManagerExtern.c: each counter has one place at most, and the number of entries is
-- the number of places taken.
use native.Mathlib.Decide.{dec_lt}
use eclipse_code.Prelude.{
  ℕ, zero, suc, ◌+◌, ◌<◌, ◌≡◌, ◌≢◌, inl, inr, refl, sym, ap, ◌∙◌, false, Option, none, some, List,
  [], ◌∷◌, leb, ◌==◌, length, get_or, length-set, get_or-set, get_or_outside, arith, Bool-cases,
}
use eclipse_code.TimeManager.{
  Manager, in_list, free_place, take_place, extern_add, release_place, extern_release,
  set_basic_value, write_value, turn, place_turn, handle_loop, extern_handle, Op, add, release,
  set_value, handle, step, run,
}
use eclipse_code.TimeManager.Places.{used, used-set, Free, free_place-Free, in_list_lem}

pub record IsValid {W : Type 0} (s : Manager W) : Type 0 where
  pub size : length s.p_stmb ≡ 10
  pub count : s.entry_counter ≡ used 10 0 s.p_stmb
  pub single :
      (i j p : ℕ) → get_or s.p_stmb i none ≡ some p → get_or s.p_stmb j none ≡ some p → i ≡ j

module _ {W : Type 0} where
  -- a counter that has no place takes a free one
  take_place-IsValid :
      (i p : ℕ) (to_do : Option ℕ) (s : Manager W)
      → i < 10
      → get_or s.p_stmb i none ≡ none
      → ((j : ℕ) → get_or s.p_stmb j none ≢ some p)
      → IsValid s
      → IsValid (take_place (some i) p to_do s).1
  unfolding take_place
  take_place-IsValid i p to_do s lt free out v = record {
    size = length-set s.p_stmb i (some p) ∙ v.size;
    count = ground (
      arith,
      v.count,
      v.size,
      used-set 10 0 i (some p) s.p_stmb (omega arith) (omega arith) (omega (arith, v.size)),
    );
    single = λ a b q ea eb. ground (
      arith,
      get_or-set s.p_stmb i a (some p) none (omega (arith, v.size)),
      get_or-set s.p_stmb i b (some p) none (omega (arith, v.size)),
      v.single a b q,
      out a,
      out b,
    );
  }

  add-IsValid :
      (p : ℕ) (to_do : Option ℕ) (s : Manager W) → IsValid s → IsValid (extern_add p to_do s).1
  unfolding extern_add
  add-IsValid p to_do s v = elim (Bool-cases (leb 10 s.entry_counter)) [
    | inl full ↦ rw full v
    | inr room ↦ elim (Bool-cases (in_list p 10 0 s.p_stmb)) [
      | inl old ↦ rw (room, old) v
      | inr new ↦
          rw (room, new) (took (free_place 10 0 s.p_stmb) (free_place-Free 10 0 s.p_stmb) new)
    ]
  ]
    where
      took :
          (o : Option ℕ)
          → Free 10 0 s.p_stmb o
          → in_list p 10 0 s.p_stmb ≡ false
          → IsValid (take_place o p to_do s).1
      took none f new = unfold take_place in v
      took (some i) (a, b, c) new =
          take_place-IsValid i p to_do s b c
            (λ j. elim (dec_lt j 10) [
              | yes lt ↦ in_list_lem p 10 0 j s.p_stmb new (omega arith) (omega arith)
              | no ge ↦ rw (get_or_outside s.p_stmb j none (omega (arith, v.size))) (λ h. cc)
            ])
            v

  release_place-IsValid :
      (o : Option ℕ) (id : ℕ) (s : Manager W)
      → id < 10
      → get_or s.p_stmb id none ≡ o
      → IsValid s
      → IsValid (release_place o id s).1
  unfolding release_place
  release_place-IsValid none id s lt e v = v
  release_place-IsValid (some p) id s lt e v = record {
    size = length-set s.p_stmb id none ∙ v.size;
    count = ground (
      arith,
      v.count,
      used-set 10 0 id none s.p_stmb (omega arith) (omega arith) (omega (arith, v.size)),
    );
    single = λ a b q ea eb. ground (
      arith,
      get_or-set s.p_stmb id a none none (omega (arith, v.size)),
      get_or-set s.p_stmb id b none none (omega (arith, v.size)),
      v.single a b q,
    );
  }

  release-IsValid : (id : ℕ) (s : Manager W) → IsValid s → IsValid (extern_release id s).1
  unfolding extern_release
  release-IsValid id s v = elim (Bool-cases (leb 10 id)) [
    | inl out ↦ rw out v
    | inr inside ↦
        rw inside (release_place-IsValid (get_or s.p_stmb id none) id s (ground arith) refl v)
  ]

  set_value-IsValid : (id x : ℕ) (s : Manager W) → IsValid s → IsValid (set_basic_value id x s)
  unfolding set_basic_value
  set_value-IsValid id x s v = elim (Bool-cases (leb 10 id)) [
    | inl out ↦ rw out v
    | inr inside ↦ rw inside (written (get_or s.p_stmb id none))
  ]
    where
      written : (o : Option ℕ) → IsValid (write_value o x s)
      written none = v
      written (some p) = record { size = v.size; count = v.count; single = v.single }

-- What a function `ToDo` does leaves the places alone, and every counter but its own.
pub record Local {W : Type 0} (act : ℕ → ℕ → Manager W → Manager W) : Type 0 where
  pub places : (k p : ℕ) (s : Manager W) → (act k p s).p_stmb ≡ s.p_stmb
  pub number : (k p : ℕ) (s : Manager W) → (act k p s).entry_counter ≡ s.entry_counter
  pub elsewhere : (k p q : ℕ) (s : Manager W) → q ≢ p → (act k p s).counters q ≡ s.counters q

module _ {W : Type 0} (act : ℕ → ℕ → Manager W → Manager W) (local : Local act) where
  pub place_turn-places :
      (o : Option ℕ) (s : Manager W)
      → ((place_turn act o s).p_stmb ≡ s.p_stmb)
        × ((place_turn act o s).entry_counter ≡ s.entry_counter)
  unfolding place_turn
  place_turn-places none s = (refl, refl)
  place_turn-places (some p) s = turned (s.counters p).to_do
    where
      turned :
          (t : Option ℕ)
          → ((turn act t p s).p_stmb ≡ s.p_stmb)
            × ((turn act t p s).entry_counter ≡ s.entry_counter)
      turned none = unfold turn in (ground arith, ground arith)
      turned (some k) = unfold turn in (local.places k p s, local.number k p s)

  pub handle_loop-places :
      (n i : ℕ) (s : Manager W)
      → ((handle_loop act n i s).p_stmb ≡ s.p_stmb)
        × ((handle_loop act n i s).entry_counter ≡ s.entry_counter)
  unfolding handle_loop
  handle_loop-places zero i s = (refl, refl)
  handle_loop-places (suc n) i s =
      let (a, b) = place_turn-places (get_or s.p_stmb i none) s in
      let (c, d) = handle_loop-places n (i + 1) (place_turn act (get_or s.p_stmb i none) s) in
      (c ∙ a, d ∙ b)

  pub handle-IsValid : (s : Manager W) → IsValid s → IsValid (extern_handle act s)
  unfolding extern_handle
  handle-IsValid s v = elim (Bool-cases (s.entry_counter == 0)) [
    | inl none_yet ↦ rw none_yet v
    | inr some_yet ↦
        let (a, b) = handle_loop-places 10 0 s in
        rw some_yet (record {
          size = ap length a ∙ v.size;
          count = b ∙ v.count ∙ ap (used 10 0) (sym a);
          single = λ i j p ei ej. v.single i j p (rw a at ei) (rw a at ej);
        })
  ]

  step-IsValid : (op : Op) (s : Manager W) → IsValid s → IsValid (step act op s)
  unfolding step
  step-IsValid (add p to_do) s v = add-IsValid p to_do s v
  step-IsValid (release id) s v = release-IsValid id s v
  step-IsValid (set_value id x) s v = set_value-IsValid id x s v
  step-IsValid handle s v = handle-IsValid s v

  -- Over any sequence of calls the number of entries is the number of places taken, and no counter
  -- has two places, where the functions ToDo leave the places, the number of entries and the counters
  -- of others alone.
  pub run-IsValid : (ops : List Op) (s : Manager W) → IsValid s → IsValid (run act ops s)
  unfolding run
  run-IsValid [] s v = v
  run-IsValid (op ∷ ops) s v = run-IsValid ops (step act op s) (step-IsValid op s v)
