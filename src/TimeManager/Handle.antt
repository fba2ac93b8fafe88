-- ===== src/TimeManager/Handle.antt =====
-- TimeManagerExtern.c: the start, a place that is taken and given back, and counters that run down.
use native.Mathlib.Decide.{ℕ_discrete}
use eclipse_code.Prelude.{
  ℕ, zero, suc, ◌+◌, ◌-◌, ◌≤◌, ◌<◌, ◌≡◌, ◌≢◌, refl, sym, ap, ◌∙◌, false, Option, none, some, List,
  [], ◌∷◌, ltb, leb, ◌==◌, ◌&&◌, if◌then◌else◌, length, get_or, set, length-set, get_or-set,
  get_or_outside, arith, AppResult, app_successed, app_beyond_scope, app_already_done_before,
}
use eclipse_code.TimeManager.{
  Manager, TimeManagerBasic, in_list, free_place, take_place, extern_add, release_place,
  extern_release, get_basic_value, handle_loop, extern_handle, init_places, extern_init, Op, run,
}
use eclipse_code.TimeManager.Places.{used, Free, free_place-Free, in_list-none}
use eclipse_code.TimeManager.Inv.{IsValid, Local, handle_loop-places, handle-IsValid, run-IsValid}
use eclipse_code.TimeManager.Turns.{handles, down, handle_loop-down}

length-init_places : (n i : ℕ) (buf : List (Option ℕ)) → length (init_places n i buf) ≡ length buf
unfolding init_places
length-init_places zero i buf = refl
length-init_places (suc n) i buf =
    length-init_places n (i + 1) (set buf i none) ∙ length-set buf i none

init_places_lem :
    (n i j : ℕ) (buf : List (Option ℕ))
    → i + n ≤ length buf
    → get_or (init_places n i buf) j none
      ≡ (if leb i j && ltb j (i + n) then none else get_or buf j none)
unfolding init_places
init_places_lem zero i j buf le = ground arith
init_places_lem (suc n) i j buf le = ground (
  arith,
  init_places_lem n (i + 1) j (set buf i none) (omega (arith, length-set buf i none)),
  get_or-set buf i j none none (omega arith),
)

used-none :
    (n i : ℕ) (buf : List (Option ℕ)) → ((j : ℕ) → get_or buf j none ≡ none) → used n i buf ≡ 0
unfolding used
used-none zero i buf all = refl
used-none (suc n) i buf all = rw (all i) (omega (arith, used-none n (i + 1) buf all))

-- TimeManagerExternInit leaves ten free places, and so any sequence of calls behind it keeps the
-- number of entries equal to the number of places taken, each counter in one place at most, where
-- the functions ToDo leave the places, the number of entries and the counters of others alone.
pub init_run-IsValid :
    {W : Type 0} (act : ℕ → ℕ → Manager W → Manager W) (local : Local act) (ops : List Op)
    (s : Manager W)
    → length s.p_stmb ≡ 10
    → IsValid (run act ops (extern_init s))
unfolding extern_init
init_run-IsValid act local ops s size =
    let all = λ (j : ℕ). start_none s.p_stmb j size in
    run-IsValid act local ops (record s { p_stmb = init_places 10 0 s.p_stmb; entry_counter = 0 })
      (record {
        size = length-init_places 10 0 s.p_stmb ∙ size;
        count = sym (used-none 10 0 (init_places 10 0 s.p_stmb) all);
        single = λ i j p ei ej. absurd (ground (arith, all i));
      })
  where
    start_none :
        (buf : List (Option ℕ)) (j : ℕ)
        → length buf ≡ 10
        → get_or (init_places 10 0 buf) j none ≡ none
    start_none buf j size =
        ground (arith, init_places_lem 10 0 j buf (omega arith), get_or_outside buf j none)

set-set_back :
    (xs : List (Option ℕ)) (i : ℕ) (v : Option ℕ)
    → i < length xs
    → get_or xs i none ≡ none
    → set (set xs i v) i none ≡ xs
set-set_back [] i v lt e = absurd (omega arith)
set-set_back (x ∷ xs) zero v lt e = ap (λ (y : Option ℕ). y ∷ xs) (sym e)
set-set_back (x ∷ xs) (suc i) v lt e =
    ap (λ (l : List (Option ℕ)). x ∷ l) (set-set_back xs i v (omega arith) e)

module _ {W : Type 0} (p : ℕ) (to_do : Option ℕ) (s : Manager W) where
  -- the call succeeds at `i`, where the counter starts from 0, and a release gives the place back
  pub record Lent (i : ℕ) (t : (ℕ × AppResult) × Manager W) : Type 0 where
    pub reply : t.0 ≡ (i, app_successed)
    pub inside : i < 10
    pub value : get_basic_value i t.1 ≡ 0
    pub back : (extern_release i t.1).0 ≡ app_successed
    pub places : (extern_release i t.1).1.p_stmb ≡ s.p_stmb
    pub number : (extern_release i t.1).1.entry_counter ≡ s.entry_counter

  taken-Lent :
      (i : ℕ)
      → i < 10
      → length s.p_stmb ≡ 10
      → get_or s.p_stmb i none ≡ none
      → Lent i (take_place (some i) p to_do s)
  unfolding take_place get_basic_value extern_release release_place
  taken-Lent i lt size free =
      let inside : leb 10 i ≡ false = ground arith in
      let here : get_or (set s.p_stmb i (some p)) i none ≡ some p =
        ground (arith, get_or-set s.p_stmb i i (some p) none (omega arith)) in
      record {
        reply = refl;
        inside = lt;
        value = rw (inside, here) (ground arith);
        back = rw (inside, here) refl;
        places = rw (inside, here) (set-set_back s.p_stmb i (some p) (omega arith) free);
        number = rw (inside, here) (ground arith);
      }

  -- TimeManagerExternAdd of a counter that has no place succeeds while fewer than ten places are taken:
  -- the counter reads 0 at the place it gets, which a release gives back, and then the places are as
  -- before.
  pub extern_add-Lent :
      IsValid s
      → s.entry_counter < 10
      → ((j : ℕ) → get_or s.p_stmb j none ≢ some p)
      → (i : ℕ) × Lent i (extern_add p to_do s)
  unfolding extern_add
  extern_add-Lent v few new =
      let room : leb 10 s.entry_counter ≡ false = ground arith in
      let absent = in_list-none p 10 0 s.p_stmb new in
      found (free_place 10 0 s.p_stmb) (free_place-Free 10 0 s.p_stmb) room absent
    where
      found :
          (o : Option ℕ)
          → Free 10 0 s.p_stmb o
          → leb 10 s.entry_counter ≡ false
          → in_list p 10 0 s.p_stmb ≡ false
          → (i : ℕ) × Lent i (
              if leb 10 s.entry_counter
              then ((10, app_beyond_scope), s)
              else if in_list p 10 0 s.p_stmb
              then ((10, app_already_done_before), s)
              else take_place o p to_do s)
      found none full room absent = absurd (omega (arith, v.count))
      found (some i) (a, b, c) room absent = (i, rw (room, absent) (taken-Lent i b v.size c))

used_pos :
    (n i j p : ℕ) (buf : List (Option ℕ))
    → i ≤ j
    → j < i + n
    → get_or buf j none ≡ some p
    → 0 < used n i buf
unfolding used
used_pos zero i j p buf le lt at = absurd (omega arith)
used_pos (suc n) i j p buf le lt at = elim (ℕ_discrete i j) [
  | yes here ↦ ground arith
  | no later ↦ omega (arith, used_pos n (i + 1) j p buf (omega arith) (omega arith) at)
]

-- the counter `p` without a function stands at the place `j`, and reads `v`
pub record Counts {W : Type 0} (j p v : ℕ) (s : Manager W) : Type 0 where
  pub valid : IsValid s
  pub at : get_or s.p_stmb j none ≡ some p
  pub plain : (s.counters p).to_do ≡ none
  pub value : (s.counters p).counter ≡ v

module _ {W : Type 0} (act : ℕ → ℕ → Manager W → Manager W) (local : Local act) (j p : ℕ)
    (inside : j < 10) where
  handle-Counts :
      (v : ℕ) (s : Manager W) → Counts j p v s → Counts j p (v - 1) (extern_handle act s)
  handle-Counts v s c =
      let some_yet : (s.entry_counter == 0) ≡ false =
        ground
          (arith, c.valid.count, used_pos 10 0 j p s.p_stmb (omega arith) (omega arith) c.at) in
      let whole : extern_handle act s ≡ handle_loop act 10 0 s =
        unfold extern_handle in rw some_yet refl in
      let same = (handle_loop-places act local 10 0 s).0 in
      let turned =
        handle_loop-down act local 10 0 j p s (omega arith) (omega arith) c.at
          (λ a h. c.valid.single a j p h c.at) c.plain in
      record {
        valid = handle-IsValid act local s c.valid;
        at =
            ap (λ (u : Manager W). get_or u.p_stmb j none) whole
            ∙ ap (λ (b : List (Option ℕ)). get_or b j none) same
            ∙ c.at;
        plain =
            ap (λ (u : Manager W). (u.counters p).to_do) whole
            ∙ ap (λ (b : TimeManagerBasic). b.to_do) turned
            ∙ unfold down in c.plain;
        value =
            ap (λ (u : Manager W). (u.counters p).counter) whole
            ∙ ap (λ (b : TimeManagerBasic). b.counter) turned
            ∙ unfold down in ap (λ (x : ℕ). x - 1) c.value;
      }

  -- Ticks of TimeManagerExternHandle count a counter without a function down to 0: after n of them it
  -- reads n less, or 0, where the functions ToDo leave the places and the other counters alone.
  pub handles_lem :
      (n v : ℕ) (s : Manager W) → Counts j p v s → get_basic_value j (handles act n s) ≡ v - n
  unfolding handles get_basic_value
  handles_lem zero v s c =
      let in_range : leb 10 j ≡ false = ground arith in rw (in_range, c.at) (c.value ∙ omega arith)
  handles_lem (suc n) v s c =
      handles_lem n (v - 1) (extern_handle act s) (handle-Counts v s c) ∙ omega arith
