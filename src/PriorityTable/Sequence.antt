-- ===== src/PriorityTable/Sequence.antt =====
-- The table of m_priority_queues.c over any sequence of insertions and removals: the highest
-- priority in use is the one that it hands out.
use eclipse_code.Prelude.{
  ℕ, zero, suc, ◌+◌, ◌-◌, ◌*◌, ◌/◌, ◌%◌, ◌≤◌, ◌<◌, ◌≡◌, refl, sym, ◌∙◌, subst, Bool, true, false,
  ◌&&◌, ◌||◌, not, Option, none, some, List, [], ◌∷◌, get_or, get_or-set, get_or_outside, length,
  length-set, set, leb, ltb, ◌==◌, if◌then◌else◌, u16_mod, test_bit-zero, Bool-cases, inl, inr,
  arith,
}
use mathlib.Core.Bool.{true≢false}
use eclipse_code.PriorityTable.{
  convert, table_init_loop, table_init, table_insert, table_remove, highest_loop, highest_priority,
  table_get_highest,
}
use eclipse_code.PriorityTable.Bit.{has}
use eclipse_code.PriorityTable.Highest.{IsFirst, highest_loop-IsFirst}
use eclipse_code.PriorityTable.Order.{
  IsTable, uses, convert_inside, insert-IsTable, remove-IsTable, insert-uses, remove-uses,
}

pub data Op : Type 0 where
  into_table : ℕ → Op
  off_table : ℕ → Op

module _ (small : Bool) (max_value : ℕ) where
  unfoldable pub step : Op → List ℕ → List ℕ
  step (into_table p) table = (table_insert small max_value p table).1
  step (off_table p) table = (table_remove small max_value p table).1

  unfoldable pub run : List Op → List ℕ → List ℕ
  run [] table = table
  run (op ∷ ops) table = run ops (step op table)

-- Whether a priority is in use after the calls, if it is `before` them: the last one for it counts.
unfoldable pub in_use : ℕ → List Op → Bool → Bool
in_use p [] before = before
in_use p (into_table q ∷ ops) before = in_use p ops (before || (p == q))
in_use p (off_table q ∷ ops) before = in_use p ops (before && not (p == q))

-- The priority that goes first: the lowest number, or the highest.
pub goes_before : Bool → ℕ → ℕ → Bool
goes_before small p q = if small then leb p q else leb q p

-- What the highest priority is: one in use that goes before all others in use, or none where none
-- is in use.
unfoldable pub IsHighest : Bool → ℕ → (ℕ → Bool) → Option ℕ → Type 0
IsHighest small max_value used none = (p : ℕ) → p ≤ max_value → used p ≡ false
IsHighest small max_value used (some p) =
    (p ≤ max_value)
    × (used p ≡ true)
    × ((q : ℕ) → q ≤ max_value → used q ≡ true → goes_before small p q ≡ true)

convert-goes_before :
    (small : Bool) {max_value : ℕ} (place q : ℕ)
    → place ≤ max_value
    → q ≤ max_value
    → ltb (convert small max_value q) place ≡ false
    → goes_before small (convert small max_value place) q ≡ true
unfolding goes_before
convert-goes_before true place q h l e = ground arith
convert-goes_before false place q h l e = ground arith

module _ (small : Bool) {max_value : ℕ} where
  step-IsTable :
      (op : Op) {table : List ℕ}
      → IsTable max_value table
      → IsTable max_value (step small max_value op table)
  unfolding step
  step-IsTable (into_table p) t = insert-IsTable small t p
  step-IsTable (off_table p) t = remove-IsTable small t p

  run-IsTable :
      (ops : List Op) {table : List ℕ}
      → IsTable max_value table
      → IsTable max_value (run small max_value ops table)
  unfolding run
  run-IsTable [] t = t
  run-IsTable (op ∷ ops) t = run-IsTable ops (step-IsTable op t)

  run-uses :
      (ops : List Op) {table : List ℕ} (p : ℕ)
      → IsTable max_value table
      → p ≤ max_value
      → uses small max_value p (run small max_value ops table)
        ≡ in_use p ops (uses small max_value p table)
  unfolding run step in_use
  run-uses [] p t h = refl
  run-uses (into_table q ∷ ops) {table} p t h =
      rw (run-uses ops p (step-IsTable (into_table q) t) h, insert-uses small t q p h) refl
  run-uses (off_table q ∷ ops) {table} p t h =
      rw (run-uses ops p (step-IsTable (off_table q) t) h, remove-uses small t q p h) refl

  -- what the first place set is for the priorities
  IsHighest-of_first :
      {table : List ℕ} (found : Option ℕ)
      → IsTable max_value table
      → IsFirst 0 (32 * (max_value / 32 + 1)) table found
      → IsHighest small max_value
          (λ p. uses small max_value p table)
          (highest_priority small max_value found)
  unfolding highest_priority IsHighest IsFirst goes_before
  IsHighest-of_first none t first = λ p h.
      first (convert small max_value p) (omega arith) (omega (arith, convert_inside small p h))
  IsHighest-of_first {table} (some place) t (l, at, before) =
      let inside : place ≤ max_value = elim (Bool-cases (ltb max_value place)) [
        | inl e ↦ absurd (true≢false (sym at ∙ t.unused place (ground arith)))
        | inr e ↦ ground arith
      ] in
      let back : convert small max_value (convert small max_value place) ≡ place =
        elim (Bool-cases small) [ inl e ↦ rw e refl | inr e ↦ rw e (omega arith) ] in
      let test : ltb max_value place ≡ false = ground arith in
      rw test (
        convert_inside small place inside,
        rw back at,
        λ q le used. elim (Bool-cases (ltb (convert small max_value q) place)) [
          | inl e ↦ absurd (
              true≢false
                (sym used ∙ before (convert small max_value q) (omega arith) (ground arith)))
          | inr e ↦ convert-goes_before small place q inside le e
        ],
      )

  pub table_get_highest-IsHighest :
      {table : List ℕ}
      → max_value < u16_mod
      → IsTable max_value table
      → IsHighest small max_value
          (λ p. uses small max_value p table)
          (table_get_highest small max_value table)
  unfolding table_get_highest
  table_get_highest-IsHighest {table} h t =
      let size : (max_value / 32 + 1) % u16_mod ≡ max_value / 32 + 1 = omega arith in
      let words : ℕ = max_value / 32 + 1 in
      let all : 0 + words ≡ words = omega arith in
      let start : IsFirst 0 (32 * words) table (highest_loop words 0 0 table) =
        subst (λ n. IsFirst 0 (32 * n) table (highest_loop words 0 0 table)) all
          (highest_loop-IsFirst words 0 table t.words (omega arith)) in
      rw size (IsHighest-of_first (highest_loop words 0 0 table) t start)

pub IsHighest-same :
    (small : Bool) {max_value : ℕ} {used used' : ℕ → Bool}
    → ((p : ℕ) → p ≤ max_value → used p ≡ used' p)
    → (found : Option ℕ) → IsHighest small max_value used found
    → IsHighest small max_value used' found
unfolding IsHighest
IsHighest-same small same none h = λ p le. sym (same p le) ∙ h p le
IsHighest-same small same (some p) (le, at, first) =
    (le, sym (same p le) ∙ at, λ q l u. first q l (same q l ∙ u))

get_or-table_init_loop_before :
    (n i j : ℕ) (table : List ℕ)
    → i + n ≡ length table
    → j < i
    → get_or (table_init_loop n i table) j 0 ≡ get_or table j 0
unfolding table_init_loop
get_or-table_init_loop_before zero i j table e h = refl
get_or-table_init_loop_before (suc n) i j table e h =
    let size : i + 1 + n ≡ length (set table i 0) = omega (arith, length-set table i 0) in
    rw (get_or-table_init_loop_before n (i + 1) j (set table i 0) size (omega arith))
      (ground (arith, get_or-set table i j 0 0))

-- The loop clears the words from `i` on.
get_or-table_init_loop :
    (n i j : ℕ) (table : List ℕ)
    → i + n ≡ length table
    → i ≤ j
    → get_or (table_init_loop n i table) j 0 ≡ 0
unfolding table_init_loop
get_or-table_init_loop zero i j table e h = get_or_outside table j 0 (omega arith)
get_or-table_init_loop (suc n) i j table e h =
    let size : i + 1 + n ≡ length (set table i 0) = omega (arith, length-set table i 0) in
    elim (Bool-cases (i == j)) [
      | inl at ↦
          rw (get_or-table_init_loop_before n (i + 1) j (set table i 0) size (ground arith))
            (ground (arith, get_or-set table i j 0 0))
      | inr ne ↦ get_or-table_init_loop n (i + 1) j (set table i 0) size (ground arith)
    ]

length-table_init_loop :
    (n i : ℕ) (table : List ℕ) → length (table_init_loop n i table) ≡ length table
unfolding table_init_loop
length-table_init_loop zero i table = refl
length-table_init_loop (suc n) i table =
    length-table_init_loop n (i + 1) (set table i 0) ∙ length-set table i 0

module _ {max_value : ℕ} (table : List ℕ) (p : 0 < max_value) (h : max_value < u16_mod)
    (e : length table ≡ max_value / 32 + 1) where
  cleared : (j : ℕ) → get_or (table_init max_value table).1 j 0 ≡ 0
  unfolding table_init
  cleared j = ground (arith, get_or-table_init_loop (max_value / 32 + 1) 0 j table)

  pub unused_places : (q : ℕ) → has q (table_init max_value table).1 ≡ false
  unfolding has
  unused_places q = rw (cleared (q / 32)) (test_bit-zero (31 - q % 32))

  pub table_init-IsTable : IsTable max_value (table_init max_value table).1
  unfolding table_init
  table_init-IsTable = record {
    size = ground (arith, length-table_init_loop (max_value / 32 + 1) 0 table);
    words = λ i. omega (arith, cleared i);
    unused = λ q l. unused_places q;
  }

  -- After any sequence of insertions and removals on a table that was cleared, the highest
  -- priority is one that was inserted and not removed since, and it goes before all others such.
  pub run-IsHighest :
      (small : Bool) (ops : List Op)
      → IsHighest small max_value
          (λ q. in_use q ops false)
          (table_get_highest small max_value
            (run small max_value ops (table_init max_value table).1))
  run-IsHighest small ops =
      let start : List ℕ = (table_init max_value table).1 in
      let same : (q : ℕ)
          → q ≤ max_value
          → uses small max_value q (run small max_value ops start) ≡ in_use q ops false =
        λ q le.
          rw (run-uses small ops q table_init-IsTable le, unused_places (convert small max_value q))
            refl in
      IsHighest-same small same (table_get_highest small max_value (run small max_value ops start))
        (table_get_highest-IsHighest small h (run-IsTable small ops table_init-IsTable))
