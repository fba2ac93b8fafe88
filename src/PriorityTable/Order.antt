-- ===== src/PriorityTable/Order.antt =====
-- The invariant of the table of m_priority_queues.c, and what an insertion and a removal do to the
-- priorities in use.
use eclipse_code.Prelude.{
  ℕ, ◌+◌, ◌/◌, ◌≤◌, ◌<◌, ◌≡◌, refl, ◌∙◌, Bool, false, ◌&&◌, ◌||◌, not, List, get_or, get_or-set,
  length, length-set, set, ltb, ◌==◌, u32_mod, bit_or, bit_and_not, combine-bound, Bool-cases, inl,
  inr, arith,
}
use eclipse_code.PriorityTable.{table_bit, convert, table_insert, table_remove}
use eclipse_code.PriorityTable.Bit.{has, has-set_or, has-set_and_not}
use eclipse_code.PriorityTable.Highest.{IsWords}

-- A table for priorities up to `max_value`: words of 32 bits, and no bit behind the last place.
pub record IsTable (max_value : ℕ) (table : List ℕ) : Type 0 where
  pub size : length table ≡ max_value / 32 + 1
  pub words : IsWords table
  pub unused : (q : ℕ) → max_value < q → has q table ≡ false

-- The priority's bit.
abbrev pub uses : Bool → ℕ → ℕ → List ℕ → Bool
uses small max_value p table = has (convert small max_value p) table

-- Writing a word at a place inside keeps the table, if no bit behind the last place is set by it.
write-IsTable :
    {max_value : ℕ} {table : List ℕ}
    → IsTable max_value table
    → (place word : ℕ) → place ≤ max_value
    → word < u32_mod
    → ((q : ℕ) → max_value < q → has q (set table (place / 32) word) ≡ false)
    → IsTable max_value (set table (place / 32) word)
write-IsTable {max_value} {table} t place word h w rest = record {
  size = length-set table (place / 32) word ∙ t.size;
  words = λ i.
      let inside : place / 32 < length table = omega (arith, t.size) in
      ground (arith, get_or-set table (place / 32) i word 0 inside, t.words i);
  unused = rest;
}

module _ (small : Bool) {max_value : ℕ} where
  convert_injective :
      (p q : ℕ)
      → p ≤ max_value
      → q ≤ max_value
      → (convert small max_value p == convert small max_value q) ≡ (p == q)
  convert_injective p q h l = elim (Bool-cases small) [
    | inl e ↦ rw e refl
    | inr e ↦ rw e (ground arith)
  ]

  pub convert_inside : (p : ℕ) → p ≤ max_value → convert small max_value p ≤ max_value
  convert_inside p h = elim (Bool-cases small) [ inl e ↦ rw e h | inr e ↦ rw e (omega arith) ]

  module _ {table : List ℕ} (t : IsTable max_value table) where
    in_table : (p : ℕ) → p ≤ max_value → convert small max_value p / 32 < length table
    in_table p h = omega (arith, t.size, convert_inside p h)

    pub insert-IsTable : (p : ℕ) → IsTable max_value (table_insert small max_value p table).1
    unfolding table_insert
    insert-IsTable p = elim (Bool-cases (ltb max_value p)) [
      | inl e ↦ rw e t
      | inr e ↦
          let place = convert small max_value p in
          let le : p ≤ max_value = ground arith in
          rw e (
            write-IsTable t place (bit_or 32 (get_or table (place / 32) 0) (table_bit place))
              (convert_inside p le)
              (combine-bound (λ a b. a || b) 32 (get_or table (place / 32) 0) (table_bit place))
              (λ q l. ground (
                arith,
                has-set_or table place q (in_table p le),
                t.unused q l,
                convert_inside p le,
              )))
    ]

    pub remove-IsTable : (p : ℕ) → IsTable max_value (table_remove small max_value p table).1
    unfolding table_remove
    remove-IsTable p = elim (Bool-cases (ltb max_value p)) [
      | inl e ↦ rw e t
      | inr e ↦
          let place = convert small max_value p in
          let le : p ≤ max_value = ground arith in
          rw e (
            write-IsTable t place (bit_and_not 32 (get_or table (place / 32) 0) (table_bit place))
              (convert_inside p le)
              (combine-bound (λ a b. a && not b) 32 (get_or table (place / 32) 0) (table_bit place))
              (λ q l. ground (
                arith,
                has-set_and_not table place q (in_table p le),
                t.unused q l,
                convert_inside p le,
              )))
    ]

    pub insert-uses :
        (q p : ℕ)
        → p ≤ max_value
        → uses small max_value p (table_insert small max_value q table).1
          ≡ (uses small max_value p table || (p == q))
    unfolding table_insert
    insert-uses q p h = elim (Bool-cases (ltb max_value q)) [
      | inl e ↦ rw e (ground arith)
      | inr e ↦
          let le : q ≤ max_value = ground arith in
          rw
            (
              e,
              has-set_or table (convert small max_value q) (convert small max_value p)
                  (in_table q le),
              convert_injective p q h le,
            )
            refl
    ]

    pub remove-uses :
        (q p : ℕ)
        → p ≤ max_value
        → uses small max_value p (table_remove small max_value q table).1
          ≡ (uses small max_value p table && not (p == q))
    unfolding table_remove
    remove-uses q p h = elim (Bool-cases (ltb max_value q)) [
      | inl e ↦ rw e (ground arith)
      | inr e ↦
          let le : q ≤ max_value = ground arith in
          rw
            (
              e,
              has-set_and_not table (convert small max_value q) (convert small max_value p)
                  (in_table q le),
              convert_injective p q h le,
            )
            refl
    ]
