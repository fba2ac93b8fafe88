-- ===== src/PriorityTable/Bit.antt =====
-- The bit of a priority in the table of m_priority_queues.c, and what the table's functions do to
-- each bit.
use eclipse_code.Prelude.{
  ℕ, ◌-◌, ◌/◌, ◌%◌, ◌^◌, ◌<◌, ◌≡◌, ap, Bool, ◌&&◌, ◌||◌, not, List, set, get_or, get_or-set, length,
  ◌==◌, if◌then◌else◌, test_bit, bit_or, bit_and_not, combine, bit_and-31, test_bit-combine,
  test_bit-power, power_less, arith,
}
use eclipse_code.PriorityTable.{table_bit}

-- the bit at a place: the places of a word go from its left to its right
unfoldable pub has : ℕ → List ℕ → Bool
has place table = test_bit (get_or table (place / 32) 0) (31 - place % 32)

table_bit-power : (place : ℕ) → table_bit place ≡ 2 ^ (31 - place % 32)
table_bit-power place =
    let few : 2 ^ (31 - place % 32) < 2 ^ 32 = power_less (31 - place % 32) 32 (omega arith) in
    rw (bit_and-31 place) (omega (arith, few))

-- places with the same word and the same bit in it are the same
same_bit :
    (place q : ℕ) → ((place / 32 == q / 32) && (31 - q % 32 == 31 - place % 32)) ≡ (q == place)
same_bit place q = ground arith

module _ (table : List ℕ) (place q : ℕ) (inside : place / 32 < length table) where
  has-set :
      (word : ℕ)
      → has q (set table (place / 32) word)
        ≡ (if place / 32 == q / 32 then test_bit word (31 - q % 32) else has q table)
  unfolding has
  has-set word = ground (arith, get_or-set table (place / 32) (q / 32) word 0 inside)

  word_bit :
      (f : Bool → Bool → Bool)
      → test_bit (combine f 32 (get_or table (place / 32) 0) (table_bit place)) (31 - q % 32)
        ≡ f (test_bit (get_or table (place / 32) 0) (31 - q % 32)) (31 - q % 32 == 31 - place % 32)
  word_bit f =
      rw
        (
          test_bit-combine f 32 (get_or table (place / 32) 0) (table_bit place) (31 - q % 32)
              (omega arith),
          table_bit-power place,
          test_bit-power (31 - place % 32) (31 - q % 32),
        )
        (ap (f (test_bit (get_or table (place / 32) 0) (31 - q % 32))) (ground arith))

  pub has-set_or :
      has q (set table (place / 32) (bit_or 32 (get_or table (place / 32) 0) (table_bit place)))
      ≡ (has q table || (q == place))
  unfolding has
  has-set_or = ground (
    arith,
    has-set (bit_or 32 (get_or table (place / 32) 0) (table_bit place)),
    word_bit (λ a b. a || b),
    same_bit place q,
  )

  pub has-set_and_not :
      has q
        (set table (place / 32) (bit_and_not 32 (get_or table (place / 32) 0) (table_bit place)))
      ≡ (has q table && not (q == place))
  unfolding has
  has-set_and_not = ground (
    arith,
    has-set (bit_and_not 32 (get_or table (place / 32) 0) (table_bit place)),
    word_bit (λ a b. a && not b),
    same_bit place q,
  )
