-- ===== src/PriorityTable/Highest.antt =====
-- `PriorityTableGetHighest` of m_priority_queues.c finds the first place whose bit is set.
use eclipse_code.Prelude.{
  ℕ, zero, suc, ◌+◌, ◌-◌, ◌*◌, ◌/◌, ◌%◌, ◌≤◌, ◌<◌, ◌≡◌, true, false, Option, none, some, List,
  get_or, ◌==◌, ltb, u16_mod, u32_mod, test_bit-zero, Bool-cases, inl, inr, arith,
}
use eclipse_code.LeadZero.{get_lead_zero_count, get_lead_zero_count-IsTop}
use eclipse_code.PriorityTable.{highest_loop}
use eclipse_code.PriorityTable.Bit.{has}

-- What a search of the places from `from` to before `to` finds: the first that is set, or none
-- where no bit is.
unfoldable pub IsFirst : ℕ → ℕ → List ℕ → Option ℕ → Type 0
IsFirst from to table none = (q : ℕ) → from ≤ q → q < to → has q table ≡ false
IsFirst from to table (some p) =
    (p < to) × (has p table ≡ true) × ((q : ℕ) → from ≤ q → q < p → has q table ≡ false)

-- a word of the table has 32 bits
abbrev pub IsWords : List ℕ → Type 0
IsWords table = (i : ℕ) → get_or table i 0 < u32_mod

word_empty :
    (i : ℕ) (table : List ℕ) → get_or table i 0 ≡ 0 → IsFirst (32 * i) (32 * (i + 1)) table none
unfolding IsFirst has
word_empty i table e =
    λ q h l. let here : q / 32 ≡ i = omega arith in rw (here, e) (test_bit-zero (31 - q % 32))

word_first :
    (i : ℕ) (table : List ℕ)
    → get_or table i 0 < u32_mod
    → 0 < get_or table i 0
    → (get_lead_zero_count (get_or table i 0) < 32)
      × IsFirst
          (32 * i)
          (32 * (i + 1))
          table
          (some (32 * i + get_lead_zero_count (get_or table i 0)))
unfolding IsFirst has
word_first i table small p =
    let (few, (at, above)) = get_lead_zero_count-IsTop (get_or table i 0) p small in
    let c = get_lead_zero_count (get_or table i 0) in
    let word : (32 * i + c) / 32 ≡ i = omega arith in
    let place : 31 - (32 * i + c) % 32 ≡ 31 - c = omega arith in
    let before : (q : ℕ) → 32 * i ≤ q → q < 32 * i + c → has q table ≡ false =
      λ q h l. let here : q / 32 ≡ i = omega arith in rw here (above (31 - q % 32) (omega arith)) in
    (few, (omega arith, rw (word, place) at, before))

join :
    (i n : ℕ) (table : List ℕ)
    → IsFirst (32 * i) (32 * (i + 1)) table none
    → (found : Option ℕ) → IsFirst (32 * (i + 1)) (32 * (i + 1 + n)) table found
    → IsFirst (32 * i) (32 * (i + 1 + n)) table found
unfolding IsFirst
join i n table before none rest = λ q h l. elim (Bool-cases (ltb q (32 * (i + 1)))) [
  | inl e ↦ before q h (ground arith)
  | inr e ↦ rest q (ground arith) l
]
join i n table before (some p) (l, at, rest) = (
  l,
  at,
  λ q h g. elim (Bool-cases (ltb q (32 * (i + 1)))) [
    | inl e ↦ before q h (ground arith)
    | inr e ↦ rest q (ground arith) g
  ],
)

-- The search of the words from `i` on, `n` of them, in a table of at most 2048 words.
pub highest_loop-IsFirst :
    (n i : ℕ) (table : List ℕ)
    → IsWords table
    → i + n ≤ 2048
    → IsFirst (32 * i) (32 * (i + n)) table (highest_loop n i (32 * i % u16_mod) table)
unfolding highest_loop IsFirst
highest_loop-IsFirst zero i table words h = λ q l g. absurd (omega arith)
highest_loop-IsFirst (suc n) i table words h = elim (Bool-cases (get_or table i 0 == 0)) [
  | inl e ↦
      let next : (32 * i % u16_mod + 32) % u16_mod ≡ 32 * (i + 1) % u16_mod = omega arith in
      let to : 32 * (i + suc n) ≡ 32 * (i + 1 + n) = omega arith in
      rw (e, next, to)
        (join i n table (word_empty i table (ground arith))
          (highest_loop n (i + 1) (32 * (i + 1) % u16_mod) table)
          (highest_loop-IsFirst n (i + 1) table words (omega arith)))
  | inr ne ↦
      let (few, first) = word_first i table (words i) (ground arith) in
      let c = get_lead_zero_count (get_or table i 0) in
      let whole : (32 * i % u16_mod + c) % u16_mod ≡ 32 * i + c = omega arith in
      rw (ne, whole) (omega arith, first.1, first.2)
]
