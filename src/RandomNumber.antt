-- ===== src/RandomNumber.antt =====
-- CommonSource/Math/random_number.c: `GetRandomNumber`. What `rand` returns behind `srand` is a
-- parameter; the computation is in `uint32_t`.
use eclipse_code.Prelude.{
  ℕ, ◌+◌, ◌-◌, ◌%◌, ◌^◌, ◌≤◌, ◌<◌, ◌≡◌, ◌==◌, ltb, if◌then◌else◌, arith, Bool-cases, inl, inr, ◌⊎◌,
}
use native.Mathlib.Nat

-- the number of values, and the number drawn
abbrev drawn : ℕ → ℕ → ℕ → ℕ
drawn rand mul base = (rand % mul + base) % 2 ^ 32

unfoldable pub get_random_number : ℕ → ℕ → ℕ → ℕ
get_random_number rand min max =
    if min == max
    then min
    else if ltb min max
    then drawn rand ((max - min + 1) % 2 ^ 32) min
    else drawn rand ((min - max + 1) % 2 ^ 32) max

drawn-between :
    (rand low high : ℕ)
    → low < high
    → high < 2 ^ 32
    → high < low + (2 ^ 32 - 1)
    → (low ≤ drawn rand ((high - low + 1) % 2 ^ 32) low)
      × (drawn rand ((high - low + 1) % 2 ^ 32) low ≤ high)
drawn-between rand low high lt fits narrow =
    let m : (high - low + 1) % 2 ^ 32 ≡ high - low + 1 = omega (arith, lt, fits, narrow) in
    let less : rand % (high - low + 1) < high - low + 1 =
      Nat.mod-lt rand {m = high - low + 1} (omega arith) in
    rw m (omega (arith, less, lt, fits), omega (arith, less, lt, fits))

-- The number is from the smaller to the greater of the two arguments, in either order, when they are
-- 32-bit words and are not the least and the greatest of them.
get_random_number_between :
    (rand min max : ℕ)
    → min < 2 ^ 32
    → max < 2 ^ 32
    → max < min + (2 ^ 32 - 1)
    → min < max + (2 ^ 32 - 1)
    → ((min ≤ get_random_number rand min max) × (get_random_number rand min max ≤ max))
      ⊎ ((max ≤ get_random_number rand min max) × (get_random_number rand min max ≤ min))
unfolding get_random_number
get_random_number_between rand min max a b c d = elim (Bool-cases (min == max)) [
  | inl same ↦ rw same (inl (omega arith, ground arith))
  | inr other ↦ elim (Bool-cases (ltb min max)) [
    | inl up ↦ rw (other, up) (inl (drawn-between rand min max (ground arith) b c))
    | inr down ↦ rw (other, down) (inr (drawn-between rand max min (ground arith) a d))
  ]
]
