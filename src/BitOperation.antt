-- ===== src/BitOperation.antt =====
-- CommonSource/Math/bit_operation.c: one bit of a byte or of two bytes. A result is stored in the
-- type of `source`, so an operator works on that many bits of its operands; the mask is shifted as
-- an `int`, by less than 32.
mod Tests
pub mod Number
use eclipse_code.Prelude.{
  ℕ, ◌+◌, ◌-◌, ◌%◌, ◌^◌, ◌<◌, ◌≡◌, refl, sym, ap, ◌∙◌, Bool, true, false, ◌&&◌, ◌||◌, not, ◌==◌,
  if◌then◌else◌, u8_mod, u16_mod, test_bit, test_bit-combine, test_bit-power, test_bit-zero,
  test_bit-none, combine-bound, combine, bit_or, bit_and, bit_and_not, bit_xor, digit, shift_left,
  power_less, Bool-cases, inl, inr, arith, subst,
}
use mathlib.Core.Bool.{true≢false}

-- `ByteMask << bitnumber`, `TwoByteMask << bitnumber`
abbrev pub mask : ℕ → ℕ
mask bitnumber = shift_left 32 1 bitnumber

pub byte_setbit : ℕ → ℕ → ℕ
byte_setbit source bitnumber = bit_or 8 source (mask bitnumber)

pub byte_clearbit : ℕ → ℕ → ℕ
byte_clearbit source bitnumber = bit_and_not 8 source (mask bitnumber)

pub byte_getbit : ℕ → ℕ → ℕ
byte_getbit source bitnumber = if not (bit_and 32 source (mask bitnumber) == 0) then 1 else 0

-- the mask is an `uint8_t` here
pub byte_bitoverturn : ℕ → ℕ → ℕ
byte_bitoverturn source bitnumber = bit_xor 8 source (mask bitnumber % u8_mod)

pub byte_factor_set : ℕ → ℕ → Bool → ℕ
byte_factor_set factor bit_number set_or_clear =
    if set_or_clear then byte_setbit factor bit_number else byte_clearbit factor bit_number

pub twobyte_setbit : ℕ → ℕ → ℕ
twobyte_setbit source bitnumber = bit_or 16 source (mask bitnumber)

pub twobyte_clearbit : ℕ → ℕ → ℕ
twobyte_clearbit source bitnumber = bit_and_not 16 source (mask bitnumber)

pub twobyte_getbit : ℕ → ℕ → ℕ
twobyte_getbit source bitnumber = if not (bit_and 32 source (mask bitnumber) == 0) then 1 else 0

pub twobyte_bitoverturn : ℕ → ℕ → ℕ
twobyte_bitoverturn source bitnumber = bit_xor 16 source (mask bitnumber % u16_mod)

pub two_byte_factor_set : ℕ → ℕ → Bool → ℕ
two_byte_factor_set factor bit_number set_or_clear =
    if set_or_clear then twobyte_setbit factor bit_number else twobyte_clearbit factor bit_number

mask-power : (n : ℕ) → n < 32 → mask n ≡ 2 ^ n
mask-power n l = let few : 2 ^ n < 2 ^ 32 = power_less n 32 l in omega (arith, few)

test_bit-mask : (n i : ℕ) → n < 32 → test_bit (mask n) i ≡ (i == n)
test_bit-mask n i l = rw (mask-power n l, test_bit-power n i) (ground arith)

-- an operator with the mask, bit by bit
masked :
    (f : Bool → Bool → Bool) (w source n i : ℕ)
    → n < 32
    → i < w
    → test_bit (combine f w source (mask n)) i ≡ f (test_bit source i) (i == n)
masked f w source n i l h =
    test_bit-combine f w source (mask n) i h ∙ ap (f (test_bit source i)) (test_bit-mask n i l)

only_other : (source n i : ℕ) → test_bit source n ≡ false → (test_bit source i && (i == n)) ≡ false
only_other source n i e = elim (Bool-cases (i == n)) [
  | inl z ↦ let at : i ≡ n = ground arith in rw (at, e) refl
  | inr z ↦ rw z (ground arith)
]

-- the test of a bit by the mask
tested :
    (source n : ℕ)
    → n < 32
    → (if not (bit_and 32 source (mask n) == 0) then 1 else 0) ≡ digit (test_bit source n)
tested source n l = elim (Bool-cases (test_bit source n)) [
  | inl e ↦
      let on : test_bit (bit_and 32 source (mask n)) n ≡ true =
        masked (λ a b. a && b) 32 source n n l l ∙ rw e (ground arith) in
      let some_bit : (bit_and 32 source (mask n) == 0) ≡ false =
        elim (Bool-cases (bit_and 32 source (mask n) == 0)) [
          | inl z ↦
              let nothing : bit_and 32 source (mask n) ≡ 0 = ground arith in
              absurd (true≢false (sym on ∙ rw nothing (test_bit-zero n)))
          | inr z ↦ z
        ] in
      rw (some_bit, e) refl
  | inr e ↦
      let off : (i : ℕ) → i < 32 → test_bit (bit_and 32 source (mask n)) i ≡ false =
        λ i h. masked (λ a b. a && b) 32 source n i l h ∙ only_other source n i e in
      let nothing : bit_and 32 source (mask n) ≡ 0 =
        test_bit-none 32 (bit_and 32 source (mask n))
          (combine-bound (λ a b. a && b) 32 source (mask n)) off in
      rw (nothing, e) refl
]

-- `byte_setbit` and `byte_clearbit` change one bit of the byte and leave the others, and `byte_getbit`
-- reads it, for a bit number below 32.
pub byte_lem :
    (source n i : ℕ)
    → n < 32
    → i < 8
    → (test_bit (byte_setbit source n) i ≡ (test_bit source i || (i == n)))
      × (test_bit (byte_clearbit source n) i ≡ (test_bit source i && not (i == n)))
      × (byte_getbit source n ≡ digit (test_bit source n))
unfolding byte_setbit byte_clearbit byte_getbit
byte_lem source n i l h = (
  masked (λ a b. a || b) 8 source n i l h,
  masked (λ a b. a && not b) 8 source n i l h,
  tested source n l,
)

-- `twobyte_setbit` and `twobyte_clearbit` change one of the sixteen bits and leave the others, and
-- `twobyte_getbit` reads it, for a bit number below 32.
pub twobyte_lem :
    (source n i : ℕ)
    → n < 32
    → i < 16
    → (test_bit (twobyte_setbit source n) i ≡ (test_bit source i || (i == n)))
      × (test_bit (twobyte_clearbit source n) i ≡ (test_bit source i && not (i == n)))
      × (twobyte_getbit source n ≡ digit (test_bit source n))
unfolding twobyte_setbit twobyte_clearbit twobyte_getbit
twobyte_lem source n i l h = (
  masked (λ a b. a || b) 16 source n i l h,
  masked (λ a b. a && not b) 16 source n i l h,
  tested source n l,
)

-- a bit of a byte behind `ByteFactorSet`
pub byte_getbit-byte_factor_set :
    (factor n i : ℕ) (on : Bool)
    → n < 8
    → i < 8
    → byte_getbit (byte_factor_set factor n on) i
      ≡ (if i == n then digit on else byte_getbit factor i)
unfolding byte_factor_set
byte_getbit-byte_factor_set factor n i on ln li =
    let low : i < 32 = omega (arith, li) in
    let set = byte_lem factor n i (omega (arith, ln)) li in
    let reads : (s : ℕ) → byte_getbit s i ≡ digit (test_bit s i) = λ s. (byte_lem s i i low li).2 in
    elim (Bool-cases (i == n)) [
      | inl same ↦ elim (Bool-cases on) [
        | inl e ↦ rw (e, reads (byte_setbit factor n), set.0, same) (ground arith)
        | inr e ↦ rw (e, reads (byte_clearbit factor n), set.1, same) (ground arith)
      ]
      | inr other ↦ elim (Bool-cases on) [
        | inl e ↦ rw (e, reads (byte_setbit factor n), set.0, other, reads factor) (ground arith)
        | inr e ↦ rw (e, reads (byte_clearbit factor n), set.1, other, reads factor) (ground arith)
      ]
    ]
