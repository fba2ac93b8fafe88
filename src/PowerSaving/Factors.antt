-- ===== src/PowerSaving/Factors.antt =====
-- The factors of PenState.c: what the checks of the inputs leave in the bits.
use eclipse_code.Prelude.{
  ℕ, ◌<◌, ◌≡◌, refl, ◌∙◌, Bool, true, false, not, ◌==◌, if◌then◌else◌, Bool-cases, inl, inr, arith,
}
use eclipse_code.BitOperation.{byte_getbit, byte_factor_set, byte_getbit-byte_factor_set}

-- a test of a bit behind `ByteFactorSet`
test-byte_factor_set :
    (factor n i : ℕ) (on : Bool)
    → n < 8
    → i < 8
    → (byte_getbit (byte_factor_set factor n on) i == 1)
      ≡ (if i == n then on else (byte_getbit factor i == 1))
test-byte_factor_set factor n i on ln li =
    rw (byte_getbit-byte_factor_set factor n i on ln li) (elim (Bool-cases (i == n)) [
      | inl same ↦ elim (Bool-cases on) [ inl e ↦ rw (same, e) refl | inr e ↦ rw (same, e) refl ]
      | inr other ↦ rw other refl
    ])

-- what `PenStateFactorCollector` makes of the argument
pub collected : (on : Bool) → not ((if on then 1 else 0) == 0) ≡ on
collected true = refl
collected false = refl

-- a test of a bit behind a check
test-collect :
    (factor n i : ℕ) (on : Bool)
    → n < 8
    → i < 8
    → (byte_getbit (byte_factor_set factor n (not ((if on then 1 else 0) == 0))) i == 1)
      ≡ (if i == n then on else (byte_getbit factor i == 1))
test-collect factor n i on ln li = rw (collected on) (test-byte_factor_set factor n i on ln li)

-- the bit of the check
pub test-collect-same :
    (factor n : ℕ) (on : Bool)
    → n < 8
    → (byte_getbit (byte_factor_set factor n (not ((if on then 1 else 0) == 0))) n == 1) ≡ on
test-collect-same factor n on ln = test-collect factor n n on ln ln ∙ ground arith

-- another bit
pub test-collect-other :
    (factor n i : ℕ) (on : Bool)
    → n < 8
    → i < 8
    → (i == n) ≡ false
    → (byte_getbit (byte_factor_set factor n (not ((if on then 1 else 0) == 0))) i == 1)
      ≡ (byte_getbit factor i == 1)
test-collect-other factor n i on ln li other = test-collect factor n i on ln li ∙ rw other refl
