-- ===== src/LeadZero.antt =====
-- CommonSource/AppCommon.c: `GetLeadZeroCount`, the leading zeros of a word by a table, where the
-- processor's instruction for them is not used.

mod Tests
use eclipse_code.Prelude.{
  ℕ, zero, suc, ◌+◌, ◌-◌, ◌*◌, ◌/◌, ◌%◌, ◌^◌, ◌≤◌, ◌<◌, ◌≡◌, refl, Bool, true, false, ◌&&◌, List,
  [], ◌∷◌, ◌++◌, replicate, get_or, length, ltb, leb, ◌==◌, if◌then◌else◌, u8_mod, u32_mod, sym,
  shift_right, test_bit, test_bit-top, test_bit-above, IsTop, test_bit-shift_right, power_suc, ap,
  subst, Bool-cases, inl, inr, arith,
}

-- `LeadZeroTable_8`, in runs of equal entries
abbrev pub lead_zero_table_8 : List ℕ
lead_zero_table_8 =
    8 ∷ 7 ∷ replicate 2 6
    ++ replicate 4 5
    ++ replicate 8 4
    ++ replicate 16 3
    ++ replicate 32 2
    ++ replicate 64 1
    ++ replicate 128 0

-- `GetLeadZeroCount`
unfoldable pub get_lead_zero_count : ℕ → ℕ
get_lead_zero_count source =
    if ltb 65535 source
    then if ltb 16777215 source
      then get_or lead_zero_table_8 (shift_right source 24 % u8_mod) 0 + 0
      else get_or lead_zero_table_8 (shift_right source 16 % u8_mod) 0 + 8
    else if ltb 255 source
    then get_or lead_zero_table_8 (shift_right source 8 % u8_mod) 0 + 16
    else get_or lead_zero_table_8 (shift_right source 0 % u8_mod) 0 + 24

-- An entry of the table is right where the bit of its index that it counts down to is the highest.
fits : ℕ → ℕ → Bool
fits i t = ltb t 8 && (leb (2 ^ (7 - t)) i && ltb i (2 ^ (8 - t)))

all_fit : ℕ → List ℕ → Bool
all_fit i [] = true
all_fit i (t ∷ ts) = fits i t && all_fit (i + 1) ts

all_fit-get_or :
    (i j : ℕ) (ts : List ℕ)
    → all_fit i ts ≡ true
    → j < length ts
    → fits (i + j) (get_or ts j 0) ≡ true
unfolding all_fit
all_fit-get_or i j [] h l = absurd (omega arith)
all_fit-get_or i zero (t ∷ ts) h l = let same : i + 0 ≡ i = omega arith in rw same (ground arith)
all_fit-get_or i (suc j) (t ∷ ts) h l =
    let next : i + suc j ≡ i + 1 + j = omega arith in
    rw next (all_fit-get_or (i + 1) j ts (ground arith) (omega arith))

-- the table without its entry for zero
entries : List ℕ
entries =
    7 ∷ replicate 2 6
    ++ replicate 4 5
    ++ replicate 8 4
    ++ replicate 16 3
    ++ replicate 32 2
    ++ replicate 64 1
    ++ replicate 128 0

table_fits : all_fit 1 entries ≡ true
unfolding all_fit fits entries
table_fits = refl

fits-IsTop : (i t : ℕ) → fits i t ≡ true → (t < 8) × IsTop i (7 - t)
unfolding fits
fits-IsTop i t h =
    let small : t < 8 = ground arith in
    let low : 2 ^ (7 - t) ≤ i = ground arith in
    let next : 8 - t ≡ suc (7 - t) = omega arith in
    let high : i < 2 ^ suc (7 - t) = subst (λ k. i < 2 ^ k) next (ground arith) in
    let above : (j : ℕ) → 7 - t < j → test_bit i j ≡ false =
      λ j l. test_bit-above (suc (7 - t)) j i high (omega arith) in
    (small, (test_bit-top (7 - t) i low high, above))

table_entry :
    (i : ℕ)
    → 0 < i
    → i < 256
    → (get_or lead_zero_table_8 i 0 < 8) × IsTop i (7 - get_or lead_zero_table_8 i 0)
unfolding entries
table_entry zero p h = absurd (omega arith)
table_entry (suc i) p h =
    let inside : i < length entries = omega arith in
    let from_one : 1 + i ≡ suc i = omega arith in
    fits-IsTop (suc i) (get_or entries i 0)
      (rw (← from_one) (all_fit-get_or 1 i entries table_fits inside))

IsTop-shift_right : (k x s : ℕ) → IsTop (shift_right x s) k → IsTop x (k + s)
IsTop-shift_right k x s (at, above) = (
  rw (← test_bit-shift_right s x k) at,
  λ j l.
      let back : j - s + s ≡ j = omega arith in
      rw (← back, ← test_bit-shift_right s x (j - s)) (above (j - s) (omega arith)),
)

-- The code looks up the eight bits from bit `s` on, where no bit is set above them.
from_window :
    (x s : ℕ)
    → s ≤ 24
    → 0 < shift_right x s
    → shift_right x s < 256
    → (get_or lead_zero_table_8 (shift_right x s % u8_mod) 0 + (24 - s) < 32)
      × IsTop x (31 - (get_or lead_zero_table_8 (shift_right x s % u8_mod) 0 + (24 - s)))
from_window x s h p q =
    let same : shift_right x s % u8_mod ≡ shift_right x s = omega arith in
    let (small, top) = table_entry (shift_right x s) p q in
    let t = get_or lead_zero_table_8 (shift_right x s) 0 in
    let place : 31 - (t + (24 - s)) ≡ 7 - t + s = omega arith in
    rw same (omega arith, subst (IsTop x) (sym place) (IsTop-shift_right (7 - t) x s top))

-- `GetLeadZeroCount` of a word other than 0 is less than 32 and counts the zeros in front of its
-- highest bit.
pub get_lead_zero_count-IsTop :
    (x : ℕ)
    → 0 < x
    → x < u32_mod
    → (get_lead_zero_count x < 32) × IsTop x (31 - get_lead_zero_count x)
unfolding get_lead_zero_count
get_lead_zero_count-IsTop x p h = elim (Bool-cases (ltb 65535 x)) [
  | inl e ↦ elim (Bool-cases (ltb 16777215 x)) [
    | inl f ↦ rw (e, f) (from_window x 24 (omega arith) (ground arith) (ground arith))
    | inr f ↦ rw (e, f) (from_window x 16 (omega arith) (ground arith) (ground arith))
  ]
  | inr e ↦ elim (Bool-cases (ltb 255 x)) [
    | inl f ↦ rw (e, f) (from_window x 8 (omega arith) (ground arith) (ground arith))
    | inr f ↦ rw (e, f) (from_window x 0 (omega arith) (ground arith) (ground arith))
  ]
]
