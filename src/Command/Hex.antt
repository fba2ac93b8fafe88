-- ===== src/Command/Hex.antt =====
-- `CharToHex` of command.c reads two hexadecimal digits.
use eclipse_code.Prelude.{
  ℕ, zero, suc, ◌+◌, ◌-◌, ◌*◌, ◌<◌, ◌≡◌, refl, sym, ap, ◌∙◌, Bool, true, false, ◌&&◌, ◌||◌, Option,
  some, none, ◌==◌, ltb, leb, if◌then◌else◌, get_or, Bool-cases, inl, inr, arith, subst,
}
use eclipse_code.Command.{char_to_hex, char_to_hex_table, hex_of}

-- the value of a hexadecimal digit: a decimal one, or a letter of either case
abbrev pub digit_value : ℕ → Option ℕ
digit_value c =
    if leb 48 c && leb c 57
    then some (c - 48)
    else if leb 65 c && leb c 70
    then some (c - 55)
    else if leb 97 c && leb c 102
    then some (c - 87)
    else none

-- a byte of two digits, when both characters are digits
abbrev pub byte_of : Option ℕ → Option ℕ → ℕ × Bool
byte_of (some high) (some low) = (high * 16 + low, true)
byte_of (some high) none = (0, false)
byte_of none low = (0, false)

abbrev code : Option ℕ → ℕ
code none = 255
code (some d) = d

-- a test that holds below `n`
abbrev holds_below : (ℕ → Bool) → ℕ → Bool
holds_below p zero = true
holds_below p (suc n) = p n && holds_below p n

holds : (p : ℕ → Bool) (n k : ℕ) → holds_below p n ≡ true → k < n → p k ≡ true
holds p zero k all lt = absurd (omega (arith, lt))
holds p (suc n) k all lt = elim (Bool-cases (k == n)) [
  | inl e ↦ let same : k ≡ n = ground arith in rw same (ground (arith, all))
  | inr e ↦ holds p n k (ground (arith, all)) (ground arith)
]

table_lem :
    (k : ℕ) → k < 55 → (get_or char_to_hex_table k 255 == code (digit_value (k + 48))) ≡ true
table_lem k lt =
    holds (λ k. get_or char_to_hex_table k 255 == code (digit_value (k + 48))) 55 k refl lt

small_lem :
    (k : ℕ)
    → k < 55
    → (if get_or char_to_hex_table k 255 == 255
        then true
        else ltb (get_or char_to_hex_table k 255) 16)
      ≡ true
small_lem k lt =
    holds
      (λ k.
        if get_or char_to_hex_table k 255 == 255
        then true
        else ltb (get_or char_to_hex_table k 255) 16)
      55 k refl lt

-- a character as the table reads it: out of the range, without a digit, or a digit
data Read (c : ℕ) : Type 0 where
  outside : (ltb c 48 || ltb 102 c) ≡ true → digit_value c ≡ none → Read c
  blank : (ltb c 48 || ltb 102 c) ≡ false → (hex_of c == 255) ≡ true → digit_value c ≡ none → Read c
  digit :
      (ltb c 48 || ltb 102 c) ≡ false
      → (hex_of c == 255) ≡ false
      → hex_of c < 16
      → digit_value c ≡ some (hex_of c)
      → Read c

equal_of : (m n : ℕ) → (m == n) ≡ true → n ≡ m
equal_of m n e = ground arith

small_of : (n : ℕ) → (n == 255) ≡ false → (if n == 255 then true else ltb n 16) ≡ true → n < 16
small_of n b e = ground arith

coded : (o : Option ℕ) (n : ℕ) → n < 16 → code o ≡ n → o ≡ some n
coded none n lt e = absurd (omega (arith, lt, e))
coded (some d) n lt e = ap some e

uncoded : (c : ℕ) → code (digit_value c) ≡ 255 → c < 103 → digit_value c ≡ none
uncoded c e lt = ground arith

read : (c : ℕ) → Read c
read c = elim (Bool-cases (ltb c 48 || ltb 102 c)) [
  | inl e ↦ outside e (ground arith)
  | inr e ↦
      let back : (c - 48) + 48 ≡ c = ground arith in
      let few : c - 48 < 55 = ground arith in
      let same : code (digit_value c) ≡ hex_of c =
        subst (λ x. code (digit_value x) ≡ hex_of c) back (equal_of _ _ (table_lem (c - 48) few)) in
      elim (Bool-cases (hex_of c == 255)) [
        | inl b ↦ blank e b (uncoded c (same ∙ sym (equal_of (hex_of c) 255 b)) (ground arith))
        | inr b ↦
            let small : hex_of c < 16 = small_of (hex_of c) b (small_lem (c - 48) few) in
            digit e b small (coded (digit_value c) (hex_of c) small same)
      ]
]

by_reads :
    (high low : ℕ)
    → Read high
    → Read low
    → char_to_hex high low ≡ byte_of (digit_value high) (digit_value low)
unfolding char_to_hex
by_reads high low (outside e v) r = rw (e, v) refl
by_reads high low (blank e b v) (outside e2 v2) = rw (e, e2, v) refl
by_reads high low (blank e b v) (blank e2 b2 v2) = rw (e, e2, b, v) refl
by_reads high low (blank e b v) (digit e2 b2 s2 v2) = rw (e, e2, b, v) refl
by_reads high low (digit e b s v) (outside e2 v2) = rw (e, e2, v, v2) refl
by_reads high low (digit e b s v) (blank e2 b2 v2) = rw (e, e2, b, b2, v, v2) refl
by_reads high low (digit e b s v) (digit e2 b2 s2 v2) =
    rw (e, e2, b, b2, v, v2) (ap (λ n. (n, true)) (omega (arith, s, s2)))

-- `CharToHex` gives the byte of two hexadecimal digits, in either case, and says so; for every other
-- pair of characters it gives 0 and fails.
pub char_to_hex-byte_of :
    (high low : ℕ) → char_to_hex high low ≡ byte_of (digit_value high) (digit_value low)
char_to_hex-byte_of high low = by_reads high low (read high) (read low)
