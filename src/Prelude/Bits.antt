-- ===== src/Prelude/Bits.antt =====
-- Words as rows of bits: the bitwise operators of C on words of `w` bits.
use Prim.Native.Nat.{ℕ, zero, suc, ◌+◌, ◌*◌, ◌/◌, ◌%◌, ◌^◌, ◌≤◌, ◌<◌}
use mathlib.Core.Path.{◌≡◌, refl, sym}
use native.Mathlib.Nat.{div-div-eq-div-mul}
use mathlib.Core.Bool.{Bool, true, false, ◌&&◌, ◌||◌, not}
use native.Mathlib.Omega.{arith}
use eclipse_code.Prelude.Tests.{◌==◌, if◌then◌else◌}

-- bit `i` of a number, from the right
unfoldable pub test_bit : ℕ → ℕ → Bool
test_bit x zero = x % 2 == 1
test_bit x (suc i) = test_bit (x / 2) i

abbrev pub digit : Bool → ℕ
digit b = if b then 1 else 0

-- an operator of two words bit by bit
unfoldable pub combine : (Bool → Bool → Bool) → ℕ → ℕ → ℕ → ℕ
combine f zero a b = 0
combine f (suc w) a b = digit (f (a % 2 == 1) (b % 2 == 1)) + 2 * combine f w (a / 2) (b / 2)

-- `a | b`, `a & b`, `a & ~b`, `a ^ b`
abbrev pub bit_or : ℕ → ℕ → ℕ → ℕ
bit_or = combine (λ p q. p || q)

abbrev pub bit_and : ℕ → ℕ → ℕ → ℕ
bit_and = combine (λ p q. p && q)

abbrev pub bit_and_not : ℕ → ℕ → ℕ → ℕ
bit_and_not = combine (λ p q. p && not q)

abbrev pub bit_xor : ℕ → ℕ → ℕ → ℕ
bit_xor = combine (λ p q. if p then not q else q)

-- `a << k` and `a >> k` of a word of `w` bits
abbrev pub shift_left : ℕ → ℕ → ℕ → ℕ
shift_left w a k = a * 2 ^ k % 2 ^ w

abbrev pub shift_right : ℕ → ℕ → ℕ
shift_right a k = a / 2 ^ k

low_digit : (b : Bool) (r : ℕ) → ((digit b + 2 * r) % 2 == 1) ≡ b
low_digit true r = ground arith
low_digit false r = ground arith

high_digits : (b : Bool) (r : ℕ) → (digit b + 2 * r) / 2 ≡ r
high_digits true r = omega arith
high_digits false r = omega arith

pub power_suc : (k : ℕ) → 2 ^ suc k ≡ 2 * 2 ^ k
power_suc k = omega arith

pub test_bit-combine :
    (f : Bool → Bool → Bool) (w a b i : ℕ)
    → i < w
    → test_bit (combine f w a b) i ≡ f (test_bit a i) (test_bit b i)
unfolding test_bit combine
test_bit-combine f zero a b i h = absurd (omega arith)
test_bit-combine f (suc w) a b zero h =
    low_digit (f (a % 2 == 1) (b % 2 == 1)) (combine f w (a / 2) (b / 2))
test_bit-combine f (suc w) a b (suc i) h =
    rw (high_digits (f (a % 2 == 1) (b % 2 == 1)) (combine f w (a / 2) (b / 2)))
      (test_bit-combine f w (a / 2) (b / 2) i (omega arith))

pub combine-bound : (f : Bool → Bool → Bool) (w a b : ℕ) → combine f w a b < 2 ^ w
unfolding combine
combine-bound f zero a b = omega arith
combine-bound f (suc w) a b = ground (arith, combine-bound f w (a / 2) (b / 2), power_suc w)

pub test_bit-zero : (i : ℕ) → test_bit 0 i ≡ false
unfolding test_bit
test_bit-zero zero = refl
test_bit-zero (suc i) = test_bit-zero i

-- a power of two has one bit
pub test_bit-power : (k i : ℕ) → test_bit (2 ^ k) i ≡ (i == k)
unfolding test_bit
test_bit-power zero zero = refl
test_bit-power zero (suc i) = rw (test_bit-zero i) (ground arith)
test_bit-power (suc k) zero = ground (arith, power_suc k)
test_bit-power (suc k) (suc i) =
    let half : 2 ^ suc k / 2 ≡ 2 ^ k = omega (arith, power_suc k) in
    rw (half, test_bit-power k i) (ground arith)

-- the highest bit of a number between two powers of two
pub test_bit-top : (k x : ℕ) → 2 ^ k ≤ x → x < 2 ^ suc k → test_bit x k ≡ true
unfolding test_bit
test_bit-top zero x h g = ground arith
test_bit-top (suc k) x h g =
    test_bit-top k (x / 2) (omega (arith, power_suc k)) (omega (arith, power_suc (suc k)))

pub test_bit-above : (k i x : ℕ) → x < 2 ^ k → k ≤ i → test_bit x i ≡ false
unfolding test_bit
test_bit-above zero i x h g = let nothing : x ≡ 0 = omega arith in rw nothing (test_bit-zero i)
test_bit-above (suc k) zero x h g = absurd (omega arith)
test_bit-above (suc k) (suc i) x h g =
    test_bit-above k i (x / 2) (omega (arith, power_suc k)) (omega arith)

-- a number with no bit among the lowest `w` is a multiple of `2 ^ w`
pub test_bit-none : (w x : ℕ) → x < 2 ^ w → ((i : ℕ) → i < w → test_bit x i ≡ false) → x ≡ 0
unfolding test_bit
test_bit-none zero x h none = omega arith
test_bit-none (suc w) x h none =
    let half : x / 2 ≡ 0 =
      test_bit-none w (x / 2) (omega (arith, power_suc w)) (λ i l. none (suc i) (omega arith)) in
    let low : (x % 2 == 1) ≡ false = none 0 (omega arith) in ground arith

div-one : (x : ℕ) → x / 2 ^ 0 ≡ x
div-one x = omega arith

shift_right-suc : (k x : ℕ) → shift_right x (suc k) ≡ shift_right (x / 2) k
shift_right-suc k x = rw (power_suc k) (sym (div-div-eq-div-mul x 2 (2 ^ k)))

pub test_bit-shift_right : (k x i : ℕ) → test_bit (shift_right x k) i ≡ test_bit x (i + k)
unfolding test_bit
test_bit-shift_right zero x i = ground (arith, div-one x)
test_bit-shift_right (suc k) x i =
    let next : i + suc k ≡ suc (i + k) = omega arith in
    rw (shift_right-suc k x, next) (test_bit-shift_right k (x / 2) i)

-- bit `k` is the highest that is set
abbrev pub IsTop : ℕ → ℕ → Type 0
IsTop x k = (test_bit x k ≡ true) × ((j : ℕ) → k < j → test_bit x j ≡ false)

-- the lowest five bits, as `& 31` takes them
digit-mod : (a : ℕ) → digit (a % 2 == 1) ≡ a % 2
digit-mod a = ground arith

pub bit_and-zero : (w a : ℕ) → bit_and w a 0 ≡ 0
unfolding combine
bit_and-zero zero a = refl
bit_and-zero (suc w) a = ground (arith, bit_and-zero w (a / 2))

pub bit_and-odd : (w a b : ℕ) → bit_and (suc w) a (2 * b + 1) ≡ a % 2 + 2 * bit_and w (a / 2) b
unfolding combine
bit_and-odd w a b =
    let half : (2 * b + 1) / 2 ≡ b = omega arith in
    let odd : ((2 * b + 1) % 2 == 1) ≡ true = ground arith in
    rw (half, odd) (ground (arith, digit-mod a))

pub bit_and-31 : (x : ℕ) → bit_and 32 x 31 ≡ x % 32
bit_and-31 x = omega (
  arith,
  bit_and-odd 31 x 15,
  bit_and-odd 30 (x / 2) 7,
  bit_and-odd 29 (x / 2 / 2) 3,
  bit_and-odd 28 (x / 2 / 2 / 2) 1,
  bit_and-odd 27 (x / 2 / 2 / 2 / 2) 0,
  bit_and-zero 27 (x / 2 / 2 / 2 / 2 / 2),
)

pub pow-pos : (k : ℕ) → 0 < 2 ^ k
pow-pos zero = omega arith
pow-pos (suc k) = omega (arith, pow-pos k, power_suc k)

pub power_less : (k w : ℕ) → k < w → 2 ^ k < 2 ^ w
power_less k zero h = absurd (omega arith)
power_less zero (suc w) h = omega (arith, power_suc w, pow-pos w)
power_less (suc k) (suc w) h = omega (arith, power_less k w (omega arith), power_suc k, power_suc w)
