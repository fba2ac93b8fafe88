-- ===== src/Flash/Checks.antt =====
-- The tests of FlashEventHandle.c on addresses: what they decide, and where their 32-bit sums go wrong.
use Prim.Native.Nat.{◌^◌}
use native.Mathlib.Nat
use eclipse_code.Prelude.{
  ℕ, zero, suc, ◌+◌, ◌-◌, ◌*◌, ◌/◌, ◌%◌, ◌≤◌, ◌<◌, ◌≡◌, ◌↔◌, sym, ap, ◌∙◌, true, bit_and, arith,
  power_suc, pow-pos, power_less, bit_and-zero, bit_and-odd, u32_mod, ==_iff,
}
use eclipse_code.Flash.{
  does_addr_is_page_aligned, does_addr_is_aligned32, does_addr_is_within_bounds,
}

-- the lowest `k` bits
mod_double : (a m : ℕ) → 0 < m → a % (2 * m) ≡ a % 2 + 2 * (a / 2 % m)
mod_double a m pos =
    let q = a / 2 in
    let r = a % 2 + 2 * (q % m) in
    let low : q % m < m = Nat.mod-lt q pos in
    let whole : 2 * m * (q / m) + r ≡ a =
      omega (arith, Nat.div-add-mod q m, Nat.mul_assoc 2 m (q / m)) in
    ap (λ (x : ℕ). x % (2 * m)) (sym whole)
    ∙ Nat.mul-add-mod_self_left (2 * m) (q / m) r
    ∙ Nat.mod-eq_of_lt (omega arith)

bit_and-low : (w k a : ℕ) → k ≤ w → bit_and w a (2 ^ k - 1) ≡ a % 2 ^ k
bit_and-low w zero a le = bit_and-zero w a ∙ omega arith
bit_and-low zero (suc k) a le = absurd (omega arith)
bit_and-low (suc w) (suc k) a le =
    let odd : 2 ^ suc k - 1 ≡ 2 * (2 ^ k - 1) + 1 = omega (arith, power_suc k, pow-pos k) in
    rw (odd, bit_and-odd w a (2 ^ k - 1), bit_and-low w k (a / 2) (omega arith), power_suc k)
      (sym (mod_double a (2 ^ k) (pow-pos k)))

pub aligned32_iff : (addr : ℕ) → (does_addr_is_aligned32 addr ≡ true) ↔ (addr % 4 ≡ 0)
unfolding does_addr_is_aligned32
aligned32_iff addr = ground (arith, bit_and-low 32 2 addr)

pub page_aligned_iff :
    (k addr : ℕ) → k < 32 → (does_addr_is_page_aligned (2 ^ k) addr ≡ true) ↔ (addr % 2 ^ k ≡ 0)
unfolding does_addr_is_page_aligned
page_aligned_iff k addr lt =
    let small : 2 ^ k < 2 ^ 32 = power_less k 32 lt in
    let mask : (2 ^ k + u32_mod - 1) % u32_mod ≡ 2 ^ k - 1 = omega (arith, pow-pos k) in
    rw (mask, bit_and-low 32 k addr (omega arith)) (==_iff (addr % 2 ^ k) 0)

-- While neither sum reaches two to the power 32, the test holds exactly for the ranges in the chip.
pub within_bounds_iff :
    (start total addr len : ℕ)
    → start + total < 4294967296
    → addr + len < 4294967296
    → (does_addr_is_within_bounds start total addr len ≡ true)
      ↔ ((start ≤ addr) × (addr + len ≤ start + total))
unfolding does_addr_is_within_bounds
within_bounds_iff start total addr len a b = ground arith

-- A range whose end passes two to the power 32 is taken where what is left of its end is in the chip,
-- though the range leaves the chip.
pub within_bounds_wraps :
    (start total addr len : ℕ)
    → start + total < 4294967296
    → start ≤ addr
    → addr < 4294967296
    → len < 4294967296
    → 4294967296 ≤ addr + len
    → addr + len ≤ 4294967296 + start + total
    → (does_addr_is_within_bounds start total addr len ≡ true) × (start + total < addr + len)
unfolding does_addr_is_within_bounds
within_bounds_wraps start total addr len a b c d e f = (ground arith, omega arith)
