-- ===== src/Lcm.antt =====
-- CommonSource/Math/lcm_gcd.c: the least common multiple of an array of 32-bit numbers, found by
-- trying the numbers below a limit.
pub mod Laws
mod Tests
use eclipse_code.Prelude.{
  ℕ, zero, suc, ◌+◌, ◌-◌, ◌%◌, Bool, true, false, ◌&&◌, ◌||◌, Option, some, none, List, [], ◌∷◌,
  ◌==◌, if◌then◌else◌,
}

-- The loop of `GetLcmBetweenTwoNumber` with `rounds` numbers left below the limit; `temp` does not
-- wrap, as it stays below the limit, which has 32 bits.
unfoldable pub lcm_loop : ℕ → ℕ → ℕ → ℕ → Option ℕ
lcm_loop zero temp m n = none
lcm_loop (suc rounds) temp m n =
    let rest = lcm_loop rounds (temp + 1) m n in
    if temp % m == 0 && temp % n == 0 then some temp else rest

-- what the loop leaves in `isOK` and `*result`
unfoldable pub lcm_end : Option ℕ → Bool × ℕ
lcm_end (some t) = (true, t)
lcm_end none = (false, 0)

-- `GetLcmBetweenTwoNumber` behind its test of `result`; `old` is what `*result` held.
unfoldable pub lcm_between : ℕ → ℕ → ℕ → ℕ → Bool × ℕ
unfolding lcm_loop lcm_end
lcm_between m n limit old =
    if m == 0 || n == 0 then (false, old) else lcm_end (lcm_loop (limit - m) m m n)

-- The loop of `GetLCM` over the numbers from `p_buf[1]` on, with the locals `isOK`, `Pre_Result`
-- and `Cur_Result`.
unfoldable pub get_lcm_loop : List ℕ → ℕ → Bool → ℕ → ℕ → Bool × ℕ
get_lcm_loop [] limit ok pre cur = (ok, cur)
get_lcm_loop (b ∷ buf) limit ok pre cur =
    let (ok', cur') = lcm_between pre b limit cur in
    let rest = get_lcm_loop buf limit ok' cur' cur' in if ok' then rest else (false, cur')

-- `GetLCM` of the first `length` numbers of `p_buf` into a `result` that is not null. `ok` and `cur`
-- are what the stack held where the locals `isOK` and `Cur_Result` are, which are not initialised.
unfoldable pub get_lcm : Bool → ℕ → List ℕ → ℕ → Bool × ℕ
unfolding get_lcm_loop
get_lcm ok cur [] limit = (ok, cur)
get_lcm ok cur (b ∷ buf) limit = get_lcm_loop buf limit ok b cur

-- `GetLCM` with the test of the pointer `result`; what it points to is written in every case.
unfoldable pub get_lcm_into : Bool → ℕ → List ℕ → ℕ → Option ℕ → Bool × Option ℕ
unfolding get_lcm
get_lcm_into ok cur buf limit none = (false, none)
get_lcm_into ok cur buf limit (some old) =
    let (done, t) = get_lcm ok cur buf limit in (done, some t)
