-- ===== src/Lcm/Tests.antt =====
-- The theorems on lcm_gcd.c at concrete numbers.
use eclipse_code.Prelude.{◌≡◌, refl, true, false, [], ◌∷◌, arith}
use eclipse_code.Lcm.{get_lcm, lcm_between}
use eclipse_code.Lcm.Laws.{Multiple, Found, get_lcm-Found}

six_and_four : get_lcm false 99 (6 ∷ 4 ∷ 3 ∷ []) 50 ≡ (true, 12)
unfolding get_lcm lcm_between
six_and_four = refl

get_lcm-Found_example : Found (Multiple (6 ∷ 4 ∷ 3 ∷ [])) 50 (get_lcm false 99 (6 ∷ 4 ∷ 3 ∷ []) 50)
get_lcm-Found_example = get_lcm-Found false 99 6 4 (3 ∷ []) 50 (omega arith)
