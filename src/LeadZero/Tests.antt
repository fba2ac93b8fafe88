-- ===== src/LeadZero/Tests.antt =====
-- Tests of the zero counts, and the theorem at concrete words.
use eclipse_code.Prelude.{◌<◌, ◌-◌, ◌≡◌, refl, IsTop, arith}
use eclipse_code.LeadZero.{get_lead_zero_count, get_lead_zero_count-IsTop}

counts_one : get_lead_zero_count 1 ≡ 31
unfolding get_lead_zero_count
counts_one = refl

get_lead_zero_count-IsTop_example :
    (get_lead_zero_count 4660 < 32) × IsTop 4660 (31 - get_lead_zero_count 4660)
get_lead_zero_count-IsTop_example = get_lead_zero_count-IsTop 4660 (omega arith) (omega arith)
