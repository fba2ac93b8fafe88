-- ===== src/PriorityTable/Tests.antt =====
-- Tests of the priority table, and its theorem on a concrete sequence of calls.
use eclipse_code.Prelude.{ℕ, ◌≡◌, refl, true, false, some, List, [], ◌∷◌, arith}
use eclipse_code.PriorityTable.{
  table_init, table_insert, table_remove, table_get_highest, table_init_loop, highest_loop,
  highest_priority,
}
use eclipse_code.LeadZero.{get_lead_zero_count}
use eclipse_code.Prelude.{combine}
use eclipse_code.PriorityTable.Sequence.{
  Op, into_table, off_table, step, run, in_use, IsHighest, run-IsHighest,
}

dirty : List ℕ
dirty = 77 ∷ 99 ∷ []

calls : List Op
calls = into_table 7 ∷ into_table 45 ∷ into_table 33 ∷ off_table 7 ∷ []

lowest_first : table_get_highest true 50 (run true 50 calls (table_init 50 dirty).1) ≡ some 33
unfolding combine table_get_highest run step table_init table_init_loop table_insert table_remove
    highest_loop highest_priority get_lead_zero_count calls dirty
lowest_first = refl

highest_first : table_get_highest false 50 (run false 50 calls (table_init 50 dirty).1) ≡ some 45
unfolding combine table_get_highest run step table_init table_init_loop table_insert table_remove
    highest_loop highest_priority get_lead_zero_count calls dirty
highest_first = refl

run-IsHighest_example :
    IsHighest true 50
      (λ q. in_use q calls false)
      (table_get_highest true 50 (run true 50 calls (table_init 50 dirty).1))
unfolding dirty
run-IsHighest_example = run-IsHighest dirty (omega arith) (omega arith) (omega arith) true calls
