-- ===== src/PriorityTable.antt =====
-- CommonSource/MulLoopQueue/m_priority_queues.c: the table of the priorities in use, one bit for
-- each, in words of 32 bits, the priority that goes first at the left. A null table or output
-- pointer is not modelled here: the queue passes the addresses of its own cells.
pub mod Bit
pub mod Highest
pub mod Order
pub mod Sequence
mod Tests
use eclipse_code.Prelude.{
  ℕ, zero, suc, ◌+◌, ◌-◌, ◌/◌, ◌%◌, Bool, true, false, Option, none, some, List, set, get_or, ltb,
  ◌==◌, if◌then◌else◌, u16_mod, bit_or, bit_and_not, bit_and, shift_left,
}
use eclipse_code.LeadZero.{get_lead_zero_count}

-- `BIT_COUNT_IN_UINT32`
abbrev pub bit_count_in_uint32 : ℕ
bit_count_in_uint32 = 32

-- `GET_PRIORITY_TABLE_SIZE_BY_PRIORITY_SCOPE`
abbrev pub table_size : ℕ → ℕ
table_size scope = (scope / bit_count_in_uint32 + 1) % u16_mod

-- the loop of `PriorityTableInit` with `n` rounds left, at `i`
unfoldable pub table_init_loop : ℕ → ℕ → List ℕ → List ℕ
table_init_loop zero i table = table
table_init_loop (suc n) i table = table_init_loop n (i + 1) (set table i 0)

-- `PriorityTableInit`
unfoldable pub table_init : ℕ → List ℕ → Bool × List ℕ
table_init max_priority table =
    if max_priority == 0
    then (false, table)
    else (true, table_init_loop (table_size max_priority) 0 table)

-- `priority_convert`: the place of a priority in the table
abbrev pub convert : Bool → ℕ → ℕ → ℕ
convert is_from_small max_value priority = if is_from_small then priority else max_value - priority

-- `bit <<= (BIT_COUNT_IN_UINT32 - 1u) - bit_number`
abbrev pub table_bit : ℕ → ℕ
table_bit place = shift_left 32 1 (31 - bit_and 32 place 31)

-- `PriorityTableInsert`
unfoldable pub table_insert : Bool → ℕ → ℕ → List ℕ → Bool × List ℕ
table_insert is_from_small max_value priority table =
    if ltb max_value priority
    then (false, table)
    else let place = convert is_from_small max_value priority in
      let index = place / bit_count_in_uint32 in
      (true, set table index (bit_or 32 (get_or table index 0) (table_bit place)))

-- `PriorityTableRemove`
unfoldable pub table_remove : Bool → ℕ → ℕ → List ℕ → Bool × List ℕ
table_remove is_from_small max_value priority table =
    if ltb max_value priority
    then (false, table)
    else let place = convert is_from_small max_value priority in
      let index = place / bit_count_in_uint32 in
      (true, set table index (bit_and_not 32 (get_or table index 0) (table_bit place)))

-- The loop of `PriorityTableGetHighest` with `n` rounds left, at `i`: `prio` at the first word that
-- is not 0, with the zeros in front of its first bit added.
unfoldable pub highest_loop : ℕ → ℕ → ℕ → List ℕ → Option ℕ
highest_loop zero i prio table = none
highest_loop (suc n) i prio table =
    let rest = highest_loop n (i + 1) ((prio + bit_count_in_uint32) % u16_mod) table in
    if get_or table i 0 == 0
    then rest
    else some ((prio + get_lead_zero_count (get_or table i 0)) % u16_mod)

-- the end of `PriorityTableGetHighest`
unfoldable pub highest_priority : Bool → ℕ → Option ℕ → Option ℕ
highest_priority is_from_small max_value none = none
highest_priority is_from_small max_value (some prio) =
    if ltb max_value prio then none else some (convert is_from_small max_value prio)

-- `PriorityTableGetHighest`: `none` where it returns false, and `*p_priority` is not written.
unfoldable pub table_get_highest : Bool → ℕ → List ℕ → Option ℕ
table_get_highest is_from_small max_value table =
    highest_priority is_from_small max_value (highest_loop (table_size max_value) 0 0 table)
