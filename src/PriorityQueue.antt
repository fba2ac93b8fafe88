-- ===== src/PriorityQueue.antt =====
-- CommonSource/MulLoopQueue/m_priority_queues.c: nodes with a priority each, in ten chains by the
-- remainder of the priority, over the table of the priorities in use (`PriorityTable`). The array
-- of nodes is a function from node numbers, and so is the array of the chains' heads; a pointer
-- to a node is `some` of its number.
pub mod Chains
pub mod Nodes
pub mod Walk
pub mod Api
mod Tests
pub mod Init
pub mod Refine
pub mod Calls
pub mod Spec
pub mod Push
pub mod Enter
pub mod Entry
pub mod Leave
pub mod Release
pub mod Pull
pub mod Removal
pub mod Inv
pub mod Queue
use eclipse_code.Prelude.{
  ℕ, zero, suc, ◌+◌, ◌-◌, ◌%◌, Bool, true, false, Option, some, none, List, ltb, leb, ◌==◌,
  if◌then◌else◌, update, u16_mod,
}

-- `sListNodeWithPriority`
pub record NodeWithPriority : Type 0 where
  pub node_id_in_list_array : ℕ
  pub is_free : Bool
  pub priority : ℕ
  pub next_ptr : Option ℕ

-- `LIST_NODE_TABLE_SIZE`
abbrev pub list_node_table_size : ℕ
list_node_table_size = 10

-- `MY_PRIORITY_QUEUE_MAX_NODE_NUMBER`
abbrev pub my_priority_queue_max_node_number : ℕ
my_priority_queue_max_node_number = 20

-- `sPriorityQueueListNodeSpace`
pub record PriorityListNodeSpace : Type 0 where
  pub max_node_count : ℕ
  pub current_used_node_count : ℕ
  pub p_list_head_nodes : ℕ → Option ℕ
  pub p_space : ℕ → NodeWithPriority

-- `sMyPriorityListManager`
pub record PriorityListManager : Type 0 where
  pub is_init : Bool
  pub max_node_count : ℕ
  pub max_priority_value : ℕ
  pub is_high_priority_from_small : Bool
  pub priority_table : List ℕ
  pub node_space : PriorityListNodeSpace

abbrev pub write : PriorityListNodeSpace → ℕ → NodeWithPriority → PriorityListNodeSpace
write s a c = record s { p_space = update s.p_space a c }

-- `p_list_head_nodes[priority % LIST_NODE_TABLE_SIZE] = …`
abbrev pub set_head : PriorityListNodeSpace → ℕ → Option ℕ → PriorityListNodeSpace
set_head s priority head = record s {
  p_list_head_nodes = update s.p_list_head_nodes (priority % list_node_table_size) head;
}

abbrev pub set_link : PriorityListNodeSpace → ℕ → Option ℕ → PriorityListNodeSpace
set_link s a next = write s a (record (s.p_space a) { next_ptr = next })

-- the loop of `PrioroityQueueBorrowNode` with `n` rounds left, at `i`
unfoldable pub priority_borrow_loop :
    ℕ → ℕ → PriorityListNodeSpace → Option ℕ × PriorityListNodeSpace
priority_borrow_loop zero i s = (none, s)
priority_borrow_loop (suc n) i s =
    let rest = priority_borrow_loop n (i + 1) s in
    if (s.p_space i).is_free
    then (some i, write s i (record (s.p_space i) { is_free = false }))
    else rest

-- `PrioroityQueueBorrowNode`
unfoldable pub priority_borrow_node : PriorityListNodeSpace → Option ℕ × PriorityListNodeSpace
priority_borrow_node s = priority_borrow_loop s.max_node_count 0 s

-- `PrioroityQueueReturnNode`
unfoldable pub priority_return_node : ℕ → PriorityListNodeSpace → Bool × PriorityListNodeSpace
priority_return_node node_id s =
    if leb s.max_node_count node_id
    then (false, s)
    else (true, write s node_id (record (s.p_space node_id) { is_free = true; next_ptr = none }))

-- `current_used_node_count ++` and `--` on a `uint16_t`
abbrev pub used_up : PriorityListNodeSpace → PriorityListNodeSpace
used_up s = record s { current_used_node_count = (s.current_used_node_count + 1) % u16_mod }

abbrev pub used_down : PriorityListNodeSpace → PriorityListNodeSpace
used_down s = record s {
  current_used_node_count = (s.current_used_node_count + u16_mod - 1) % u16_mod;
}
