-- ===== src/PriorityQueue/Queue.antt =====
-- The functions of m_priority_queues.h behind their tests of the pointers.
use eclipse_code.Prelude.{
  ℕ, zero, suc, ◌+◌, ◌/◌, ◌%◌, Bool, true, false, Option, some, none, List, ltb, leb, ◌==◌,
  if◌then◌else◌, not, AppResult, app_successed,
}
use eclipse_code.PriorityTable.{table_init, table_insert, table_remove, table_get_highest}
use eclipse_code.PriorityQueue.{
  NodeWithPriority, PriorityListNodeSpace, PriorityListManager, list_node_table_size,
  my_priority_queue_max_node_number, write, set_head,
}
use eclipse_code.PriorityQueue.Chains.{node_tail_add, node_pull_away}

-- the first loop of `mPriorityQueueInitialize` with `n` rounds left, at `i`
unfoldable pub nodes_loop : ℕ → ℕ → ℕ → PriorityListNodeSpace → PriorityListNodeSpace
nodes_loop zero i priority s = s
nodes_loop (suc n) i priority s = nodes_loop n (i + 1) priority (
    write s i
      (record { node_id_in_list_array = i; is_free = true; priority = priority; next_ptr = none }))

-- the second loop: the heads
unfoldable pub heads_loop : ℕ → ℕ → PriorityListNodeSpace → PriorityListNodeSpace
heads_loop zero i s = s
heads_loop (suc n) i s = heads_loop n (i + 1) (set_head s i none)

-- the end of `mPriorityQueueInitialize`
unfoldable pub init_end : Bool × List ℕ → PriorityListManager → PriorityListManager
init_end (true, table) q = record q { is_init = true; priority_table = table }
init_end (false, table) q = record q { priority_table = table }

-- `mPriorityQueueInitialize`, which is `ClearMyPriorityQueue` as well
unfoldable pub queue_initialize : PriorityListManager → PriorityListManager
unfolding init_end
queue_initialize q =
    if leb my_priority_queue_max_node_number q.max_node_count
    then q
    else let priority_default = if q.is_high_priority_from_small then q.max_priority_value else 0 in
      let s =
        heads_loop list_node_table_size 0
          (nodes_loop q.max_node_count 0 priority_default q.node_space) in
      init_end (table_init q.max_priority_value q.priority_table)
        (record q { node_space = record s { current_used_node_count = 0 } })

abbrev pub is_successed : AppResult → Bool
is_successed app_successed = true
is_successed _ = false

-- A call that hands a number back: whether it succeeded, and what it wrote to the output.
abbrev pub Answer : Type 0
Answer = Bool × Option ℕ

-- the nodes as `NodeTailAdd` or `NodePullAway` leave them
abbrev pub with_nodes :
    PriorityListManager
    → (AppResult × Option ℕ) × PriorityListNodeSpace
    → Answer × PriorityListManager
with_nodes q ((code, id), s) = ((is_successed code, id), record q { node_space = s })

-- `mPriorityQueuePush` behind `PriorityTableInsert`
unfoldable pub push_by : ℕ → Bool × List ℕ → PriorityListManager → Answer × PriorityListManager
push_by priority (false, table) q = ((false, none), q)
push_by priority (true, table) q =
    with_nodes (record q { priority_table = table }) (node_tail_add priority q.node_space)

-- `mPriorityQueuePush`
unfoldable pub queue_push : ℕ → PriorityListManager → Answer × PriorityListManager
unfolding push_by
queue_push priority q =
    if not q.is_init
    then ((false, none), q)
    else if leb q.max_node_count q.node_space.current_used_node_count
    then ((false, none), q)
    else push_by priority
        (table_insert q.is_high_priority_from_small q.max_priority_value priority q.priority_table)
        q

-- `RealseMyPriorityQueueNodeByPriority` behind `PriorityTableRemove`
unfoldable pub release_by : ℕ → Bool × List ℕ → PriorityListManager → Answer × PriorityListManager
release_by priority (false, table) q = ((false, none), q)
release_by priority (true, table) q =
    with_nodes (record q { priority_table = table }) (node_pull_away priority q.node_space)

-- `RealseMyPriorityQueueNodeByPriority`
unfoldable pub queue_release : ℕ → PriorityListManager → Answer × PriorityListManager
unfolding release_by
queue_release priority q =
    if not q.is_init
    then ((false, none), q)
    else if q.node_space.current_used_node_count == 0
    then ((false, none), q)
    else release_by priority
        (table_remove q.is_high_priority_from_small q.max_priority_value priority q.priority_table)
        q

-- `mPriorityQueuePop` behind `PriorityTableGetHighest`: the priority beside the answer
unfoldable pub pop_by : Option ℕ → PriorityListManager → (Option ℕ × Answer) × PriorityListManager
pop_by none q = ((none, (false, none)), q)
pop_by (some priority) q =
    let (answer, next) = queue_release priority q in ((some priority, answer), next)

-- `mPriorityQueuePop`
unfoldable pub queue_pop : PriorityListManager → (Option ℕ × Answer) × PriorityListManager
unfolding pop_by
queue_pop q =
    if not q.is_init
    then ((none, (false, none)), q)
    else pop_by
        (table_get_highest q.is_high_priority_from_small q.max_priority_value q.priority_table) q

-- `GetMyPriorityQueueUsedNodeCount`
abbrev pub used_node_count : PriorityListManager → ℕ
used_node_count q = q.node_space.current_used_node_count

-- `DoesMyPriorityQueueEmpty`
abbrev pub does_queue_empty : PriorityListManager → Bool
does_queue_empty q = q.node_space.current_used_node_count == 0

-- `GetPriorityByNodeNumber`
unfoldable pub priority_by_node_number : ℕ → PriorityListManager → Option ℕ
priority_by_node_number node_number q =
    if leb q.max_node_count node_number
    then none
    else some (q.node_space.p_space node_number).priority

-- the loop of `GetNodeNumberByPriority` with `n` rounds left, at a node
unfoldable pub lookup_loop : ℕ → (ℕ → NodeWithPriority) → ℕ → ℕ → Option ℕ
lookup_loop zero space priority current = none
lookup_loop (suc n) space priority current =
    if (space current).priority == priority
    then some (space current).node_id_in_list_array
    else elim ((space current).next_ptr) [
      | none ↦ none
      | some next ↦ lookup_loop n space priority next
    ]

-- `check_scope` of `GetNodeNumberByPriority`
abbrev pub check_scope : PriorityListManager → ℕ
check_scope q =
    if ltb q.max_node_count ((q.max_priority_value / list_node_table_size + 1) % 65536)
    then q.max_node_count
    else (q.max_priority_value / list_node_table_size + 1) % 65536

-- `GetNodeNumberByPriority`
unfoldable pub node_number_by_priority : ℕ → PriorityListManager → Option ℕ
node_number_by_priority priority q =
    if ltb q.max_priority_value priority
    then none
    else elim (q.node_space.p_list_head_nodes (priority % list_node_table_size)) [
      | none ↦ none
      | some head ↦ lookup_loop (check_scope q) q.node_space.p_space priority head
    ]
