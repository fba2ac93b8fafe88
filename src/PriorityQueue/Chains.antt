-- ===== src/PriorityQueue/Chains.antt =====
-- The chains of m_priority_queues.c: `NodeTailAdd` and `NodePullAway`.
use eclipse_code.Prelude.{
  ℕ, zero, suc, ◌%◌, Bool, true, false, Option, some, none, ◌==◌, if◌then◌else◌, not, AppResult,
  app_successed, app_error, app_pointer_null, app_already_done_before, app_no_enough_space,
  app_unexpect_state,
}
use eclipse_code.PriorityQueue.{
  NodeWithPriority, PriorityListNodeSpace, list_node_table_size, write, set_head, set_link,
  priority_borrow_node, priority_return_node, used_up, used_down,
}

-- What the loop of `NodeTailAdd` comes to: a node that has the priority already, the last node of
-- the chain, or the end of its rounds.
pub data Place : Type 0 where
  again : ℕ → Place
  tail : ℕ → Place
  nowhere : Place

-- the loop of `NodeTailAdd` with `n` rounds left, at a node
unfoldable pub tail_loop : ℕ → (ℕ → NodeWithPriority) → ℕ → ℕ → Place
tail_loop zero space priority current = nowhere
tail_loop (suc n) space priority current =
    if (space current).priority == priority
    then again current
    else elim ((space current).next_ptr) [
      | none ↦ tail current
      | some next ↦ tail_loop n space priority next
    ]

-- the end of `NodeTailAdd`, where the chain is not empty and `new` is the borrowed node
unfoldable pub tail_end :
    ℕ → Place → PriorityListNodeSpace → (AppResult × Option ℕ) × PriorityListNodeSpace
tail_end new (again current) s = (
  (app_successed, some (s.p_space current).node_id_in_list_array),
  (priority_return_node (s.p_space new).node_id_in_list_array s).1,
)
tail_end new (tail current) s = (
  (app_successed, some (s.p_space new).node_id_in_list_array),
  used_up (set_link s current (some new)),
)
tail_end new nowhere s = (
  (app_error, some (s.p_space new).node_id_in_list_array),
  (priority_return_node (s.p_space new).node_id_in_list_array s).1,
)

-- the part of `NodeTailAdd` behind the borrowed node's configuration, by the head of the chain
unfoldable pub tail_link_by :
    Option ℕ → ℕ → ℕ → PriorityListNodeSpace → (AppResult × Option ℕ) × PriorityListNodeSpace
unfolding tail_end
tail_link_by none priority new s = (
  (app_successed, some (s.p_space new).node_id_in_list_array),
  used_up (set_head s priority (some new)),
)
tail_link_by (some head) priority new s =
    tail_end new (tail_loop s.max_node_count s.p_space priority head) s

-- `NodeTailAdd` behind `PrioroityQueueBorrowNode`
unfoldable pub tail_add_by :
    ℕ → Option ℕ × PriorityListNodeSpace → (AppResult × Option ℕ) × PriorityListNodeSpace
unfolding tail_link_by
tail_add_by priority (none, s) = ((app_no_enough_space, none), s)
tail_add_by priority (some new, s) =
    let t = write s new (record (s.p_space new) { priority = priority; next_ptr = none }) in
    tail_link_by (t.p_list_head_nodes (priority % list_node_table_size)) priority new t

-- `NodeTailAdd`: its result, what it writes to `*p_node_ID`, and the nodes.
unfoldable pub node_tail_add :
    ℕ → PriorityListNodeSpace → (AppResult × Option ℕ) × PriorityListNodeSpace
unfolding tail_add_by
node_tail_add priority s = tail_add_by priority (priority_borrow_node s)

-- The loop of `NodePullAway` with `n` rounds left: the node with the priority and the one on its
-- left, if it is not the first. The test of the last node a second time is without effect.
unfoldable pub pull_loop : ℕ → (ℕ → NodeWithPriority) → ℕ → ℕ → Option ℕ → Option (ℕ × Option ℕ)
pull_loop zero space priority current left = none
pull_loop (suc n) space priority current left =
    if (space current).priority == priority
    then some (current, left)
    else elim ((space current).next_ptr) [
      | none ↦ none
      | some next ↦ pull_loop n space priority next (some current)
    ]

-- `p_left_node->NextPtr = p_right_node`, or the head
unfoldable pub unlink : ℕ → Option ℕ → Option ℕ → PriorityListNodeSpace → PriorityListNodeSpace
unlink priority none right s = set_head s priority right
unlink priority (some left) right s = set_link s left right

-- the end of `NodePullAway` behind `PrioroityQueueReturnNode`
unfoldable pub pull_end :
    ℕ → Bool × PriorityListNodeSpace → (AppResult × Option ℕ) × PriorityListNodeSpace
pull_end id (false, s) = ((app_error, some id), s)
pull_end id (true, s) = ((app_successed, some id), used_down s)

-- the part of `NodePullAway` behind its loop
unfoldable pub pull_found :
    ℕ
    → Option (ℕ × Option ℕ)
    → PriorityListNodeSpace
    → (AppResult × Option ℕ) × PriorityListNodeSpace
unfolding unlink pull_end
pull_found priority none s = ((app_unexpect_state, none), s)
pull_found priority (some (drop, left)) s =
    let t = unlink priority left ((s.p_space drop).next_ptr) s in
    pull_end (s.p_space drop).node_id_in_list_array
      (priority_return_node (t.p_space drop).node_id_in_list_array t)

-- the first branch of `NodePullAway`: a chain of one node
unfoldable pub pull_single :
    ℕ → ℕ → Bool × PriorityListNodeSpace → (AppResult × Option ℕ) × PriorityListNodeSpace
pull_single priority id (false, s) = ((app_error, none), s)
pull_single priority id (true, s) = ((app_successed, some id), used_down (set_head s priority none))

-- the part of `NodePullAway` behind the head
unfoldable pub pull_from :
    Option ℕ → ℕ → PriorityListNodeSpace → (AppResult × Option ℕ) × PriorityListNodeSpace
unfolding pull_found pull_single
pull_from none priority s = ((app_pointer_null, none), s)
pull_from (some head) priority s = elim ((s.p_space head).next_ptr) [
  | none ↦
      if not ((s.p_space head).priority == priority)
      then ((app_unexpect_state, none), s)
      else pull_single priority (s.p_space head).node_id_in_list_array
          (priority_return_node (s.p_space head).node_id_in_list_array s)
  | some next ↦ pull_found priority (pull_loop s.max_node_count s.p_space priority head none) s
]

-- `NodePullAway`
unfoldable pub node_pull_away :
    ℕ → PriorityListNodeSpace → (AppResult × Option ℕ) × PriorityListNodeSpace
unfolding pull_from
node_pull_away priority s =
    if s.current_used_node_count == 0
    then ((app_already_done_before, none), s)
    else pull_from (s.p_list_head_nodes (priority % list_node_table_size)) priority s
