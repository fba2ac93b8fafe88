-- ===== src/PriorityQueue/Tests.antt =====
-- Tests of the priority queue, and its theorems at concrete queues.
use eclipse_code.Prelude.{
  ℕ, ◌≡◌, refl, true, false, some, none, List, [], ◌∷◌, arith, combine, replicate, length,
}
use eclipse_code.PriorityTable.{
  table_init, table_init_loop, table_insert, table_remove, table_get_highest, highest_loop,
  highest_priority,
}
use eclipse_code.LeadZero.{get_lead_zero_count}
use eclipse_code.PriorityQueue.{
  PriorityListManager, priority_borrow_loop, priority_borrow_node, priority_return_node,
}
use eclipse_code.PriorityQueue.Chains.{
  tail_loop, tail_end, tail_link_by, tail_add_by, node_tail_add, pull_loop, unlink, pull_end,
  pull_found, pull_single, pull_from, node_pull_away,
}
use eclipse_code.PriorityQueue.Queue.{
  nodes_loop, heads_loop, init_end, queue_initialize, push_by, queue_push, release_by,
  queue_release, pop_by, queue_pop,
}
use eclipse_code.PriorityQueue.Spec.{Op, push, pop, release, Follows}
use eclipse_code.PriorityQueue.Calls.{step}
use eclipse_code.PriorityQueue.Refine.{run, run-Follows}
use eclipse_code.PriorityQueue.Init.{empty, initialize-Follows, cleared_queue, cleared-IsQueue}
use eclipse_code.PriorityQueue.Api.{oversize_fails}

-- memory with arbitrary contents, for `size` nodes
abbrev raw : ℕ → PriorityListManager
raw size = record {
  is_init = false;
  max_node_count = size;
  max_priority_value = 50;
  is_high_priority_from_small = true;
  priority_table = 9 ∷ 8 ∷ [];
  node_space = record {
    max_node_count = size;
    current_used_node_count = 7;
    p_list_head_nodes = λ b. some 1;
    p_space =
        λ a. record { node_id_in_list_array = 3; is_free = false; priority = 5; next_ptr = some 2 };
  };
}

calls : List Op
calls = push 7 ∷ push 17 ∷ push 7 ∷ push 5 ∷ push 9 ∷ pop ∷ release 17 ∷ push 60 ∷ pop ∷ pop ∷ []

run-calls :
    run calls (queue_initialize (raw 3))
    ≡ (none, (true, some 0))
      ∷ (none, (true, some 1))
      ∷ (none, (true, some 0))
      ∷ (none, (true, some 2))
      ∷ (none, (false, none))
      ∷ (some 5, (true, some 2))
      ∷ (none, (true, some 1))
      ∷ (none, (false, none))
      ∷ (some 7, (true, some 0))
      ∷ (none, (false, none))
      ∷ []
unfolding combine table_init table_init_loop table_insert table_remove table_get_highest
    highest_loop highest_priority get_lead_zero_count priority_borrow_loop priority_borrow_node
    priority_return_node tail_loop tail_end tail_link_by tail_add_by node_tail_add pull_loop unlink
    pull_end pull_found pull_single pull_from node_pull_away nodes_loop heads_loop init_end
    queue_initialize push_by queue_push release_by queue_release pop_by queue_pop step run calls
run-calls = refl

initialize-Follows_example :
    Follows
      (queue_initialize (raw 3)).max_priority_value
      (queue_initialize (raw 3)).is_high_priority_from_small
      calls
      (empty 3)
      (run calls (queue_initialize (raw 3)))
initialize-Follows_example =
    initialize-Follows (raw 3) (omega arith) refl (omega arith) (omega arith) refl calls

run-Follows_example :
    Follows 50 true calls
      (empty 3)
      (run calls (cleared_queue (raw 3) (omega arith) refl (omega arith) (omega arith) refl))
unfolding cleared_queue
run-Follows_example =
    run-Follows calls (cleared-IsQueue (raw 3) (omega arith) refl (omega arith) (omega arith) refl)

oversize_fails_example :
    run calls (queue_initialize (raw 30)) ≡ replicate (length calls) (none, (false, none))
oversize_fails_example = oversize_fails calls (raw 30) (omega arith) refl
