-- ===== src/PriorityQueue/Init.antt =====
-- `mPriorityQueueInitialize` of m_priority_queues.c makes an empty queue.
use eclipse_code.Prelude.{
  ℕ, zero, suc, ◌+◌, ◌/◌, ◌%◌, ◌≤◌, ◌<◌, ◌≡◌, refl, sym, ◌∙◌, subst, true, false, none, List, [],
  length, leb, ◌==◌, if◌then◌else◌, u16_mod, Bool-cases, inl, inr, arith,
}
use eclipse_code.PriorityTable.{table_init}
use eclipse_code.PriorityTable.Sequence.{table_init-IsTable, unused_places}
use eclipse_code.PriorityQueue.{
  PriorityListManager, PriorityListNodeSpace, NodeWithPriority, set_head,
}
use eclipse_code.PriorityQueue.Queue.{nodes_loop, heads_loop, init_end, queue_initialize}
use eclipse_code.PriorityQueue.Nodes.{Space, Chain, mem, distinct, busy_count}
use eclipse_code.PriorityQueue.Inv.{Held, IsNodes, IsQueue}
use eclipse_code.PriorityQueue.Spec.{Op, Follows}
use eclipse_code.PriorityQueue.Refine.{run, run-Follows}

-- no priority in the queue
abbrev pub empty : ℕ → Held
empty size = record { node_of = λ p. none; count = 0; size = size }

-- a free node with its number
IsFresh : NodeWithPriority → ℕ → Type 0
IsFresh c j = (c.node_id_in_list_array ≡ j) × (c.is_free ≡ true)

nodes_loop-before :
    (n i priority j : ℕ) (s : PriorityListNodeSpace)
    → j < i
    → (nodes_loop n i priority s).p_space j ≡ s.p_space j
unfolding nodes_loop
nodes_loop-before zero i priority j s l = refl
nodes_loop-before (suc n) i priority j s l =
    let other : (j == i) ≡ false = ground arith in
    nodes_loop-before n (i + 1) priority j _ (omega arith) ∙ rw other refl

nodes_loop-IsFresh :
    (n i priority j : ℕ) (s : PriorityListNodeSpace)
    → i ≤ j
    → j < i + n
    → IsFresh ((nodes_loop n i priority s).p_space j) j
unfolding nodes_loop IsFresh
nodes_loop-IsFresh zero i priority j s l h = absurd (omega arith)
nodes_loop-IsFresh (suc n) i priority j s l h = elim (Bool-cases (j == i)) [
  | inl e ↦
      let at : j ≡ i = ground arith in
      rw (nodes_loop-before n (i + 1) priority j _ (omega arith), e) (sym at, refl)
  | inr e ↦ nodes_loop-IsFresh n (i + 1) priority j _ (ground arith) (omega arith)
]

nodes_loop-size :
    (n i priority : ℕ) (s : PriorityListNodeSpace)
    → (nodes_loop n i priority s).max_node_count ≡ s.max_node_count
unfolding nodes_loop
nodes_loop-size zero i priority s = refl
nodes_loop-size (suc n) i priority s = nodes_loop-size n (i + 1) priority _

heads_loop-before :
    (n i b : ℕ) (s : PriorityListNodeSpace)
    → b < i
    → i + n ≤ 10
    → (heads_loop n i s).p_list_head_nodes b ≡ s.p_list_head_nodes b
unfolding heads_loop
heads_loop-before zero i b s l h = refl
heads_loop-before (suc n) i b s l h =
    let other : (b == i % 10) ≡ false = ground arith in
    heads_loop-before n (i + 1) b (set_head s i none) (omega arith) (omega arith) ∙ rw other refl

heads_loop-none :
    (n i b : ℕ) (s : PriorityListNodeSpace)
    → i ≤ b
    → b < i + n
    → i + n ≤ 10
    → (heads_loop n i s).p_list_head_nodes b ≡ none
unfolding heads_loop
heads_loop-none zero i b s l k h = absurd (omega arith)
heads_loop-none (suc n) i b s l k h = elim (Bool-cases (b == i)) [
  | inl e ↦
      let at : (b == i % 10) ≡ true = ground arith in
      heads_loop-before n (i + 1) b (set_head s i none) (ground arith) (omega arith) ∙ rw at refl
  | inr e ↦
      heads_loop-none n (i + 1) b (set_head s i none) (ground arith) (omega arith) (omega arith)
]

heads_loop-nodes :
    (n i : ℕ) (s : PriorityListNodeSpace)
    → ((heads_loop n i s).p_space ≡ s.p_space)
      × ((heads_loop n i s).max_node_count ≡ s.max_node_count)
unfolding heads_loop
heads_loop-nodes zero i s = (refl, refl)
heads_loop-nodes (suc n) i s = heads_loop-nodes n (i + 1) (set_head s i none)

none_busy : (n : ℕ) (s : Space) → ((j : ℕ) → j < n → (s j).is_free ≡ true) → busy_count n s ≡ 0
unfolding busy_count
none_busy zero s free = refl
none_busy (suc n) s free =
    rw (none_busy n s (λ j l. free j (omega arith)), free n (omega arith)) refl

-- nodes that are free, in no chain
fresh-IsNodes :
    (s : PriorityListNodeSpace) (size : ℕ)
    → s.max_node_count ≡ size
    → size < u16_mod
    → s.current_used_node_count ≡ 0
    → ((j : ℕ) → j < size → IsFresh (s.p_space j) j)
    → ((b : ℕ) → b < 10 → s.p_list_head_nodes b ≡ none)
    → IsNodes s (empty size)
unfolding Chain mem distinct IsFresh
fresh-IsNodes s size e few zero_used fresh heads = record {
  sized = e;
  few = omega arith;
  counted =
      zero_used ∙ sym (none_busy s.max_node_count s.p_space (λ j l. (fresh j (omega arith)).1));
  count_held = zero_used;
  chains = λ b. [];
  linked = heads;
  apart = λ b l. refl;
  inside = λ b a l m. ground arith;
  taken = λ b a l m. ground arith;
  sorted = λ b a l m. ground arith;
  found = λ b a l m. ground arith;
  kept = λ p a at. ground arith;
  own = λ p a at. ground arith;
  numbered = λ a l. (fresh a (omega arith)).0;
}

module _ (q : PriorityListManager) (few : q.max_node_count < 20)
    (same : q.node_space.max_node_count ≡ q.max_node_count)
    (some_priority : 0 < q.max_priority_value) (scope : q.max_priority_value < u16_mod)
    (words : length q.priority_table ≡ q.max_priority_value / 32 + 1) where
  unfoldable pub cleared_nodes : PriorityListNodeSpace
  cleared_nodes =
      let priority = if q.is_high_priority_from_small then q.max_priority_value else 0 in
      nodes_loop q.max_node_count 0 priority q.node_space

  unfoldable pub cleared : PriorityListNodeSpace
  cleared = record (heads_loop 10 0 cleared_nodes) { current_used_node_count = 0 }

  unfoldable pub cleared_queue : PriorityListManager
  cleared_queue = record q {
    is_init = true;
    priority_table = (table_init q.max_priority_value q.priority_table).1;
    node_space = cleared;
  }

  initialized : queue_initialize q ≡ cleared_queue
  unfolding queue_initialize init_end table_init cleared_queue cleared cleared_nodes
  initialized =
      let test : leb 20 q.max_node_count ≡ false = ground arith in
      let more : (q.max_priority_value == 0) ≡ false = ground arith in rw (test, more) refl

  cleared-IsNodes : IsNodes cleared (empty q.max_node_count)
  unfolding cleared cleared_nodes
  cleared-IsNodes =
      let priority = if q.is_high_priority_from_small then q.max_priority_value else 0 in
      let (nodes, size) = heads_loop-nodes 10 0 cleared_nodes in
      let still : (heads_loop 10 0 cleared_nodes).p_space ≡ cleared_nodes.p_space = nodes in
      fresh-IsNodes cleared q.max_node_count
        (size ∙ nodes_loop-size q.max_node_count 0 priority q.node_space ∙ same) (omega arith) refl
        (λ j l. rw still (
          nodes_loop-IsFresh q.max_node_count 0 priority j q.node_space (omega arith)
            (omega arith)))
        (λ b l. heads_loop-none 10 0 b cleared_nodes (omega arith) (omega arith) (omega arith))

  pub cleared-IsQueue : IsQueue cleared_queue (empty q.max_node_count)
  unfolding cleared_queue
  cleared-IsQueue = record {
    ready = refl;
    same_size = sym cleared-IsNodes.sized;
    scope = scope;
    nodes = cleared-IsNodes;
    table = table_init-IsTable q.priority_table some_priority scope words;
    tabled = λ p l. unused_places q.priority_table some_priority scope words _;
    in_scope = λ p l. refl;
  }

  queue_initialize-IsQueue : IsQueue (queue_initialize q) (empty q.max_node_count)
  queue_initialize-IsQueue =
      subst (λ r. IsQueue r (empty q.max_node_count)) (sym initialized) cleared-IsQueue

  -- Whatever the memory held, after `mPriorityQueueInitialize` every sequence of calls is answered
  -- as the specification allows from the empty queue on, if the queue has fewer than 20 nodes and as
  -- many in its space, the greatest priority is from 1 to 65535, and the table has a word for each 32
  -- priorities up to it.
  pub initialize-Follows :
      (ops : List Op)
      → Follows
          (queue_initialize q).max_priority_value
          (queue_initialize q).is_high_priority_from_small
          ops
          (empty q.max_node_count)
          (run ops (queue_initialize q))
  initialize-Follows ops = run-Follows ops queue_initialize-IsQueue
