-- ===== src/PriorityQueue/Api.antt =====
-- The functions of m_priority_queues.h: each tests the pointer to the queue against `X_Null` first.
-- The output pointers are taken to be valid. What a queue does that is not initialised.
use eclipse_code.Prelude.{
  ℕ, ◌≤◌, ◌≡◌, refl, ap, Bool, true, false, Option, some, none, List, [], ◌∷◌, length, leb,
  replicate, arith, on_pointer,
}
use eclipse_code.PriorityQueue.{PriorityListManager}
use eclipse_code.PriorityQueue.Queue.{
  Answer, queue_initialize, queue_push, queue_release, queue_pop, used_node_count, does_queue_empty,
  priority_by_node_number, node_number_by_priority,
}
use eclipse_code.PriorityQueue.Spec.{Op, push, pop, release, Reply}
use eclipse_code.PriorityQueue.Calls.{step}
use eclipse_code.PriorityQueue.Refine.{run}

abbrev pub Pointer : Type 0
Pointer = Option PriorityListManager

pub m_priority_queue_initialize : Pointer → Pointer
m_priority_queue_initialize none = none
m_priority_queue_initialize (some q) = some (queue_initialize q)

pub clear_my_priority_queue : Pointer → Pointer
clear_my_priority_queue = m_priority_queue_initialize

pub m_priority_queue_push : ℕ → Pointer → Answer × Pointer
m_priority_queue_push priority = on_pointer (false, none) (queue_push priority)

pub m_priority_queue_pop : Pointer → Reply × Pointer
m_priority_queue_pop = on_pointer (none, (false, none)) queue_pop

pub realse_by_priority : ℕ → Pointer → Answer × Pointer
realse_by_priority priority = on_pointer (false, none) (queue_release priority)

pub get_used_node_count : Pointer → ℕ
get_used_node_count none = 0
get_used_node_count (some q) = used_node_count q

pub get_priority_by_node_number : ℕ → Pointer → Option ℕ
get_priority_by_node_number node_number none = none
get_priority_by_node_number node_number (some q) = priority_by_node_number node_number q

pub get_node_number_by_priority : ℕ → Pointer → Option ℕ
get_node_number_by_priority priority none = none
get_node_number_by_priority priority (some q) = node_number_by_priority priority q

pub does_my_priority_queue_empty : Pointer → Bool
does_my_priority_queue_empty none = false
does_my_priority_queue_empty (some q) = does_queue_empty q

step_not_init :
    (op : Op) (q : PriorityListManager)
    → q.is_init ≡ false
    → ((step op q).0 ≡ (none, (false, none))) × ((step op q).1 ≡ q)
unfolding step queue_push queue_pop queue_release
step_not_init (push p) q e = rw e (refl, refl)
step_not_init pop q e = rw e (refl, refl)
step_not_init (release p) q e = rw e (refl, refl)

run_not_init :
    (ops : List Op) (q : PriorityListManager)
    → q.is_init ≡ false
    → run ops q ≡ replicate (length ops) (none, (false, none))
unfolding run
run_not_init [] q e = refl
run_not_init (op ∷ ops) q e =
    let (reply, same) = step_not_init op q e in
    rw (reply, same) (ap (λ rest. (none, (false, none)) ∷ rest) (run_not_init ops q e))

-- A queue that was never initialised and has 20 nodes or more stays so: `mPriorityQueueInitialize`
-- returns without a sign, and every push, pop and release behind it fails.
pub oversize_fails :
    (ops : List Op) (q : PriorityListManager)
    → 20 ≤ q.max_node_count
    → q.is_init ≡ false
    → run ops (queue_initialize q) ≡ replicate (length ops) (none, (false, none))
unfolding queue_initialize
oversize_fails ops q h e =
    let test : leb 20 q.max_node_count ≡ true = ground arith in rw test (run_not_init ops q e)
