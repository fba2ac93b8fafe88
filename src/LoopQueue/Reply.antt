-- ===== src/LoopQueue/Reply.antt =====
-- What one call of `SimpleQueueFirstIn` (loop_queues.c) hands back.
use eclipse_code.Prelude.{ℕ, ◌≡◌, refl, Bool, true, false, ◌==◌, get_or, Bool-cases, inl, inr}
use eclipse_code.LoopQueue.{
  QueueState, queue_empty, queue_normal, queue_full, queue_state_error, ListManager, buf_free,
  buf_used, first_in_by, first_in,
}

-- A refusal changes nothing, and else the node number is that of the place for the next one.
abbrev pub Replied : ListManager → (Bool × ℕ) × ListManager → Type 0
Replied m ((true, n), q) = n ≡ m.lmp.first_in_node_num
Replied m ((false, n), q) = q ≡ m

first_in_by-Replied :
    (st : QueueState) (permit : Bool) (m : ListManager) → Replied m (first_in_by st permit m)
unfolding first_in_by
first_in_by-Replied queue_full permit m =
    elim (Bool-cases (get_or m.p_buf m.lmp.first_in_node_num buf_used == buf_free)) [
      | inl e ↦ rw e refl
      | inr e ↦ rw e refl
    ]
first_in_by-Replied queue_state_error permit m = refl
first_in_by-Replied queue_empty permit m =
    elim (Bool-cases (get_or m.p_buf m.lmp.first_in_node_num buf_used == buf_free)) [
      | inl e ↦ rw e refl
      | inr e ↦ rw e refl
    ]
first_in_by-Replied queue_normal permit m =
    elim (Bool-cases (get_or m.p_buf m.lmp.first_in_node_num buf_used == buf_free)) [
      | inl e ↦ rw e refl
      | inr e ↦ rw e refl
    ]

pub first_in-Replied : (permit : Bool) (m : ListManager) → Replied m (first_in permit m)
unfolding first_in
first_in-Replied permit m = first_in_by-Replied m.lmp.state permit m
