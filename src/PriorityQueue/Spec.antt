-- ===== src/PriorityQueue/Spec.antt =====
-- What the priority queue of m_priority_queues.h promises: a step relation on the priorities in the
-- queue with their nodes. Which free node a new priority gets is left open.
use eclipse_code.Prelude.{
  ℕ, ◌≤◌, ◌<◌, ◌≡◌, ◌⊎◌, Bool, true, false, Option, some, none, List, [], ◌∷◌, ◌==◌,
}
use eclipse_code.PriorityTable.Sequence.{IsHighest}
use eclipse_code.PriorityQueue.Inv.{Held, is_some, drop, join}

pub data Op : Type 0 where
  push : ℕ → Op
  pop : Op
  release : ℕ → Op

-- The priority that `mPriorityQueuePop` writes, whether the call succeeded, and the node number that
-- it writes.
abbrev pub Reply : Type 0
Reply = Option ℕ × (Bool × Option ℕ)

-- whether a priority is in the queue
abbrev pub in_queue : Held → ℕ → Bool
in_queue held p = is_some (held.node_of p)

-- Priorities up to `max_value`, the lowest number first where `small`
pub data Step (max_value : ℕ) (small : Bool) : Op → Held → Reply → Held → Type 0 where
  push_new :
      {p a : ℕ} {held : Held}
      → p ≤ max_value
      → held.count < held.size
      → held.node_of p ≡ none
      → ((q c : ℕ) → held.node_of q ≡ some c → (c == a) ≡ false)
      → Step max_value small (push p) held (none, (true, some a)) (join p a held)
  push_again :
      {p a : ℕ} {held : Held}
      → p ≤ max_value
      → held.count < held.size
      → held.node_of p ≡ some a
      → Step max_value small (push p) held (none, (true, some a)) held
  push_refused :
      {p : ℕ} {held : Held}
      → (held.size ≤ held.count) ⊎ (max_value < p)
      → Step max_value small (push p) held (none, (false, none)) held
  pop_highest :
      {p a : ℕ} {held : Held}
      → IsHighest small max_value (in_queue held) (some p)
      → held.node_of p ≡ some a
      → Step max_value small pop held (some p, (true, some a)) (drop p held)
  pop_refused :
      {held : Held}
      → IsHighest small max_value (in_queue held) none
      → Step max_value small pop held (none, (false, none)) held
  release_held :
      {p a : ℕ} {held : Held}
      → held.node_of p ≡ some a
      → Step max_value small (release p) held (none, (true, some a)) (drop p held)
  release_refused :
      {p : ℕ} {out : Option ℕ} {held : Held}
      → held.node_of p ≡ none
      → Step max_value small (release p) held (none, (false, out)) held

-- The replies to a sequence of calls follow the steps.
unfoldable pub Follows : ℕ → Bool → List Op → Held → List Reply → Type 0
Follows max_value small [] held replies = replies ≡ []
Follows max_value small (op ∷ ops) held replies =
    (reply : Reply) × (rest : List Reply) × (next : Held) × (replies ≡ reply ∷ rest)
    × Step max_value small op held reply next
    × Follows max_value small ops next rest
