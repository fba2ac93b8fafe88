-- ===== src/PriorityQueue/Calls.antt =====
-- Each call of the priority queue of m_priority_queues.c is a step of its specification.
use eclipse_code.Prelude.{
  ℕ, ◌≤◌, ◌<◌, ◌≡◌, refl, sym, ap, ◌∙◌, Bool, true, false, ◌&&◌, ◌||◌, not, some, none, List, ltb,
  ◌==◌, Bool-cases, inl, inr, arith,
}
use eclipse_code.PriorityTable.{table_insert, table_remove}
use eclipse_code.PriorityTable.Order.{insert-IsTable, remove-IsTable, insert-uses, remove-uses}
use eclipse_code.PriorityQueue.{PriorityListManager, PriorityListNodeSpace}
use eclipse_code.PriorityQueue.Queue.{queue_push, queue_release, queue_pop}
use eclipse_code.PriorityQueue.Inv.{Held, IsNodes, IsQueue, drop, join}
use eclipse_code.PriorityQueue.Spec.{Op, push, pop, release, Reply, in_queue, Step}

-- one call
unfoldable pub step : Op → PriorityListManager → Reply × PriorityListManager
step (push p) q = let (answer, next) = queue_push p q in ((none, answer), next)
step pop q = queue_pop q
step (release p) q = let (answer, next) = queue_release p q in ((none, answer), next)

-- A call's outcome follows the specification, and the queue is in order behind it.
pub record IsStep (q : PriorityListManager) (op : Op) (held : Held)
    (r : Reply × PriorityListManager) : Type 0 where
  pub next : Held
  pub allowed : Step q.max_priority_value q.is_high_priority_from_small op held r.0 next
  pub in_order : IsQueue r.1 next
  pub same_scope : r.1.max_priority_value ≡ q.max_priority_value
  pub same_order : r.1.is_high_priority_from_small ≡ q.is_high_priority_from_small

module _ {q : PriorityListManager} {held : Held} (is : IsQueue q held) where
  abbrev pub small : Bool
  small = q.is_high_priority_from_small

  abbrev pub scope : ℕ
  scope = q.max_priority_value

  -- the queue with other nodes and another table
  abbrev pub changed : List ℕ → PriorityListNodeSpace → PriorityListManager
  changed table s = record q { priority_table = table; node_space = s }

  pub inserted :
      (p : ℕ)
      → p ≤ scope
      → table_insert small scope p q.priority_table
        ≡ (true, (table_insert small scope p q.priority_table).1)
  unfolding table_insert
  inserted p l = let test : ltb scope p ≡ false = ground arith in rw test refl

  pub removed_bit :
      (p : ℕ)
      → p ≤ scope
      → table_remove small scope p q.priority_table
        ≡ (true, (table_remove small scope p q.priority_table).1)
  unfolding table_remove
  removed_bit p l = let test : ltb scope p ≡ false = ground arith in rw test refl

  sizes :
      (s : PriorityListNodeSpace) (held' : Held)
      → held'.size ≡ held.size
      → IsNodes s held'
      → q.max_node_count ≡ s.max_node_count
  sizes s held' e nodes = is.same_size ∙ is.nodes.sized ∙ sym e ∙ sym nodes.sized

  join-in_scope : (p a r : ℕ) → p ≤ scope → scope < r → (join p a held).node_of r ≡ none
  join-in_scope p a r l k =
      let other : (r == p) ≡ false = ground arith in rw other (is.in_scope r k)

  join-in_queue : (p a r : ℕ) → in_queue (join p a held) r ≡ (in_queue held r || (r == p))
  join-in_queue p a r = elim (Bool-cases (r == p)) [
    | inl e ↦ rw e (ground arith)
    | inr e ↦ rw e (ground arith)
  ]

  drop-in_queue : (p r : ℕ) → in_queue (drop p held) r ≡ (in_queue held r && not (r == p))
  drop-in_queue p r = elim (Bool-cases (r == p)) [
    | inl e ↦ rw e (ground arith)
    | inr e ↦ rw e (ground arith)
  ]

  pub push_new-IsQueue :
      (p a : ℕ) (s : PriorityListNodeSpace)
      → p ≤ scope
      → IsNodes s (join p a held)
      → IsQueue (changed (table_insert small scope p q.priority_table).1 s) (join p a held)
  push_new-IsQueue p a s l nodes = record {
    ready = is.ready;
    same_size = sizes s (join p a held) refl nodes;
    scope = is.scope;
    nodes = nodes;
    table = insert-IsTable small is.table p;
    tabled = λ r k.
        insert-uses small is.table p r k
        ∙ ap (λ b. b || (r == p)) (is.tabled r k)
        ∙ sym (join-in_queue p a r);
    in_scope = λ r k. join-in_scope p a r l k;
  }

  -- a priority that is in the queue stays
  in_queue_again :
      (p a r : ℕ) → held.node_of p ≡ some a → (in_queue held r || (r == p)) ≡ in_queue held r
  in_queue_again p a r at = elim (Bool-cases (r == p)) [
    | inl e ↦
        let same : r ≡ p = ground arith in
        let there : in_queue held r ≡ true = rw (same, at) refl in rw there refl
    | inr e ↦ rw e (ground arith)
  ]

  pub push_again-IsQueue :
      (p a : ℕ) (s : PriorityListNodeSpace)
      → held.node_of p ≡ some a
      → IsNodes s held
      → IsQueue (changed (table_insert small scope p q.priority_table).1 s) held
  push_again-IsQueue p a s at nodes = record {
    ready = is.ready;
    same_size = sizes s held refl nodes;
    scope = is.scope;
    nodes = nodes;
    table = insert-IsTable small is.table p;
    tabled = λ r k.
        insert-uses small is.table p r k
        ∙ ap (λ b. b || (r == p)) (is.tabled r k)
        ∙ in_queue_again p a r at;
    in_scope = is.in_scope;
  }

  pub drop-IsQueue :
      (p : ℕ) (s : PriorityListNodeSpace)
      → IsNodes s (drop p held)
      → IsQueue (changed (table_remove small scope p q.priority_table).1 s) (drop p held)
  drop-IsQueue p s nodes = record {
    ready = is.ready;
    same_size = sizes s (drop p held) refl nodes;
    scope = is.scope;
    nodes = nodes;
    table = remove-IsTable small is.table p;
    tabled = λ r k.
        remove-uses small is.table p r k
        ∙ ap (λ b. b && not (r == p)) (is.tabled r k)
        ∙ sym (drop-in_queue p r);
    in_scope =
        λ r k. elim (Bool-cases (r == p)) [ inl e ↦ rw e refl | inr e ↦ rw e (is.in_scope r k) ];
  }

  -- A priority that is not in the queue: its bit is cleared once more.
  in_queue_missing :
      (p r : ℕ) → held.node_of p ≡ none → (in_queue held r && not (r == p)) ≡ in_queue held r
  in_queue_missing p r at = elim (Bool-cases (r == p)) [
    | inl e ↦
        let same : r ≡ p = ground arith in
        let gone : in_queue held r ≡ false = rw (same, at) refl in rw gone refl
    | inr e ↦ rw e (ground arith)
  ]

  pub missing-IsQueue :
      (p : ℕ) (s : PriorityListNodeSpace)
      → held.node_of p ≡ none
      → IsNodes s held
      → IsQueue (changed (table_remove small scope p q.priority_table).1 s) held
  missing-IsQueue p s at nodes = record {
    ready = is.ready;
    same_size = sizes s held refl nodes;
    scope = is.scope;
    nodes = nodes;
    table = remove-IsTable small is.table p;
    tabled = λ r k.
        remove-uses small is.table p r k
        ∙ ap (λ b. b && not (r == p)) (is.tabled r k)
        ∙ in_queue_missing p r at;
    in_scope = is.in_scope;
  }
