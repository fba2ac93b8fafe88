-- ===== src/PriorityQueue/Refine.antt =====
-- Each call of the priority queue of m_priority_queues.c is a step of its specification, and so is
-- every sequence of calls.
use eclipse_code.Prelude.{
  ℕ, ◌≤◌, ◌<◌, ◌≡◌, refl, sym, ap, ◌∙◌, ◌⊎◌, Bool, true, false, not, Option, some, none, List, [],
  ◌∷◌, ltb, leb, ◌==◌, if◌then◌else◌, Bool-cases, inl, inr, arith, subst,
}
use mathlib.Core.Bool.{true≢false}
use eclipse_code.PriorityTable.{table_insert, table_remove, table_get_highest}
use eclipse_code.PriorityTable.Sequence.{IsHighest, table_get_highest-IsHighest, IsHighest-same}
use eclipse_code.PriorityQueue.{PriorityListManager}
use eclipse_code.PriorityQueue.Chains.{node_tail_add, node_pull_away}
use eclipse_code.PriorityQueue.Queue.{
  queue_push, push_by, queue_release, release_by, queue_pop, pop_by, with_nodes,
}
use eclipse_code.PriorityQueue.Inv.{Held, IsQueue, is_some, drop, join}
use eclipse_code.PriorityQueue.Spec.{
  Op, push, pop, release, Reply, in_queue, Step, push_new, push_again, push_refused, pop_highest,
  pop_refused, release_held, release_refused, Follows,
}
use eclipse_code.PriorityQueue.Push.{node_tail_add-join, node_tail_add-again}
use eclipse_code.PriorityQueue.Leave.{used_some, node_pull_away-drop, node_pull_away-missing}
use eclipse_code.PriorityQueue.Calls.{
  step, IsStep, changed, inserted, removed_bit, push_new-IsQueue, push_again-IsQueue, drop-IsQueue,
  missing-IsQueue,
}

Option-cases : (o : Option ℕ) → (o ≡ none) ⊎ ((a : ℕ) × (o ≡ some a))
Option-cases none = inl refl
Option-cases (some a) = inr (a, refl)

when_ready {ℓ} :
    {A : Type ℓ} (x y : A) (ready : Bool) → ready ≡ true → (if not ready then x else y) ≡ y
when_ready x y ready e = rw e refl

Follows-same :
    {scope scope' : ℕ} {small small' : Bool} (ops : List Op) (held : Held) (replies : List Reply)
    → scope' ≡ scope
    → small' ≡ small
    → Follows scope' small' ops held replies
    → Follows scope small ops held replies
Follows-same ops held replies e f follows = rw (← e, ← f) follows

module _ {q : PriorityListManager} {held : Held} (is : IsQueue q held) where
  open q use {
    is_high_priority_from_small as small, max_priority_value as scope, node_space as s,
    priority_table as table,
  }

  push_inside :
      (p : ℕ)
      → leb q.max_node_count s.current_used_node_count ≡ false
      → p ≤ scope
      → queue_push p q
        ≡ with_nodes
            (record q { priority_table = (table_insert small scope p table).1 })
            (node_tail_add p s)
  unfolding queue_push push_by
  push_inside p room l = rw (is.ready, room, inserted is p l) refl

  room_in :
      leb q.max_node_count s.current_used_node_count ≡ false
      → s.current_used_node_count < s.max_node_count
  room_in room = ground (arith, is.same_size)

  room_held : leb q.max_node_count s.current_used_node_count ≡ false → held.count < held.size
  room_held room = omega (arith, room_in room, is.nodes.sized, is.nodes.count_held)

  refused :
      {op : Op} {reply : Reply} → Step scope small op held reply held → IsStep q op held (reply, q)
  refused allowed = record {
    next = held;
    allowed = allowed;
    in_order = is;
    same_scope = refl;
    same_order = refl;
  }

  push_full :
      (p : ℕ)
      → leb q.max_node_count s.current_used_node_count ≡ true
      → queue_push p q ≡ ((false, none), q)
  unfolding queue_push
  push_full p full = rw (is.ready, full) refl

  push_outside :
      (p : ℕ)
      → leb q.max_node_count s.current_used_node_count ≡ false
      → ltb scope p ≡ true
      → queue_push p q ≡ ((false, none), q)
  unfolding queue_push push_by table_insert
  push_outside p room out = rw (is.ready, room, out) refl

  push-IsStep : (p : ℕ) → IsStep q (push p) held (step (push p) q)
  unfolding step
  push-IsStep p = elim (Bool-cases (leb q.max_node_count s.current_used_node_count)) [
    | inl full ↦
        let no_room : held.size ≤ held.count =
          ground (arith, is.same_size, is.nodes.sized, is.nodes.count_held) in
        rw (push_full p full) (refused (push_refused (inl no_room)))
    | inr room ↦ elim (Bool-cases (ltb scope p)) [
      | inl out ↦ rw (push_outside p room out) (refused (push_refused (inr (ground arith))))
      | inr ok ↦
          let l : p ≤ scope = ground arith in
          elim (Option-cases (held.node_of p)) [
            | inl at ↦
                let (a, fresh, answer, nodes) = node_tail_add-join is.nodes p (room_in room) at in
                rw (push_inside p room l, answer)
                  (record {
                    next = join p a held;
                    allowed = push_new l (room_held room) at fresh;
                    in_order = push_new-IsQueue is p a (node_tail_add p s).1 l nodes;
                    same_scope = refl;
                    same_order = refl;
                  })
            | inr (a, at) ↦
                let (answer, nodes) = node_tail_add-again is.nodes p (room_in room) a at in
                rw (push_inside p room l, answer)
                  (record {
                    next = held;
                    allowed = push_again l (room_held room) at;
                    in_order = push_again-IsQueue is p a (node_tail_add p s).1 at nodes;
                    same_scope = refl;
                    same_order = refl;
                  })
          ]
    ]
  ]

  release_inside :
      (p : ℕ)
      → (s.current_used_node_count == 0) ≡ false
      → p ≤ scope
      → queue_release p q
        ≡ with_nodes
            (record q { priority_table = (table_remove small scope p table).1 })
            (node_pull_away p s)
  unfolding queue_release release_by
  release_inside p used l = rw (is.ready, used, removed_bit is p l) refl

  held_inside : (p a : ℕ) → held.node_of p ≡ some a → p ≤ scope
  held_inside p a at = elim (Bool-cases (ltb scope p)) [
    | inl out ↦ let never : none ≡ some a = sym (is.in_scope p (ground arith)) ∙ at in ground arith
    | inr ok ↦ ground arith
  ]

  -- A priority in the queue is released, by itself or by a pop.
  release_run :
      (p a : ℕ)
      → held.node_of p ≡ some a
      → (next : PriorityListManager) × (queue_release p q ≡ ((true, some a), next))
        × IsQueue next (drop p held)
        × (next.max_priority_value ≡ scope)
        × (next.is_high_priority_from_small ≡ small)
  release_run p a at =
      let (answer, nodes) = node_pull_away-drop is.nodes p a at in
      (
        changed is (table_remove small scope p table).1 (node_pull_away p s).1,
        rw (release_inside p (used_some is.nodes p a at) (held_inside p a at), answer) refl,
        drop-IsQueue is p (node_pull_away p s).1 nodes,
        refl,
        refl,
      )

  released-Step :
      (op : Op) (p a : ℕ) (before : Option ℕ) (r : Reply × PriorityListManager)
      → Step scope small op held (before, (true, some a)) (drop p held)
      → held.node_of p ≡ some a
      → r ≡ ((before, (queue_release p q).0), (queue_release p q).1)
      → IsStep q op held r
  released-Step op p a before r allowed at e =
      let (next, run, order, same, same') = release_run p a at in
      rw (e, run)
        (record {
          next = drop p held;
          allowed = allowed;
          in_order = order;
          same_scope = same;
          same_order = same';
        })

  release_none :
      (p : ℕ) → (s.current_used_node_count == 0) ≡ true → queue_release p q ≡ ((false, none), q)
  unfolding queue_release
  release_none p e = rw (is.ready, e) refl

  release_outside :
      (p : ℕ)
      → (s.current_used_node_count == 0) ≡ false
      → ltb scope p ≡ true
      → queue_release p q ≡ ((false, none), q)
  unfolding queue_release release_by table_remove
  release_outside p used out = rw (is.ready, used, out) refl

  release_missing : (p : ℕ) → held.node_of p ≡ none → IsStep q (release p) held (step (release p) q)
  unfolding step
  release_missing p at = elim (Bool-cases (s.current_used_node_count == 0)) [
    | inl e ↦ rw (release_none p e) (refused (release_refused at))
    | inr used ↦ elim (Bool-cases (ltb scope p)) [
      | inl out ↦ rw (release_outside p used out) (refused (release_refused at))
      | inr ok ↦
          let l : p ≤ scope = ground arith in
          let (code, same) = node_pull_away-missing is.nodes p at in
          rw (release_inside p used l, code, same)
            (record {
              next = held;
              allowed = release_refused at;
              in_order = missing-IsQueue is p s at is.nodes;
              same_scope = refl;
              same_order = refl;
            })
    ]
  ]

  release-IsStep : (p : ℕ) → IsStep q (release p) held (step (release p) q)
  unfolding step
  release-IsStep p = elim (Option-cases (held.node_of p)) [
    | inl at ↦ release_missing p at
    | inr (a, at) ↦
        released-Step (release p) p a none (step (release p) q) (release_held at) at refl
  ]

  IsHighest-held :
      (found : Option ℕ)
      → table_get_highest small scope table ≡ found
      → IsHighest small scope (in_queue held) found
  IsHighest-held found e = subst (IsHighest small scope (in_queue held)) e (
      IsHighest-same small (λ p l. is.tabled p l) (table_get_highest small scope table)
        (table_get_highest-IsHighest small is.scope is.table))

  pop_by-IsStep :
      (found : Option ℕ)
      → IsHighest small scope (in_queue held) found
      → IsStep q pop held (pop_by found q)
  unfolding pop_by IsHighest
  pop_by-IsStep none highest = refused (pop_refused highest)
  pop_by-IsStep (some p) (l, used, first) = elim (Option-cases (held.node_of p)) [
    | inl at ↦ absurd (true≢false (sym used ∙ ap is_some at))
    | inr (a, at) ↦
        released-Step pop p a (some p) (pop_by (some p) q) (pop_highest (l, used, first) at) at refl
  ]

  pop-IsStep : IsStep q pop held (step pop q)
  unfolding step queue_pop
  pop-IsStep =
      let found : Option ℕ = table_get_highest small scope table in
      subst (IsStep q pop held)
        (sym (when_ready ((none, (false, none)), q) (pop_by found q) q.is_init is.ready))
        (pop_by-IsStep found (IsHighest-held found refl))

pub step-IsStep :
    (op : Op) {q : PriorityListManager} {held : Held}
    → IsQueue q held
    → IsStep q op held (step op q)
step-IsStep (push p) is = push-IsStep is p
step-IsStep pop is = pop-IsStep is
step-IsStep (release p) is = release-IsStep is p

unfoldable pub run : List Op → PriorityListManager → List Reply
run [] q = []
run (op ∷ ops) q = (step op q).0 ∷ run ops (step op q).1

-- Every sequence of pushes, pops and releases on a queue in order is answered as the specification
-- allows: a pop hands out the highest priority in the queue, and a priority keeps its node.
pub run-Follows :
    (ops : List Op) {q : PriorityListManager} {held : Held}
    → IsQueue q held
    → Follows q.max_priority_value q.is_high_priority_from_small ops held (run ops q)
unfolding run Follows
run-Follows [] is = refl
run-Follows (op ∷ ops) {q} is =
    let one = step-IsStep op is in
    (
      (step op q).0,
      run ops (step op q).1,
      one.next,
      refl,
      one.allowed,
      Follows-same ops one.next (run ops (step op q).1) one.same_scope one.same_order
          (run-Follows ops one.in_order),
    )
