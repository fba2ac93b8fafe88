-- ===== src/PriorityQueue/Leave.antt =====
-- `NodePullAway` of m_priority_queues.c for a priority that is in the queue, and for one that is not.
use eclipse_code.Prelude.{
  ℕ, zero, suc, ◌%◌, ◌≤◌, ◌<◌, ◌≡◌, refl, sym, ap, ◌∙◌, true, false, Option, some, none, List, [],
  ◌∷◌, length, ◌==◌, u16_mod, Bool-cases, inl, inr, arith, app_successed,
}
use eclipse_code.PriorityQueue.{PriorityListNodeSpace}
use eclipse_code.PriorityQueue.Chains.{pull_loop, pull_found, pull_from, node_pull_away}
use eclipse_code.PriorityQueue.Nodes.{
  mem, Chain, busy_count, busy_count-some, busy_count-bound, length-busy_count,
}
use eclipse_code.PriorityQueue.Walk.{IsOnly, Lacks}
use eclipse_code.PriorityQueue.Queue.{is_successed}
use eclipse_code.PriorityQueue.Inv.{Held, IsNodes, drop}
use eclipse_code.PriorityQueue.Removal.{removed}
use eclipse_code.PriorityQueue.Release.{IsReleased, pull_from-IsReleased}

module _ {s : PriorityListNodeSpace} {held : Held} (is : IsNodes s held) where
  -- The only node with a priority in use is the one that is held for it.
  pub node_of-IsOnly :
      (p a : ℕ) → held.node_of p ≡ some a → IsOnly s.p_space p a (is.chains (p % 10))
  unfolding IsOnly
  node_of-IsOnly p a at =
      let only : (b : ℕ) → mem b (is.chains (p % 10)) ≡ true → (s.p_space b).priority ≡ p → b ≡ a =
        λ b m e.
          let same : some b ≡ some a =
            sym (is.found (p % 10) b (omega arith) m) ∙ ap held.node_of e ∙ at in
          ground arith in
      (is.kept p a at, is.own p a at, only)

  pub node_of-Lacks : (p : ℕ) → held.node_of p ≡ none → Lacks s.p_space p (is.chains (p % 10))
  unfolding Lacks
  node_of-Lacks p at = λ b m. elim (Bool-cases ((s.p_space b).priority == p)) [
    | inl e ↦
        let same : (s.p_space b).priority ≡ p = ground arith in
        let never : none ≡ some b =
          sym at ∙ ap held.node_of (sym same) ∙ is.found (p % 10) b (omega arith) m in
        ground arith
    | inr e ↦ e
  ]

  -- A chain is no longer than the array.
  pub chain_short : (b : ℕ) → b < 10 → length (is.chains b) ≤ s.max_node_count
  chain_short b l = omega (
    arith,
    length-busy_count (is.chains b) s.max_node_count s.p_space (is.apart b l)
        (λ a m. is.inside b a l m) (λ a m. is.taken b a l m),
    busy_count-bound s.max_node_count s.p_space,
  )

  pub used_bound : s.current_used_node_count ≤ s.max_node_count
  used_bound = omega (arith, is.counted, busy_count-bound s.max_node_count s.p_space)

  pub used_some : (p a : ℕ) → held.node_of p ≡ some a → (s.current_used_node_count == 0) ≡ false
  used_some p a at =
      let l : p % 10 < 10 = omega arith in
      let m : mem a (is.chains (p % 10)) ≡ true = is.kept p a at in
      let used : 0 < busy_count s.max_node_count s.p_space =
        busy_count-some s.max_node_count a s.p_space (is.inside (p % 10) a l m)
          (is.taken (p % 10) a l m) in
      let used' : 0 < s.current_used_node_count = omega (arith, used, is.counted) in ground arith

  pub node_pull_away-drop :
      (p a : ℕ)
      → held.node_of p ≡ some a
      → ((node_pull_away p s).0 ≡ (app_successed, some a))
        × IsNodes (node_pull_away p s).1 (drop p held)
  unfolding node_pull_away IsReleased
  node_pull_away-drop p a at =
      let l : p % 10 < 10 = omega arith in
      let m : mem a (is.chains (p % 10)) ≡ true = is.kept p a at in
      let inside : a < s.max_node_count = is.inside (p % 10) a l m in
      let test : (s.current_used_node_count == 0) ≡ false = used_some p a at in
      let used : 0 < s.current_used_node_count = ground arith in
      let small : s.current_used_node_count < u16_mod = omega (arith, used_bound, is.few) in
      let (answer, off) =
        pull_from-IsReleased s p a inside (is.numbered a inside) small used (is.own p a at)
          (is.chains (p % 10)) (is.linked (p % 10) l) (is.apart (p % 10) l) (node_of-IsOnly p a at)
          (chain_short (p % 10) l) (λ b n. is.sorted (p % 10) b l n) in
      rw test (answer, removed is at off)

  pull_loop-none :
      (n p x : ℕ) (left : Option ℕ) (xs : List ℕ)
      → Chain s.p_space ((s.p_space x).next_ptr) xs
      → Lacks s.p_space p (x ∷ xs)
      → pull_loop n s.p_space p x left ≡ none
  unfolding pull_loop Chain Lacks mem
  pull_loop-none zero p x left xs c lacks = refl
  pull_loop-none (suc n) p x left [] c lacks = rw (lacks x (ground arith), c) refl
  pull_loop-none (suc n) p x left (y ∷ ys) (next, c) lacks =
      rw (lacks x (ground arith), next)
        (pull_loop-none n p y (some x) ys c (λ b m. lacks b (ground arith)))

  pull_from-missing :
      (p : ℕ) (xs : List ℕ)
      → Chain s.p_space (s.p_list_head_nodes (p % 10)) xs
      → Lacks s.p_space p xs
      → (is_successed (pull_from (s.p_list_head_nodes (p % 10)) p s).0.0 ≡ false)
        × ((pull_from (s.p_list_head_nodes (p % 10)) p s).1 ≡ s)
  unfolding pull_from Chain Lacks mem pull_found
  pull_from-missing p [] head lacks = rw head (refl, refl)
  pull_from-missing p (x ∷ []) (head, next) lacks =
      rw (head, pull_from, next, lacks x (ground arith)) (refl, refl)
  pull_from-missing p (x ∷ y ∷ ys) (head, (next, c)) lacks =
      rw (head, pull_from, next, pull_loop-none s.max_node_count p x none (y ∷ ys) (next, c) lacks)
        (refl, refl)

  pub node_pull_away-missing :
      (p : ℕ)
      → held.node_of p ≡ none
      → (is_successed (node_pull_away p s).0.0 ≡ false) × ((node_pull_away p s).1 ≡ s)
  unfolding node_pull_away
  node_pull_away-missing p at = elim (Bool-cases (s.current_used_node_count == 0)) [
    | inl e ↦ rw e (refl, refl)
    | inr e ↦ rw e (
        pull_from-missing p (is.chains (p % 10)) (is.linked (p % 10) (omega arith))
          (node_of-Lacks p at))
  ]
