-- ===== src/PriorityQueue/Enter.antt =====
-- `NodeTailAdd` of m_priority_queues.c: a new priority takes a free node, and one that is in the
-- queue keeps the node that it has.
use eclipse_code.Prelude.{
  ℕ, zero, suc, ◌+◌, ◌%◌, ◌≤◌, ◌<◌, ◌≡◌, refl, sym, ap, ◌∙◌, true, false, some, ◌==◌, Bool-cases,
  inl, inr, arith,
}
use mathlib.Core.Bool.{true≢false}
use eclipse_code.PriorityQueue.{
  PriorityListNodeSpace, write, priority_borrow_loop, priority_borrow_node,
}
use eclipse_code.PriorityQueue.Nodes.{Space, mem, Chain-frame, busy_count, busy_count-frame}
use eclipse_code.PriorityQueue.Inv.{Held, IsNodes}

abbrev pub take_node : PriorityListNodeSpace → ℕ → PriorityListNodeSpace
take_node s a = write s a (record (s.p_space a) { is_free = false })

-- a free node before `n`, where fewer than `n` are taken
free_node : (n : ℕ) (s : Space) → busy_count n s < n → (a : ℕ) × (a < n) × ((s a).is_free ≡ true)
unfolding busy_count
free_node zero s h = absurd (omega arith)
free_node (suc n) s h = elim (Bool-cases ((s n).is_free)) [
  | inl e ↦ (n, omega arith, e)
  | inr e ↦
      let fewer : busy_count n s < n = ground arith in
      let (a, l, f) = free_node n s fewer in (a, omega arith, f)
]

-- The loop takes the first free node, if there is one.
borrow_loop-some :
    (n i b : ℕ) (s : PriorityListNodeSpace)
    → i ≤ b
    → b < i + n
    → (s.p_space b).is_free ≡ true
    → (a : ℕ) × (a < i + n)
      × ((s.p_space a).is_free ≡ true)
      × (priority_borrow_loop n i s ≡ (some a, take_node s a))
unfolding priority_borrow_loop
borrow_loop-some zero i b s l h f = absurd (omega arith)
borrow_loop-some (suc n) i b s l h f = elim (Bool-cases ((s.p_space i).is_free)) [
  | inl e ↦ (i, omega arith, e, rw e refl)
  | inr e ↦
      let later : i + 1 ≤ b = elim (Bool-cases (i == b)) [
        | inl at ↦ let same : i ≡ b = ground arith in absurd (true≢false (sym f ∙ rw (← same) e))
        | inr ne ↦ ground arith
      ] in
      let (a, k, g, r) = borrow_loop-some n (i + 1) b s later (omega arith) f in
      (a, omega arith, g, rw e r)
]

module _ {s : PriorityListNodeSpace} {held : Held} (is : IsNodes s held) where
  pub borrow-some :
      s.current_used_node_count < s.max_node_count
      → (a : ℕ) × (a < s.max_node_count)
        × ((s.p_space a).is_free ≡ true)
        × (priority_borrow_node s ≡ (some a, take_node s a))
  unfolding priority_borrow_node
  borrow-some h =
      let room : busy_count s.max_node_count s.p_space < s.max_node_count =
        omega (arith, is.counted) in
      let (b, l, f) = free_node s.max_node_count s.p_space room in
      let (a, k, g, r) = borrow_loop-some s.max_node_count 0 b s (omega arith) (omega arith) f in
      (a, omega arith, g, r)

  -- A node that is free before and after may differ.
  pub unchanged :
      (t : PriorityListNodeSpace) (a : ℕ)
      → (s.p_space a).is_free ≡ true
      → (t.p_space a).is_free ≡ true
      → (t.p_space a).node_id_in_list_array ≡ (s.p_space a).node_id_in_list_array
      → ((b : ℕ) → (b == a) ≡ false → t.p_space b ≡ s.p_space b)
      → ((b : ℕ) → t.p_list_head_nodes b ≡ s.p_list_head_nodes b)
      → t.max_node_count ≡ s.max_node_count
      → t.current_used_node_count ≡ s.current_used_node_count
      → IsNodes t held
  unchanged t a free free' id same heads size count =
      let other : (b c : ℕ) → b < 10 → mem c (is.chains b) ≡ true → t.p_space c ≡ s.p_space c =
        λ b c l m. same c (elim (Bool-cases (c == a)) [
          | inl e ↦
              let at : c ≡ a = ground arith in
              absurd (true≢false (sym free ∙ rw (← at) (is.taken b c l m)))
          | inr e ↦ e
        ]) in
      let same_free : (b : ℕ) → (t.p_space b).is_free ≡ (s.p_space b).is_free = λ b.
        elim (Bool-cases (b == a)) [
          | inl e ↦ let at : b ≡ a = ground arith in rw at (free' ∙ sym free)
          | inr e ↦ ap (λ c. c.is_free) (same b e)
        ] in
      let same_id : (b : ℕ)
          → (t.p_space b).node_id_in_list_array ≡ (s.p_space b).node_id_in_list_array =
        λ b. elim (Bool-cases (b == a)) [
          | inl e ↦ let at : b ≡ a = ground arith in rw at id
          | inr e ↦ ap (λ c. c.node_id_in_list_array) (same b e)
        ] in
      record {
        sized = size ∙ is.sized;
        few = rw size is.few;
        counted =
            count
            ∙ is.counted
            ∙ sym (
                rw size
                  (busy_count-frame s.max_node_count s.p_space t.p_space (λ b l. same_free b)));
        count_held = count ∙ is.count_held;
        chains = is.chains;
        linked = λ b l. rw (heads b) (
            Chain-frame s.p_space t.p_space (s.p_list_head_nodes b) (is.chains b)
              (λ c m. ap (λ d. d.next_ptr) (other b c l m)) (is.linked b l));
        apart = is.apart;
        inside = λ b c l m. rw size (is.inside b c l m);
        taken = λ b c l m. same_free c ∙ is.taken b c l m;
        sorted = λ b c l m. ap (λ d. d.priority % 10) (other b c l m) ∙ is.sorted b c l m;
        found = λ b c l m. ap (λ d. held.node_of d.priority) (other b c l m) ∙ is.found b c l m;
        kept = is.kept;
        own = λ q c e.
            ap (λ d. d.priority) (other (q % 10) c (omega arith) (is.kept q c e)) ∙ is.own q c e;
        numbered = λ c l. same_id c ∙ is.numbered c (rw (← size) l);
      }
