-- ===== src/PriorityQueue/Removal.antt =====
-- Taking a node off a chain keeps the invariant of the priority queue's nodes.
use eclipse_code.Prelude.{
  ℕ, ◌+◌, ◌-◌, ◌%◌, ◌<◌, ◌≡◌, refl, sym, ◌∙◌, true, false, ◌&&◌, not, some, none, List, ◌==◌,
  if◌then◌else◌, update, Bool-cases, inl, inr, arith, subst,
}
use eclipse_code.PriorityQueue.{PriorityListNodeSpace}
use eclipse_code.PriorityQueue.Nodes.{
  mem, distinct, without, Chain, Chain-frame, busy_count, busy_count-take, mem-without,
  distinct-without,
}
use eclipse_code.PriorityQueue.Inv.{Held, IsNodes, drop}

-- The nodes `t` are the nodes `s` without the node `a` of the priority `p`: links change in its
-- chain only.
pub record IsWithout (s t : PriorityListNodeSpace) (p a : ℕ) (xs : List ℕ) : Type 0 where
  pub same_size : t.max_node_count ≡ s.max_node_count
  pub fewer : t.current_used_node_count ≡ s.current_used_node_count - 1
  pub same_priority : (b : ℕ) → (t.p_space b).priority ≡ (s.p_space b).priority
  pub same_id : (b : ℕ) → (t.p_space b).node_id_in_list_array ≡ (s.p_space b).node_id_in_list_array
  pub freed : (t.p_space a).is_free ≡ true
  pub same_free : (b : ℕ) → (b == a) ≡ false → (t.p_space b).is_free ≡ (s.p_space b).is_free
  pub same_head : (b : ℕ) → (b == p % 10) ≡ false → t.p_list_head_nodes b ≡ s.p_list_head_nodes b
  pub same_next :
      (b : ℕ)
      → ((s.p_space b).priority % 10 == p % 10) ≡ false
      → (t.p_space b).next_ptr ≡ (s.p_space b).next_ptr
  pub relinked : Chain t.p_space (t.p_list_head_nodes (p % 10)) (without a xs)

module _ {s t : PriorityListNodeSpace} {held : Held} {p a : ℕ} (is : IsNodes s held)
    (at : held.node_of p ≡ some a) (w : IsWithout s t p a (is.chains (p % 10))) where
  abbrev chains' : ℕ → List ℕ
  chains' b = if b == p % 10 then without a (is.chains b) else is.chains b

  -- the node of a priority other than `p`
  other_node :
      (b c : ℕ)
      → b < 10
      → mem c (is.chains b) ≡ true
      → (a == c) ≡ false
      → ((s.p_space c).priority == p) ≡ false
  other_node b c l m ne = elim (Bool-cases ((s.p_space c).priority == p)) [
    | inl e ↦
        let same : (s.p_space c).priority ≡ p = ground arith in
        let both : some a ≡ some c =
          sym at ∙ subst (λ q. held.node_of q ≡ some c) same (is.found b c l m) in
        ground arith
    | inr e ↦ e
  ]

  elsewhere :
      (b c : ℕ) → b < 10 → (b == p % 10) ≡ false → (a == c) ≡ true → mem c (is.chains b) ≡ false
  elsewhere b c l e f = elim (Bool-cases (mem c (is.chains b))) [
    | inl m ↦
        let same : a ≡ c = ground arith in
        let own : (s.p_space c).priority ≡ p =
          subst (λ d. (s.p_space d).priority ≡ p) same (is.own p a at) in
        let place : (s.p_space c).priority % 10 ≡ b = is.sorted b c l m in ground arith
    | inr m ↦ m
  ]

  mem-chains' : (b c : ℕ) → b < 10 → mem c (chains' b) ≡ (mem c (is.chains b) && not (a == c))
  mem-chains' b c l = elim (Bool-cases (b == p % 10)) [
    | inl e ↦ rw e (mem-without a c (is.chains b) (is.apart b l))
    | inr e ↦ rw e (elim (Bool-cases (a == c)) [
      | inl f ↦ rw (elsewhere b c l e f) refl
      | inr f ↦ ground arith
    ])
  ]

  -- a node that stays, in its chain
  stays :
      (b c : ℕ)
      → b < 10
      → mem c (chains' b) ≡ true
      → (mem c (is.chains b) ≡ true) × ((a == c) ≡ false)
  stays b c l m =
      let both : (mem c (is.chains b) && not (a == c)) ≡ true = sym (mem-chains' b c l) ∙ m in
      (ground arith, ground arith)

  linked' : (b : ℕ) → b < 10 → Chain t.p_space (t.p_list_head_nodes b) (chains' b)
  linked' b l = elim (Bool-cases (b == p % 10)) [
    | inl e ↦ let here : b ≡ p % 10 = ground arith in rw (e, here) w.relinked
    | inr e ↦
        let still : (c : ℕ)
            → mem c (is.chains b) ≡ true
            → (t.p_space c).next_ptr ≡ (s.p_space c).next_ptr =
          λ c m. w.same_next c (rw (is.sorted b c l m) e) in
        rw (e, w.same_head b e)
          (Chain-frame s.p_space t.p_space (s.p_list_head_nodes b) (is.chains b) still
            (is.linked b l))
  ]

  apart' : (b : ℕ) → b < 10 → distinct (chains' b) ≡ true
  apart' b l = elim (Bool-cases (b == p % 10)) [
    | inl e ↦ rw e (distinct-without a (is.chains b) (is.apart b l))
    | inr e ↦ rw e (is.apart b l)
  ]

  counted' : t.current_used_node_count ≡ busy_count t.max_node_count t.p_space
  counted' =
      let m : mem a (is.chains (p % 10)) ≡ true = is.kept p a at in
      let one : busy_count s.max_node_count s.p_space ≡ busy_count s.max_node_count t.p_space + 1 =
        busy_count-take s.max_node_count a t.p_space s.p_space
          (is.inside (p % 10) a (omega arith) m) w.freed (is.taken (p % 10) a (omega arith) m)
          (λ b ne. sym (w.same_free b ne)) in
      rw w.same_size (omega (arith, one, w.fewer, is.counted))

  found' :
      (b c : ℕ)
      → b < 10
      → mem c (chains' b) ≡ true
      → update held.node_of p none ((t.p_space c).priority) ≡ some c
  found' b c l m =
      let (inside, ne) = stays b c l m in
      rw (w.same_priority c, other_node b c l inside ne) (is.found b c l inside)

  same_cell : {q : ℕ} → (q == p) ≡ false → update held.node_of p none q ≡ held.node_of q
  same_cell f = rw f refl

  kept' :
      (q c : ℕ)
      → update held.node_of p none q ≡ some c
      → (held.node_of q ≡ some c) × (mem c (chains' (q % 10)) ≡ true)
  kept' q c e = elim (Bool-cases (q == p)) [
    | inl f ↦
        let gone : update held.node_of p none q ≡ none = rw f refl in
        let never : none ≡ some c = sym gone ∙ e in ground arith
    | inr f ↦
        let was : held.node_of q ≡ some c = sym (same_cell f) ∙ e in
        let apart : (a == c) ≡ false = elim (Bool-cases (a == c)) [
          | inl g ↦
              let same : a ≡ c = ground arith in
              let first : (s.p_space a).priority ≡ p = is.own p a at in
              let second : (s.p_space a).priority ≡ q =
                subst (λ d. (s.p_space d).priority ≡ q) (sym same) (is.own q c was) in
              ground arith
          | inr g ↦ g
        ] in
        (was, rw (mem-chains' (q % 10) c (omega arith), is.kept q c was, apart) refl)
  ]

  pub removed : IsNodes t (drop p held)
  removed = record {
    sized = w.same_size ∙ is.sized;
    few = rw w.same_size is.few;
    counted = counted';
    count_held = omega (arith, w.fewer, is.count_held);
    chains = chains';
    linked = linked';
    apart = apart';
    inside = λ b c l m. rw w.same_size (is.inside b c l ((stays b c l m).0));
    taken = λ b c l m.
        let (inside, ne) = stays b c l m in
        let other : (c == a) ≡ false = ground arith in
        rw (w.same_free c other) (is.taken b c l inside);
    sorted = λ b c l m. rw (w.same_priority c) (is.sorted b c l ((stays b c l m).0));
    found = found';
    kept = λ q c e. (kept' q c e).1;
    own = λ q c e. rw (w.same_priority c) (is.own q c ((kept' q c e).0));
    numbered = λ c l. rw (w.same_id c) (is.numbered c (rw (← w.same_size) l));
  }
