-- ===== src/PriorityQueue/Entry.antt =====
-- Linking a free node to the end of a chain keeps the invariant of the priority queue's nodes, and
-- so does a change of free nodes.
use eclipse_code.Prelude.{
  ℕ, ◌+◌, ◌%◌, ◌<◌, ◌≡◌, refl, sym, ap, ◌∙◌, true, false, ◌&&◌, ◌||◌, some, none, List, [], ◌∷◌,
  ◌++◌, ◌==◌, if◌then◌else◌, update, Bool-cases, inl, inr, arith, ==_refl,
}
use mathlib.Core.Bool.{true≢false}
use eclipse_code.PriorityQueue.{PriorityListNodeSpace}
use eclipse_code.PriorityQueue.Nodes.{
  mem, distinct, Chain, Chain-frame, busy_count, busy_count-take, mem-snoc, distinct-snoc,
}
use eclipse_code.PriorityQueue.Inv.{Held, IsNodes, join}

-- The nodes `t` are the nodes `s` with the free node `a` taken for the priority `p`, at the end of
-- its chain.
pub record IsWith (s t : PriorityListNodeSpace) (p a : ℕ) (xs : List ℕ) : Type 0 where
  pub inside : a < s.max_node_count
  pub was_free : (s.p_space a).is_free ≡ true
  pub same_size : t.max_node_count ≡ s.max_node_count
  pub more : t.current_used_node_count ≡ s.current_used_node_count + 1
  pub priority_at : (t.p_space a).priority ≡ p
  pub same_priority : (b : ℕ) → (b == a) ≡ false → (t.p_space b).priority ≡ (s.p_space b).priority
  pub same_id : (b : ℕ) → (t.p_space b).node_id_in_list_array ≡ (s.p_space b).node_id_in_list_array
  pub taken_at : (t.p_space a).is_free ≡ false
  pub same_free : (b : ℕ) → (b == a) ≡ false → (t.p_space b).is_free ≡ (s.p_space b).is_free
  pub same_head : (b : ℕ) → (b == p % 10) ≡ false → t.p_list_head_nodes b ≡ s.p_list_head_nodes b
  pub same_next :
      (b : ℕ)
      → (b == a) ≡ false
      → ((s.p_space b).priority % 10 == p % 10) ≡ false
      → (t.p_space b).next_ptr ≡ (s.p_space b).next_ptr
  pub chained : Chain t.p_space (t.p_list_head_nodes (p % 10)) (xs ++ (a ∷ []))

module _ {s t : PriorityListNodeSpace} {held : Held} {p a : ℕ} (is : IsNodes s held)
    (at : held.node_of p ≡ none) (w : IsWith s t p a (is.chains (p % 10))) where
  abbrev chains' : ℕ → List ℕ
  chains' b = if b == p % 10 then is.chains b ++ (a ∷ []) else is.chains b

  -- a node in a chain is not the free one
  not_new : (b c : ℕ) → b < 10 → mem c (is.chains b) ≡ true → (c == a) ≡ false
  not_new b c l m = elim (Bool-cases (c == a)) [
    | inl e ↦
        let same : c ≡ a = ground arith in
        let free : (s.p_space c).is_free ≡ true = rw same w.was_free in
        absurd (true≢false (sym free ∙ is.taken b c l m))
    | inr e ↦ e
  ]

  new_outside : (b : ℕ) → b < 10 → mem a (is.chains b) ≡ false
  new_outside b l = elim (Bool-cases (mem a (is.chains b))) [
    | inl m ↦ absurd (true≢false (sym (==_refl a) ∙ not_new b a l m))
    | inr m ↦ m
  ]

  mem-chains' : (b c : ℕ) → mem c (chains' b) ≡ (mem c (is.chains b) || ((b == p % 10) && (c == a)))
  mem-chains' b c = elim (Bool-cases (b == p % 10)) [
    | inl e ↦ rw e (mem-snoc a c (is.chains b))
    | inr e ↦ rw e (ground arith)
  ]

  -- A node of a chain now was in it, or is the new one in its chain.
  by_node :
      (P : ℕ → ℕ → Type 0)
      → ((b c : ℕ) → b < 10 → mem c (is.chains b) ≡ true → (c == a) ≡ false → P b c)
      → P (p % 10) a
      → (b c : ℕ) → b < 10
      → mem c (chains' b) ≡ true
      → P b c
  by_node P old new b c l m = elim (Bool-cases (mem c (is.chains b))) [
    | inl n ↦ old b c l n (not_new b c l n)
    | inr n ↦
        let both : (mem c (is.chains b) || ((b == p % 10) && (c == a))) ≡ true =
          sym (mem-chains' b c) ∙ m in
        let here : b ≡ p % 10 = ground arith in
        let this : c ≡ a = ground arith in rw (here, this) new
  ]

  linked' : (b : ℕ) → b < 10 → Chain t.p_space (t.p_list_head_nodes b) (chains' b)
  linked' b l = elim (Bool-cases (b == p % 10)) [
    | inl e ↦ let here : b ≡ p % 10 = ground arith in rw (e, here) w.chained
    | inr e ↦
        let still : (c : ℕ)
            → mem c (is.chains b) ≡ true
            → (t.p_space c).next_ptr ≡ (s.p_space c).next_ptr =
          λ c m. w.same_next c (not_new b c l m) (rw (is.sorted b c l m) e) in
        rw (e, w.same_head b e)
          (Chain-frame s.p_space t.p_space (s.p_list_head_nodes b) (is.chains b) still
            (is.linked b l))
  ]

  apart' : (b : ℕ) → b < 10 → distinct (chains' b) ≡ true
  apart' b l = elim (Bool-cases (b == p % 10)) [
    | inl e ↦ rw e (distinct-snoc a (is.chains b) (is.apart b l) (new_outside b l))
    | inr e ↦ rw e (is.apart b l)
  ]

  counted' : t.current_used_node_count ≡ busy_count t.max_node_count t.p_space
  counted' =
      let one : busy_count s.max_node_count t.p_space ≡ busy_count s.max_node_count s.p_space + 1 =
        busy_count-take s.max_node_count a s.p_space t.p_space w.inside w.was_free w.taken_at
          w.same_free in
      rw w.same_size (omega (arith, one, w.more, is.counted))

  -- a priority other than `p` keeps its node
  node_of' : (q : ℕ) → (q == p) ≡ false → update held.node_of p (some a) q ≡ held.node_of q
  node_of' q f = rw f refl

  old_priority :
      (b c : ℕ) → b < 10 → mem c (is.chains b) ≡ true → ((s.p_space c).priority == p) ≡ false
  old_priority b c l m = elim (Bool-cases ((s.p_space c).priority == p)) [
    | inl e ↦
        let same : (s.p_space c).priority ≡ p = ground arith in
        let never : none ≡ some c = sym at ∙ ap held.node_of (sym same) ∙ is.found b c l m in
        ground arith
    | inr e ↦ e
  ]

  found' :
      (b c : ℕ)
      → b < 10
      → mem c (chains' b) ≡ true
      → update held.node_of p (some a) ((t.p_space c).priority) ≡ some c
  found' =
      by_node (λ b c. update held.node_of p (some a) ((t.p_space c).priority) ≡ some c)
        (λ b c l m ne. rw (w.same_priority c ne, old_priority b c l m) (is.found b c l m))
        (rw (w.priority_at, ==_refl p) refl)

  -- What is held now was held, or is the new node.
  by_held :
      (P : ℕ → ℕ → Type 0)
      → ((q c : ℕ) → held.node_of q ≡ some c → P q c)
      → P p a
      → (q c : ℕ) → update held.node_of p (some a) q ≡ some c
      → P q c
  by_held P old new q c e = elim (Bool-cases (q == p)) [
    | inl f ↦
        let here : q ≡ p = ground arith in
        let now : update held.node_of p (some a) q ≡ some a = rw f refl in
        let both : some a ≡ some c = sym now ∙ e in
        let this : c ≡ a = ground arith in rw (here, this) new
    | inr f ↦ old q c (sym (node_of' q f) ∙ e)
  ]

  chained_node : (q c : ℕ) → held.node_of q ≡ some c → (c == a) ≡ false
  chained_node q c e = not_new (q % 10) c (omega arith) (is.kept q c e)

  pub entered : IsNodes t (join p a held)
  entered = record {
    sized = w.same_size ∙ is.sized;
    few = rw w.same_size is.few;
    counted = counted';
    count_held = omega (arith, w.more, is.count_held);
    chains = chains';
    linked = linked';
    apart = apart';
    inside =
        by_node (λ b c. c < t.max_node_count) (λ b c l m ne. rw w.same_size (is.inside b c l m))
          (rw w.same_size w.inside);
    taken =
        by_node (λ b c. (t.p_space c).is_free ≡ false)
          (λ b c l m ne. rw (w.same_free c ne) (is.taken b c l m)) w.taken_at;
    sorted =
        by_node (λ b c. (t.p_space c).priority % 10 ≡ b)
          (λ b c l m ne. rw (w.same_priority c ne) (is.sorted b c l m))
          (ap (λ q. q % 10) w.priority_at);
    found = found';
    kept =
        by_held (λ q c. mem c (chains' (q % 10)) ≡ true)
          (λ q c e. rw (mem-chains' (q % 10) c, is.kept q c e) refl)
          (rw (mem-chains' (p % 10) a, ==_refl (p % 10), ==_refl a) (ground arith));
    own =
        by_held (λ q c. (t.p_space c).priority ≡ q)
          (λ q c e. rw (w.same_priority c (chained_node q c e)) (is.own q c e)) w.priority_at;
    numbered = λ c l. rw (w.same_id c) (is.numbered c (rw (← w.same_size) l));
  }
