-- ===== src/PriorityQueue/Push.antt =====
-- The branches of `NodeTailAdd` of m_priority_queues.c on nodes in order.
use eclipse_code.Prelude.{
  ℕ, suc, ◌+◌, ◌-◌, ◌%◌, ◌≤◌, ◌<◌, ◌≡◌, refl, sym, ap, ◌∙◌, true, false, Option, some, none, List,
  [], ◌∷◌, ◌++◌, length, ◌==◌, u16_mod, Bool-cases, inl, inr, arith, ==_refl, subst, AppResult,
  app_successed,
}
use mathlib.Core.Bool.{true≢false}
use eclipse_code.PriorityQueue.{
  PriorityListNodeSpace, write, set_head, set_link, priority_return_node, used_up,
}
use eclipse_code.PriorityQueue.Chains.{
  again, tail, tail_loop, tail_end, tail_link_by, tail_add_by, node_tail_add,
}
use eclipse_code.PriorityQueue.Nodes.{Space, mem, distinct, Chain, Chain-frame}
use eclipse_code.PriorityQueue.Walk.{IsOnly, Lacks, tail_loop-again, tail_loop-tail}
use eclipse_code.PriorityQueue.Inv.{Held, IsNodes, join}
use eclipse_code.PriorityQueue.Entry.{IsWith, entered}
use eclipse_code.PriorityQueue.Pull.{give_back_node, priority_return_node-true}
use eclipse_code.PriorityQueue.Leave.{node_of-IsOnly, node_of-Lacks, chain_short}
use eclipse_code.PriorityQueue.Enter.{take_node, borrow-some, unchanged}

-- the nodes with the borrowed node configured
abbrev filled : PriorityListNodeSpace → ℕ → ℕ → PriorityListNodeSpace
filled s p a =
    write (take_node s a) a (record ((take_node s a).p_space a) { priority = p; next_ptr = none })

flipped : (x y : ℕ) → (x == y) ≡ false → (y == x) ≡ false
flipped x y e = ground arith

-- a link leaves the rest of each node
module _ (t : PriorityListNodeSpace) (last : ℕ) (next : Option ℕ) (b : ℕ) where
  link-priority : ((set_link t last next).p_space b).priority ≡ (t.p_space b).priority
  link-priority = elim (Bool-cases (b == last)) [
    | inl e ↦ let at : b ≡ last = ground arith in rw (at, ==_refl last) refl
    | inr e ↦ rw e refl
  ]

  link-id :
      ((set_link t last next).p_space b).node_id_in_list_array ≡ (t.p_space b).node_id_in_list_array
  link-id = elim (Bool-cases (b == last)) [
    | inl e ↦ let at : b ≡ last = ground arith in rw (at, ==_refl last) refl
    | inr e ↦ rw e refl
  ]

  link-free : ((set_link t last next).p_space b).is_free ≡ (t.p_space b).is_free
  link-free = elim (Bool-cases (b == last)) [
    | inl e ↦ let at : b ≡ last = ground arith in rw (at, ==_refl last) refl
    | inr e ↦ rw e refl
  ]

filled-id :
    (s : PriorityListNodeSpace) (p a b : ℕ)
    → ((filled s p a).p_space b).node_id_in_list_array ≡ (s.p_space b).node_id_in_list_array
filled-id s p a b = elim (Bool-cases (b == a)) [
  | inl e ↦ let at : b ≡ a = ground arith in rw (at, ==_refl a) refl
  | inr e ↦ rw e refl
]

module _ {s : PriorityListNodeSpace} {held : Held} (is : IsNodes s held) (p a : ℕ)
    (inside : a < s.max_node_count) (free : (s.p_space a).is_free ≡ true) where
  abbrev t : PriorityListNodeSpace
  t = filled s p a

  abbrev chain : List ℕ
  chain = is.chains (p % 10)

  other : (b c : ℕ) → b < 10 → mem c (is.chains b) ≡ true → (c == a) ≡ false
  other b c l m = elim (Bool-cases (c == a)) [
    | inl e ↦
        let at : c ≡ a = ground arith in
        absurd (true≢false (sym free ∙ rw (← at) (is.taken b c l m)))
    | inr e ↦ e
  ]

  same_node : (c : ℕ) → (c == a) ≡ false → t.p_space c ≡ s.p_space c
  same_node c ne = rw ne refl

  in_chain : (c : ℕ) → mem c chain ≡ true → t.p_space c ≡ s.p_space c
  in_chain c m = same_node c (other (p % 10) c (omega arith) m)

  id_at : (t.p_space a).node_id_in_list_array ≡ a
  id_at = rw (==_refl a) (is.numbered a inside)

  Chain-t : Chain t.p_space (s.p_list_head_nodes (p % 10)) chain
  Chain-t =
      Chain-frame s.p_space t.p_space (s.p_list_head_nodes (p % 10)) chain
        (λ c m. ap (λ d. d.next_ptr) (in_chain c m)) (is.linked (p % 10) (omega arith))

  IsOnly-t : (c : ℕ) → held.node_of p ≡ some c → IsOnly t.p_space p c chain
  unfolding IsOnly
  IsOnly-t c at =
      let (m, own, only) = node_of-IsOnly is p c at in
      (
        m,
        ap (λ d. d.priority) (in_chain c m) ∙ own,
        λ b n e. only b n (sym (ap (λ d. d.priority) (in_chain b n)) ∙ e),
      )

  Lacks-t : held.node_of p ≡ none → Lacks t.p_space p chain
  unfolding Lacks
  Lacks-t at = λ b m. rw (in_chain b m) (node_of-Lacks is p at b m)

  -- The priority is in the queue: the borrowed node goes back.
  put_back : IsNodes (give_back_node t a) held
  put_back =
      unchanged is (give_back_node t a) a free (rw (==_refl a) refl) (rw (==_refl a) refl)
        (λ b ne. rw ne refl) (λ b. refl) refl refl

  tail_end-again :
      (c : ℕ)
      → mem c chain ≡ true
      → ((tail_end a (again c) t).0 ≡ (app_successed, some c))
        × IsNodes (tail_end a (again c) t).1 held
  unfolding tail_end
  tail_end-again c m =
      let l : c < s.max_node_count = is.inside (p % 10) c (omega arith) m in
      let id : (t.p_space c).node_id_in_list_array ≡ c =
        ap (λ d. d.node_id_in_list_array) (in_chain c m) ∙ is.numbered c l in
      let back : priority_return_node (t.p_space a).node_id_in_list_array t
          ≡ (true, give_back_node t a) =
        ap (λ i. priority_return_node i t) id_at ∙ priority_return_node-true t a inside in
      (ap (λ i. (app_successed, some i)) id, subst (λ r. IsNodes r.1 held) (sym back) put_back)

  module _ (at : held.node_of p ≡ none) (room : s.current_used_node_count < s.max_node_count) where
    counted_up : (s.current_used_node_count + 1) % u16_mod ≡ s.current_used_node_count + 1
    counted_up = omega (arith, room, is.few)

    -- the chain is empty
    first-IsWith : chain ≡ [] → IsWith s (used_up (set_head t p (some a))) p a chain
    unfolding Chain
    first-IsWith e = record {
      inside = inside;
      was_free = free;
      same_size = refl;
      more = counted_up;
      priority_at = rw (==_refl a) refl;
      same_priority = λ b ne. rw ne refl;
      same_id = λ b. filled-id s p a b;
      taken_at = rw (==_refl a) refl;
      same_free = λ b ne. rw ne refl;
      same_head = λ b ne. rw ne refl;
      same_next = λ b ne far. rw ne refl;
      chained = rw (==_refl (p % 10), e) (refl, rw (==_refl a) refl);
    }

    last-IsWith :
        (last : ℕ)
        → mem last chain ≡ true
        → Chain
            (set_link t last (some a)).p_space
            (s.p_list_head_nodes (p % 10))
            (chain ++ (a ∷ []))
        → IsWith s (used_up (set_link t last (some a))) p a chain
    last-IsWith last m c = record {
      inside = inside;
      was_free = free;
      same_size = refl;
      more = counted_up;
      priority_at = link-priority t last (some a) a ∙ rw (==_refl a) refl;
      same_priority = λ b f. link-priority t last (some a) b ∙ ap (λ d. d.priority) (same_node b f);
      same_id = λ b. link-id t last (some a) b ∙ filled-id s p a b;
      taken_at = link-free t last (some a) a ∙ rw (==_refl a) refl;
      same_free = λ b f. link-free t last (some a) b ∙ ap (λ d. d.is_free) (same_node b f);
      same_head = λ b ne. refl;
      same_next = λ b f far.
          let apart : (b == last) ≡ false = elim (Bool-cases (b == last)) [
            | inl e ↦
                let same : b ≡ last = ground arith in
                let place : (s.p_space b).priority % 10 ≡ p % 10 =
                  rw same (is.sorted (p % 10) last (omega arith) m) in
                ground arith
            | inr e ↦ e
          ] in
          rw (apart, f) refl;
      chained = c;
    }

    unfoldable IsJoined : (AppResult × Option ℕ) × PriorityListNodeSpace → Type 0
    IsJoined r = (r.0 ≡ (app_successed, some a)) × IsNodes r.1 (join p a held)

    answer : ℕ → AppResult × Option ℕ
    answer i = (app_successed, some i)

    IsJoined-first :
        s.p_list_head_nodes (p % 10) ≡ none → chain ≡ [] → IsJoined (tail_link_by none p a t)
    unfolding tail_link_by IsJoined answer
    IsJoined-first head e = (ap answer id_at, entered is at (first-IsWith e))

    IsJoined-last :
        (x : ℕ) (xs : List ℕ)
        → chain ≡ x ∷ xs
        → Chain t.p_space (s.p_list_head_nodes (p % 10)) (x ∷ xs)
        → Lacks t.p_space p (x ∷ xs)
        → distinct (x ∷ xs) ≡ true
        → length (x ∷ xs) ≤ s.max_node_count
        → IsJoined (tail_link_by (some x) p a t)
    unfolding tail_link_by tail_end Chain IsJoined answer
    IsJoined-last x xs e (head, c) lacks d long =
        let (last, stop, m, extend) =
          tail_loop-tail t.p_space p (s.max_node_count - 1) x xs c (omega arith) lacks d in
        let size : s.max_node_count ≡ suc (s.max_node_count - 1) = omega arith in
        let found : tail_loop s.max_node_count t.p_space p x ≡ tail last =
          ap (λ n. tail_loop n t.p_space p x) size ∙ stop in
        let inside_chain : mem last chain ≡ true = rw e m in
        let apart : (a == last) ≡ false =
          flipped last a (other (p % 10) last (omega arith) inside_chain) in
        let u : Space = (set_link t last (some a)).p_space in
        let link : (u last).next_ptr ≡ some a = rw (==_refl last) refl in
        let end : (u a).next_ptr ≡ none = rw (apart, ==_refl a) refl in
        let longer : Chain u (s.p_list_head_nodes (p % 10)) (chain ++ (a ∷ [])) =
          rw e (head, extend u a link end (λ b n f. rw f refl)) in
        let run : tail_end a (tail_loop s.max_node_count t.p_space p x) t
            ≡ (answer (t.p_space a).node_id_in_list_array, used_up (set_link t last (some a))) =
          ap (λ f. tail_end a f t) found in
        subst IsJoined (sym run)
          (ap answer id_at, entered is at (last-IsWith last inside_chain longer))

    IsJoined-by :
        (xs : List ℕ)
        → chain ≡ xs
        → Chain t.p_space (s.p_list_head_nodes (p % 10)) xs
        → Lacks t.p_space p xs
        → distinct xs ≡ true
        → length xs ≤ s.max_node_count
        → IsJoined (tail_link_by (s.p_list_head_nodes (p % 10)) p a t)
    unfolding Chain
    IsJoined-by [] e head lacks d long = rw head (IsJoined-first head e)
    IsJoined-by (x ∷ xs) e (head, c) lacks d long =
        rw head (IsJoined-last x xs e (head, c) lacks d long)

    -- The priority is new.
    tail_link_by-join : IsJoined (tail_link_by (s.p_list_head_nodes (p % 10)) p a t)
    tail_link_by-join =
        IsJoined-by chain refl Chain-t (Lacks-t at) (is.apart (p % 10) (omega arith))
          (chain_short is (p % 10) (omega arith))

  again_by :
      (c : ℕ) (xs : List ℕ)
      → Chain t.p_space (s.p_list_head_nodes (p % 10)) xs
      → IsOnly t.p_space p c xs
      → length xs ≤ s.max_node_count
      → mem c chain ≡ true
      → ((tail_link_by (s.p_list_head_nodes (p % 10)) p a t).0 ≡ (app_successed, some c))
        × IsNodes (tail_link_by (s.p_list_head_nodes (p % 10)) p a t).1 held
  unfolding Chain tail_link_by IsOnly mem
  again_by c [] head (m, own, only) long inside_chain = absurd (true≢false (sym m))
  again_by c (x ∷ xs) (head, links) only long inside_chain =
      let size : s.max_node_count ≡ suc (s.max_node_count - 1) = omega arith in
      let found : tail_loop s.max_node_count t.p_space p x ≡ again c =
        ap (λ n. tail_loop n t.p_space p x) size
        ∙ tail_loop-again t.p_space p (s.max_node_count - 1) c x xs links (omega arith) only in
      rw (head, found) (tail_end-again c inside_chain)

  -- The priority is in the queue.
  pub tail_link_by-again :
      (c : ℕ)
      → held.node_of p ≡ some c
      → ((tail_link_by (s.p_list_head_nodes (p % 10)) p a t).0 ≡ (app_successed, some c))
        × IsNodes (tail_link_by (s.p_list_head_nodes (p % 10)) p a t).1 held
  tail_link_by-again c at =
      again_by c chain Chain-t (IsOnly-t c at) (chain_short is (p % 10) (omega arith))
        (is.kept p c at)

module _ {s : PriorityListNodeSpace} {held : Held} (is : IsNodes s held) (p : ℕ)
    (room : s.current_used_node_count < s.max_node_count) where
  -- `NodeTailAdd` of a new priority gives it a node that no priority has.
  pub node_tail_add-join :
      held.node_of p ≡ none
      → (a : ℕ) × ((q c : ℕ) → held.node_of q ≡ some c → (c == a) ≡ false)
        × ((node_tail_add p s).0 ≡ (app_successed, some a))
        × IsNodes (node_tail_add p s).1 (join p a held)
  unfolding node_tail_add tail_add_by IsJoined
  node_tail_add-join at =
      let (a, l, f, run) = borrow-some is room in
      let (answer, next) = tail_link_by-join is p a l f at room in
      (
        a,
        λ q c e. other is p a l f (q % 10) c (omega arith) (is.kept q c e),
        rw run answer,
        rw run next,
      )

  -- `NodeTailAdd` of a priority in the queue hands its node back.
  pub node_tail_add-again :
      (c : ℕ)
      → held.node_of p ≡ some c
      → ((node_tail_add p s).0 ≡ (app_successed, some c)) × IsNodes (node_tail_add p s).1 held
  unfolding node_tail_add tail_add_by
  node_tail_add-again c at =
      let (a, l, f, run) = borrow-some is room in rw run (tail_link_by-again is p a l f c at)
