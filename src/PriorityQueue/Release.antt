-- ===== src/PriorityQueue/Release.antt =====
-- `NodePullAway` of m_priority_queues.c on nodes in order: a priority in use is released, and one
-- that is not in use changes nothing.
use eclipse_code.Prelude.{
  ℕ, suc, ◌-◌, ◌%◌, ◌≤◌, ◌<◌, ◌≡◌, refl, sym, ap, ◌∙◌, Bool, true, false, Option, some, none, List,
  [], ◌∷◌, length, ◌==◌, u16_mod, Bool-cases, inl, inr, arith, ==_refl, subst, AppResult,
  app_successed,
}
use mathlib.Core.Bool.{true≢false}
use eclipse_code.PriorityQueue.{
  PriorityListNodeSpace, set_head, set_link, used_down, priority_return_node,
}
use eclipse_code.PriorityQueue.Chains.{
  pull_loop, unlink, pull_end, pull_found, pull_single, pull_from,
}
use eclipse_code.PriorityQueue.Nodes.{mem, distinct, Chain}
use eclipse_code.PriorityQueue.Walk.{
  IsOnly, IsOnly-first, IsOnly-rest, only_other, IsPulled, pull_loop-IsPulled,
}
use eclipse_code.PriorityQueue.Removal.{IsWithout}
use eclipse_code.PriorityQueue.Pull.{
  give_back_node, priority_return_node-true, IsWithout-head, IsWithout-later,
}

return_at :
    (t : PriorityListNodeSpace) (i a : ℕ)
    → i ≡ a
    → a < t.max_node_count
    → priority_return_node i t ≡ (true, give_back_node t a)
return_at t i a e l = rw e (priority_return_node-true t a l)

pull_end-true :
    (i a : ℕ) (r : Bool × PriorityListNodeSpace) (t : PriorityListNodeSpace)
    → i ≡ a
    → r ≡ (true, t)
    → pull_end i r ≡ ((app_successed, some a), used_down t)
unfolding pull_end
pull_end-true i a r t e f = rw (e, f) refl

pull_single-true :
    (p i a : ℕ) (r : Bool × PriorityListNodeSpace) (t : PriorityListNodeSpace)
    → i ≡ a
    → r ≡ (true, t)
    → pull_single p i r ≡ ((app_successed, some a), used_down (set_head t p none))
unfolding pull_single
pull_single-true p i a r t e f = rw (e, f) refl

module _ (s : PriorityListNodeSpace) (p a : ℕ) (inside : a < s.max_node_count)
    (id : (s.p_space a).node_id_in_list_array ≡ a) where
  pulled_head : pull_found p (some (a, none)) s ≡ (
    (app_successed, some a),
    used_down (give_back_node (set_head s p ((s.p_space a).next_ptr)) a),
  )
  unfolding pull_found unlink
  pulled_head =
      let t = set_head s p ((s.p_space a).next_ptr) in
      pull_end-true (s.p_space a).node_id_in_list_array a
        (priority_return_node (s.p_space a).node_id_in_list_array t) (give_back_node t a) id
        (return_at t (s.p_space a).node_id_in_list_array a id inside)

  pulled_left :
      (left : ℕ)
      → (left == a) ≡ false
      → pull_found p (some (a, some left)) s ≡ (
        (app_successed, some a),
        used_down (give_back_node (set_link s left ((s.p_space a).next_ptr)) a),
      )
  unfolding pull_found unlink
  pulled_left left ne =
      let t = set_link s left ((s.p_space a).next_ptr) in
      let ne' : (a == left) ≡ false = ground arith in
      let id' : (t.p_space a).node_id_in_list_array ≡ a = rw ne' id in
      pull_end-true (s.p_space a).node_id_in_list_array a
        (priority_return_node (t.p_space a).node_id_in_list_array t) (give_back_node t a) id
        (return_at t (t.p_space a).node_id_in_list_array a id' inside)

  pulled_single :
      pull_single p
        (s.p_space a).node_id_in_list_array
        (priority_return_node (s.p_space a).node_id_in_list_array s)
      ≡ ((app_successed, some a), used_down (give_back_node (set_head s p none) a))
  pulled_single =
      pull_single-true p (s.p_space a).node_id_in_list_array a
        (priority_return_node (s.p_space a).node_id_in_list_array s) (give_back_node s a) id
        (return_at s (s.p_space a).node_id_in_list_array a id inside)

  pull_from-more :
      (x y : ℕ)
      → (s.p_space x).next_ptr ≡ some y
      → pull_from (some x) p s ≡ pull_found p (pull_loop s.max_node_count s.p_space p x none) s
  unfolding pull_from
  pull_from-more x y next = rw (next, pull_from) refl

  pull_from-single :
      (x : ℕ)
      → (s.p_space x).next_ptr ≡ none
      → ((s.p_space x).priority == p) ≡ true
      → pull_from (some x) p s
        ≡ pull_single p
            (s.p_space x).node_id_in_list_array
            (priority_return_node (s.p_space x).node_id_in_list_array s)
  unfolding pull_from
  pull_from-single x next has = rw (next, pull_from, has) refl

  pull_loop-first :
      (n : ℕ)
      → s.max_node_count ≡ suc n
      → ((s.p_space a).priority == p) ≡ true
      → pull_loop s.max_node_count s.p_space p a none ≡ some (a, none)
  unfolding pull_loop
  pull_loop-first n size has = rw (size, has) refl

  pull_loop-next :
      (n x y : ℕ)
      → s.max_node_count ≡ suc n
      → ((s.p_space x).priority == p) ≡ false
      → (s.p_space x).next_ptr ≡ some y
      → pull_loop s.max_node_count s.p_space p x none ≡ pull_loop n s.p_space p y (some x)
  unfolding pull_loop
  pull_loop-next n x y size ne next = rw (size, ne, next) refl

  module _ (few : s.current_used_node_count < u16_mod) (some_used : 0 < s.current_used_node_count)
      (at : (s.p_space a).priority ≡ p) where
    -- a result of `NodePullAway` that released `a`
    unfoldable pub IsReleased : (AppResult × Option ℕ) × PriorityListNodeSpace → List ℕ → Type 0
    IsReleased r xs = (r.0 ≡ (app_successed, some a)) × IsWithout s r.1 p a xs

    released :
        (r : (AppResult × Option ℕ) × PriorityListNodeSpace) (t : PriorityListNodeSpace)
        (xs : List ℕ)
        → r ≡ ((app_successed, some a), t)
        → IsWithout s t p a xs
        → IsReleased r xs
    unfolding IsReleased
    released r t xs e w = rw e (refl, w)

    has_priority : ((s.p_space a).priority == p) ≡ true
    has_priority = rw at (==_refl p)

    single :
        (x : ℕ)
        → x ≡ a
        → (s.p_space a).next_ptr ≡ none
        → IsReleased (pull_from (some x) p s) (x ∷ [])
    unfolding pull_from distinct mem Chain
    single x here next =
        let off : IsWithout s (used_down (give_back_node (set_head s p ((s.p_space a).next_ptr)) a))
            p a (a ∷ []) =
          IsWithout-head s p a inside few some_used at [] next refl in
        let off' : IsWithout s (used_down (give_back_node (set_head s p none) a)) p a (a ∷ []) =
          subst (λ n. IsWithout s (used_down (give_back_node (set_head s p n) a)) p a (a ∷ [])) next
            off in
        let run : pull_from (some a) p s
            ≡ ((app_successed, some a), used_down (give_back_node (set_head s p none) a)) =
          pull_from-single a next has_priority ∙ pulled_single in
        subst (λ z. IsReleased (pull_from (some z) p s) (z ∷ [])) (sym here)
          (released (pull_from (some a) p s) (used_down (give_back_node (set_head s p none) a))
            (a ∷ []) run off')

    first :
        (n y : ℕ) (xs : List ℕ)
        → s.max_node_count ≡ suc n
        → (s.p_space a).next_ptr ≡ some y
        → Chain s.p_space (some y) xs
        → distinct (a ∷ xs) ≡ true
        → IsReleased (pull_from (some a) p s) (a ∷ xs)
    unfolding pull_from
    first n y xs size next c d =
        let found : pull_loop s.max_node_count s.p_space p a none ≡ some (a, none) =
          pull_loop-first n size has_priority in
        let run : pull_from (some a) p s ≡ (
          (app_successed, some a),
          used_down (give_back_node (set_head s p ((s.p_space a).next_ptr)) a),
        ) =
          pull_from-more a y next ∙ ap (λ f. pull_found p f s) found ∙ pulled_head in
        released (pull_from (some a) p s)
          (used_down (give_back_node (set_head s p ((s.p_space a).next_ptr)) a)) (a ∷ xs) run
          (IsWithout-head s p a inside few some_used at xs (rw next c) d)

    later :
        (n x y : ℕ) (ys : List ℕ)
        → s.max_node_count ≡ suc (suc n)
        → s.p_list_head_nodes (p % 10) ≡ some x
        → (s.p_space x).next_ptr ≡ some y
        → Chain s.p_space ((s.p_space y).next_ptr) ys
        → length ys ≤ n
        → distinct (x ∷ y ∷ ys) ≡ true
        → IsOnly s.p_space p a (y ∷ ys)
        → ((s.p_space x).priority == p) ≡ false
        → (a == x) ≡ false
        → ((b : ℕ) → mem b (x ∷ y ∷ ys) ≡ true → (s.p_space b).priority % 10 ≡ p % 10)
        → IsReleased (pull_from (some x) p s) (x ∷ y ∷ ys)
    unfolding pull_from IsPulled
    later n x y ys size head next c long d only ne off same =
        let (left, stop, m, apart, chain) =
          pull_loop-IsPulled s.p_space p n a x y ys next c long d only in
        let found : pull_loop s.max_node_count s.p_space p x none ≡ some (a, some left) =
          pull_loop-next (suc n) x y size ne next ∙ stop in
        let run : pull_from (some x) p s ≡ (
          (app_successed, some a),
          used_down (give_back_node (set_link s left ((s.p_space a).next_ptr)) a),
        ) =
          pull_from-more x y next ∙ ap (λ f. pull_found p f s) found ∙ pulled_left left apart in
        released (pull_from (some x) p s)
          (used_down (give_back_node (set_link s left ((s.p_space a).next_ptr)) a)) (x ∷ y ∷ ys) run
          (IsWithout-later s p a inside few some_used at left x (y ∷ ys) apart off head
            (same left m) chain)

    -- `NodePullAway` behind the head of the chain that holds `a`, the only node with the priority
    pub pull_from-IsReleased :
        (xs : List ℕ)
        → Chain s.p_space (s.p_list_head_nodes (p % 10)) xs
        → distinct xs ≡ true
        → IsOnly s.p_space p a xs
        → length xs ≤ s.max_node_count
        → ((b : ℕ) → mem b xs ≡ true → (s.p_space b).priority % 10 ≡ p % 10)
        → IsReleased (pull_from (s.p_list_head_nodes (p % 10)) p s) xs
    unfolding Chain IsOnly mem
    pull_from-IsReleased [] c d (m, at', only) long same = absurd (true≢false (sym m))
    pull_from-IsReleased (x ∷ []) (head, next) d (m, at', only) long same =
        let here : x ≡ a = ground arith in rw head (single x here (rw (← here) next))
    pull_from-IsReleased (x ∷ y ∷ ys) (head, (next, c)) d only long same =
        elim (Bool-cases ((s.p_space x).priority == p)) [
          | inl e ↦
              let here : x ≡ a = IsOnly-first s.p_space p a x (y ∷ ys) only e in
              let next' : (s.p_space a).next_ptr ≡ some y = rw (← here) next in
              let d' : distinct (a ∷ y ∷ ys) ≡ true = rw (← here) d in
              let done : IsReleased (pull_from (some a) p s) (a ∷ y ∷ ys) =
                first (s.max_node_count - 1) y (y ∷ ys) (omega arith) next' (refl, c) d' in
              rw head
                (subst (λ z. IsReleased (pull_from (some z) p s) (z ∷ y ∷ ys)) (sym here) done)
          | inr ne ↦
              let rest : IsOnly s.p_space p a (y ∷ ys) =
                IsOnly-rest s.p_space p a x (y ∷ ys) only ne in
              rw head (
                later (s.max_node_count - 2) x y ys (omega arith) head next c (omega arith) d rest
                  ne (only_other s.p_space p a x at ne) same)
        ]
