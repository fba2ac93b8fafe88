-- ===== src/PriorityQueue/Pull.antt =====
-- `NodePullAway` of m_priority_queues.c takes the node of a priority off its chain and frees it.
use eclipse_code.Prelude.{
  ℕ, ◌+◌, ◌-◌, ◌%◌, ◌<◌, ◌≡◌, refl, true, false, some, none, List, ◌∷◌, ◌==◌, u16_mod, arith,
  ==_refl,
}
use eclipse_code.PriorityQueue.{
  PriorityListNodeSpace, set_head, set_link, write, used_down, priority_return_node,
}
use eclipse_code.PriorityQueue.Nodes.{Space, mem, distinct, without, Chain, Chain-frame, mem-ne}
use eclipse_code.PriorityQueue.Walk.{IsRelinked}
use eclipse_code.PriorityQueue.Removal.{IsWithout}

-- the node's space after it is given back
abbrev pub give_back_node : PriorityListNodeSpace → ℕ → PriorityListNodeSpace
give_back_node s a = write s a (record (s.p_space a) { is_free = true; next_ptr = none })

pub priority_return_node-true :
    (s : PriorityListNodeSpace) (a : ℕ)
    → a < s.max_node_count
    → priority_return_node a s ≡ (true, give_back_node s a)
unfolding priority_return_node
priority_return_node-true s a l = ground arith

counted_down :
    (count : ℕ) → count < u16_mod → 0 < count → (count + u16_mod - 1) % u16_mod ≡ count - 1
counted_down count few used = omega arith

module _ (s : PriorityListNodeSpace) (p a : ℕ) (inside : a < s.max_node_count)
    (few : s.current_used_node_count < u16_mod) (some_used : 0 < s.current_used_node_count)
    (at : (s.p_space a).priority ≡ p) where
  -- The head is taken off.
  pub IsWithout-head :
      (xs : List ℕ)
      → Chain s.p_space ((s.p_space a).next_ptr) xs
      → distinct (a ∷ xs) ≡ true
      → IsWithout s
          (used_down (give_back_node (set_head s p ((s.p_space a).next_ptr)) a))
          p
          a
          (a ∷ xs)
  unfolding distinct without
  IsWithout-head xs c d =
      let t : Space = (give_back_node s a).p_space in
      let still : (b : ℕ) → mem b xs ≡ true → (t b).next_ptr ≡ (s.p_space b).next_ptr =
        λ b m. let other : (b == a) ≡ false = mem-ne a b xs (ground arith) m in rw other refl in
      record {
        same_size = refl;
        fewer = counted_down s.current_used_node_count few some_used;
        same_priority = λ b. ground arith;
        same_id = λ b. ground arith;
        freed = ground arith;
        same_free = λ b ne. ground arith;
        same_head = λ b ne. ground arith;
        same_next = λ b ne. ground arith;
        relinked =
            rw (==_refl (p % 10), ==_refl a)
              (Chain-frame s.p_space t ((s.p_space a).next_ptr) xs still c);
      }

  -- A node behind another is taken off.
  pub IsWithout-later :
      (left x : ℕ) (xs : List ℕ)
      → (left == a) ≡ false
      → (a == x) ≡ false
      → s.p_list_head_nodes (p % 10) ≡ some x
      → (s.p_space left).priority % 10 ≡ p % 10
      → ((t : Space)
          → IsRelinked s.p_space t left a (x ∷ xs)
          → Chain t ((t x).next_ptr) (without a xs))
      → IsWithout s
          (used_down (give_back_node (set_link s left ((s.p_space a).next_ptr)) a))
          p
          a
          (x ∷ xs)
  unfolding IsRelinked without Chain
  IsWithout-later left x xs ne off head same chain =
      let t : Space = (give_back_node (set_link s left ((s.p_space a).next_ptr)) a).p_space in
      let link : (t left).next_ptr ≡ (s.p_space a).next_ptr = rw (ne, ==_refl left) refl in
      record {
        same_size = refl;
        fewer = counted_down s.current_used_node_count few some_used;
        same_priority = λ b. ground arith;
        same_id = λ b. ground arith;
        freed = ground arith;
        same_free = λ b ne. ground arith;
        same_head = λ b ne. ground arith;
        same_next = λ b ne. ground arith;
        relinked = rw (off, head) (refl, chain t (link, λ b m other apart. rw (apart, other) refl));
      }
