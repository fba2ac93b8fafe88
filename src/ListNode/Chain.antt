-- ===== src/ListNode/Chain.antt =====
-- Chains of `NextPtr` through the node array of m_list_node.c, and what one write does to a chain.
use eclipse_code.Prelude.{
  ℕ, zero, suc, ◌<◌, ◌≡◌, refl, ◌∙◌, true, false, Option, none, some, [], ◌∷◌, ◌==◌, length, arith,
}
use eclipse_code.ListNode.{LinkListParam, Space, walk}
use eclipse_code.ListNode.Cells.{Cells, has, address, insert_at, remove_at, Distinct, has-address}

-- from the pointer `p` the `NextPtr` lead through the nodes of `xs` to the null pointer
abbrev pub Chain : Space → Option ℕ → Cells → Type 0
Chain s p [] = p ≡ none
Chain s p ((a, v) ∷ xs) = (p ≡ some a) × ((s a).extern_information ≡ v) × Chain s (s a).next_ptr xs

module _ (s s' : Space) where
  -- a chain survives a change that spares its nodes
  pub frame :
      (p : Option ℕ) (xs : Cells)
      → Chain s p xs
      → ((b : ℕ) → has b xs ≡ true → s' b ≡ s b)
      → Chain s' p xs
  frame p [] c same = c
  frame p ((a, v) ∷ xs) c same =
      let at : s' a ≡ s a = same a (ground arith) in
      (c.0, rw at (c.1), rw at (frame (s a).next_ptr xs c.2 (λ b h. same b (ground arith))))

  -- A new node behind the node at place `k`.
  pub Chain-insert :
      (k new v : ℕ) (p : Option ℕ) (xs : Cells)
      → Chain s p xs
      → Distinct xs
      → k < length xs
      → (s' (address xs k)).next_ptr ≡ some new
      → (s' (address xs k)).extern_information ≡ (s (address xs k)).extern_information
      → (s' new).next_ptr ≡ (s (address xs k)).next_ptr
      → (s' new).extern_information ≡ v
      → ((b : ℕ) → has b xs ≡ true → (b == address xs k) ≡ false → s' b ≡ s b)
      → Chain s' p (insert_at (suc k) (new, v) xs)
  Chain-insert k new v p [] c d h n e n' e' same = absurd (omega arith)
  Chain-insert zero new v p ((a, w) ∷ xs) c d h n e n' e' same = (
    c.0,
    e ∙ c.1,
    (n, e', rw n' (frame (s a).next_ptr xs c.2 (λ b i. same b (ground arith) (ground arith)))),
  )
  Chain-insert (suc k) new v p ((a, w) ∷ xs) c d h n e n' e' same =
      let at : s' a ≡ s a = same a (ground arith) (ground (arith, has-address k xs)) in
      (
        c.0,
        rw at (c.1),
        rw at (
            Chain-insert k new v (s a).next_ptr xs c.2 d.1 (omega arith) n e n' e'
              (λ b i j. same b (ground arith) j)),
      )

  -- The node behind the node at place `k` is left out.
  pub Chain-remove :
      (k : ℕ) (p : Option ℕ) (xs : Cells)
      → Chain s p xs
      → Distinct xs
      → suc k < length xs
      → (s' (address xs k)).next_ptr ≡ (s (address xs (suc k))).next_ptr
      → (s' (address xs k)).extern_information ≡ (s (address xs k)).extern_information
      → ((b : ℕ)
          → has b xs ≡ true
          → (b == address xs k) ≡ false
          → (b == address xs (suc k)) ≡ false
          → s' b ≡ s b)
      → Chain s' p (remove_at (suc k) xs)
  Chain-remove k p [] c d h n e same = absurd (omega arith)
  Chain-remove zero p ((a, w) ∷ []) c d h n e same = absurd (omega arith)
  Chain-remove zero p ((a, w) ∷ (b, u) ∷ xs) c d h n e same = (
    c.0,
    e ∙ c.1,
    rw n (
        frame (s b).next_ptr xs c.2.2 (λ x i. same x (ground arith) (ground arith) (ground arith))),
  )
  Chain-remove (suc k) p ((a, w) ∷ xs) c d h n e same =
      let at : s' a ≡ s a =
        same a (ground arith) (ground (arith, has-address k xs))
          (ground (arith, has-address (suc k) xs)) in
      (
        c.0,
        rw at (c.1),
        rw at (
            Chain-remove k (s a).next_ptr xs c.2 d.1 (omega arith) n e
              (λ b i j l. same b (ground arith) j l)),
      )

module _ (s : Space) where
  pub next-last :
      (k : ℕ) (p : Option ℕ) (xs : Cells)
      → Chain s p xs
      → suc k ≡ length xs
      → (s (address xs k)).next_ptr ≡ none
  next-last k p [] c e = absurd (omega arith)
  next-last zero p ((a, v) ∷ []) c e = c.2
  next-last zero p ((a, v) ∷ (b, w) ∷ xs) c e = absurd (omega arith)
  next-last (suc k) p ((a, v) ∷ xs) c e = next-last k (s a).next_ptr xs c.2 (omega arith)

  pub next-address :
      (k : ℕ) (p : Option ℕ) (xs : Cells)
      → Chain s p xs
      → suc k < length xs
      → (s (address xs k)).next_ptr ≡ some (address xs (suc k))
  next-address k p [] c e = absurd (omega arith)
  next-address zero p ((a, v) ∷ []) c e = absurd (omega arith)
  next-address zero p ((a, v) ∷ (b, w) ∷ xs) c e = c.2.0
  next-address (suc k) p ((a, v) ∷ xs) c e = next-address k (s a).next_ptr xs c.2 (omega arith)

-- The walk along a chain reaches each of its nodes.
pub walk-address :
    (p : LinkListParam) (k a v : ℕ) (xs : Cells)
    → Chain p.p_node_space (some a) ((a, v) ∷ xs)
    → k < suc (length xs)
    → walk k p a ≡ some (address ((a, v) ∷ xs) k)
unfolding walk
walk-address p zero a v xs c h = refl
walk-address p (suc k) a v [] c h = absurd (omega arith)
walk-address p (suc k) a v ((b, w) ∷ xs) c h =
    rw (c.2.0, walk) (walk-address p k b w xs (refl, c.2.1, c.2.2) (omega arith))
