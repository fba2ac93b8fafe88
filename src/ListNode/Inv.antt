-- ===== src/ListNode/Inv.antt =====
-- The invariant of a list of m_list_node.c, and what the helpers do on a list that meets it.
use eclipse_code.Prelude.{
  ℕ, zero, suc, ◌+◌, ◌≤◌, ◌<◌, ◌≡◌, refl, true, false, Option, none, some, [], ◌∷◌, ◌==◌, not,
  length, arith, Bool-cases, inl, inr, ◌⊎◌,
}
use eclipse_code.ListNode.{
  LinkListParam, Space, SingleLinkList, my_max_node_count, node_at, write_node, take_node,
  borrow_loop, borrow_node, return_node, walk, node_pointer_get,
}
use eclipse_code.ListNode.Cells.{Cells, has, address, Distinct, all_held}
use eclipse_code.ListNode.Chain.{Chain, walk-address, next-last, next-address}

-- The chain starts at the head node; of an empty list the head number says nothing.
abbrev pub Linked : Space → ℕ → Cells → Type 0
Linked s head [] = Unit {0}
Linked s head (x ∷ xs) = Chain s (some head) (x ∷ xs)

pub Linked-last :
    (s : Space) (head k : ℕ) (xs : Cells)
    → Linked s head xs
    → suc k ≡ length xs
    → (s (address xs k)).next_ptr ≡ none
Linked-last s head k [] c h = absurd (omega arith)
Linked-last s head k (x ∷ xs) c h = next-last s k (some head) (x ∷ xs) c h

pub Linked-next :
    (s : Space) (head k : ℕ) (xs : Cells)
    → Linked s head xs
    → suc k < length xs
    → (s (address xs k)).next_ptr ≡ some (address xs (suc k))
Linked-next s head k [] c h = absurd (omega arith)
Linked-next s head k (x ∷ xs) c h = next-address s k (some head) (x ∷ xs) c h

-- the list stands for the cells `xs`
pub record IsList (l : SingleLinkList) (xs : Cells) : Type 0 where
  pub ready : l.p_manager.is_init_ok ≡ true
  pub same_size : l.valid_node_number ≡ l.p_param.valid_node_number
  pub bound : l.p_param.valid_node_number ≤ my_max_node_count
  pub head_in : l.p_manager.current_head_node_number < l.p_param.valid_node_number
  pub count : l.p_manager.used_node_num ≡ length xs
  pub fits : length xs ≤ l.p_param.valid_node_number
  pub linked : Linked l.p_param.p_node_space l.p_manager.current_head_node_number xs
  pub distinct : Distinct xs
  pub inside : (a : ℕ) → has a xs ≡ true → a < l.p_param.valid_node_number
  pub ids :
      (a : ℕ) → a < l.p_param.valid_node_number → (node_at (l.p_param) a).node_id_in_list_array ≡ a
  pub free :
      (a : ℕ) → a < l.p_param.valid_node_number → (node_at (l.p_param) a).is_free ≡ not (has a xs)

abbrev Taken : LinkListParam → ℕ → Option ℕ × LinkListParam → Type 0
Taken p bound result =
    (a : ℕ) × (a < bound) × ((node_at p a).is_free ≡ true) × (result ≡ (some a, take_node p a))

-- `BorrowNode` takes a free node, unless none of those it looks at is free.
borrow_loop-cases :
    (n i : ℕ) (p : LinkListParam)
    → ((j : ℕ) → i ≤ j → j < i + n → (node_at p j).is_free ≡ false)
      ⊎ Taken p (i + n) (borrow_loop n i p)
unfolding borrow_loop
borrow_loop-cases zero i p = inl (λ j h k. absurd (omega arith))
borrow_loop-cases (suc n) i p = elim (Bool-cases (node_at p i).is_free) [
  | inl is_free ↦ inr (i, omega arith, is_free, rw (is_free, borrow_loop))
  | inr taken ↦ elim (borrow_loop-cases n (i + 1) p) [
    | inl none_free ↦ inl (λ j h k. elim (Bool-cases (j == i)) [
      | inl e ↦ ground arith
      | inr e ↦ none_free j (ground arith) (omega arith)
    ])
    | inr (a, h, f, e) ↦ inr (a, omega arith, f, rw (taken, borrow_loop) e)
  ]
]

-- What `BorrowNode` does where the list leaves a node free.
abbrev pub Borrows : LinkListParam → Cells → Type 0
Borrows p xs =
    (a : ℕ) × (a < p.valid_node_number)
    × (has a xs ≡ false)
    × (borrow_node p ≡ (some a, take_node p a))

module _ {l : SingleLinkList} {xs : Cells} (is : IsList l xs) where
  held_of_taken :
      ((j : ℕ)
        → 0 ≤ j
        → j < 0 + l.p_param.valid_node_number
        → (node_at (l.p_param) j).is_free ≡ false)
      → (i : ℕ) → i < l.p_param.valid_node_number
      → has i xs ≡ true
  held_of_taken taken i h = ground (arith, taken i (omega arith) (omega arith), is.free i h)

  -- While not all nodes are in use, `BorrowNode` finds one that is not.
  pub borrow_node-some : length xs < l.p_param.valid_node_number → Borrows l.p_param xs
  unfolding borrow_node
  borrow_node-some h = elim (borrow_loop-cases l.p_param.valid_node_number 0 l.p_param) [
    | inl taken ↦
        absurd (omega (arith, all_held l.p_param.valid_node_number xs (held_of_taken taken)))
    | inr (a, k, f, e) ↦ (a, omega arith, ground (arith, is.free a (omega arith)), e)
  ]

-- `NodePointerGetByNodeOrderNumber` along a chain reaches the node at each place.
pub node_pointer_get-address :
    (p : LinkListParam) (head k : ℕ) (xs : Cells)
    → Linked p.p_node_space head xs
    → head < p.valid_node_number
    → k < length xs
    → length xs ≤ p.valid_node_number
    → node_pointer_get p head k ≡ some (address xs k)
unfolding node_pointer_get
node_pointer_get-address p head k [] c h k_in fits = absurd (omega arith)
node_pointer_get-address p head k ((a, v) ∷ xs) c h k_in fits =
    let at : head ≡ a = cc (c.0) in
    let reached : walk k p head ≡ some (address ((a, v) ∷ xs) k) =
      rw at (walk-address p k a v xs (refl, c.1, c.2) (omega arith)) in
    ground arith

-- `ReturnNode` of a node's own number frees that node.
pub return_node_lem :
    (a : ℕ) (p : LinkListParam)
    → a < p.valid_node_number
    → return_node a p
      ≡ (true, write_node p a (record (node_at p a) { is_free = true; next_ptr = none }))
unfolding return_node
return_node_lem a p h = ground arith
