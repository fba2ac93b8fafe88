-- ===== src/ListNode/Insert.antt =====
-- `mSingleListTailAdd` and `mSingleListInsert` of m_list_node.c: where the new cell comes to stand.
use eclipse_code.Prelude.{
  ℕ, zero, suc, ◌-◌, ◌≤◌, ◌<◌, ◌≡◌, refl, sym, subst, true, false, none, some, [], ◌∷◌, ◌++◌, ◌==◌,
  length, arith, Bool-cases, ==_refl, inl, inr,
}
use eclipse_code.ListNode.{
  Space, SingleLinkList, fill_node, take_node, borrow_node, node_pointer_get,
}
use eclipse_code.ListNode.Cells.{Cells, has, address, insert_at, insert_at_end}
use eclipse_code.ListNode.Chain.{Chain, frame}
use eclipse_code.ListNode.Inv.{Linked, IsList, borrow_node-some, node_pointer_get-address}
use eclipse_code.ListNode.Edit.{tail_add, tail_add_borrowed, head_add}
use eclipse_code.ListNode.Place.{insert, insert_borrowed}
use eclipse_code.ListNode.Adds.{Becomes, added, tail_linked, insert_linked, head_add-cons}

Linked-frame :
    (s s' : Space) (head : ℕ) (xs : Cells)
    → Linked s head xs
    → ((b : ℕ) → has b xs ≡ true → s' b ≡ s b)
    → Linked s' head xs
Linked-frame s s' head [] c same = tt
Linked-frame s s' head (x ∷ xs) c same = frame s s' (some head) (x ∷ xs) c same

Chain-nil : (s : Space) (xs : Cells) → length xs ≡ 0 → Chain s none xs
Chain-nil s [] e = refl
Chain-nil s (x ∷ xs) e = absurd (omega arith)

module _ {l : SingleLinkList} {xs : Cells} (is : IsList l xs) (v : ℕ) where
  open l.p_param use {valid_node_number as size, p_node_space as space}
  open l.p_manager use {used_node_num, current_head_node_number}

  tail_first :
      (new : ℕ)
      → 0 < size
      → new < size
      → has new xs ≡ false
      → length xs ≡ 0
      → Becomes
          (tail_add_borrowed v l (some new, take_node (l.p_param) new))
          (insert_at 0 (new, v) xs)
  unfolding tail_add_borrowed
  tail_first new room new_in fresh empty =
      let unused : (used_node_num == 0) ≡ true = ground (arith, is.count) in
      let s : Space = (fill_node (take_node (l.p_param) new) new v none).p_node_space in
      rw (unused, tail_add_borrowed)
        (
          refl,
          added is new v 0 _ s new_in fresh (omega arith) is.ready (ground (arith, is.ids new))
              (omega (arith, is.count))
              (ground (arith, is.ids new), ground arith, rw (==_refl new) (Chain-nil s xs empty))
              (ground arith) (λ b. ground arith) (λ b h. ground arith),
        )

  tail_next :
      (new k : ℕ)
      → length xs < size
      → new < size
      → has new xs ≡ false
      → length xs ≡ suc k
      → Becomes
          (tail_add_borrowed v l (some new, take_node (l.p_param) new))
          (insert_at (suc k) (new, v) xs)
  unfolding tail_add_borrowed
  tail_next new k room new_in fresh last =
      let used : (used_node_num == 0) ≡ false = ground (arith, is.count) in
      let p = fill_node (take_node (l.p_param) new) new v none in
      let reached : node_pointer_get p current_head_node_number (used_node_num - 1)
          ≡ some (address xs k) =
        subst (λ n. node_pointer_get p current_head_node_number n ≡ some (address xs k))
          (omega (arith, is.count))
          (node_pointer_get-address p current_head_node_number k xs
            (Linked-frame space p.p_node_space current_head_node_number xs is.linked
              (λ b h. ground arith))
            is.head_in (omega arith) is.fits) in
      rw (used, reached, tail_add_borrowed) (tail_linked is v k new room new_in fresh (sym last))

  tail_added :
      (new n : ℕ)
      → length xs < size
      → new < size
      → has new xs ≡ false
      → length xs ≡ n
      → Becomes
          (tail_add_borrowed v l (some new, take_node (l.p_param) new))
          (insert_at n (new, v) xs)
  tail_added new zero room new_in fresh e = tail_first new (omega arith) new_in fresh e
  tail_added new (suc k) room new_in fresh e = tail_next new k room new_in fresh e

  tail_add-borrowed :
      length xs < size → tail_add v l ≡ tail_add_borrowed v l (borrow_node l.p_param)
  unfolding tail_add
  tail_add-borrowed room = ground (arith, is.ready, is.count, is.same_size)

  -- `mSingleListTailAdd` on a list with a node to spare puts a new cell at the end.
  pub tail_add-append :
      length xs < size → (new : ℕ) × Becomes (tail_add v l) (xs ++ ((new, v) ∷ []))
  tail_add-append room =
      let (new, new_in, fresh, e) = borrow_node-some is room in
      (
        new,
        rw (tail_add-borrowed room, e, ← insert_at_end xs (new, v))
            (tail_added new (length xs) room new_in fresh refl),
      )

  insert-borrowed :
      (k : ℕ)
      → length xs < size
      → suc k < length xs
      → insert (suc k) v l ≡ insert_borrowed (suc k) v l (borrow_node l.p_param)
  unfolding insert
  insert-borrowed k room inner = ground (arith, is.ready, is.count, is.same_size)

  insert_inner :
      (k : ℕ)
      → length xs < size
      → suc k < length xs
      → (new : ℕ) × Becomes (insert (suc k) v l) (insert_at (suc k) (new, v) xs)
  unfolding insert_borrowed
  insert_inner k room inner =
      let (new, new_in, fresh, e) = borrow_node-some is room in
      let p = take_node (l.p_param) new in
      let reached : node_pointer_get p current_head_node_number (suc k - 1) ≡ some (address xs k) =
        subst (λ n. node_pointer_get p current_head_node_number n ≡ some (address xs k))
          (omega arith)
          (node_pointer_get-address p current_head_node_number k xs
            (Linked-frame space p.p_node_space current_head_node_number xs is.linked
              (λ b h. ground arith))
            is.head_in (omega arith) is.fits) in
      (
        new,
        rw (insert-borrowed k room inner, e, reached)
            (insert_linked is v k new room new_in fresh inner),
      )

  insert-head : (room : length xs < size) → insert 0 v l ≡ head_add v l
  unfolding insert
  insert-head room = ground (arith, is.ready, is.count, is.same_size)

  insert-tail : (k : ℕ) → length xs < size → suc k ≡ length xs → insert (suc k) v l ≡ tail_add v l
  unfolding insert
  insert-tail k room e = ground (arith, is.ready, is.count, is.same_size)

  -- `mSingleListInsert` at a place up to the end of a list with a node to spare puts a new cell at
  -- that place.
  pub insert_lem :
      (k : ℕ)
      → length xs < size
      → k ≤ length xs
      → (new : ℕ) × Becomes (insert k v l) (insert_at k (new, v) xs)
  insert_lem zero room h = rw (insert-head room) (head_add-cons is v room)
  insert_lem (suc k) room h = elim (Bool-cases (suc k == length xs)) [
    | inl e ↦
        let at_end : suc k ≡ length xs = ground arith in
        let (new, done) = tail_add-append room in
        (new, rw (insert-tail k room at_end, at_end, insert_at_end xs (new, v)) done)
    | inr ne ↦ insert_inner k room (ground arith)
  ]
