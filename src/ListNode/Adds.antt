-- ===== src/ListNode/Adds.antt =====
-- Adding to a list of m_list_node.c: head, tail and insertion at a place.
use eclipse_code.Prelude.{
  ℕ, suc, ◌≤◌, ◌<◌, ◌≡◌, refl, sym, ◌∙◌, true, false, none, some, [], ◌∷◌, ◌==◌, if◌then◌else◌,
  length, arith, Bool-cases, ==_refl, inl, inr, AppResult, app_successed,
}
use eclipse_code.ListNode.{
  LinkListManager, Space, SingleLinkList, node_at, fill_node, take_node, set_next, borrow_node,
}
use eclipse_code.ListNode.Cells.{
  Cells, has, address, insert_at, Distinct, has-address, has-insert_at, Distinct-insert_at,
  length-insert_at,
}
use eclipse_code.ListNode.Chain.{Chain, frame, Chain-insert}
use eclipse_code.ListNode.Inv.{Linked, IsList, Linked-last, borrow_node-some}
use eclipse_code.ListNode.Edit.{tail_link, head_add, head_add_borrowed}
use eclipse_code.ListNode.Place.{insert_link}

-- The list after a new cell `(new, v)` at place `k`, from the facts about the node array.
module _ {l : SingleLinkList} {xs : Cells} (is : IsList l xs) (new v k : ℕ) where
  open l.p_param use {valid_node_number as size, p_node_space as space}

  pub added :
      (m : LinkListManager) (s : Space)
      → new < size
      → has new xs ≡ false
      → suc (length xs) ≤ size
      → m.is_init_ok ≡ true
      → m.current_head_node_number < size
      → m.used_node_num ≡ suc (length xs)
      → Linked s m.current_head_node_number (insert_at k (new, v) xs)
      → (s new).is_free ≡ false
      → ((b : ℕ) → ((s b).node_id_in_list_array ≡ (space b).node_id_in_list_array))
      → ((b : ℕ) → (b == new) ≡ false → (s b).is_free ≡ (space b).is_free)
      → IsList
          (record l { p_manager = m; p_param = record (l.p_param) { p_node_space = s } })
          (insert_at k (new, v) xs)
  added m s new_in fresh room ready head_in count linked taken ids free = record {
    ready = ready;
    same_size = is.same_size;
    bound = is.bound;
    head_in = head_in;
    count = count ∙ sym (length-insert_at k (new, v) xs);
    fits = omega (arith, length-insert_at k (new, v) xs);
    linked = linked;
    distinct = Distinct-insert_at k new v xs fresh is.distinct;
    inside = λ b h. ground (arith, has-insert_at b k new v xs, is.inside b);
    ids = λ b h. ids b ∙ is.ids b h;
    free = λ b h. elim (Bool-cases (b == new)) [
      | inl e ↦ ground (arith, has-insert_at b k new v xs)
      | inr e ↦ ground (arith, has-insert_at b k new v xs, free b, is.free b h)
    ];
  }

-- `r` is a success that leaves the list standing for `ys`.
abbrev pub Becomes : AppResult × SingleLinkList → Cells → Type 0
Becomes r ys = (r.0 ≡ app_successed) × IsList r.1 ys

Linked-Chain :
    (s : Space) (head n : ℕ) (xs : Cells)
    → Linked s head xs
    → n ≡ length xs
    → Chain s (if n == 0 then none else some head) xs
Linked-Chain s head n [] c e = ground arith
Linked-Chain s head n (x ∷ xs) c e = let used : (n == 0) ≡ false = ground arith in rw used c

module _ {l : SingleLinkList} {xs : Cells} (is : IsList l xs) (v : ℕ) where
  open l.p_param use {valid_node_number as size, p_node_space as space}
  open l.p_manager use {used_node_num, current_head_node_number}

  head_add-borrowed :
      length xs < size → head_add v l ≡ head_add_borrowed v l (borrow_node l.p_param)
  unfolding head_add
  head_add-borrowed room = ground (arith, is.ready, is.count, is.same_size, is.head_in)

  head_added :
      (new : ℕ)
      → length xs < size
      → new < size
      → has new xs ≡ false
      → Becomes (head_add_borrowed v l (some new, take_node (l.p_param) new)) ((new, v) ∷ xs)
  unfolding head_add_borrowed
  head_added new room new_in fresh =
      let old = if used_node_num == 0 then none else some current_head_node_number in
      let s : Space = (fill_node (take_node (l.p_param) new) new v old).p_node_space in
      let behind : Chain s old xs =
        frame space s old xs
          (Linked-Chain space current_head_node_number used_node_num xs is.linked is.count)
          (λ b h. ground arith) in
      (
        refl,
        added is new v 0 _ s new_in fresh room is.ready (ground (arith, is.ids new))
            (omega (arith, is.count, is.bound, is.fits))
            (ground (arith, is.ids new), ground arith, rw (==_refl new) behind) (ground arith)
            (λ b. ground arith) (λ b h. ground arith),
      )

  -- `mSingleListHeadAdd` on a list with a node to spare puts a new cell in front.
  pub head_add-cons : length xs < size → (new : ℕ) × Becomes (head_add v l) ((new, v) ∷ xs)
  head_add-cons room =
      let (new, new_in, fresh, e) = borrow_node-some is room in
      (new, rw (head_add-borrowed room, e) (head_added new room new_in fresh))

-- A cell behind the one at place `k`: what the writes to the two nodes must be, in any order.
Linked-insert :
    (s s' : Space) (k new v head : ℕ) (xs : Cells)
    → Linked s head xs
    → Distinct xs
    → k < length xs
    → has new xs ≡ false
    → (s' (address xs k)).next_ptr ≡ some new
    → (s' (address xs k)).extern_information ≡ (s (address xs k)).extern_information
    → (s' new).next_ptr ≡ (s (address xs k)).next_ptr
    → (s' new).extern_information ≡ v
    → ((b : ℕ) → (b == new) ≡ false → (b == address xs k) ≡ false → s' b ≡ s b)
    → Linked s' head (insert_at (suc k) (new, v) xs)
Linked-insert s s' k new v head [] c d h fresh n e n' e' same = absurd (omega arith)
Linked-insert s s' k new v head (x ∷ xs) c d h fresh n e n' e' same =
    Chain-insert s s' k new v (some head) (x ∷ xs) c d h n e n' e'
      (λ b i j. same b (ground arith) j)

module _ {l : SingleLinkList} {xs : Cells} (is : IsList l xs) (v k new : ℕ) where
  open l.p_param use {valid_node_number as size, p_node_space as space}
  open l.p_manager use {used_node_num, current_head_node_number}

  pub tail_linked :
      length xs < size
      → new < size
      → has new xs ≡ false
      → suc k ≡ length xs
      → Becomes
          (tail_link l new (fill_node (take_node (l.p_param) new) new v none) (some (address xs k)))
          (insert_at (suc k) (new, v) xs)
  unfolding tail_link
  tail_linked room new_in fresh last =
      let other : (address xs k == new) ≡ false = ground (arith, has-address k xs) in
      let other' : (new == address xs k) ≡ false = ground arith in
      let s : Space =
        (set_next (fill_node (take_node (l.p_param) new) new v none) (address xs k)
          (some new)).p_node_space in
      (
        refl,
        added is new v (suc k) _ s new_in fresh room is.ready is.head_in
            (omega (arith, is.count, is.bound, is.fits))
            (Linked-insert space s k new v current_head_node_number xs is.linked is.distinct
              (omega arith) fresh (ground arith) (ground arith)
              (ground (arith, Linked-last space current_head_node_number k xs is.linked last))
              (ground arith) (λ b i j. ground arith))
            (ground arith) (λ b. ground arith) (λ b h. ground arith),
      )

  pub insert_linked :
      length xs < size
      → new < size
      → has new xs ≡ false
      → suc k < length xs
      → Becomes
          (insert_link v l new (take_node (l.p_param) new) (some (address xs k)))
          (insert_at (suc k) (new, v) xs)
  unfolding insert_link
  insert_linked room new_in fresh inner =
      let other : (address xs k == new) ≡ false = ground (arith, has-address k xs) in
      let other' : (new == address xs k) ≡ false = ground arith in
      let p = set_next (take_node (l.p_param) new) (address xs k) (some new) in
      let s : Space =
        (fill_node p new v
          (node_at (take_node (l.p_param) new) (address xs k)).next_ptr).p_node_space in
      (
        refl,
        added is new v (suc k) _ s new_in fresh room is.ready is.head_in
            (omega (arith, is.count, is.bound, is.fits))
            (Linked-insert space s k new v current_head_node_number xs is.linked is.distinct
              (omega arith) fresh (ground arith) (ground arith) (ground arith) (ground arith)
              (λ b i j. ground arith))
            (ground arith) (λ b. ground arith) (λ b h. ground arith),
      )
