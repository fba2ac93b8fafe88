-- ===== src/ListNode/Removes.antt =====
-- Removing from a list of m_list_node.c: head, tail and pulling away at a place.
use eclipse_code.Prelude.{
  ℕ, suc, ◌<◌, ◌≡◌, refl, ◌∙◌, true, false, none, some, [], ◌∷◌, ◌==◌, length, arith, Bool-cases,
  inl, inr,
}
use eclipse_code.ListNode.{
  LinkListManager, Space, SingleLinkList, node_at, write_node, set_next, node_pointer_get,
}
use eclipse_code.ListNode.Cells.{
  Cells, has, address, remove_at, Distinct, has-address, has-remove_at, not-has-remove_at,
  Distinct-remove_at, length-remove_at, address-ne,
}
use eclipse_code.ListNode.Chain.{Chain-remove}
use eclipse_code.ListNode.Inv.{
  Linked, IsList, Linked-next, node_pointer_get-address, return_node_lem,
}
use eclipse_code.ListNode.Place.{pull_unlink}
use eclipse_code.ListNode.Adds.{Becomes}

has-remove_at-has : (b k : ℕ) (xs : Cells) → has b (remove_at k xs) ≡ true → has b xs ≡ true
has-remove_at-has b k xs h = elim (Bool-cases (has b xs)) [
  | inl yes_has ↦ yes_has
  | inr not_has ↦ cc (not-has-remove_at b k xs not_has)
]

module _ {l : SingleLinkList} {xs : Cells} (is : IsList l xs) (k : ℕ) (k_in : k < length xs) where
  open l.p_param use {valid_node_number as size, p_node_space as space}

  -- The list without the cell at place `k`, from the facts about the node array.
  pub removed :
      (m : LinkListManager) (s : Space)
      → m.is_init_ok ≡ true
      → m.current_head_node_number < size
      → suc m.used_node_num ≡ length xs
      → Linked s m.current_head_node_number (remove_at k xs)
      → (s (address xs k)).is_free ≡ true
      → ((b : ℕ) → (s b).node_id_in_list_array ≡ (space b).node_id_in_list_array)
      → ((b : ℕ) → (b == address xs k) ≡ false → (s b).is_free ≡ (space b).is_free)
      → IsList
          (record l { p_manager = m; p_param = record (l.p_param) { p_node_space = s } })
          (remove_at k xs)
  removed m s ready head_in count linked freed ids free = record {
    ready = ready;
    same_size = is.same_size;
    bound = is.bound;
    head_in = head_in;
    count = omega (arith, length-remove_at k xs k_in);
    fits = omega (arith, length-remove_at k xs k_in, is.fits);
    linked = linked;
    distinct = Distinct-remove_at k xs is.distinct;
    inside = λ b h. is.inside b (has-remove_at-has b k xs h);
    ids = λ b h. ids b ∙ is.ids b h;
    free = λ b h. elim (Bool-cases (b == address xs k)) [
      | inl e ↦ ground (arith, has-remove_at b k xs is.distinct k_in)
      | inr e ↦ ground (arith, has-remove_at b k xs is.distinct k_in, free b, is.free b h)
    ];
  }

  pub address_in : address xs k < size
  address_in = is.inside (address xs k) (has-address k xs k_in)

  pub id-address : (node_at (l.p_param) (address xs k)).node_id_in_list_array ≡ address xs k
  id-address = is.ids (address xs k) address_in

-- The cell behind the one at place `k` goes: what the writes to the nodes must be.
pub Linked-remove :
    (s s' : Space) (k head : ℕ) (xs : Cells)
    → Linked s head xs
    → Distinct xs
    → suc k < length xs
    → (s' (address xs k)).next_ptr ≡ (s (address xs (suc k))).next_ptr
    → (s' (address xs k)).extern_information ≡ (s (address xs k)).extern_information
    → ((b : ℕ) → (b == address xs k) ≡ false → (b == address xs (suc k)) ≡ false → s' b ≡ s b)
    → Linked s' head (remove_at (suc k) xs)
Linked-remove s s' k head [] c d h n e same = absurd (omega arith)
Linked-remove s s' k head (x ∷ xs) c d h n e same =
    Chain-remove s s' k (some head) (x ∷ xs) c d h n e (λ b i j t. same b j t)

module _ {l : SingleLinkList} {xs : Cells} (is : IsList l xs) where
  open l.p_param use {valid_node_number as size, p_node_space as space}
  open l.p_manager use {used_node_num, current_head_node_number}

  pub reached :
      (k : ℕ)
      → k < length xs
      → node_pointer_get (l.p_param) current_head_node_number k ≡ some (address xs k)
  reached k h =
      node_pointer_get-address (l.p_param) current_head_node_number k xs is.linked is.head_in h
        is.fits

  pub pull_unlinked :
      (k : ℕ)
      → suc (suc k) < length xs
      → Becomes
          (pull_unlink l
            (some (address xs (suc k)))
            (some (address xs k))
            (some (address xs (suc (suc k)))))
          (remove_at (suc k) xs)
  unfolding pull_unlink
  pull_unlinked k h =
      let left = address xs k in
      let drop = address xs (suc k) in
      let other : (left == drop) ≡ false =
        address-ne k (suc k) xs is.distinct (omega arith) (omega arith) in
      let other' : (drop == left) ≡ false = ground arith in
      let p = set_next (l.p_param) left (some (address xs (suc (suc k)))) in
      let id : (node_at p drop).node_id_in_list_array ≡ drop =
        ground (arith, id-address is (suc k) (omega arith)) in
      let s : Space =
        (write_node p drop
          (record (node_at p drop) { is_free = true; next_ptr = none })).p_node_space in
      rw (id, return_node_lem drop p (address_in is (suc k) (omega arith)))
        (
          refl,
          removed is (suc k) (omega arith) _ s is.ready is.head_in
              (omega (arith, is.count, is.fits, is.bound))
              (Linked-remove space s k current_head_node_number xs is.linked is.distinct
                (omega arith)
                (ground (arith, Linked-next space current_head_node_number (suc k) xs is.linked h))
                (ground arith) (λ b i j. ground arith))
              (ground arith) (λ b. ground arith) (λ b i. ground arith),
        )
