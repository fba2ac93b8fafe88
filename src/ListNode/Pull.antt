-- ===== src/ListNode/Pull.antt =====
-- `mSingleListTailRemove`, `mSingleListHeadRemove` and `mSingleListPullAway` of m_list_node.c: which
-- cell goes.
use eclipse_code.Prelude.{
  ℕ, zero, suc, ◌+◌, ◌-◌, ◌<◌, ◌≡◌, refl, true, false, none, some, [], ◌∷◌, ltb, leb, ◌==◌, not,
  length, arith, Bool-cases, inl, inr, ◌⊎◌,
}
use eclipse_code.ListNode.{Space, SingleLinkList, node_at, write_node, set_next, node_pointer_get}
use eclipse_code.ListNode.Cells.{Cells, address, remove_at, Distinct, address-ne}
use eclipse_code.ListNode.Chain.{frame}
use eclipse_code.ListNode.Inv.{Linked, IsList, Linked-last, return_node_lem}
use eclipse_code.ListNode.Edit.{tail_remove, tail_unlink, head_remove, head_remove_second}
use eclipse_code.ListNode.Place.{pull_away, pull_unlink}
use eclipse_code.ListNode.Adds.{Becomes}
use eclipse_code.ListNode.Removes.{
  removed, address_in, id-address, Linked-remove, reached, pull_unlinked,
}

Linked-only : (s : Space) (head : ℕ) (xs : Cells) → 1 ≡ length xs → Linked s head (remove_at 0 xs)
Linked-only s head [] h = absurd (omega arith)
Linked-only s head (x ∷ []) h = tt
Linked-only s head (x ∷ y ∷ xs) h = absurd (omega arith)

Linked-head :
    (s : Space) (head : ℕ) (xs : Cells) → Linked s head xs → 0 < length xs → head ≡ address xs 0
Linked-head s head [] c h = absurd (omega arith)
Linked-head s head (x ∷ xs) c h = cc (c.0)

-- The chain from the second node on.
Linked-tail :
    (s s' : Space) (head head' : ℕ) (xs : Cells)
    → Linked s head xs
    → Distinct xs
    → (1 < length xs → head' ≡ address xs 1)
    → ((b : ℕ) → (b == address xs 0) ≡ false → s' b ≡ s b)
    → Linked s' head' (remove_at 0 xs)
Linked-tail s s' head head' [] c d e same = tt
Linked-tail s s' head head' (x ∷ []) c d e same = tt
Linked-tail s s' head head' ((a, v) ∷ (b, w) ∷ xs) c d e same =
    rw (e (omega arith))
      (frame s s' (some b) ((b, w) ∷ xs) (refl, c.2.1, c.2.2) (λ z i. same z (ground arith)))

module _ {l : SingleLinkList} {xs : Cells} (is : IsList l xs) where
  open l.p_param use {valid_node_number as size, p_node_space as space}
  open l.p_manager use {used_node_num, current_head_node_number}

  tail_unlinked :
      (k : ℕ)
      → suc (suc k) ≡ length xs
      → Becomes
          (tail_unlink l (some (address xs (suc k))) (some (address xs k)))
          (remove_at (suc k) xs)
  unfolding tail_unlink
  tail_unlinked k h =
      let previous = address xs k in
      let current = address xs (suc k) in
      let other : (previous == current) ≡ false =
        address-ne k (suc k) xs is.distinct (omega arith) (omega arith) in
      let other' : (current == previous) ≡ false = ground arith in
      let p = set_next (l.p_param) previous none in
      let id : (node_at p current).node_id_in_list_array ≡ current =
        ground (arith, id-address is (suc k) (omega arith)) in
      let s : Space =
        (write_node p current
          (record (node_at p current) { is_free = true; next_ptr = none })).p_node_space in
      rw (id, return_node_lem current p (address_in is (suc k) (omega arith)))
        (
          refl,
          removed is (suc k) (omega arith) _ s is.ready is.head_in
              (omega (arith, is.count, is.fits, is.bound))
              (Linked-remove space s k current_head_node_number xs is.linked is.distinct
                (omega arith)
                (ground (arith, Linked-last space current_head_node_number (suc k) xs is.linked h))
                (ground arith) (λ b i j. ground arith))
              (ground arith) (λ b. ground arith) (λ b i. ground arith),
        )

  tail_unlinked_only :
      1 ≡ length xs
      → Becomes (tail_unlink l (some (address xs 0)) (some (address xs 0))) (remove_at 0 xs)
  unfolding tail_unlink
  tail_unlinked_only h =
      let current = address xs 0 in
      let p = set_next (l.p_param) current none in
      let id : (node_at p current).node_id_in_list_array ≡ current =
        ground (arith, id-address is 0 (omega arith)) in
      let s : Space =
        (write_node p current
          (record (node_at p current) { is_free = true; next_ptr = none })).p_node_space in
      rw (id, return_node_lem current p (address_in is 0 (omega arith)))
        (
          refl,
          removed is 0 (omega arith) _ s is.ready is.head_in
              (omega (arith, is.count, is.fits, is.bound))
              (Linked-only s current_head_node_number xs h) (ground arith) (λ b. ground arith)
              (λ b i. ground arith),
        )

  at_place :
      (n k : ℕ)
      → n ≡ k
      → k < length xs
      → node_pointer_get (l.p_param) current_head_node_number n ≡ some (address xs k)
  at_place n k e h = rw e (reached is k h)

  -- `mSingleListTailRemove` takes the last cell off.
  pub tail_remove_lem : (k : ℕ) → suc k ≡ length xs → Becomes (tail_remove l) (remove_at k xs)
  unfolding tail_remove
  tail_remove_lem zero h =
      let ready : not l.p_manager.is_init_ok ≡ false = ground (arith, is.ready) in
      let some_used : ltb 0 used_node_num ≡ true = ground (arith, is.count) in
      let one : (used_node_num == 1) ≡ true = ground (arith, is.count) in
      rw
        (
          ready,
          some_used,
          one,
          at_place (used_node_num - 1) 0 (omega (arith, is.count)) (omega arith),
        )
        (tail_unlinked_only h)
  tail_remove_lem (suc k) h =
      let ready : not l.p_manager.is_init_ok ≡ false = ground (arith, is.ready) in
      let some_used : ltb 0 used_node_num ≡ true = ground (arith, is.count) in
      let more : (used_node_num == 1) ≡ false = ground (arith, is.count) in
      rw
        (
          ready,
          some_used,
          more,
          at_place (used_node_num - 1) (suc k) (omega (arith, is.count)) (omega arith),
          at_place (used_node_num - 2) k (omega (arith, is.count)) (omega arith),
        )
        (tail_unlinked k h)

  head_unlinked :
      (second : ℕ)
      → 0 < length xs
      → (second == address xs 0) ≡ false ⊎ (length xs ≡ 1)
      → second < size
      → (1 < length xs → second ≡ address xs 1)
      → Becomes (head_remove_second l (some second)) (remove_at 0 xs)
  unfolding head_remove_second
  head_unlinked second h apart inside e =
      let first = address xs 0 in
      let at : current_head_node_number ≡ first =
        Linked-head space current_head_node_number xs is.linked h in
      let id : (node_at (l.p_param) current_head_node_number).node_id_in_list_array ≡ first =
        ground (arith, id-address is 0 h) in
      let s : Space =
        (write_node (l.p_param) first
          (record (node_at (l.p_param) first) { is_free = true; next_ptr = none })).p_node_space in
      let id' : (s second).node_id_in_list_array ≡ second = ground (arith, is.ids second) in
      rw (id, return_node_lem first (l.p_param) (address_in is 0 h))
        (
          refl,
          removed is 0 h _ s is.ready (rw id' inside) (omega (arith, is.count, is.fits, is.bound))
              (rw id' (
                Linked-tail space s current_head_node_number second xs is.linked is.distinct e
                  (λ b i. ground arith)))
              (ground arith) (λ b. ground arith) (λ b i. ground arith),
        )

  -- `mSingleListHeadRemove` takes the first cell off.
  pub head_remove_lem : 0 < length xs → Becomes (head_remove l) (remove_at 0 xs)
  unfolding head_remove
  head_remove_lem h =
      let room : leb l.valid_node_number current_head_node_number ≡ false =
        ground (arith, is.head_in, is.same_size) in
      let ready : not l.p_manager.is_init_ok ≡ false = ground (arith, is.ready) in
      let some_used : ltb 0 used_node_num ≡ true = ground (arith, is.count) in
      elim (Bool-cases (used_node_num == 1)) [
        | inl one ↦
            rw (room, ready, some_used, one)
              (head_unlinked current_head_node_number h (inr (ground (arith, is.count))) is.head_in
                (λ i. absurd (ground (arith, is.count))))
        | inr more ↦
            let i : 1 < length xs = ground (arith, is.count) in
            rw (room, ready, some_used, more, reached is 1 i)
              (head_unlinked (address xs 1) h (inl (ground (arith, address-ne 0 1 xs is.distinct)))
                (address_in is 1 i) (λ j. refl))
      ]

  pull_away-tail : (k : ℕ) → suc k ≡ length xs → pull_away k l ≡ tail_remove l
  unfolding pull_away
  pull_away-tail k h = ground (arith, is.ready, is.count)

  pull_away-head : 1 < length xs → pull_away 0 l ≡ head_remove l
  unfolding pull_away
  pull_away-head h = ground (arith, is.ready, is.count)

  pull_away-inner :
      (k : ℕ)
      → suc (suc k) < length xs
      → pull_away (suc k) l
        ≡ pull_unlink l
            (some (address xs (suc k)))
            (some (address xs k))
            (some (address xs (suc (suc k))))
  unfolding pull_away
  pull_away-inner k h = ground (
    arith,
    is.ready,
    is.count,
    reached is (suc k),
    at_place (suc k - 1) k,
    at_place (suc k + 1) (suc (suc k)),
  )

  pull_earlier : (k : ℕ) → suc k < length xs → Becomes (pull_away k l) (remove_at k xs)
  pull_earlier zero h = rw (pull_away-head h) (head_remove_lem (omega arith))
  pull_earlier (suc k) h = rw (pull_away-inner k h) (pull_unlinked is k h)

  -- `mSingleListPullAway` takes off the cell at a place of the list.
  pub pull_away_lem : (k : ℕ) → k < length xs → Becomes (pull_away k l) (remove_at k xs)
  pull_away_lem k h = elim (Bool-cases (suc k == length xs)) [
    | inl e ↦
        let last : suc k ≡ length xs = ground arith in
        rw (pull_away-tail k last) (tail_remove_lem k last)
    | inr ne ↦ pull_earlier k (ground arith)
  ]
