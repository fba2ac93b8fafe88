-- ===== src/ListNode/Sequence.antt =====
-- A list of m_list_node.c behaves as the sequence of the numbers that its nodes hold.
use eclipse_code.Prelude.{
  Bool, false, Option, none, ◌∙◌, ℕ, ◌≤◌, ◌<◌, ◌≡◌, refl, ap, subst, true, some, List, [], ◌∷◌,
  ◌++◌, ltb, leb, ◌==◌, length, arith, Bool-cases, inl, inr, AppResult, app_successed,
  app_beyond_scope, app_already_done_before, app_param_error,
}
use eclipse_code.ListNode.{SingleLinkList, init}
use eclipse_code.ListNode.Cells.{
  Cells, values, length-values, insert_at, remove_at, values-insert_at, values-remove_at,
}
use eclipse_code.ListNode.Inv.{IsList}
use eclipse_code.ListNode.Edit.{tail_add, head_add, tail_remove, head_remove}
use eclipse_code.ListNode.Place.{
  insert, pull_away, information_get, updata_value, find_by_value, size_get, does_empty,
}
use eclipse_code.ListNode.Adds.{Becomes, head_add-cons}
use eclipse_code.ListNode.Insert.{tail_add-append, insert_lem}
use eclipse_code.ListNode.Pull.{tail_remove_lem, head_remove_lem, pull_away_lem}
use eclipse_code.ListNode.Values.{
  information_get-get_elem?, updata_value_lem, updata_value_beyond, init_lem, set_value,
  values-set_value, slot_of, find_by_value-slot_of,
}
use eclipse_code.ListNode.Spec
use eclipse_code.ListNode.Spec.{
  Op, add_head, add_tail, remove_head, remove_tail, insert_in, pull_out, clear, read_at, updata_at,
  size_of, ask_empty, find_value, holds_value, Reply, code, flag, number, removed_from, last_place,
}

abbrev coded : AppResult × SingleLinkList → Reply × SingleLinkList
coded (r, l) = (code r, l)

-- whether `mSingleListFindByValue` finds a node
abbrev found : Option ℕ → Bool
found none = false
found (some a) = true

-- A call of the header through valid pointers. `mSingleListClear` is `mSingleListInit`.
unfoldable pub step : Op → SingleLinkList → Reply × SingleLinkList
step (add_head v) l = coded (head_add v l)
step (add_tail v) l = coded (tail_add v l)
step remove_head l = coded (head_remove l)
step remove_tail l = coded (tail_remove l)
step (insert_in k v) l = coded (insert k v l)
step (pull_out k) l = coded (pull_away k l)
step clear l = (code app_successed, (init l).1)
step (read_at k) l = (number (information_get k true l), l)
step (updata_at k v) l = let (done, l') = updata_value k v l in (flag done, l')
step size_of l = (number (size_get true l), l)
step ask_empty l = (flag (does_empty l), l)
step (find_value v) l = (flag (found (find_by_value v true l)), l)

unfoldable pub run : List Op → SingleLinkList → List Reply
run [] l = []
run (op ∷ ops) l = let (r, l') = step op l in r ∷ run ops l'

-- the list stands for the sequence `vs`
abbrev pub Holds : SingleLinkList → List ℕ → Type 0
Holds l vs = (xs : Cells) × IsList l xs × (values xs ≡ vs)

size-step : (op : Op) (l : SingleLinkList) → (step op l).1.valid_node_number ≡ l.valid_node_number
unfolding step head_add tail_add head_remove tail_remove insert pull_away updata_value init
size-step (add_head v) l = ground arith
size-step (add_tail v) l = ground arith
size-step remove_head l = ground arith
size-step remove_tail l = ground arith
size-step (insert_in k v) l = ground arith
size-step (pull_out k) l = ground arith
size-step clear l = ground arith
size-step (read_at k) l = refl
size-step (updata_at k v) l = ground arith
size-step size_of l = refl
size-step ask_empty l = refl
size-step (find_value v) l = refl

-- the same reply, and a list that stands for the sequence
abbrev Refines : Reply × SingleLinkList → Reply × List ℕ → Type 0
Refines a b = (a.0 ≡ b.0) × Holds a.1 b.1

Refines-Becomes :
    (r : AppResult × SingleLinkList) (ys : Cells) (vs : List ℕ)
    → Becomes r ys
    → values ys ≡ vs
    → Refines (coded r) (code app_successed, vs)
Refines-Becomes r ys vs b e = (ap code b.0, (ys, b.1, e))

values-append : (xs : Cells) (a v : ℕ) → values (xs ++ ((a, v) ∷ [])) ≡ values xs ++ (v ∷ [])
values-append [] a v = refl
values-append (x ∷ xs) a v = ap (λ l. x.1 ∷ l) (values-append xs a v)

module _ {l : SingleLinkList} {xs : Cells} (is : IsList l xs) where
  open l use {valid_node_number as size}

  head_add-full : (v : ℕ) → size ≤ length xs → head_add v l ≡ (app_beyond_scope, l)
  unfolding head_add
  head_add-full v h = ground (arith, is.count)

  tail_add-full : (v : ℕ) → size ≤ length xs → tail_add v l ≡ (app_beyond_scope, l)
  unfolding tail_add
  tail_add-full v h = ground (arith, is.count)

  insert-full : (k v : ℕ) → size ≤ length xs → insert k v l ≡ (app_beyond_scope, l)
  unfolding insert
  insert-full k v h = ground (arith, is.ready, is.count)

  insert-beyond : (k v : ℕ) → length xs < size → length xs < k → insert k v l ≡ (app_param_error, l)
  unfolding insert
  insert-beyond k v h i = ground (arith, is.ready, is.count)

  head_remove-empty : length xs ≡ 0 → head_remove l ≡ (app_already_done_before, l)
  unfolding head_remove
  head_remove-empty h = ground (arith, is.ready, is.count, is.head_in, is.same_size)

  tail_remove-empty : length xs ≡ 0 → tail_remove l ≡ (app_already_done_before, l)
  unfolding tail_remove
  tail_remove-empty h = ground (arith, is.ready, is.count)

  pull_away-beyond : (k : ℕ) → length xs ≤ k → pull_away k l ≡ (app_param_error, l)
  unfolding pull_away
  pull_away-beyond k h = ground (arith, is.ready, is.count)

  size_get-length : size_get true l ≡ some (length (values xs))
  unfolding size_get
  size_get-length = ground (arith, is.count, length-values xs)

  does_empty-length : does_empty l ≡ (length (values xs) == 0)
  unfolding does_empty
  does_empty-length = ground (arith, is.count, length-values xs)

  refused : (r : AppResult) → Refines (code r, l) (code r, values xs)
  refused r = (refl, (xs, is, refl))

  add_head-Refines :
      (v : ℕ) → Refines (step (add_head v) l) (Spec.step size (add_head v) (values xs))
  unfolding step Spec.step
  add_head-Refines v = elim (Bool-cases (leb size (length (values xs)))) [
    | inl full ↦
        rw (full, head_add-full v (ground (arith, length-values xs))) (refused app_beyond_scope)
    | inr room ↦
        let (new, b) = head_add-cons is v (ground (arith, length-values xs, is.same_size)) in
        rw room (Refines-Becomes (head_add v l) ((new, v) ∷ xs) _ b refl)
  ]

  add_tail-Refines :
      (v : ℕ) → Refines (step (add_tail v) l) (Spec.step size (add_tail v) (values xs))
  unfolding step Spec.step
  add_tail-Refines v = elim (Bool-cases (leb size (length (values xs)))) [
    | inl full ↦
        rw (full, tail_add-full v (ground (arith, length-values xs))) (refused app_beyond_scope)
    | inr room ↦
        let (new, b) = tail_add-append is v (ground (arith, length-values xs, is.same_size)) in
        rw room
          (Refines-Becomes (tail_add v l) (xs ++ ((new, v) ∷ [])) _ b (values-append xs new v))
  ]

  insert_in-Refines :
      (k v : ℕ) → Refines (step (insert_in k v) l) (Spec.step size (insert_in k v) (values xs))
  unfolding step Spec.step
  insert_in-Refines k v = elim (Bool-cases (leb size (length (values xs)))) [
    | inl full ↦
        rw (full, insert-full k v (ground (arith, length-values xs))) (refused app_beyond_scope)
    | inr room ↦ elim (Bool-cases (ltb (length (values xs)) k)) [
      | inl beyond ↦
          rw
            (
              room,
              beyond,
              insert-beyond k v (ground (arith, length-values xs))
                  (ground (arith, length-values xs)),
            )
            (refused app_param_error)
      | inr inner ↦
          let (new, b) =
            insert_lem is v k (ground (arith, length-values xs, is.same_size))
              (ground (arith, length-values xs)) in
          rw (room, inner)
            (Refines-Becomes (insert k v l) (insert_at k (new, v) xs) _ b
              (values-insert_at k new v xs))
    ]
  ]

  pull_out-Refines :
      (k : ℕ) → Refines (step (pull_out k) l) (Spec.step size (pull_out k) (values xs))
  unfolding step Spec.step
  pull_out-Refines k = elim (Bool-cases (leb (length (values xs)) k)) [
    | inl beyond ↦
        rw (beyond, pull_away-beyond k (ground (arith, length-values xs))) (refused app_param_error)
    | inr inner ↦ rw inner (
        Refines-Becomes (pull_away k l) (remove_at k xs) _
          (pull_away_lem is k (ground (arith, length-values xs))) (values-remove_at k xs))
  ]

  updata_at-Refines :
      (k v : ℕ) → Refines (step (updata_at k v) l) (Spec.step size (updata_at k v) (values xs))
  unfolding step Spec.step
  updata_at-Refines k v = elim (Bool-cases (ltb k (length (values xs)))) [
    | inl inner ↦
        let (done, is') = updata_value_lem is k v (ground (arith, length-values xs)) in
        rw inner (ap flag done, (set_value xs k v, is', values-set_value xs k v))
    | inr beyond ↦
        rw (beyond, updata_value_beyond is k v (ground (arith, length-values xs)))
          (refl, (xs, is, refl))
  ]

remove_head-Refines :
    {l : SingleLinkList} (xs : Cells)
    → IsList l xs
    → Refines (coded (head_remove l)) (removed_from 0 (values xs))
unfolding removed_from
remove_head-Refines [] is = rw (head_remove-empty is refl) (refused is app_already_done_before)
remove_head-Refines {l} (x ∷ xs) is =
    Refines-Becomes (head_remove l) xs _ (head_remove_lem is (omega arith)) refl

remove_tail-Refines :
    {l : SingleLinkList} (xs : Cells)
    → IsList l xs
    → Refines (coded (tail_remove l)) (removed_from (last_place (values xs)) (values xs))
unfolding removed_from last_place
remove_tail-Refines [] is = rw (tail_remove-empty is refl) (refused is app_already_done_before)
remove_tail-Refines {l} (x ∷ xs) is =
    Refines-Becomes (tail_remove l) (remove_at (length (values xs)) (x ∷ xs)) _
      (tail_remove_lem is (length (values xs)) (omega (arith, length-values xs)))
      (values-remove_at (length (values xs)) (x ∷ xs))

found-slot_of : (v : ℕ) (xs : Cells) → found (slot_of v xs) ≡ holds_value v (values xs)
unfolding holds_value
found-slot_of v [] = refl
found-slot_of v ((a, w) ∷ xs) = elim (Bool-cases (w == v)) [
  | inl e ↦ rw e refl
  | inr e ↦ rw e (found-slot_of v xs)
]

step-values :
    (op : Op) {l : SingleLinkList} {xs : Cells}
    → IsList l xs
    → Refines (step op l) (Spec.step l.valid_node_number op (values xs))
unfolding step Spec.step
step-values (add_head v) is = add_head-Refines is v
step-values (add_tail v) is = add_tail-Refines is v
step-values remove_head {xs} is = remove_head-Refines xs is
step-values remove_tail {xs} is = remove_tail-Refines xs is
step-values (insert_in k v) is = insert_in-Refines is k v
step-values (pull_out k) is = pull_out-Refines is k
step-values clear {l} is =
    let (done, empty) =
      init_lem l (omega (arith, is.head_in, is.same_size)) (omega (arith, is.bound, is.same_size))
        is.same_size in
    (refl, ([], empty, refl))
step-values (read_at k) {xs} is = (ap number (information_get-get_elem? is k), (xs, is, refl))
step-values (updata_at k v) is = updata_at-Refines is k v
step-values size_of {l} {xs} is = (ap number (size_get-length is), (xs, is, refl))
step-values ask_empty {xs} is = (ap flag (does_empty-length is), (xs, is, refl))
step-values (find_value v) {xs} is =
    (ap flag (ap found (find_by_value-slot_of v is) ∙ found-slot_of v xs), (xs, is, refl))

-- Each call on a list gives the reply of the sequence that it stands for, and leaves it standing
-- for what the call makes of the sequence.
pub step_refines :
    (op : Op) {l : SingleLinkList} {vs : List ℕ}
    → Holds l vs
    → ((step op l).0 ≡ (Spec.step l.valid_node_number op vs).0)
      × Holds (step op l).1 (Spec.step l.valid_node_number op vs).1
step_refines op {l} {vs} (xs, is, e) =
    subst (λ ws. Refines (step op l) (Spec.step l.valid_node_number op ws)) e (step-values op is)

-- No sequence of calls of the header tells a list from the bounded sequence that it stands for: the
-- replies are the same, in order. Of `mSingleListFindByValue` the reply is whether it finds the value.
pub list_run_refines :
    (ops : List Op) {l : SingleLinkList} {vs : List ℕ}
    → Holds l vs
    → run ops l ≡ Spec.run l.valid_node_number ops vs
unfolding run Spec.run
list_run_refines [] h = refl
list_run_refines (op ∷ ops) {l} {vs} h =
    let (same, next) = step_refines op h in rw (same, list_run_refines ops next, size-step op l)
