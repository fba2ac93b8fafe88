-- ===== src/ListNode/Values.antt =====
-- The information that the nodes of a list of m_list_node.c hold: reading and updating it at a
-- place, looking it up, and the list after `mSingleListInit`.
use eclipse_code.Prelude.{
  ℕ, zero, suc, ◌+◌, ◌≤◌, ◌<◌, ◌≡◌, refl, ap, sym, ◌∙◌, true, false, Option, none, some, [], ◌∷◌,
  ltb, ◌==◌, if◌then◌else◌, length, get_elem?, set, arith, Bool-cases, inl, inr,
}
use eclipse_code.ListNode.{
  LinkListParam, ListNodeSpace, Space, SingleLinkList, my_max_node_count, node_at, write_node,
  init_loop, init,
}
use eclipse_code.ListNode.Cells.{Cells, has, address, values, Distinct, has-address}
use eclipse_code.ListNode.Chain.{Chain, frame}
use eclipse_code.ListNode.Inv.{Linked, IsList}
use eclipse_code.ListNode.Place.{
  node_in_use, information_get, updata_value, find_loop, find_by_value,
}
use eclipse_code.ListNode.Adds.{Becomes}
use eclipse_code.ListNode.Removes.{reached}

-- new information at place `k`
abbrev pub set_value : Cells → ℕ → ℕ → Cells
set_value [] k v = []
set_value ((a, w) ∷ xs) zero v = (a, v) ∷ xs
set_value ((a, w) ∷ xs) (suc k) v = (a, w) ∷ set_value xs k v

pub values-set_value : (xs : Cells) (k v : ℕ) → values (set_value xs k v) ≡ set (values xs) k v
values-set_value [] k v = refl
values-set_value ((a, w) ∷ xs) zero v = refl
values-set_value ((a, w) ∷ xs) (suc k) v = ap (λ l. w ∷ l) (values-set_value xs k v)

length-set_value : (xs : Cells) (k v : ℕ) → length (set_value xs k v) ≡ length xs
length-set_value [] k v = refl
length-set_value ((a, w) ∷ xs) zero v = refl
length-set_value ((a, w) ∷ xs) (suc k) v = ap suc (length-set_value xs k v)

has-set_value : (b : ℕ) (xs : Cells) (k v : ℕ) → has b (set_value xs k v) ≡ has b xs
has-set_value b [] k v = refl
has-set_value b ((a, w) ∷ xs) zero v = refl
has-set_value b ((a, w) ∷ xs) (suc k) v = ground (arith, has-set_value b xs k v)

Distinct-set_value : (xs : Cells) (k v : ℕ) → Distinct xs → Distinct (set_value xs k v)
Distinct-set_value [] k v d = tt
Distinct-set_value ((a, w) ∷ xs) zero v d = d
Distinct-set_value ((a, w) ∷ xs) (suc k) v d =
    (has-set_value a xs k v ∙ d.0, Distinct-set_value xs k v d.1)

module _ (s s' : Space) where
  Chain-set :
      (k v : ℕ) (p : Option ℕ) (xs : Cells)
      → Chain s p xs
      → Distinct xs
      → k < length xs
      → (s' (address xs k)).next_ptr ≡ (s (address xs k)).next_ptr
      → (s' (address xs k)).extern_information ≡ v
      → ((b : ℕ) → (b == address xs k) ≡ false → s' b ≡ s b)
      → Chain s' p (set_value xs k v)
  Chain-set k v p [] c d h n e same = absurd (omega arith)
  Chain-set zero v p ((a, w) ∷ xs) c d h n e same =
      (c.0, e, rw n (frame s s' (s a).next_ptr xs c.2 (λ b i. same b (ground arith))))
  Chain-set (suc k) v p ((a, w) ∷ xs) c d h n e same =
      let at : s' a ≡ s a = same a (ground (arith, has-address k xs)) in
      (c.0, rw at (c.1), rw at (Chain-set k v (s a).next_ptr xs c.2 d.1 (omega arith) n e same))

  Linked-set :
      (k v head : ℕ) (xs : Cells)
      → Linked s head xs
      → Distinct xs
      → k < length xs
      → (s' (address xs k)).next_ptr ≡ (s (address xs k)).next_ptr
      → (s' (address xs k)).extern_information ≡ v
      → ((b : ℕ) → (b == address xs k) ≡ false → s' b ≡ s b)
      → Linked s' head (set_value xs k v)
  Linked-set k v head [] c d h n e same = absurd (omega arith)
  Linked-set zero v head (x ∷ xs) c d h n e same =
      Chain-set zero v (some head) (x ∷ xs) c d h n e same
  Linked-set (suc k) v head (x ∷ xs) c d h n e same =
      Chain-set (suc k) v (some head) (x ∷ xs) c d h n e same

Chain-value :
    (s : Space) (k : ℕ) (p : Option ℕ) (xs : Cells)
    → Chain s p xs
    → k < length xs
    → get_elem? (values xs) k ≡ some (s (address xs k)).extern_information
Chain-value s k p [] c h = absurd (omega arith)
Chain-value s zero p ((a, v) ∷ xs) c h = ap some (sym c.1)
Chain-value s (suc k) p ((a, v) ∷ xs) c h = Chain-value s k (s a).next_ptr xs c.2 (omega arith)

Linked-value :
    (s : Space) (k head : ℕ) (xs : Cells)
    → Linked s head xs
    → k < length xs
    → get_elem? (values xs) k ≡ some (s (address xs k)).extern_information
Linked-value s k head [] c h = absurd (omega arith)
Linked-value s k head (x ∷ xs) c h = Chain-value s k (some head) (x ∷ xs) c h

get_elem?_beyond : (k : ℕ) (xs : Cells) → length xs ≤ k → get_elem? (values xs) k ≡ none
get_elem?_beyond k [] h = refl
get_elem?_beyond zero (x ∷ xs) h = absurd (omega arith)
get_elem?_beyond (suc k) (x ∷ xs) h = get_elem?_beyond k xs (omega arith)

-- the number in the array of the first node with the information `v`
abbrev pub slot_of : ℕ → Cells → Option ℕ
slot_of v [] = none
slot_of v ((a, w) ∷ xs) = if w == v then some a else slot_of v xs

find_loop-slot_of :
    (p : LinkListParam) (v a w : ℕ) (xs : Cells)
    → Chain p.p_node_space (some a) ((a, w) ∷ xs)
    → ((b : ℕ) → has b ((a, w) ∷ xs) ≡ true → (node_at p b).node_id_in_list_array ≡ b)
    → find_loop (suc (length xs)) v p a ≡ slot_of v ((a, w) ∷ xs)
unfolding find_loop
find_loop-slot_of p v a w [] c ids = ground (arith, ids a)
find_loop-slot_of p v a w ((b, u) ∷ xs) c ids =
    rw (c.1, ids a (ground arith), c.2.0, find_loop)
      (ap (λ r. if w == v then some a else r)
        (find_loop-slot_of p v b u xs (refl, c.2.1, c.2.2) (λ z h. ids z (ground arith))))

module _ {l : SingleLinkList} {xs : Cells} (is : IsList l xs) where
  open l.p_param use {valid_node_number as size, p_node_space as space}
  open l.p_manager use {used_node_num, current_head_node_number}

  node_in_use-some : (k : ℕ) → k < length xs → node_in_use k l ≡ some (address xs k)
  unfolding node_in_use
  node_in_use-some k h = ground (arith, is.ready, is.count, reached is k)

  node_in_use-none : (k : ℕ) → length xs ≤ k → node_in_use k l ≡ none
  unfolding node_in_use
  node_in_use-none k h = ground (arith, is.ready, is.count)

  -- `mSingleListInformationGetByNodeNumber` reads the information at a place of the list, and fails
  -- beyond its end.
  pub information_get-get_elem? : (k : ℕ) → information_get k true l ≡ get_elem? (values xs) k
  unfolding information_get
  information_get-get_elem? k = elim (Bool-cases (ltb k (length xs))) [
    | inl h ↦
        rw (node_in_use-some k (ground arith))
          (sym (Linked-value space k current_head_node_number xs is.linked (ground arith)))
    | inr h ↦ rw (node_in_use-none k (ground arith)) (sym (get_elem?_beyond k xs (ground arith)))
  ]

  pub updata_value_lem :
      (k v : ℕ)
      → k < length xs
      → ((updata_value k v l).0 ≡ true) × IsList (updata_value k v l).1 (set_value xs k v)
  unfolding updata_value
  updata_value_lem k v h =
      let s : Space =
        (write_node (l.p_param) (address xs k)
          (record (node_at (l.p_param) (address xs k)) { extern_information = v })).p_node_space in
      rw (node_in_use-some k h, updata_value)
        (
          refl,
          record {
            ready = is.ready;
            same_size = is.same_size;
            bound = is.bound;
            head_in = is.head_in;
            count = omega (arith, is.count, length-set_value xs k v);
            fits = omega (arith, is.fits, length-set_value xs k v);
            linked =
                Linked-set space s k v current_head_node_number xs is.linked is.distinct h
                  (ground arith) (ground arith) (λ b i. ground arith);
            distinct = Distinct-set_value xs k v is.distinct;
            inside = λ b i. is.inside b (ground (arith, has-set_value b xs k v));
            ids = λ b i. ground (arith, is.ids b i);
            free = λ b i. ground (arith, is.free b i, has-set_value b xs k v);
          },
        )

  pub updata_value_beyond : (k v : ℕ) → length xs ≤ k → updata_value k v l ≡ (false, l)
  unfolding updata_value
  updata_value_beyond k v h = rw (node_in_use-none k h, updata_value)

find_slot :
    (p : LinkListParam) (v head : ℕ) (xs : Cells)
    → Linked p.p_node_space head xs
    → ((b : ℕ) → has b xs ≡ true → (node_at p b).node_id_in_list_array ≡ b)
    → (if length xs == 0 then none else find_loop (length xs) v p head) ≡ slot_of v xs
find_slot p v head [] c ids = refl
find_slot p v head ((a, w) ∷ xs) c ids =
    let at : head ≡ a = cc (c.0) in
    let some_cell : (length ((a, w) ∷ xs) == 0) ≡ false = ground arith in
    rw (some_cell, at) (find_loop-slot_of p v a w xs (refl, c.1, c.2) ids)

-- `mSingleListFindByValue` hands back the number in the array of the first node with the value; it
-- fails if no node has it.
pub find_by_value-slot_of :
    (v : ℕ) {l : SingleLinkList} {xs : Cells} → IsList l xs → find_by_value v true l ≡ slot_of v xs
unfolding find_by_value
find_by_value-slot_of v {l} {xs} is = ground (
  arith,
  is.ready,
  is.count,
  is.head_in,
  is.same_size,
  find_slot (l.p_param) v (l.p_manager.current_head_node_number) xs is.linked
      (λ b h. is.ids b (is.inside b h)),
)

-- the node that `mSingleListInit` leaves at `a`
abbrev fresh_node : ℕ → ListNodeSpace
fresh_node a = record {
  is_free = true;
  node_id_in_list_array = a;
  extern_information = 0;
  next_ptr = none;
}

init_loop_before :
    (n i : ℕ) (p : LinkListParam) (a : ℕ) → a < i → node_at (init_loop n i p) a ≡ node_at p a
unfolding init_loop
init_loop_before zero i p a h = refl
init_loop_before (suc n) i p a h =
    init_loop_before n (i + 1) (write_node p i (fresh_node i)) a (omega arith) ∙ ground arith

init_loop_lem :
    (n i : ℕ) (p : LinkListParam) (a : ℕ)
    → i ≤ a
    → a < i + n
    → node_at (init_loop n i p) a ≡ fresh_node a
unfolding init_loop
init_loop_lem zero i p a h k = absurd (omega arith)
init_loop_lem (suc n) i p a h k = elim (Bool-cases (a == i)) [
  | inl e ↦
      init_loop_before n (i + 1) (write_node p i (fresh_node i)) a (ground arith) ∙ ground arith
  | inr e ↦ init_loop_lem n (i + 1) (write_node p i (fresh_node i)) a (ground arith) (omega arith)
]

valid_node_number-init_loop :
    (n i : ℕ) (p : LinkListParam) → (init_loop n i p).valid_node_number ≡ p.valid_node_number
unfolding init_loop
valid_node_number-init_loop zero i p = refl
valid_node_number-init_loop (suc n) i p =
    valid_node_number-init_loop n (i + 1) (write_node p i (fresh_node i))

-- `mSingleListInit` of a list with 1 to 100 nodes, as many as its pool has, leaves it empty, whatever
-- it held.
pub init_lem :
    (l : SingleLinkList)
    → 0 < l.valid_node_number
    → l.valid_node_number ≤ my_max_node_count
    → l.valid_node_number ≡ l.p_param.valid_node_number
    → Becomes (init l) []
unfolding init
init_lem l h k e =
    let size = l.p_param.valid_node_number in
    let same : (init_loop size 0 (l.p_param)).valid_node_number ≡ size =
      valid_node_number-init_loop size 0 (l.p_param) in
    let small : ltb my_max_node_count l.valid_node_number ≡ false = ground arith in
    let small' : ltb my_max_node_count size ≡ false = ground arith in
    rw (small, small')
      (
        refl,
        record {
          ready = refl;
          same_size = e ∙ sym same;
          bound = omega arith;
          head_in = omega arith;
          count = refl;
          fits = omega arith;
          linked = tt;
          distinct = tt;
          inside = λ a i. cc;
          ids = λ a i.
              ap (λ c. c.node_id_in_list_array)
                (init_loop_lem size 0 (l.p_param) a (omega arith) (omega arith));
          free = λ a i.
              ap (λ c. c.is_free) (init_loop_lem size 0 (l.p_param) a (omega arith) (omega arith));
        },
      )
