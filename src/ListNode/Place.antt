-- ===== src/ListNode/Place.antt =====
-- The operations of m_list_node.c at a place in the list: insert, pull away, update, and the list
-- as the caller sees it through a pointer.
use eclipse_code.Prelude.{
  ℕ, zero, suc, ◌+◌, ◌-◌, Bool, true, false, Option, some, none, ltb, leb, ◌==◌, not, if◌then◌else◌,
  AppResult, app_successed, app_error, app_beyond_scope, app_already_done_before, app_param_error,
  app_no_enough_space, app_unexpect_state,
}
use eclipse_code.ListNode.{
  LinkListParam, SingleLinkList, node_at, write_node, set_next, fill_node, borrow_node, return_node,
  node_pointer_get, count_up, count_down,
}
use eclipse_code.ListNode.Edit.{tail_add, tail_remove, head_add, head_remove}

-- `mSingleListInsert` behind the walk to the node on the left
unfoldable pub insert_link :
    ℕ → SingleLinkList → ℕ → LinkListParam → Option ℕ → AppResult × SingleLinkList
insert_link infor l new p none =
    (app_error, record l { p_param = (return_node (node_at p new).node_id_in_list_array p).1 })
insert_link infor l new p (some left) =
    let right = (node_at p left).next_ptr in
    let p' = set_next p left (some new) in
    (
      app_successed,
      record l { p_manager = count_up l.p_manager; p_param = fill_node p' new infor right },
    )

-- behind `BorrowNode`
unfoldable pub insert_borrowed :
    ℕ → ℕ → SingleLinkList → Option ℕ × LinkListParam → AppResult × SingleLinkList
unfolding insert_link
insert_borrowed order infor l (none, p) = (app_no_enough_space, record l { p_param = p })
insert_borrowed order infor l (some new, p) =
    insert_link infor l new p (node_pointer_get p l.p_manager.current_head_node_number (order - 1))

unfoldable pub insert : ℕ → ℕ → SingleLinkList → AppResult × SingleLinkList
unfolding insert_borrowed
insert order infor l =
    if not l.p_manager.is_init_ok
    then (app_unexpect_state, l)
    else if leb l.valid_node_number l.p_manager.used_node_num
    then (app_beyond_scope, l)
    else if ltb l.p_manager.used_node_num order
    then (app_param_error, l)
    else if order == 0
    then head_add infor l
    else if order == l.p_manager.used_node_num
    then tail_add infor l
    else insert_borrowed order infor l (borrow_node l.p_param)

-- `mSingleListPullAway` behind its three walks. The count falls before the node is given back.
unfoldable pub pull_unlink :
    SingleLinkList → Option ℕ → Option ℕ → Option ℕ → AppResult × SingleLinkList
pull_unlink l (some drop) (some left) (some right) =
    let p = set_next l.p_param left (some right) in
    let (done, p') = return_node (node_at p drop).node_id_in_list_array p in
    (
      if done then app_successed else app_error,
      record l { p_manager = count_down l.p_manager; p_param = p' },
    )
pull_unlink l _ _ _ = (app_error, l)

unfoldable pub pull_away : ℕ → SingleLinkList → AppResult × SingleLinkList
unfolding pull_unlink
pull_away order l =
    if not l.p_manager.is_init_ok
    then (app_unexpect_state, l)
    else if leb used_node_num order
    then (app_param_error, l)
    else if used_node_num == 0
    then (app_already_done_before, l)
    else if used_node_num == order + 1
    then tail_remove l
    else if order == 0
    then head_remove l
    else pull_unlink l (node_pointer_get l.p_param current_head_node_number order)
        (node_pointer_get l.p_param current_head_node_number (order - 1))
        (node_pointer_get l.p_param current_head_node_number (order + 1))
  where
    open l.p_manager use {used_node_num, current_head_node_number}

-- The guard that the two functions below share: the node at a place, where there is one.
unfoldable pub node_in_use : ℕ → SingleLinkList → Option ℕ
node_in_use order l =
    if not l.p_manager.is_init_ok
    then none
    else if l.p_manager.used_node_num == 0
    then none
    else if leb l.p_manager.used_node_num order
    then none
    else node_pointer_get l.p_param l.p_manager.current_head_node_number order

-- `none` is the result false; `p_infor_num` is whether the caller gives an address for the result.
unfoldable pub information_get : ℕ → Bool → SingleLinkList → Option ℕ
unfolding node_in_use
information_get order p_infor_num l = if not p_infor_num then none else elim (node_in_use order l) [
  | none ↦ none
  | some a ↦ some (node_at l.p_param a).extern_information
]

unfoldable pub updata_value : ℕ → ℕ → SingleLinkList → Bool × SingleLinkList
unfolding node_in_use
updata_value order infor l = elim (node_in_use order l) [
  | none ↦ (false, l)
  | some a ↦ (
    true,
    record l {
      p_param =
          write_node (l.p_param) a (record (node_at l.p_param a) { extern_information = infor });
    },
  )
]

-- The loop of `mSingleListFindByValue` with `n` rounds left, at node `a`.
unfoldable pub find_loop : ℕ → ℕ → LinkListParam → ℕ → Option ℕ
find_loop zero infor p a = none
find_loop (suc n) infor p a =
    let rest : Option ℕ = elim ((node_at p a).next_ptr) [
      | none ↦ none
      | some b ↦ find_loop n infor p b
    ] in
    if (node_at p a).extern_information == infor
    then some (node_at p a).node_id_in_list_array
    else rest

unfoldable pub find_by_value : ℕ → Bool → SingleLinkList → Option ℕ
unfolding find_loop
find_by_value infor p_node_order_number l =
    if not p_node_order_number
    then none
    else if not l.p_manager.is_init_ok
    then none
    else if l.p_manager.used_node_num == 0
    then none
    else if leb l.valid_node_number l.p_manager.current_head_node_number
    then none
    else find_loop l.p_manager.used_node_num infor l.p_param l.p_manager.current_head_node_number

-- `p_size` is whether the caller gives an address for the result.
unfoldable pub size_get : Bool → SingleLinkList → Option ℕ
size_get p_size l = if p_size then some l.p_manager.used_node_num else none

unfoldable pub does_empty : SingleLinkList → Bool
does_empty l = l.p_manager.used_node_num == 0
