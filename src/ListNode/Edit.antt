-- ===== src/ListNode/Edit.antt =====
-- The operations of m_list_node.c that change the list. Each is split where the code has asked a
-- helper: the part behind the question takes its answer.
use eclipse_code.Prelude.{
  ℕ, ◌-◌, Bool, true, false, Option, some, none, ltb, leb, ◌==◌, ◌||◌, not, if◌then◌else◌,
  AppResult, app_successed, app_error, app_beyond_scope, app_already_done_before,
  app_no_enough_space, app_unexpect_state,
}
use eclipse_code.ListNode.{
  LinkListParam, SingleLinkList, node_at, set_next, fill_node, borrow_node, return_node,
  node_pointer_get, count_up, count_down,
}

-- `mSingleListTailAdd` behind the walk to the last node
unfoldable pub tail_link :
    SingleLinkList → ℕ → LinkListParam → Option ℕ → AppResult × SingleLinkList
tail_link l new p none =
    (app_error, record l { p_param = (return_node (node_at p new).node_id_in_list_array p).1 })
tail_link l new p (some last) = (
  app_successed,
  record l { p_manager = count_up l.p_manager; p_param = set_next p last (some new) },
)

-- behind `BorrowNode`
unfoldable pub tail_add_borrowed :
    ℕ → SingleLinkList → Option ℕ × LinkListParam → AppResult × SingleLinkList
unfolding tail_link
tail_add_borrowed infor l (none, p) = (app_no_enough_space, record l { p_param = p })
tail_add_borrowed infor l (some new, p) =
    let p' = fill_node p new infor none in
    if l.p_manager.used_node_num == 0
    then (
      app_successed,
      record l {
        p_manager = count_up (record (l.p_manager) {
          current_head_node_number = (node_at p' new).node_id_in_list_array;
        });
        p_param = p';
      },
    )
    else tail_link l new p'
        (node_pointer_get p' l.p_manager.current_head_node_number (l.p_manager.used_node_num - 1))

unfoldable pub tail_add : ℕ → SingleLinkList → AppResult × SingleLinkList
unfolding tail_add_borrowed
tail_add infor l =
    if leb l.valid_node_number l.p_manager.used_node_num
    then (app_beyond_scope, l)
    else if not l.p_manager.is_init_ok
    then (app_unexpect_state, l)
    else tail_add_borrowed infor l (borrow_node l.p_param)

-- The node is given back, and counted off if that succeeds.
unfoldable pub finish_remove : SingleLinkList → Bool × LinkListParam → AppResult × SingleLinkList
finish_remove l (true, p) =
    (app_successed, record l { p_manager = count_down l.p_manager; p_param = p })
finish_remove l (false, p) = (app_error, record l { p_param = p })

-- `mSingleListTailRemove` behind the walks to the last node and the one before it
unfoldable pub tail_unlink : SingleLinkList → Option ℕ → Option ℕ → AppResult × SingleLinkList
unfolding finish_remove
tail_unlink l none previous = (app_error, l)
tail_unlink l (some current) none = (app_error, l)
tail_unlink l (some current) (some previous) =
    let p = set_next l.p_param previous none in
    finish_remove l (return_node (node_at p current).node_id_in_list_array p)

unfoldable pub tail_remove : SingleLinkList → AppResult × SingleLinkList
unfolding tail_unlink
tail_remove l =
    if not l.p_manager.is_init_ok
    then (app_unexpect_state, l)
    else if ltb 0 used_node_num
    then tail_unlink l (node_pointer_get l.p_param current_head_node_number (used_node_num - 1)) (
        if used_node_num == 1
        then node_pointer_get l.p_param current_head_node_number (used_node_num - 1)
        else node_pointer_get l.p_param current_head_node_number (used_node_num - 2))
    else (app_already_done_before, l)
  where
    open l.p_manager use {used_node_num, current_head_node_number}

-- `mSingleListHeadAdd` behind `BorrowNode`
unfoldable pub head_add_borrowed :
    ℕ → SingleLinkList → Option ℕ × LinkListParam → AppResult × SingleLinkList
head_add_borrowed infor l (none, p) = (app_no_enough_space, record l { p_param = p })
head_add_borrowed infor l (some new, p) = (
  app_successed,
  record l {
    p_manager =
        count_up (record (l.p_manager) {
          current_head_node_number = (node_at p new).node_id_in_list_array;
        });
    p_param = fill_node p new infor (
        if l.p_manager.used_node_num == 0 then none else some l.p_manager.current_head_node_number);
  },
)

unfoldable pub head_add : ℕ → SingleLinkList → AppResult × SingleLinkList
unfolding head_add_borrowed
head_add infor l =
    if leb l.valid_node_number l.p_manager.used_node_num
      || leb l.valid_node_number l.p_manager.current_head_node_number
    then (app_beyond_scope, l)
    else if not l.p_manager.is_init_ok
    then (app_unexpect_state, l)
    else head_add_borrowed infor l (borrow_node l.p_param)

-- `mSingleListHeadRemove` behind the walk to the second node. The new head is read from that node
-- after the old one is given back.
unfoldable pub head_unlink : SingleLinkList → ℕ → Bool × LinkListParam → AppResult × SingleLinkList
head_unlink l second (true, p) = (
  app_successed,
  record l {
    p_manager = count_down (record (l.p_manager) {
      current_head_node_number = (node_at p second).node_id_in_list_array;
    });
    p_param = p;
  },
)
head_unlink l second (false, p) = (app_error, record l { p_param = p })

unfoldable pub head_remove_second : SingleLinkList → Option ℕ → AppResult × SingleLinkList
unfolding head_unlink
head_remove_second l none = (app_error, l)
head_remove_second l (some second) = head_unlink l second (
    return_node (node_at l.p_param l.p_manager.current_head_node_number).node_id_in_list_array
      l.p_param)

unfoldable pub head_remove : SingleLinkList → AppResult × SingleLinkList
unfolding head_remove_second
head_remove l =
    if leb l.valid_node_number current_head_node_number
    then (app_beyond_scope, l)
    else if not l.p_manager.is_init_ok
    then (app_unexpect_state, l)
    else if ltb 0 used_node_num
    then head_remove_second l (
        if used_node_num == 1
        then some current_head_node_number
        else node_pointer_get l.p_param current_head_node_number 1)
    else (app_already_done_before, l)
  where
    open l.p_manager use {used_node_num, current_head_node_number}
