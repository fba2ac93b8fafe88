-- ===== src/ListNode/Api.antt =====
-- The functions of m_list_node.h: each takes a pointer to the list and tests it against `X_Null`
-- first. What a list that is not initialised does.
use eclipse_code.Prelude.{
  ℕ, ◌≡◌, Bool, true, false, Option, none, some, not, arith, on_pointer, AppResult, app_successed,
  app_pointer_null,
}
use eclipse_code.ListNode.{SingleLinkList, init}
use eclipse_code.ListNode.Edit.{tail_add, head_add, tail_remove, head_remove}
use eclipse_code.ListNode.Place.{
  insert, pull_away, information_get, updata_value, find_by_value, size_get, does_empty,
}
use eclipse_code.ListNode.Spec.{
  Op, add_head, add_tail, remove_head, remove_tail, insert_in, pull_out, clear, read_at, updata_at,
  size_of, ask_empty, find_value, Reply, code, flag, number,
}
use eclipse_code.ListNode.Sequence.{step}

unfoldable pub m_single_list_init : Option SingleLinkList → AppResult × Option SingleLinkList
m_single_list_init = on_pointer app_pointer_null init

pub m_single_list_tail_add : ℕ → Option SingleLinkList → AppResult × Option SingleLinkList
m_single_list_tail_add infor = on_pointer app_pointer_null (tail_add infor)

pub m_single_list_tail_remove : Option SingleLinkList → AppResult × Option SingleLinkList
m_single_list_tail_remove = on_pointer app_pointer_null tail_remove

pub m_single_list_head_add : ℕ → Option SingleLinkList → AppResult × Option SingleLinkList
m_single_list_head_add infor = on_pointer app_pointer_null (head_add infor)

pub m_single_list_head_remove : Option SingleLinkList → AppResult × Option SingleLinkList
m_single_list_head_remove = on_pointer app_pointer_null head_remove

pub m_single_list_insert : ℕ → ℕ → Option SingleLinkList → AppResult × Option SingleLinkList
m_single_list_insert order infor = on_pointer app_pointer_null (insert order infor)

pub m_single_list_pull_away : ℕ → Option SingleLinkList → AppResult × Option SingleLinkList
m_single_list_pull_away order = on_pointer app_pointer_null (pull_away order)

pub m_single_list_size_get : Bool → Option SingleLinkList → Option ℕ × Option SingleLinkList
m_single_list_size_get p_size = on_pointer none (λ l. (size_get p_size l, l))

pub does_my_single_list_empty : Option SingleLinkList → Bool × Option SingleLinkList
does_my_single_list_empty = on_pointer false (λ l. (does_empty l, l))

pub m_single_list_clear : Option SingleLinkList → Unit {0} × Option SingleLinkList
m_single_list_clear = on_pointer tt (λ l. (tt, (init l).1))

pub m_single_list_find_by_value :
    ℕ → Bool → Option SingleLinkList → Option ℕ × Option SingleLinkList
m_single_list_find_by_value infor p_order =
    on_pointer none (λ l. (find_by_value infor p_order l, l))

pub m_single_list_information_get :
    ℕ → Bool → Option SingleLinkList → Option ℕ × Option SingleLinkList
m_single_list_information_get order p_infor =
    on_pointer none (λ l. (information_get order p_infor l, l))

pub m_single_list_updata_value : ℕ → ℕ → Option SingleLinkList → Bool × Option SingleLinkList
m_single_list_updata_value order infor = on_pointer false (updata_value order infor)

-- a call that edits the list or reads its nodes
abbrev pub needs_init : Op → Bool
needs_init clear = false
needs_init size_of = false
needs_init ask_empty = false
needs_init _ = true

abbrev pub failed : Reply → Bool
failed (code app_successed) = false
failed (code _) = true
failed (flag b) = not b
failed (number none) = true
failed (number (some n)) = false

-- Before `mSingleListInit`, a call that edits the list or reads its nodes fails and leaves the list
-- as it is.
pub step_not_ready :
    (op : Op) (l : SingleLinkList)
    → l.p_manager.is_init_ok ≡ false
    → needs_init op ≡ true
    → (failed (step op l).0 ≡ true) × ((step op l).1 ≡ l)
unfolding step head_add tail_add head_remove tail_remove insert pull_away information_get
    updata_value find_by_value
step_not_ready (add_head v) l h e = ground arith
step_not_ready (add_tail v) l h e = ground arith
step_not_ready remove_head l h e = ground arith
step_not_ready remove_tail l h e = ground arith
step_not_ready (insert_in k v) l h e = ground arith
step_not_ready (pull_out k) l h e = ground arith
step_not_ready clear l h e = cc
step_not_ready (read_at k) l h e = ground arith
step_not_ready (updata_at k v) l h e = ground arith
step_not_ready size_of l h e = cc
step_not_ready ask_empty l h e = cc
step_not_ready (find_value v) l h e = ground arith
