-- ===== src/ListNode.antt =====
-- CommonSource/MulLoopQueue/m_list_node.c and .h: a singly linked list in a fixed array of nodes.
-- The array is a function from node numbers; a pointer into it is `some` of the node's number. The
-- debug callbacks are compiled out by the default configuration (`USB_MY_LIST_NODE_DEBUG` is 0).
-- A function of the header takes a pointer to the list: `on_pointer` is its test against `X_Null`.
pub mod Edit
pub mod Cells
pub mod Api
mod Tests
pub mod Spec
pub mod Sequence
pub mod Values
pub mod Pull
pub mod Removes
pub mod Insert
pub mod Adds
pub mod Inv
pub mod Chain
pub mod Place
use eclipse_code.Prelude.{
  ℕ, zero, suc, ◌+◌, ◌-◌, ◌%◌, Bool, true, false, Option, some, none, ltb, leb, ◌==◌, ◌||◌,
  if◌then◌else◌, update, u16_mod, on_pointer, AppResult, app_successed, app_error, app_beyond_scope,
  app_pointer_null, app_already_done_before, app_param_error, app_no_enough_space,
  app_unexpect_state,
}

-- `MY_MAX_NODE_COUNT`
abbrev pub my_max_node_count : ℕ
my_max_node_count = 100

-- `sListNodeSpace`
pub record ListNodeSpace : Type 0 where
  pub is_free : Bool
  pub node_id_in_list_array : ℕ
  pub extern_information : ℕ
  pub next_ptr : Option ℕ

abbrev pub Space : Type 0
Space = ℕ → ListNodeSpace

-- `sMySingleLinkListParam`
pub record LinkListParam : Type 0 where
  pub valid_node_number : ℕ
  pub p_node_space : Space

-- `sMySingleLinkListManager`
pub record LinkListManager : Type 0 where
  pub is_init_ok : Bool
  pub current_head_node_number : ℕ
  pub used_node_num : ℕ

-- `sMySingleLinkList`
pub record SingleLinkList : Type 0 where
  pub p_manager : LinkListManager
  pub valid_node_number : ℕ
  pub p_param : LinkListParam

abbrev pub node_at : LinkListParam → ℕ → ListNodeSpace
node_at p a = p.p_node_space a

-- `p_node_space[a] = …`
abbrev pub write_node : LinkListParam → ℕ → ListNodeSpace → LinkListParam
write_node p a c = record p { p_node_space = update p.p_node_space a c }

abbrev pub set_next : LinkListParam → ℕ → Option ℕ → LinkListParam
set_next p a next = write_node p a (record (node_at p a) { next_ptr = next })

-- `p_node_space[a].extern_information = infor`, `.NextPtr = next`
abbrev pub fill_node : LinkListParam → ℕ → ℕ → Option ℕ → LinkListParam
fill_node p a infor next =
    write_node p a (record (node_at p a) { extern_information = infor; next_ptr = next })

-- `p_node_space[a].isFree = X_False`
abbrev pub take_node : LinkListParam → ℕ → LinkListParam
take_node p a = write_node p a (record (node_at p a) { is_free = false })

-- The loop of `BorrowNode` with `n` rounds left, at `i`: the first free node, which is taken.
unfoldable pub borrow_loop : ℕ → ℕ → LinkListParam → Option ℕ × LinkListParam
borrow_loop zero i p = (none, p)
borrow_loop (suc n) i p =
    let rest = borrow_loop n (i + 1) p in
    if (node_at p i).is_free then (some i, take_node p i) else rest

-- `BorrowNode`
unfoldable pub borrow_node : LinkListParam → Option ℕ × LinkListParam
borrow_node p = borrow_loop p.valid_node_number 0 p

-- `ReturnNode`
unfoldable pub return_node : ℕ → LinkListParam → Bool × LinkListParam
return_node node_number p = if leb p.valid_node_number node_number then (false, p) else (
  true,
  write_node p node_number (record (node_at p node_number) { is_free = true; next_ptr = none }),
)

-- The loop of `NodePointerGetByNodeOrderNumber`: `n` steps along `NextPtr`; `none` where the chain
-- ends before.
unfoldable pub walk : ℕ → LinkListParam → ℕ → Option ℕ
walk zero p a = some a
walk (suc n) p a = elim ((node_at p a).next_ptr) [ none ↦ none | some b ↦ walk n p b ]

-- `NodePointerGetByNodeOrderNumber`. No caller uses `*p_node` where the function returns false.
unfoldable pub node_pointer_get : LinkListParam → ℕ → ℕ → Option ℕ
node_pointer_get p first_node_number node_order =
    if leb p.valid_node_number first_node_number || leb p.valid_node_number node_order
    then none
    else walk node_order p first_node_number

-- the loop of `mSingleListInit` with `n` rounds left, at `i`
unfoldable pub init_loop : ℕ → ℕ → LinkListParam → LinkListParam
init_loop zero i p = p
init_loop (suc n) i p = init_loop n (i + 1) (
    write_node p i (record {
      is_free = true;
      node_id_in_list_array = i;
      extern_information = 0;
      next_ptr = none;
    }))

unfoldable pub init : SingleLinkList → AppResult × SingleLinkList
init l =
    if ltb my_max_node_count l.valid_node_number
    then (app_beyond_scope, l)
    else if ltb my_max_node_count l.p_param.valid_node_number
    then (app_beyond_scope, l)
    else (
      app_successed,
      record l {
        p_manager = record { is_init_ok = true; current_head_node_number = 0; used_node_num = 0 };
        p_param = init_loop l.p_param.valid_node_number 0 l.p_param;
      },
    )

-- `used_node_num ++` and `used_node_num --` on a `uint16_t`
abbrev pub count_up : LinkListManager → LinkListManager
count_up m = record m { used_node_num = (m.used_node_num + 1) % u16_mod }

abbrev pub count_down : LinkListManager → LinkListManager
count_down m = record m { used_node_num = (m.used_node_num + u16_mod - 1) % u16_mod }
