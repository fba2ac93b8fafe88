-- ===== src/ListNode/Tests.antt =====
-- Runs of a small list, and the theorems at them.
use eclipse_code.Prelude.{
  ℕ, ◌≡◌, refl, ◌==◌, if◌then◌else◌, true, false, none, some, List, [], ◌∷◌, arith, app_successed,
  app_beyond_scope, app_already_done_before, app_param_error, app_pointer_null,
}
use eclipse_code.ListNode.{
  SingleLinkList, init, init_loop, borrow_loop, borrow_node, return_node, walk, node_pointer_get,
}
use eclipse_code.ListNode.Cells.{Cells}
use eclipse_code.ListNode.Inv.{IsList}
use eclipse_code.ListNode.Edit.{tail_add, head_add, tail_remove, head_remove}
use eclipse_code.ListNode.Place.{
  insert, pull_away, information_get, updata_value, find_by_value, find_loop, size_get, does_empty,
}
use eclipse_code.ListNode.Adds.{Becomes}
use eclipse_code.ListNode.Insert.{insert_lem}
use eclipse_code.ListNode.Pull.{pull_away_lem}
use eclipse_code.ListNode.Values.{find_by_value-slot_of}
use eclipse_code.ListNode.Spec
use eclipse_code.ListNode.Spec.{
  Op, add_head, add_tail, remove_head, remove_tail, insert_in, pull_out, clear, read_at, updata_at,
  size_of, ask_empty, find_value, Reply, code, flag, number,
}
use eclipse_code.ListNode.Sequence.{step, run, Holds, list_run_refines}
use eclipse_code.ListNode.Api.{m_single_list_init}

-- four nodes with nothing initialised
abbrev raw : SingleLinkList
raw = record {
  p_manager = record { is_init_ok = false; current_head_node_number = 3; used_node_num = 9 };
  valid_node_number = 4;
  p_param = record {
    valid_node_number = 4;
    p_node_space = λ a. record {
      is_free = false;
      node_id_in_list_array = 0;
      extern_information = 7;
      next_ptr = some 2;
    };
  };
}

abbrev script : List Op
script =
    add_head 10
    ∷ add_tail 20
    ∷ add_head 5
    ∷ insert_in 2 15
    ∷ add_tail 99
    ∷ read_at 2
    ∷ pull_out 1
    ∷ read_at 1
    ∷ updata_at 1 16
    ∷ read_at 1
    ∷ pull_out 7
    ∷ remove_tail
    ∷ remove_head
    ∷ size_of
    ∷ remove_head
    ∷ remove_head
    ∷ ask_empty
    ∷ add_head 4
    ∷ find_value 4
    ∷ find_value 5
    ∷ []

run-raw :
    run script (init raw).1
    ≡ code app_successed
      ∷ code app_successed
      ∷ code app_successed
      ∷ code app_successed
      ∷ code app_beyond_scope
      ∷ number (some 15)
      ∷ code app_successed
      ∷ number (some 15)
      ∷ flag true
      ∷ number (some 16)
      ∷ code app_param_error
      ∷ code app_successed
      ∷ code app_successed
      ∷ number (some 1)
      ∷ code app_successed
      ∷ code app_already_done_before
      ∷ flag true
      ∷ code app_successed
      ∷ flag true
      ∷ flag false
      ∷ []
unfolding run step init init_loop head_add tail_add tail_remove head_remove insert pull_away
    information_get updata_value find_by_value find_loop size_get does_empty borrow_node borrow_loop
    return_node walk node_pointer_get
run-raw = refl

init_null : m_single_list_init none ≡ (app_pointer_null, none)
unfolding m_single_list_init
init_null = refl

-- the nodes 2 and 0 hold 5 and 10
abbrev two_nodes : SingleLinkList
two_nodes = record {
  p_manager = record { is_init_ok = true; current_head_node_number = 2; used_node_num = 2 };
  valid_node_number = 4;
  p_param = record {
    valid_node_number = 4;
    p_node_space = λ a. record {
      is_free = if a == 2 then false else if a == 0 then false else true;
      node_id_in_list_array = a;
      extern_information = if a == 2 then 5 else 10;
      next_ptr = if a == 2 then some 0 else none;
    };
  };
}

abbrev cells : Cells
cells = (2, 5) ∷ (0, 10) ∷ []

two_nodes-IsList : IsList two_nodes cells
two_nodes-IsList = record {
  ready = refl;
  same_size = refl;
  bound = omega arith;
  head_in = omega arith;
  count = refl;
  fits = omega arith;
  linked = (refl, refl, (refl, refl, refl));
  distinct = (refl, (refl, tt));
  inside = λ a h. ground arith;
  ids = λ a h. refl;
  free = λ a h. ground arith;
}

two_nodes-Holds : Holds two_nodes (5 ∷ 10 ∷ [])
two_nodes-Holds = (cells, two_nodes-IsList, refl)

list_run_refines_example : run script two_nodes ≡ Spec.run 4 script (5 ∷ 10 ∷ [])
list_run_refines_example = list_run_refines script two_nodes-Holds

insert_lem_example : (new : ℕ) × Becomes (insert 1 7 two_nodes) ((2, 5) ∷ (new, 7) ∷ (0, 10) ∷ [])
insert_lem_example = insert_lem two_nodes-IsList 7 1 (omega arith) (omega arith)

pull_away_lem_example : Becomes (pull_away 1 two_nodes) ((2, 5) ∷ [])
pull_away_lem_example = pull_away_lem two_nodes-IsList 1 (omega arith)

find_by_value-slot_of_example : find_by_value 10 true two_nodes ≡ some 0
find_by_value-slot_of_example = find_by_value-slot_of 10 two_nodes-IsList
