-- ===== src/LoopQueue/Tests.antt =====
-- Runs of the ring on small arrays, and the theorems at them.
use eclipse_code.Prelude.{◌≡◌, refl, true, false, List, [], ◌∷◌, arith, set, replicate, some, none}
use eclipse_code.LoopQueue.{
  ListManager, queue_empty, queue_full, initialize, run, step, first_in, first_out, realse_buf,
  simple_queue_first_in, does_simple_queue_empty,
}
use eclipse_code.LoopQueue.{
  first_in_by, first_out_by, buf_init_loop, updata_list_state, count_in, occupy,
  node_number_in_move_forward, node_move_forward, count_out, node_number_out_move_forward,
  is_queue_empty,
}
use eclipse_code.LoopQueue.Inv.{IsValid, step-IsValid}
use eclipse_code.LoopQueue.Refine.{view, run_refines, initialize_refines}
use eclipse_code.LoopQueue.Release.{any_hands_in, any_gives_back, any_clears, run_busy, run_lost}
use eclipse_code.LoopQueue.Spec
use eclipse_code.LoopQueue.Spec.{Op, put, get, give_back, clear, used_number, ask_empty}

-- three nodes, nothing initialised
abbrev raw : ListManager
raw = record {
  p_buf = 7 ∷ 7 ∷ 7 ∷ [];
  valid_node_number = 3;
  lmp = record {
    state = queue_empty;
    first_in_node_num = 2;
    first_out_node_num = 0;
    used_node_num = 9;
  };
}

-- full, with the oldest node 1 given back already
abbrev full : ListManager
full = record {
  p_buf = 1 ∷ 0 ∷ 1 ∷ [];
  valid_node_number = 3;
  lmp = record {
    state = queue_full;
    first_in_node_num = 1;
    first_out_node_num = 1;
    used_node_num = 3;
  };
}

-- 300 nodes of which the last is busy
abbrev large : ListManager
large = record {
  p_buf = set (replicate 300 0) 299 1;
  valid_node_number = 300;
  lmp = record {
    state = queue_empty;
    first_in_node_num = 298;
    first_out_node_num = 298;
    used_node_num = 0;
  };
}

abbrev script : List Op
script =
    put false
    ∷ put false
    ∷ put true
    ∷ used_number
    ∷ put false
    ∷ get
    ∷ give_back 0
    ∷ put false
    ∷ get
    ∷ clear
    ∷ ask_empty
    ∷ []

run-raw :
    run script (initialize raw)
    ≡ (true, 0)
      ∷ (true, 1)
      ∷ (true, 2)
      ∷ (true, 3)
      ∷ (false, 0)
      ∷ (true, 0)
      ∷ (true, 0)
      ∷ (true, 0)
      ∷ (true, 1)
      ∷ (true, 0)
      ∷ (true, 0)
      ∷ []
unfolding run step first_in first_out realse_buf initialize first_in_by first_out_by buf_init_loop
    updata_list_state count_in occupy node_number_in_move_forward node_move_forward count_out
    node_number_out_move_forward is_queue_empty
run-raw = refl

first_in_null : simple_queue_first_in true none ≡ ((false, 0), none)
unfolding simple_queue_first_in
first_in_null = refl

does_empty : (does_simple_queue_empty (some raw)).0 ≡ true
unfolding does_simple_queue_empty
does_empty = refl

full-IsValid : IsValid full
full-IsValid = ground arith

large-IsValid : IsValid large
large-IsValid = ground arith

step-IsValid_example : IsValid (step (put false) full).1
step-IsValid_example = step-IsValid (put false) full-IsValid

run_refines_example : run script full ≡ Spec.run 3 script (view full)
run_refines_example = run_refines script full-IsValid

initialize_refines_example :
    run script (initialize raw)
    ≡ Spec.run 3 script (record { held = []; next = 0; busy = 0 ∷ 0 ∷ 0 ∷ [] })
initialize_refines_example = initialize_refines script raw (omega arith) (omega arith) refl

abbrev no_release : List Op
no_release = put false ∷ get ∷ get ∷ put true ∷ put false ∷ []

run_busy_example : any_hands_in 2 no_release (run no_release full) ≡ false
unfolding any_gives_back
run_busy_example = run_busy 2 no_release full-IsValid refl refl

abbrev with_release : List Op
with_release = give_back 299 ∷ put false ∷ put false ∷ put false ∷ []

run_lost_example : any_hands_in 299 with_release (run with_release large) ≡ false
unfolding any_clears
run_lost_example = run_lost 299 (omega arith) with_release large-IsValid (omega arith) refl refl
