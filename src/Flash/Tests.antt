-- ===== src/Flash/Tests.antt =====
-- The theorems on FlashEventHandle.c at a chip of sixteen pages of 4096 bytes, from address 65536 on.
use Prim.Native.Nat.{◌∣◌}
use eclipse_code.Prelude.{
  ℕ, ◌+◌, ◌≤◌, ◌<◌, ◌≡◌, ◌≢◌, refl, true, false, some, none, [], ◌∷◌, replicate, arith, combine,
  app_successed,
}
use eclipse_code.LoopQueue.{
  initialize, buf_init_loop, first_in, first_in_by, ListManager, queue_empty,
}
use eclipse_code.LoopQueue.Inv
use eclipse_code.PriorityQueue.{PriorityListManager, NodeWithPriority}
use eclipse_code.Flash.{
  OperationParam, mfo_read, mfo_erase, Handler, does_addr_is_within_bounds, does_addr_is_aligned32,
  does_addr_is_page_aligned, does_user_define_sector_is_page_aligned,
}
use eclipse_code.Flash.Operations.{
  event_init, read_request, erase_request, put_request, put_by, started,
}
use eclipse_code.Flash.SectorOperations.{sector_write_request, sector_addr, sector_read_request}
use eclipse_code.Flash.Checks.{within_bounds_wraps}
use eclipse_code.Flash.Requests.{request, InChip, Stored, request-Stored, request-refused}
use eclipse_code.Flash.Sectors.{sector_read_outside, sector_priority_injective, sector_write_fails}

abbrev node : NodeWithPriority
node = record { node_id_in_list_array = 0; is_free = true; priority = 0; next_ptr = none }

abbrev queue : PriorityListManager
queue = record {
  is_init = false;
  max_node_count = 30;
  max_priority_value = 63;
  is_high_priority_from_small = true;
  priority_table = 0 ∷ 0 ∷ [];
  node_space = record {
    max_node_count = 30;
    current_used_node_count = 0;
    p_list_head_nodes = λ i. none;
    p_space = λ i. node;
  };
}

abbrev ring : ListManager
ring = record {
  p_buf = 0 ∷ 0 ∷ [];
  valid_node_number = 2;
  lmp = record {
    state = queue_empty;
    first_in_node_num = 0;
    first_out_node_num = 0;
    used_node_num = 0;
  };
}

ring-IsValid : Inv.IsValid ring
ring-IsValid = record {
  some_node = omega arith;
  small = omega arith;
  room = refl;
  in_range = omega arith;
  out_range = omega arith;
  used_range = omega arith;
  closed = refl;
  agrees = refl;
}

abbrev blank : OperationParam
blank = mfo_read (record { read_start_addr = 0; read_length = 0; p_dest = 0; read_cb = none })

abbrev chip : Handler
chip = record {
  p_manager = record {
    is_init_ok = true;
    sector_count_in_erase_unit = 4;
    simul_write_param = [];
    fop = blank ∷ blank ∷ [];
  };
  p_basic_param = record {
    base_addr = 65536;
    total_size_in_bytes = 65536;
    erase_uint = 4096;
    program_unit = 4;
  };
  p_user_param = record { sector_size = 1024; total_sector_count = 64 };
  p_loop_queue = ring;
  p_user_infor_table = record { user_infor_count_by_erase_page = 1; p_infor = some 1 };
  p_priority_queue = queue;
  on_user_infor_config = none;
  p_action = record {
    has_init = true;
    has_uninit = false;
    has_read_evt_handler = true;
    has_write_evt_handler = true;
    has_erase_evt_handler = true;
    has_doesbusy = true;
  };
  has_get_ms = false;
  has_set_ms = false;
  p_fspe = record {
    current_state = 0;
    user = record {
      is_state_machine_stop = false;
      latest_state_before_request_check = 0;
      wait_counter = 0;
    };
  };
  p_flash_state = record {
    all_state_num = 11;
    max_hop_times = 1;
    p_action = some (replicate 11 none);
    current_state_num = 0;
  };
  hardware_inits = 0;
  hardware_uninits = 0;
}

abbrev a_read : OperationParam
a_read =
    mfo_read (record { read_start_addr = 70000; read_length = 100; p_dest = 8; read_cb = some 1 })

abbrev an_erase : OperationParam
an_erase = mfo_erase (record { erase_start_addr = 69632; erase_length = 4096; erase_cb = none })

abbrev odd_read : OperationParam
odd_read =
    mfo_read (record { read_start_addr = 70001; read_length = 100; p_dest = 8; read_cb = some 1 })

an_erase_won : (request an_erase chip).0 ≡ app_successed
unfolding erase_request put_request put_by does_addr_is_page_aligned does_addr_is_within_bounds
    combine first_in first_in_by
an_erase_won = refl

request-Stored_example :
    InChip chip.p_basic_param an_erase × Stored an_erase chip (request an_erase chip).1
request-Stored_example =
    request-Stored 12 an_erase chip (omega arith) refl (omega arith) (omega arith) ring-IsValid refl
      an_erase_won

odd_read_lost : (request odd_read chip).0 ≢ app_successed
unfolding read_request does_addr_is_aligned32 combine
odd_read_lost = λ e. cc

request-refused_example : (request odd_read chip).1 ≡ chip
request-refused_example = request-refused odd_read chip odd_read_lost

within_bounds_wraps_example :
    (does_addr_is_within_bounds 65536 65536 4294967292 100 ≡ true)
    × (65536 + 65536 < 4294967292 + 100)
within_bounds_wraps_example =
    within_bounds_wraps 65536 65536 4294967292 100 (omega arith) (omega arith) (omega arith)
      (omega arith) (omega arith) (omega arith)

init_won : (event_init chip).0 ≡ app_successed
unfolding event_init does_addr_is_page_aligned does_user_define_sector_is_page_aligned combine
init_won = refl

read_won : (sector_read_request 15 3 1024 8 none (event_init chip).1).0 ≡ app_successed
unfolding event_init does_addr_is_page_aligned does_user_define_sector_is_page_aligned combine
    started sector_read_request put_request put_by first_in first_in_by initialize buf_init_loop
read_won = refl

sector_read_outside_example :
    (0 < 1024)
    × (1024 ∣ sector_addr chip 15 3)
    × (sector_addr chip 15 3 + 1024 ≤ 65536)
    × (sector_addr chip 15 3 + 1024 ≤ 65536)
    × ((read_request
          (record {
            read_start_addr = sector_addr chip 15 3;
            read_length = 1024;
            p_dest = 8;
            read_cb = none;
          })
          (event_init chip).1).0
        ≢ app_successed)
sector_read_outside_example =
    sector_read_outside chip 15 3 1024 8 none (omega arith) (omega arith) (omega arith)
      (omega arith) (omega arith) init_won read_won

sector_priority_injective_example : (◌≡◌ {A = ℕ} 2 2) × (◌≡◌ {A = ℕ} 1 1)
sector_priority_injective_example =
    sector_priority_injective chip 2 2 1 1 (omega arith) (omega arith) (omega arith) (omega arith)
      refl

sector_write_fails_example :
    (sector_write_request 15 3 1024 8 none (event_init chip).1).0 ≢ app_successed
sector_write_fails_example = sector_write_fails chip 15 3 1024 8 none (omega arith) refl
