-- ===== src/Flash/Operations.antt =====
-- The start and the three plain requests of FlashEventHandle.h behind their tests of the handler
-- against `X_Null`.
use eclipse_code.Prelude.{
  ℕ, ◌+◌, ◌*◌, ◌/◌, ◌%◌, Bool, true, false, ◌||◌, not, Option, none, some, ◌==◌, if◌then◌else◌, set,
  u16_mod, u32_mod, AppResult, app_successed, app_pointer_null, app_param_error, app_unexpect_state,
}
use eclipse_code.LoopQueue.{ListManager, Reply, initialize, first_in}
use eclipse_code.PriorityQueue.Queue.{queue_initialize}
use eclipse_code.StateMachine.{MachineParam, default_state_number}
use eclipse_code.Flash.{
  ReadParam, WriteParam, EraseParam, OperationParam, mfo_read, mfo_write, mfo_erase,
  UserInforPageTable, StateParamExtern, Handler, does_addr_is_page_aligned, does_addr_is_aligned32,
  does_addr_is_within_bounds, does_user_define_sector_is_page_aligned,
}

-- the tests of `mFlashEventInit`: of the functions, and of the parameters
unfoldable pub lacks_function : Handler → Bool
lacks_function h =
    not h.p_action.has_init
    || not h.p_action.has_read_evt_handler
    || not h.p_action.has_write_evt_handler
    || not h.p_action.has_erase_evt_handler
    || not h.p_action.has_doesbusy

unfoldable pub lacks_param : Handler → Bool
lacks_param h =
    h.p_basic_param.total_size_in_bytes == 0
    || (h.p_basic_param.erase_uint == 0 || h.p_basic_param.program_unit == 0)
    || not (does_addr_is_page_aligned h.p_basic_param.erase_uint h.p_basic_param.base_addr)
    || not (
        does_user_define_sector_is_page_aligned h.p_basic_param.erase_uint
          h.p_user_param.sector_size)
    || not (
        h.p_basic_param.total_size_in_bytes
        == h.p_user_param.sector_size * h.p_user_param.total_sector_count % u32_mod)

-- `onUserInforConfig(p_user_infor_table)` where it is set
abbrev pub user_infor_config :
    Option (UserInforPageTable → UserInforPageTable) → UserInforPageTable → UserInforPageTable
user_infor_config none t = t
user_infor_config (some f) t = f t

abbrev pub with_extern :
    StateParamExtern → MachineParam StateParamExtern → MachineParam StateParamExtern
with_extern e p = record p { user = e }

-- `mFlashEventInit` behind its tests
unfoldable pub started : Handler → Handler
started h = record h {
  hardware_inits = h.hardware_inits + 1;
  p_loop_queue = initialize h.p_loop_queue;
  p_priority_queue = queue_initialize h.p_priority_queue;
  p_user_infor_table = user_infor_config h.on_user_infor_config h.p_user_infor_table;
  p_fspe =
      with_extern
        (record {
          is_state_machine_stop = false;
          wait_counter = 0;
          latest_state_before_request_check = default_state_number;
        })
        h.p_fspe;
  p_manager = record (h.p_manager) {
    sector_count_in_erase_unit = h.p_basic_param.erase_uint / h.p_user_param.sector_size % u16_mod;
    is_init_ok = true;
  };
}

-- `mFlashEventInit`
unfoldable pub event_init : Handler → AppResult × Handler
unfolding lacks_function lacks_param
event_init h =
    if lacks_function h
    then (app_pointer_null, h)
    else if lacks_param h
    then (app_param_error, h)
    else (app_successed, started h)

-- `mFlashEventUnInit`
unfoldable pub event_uninit : Handler → AppResult × Handler
event_uninit h = if not h.p_manager.is_init_ok then (app_unexpect_state, h) else (
  app_successed,
  record h {
    hardware_uninits = if h.p_action.has_uninit then h.hardware_uninits + 1 else h.hardware_uninits;
    p_loop_queue = initialize h.p_loop_queue;
    p_priority_queue = queue_initialize h.p_priority_queue;
    p_manager = record (h.p_manager) { is_init_ok = false };
  },
)

-- A request behind `SimpleQueueFirstIn`: its parameters go to the node's place.
unfoldable pub put_by : Reply × ListManager → OperationParam → Handler → AppResult × Handler
put_by ((true, node_num), q) op h = (
  app_successed,
  record h {
    p_loop_queue = q;
    p_manager = record (h.p_manager) { fop = set h.p_manager.fop node_num op };
  },
)
put_by ((false, node_num), q) op h = (app_unexpect_state, record h { p_loop_queue = q })

unfoldable pub put_request : OperationParam → Handler → AppResult × Handler
unfolding put_by
put_request op h = put_by (first_in false h.p_loop_queue) op h

abbrev in_bounds : Handler → ℕ → ℕ → Bool
in_bounds h addr len =
    does_addr_is_within_bounds h.p_basic_param.base_addr h.p_basic_param.total_size_in_bytes addr
      len

-- `mFlashReadRequest`
unfoldable pub read_request : ReadParam → Handler → AppResult × Handler
read_request r h =
    if not h.p_manager.is_init_ok
    then (app_unexpect_state, h)
    else if r.p_dest == 0
    then (app_pointer_null, h)
    else if not (does_addr_is_aligned32 r.read_start_addr)
    then (app_param_error, h)
    else if r.read_length == 0
    then (app_param_error, h)
    else if not (in_bounds h r.read_start_addr r.read_length)
    then (app_param_error, h)
    else put_request (mfo_read r) h

-- `mFlashWriteRequest`. A program unit of 0 is ruled out by `mFlashEventInit`.
unfoldable pub write_request : WriteParam → Handler → AppResult × Handler
write_request w h =
    if not h.p_manager.is_init_ok
    then (app_unexpect_state, h)
    else if w.p_src == 0
    then (app_pointer_null, h)
    else if w.write_length == 0
    then (app_param_error, h)
    else if not (w.write_length % h.p_basic_param.program_unit == 0)
    then (app_param_error, h)
    else if not (does_addr_is_aligned32 w.write_start_addr)
    then (app_param_error, h)
    else if not (does_addr_is_aligned32 w.p_src)
    then (app_param_error, h)
    else if not (in_bounds h w.write_start_addr w.write_length)
    then (app_param_error, h)
    else put_request (mfo_write w) h

-- `mFlashEraseRequest`
unfoldable pub erase_request : EraseParam → Handler → AppResult × Handler
erase_request e h =
    if not h.p_manager.is_init_ok
    then (app_unexpect_state, h)
    else if not (does_addr_is_page_aligned h.p_basic_param.erase_uint e.erase_start_addr)
    then (app_param_error, h)
    else if e.erase_length == 0
    then (app_param_error, h)
    else if not (in_bounds h e.erase_start_addr e.erase_length)
    then (app_param_error, h)
    else put_request (mfo_erase e) h
