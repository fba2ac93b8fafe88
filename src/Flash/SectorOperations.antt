-- ===== src/Flash/SectorOperations.antt =====
-- The two requests by sector of FlashEventHandle.h.
use eclipse_code.Prelude.{
  ℕ, ◌+◌, ◌*◌, ◌%◌, Bool, true, ◌||◌, not, Option, none, some, ltb, leb, ◌==◌, if◌then◌else◌, set,
  u16_mod, u32_mod, AppResult, app_successed, app_pointer_null, app_param_error, app_unexpect_state,
}
use eclipse_code.PriorityQueue.{PriorityListManager}
use eclipse_code.PriorityQueue.Queue.{Answer, queue_push}
use eclipse_code.Flash.{WriteParam, mfo_read, Handler, does_addr_is_aligned32}
use eclipse_code.Flash.Operations.{put_request}

-- the address of a sector, and the tests of the two sector requests on it, in 32 bits
abbrev pub sector_addr : Handler → ℕ → ℕ → ℕ
sector_addr h page_number sector_number =
    (h.p_user_param.sector_size * sector_number + h.p_basic_param.erase_uint * page_number)
    % u32_mod

-- no user information is configured
abbrev lacks_infor_by : Option ℕ → ℕ → Bool
lacks_infor_by none count = true
lacks_infor_by (some t) count = count == 0

abbrev lacks_infor : Handler → Bool
lacks_infor h =
    lacks_infor_by h.p_user_infor_table.p_infor h.p_user_infor_table.user_infor_count_by_erase_page

unfoldable pub bad_sector : Handler → ℕ → ℕ → ℕ → Bool
bad_sector h page_number sector_number length =
    ltb h.p_user_param.sector_size length
    || length == 0
    || leb h.p_manager.sector_count_in_erase_unit sector_number
    || leb h.p_basic_param.total_size_in_bytes (sector_addr h page_number sector_number)

-- `mFlashSectorReadRequest`
unfoldable pub sector_read_request : ℕ → ℕ → ℕ → ℕ → Option ℕ → Handler → AppResult × Handler
unfolding bad_sector
sector_read_request page_number sector_number length p_dest read_cb h =
    if not h.p_manager.is_init_ok
    then (app_unexpect_state, h)
    else if lacks_infor h
    then (app_pointer_null, h)
    else if p_dest == 0
    then (app_pointer_null, h)
    else if bad_sector h page_number sector_number length
    then (app_param_error, h)
    else put_request
        (mfo_read (record {
          read_start_addr = sector_addr h page_number sector_number;
          read_length = length;
          p_dest = p_dest;
          read_cb = read_cb;
        }))
        h

-- A sector's write behind `mPriorityQueuePush`. A push that succeeds has written the node number.
unfoldable pub push_by : Answer × PriorityListManager → WriteParam → Handler → AppResult × Handler
push_by ((true, some node_num), q) w h = (
  app_successed,
  record h {
    p_priority_queue = q;
    p_manager = record (h.p_manager) {
      simul_write_param = set h.p_manager.simul_write_param node_num w;
    };
  },
)
push_by (answer, q) w h = (app_unexpect_state, record h { p_priority_queue = q })

-- the priority of a sector, a `uint16_t`
abbrev pub sector_priority : Handler → ℕ → ℕ → ℕ
sector_priority h page_number sector_number =
    (page_number * h.p_manager.sector_count_in_erase_unit + sector_number) % u32_mod % u16_mod

-- `mFlashSectorWriteRequest`
unfoldable pub sector_write_request : ℕ → ℕ → ℕ → ℕ → Option ℕ → Handler → AppResult × Handler
unfolding bad_sector push_by
sector_write_request page_number sector_number length p_src write_cb h =
    if not h.p_manager.is_init_ok
    then (app_unexpect_state, h)
    else if lacks_infor h
    then (app_pointer_null, h)
    else if p_src == 0
    then (app_pointer_null, h)
    else if bad_sector h page_number sector_number length
    then (app_param_error, h)
    else if not (does_addr_is_aligned32 p_src)
    then (app_param_error, h)
    else push_by (queue_push (sector_priority h page_number sector_number) h.p_priority_queue)
        (record {
          write_start_addr = sector_addr h page_number sector_number;
          write_length = length;
          p_src = p_src;
          write_cb = write_cb;
        })
        h
