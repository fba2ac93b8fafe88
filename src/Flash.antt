-- ===== src/Flash.antt =====
-- CustomizedModule/FlashReadWrite/FlashEventHandle.c and .h with the default configuration
-- (m_flash_handler_config_default.h): requests to a flash chip, kept by node numbers of the loop queue
-- and of the priority queue. The debug calls are left out. Operations has the functions.
pub mod Operations
pub mod SectorOperations
pub mod Api
pub mod Checks
pub mod Requests
pub mod Sectors
mod Tests
use eclipse_code.Prelude.{
  ℕ, zero, suc, ◌+◌, ◌-◌, ◌*◌, ◌/◌, ◌%◌, Bool, true, false, ◌&&◌, Option, List, ltb, leb, ◌==◌,
  if◌then◌else◌, bit_and, u32_mod,
}
use eclipse_code.LoopQueue.{ListManager}
use eclipse_code.PriorityQueue.{PriorityListManager}
use eclipse_code.StateMachine.{MachineParam, StateSimpleParam}

-- `M_FLASH_TIMER_MODULE_INTERVAL_IN_MS`
abbrev pub m_flash_timer_module_interval_in_ms : ℕ
m_flash_timer_module_interval_in_ms = 8

-- The parameters of a request. An address in memory is a number, 0 for the null pointer, and a
-- callback is known by a number.
pub record ReadParam : Type 0 where
  pub read_start_addr : ℕ
  pub read_length : ℕ
  pub p_dest : ℕ
  pub read_cb : Option ℕ

pub record WriteParam : Type 0 where
  pub write_start_addr : ℕ
  pub write_length : ℕ
  pub p_src : ℕ
  pub write_cb : Option ℕ

pub record EraseParam : Type 0 where
  pub erase_start_addr : ℕ
  pub erase_length : ℕ
  pub erase_cb : Option ℕ

-- `sMyFlashOperationParam`: the code of the operation with its part of the union
pub data OperationParam : Type 0 where
  mfo_read : ReadParam → OperationParam
  mfo_write : WriteParam → OperationParam
  mfo_erase : EraseParam → OperationParam

-- `sMyFlashModuleManager`
pub record ModuleManager : Type 0 where
  pub is_init_ok : Bool
  pub sector_count_in_erase_unit : ℕ
  pub simul_write_param : List WriteParam
  pub fop : List OperationParam

-- `sMyFlashEventBasicParam` and `sMyFlashEventUserParam`
pub record BasicParam : Type 0 where
  pub base_addr : ℕ
  pub total_size_in_bytes : ℕ
  pub erase_uint : ℕ
  pub program_unit : ℕ

pub record UserParam : Type 0 where
  pub sector_size : ℕ
  pub total_sector_count : ℕ

-- `sUserInforPageTable`, with its table known by a number
pub record UserInforPageTable : Type 0 where
  pub user_infor_count_by_erase_page : ℕ
  pub p_infor : Option ℕ

-- `sMyFlashEventAction` and `sMyFlashEventTimer`: which functions are set. No function here calls
-- others than `init` and `uninit`, which work on the hardware.
pub record EventAction : Type 0 where
  pub has_init : Bool
  pub has_uninit : Bool
  pub has_read_evt_handler : Bool
  pub has_write_evt_handler : Bool
  pub has_erase_evt_handler : Bool
  pub has_doesbusy : Bool

-- `sMyFlashStateParamExtern` behind its base
pub record StateParamExtern : Type 0 where
  pub is_state_machine_stop : Bool
  pub latest_state_before_request_check : ℕ
  pub wait_counter : ℕ

-- `sMyFlashEventHandler` with what it points to; `hardware` counts the calls of `init` and `uninit`.
pub record Handler : Type 0 where
  pub p_manager : ModuleManager
  pub p_basic_param : BasicParam
  pub p_user_param : UserParam
  pub p_loop_queue : ListManager
  pub p_user_infor_table : UserInforPageTable
  pub p_priority_queue : PriorityListManager
  pub on_user_infor_config : Option (UserInforPageTable → UserInforPageTable)
  pub p_action : EventAction
  pub has_get_ms : Bool
  pub has_set_ms : Bool
  pub p_fspe : MachineParam StateParamExtern
  pub p_flash_state : StateSimpleParam StateParamExtern
  pub hardware_inits : ℕ
  pub hardware_uninits : ℕ

-- `does_addr_is_page_aligned`, with `erase_unit - 1` in 32 bits
unfoldable pub does_addr_is_page_aligned : ℕ → ℕ → Bool
does_addr_is_page_aligned erase_unit addr =
    bit_and 32 addr ((erase_unit + u32_mod - 1) % u32_mod) == 0

-- `does_addr_is_aligned32`
unfoldable pub does_addr_is_aligned32 : ℕ → Bool
does_addr_is_aligned32 addr = bit_and 32 addr 3 == 0

-- `does_addr_is_within_bounds`, with its sums in 32 bits
unfoldable pub does_addr_is_within_bounds : ℕ → ℕ → ℕ → ℕ → Bool
does_addr_is_within_bounds start_addr total_length addr len =
    leb start_addr addr && leb ((addr + len) % u32_mod) ((start_addr + total_length) % u32_mod)

-- `does_user_define_sector_is_page_aligned`. A sector size of 0 is a division by 0 in the code; here
-- the remainder is the erase unit.
unfoldable pub does_user_define_sector_is_page_aligned : ℕ → ℕ → Bool
does_user_define_sector_is_page_aligned erase_unit sector_size =
    if ltb erase_unit sector_size then false else erase_unit % sector_size == 0
