-- ===== src/Flash/Api.antt =====
-- The run of the handler in FlashEventHandle.h, and its functions with their tests against `X_Null`.
use eclipse_code.Prelude.{
  suc, ◌-◌, Bool, true, false, ◌||◌, not, Option, none, some, [], leb, if◌then◌else◌, AppResult,
  app_successed, app_pointer_null, app_unexpect_state, on_pointer,
}
use eclipse_code.StateMachine.Simple.{RunResult, simple_state_machine_run}
use eclipse_code.Flash.{
  ReadParam, WriteParam, EraseParam, StateParamExtern, Handler, m_flash_timer_module_interval_in_ms,
}
use eclipse_code.Flash.Operations.{
  with_extern, event_init, event_uninit, read_request, write_request, erase_request,
}

abbrev set_stop : Bool → Handler → Handler
set_stop b h = record h {
  p_fspe = with_extern (record (h.p_fspe.user) { is_state_machine_stop = b }) h.p_fspe;
}

-- `mFlashEventHandlerHold` and `mFlashEventHandlerBeginProcessing`
unfoldable pub handler_hold : Handler → AppResult × Handler
handler_hold h =
    if not h.p_manager.is_init_ok then (app_unexpect_state, h) else (app_successed, set_stop true h)

unfoldable pub handler_begin_processing : Handler → AppResult × Handler
handler_begin_processing h =
    if not h.p_manager.is_init_ok
    then (app_unexpect_state, h)
    else (app_successed, set_stop false h)

-- the waiting time behind a run, where a function of the timer is missing
unfoldable pub wait_down : Handler → Handler
wait_down h =
    if not h.has_get_ms || not h.has_set_ms
    then if leb m_flash_timer_module_interval_in_ms h.p_fspe.user.wait_counter
      then record h {
        p_fspe =
            with_extern
              (record (h.p_fspe.user) {
                wait_counter = h.p_fspe.user.wait_counter - m_flash_timer_module_interval_in_ms;
              })
              h.p_fspe;
      }
      else h
    else h

-- `SimpleStateMachineRun` has run to its end; `none` is a loop that never ends.
unfoldable pub run_behind : Option (RunResult StateParamExtern) → Handler → Option Handler
run_behind none h = none
run_behind (some r) h = some (
    wait_down (record h {
      p_fspe = r.p_smp;
      p_flash_state = record (h.p_flash_state) { current_state_num = r.state };
    }))

-- `mFlashEventHandlerRun`, with as much fuel as the engine has rounds, and one for the last test
unfoldable pub handler_run : Handler → Option Handler
unfolding run_behind wait_down
handler_run h =
    if not h.p_manager.is_init_ok
    then some h
    else run_behind
        (simple_state_machine_run (suc h.p_flash_state.max_hop_times) none h.p_flash_state h.p_fspe
          [])
        h

-- The functions of the header, with their tests against `X_Null`.
pub m_flash_event_init : Option Handler → AppResult × Option Handler
m_flash_event_init = on_pointer app_pointer_null event_init

pub m_flash_event_uninit : Option Handler → AppResult × Option Handler
m_flash_event_uninit = on_pointer app_pointer_null event_uninit

pub m_flash_read_request : ReadParam → Option Handler → AppResult × Option Handler
m_flash_read_request r = on_pointer app_pointer_null (read_request r)

pub m_flash_write_request : WriteParam → Option Handler → AppResult × Option Handler
m_flash_write_request w = on_pointer app_pointer_null (write_request w)

pub m_flash_erase_request : EraseParam → Option Handler → AppResult × Option Handler
m_flash_erase_request e = on_pointer app_pointer_null (erase_request e)

pub m_flash_event_handler_hold : Option Handler → AppResult × Option Handler
m_flash_event_handler_hold = on_pointer app_pointer_null handler_hold

pub m_flash_event_handler_begin_processing : Option Handler → AppResult × Option Handler
m_flash_event_handler_begin_processing = on_pointer app_pointer_null handler_begin_processing

-- `DoesMyFlashModuleBusy`
pub does_my_flash_module_busy : Option Handler → Bool
does_my_flash_module_busy h = true
