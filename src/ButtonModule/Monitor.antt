-- ===== src/ButtonModule/Monitor.antt =====
-- `ButtonStateMonitor` and `ButtonFlagReport` of ButtonModule.c. The callbacks are kept as a list of
-- reports, and `get_value` is a parameter, the value that it returns.
use eclipse_code.Prelude.{
  ℕ, zero, suc, ◌+◌, Bool, Option, some, none, List, [], ◌∷◌, ◌++◌, ◌==◌, if◌then◌else◌, not,
  get_elem?, set,
}
use eclipse_code.BitOperation.{twobyte_getbit}
use eclipse_code.StateMachine.{MachineParam, StateSimpleParam, Records}
use eclipse_code.StateMachine.Simple.{RunResult, simple_state_machine_run}
use eclipse_code.ButtonModule.{
  ParamSingleButton, ButtonStateFlag, Button, time_manager, button_flag_init,
}
use eclipse_code.ButtonModule.Actions.{button_state_action}

-- an entry of `sPE` and the state number of its monitor
pub record ButtonPlace : Type 0 where
  pub state : ℕ
  pub current_state : ℕ
  pub place_psb : ParamSingleButton

-- what the callbacks are called with
pub data Report : Type 0 where
  click : ℕ → Report
  double_click : ℕ → Report
  long_push : ℕ → Report
  long_push_release : ℕ → List ℕ → Report

-- which callbacks are set
pub record Callbacks : Type 0 where
  pub has_click : Bool
  pub has_double_click : Bool
  pub has_long_push : Bool
  pub has_long_push_release : Bool

-- the variables of the file, the calls of `StateRecorder`, and the reports
pub record Monitor : Type 0 where
  pub spe : List ButtonPlace
  pub sbsf : ButtonStateFlag
  pub records : Records
  pub reports : List Report

abbrev pub report_if : Bool → ℕ → Report → List Report
report_if set flag r = if set then if not (flag == 0) then r ∷ [] else [] else []

-- `ButtonFlagReport`
unfoldable pub button_flag_report : Callbacks → Monitor → Monitor
button_flag_report c m = record m {
  reports =
      m.reports
      ++ (report_if c.has_click m.sbsf.is_click (click m.sbsf.is_click)
          ++ (report_if c.has_double_click m.sbsf.is_double_click
                (double_click m.sbsf.is_double_click)
              ++ (report_if c.has_long_push m.sbsf.is_longpush (long_push m.sbsf.is_longpush)
                  ++ report_if c.has_long_push_release m.sbsf.is_longpush_release
                      (long_push_release m.sbsf.is_longpush_release m.sbsf.long_push_last_cycle))));
  sbsf = button_flag_init m.sbsf;
}

-- the settings, and the limit of rounds of the monitors
module _ (loop_time button_number : ℕ) (config : Option (ParamSingleButton → ParamSingleButton))
    (max_hop_times : ℕ) where
  -- `p_monitor[i]`
  abbrev pub monitor_table : ℕ → StateSimpleParam Button
  monitor_table state = record {
    all_state_num = 11;
    max_hop_times = max_hop_times;
    p_action = some (button_state_action loop_time button_number config);
    current_state_num = state;
  }

  -- `sPE[i]` with its number, and the flags
  abbrev pub machine_param : ℕ → ButtonPlace → ButtonStateFlag → MachineParam Button
  machine_param i place flags = record {
    current_state = place.current_state;
    user = record { current_button_number = i; s_psb = place.place_psb; s_bsf = flags };
  }

  -- a button behind its run, with `TimeManager`; `none` is a run that never ends
  unfoldable pub turn_end :
      Bool → Option (RunResult Button) → Option (ButtonPlace × ButtonStateFlag × Records)
  turn_end pushed none = none
  turn_end pushed (some r) = some (
    record {
      state = r.state;
      current_state = r.p_smp.current_state;
      place_psb = time_manager pushed r.p_smp.user.s_psb;
    },
    r.p_smp.user.s_bsf,
    r.records,
  )

  -- the body of the loop of `ButtonStateMonitor` for the button `i`
  unfoldable pub button_turn :
      ℕ
      → Bool
      → ButtonPlace
      → ButtonStateFlag
      → Records
      → Option (ButtonPlace × ButtonStateFlag × Records)
  unfolding turn_end
  button_turn i pushed place flags records = turn_end pushed (
      simple_state_machine_run (suc max_hop_times) none (monitor_table place.state)
        (machine_param i place flags) records)

  abbrev pub place_back :
      ℕ → Option (ButtonPlace × ButtonStateFlag × Records) → Monitor → Option Monitor
  place_back i none m = none
  place_back i (some (place, flags, records)) m =
      some (record m { spe = set m.spe i place; sbsf = flags; records = records })

  abbrev pub turn_at : ℕ → Bool → Option ButtonPlace → Monitor → Option Monitor
  turn_at i pushed none m = none
  turn_at i pushed (some place) m = place_back i (button_turn i pushed place m.sbsf m.records) m

  abbrev pub and_then : Option Monitor → (Monitor → Option Monitor) → Option Monitor
  and_then none f = none
  and_then (some m) f = f m

  -- The loop of `ButtonStateMonitor` with `n` buttons left, at `i`. `none` is also a button behind the
  -- array `sPE`, which has 16 places.
  unfoldable pub monitor_loop : ℕ → ℕ → ℕ → Monitor → Option Monitor
  monitor_loop zero i value m = some m
  monitor_loop (suc n) i value m =
      and_then (turn_at i (twobyte_getbit value i == 1) (get_elem? m.spe i) m)
        (monitor_loop n (i + 1) value)

  -- `ButtonStateMonitor`
  unfoldable pub button_state_monitor : Callbacks → ℕ → Monitor → Option Monitor
  unfolding monitor_loop
  button_state_monitor c value m =
      and_then (monitor_loop button_number 0 value m) (λ u. some (button_flag_report c u))
