-- ===== src/ButtonModule/Turns.antt =====
-- One turn of a button in `ButtonStateMonitor` of ButtonModule.c: the engine runs one action, since the
-- monitor hands it no `DoesBreak`.
use eclipse_code.Prelude.{
  ℕ, suc, ◌+◌, ◌<◌, ◌≡◌, refl, ap, Bool, true, false, Option, some, none, get_or, ltb, arith,
  app_successed,
}
use eclipse_code.StateMachine.{MachineParam, Records}
use eclipse_code.StateMachine.Simple.{
  recorded, simple_state_machine_run, simple_run_by, simple_loop, simple_round, round_behind,
  simple_end,
}
use eclipse_code.ButtonModule.{ParamSingleButton, ButtonStateFlag, Button, time_manager}
use eclipse_code.ButtonModule.Actions.{button_state_action, Jump}
use eclipse_code.ButtonModule.Monitor.{
  ButtonPlace, monitor_table, machine_param, turn_end, button_turn,
}

module _ (loop_time button_number : ℕ) (config : Option (ParamSingleButton → ParamSingleButton))
    (hops : ℕ) (some_hop : 0 < hops) where
  abbrev pub at_state : ℕ → ℕ → ButtonPlace → ButtonStateFlag → MachineParam Button
  at_state i st place flags =
      record (machine_param loop_time button_number config hops i place flags) {
        current_state = st;
      }

  -- the run of one action
  run_action :
      (i : ℕ) (place : ButtonPlace) (flags : ButtonStateFlag) (records : Records)
      (action : MachineParam Button → Jump) (next : ℕ) (p : MachineParam Button)
      → place.state < 11
      → next < 11
      → get_or (button_state_action loop_time button_number config) place.state none ≡ some action
      → action (at_state i place.state place flags) ≡ (next, p)
      → simple_state_machine_run
          (suc hops)
          none
          (monitor_table loop_time button_number config hops place.state)
          (machine_param loop_time button_number config hops i place flags)
          records
        ≡ some (record {
          result = app_successed;
          state = next;
          p_smp = p;
          records = recorded place.state next records;
        })
  unfolding simple_state_machine_run simple_run_by simple_loop simple_round round_behind simple_end
  run_action i place flags records action next p lt next_lt here does =
      let low : ltb 20 place.state ≡ false = ground arith in
      let more : ltb 0 hops ≡ true = ground arith in
      let fine : ltb 11 (next + 1) ≡ false = ground arith in rw (low, here, more, does, fine) refl

  -- the whole turn
  pub turn_action :
      (i : ℕ) (pushed : Bool) (place : ButtonPlace) (flags : ButtonStateFlag) (records : Records)
      (action : MachineParam Button → Jump) (next : ℕ) (p : MachineParam Button)
      → place.state < 11
      → next < 11
      → get_or (button_state_action loop_time button_number config) place.state none ≡ some action
      → action (at_state i place.state place flags) ≡ (next, p)
      → button_turn loop_time button_number config hops i pushed place flags records
        ≡ some (
          record {
            state = next;
            current_state = p.current_state;
            place_psb = time_manager pushed p.user.s_psb;
          },
          p.user.s_bsf,
          recorded place.state next records,
        )
  unfolding button_turn
  turn_action i pushed place flags records action next p lt next_lt here does =
      ap (turn_end loop_time button_number config hops pushed)
        (run_action i place flags records action next p lt next_lt here does)
