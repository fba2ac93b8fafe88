-- ===== src/StateMachine/Hops.antt =====
-- `StateMachineRun` and `StateMachineStateSet` of StateMachine.c.
use eclipse_code.Prelude.{
  ℕ, zero, suc, ◌+◌, ◌%◌, Bool, true, false, Option, some, none, List, ◌∷◌, get_elem?, ltb, ◌==◌,
  ◌||◌, if◌then◌else◌, u8_mod, u16_mod, app_beyond_scope, app_pointer_null,
}
use eclipse_code.StateMachine.{
  MachineParam, HopHandle, StateHandle, StateBasicParam, Records, max_state_number,
  max_state_event_number, default_state_number, use_variable_state_flag,
}
use eclipse_code.StateMachine.Simple.{Outcome, Round, RunResult, breaks, returns, simple_end}

module _ {ℓ} {U : Type ℓ} where
  -- the state that a hop leads to, with what `onHop` returned
  abbrev pub hop_target : HopHandle U → Bool × MachineParam U → ℕ
  hop_target h (result, p) =
      let next = if result then h.next_state_when_true else h.next_state_when_false in
      if next == use_variable_state_flag then p.current_state else next

  -- `onHop` of a hop, called in the current state
  abbrev pub call_hop : (MachineParam U → Bool × MachineParam U) → Outcome U → Bool × MachineParam U
  call_hop f o = f (record (o.p_smp) { current_state = o.current_state_num })

  -- a hop, by its function: whether the state changed, and the variables
  unfoldable pub hop_by :
      HopHandle U → Option (MachineParam U → Bool × MachineParam U) → Outcome U → Bool × Outcome U
  hop_by h none o = (false, o)
  hop_by h (some f) o =
      let target = hop_target h (call_hop f o) in
      let p = (call_hop f o).1 in
      if target == o.current_state_num then (false, record o { p_smp = p }) else (
        true,
        record o {
          current_state_num = target;
          p_smp = p;
          records = (o.current_state_num, target) ∷ o.records;
        },
      )

  unfoldable pub hop_at : Option (HopHandle U) → Outcome U → Bool × Outcome U
  unfolding hop_by
  hop_at none o = (false, o)
  hop_at (some h) o = hop_by h h.on_hop o

  -- The inner loop with `n` rounds left, at `current_hop_counter`; a hop that changes the state ends
  -- it. A read behind the array of hops is a hop without a function.
  unfoldable pub hop_loop : ℕ → ℕ → List (HopHandle U) → Outcome U → Outcome U
  hop_loop zero counter hops o = o
  hop_loop (suc n) counter hops o =
      let (changed, next) = hop_at (get_elem? hops counter) o in
      let rest = hop_loop n ((counter + 1) % u8_mod) hops next in if changed then next else rest

  -- the jump to the default state
  abbrev pub wrong_jump : Outcome U → Outcome U
  wrong_jump o = record o { is_state_jump_wrong = true; current_state_num = default_state_number }

  -- the hops of a state; `none` where the outer loop is left with an error
  unfoldable pub hops_of : StateHandle U → Option (List (HopHandle U))
  hops_of h = if h.current_max_hop_times == 0 then none else h.p_hop

  -- a round of the outer loop, behind the test of the hops
  unfoldable pub state_round_by :
      Option (ℕ → ℕ → Bool) → ℕ → ℕ → Option (List (HopHandle U)) → Outcome U → Round U
  state_round_by does_break counter times none o = record {
    stop = true;
    counter = counter;
    outcome = wrong_jump o;
  }
  state_round_by does_break counter times (some hops) o =
      let o' = hop_loop times 0 hops o in
      record {
        stop = breaks does_break o'.current_state_num counter;
        counter = counter;
        outcome = o';
      }

  -- a round of the outer loop, by the handle of the current state
  unfoldable pub state_round :
      Option (ℕ → ℕ → Bool) → ℕ → ℕ → Option (StateHandle U) → Outcome U → Round U
  state_round does_break all_state_num counter none o = record {
    stop = true;
    counter = counter;
    outcome = wrong_jump o;
  }
  state_round does_break all_state_num counter (some h) o =
      if ltb all_state_num (o.current_state_num + 1)
      then record { stop = true; counter = counter; outcome = wrong_jump o }
      else state_round_by does_break counter h.current_max_hop_times (hops_of h) o

  -- The outer loop with `n` rounds left. A state behind the array of handles is wrong as well here;
  -- the test against `AllStateNum` comes first in the code.
  unfoldable pub state_loop :
      Option (ℕ → ℕ → Bool) → ℕ → List (StateHandle U) → ℕ → ℕ → Outcome U → Outcome U
  state_loop does_break all_state_num handles zero counter o = o
  state_loop does_break all_state_num handles (suc n) counter o =
      let r =
        state_round does_break all_state_num ((counter + 1) % u16_mod)
          (get_elem? handles o.current_state_num) o in
      let rest = state_loop does_break all_state_num handles n r.counter r.outcome in
      if r.stop then r.outcome else rest

-- `StateMachineRun` behind the null tests of `p_sbp` and `p_smp`, by the pointer to the handles
unfoldable pub state_run_by {ℓ} :
    {U : Type ℓ}
    → Option (ℕ → ℕ → Bool)
    → Option (List (StateHandle U))
    → StateBasicParam U
    → MachineParam U
    → Records
    → Option (RunResult U)
unfolding simple_end
state_run_by does_break none s p records = returns app_pointer_null s.current_state_num p records
state_run_by does_break (some handles) s p records =
    if ltb max_state_number s.all_state_num || s.all_state_num == 0
    then returns app_beyond_scope s.current_state_num p records
    else if ltb max_state_event_number s.max_hop_times || s.max_hop_times == 0
    then returns app_beyond_scope s.current_state_num p records
    else if ltb max_state_number s.current_state_num
    then returns app_beyond_scope default_state_number p records
    else let start : Outcome _ = record {
      is_state_jump_wrong = false;
      current_state_num = s.current_state_num;
      p_smp = p;
      records = records;
    } in
      simple_end (some (state_loop does_break s.all_state_num handles s.max_hop_times 0 start))

unfoldable pub state_machine_run {ℓ} :
    {U : Type ℓ}
    → Option (ℕ → ℕ → Bool)
    → StateBasicParam U
    → MachineParam U
    → Records
    → Option (RunResult U)
unfolding state_run_by
state_machine_run does_break s p records = state_run_by does_break s.p_handle s p records

-- `StateMachineStateSet`
unfoldable pub state_machine_state_set {ℓ} :
    {U : Type ℓ} → ℕ → StateBasicParam U → StateBasicParam U
state_machine_state_set state s = record s { current_state_num = state }
