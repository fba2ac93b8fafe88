-- ===== src/StateMachine/Targets.antt =====
-- `StateMachineRun` of StateMachine.c ends with a state of the table, if the table's hops lead to
-- its states.
use eclipse_code.Prelude.{
  ℕ, zero, suc, ◌+◌, ◌%◌, ◌≤◌, ◌<◌, ◌≡◌, refl, sym, ◌∙◌, ◌⊎◌, inl, inr, Bool, true, false, Option,
  some, none, List, get_elem?, ltb, ◌==◌, ◌||◌, u8_mod, u16_mod, Bool-cases, arith,
}
use mathlib.Core.Bool.{true≢false}
use eclipse_code.StateMachine.{MachineParam, HopHandle, StateHandle, StateBasicParam, Records}
use eclipse_code.StateMachine.Simple.{Outcome, Round, RunResult}
use eclipse_code.StateMachine.Hops.{
  hop_target, call_hop, hop_by, hop_at, hop_loop, wrong_jump, hops_of, state_round_by, state_round,
  state_loop, state_run_by, state_machine_run,
}
use eclipse_code.StateMachine.Range.{IsInRange, IsRunning, IsRun, ended}

module _ {ℓ} {U : Type ℓ} (all : ℕ) where
  -- Both targets of a hop are states of the table.
  unfoldable pub LeadsInside : Option (HopHandle U) → Type 0
  LeadsInside none = true ≡ true
  LeadsInside (some h) = (h.next_state_when_true < all) × (h.next_state_when_false < all)

  unfoldable pub HopsInside : Option (List (HopHandle U)) → Type 0
  HopsInside none = true ≡ true
  HopsInside (some hops) = (j : ℕ) → LeadsInside (get_elem? hops j)

  unfoldable pub HandleInside : Option (StateHandle U) → Type 0
  HandleInside none = true ≡ true
  HandleInside (some h) = HopsInside h.p_hop

  module _ (few : all ≤ 20) where
    target_inside :
        (h : HopHandle U) (r : Bool × MachineParam U) → LeadsInside (some h) → hop_target h r < all
    unfolding LeadsInside
    target_inside h (true, p) (t, f) =
        let plain : (h.next_state_when_true == 255) ≡ false = ground arith in rw plain t
    target_inside h (false, p) (t, f) =
        let plain : (h.next_state_when_false == 255) ≡ false = ground arith in rw plain f

    hop_by-IsRunning :
        (h : HopHandle U) (f : Option (MachineParam U → Bool × MachineParam U)) (o : Outcome U)
        → LeadsInside (some h)
        → IsRunning all o
        → IsRunning all (hop_by h f o).1
    unfolding hop_by IsRunning
    hop_by-IsRunning h none o inside running = running
    hop_by-IsRunning h (some f) o inside running =
        elim (Bool-cases (hop_target h (call_hop f o) == o.current_state_num)) [
          | inl e ↦ rw e running
          | inr e ↦ rw e (target_inside h (call_hop f o) inside, running.1)
        ]

    hop_at-IsRunning :
        (h : Option (HopHandle U)) (o : Outcome U)
        → LeadsInside h
        → IsRunning all o
        → IsRunning all (hop_at h o).1
    unfolding hop_at
    hop_at-IsRunning none o inside running = running
    hop_at-IsRunning (some h) o inside running = hop_by-IsRunning h h.on_hop o inside running

    hop_loop-IsRunning :
        (n counter : ℕ) (hops : List (HopHandle U)) (o : Outcome U)
        → HopsInside (some hops)
        → IsRunning all o
        → IsRunning all (hop_loop n counter hops o)
    unfolding hop_loop HopsInside
    hop_loop-IsRunning zero counter hops o inside running = running
    hop_loop-IsRunning (suc n) counter hops o inside running =
        let next = hop_at-IsRunning (get_elem? hops counter) o (inside counter) running in
        elim (Bool-cases ((hop_at (get_elem? hops counter) o).0)) [
          | inl e ↦ rw e next
          | inr e ↦ rw e (hop_loop-IsRunning n ((counter + 1) % u8_mod) hops _ inside next)
        ]

    IsRound : Round U → Type 0
    IsRound r = IsInRange all r.outcome × ((r.stop ≡ true) ⊎ IsRunning all r.outcome)

    module _ (some_state : 0 < all) (does_break : Option (ℕ → ℕ → Bool)) where
      wrong-IsRound :
          (counter : ℕ) (o : Outcome U)
          → IsRound (record { stop = true; counter = counter; outcome = wrong_jump o })
      unfolding IsRound IsInRange
      wrong-IsRound counter o = ((some_state, inr refl), inl refl)

      state_round_by-IsRound :
          (counter times : ℕ) (hops : Option (List (HopHandle U))) (o : Outcome U)
          → HopsInside hops
          → IsRunning all o
          → IsRound (state_round_by does_break counter times hops o)
      unfolding state_round_by IsRound IsInRange IsRunning
      state_round_by-IsRound counter times none o inside running = wrong-IsRound counter o
      state_round_by-IsRound counter times (some hops) o inside running =
          let next = hop_loop-IsRunning times 0 hops o inside running in
          ((next.0, inl next.1), inr next)

      state_round-IsRound :
          (counter : ℕ) (h : Option (StateHandle U)) (o : Outcome U)
          → HandleInside h
          → IsRunning all o
          → IsRound (state_round does_break all counter h o)
      unfolding state_round state_round_by HandleInside hops_of
      state_round-IsRound counter none o inside running = wrong-IsRound counter o
      state_round-IsRound counter (some h) o inside running =
          elim (Bool-cases (ltb all (o.current_state_num + 1))) [
            | inl e ↦ rw e (wrong-IsRound counter o)
            | inr e ↦ elim (Bool-cases (h.current_max_hop_times == 0)) [
              | inl z ↦ rw (e, z) (wrong-IsRound counter o)
              | inr z ↦
                  rw (e, z)
                    (state_round_by-IsRound counter h.current_max_hop_times h.p_hop o inside
                      running)
            ]
          ]

      state_loop-IsInRange :
          (handles : List (StateHandle U)) (n counter : ℕ) (o : Outcome U)
          → ((i : ℕ) → HandleInside (get_elem? handles i))
          → IsRunning all o
          → IsInRange all (state_loop does_break all handles n counter o)
      unfolding state_loop IsRound IsInRange IsRunning
      state_loop-IsInRange handles zero counter o inside (l, f) = (l, inl f)
      state_loop-IsInRange handles (suc n) counter o inside running =
          let r =
            state_round does_break all ((counter + 1) % u16_mod)
              (get_elem? handles o.current_state_num) o in
          let (range, after) =
            state_round-IsRound ((counter + 1) % u16_mod) (get_elem? handles o.current_state_num) o
              (inside o.current_state_num) running in
          elim (Bool-cases r.stop) [
            | inl e ↦ rw e range
            | inr e ↦
                let still : IsRunning all r.outcome = elim after [
                  | inl stop ↦ absurd (true≢false (sym stop ∙ e))
                  | inr go ↦ go
                ] in
                rw e (state_loop-IsInRange handles n r.counter r.outcome inside still)
          ]

module _ {ℓ} {U : Type ℓ} where
  -- `StateMachineRun` of a table with 1 to 20 states, whose hops lead to states of the table, and with
  -- 1 to 6 rounds, from a state of the table: it returns `APP_SUCCESSED` with a state of the table, or
  -- `APP_ERROR` with the first one.
  pub state_machine_run-IsRun :
      (s : StateBasicParam U) (handles : List (StateHandle U)) (does_break : Option (ℕ → ℕ → Bool))
      (p : MachineParam U) (records : Records)
      → s.p_handle ≡ some handles
      → ((i : ℕ) → HandleInside s.all_state_num (get_elem? handles i))
      → s.all_state_num ≤ 20
      → 0 < s.max_hop_times
      → s.max_hop_times ≤ 6
      → s.current_state_num < s.all_state_num
      → (r : RunResult U) × (state_machine_run does_break s p records ≡ some r)
        × IsRun s.all_state_num r
  unfolding state_machine_run state_run_by IsRunning
  state_machine_run-IsRun s handles does_break p records table targets all some_round rounds
        inside =
      let size : (ltb 20 s.all_state_num || s.all_state_num == 0) ≡ false = ground arith in
      let hops : (ltb 6 s.max_hop_times || s.max_hop_times == 0) ≡ false = ground arith in
      let state : ltb 20 s.current_state_num ≡ false = ground arith in
      let start : Outcome U = record {
        is_state_jump_wrong = false;
        current_state_num = s.current_state_num;
        p_smp = p;
        records = records;
      } in
      let o : Outcome U = state_loop does_break s.all_state_num handles s.max_hop_times 0 start in
      let range : IsInRange s.all_state_num o =
        state_loop-IsInRange s.all_state_num all (omega arith) does_break handles s.max_hop_times 0
          start targets (inside, refl) in
      let (r, end, good) = ended s.all_state_num o range in
      (r, rw (table, size, hops, state) end, good)
