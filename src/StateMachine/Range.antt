-- ===== src/StateMachine/Range.antt =====
-- `SimpleStateMachineRun` of StateMachine.c ends with a state of the table, whatever the actions do,
-- if it runs 255 rounds at most; with more rounds, its counter of 8 bits never reaches the end.
use eclipse_code.Prelude.{
  ℕ, zero, suc, ◌+◌, ◌%◌, ◌≤◌, ◌<◌, ◌≡◌, refl, sym, ◌∙◌, ◌⊎◌, inl, inr, Bool, true, false, Option,
  some, none, List, get_or, ltb, ◌==◌, ◌||◌, u8_mod, Bool-cases, arith, app_successed, app_error,
}
use mathlib.Core.Bool.{true≢false}
use eclipse_code.StateMachine.{MachineParam, StateAction, StateSimpleParam, Records}
use eclipse_code.StateMachine.Simple.{
  Outcome, Round, RunResult, round_behind, simple_round, simple_loop, simple_end, simple_run_by,
  simple_state_machine_run,
}

module _ {ℓ} {U : Type ℓ} (all_state_num : ℕ) where
  -- a state of the table; the first one where the jump was wrong
  unfoldable pub IsInRange : Outcome U → Type 0
  IsInRange o =
      (o.current_state_num < all_state_num)
      × ((o.is_state_jump_wrong ≡ false) ⊎ (o.current_state_num ≡ 0))

  -- as the loop has it before a round
  unfoldable pub IsRunning : Outcome U → Type 0
  IsRunning o = (o.current_state_num < all_state_num) × (o.is_state_jump_wrong ≡ false)

  module _ (some_state : 0 < all_state_num) (max_hop_times : ℕ) (actions : List (StateAction U))
      (does_break : Option (ℕ → ℕ → Bool)) where
    abbrev round : ℕ → Outcome U → Round U
    round counter o =
        simple_round all_state_num max_hop_times actions does_break
          (get_or actions o.current_state_num none) counter o

    abbrev loop : ℕ → ℕ → ℕ → Outcome U → Option (Outcome U)
    loop = simple_loop all_state_num max_hop_times actions does_break

    -- A round stops, or leaves the loop running.
    round_by :
        (action : StateAction U) (counter : ℕ) (o : Outcome U)
        → IsRunning o
        → (let r = simple_round all_state_num max_hop_times actions does_break action counter o in
            IsInRange r.outcome × ((r.stop ≡ true) ⊎ IsRunning r.outcome))
    unfolding simple_round round_behind IsInRange IsRunning
    round_by none counter o (l, f) = ((l, inl f), inr (l, f))
    round_by (some action) counter o (l, f) =
        let next : ℕ = (action (record (o.p_smp) { current_state = o.current_state_num })).0 in
        elim (Bool-cases (ltb all_state_num (next + 1))) [
          | inl e ↦ rw e ((some_state, inr refl), inl refl)
          | inr e ↦
              let inside : next < all_state_num = ground arith in
              rw e ((inside, inl f), inr (inside, f))
        ]

    loop-next :
        (n i counter : ℕ) (o : Outcome U)
        → i < max_hop_times
        → max_hop_times ≤ 255
        → (round counter o).stop ≡ false
        → loop (suc n) i counter o
          ≡ loop n (i + 1) (round counter o).counter (round counter o).outcome
    unfolding simple_loop
    loop-next n i counter o l m go =
        let more : ltb i max_hop_times ≡ true = ground arith in
        let next : (i + 1) % u8_mod ≡ i + 1 = omega arith in rw (more, go, next) refl

    -- The loop ends within the rounds left, in range.
    pub loop-IsInRange :
        (left i counter : ℕ) (o : Outcome U)
        → max_hop_times ≤ 255
        → i + left ≡ max_hop_times
        → IsRunning o
        → (o' : Outcome U) × (loop (suc left) i counter o ≡ some o') × IsInRange o'
    unfolding simple_loop IsInRange IsRunning
    loop-IsInRange zero i counter o m e (l, f) =
        let over : ltb i max_hop_times ≡ false = ground arith in (o, rw over refl, (l, inl f))
    loop-IsInRange (suc left) i counter o m e running =
        let more : ltb i max_hop_times ≡ true = ground arith in
        let (range, after) = round_by (get_or actions o.current_state_num none) counter o running in
        elim (Bool-cases ((round counter o).stop)) [
          | inl stop ↦ ((round counter o).outcome, rw (more, stop) refl, range)
          | inr go ↦
              let still : IsRunning (round counter o).outcome = elim after [
                | inl stop ↦ absurd (true≢false (sym stop ∙ go))
                | inr r ↦ r
              ] in
              let (o', run, range') =
                loop-IsInRange left (i + 1) (round counter o).counter (round counter o).outcome m
                  (omega arith) still in
              (o', loop-next (suc left) i counter o (omega arith) m go ∙ run, range')
        ]

    -- A loop of 256 rounds or more whose rounds do not stop never ends.
    pub loop_forever :
        (fuel i counter : ℕ) (o : Outcome U)
        → 256 ≤ max_hop_times
        → i < 256
        → ((counter : ℕ) (o : Outcome U) → (round counter o).stop ≡ false)
        → loop fuel i counter o ≡ none
    unfolding simple_loop
    loop_forever zero i counter o m l go = refl
    loop_forever (suc fuel) i counter o m l go =
        let more : ltb i max_hop_times ≡ true = ground arith in
        rw (more, go counter o)
          (loop_forever fuel ((i + 1) % u8_mod) (round counter o).counter (round counter o).outcome
            m (omega arith) go)

-- what a run that went through its loop hands back
pub IsRun {ℓ} : {U : Type ℓ} → ℕ → RunResult U → Type 0
IsRun all_state_num r =
    (r.state < all_state_num)
    × ((r.result ≡ app_successed) ⊎ ((r.result ≡ app_error) × (r.state ≡ 0)))

module _ {ℓ} {U : Type ℓ} where
  pub ended :
      (all_state_num : ℕ) (o : Outcome U)
      → IsInRange all_state_num o
      → (r : RunResult U) × (simple_end (some o) ≡ some r) × IsRun all_state_num r
  unfolding simple_end IsInRange IsRun
  ended all_state_num o (l, inl f) = (_, refl, (l, inl (rw f refl)))
  ended all_state_num o (l, inr z) = (
    _,
    refl,
    (
      l,
      elim (Bool-cases o.is_state_jump_wrong) [
        | inl e ↦ inr (rw e (refl, z))
        | inr e ↦ inl (rw e refl)
      ],
    ),
  )

  -- `SimpleStateMachineRun` of a table with 1 to 20 states and at most 255 rounds, from a state of
  -- the table, returns, whatever the actions and `DoesBreak` do: `APP_SUCCESSED` with a state of the
  -- table, or `APP_ERROR` with the first one.
  pub simple_state_machine_run-IsRun :
      (s : StateSimpleParam U) (actions : List (StateAction U)) (does_break : Option (ℕ → ℕ → Bool))
      (p : MachineParam U) (records : Records)
      → s.p_action ≡ some actions
      → s.all_state_num ≤ 20
      → s.max_hop_times ≤ 255
      → s.current_state_num < s.all_state_num
      → (r : RunResult U) × (simple_state_machine_run (suc s.max_hop_times) does_break s p records
          ≡ some r)
        × IsRun s.all_state_num r
  unfolding simple_state_machine_run simple_run_by IsRunning
  simple_state_machine_run-IsRun s actions does_break p records table all rounds inside =
      let size : (ltb 20 s.all_state_num || s.all_state_num == 0) ≡ false = ground arith in
      let state : ltb 20 s.current_state_num ≡ false = ground arith in
      let start : Outcome U = record {
        is_state_jump_wrong = false;
        current_state_num = s.current_state_num;
        p_smp = p;
        records = records;
      } in
      let (o, run, range) =
        loop-IsInRange s.all_state_num (omega arith) s.max_hop_times actions does_break
          s.max_hop_times 0 0 start rounds (omega arith) (inside, refl) in
      let (r, end, good) = ended s.all_state_num o range in
      (r, rw (table, size, state, run) end, good)
