-- ===== src/StateMachine/Tests.antt =====
-- Tests of the state machine's engines, and their theorems at concrete tables.
use eclipse_code.Prelude.{
  ℕ, suc, ◌+◌, ◌≡◌, refl, Bool, true, false, some, none, List, [], ◌∷◌, get_or, get_elem?, zero,
  arith, app_successed,
}
use eclipse_code.StateMachine.{
  MachineParam, StateAction, StateSimpleParam, HopHandle, StateHandle, StateBasicParam,
}
use eclipse_code.StateMachine.Simple.{
  Outcome, RunResult, round_behind, simple_round, simple_loop, simple_end, simple_run_by,
  simple_state_machine_run,
}
use eclipse_code.StateMachine.Hops.{
  hop_by, hop_at, hop_loop, hops_of, state_round_by, state_round, state_loop, state_run_by,
  state_machine_run,
}
use eclipse_code.StateMachine.Targets.{
  LeadsInside, HopsInside, HandleInside, state_machine_run-IsRun,
}
use eclipse_code.StateMachine.Range.{IsRun, simple_state_machine_run-IsRun, loop_forever}

-- three states that count their calls in the user's part
abbrev go_to : ℕ → StateAction ℕ
go_to next = some (λ p. (next, record p { user = p.user + 1 }))

abbrev actions : List (StateAction ℕ)
actions = go_to 1 ∷ go_to 2 ∷ none ∷ []

abbrev table : StateSimpleParam ℕ
table = record {
  all_state_num = 3;
  max_hop_times = 5;
  p_action = some actions;
  current_state_num = 0;
}

abbrev fresh : MachineParam ℕ
fresh = record { current_state = 9; user = 0 }

two_jumps :
    simple_state_machine_run 6 (some (λ state counter. false)) table fresh []
    ≡ some (record {
      result = app_successed;
      state = 2;
      p_smp = record { current_state = 1; user = 2 };
      records = (1, 2) ∷ (0, 1) ∷ [];
    })
unfolding simple_state_machine_run simple_run_by simple_loop simple_round round_behind simple_end
two_jumps = refl

simple_state_machine_run-IsRun_example :
    (r : RunResult ℕ) × (simple_state_machine_run 6 none table fresh [] ≡ some r) × IsRun 3 r
simple_state_machine_run-IsRun_example =
    simple_state_machine_run-IsRun table actions none fresh [] refl (omega arith) (omega arith)
      (omega arith)

-- a state without an action
abbrev idle : Outcome ℕ
idle = record { is_state_jump_wrong = false; current_state_num = 0; p_smp = fresh; records = [] }

idle_goes_on :
    (counter : ℕ) (o : Outcome ℕ)
    → (simple_round {U = ℕ} 1 300 []
        (some (λ state c. false))
        (get_or [] o.current_state_num none)
        counter
        o).stop
      ≡ false
unfolding simple_round
idle_goes_on counter o = refl

loop_forever_example : simple_loop {U = ℕ} 1 300 [] (some (λ state c. false)) 1000 0 0 idle ≡ none
loop_forever_example =
    loop_forever 1 (omega arith) 300 [] (some (λ state c. false)) 1000 0 0 idle (omega arith)
      (omega arith) idle_goes_on

-- two states; the second hop of each leads to the other
abbrev hop_to : Bool → ℕ → HopHandle ℕ
hop_to answer next = record {
  on_hop = some (λ p. (answer, record p { user = p.user + 1 }));
  next_state_when_true = next;
  next_state_when_false = 0;
}

abbrev handles : List (StateHandle ℕ)
handles =
    record { current_max_hop_times = 2; p_hop = some (hop_to false 1 ∷ hop_to true 1 ∷ []) }
    ∷ record { current_max_hop_times = 1; p_hop = some (hop_to true 0 ∷ []) }
    ∷ []

abbrev basic : StateBasicParam ℕ
basic = record {
  all_state_num = 2;
  max_hop_times = 3;
  p_handle = some handles;
  current_state_num = 0;
}

three_rounds :
    state_machine_run (some (λ state counter. false)) basic fresh []
    ≡ some (record {
      result = app_successed;
      state = 1;
      p_smp = record { current_state = 0; user = 5 };
      records = (0, 1) ∷ (1, 0) ∷ (0, 1) ∷ [];
    })
unfolding state_machine_run state_run_by state_loop state_round state_round_by hops_of hop_loop
    hop_at hop_by simple_end
three_rounds = refl

first_inside : (j : ℕ) → LeadsInside 2 (get_elem? (hop_to false 1 ∷ hop_to true 1 ∷ []) j)
unfolding LeadsInside
first_inside zero = (omega arith, omega arith)
first_inside (suc zero) = (omega arith, omega arith)
first_inside (suc (suc j)) = refl

second_inside : (j : ℕ) → LeadsInside 2 (get_elem? (hop_to true 0 ∷ []) j)
unfolding LeadsInside
second_inside zero = (omega arith, omega arith)
second_inside (suc j) = refl

handles_inside : (i : ℕ) → HandleInside 2 (get_elem? handles i)
unfolding HandleInside HopsInside
handles_inside zero = first_inside
handles_inside (suc zero) = second_inside
handles_inside (suc (suc i)) = refl

state_machine_run-IsRun_example :
    (r : RunResult ℕ) × (state_machine_run none basic fresh [] ≡ some r) × IsRun 2 r
state_machine_run-IsRun_example =
    state_machine_run-IsRun basic handles none fresh [] refl handles_inside (omega arith)
      (omega arith) (omega arith) (omega arith)
