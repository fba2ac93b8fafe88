-- ===== src/ButtonModule/Pushed.antt =====
-- The turns of a button of ButtonModule.c that is pushed, one by one.
use eclipse_code.Prelude.{
  ℕ, suc, ◌*◌, ◌<◌, ◌≡◌, refl, sym, ap, ◌∙◌, true, false, Option, some, leb, if◌then◌else◌, arith,
  Bool-cases, inl, inr,
}
use eclipse_code.StateMachine.{Records}
use eclipse_code.StateMachine.Simple.{recorded}
use eclipse_code.ButtonModule.{
  ParamAboutTime, ParamSingleButton, ButtonStateFlag, time_manager, clear_push_counter,
}
use eclipse_code.ButtonModule.Actions.{
  button_state_action, start_action, click_detect_action, long_push_detect_action, with_psb,
}
use eclipse_code.ButtonModule.Monitor.{ButtonPlace, button_turn}
use eclipse_code.ButtonModule.Turns.{at_state, turn_action}

-- a button that is pushed for `c` turns
abbrev pub pushed_for : ℕ → ℕ → ℕ → ℕ → ParamAboutTime → ButtonPlace
pushed_for st c cs last spat = record {
  state = st;
  current_state = cs;
  place_psb = record {
    push_time_counter = c;
    release_time_counter = 0;
    latest_push_time_counter_backup = last;
    p_spat = spat;
  };
}

-- a button that is not pushed, in the state 1
abbrev pub at_rest : ℕ → ℕ → ℕ → ParamAboutTime → ButtonPlace
at_rest cs rel last spat = record {
  state = 1;
  current_state = cs;
  place_psb = record {
    push_time_counter = 0;
    release_time_counter = rel;
    latest_push_time_counter_backup = last;
    p_spat = spat;
  };
}

-- the counter moves on below its limit
count_on :
    (b : ParamSingleButton) (c : ℕ)
    → b.push_time_counter ≡ c
    → c < 65535
    → time_manager true b ≡ record b { release_time_counter = 0; push_time_counter = suc c }
unfolding time_manager
count_on b c e lt =
    let low : leb 65535 b.push_time_counter ≡ false = ground arith in
    rw low (ap (λ n. record b { release_time_counter = 0; push_time_counter = n }) (ground arith))

module _ (loop_time button_number : ℕ) (config : Option (ParamSingleButton → ParamSingleButton))
    (hops : ℕ) (i : ℕ) where
  module _ (some_hop : 0 < hops) (spat : ParamAboutTime) (release : 0 < spat.release_time_threshold)
      (release_all : 0 < spat.release_all_time_threshold) where
    -- a turn of the state 3
    pub at_long_next :
        (c cs last : ℕ) (flags : ButtonStateFlag) (records : Records) (next : ℕ)
        → next < 11
        → c < 65535
        → long_push_detect_action loop_time button_number config (
            at_state loop_time button_number config hops some_hop i 3
              (pushed_for 3 c cs last spat)
              flags)
          ≡ (
            next,
            at_state loop_time button_number config hops some_hop i 3
                (pushed_for 3 c cs last spat)
                flags,
          )
        → button_turn loop_time button_number config hops i true
            (pushed_for 3 c cs last spat)
            flags
            records
          ≡ some (pushed_for next (suc c) 3 last spat, flags, recorded 3 next records)
    at_long_next c cs last flags records next lt fits does =
        let place = pushed_for 3 c cs last spat in
        turn_action loop_time button_number config hops some_hop i true place flags records
          (long_push_detect_action loop_time button_number config) next
          (at_state loop_time button_number config hops some_hop i 3 place flags) (omega arith) lt
          (unfold button_state_action in refl) does
        ∙ ap
            (λ b. some (
              record { state = next; current_state = 3; place_psb = b },
              flags,
              recorded 3 next records,
            ))
            (count_on place.place_psb c refl fits)

    pub at_long_does :
        (c cs last : ℕ) (flags : ButtonStateFlag) (next : ℕ)
        → (if leb spat.long_push_time_threshold (c * loop_time) then 4 else 3) ≡ next
        → long_push_detect_action loop_time button_number config (
            at_state loop_time button_number config hops some_hop i 3
              (pushed_for 3 c cs last spat)
              flags)
          ≡ (
            next,
            at_state loop_time button_number config hops some_hop i 3
                (pushed_for 3 c cs last spat)
                flags,
          )
    unfolding long_push_detect_action
    at_long_does c cs last flags next e =
        let none_yet : leb spat.release_time_threshold (0 * loop_time) ≡ false = ground arith in
        elim (Bool-cases (leb spat.long_push_time_threshold (c * loop_time))) [
          | inl t ↦ rw (t, sym e, t) refl
          | inr t ↦ rw (t, none_yet, sym e, t) refl
        ]

    -- the turn of the state 2 that ends the click
    pub at_click_ends :
        (c cs last : ℕ) (flags : ButtonStateFlag) (records : Records)
        → leb spat.click_time_threshold (c * loop_time) ≡ true
        → button_turn loop_time button_number config hops i true
            (pushed_for 2 c cs last spat)
            flags
            records
          ≡ some (pushed_for 3 1 2 c spat, flags, recorded 2 3 records)
    at_click_ends c cs last flags records long =
        let place = pushed_for 2 c cs last spat in
        let p = at_state loop_time button_number config hops some_hop i 2 place flags in
        turn_action loop_time button_number config hops some_hop i true place flags records
          (click_detect_action loop_time button_number config) 3
          (with_psb p (clear_push_counter place.place_psb)) (omega arith) (omega arith)
          (unfold button_state_action in refl) (unfold click_detect_action in rw long refl)
        ∙ ap
            (λ b.
              some (
                record { state = 3; current_state = 2; place_psb = b },
                flags,
                recorded 2 3 records,
              ))
            (count_on (clear_push_counter place.place_psb) 0 refl (omega arith))

    -- the turn of the state 2 that goes on
    pub at_click_on :
        (c cs last : ℕ) (flags : ButtonStateFlag) (records : Records)
        → c < 65535
        → leb spat.click_time_threshold (c * loop_time) ≡ false
        → button_turn loop_time button_number config hops i true
            (pushed_for 2 c cs last spat)
            flags
            records
          ≡ some (pushed_for 2 (suc c) 2 last spat, flags, recorded 2 2 records)
    at_click_on c cs last flags records fits short =
        let place = pushed_for 2 c cs last spat in
        let none_yet : leb spat.release_all_time_threshold (0 * loop_time) ≡ false = ground arith in
        turn_action loop_time button_number config hops some_hop i true place flags records
          (click_detect_action loop_time button_number config) 2
          (at_state loop_time button_number config hops some_hop i 2 place flags) (omega arith)
          (omega arith) (unfold button_state_action in refl)
          (unfold click_detect_action in rw (short, none_yet) refl)
        ∙ ap
            (λ b.
              some (
                record { state = 2; current_state = 2; place_psb = b },
                flags,
                recorded 2 2 records,
              ))
            (count_on place.place_psb c refl fits)

    -- a button at rest in the state 1, pushed for the first time
    pub start_turn :
        (cs rel last : ℕ) (flags : ButtonStateFlag) (records : Records)
        → button_turn loop_time button_number config hops i true
            (at_rest cs rel last spat)
            flags
            records
          ≡ some (pushed_for 2 1 1 last spat, flags, recorded 1 2 records)
    start_turn cs rel last flags records =
        let place = at_rest cs rel last spat in
        turn_action loop_time button_number config hops some_hop i true place flags records
          (start_action loop_time button_number config) 2
          (at_state loop_time button_number config hops some_hop i 1 place flags) (omega arith)
          (omega arith) (unfold button_state_action in refl) (unfold start_action in refl)
        ∙ ap
            (λ b.
              some (
                record { state = 2; current_state = 1; place_psb = b },
                flags,
                recorded 1 2 records,
              ))
            (count_on place.place_psb 0 refl (omega arith))
