-- ===== src/ButtonModule/Held.antt =====
-- A button of ButtonModule.c that is held down, from the turn in which it is first seen pushed.
use native.Mathlib.Decide.{dec_lt}
use eclipse_code.Prelude.{
  ℕ, zero, suc, ◌+◌, ◌*◌, ◌≤◌, ◌<◌, ◌≡◌, refl, true, false, Option, some, leb, arith, Bool-cases,
  inl, inr, ◌⊎◌,
}
use eclipse_code.BitOperation.{twobyte_setbit}
use eclipse_code.StateMachine.{Records}
use eclipse_code.ButtonModule.{ParamAboutTime, ParamSingleButton, ButtonStateFlag, button_flag_set}
use eclipse_code.ButtonModule.Actions.{button_state_action, sure_long_push_action, with_flag}
use eclipse_code.ButtonModule.Monitor.{ButtonPlace, button_turn}
use eclipse_code.ButtonModule.Turns.{at_state, turn_action}
use eclipse_code.ButtonModule.Pushed.{
  pushed_for, at_rest, at_long_next, at_long_does, at_click_ends, at_click_on, start_turn,
}

module _ (loop_time button_number : ℕ) (config : Option (ParamSingleButton → ParamSingleButton))
    (hops : ℕ) (i : ℕ) where
  -- Within `k` turns of a button that is held down its flag of a long push is set, and it waits for its
  -- release. The flags and the records before each turn are any ones.
  unfoldable pub Reported : ℕ → ButtonPlace → Type 0
  Reported zero place = ⊥
  Reported (suc k) place =
      (flags : ButtonStateFlag) (records : Records)
      → (p : ButtonPlace) × (f : ButtonStateFlag) × (r : Records) × (button_turn loop_time
            button_number config hops i true place flags records
          ≡ some (p, f, r))
        × (((p.state ≡ 5) × (f ≡ record flags { is_longpush = twobyte_setbit flags.is_longpush i }))
            ⊎ ((f ≡ flags) × Reported k p))

  module _ (some_hop : 0 < hops) (spat : ParamAboutTime) (release : 0 < spat.release_time_threshold)
      (release_all : 0 < spat.release_all_time_threshold) where
    at_sure : (k c cs last : ℕ) → Reported (suc k) (pushed_for 4 c cs last spat)
    unfolding Reported
    at_sure k c cs last flags records =
        let place = pushed_for 4 c cs last spat in
        let turn =
          turn_action loop_time button_number config hops some_hop i true place flags records
            (sure_long_push_action loop_time button_number config) 5
            (with_flag (at_state loop_time button_number config hops some_hop i 4 place flags)
              (record flags { is_longpush = twobyte_setbit flags.is_longpush i }))
            (omega arith) (omega arith) (unfold button_state_action in refl)
            (unfold sure_long_push_action button_flag_set in refl) in
        (_, _, _, turn, inl (refl, refl))

    not_there : (t c n : ℕ) → leb t (c * loop_time) ≡ false → t ≤ n * loop_time → c ≤ n → c < n
    not_there t c n short enough le = elim (dec_lt c n) [
      | yes lt ↦ lt
      | no ge ↦
          let e : c ≡ n = omega arith in
          let far : leb t (n * loop_time) ≡ false = rw (← e) short in absurd (ground arith)
    ]

    -- `n` turns reach the threshold
    at_long :
        (k n c cs last : ℕ)
        → n < 65535
        → spat.long_push_time_threshold ≤ n * loop_time
        → c ≤ n
        → n + 2 ≤ c + k
        → Reported k (pushed_for 3 c cs last spat)
    unfolding Reported
    at_long zero n c cs last fits enough le turns = absurd (omega (arith, le, turns))
    at_long (suc zero) n c cs last fits enough le turns = absurd (omega (arith, le, turns))
    at_long (suc (suc k)) n c cs last fits enough le turns = λ flags records.
        elim (Bool-cases (leb spat.long_push_time_threshold (c * loop_time))) [
          | inl long ↦ (
            _,
            _,
            _,
            at_long_next loop_time button_number config hops i some_hop spat release release_all c
                cs last flags records 4 (omega arith) (omega (arith, fits, le))
                (at_long_does loop_time button_number config hops i some_hop spat release
                  release_all c cs last flags 4 (rw long refl)),
            inr (refl, at_sure k (suc c) 3 last),
          )
          | inr short ↦ (
            _,
            _,
            _,
            at_long_next loop_time button_number config hops i some_hop spat release release_all c
                cs last flags records 3 (omega arith) (omega (arith, fits, le))
                (at_long_does loop_time button_number config hops i some_hop spat release
                  release_all c cs last flags 3 (rw short refl)),
            inr (
              refl,
              at_long (suc k) n (suc c) 3 last fits enough
                  (not_there spat.long_push_time_threshold c n short enough le)
                  (omega (arith, turns)),
            ),
          )
        ]

    -- `m` turns reach the threshold of a click, and `n` turns behind it that of a long push
    at_click :
        (k m n c cs last : ℕ)
        → m < 65535
        → n < 65535
        → spat.click_time_threshold ≤ m * loop_time
        → spat.long_push_time_threshold ≤ n * loop_time
        → 0 < n
        → c ≤ m
        → m + n + 2 ≤ c + k
        → Reported k (pushed_for 2 c cs last spat)
    unfolding Reported
    at_click zero m n c cs last fits fits2 clicks enough pos le turns =
        absurd (omega (arith, le, turns, pos))
    at_click (suc k) m n c cs last fits fits2 clicks enough pos le turns = λ flags records.
        elim (Bool-cases (leb spat.click_time_threshold (c * loop_time))) [
          | inl long ↦ (
            _,
            _,
            _,
            at_click_ends loop_time button_number config hops i some_hop spat release release_all c
                cs last flags records long,
            inr (
              refl,
              at_long k n 1 2 c fits2 enough (omega (arith, pos)) (omega (arith, le, turns)),
            ),
          )
          | inr short ↦ (
            _,
            _,
            _,
            at_click_on loop_time button_number config hops i some_hop spat release release_all c cs
                last flags records (omega (arith, fits, le)) short,
            inr (
              refl,
              at_click k m n (suc c) 2 last fits fits2 clicks enough pos
                  (not_there spat.click_time_threshold c m short clicks le) (omega (arith, turns)),
            ),
          )
        ]

    -- A button at rest in the start state that is held down has its bit in the flag of long pushes set in
    -- one of `m + n + 2` turns, when `m` turns last as long as the threshold of a click, `n` turns as long as that of a
    -- long push, both are at least 1 and below the counter's limit, both thresholds of a release are
    -- positive, and the engine may do a round: no turn fails, and no flag is changed before.
    pub long_push-Reported :
        (m n cs rel last : ℕ)
        → 0 < m
        → m < 65535
        → 0 < n
        → n < 65535
        → spat.click_time_threshold ≤ m * loop_time
        → spat.long_push_time_threshold ≤ n * loop_time
        → Reported (suc (m + n + 1)) (at_rest cs rel last spat)
    unfolding Reported
    long_push-Reported m n cs rel last mpos mfits npos nfits clicks enough flags records = (
      _,
      _,
      _,
      start_turn loop_time button_number config hops i some_hop spat release release_all cs rel last
          flags records,
      inr (
        refl,
        at_click (m + n + 1) m n 1 1 last mfits nfits clicks enough npos (omega (arith, mpos))
            (omega arith),
      ),
    )
