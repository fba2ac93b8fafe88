-- ===== src/PowerSaving/Loops.antt =====
-- The command of a script that loops: `ConditionalDoAsCommand` of HexCommand.c with `CallFunction` and
-- `LoopSpecificTimes` of PowerSaving.c.
use eclipse_code.Prelude.{
  ℕ, zero, suc, ◌+◌, ◌-◌, ◌%◌, ◌≤◌, ◌<◌, ◌≡◌, refl, sym, ap, subst, true, false, some, List, [],
  ◌∷◌, ltb, leb, get_or, set, length, get_or-set, length-set, u8_mod, arith,
}
use eclipse_code.PowerSaving.Scene.{Scene}
use eclipse_code.PowerSaving.Scripts.{
  call_function, call_loop, scripts_function_array, loop_specific_times,
}
use eclipse_code.PowerSaving.Conditional.{conditional_do_as_command}

module _ (rand yes no times : ℕ) (yes_pos : 0 < yes) (no_pos : 0 < no) (line : ℕ) where
  -- the bytes of the command: to `yes` behind the last round, else to `no`
  abbrev loop_command : List ℕ
  loop_command = 7 ∷ 85 ∷ 3 ∷ 1 ∷ yes ∷ no ∷ times ∷ []

  -- the command once
  abbrev loop_once : Scene → ℕ × Scene
  loop_once s = conditional_do_as_command (some (call_function rand)) loop_command 7 line s

  -- the command `n` times, with the lines that it gives
  abbrev pub loop_lines : ℕ → Scene → List ℕ × Scene
  loop_lines zero s = ([], s)
  loop_lines (suc n) s =
      let first = loop_once s in let rest = loop_lines n first.1 in (first.0 ∷ rest.0, rest.1)

  abbrev counter : Scene → ℕ
  counter s = get_or s.param.buf_8 1 0

  -- the scene behind a round that leaves `v` in the counter
  abbrev after : Scene → ℕ → Scene
  after s v = record s {
    param = record (s.param) {
      is_param_valid = true;
      param_from_script = times;
      buf_8 = set s.param.buf_8 1 v;
    };
  }

  goes_on :
      (s : Scene)
      → counter s + 1 < times
      → loop_once s ≡ (no - 1, after s ((counter s + 1) % u8_mod))
  unfolding conditional_do_as_command call_function call_loop scripts_function_array
      loop_specific_times
  goes_on s more =
      let a : ltb yes 1 ≡ false = ground arith in
      let b : ltb no 1 ≡ false = ground arith in
      let low : leb times (get_or s.param.buf_8 1 0 + 1) ≡ false = ground arith in
      rw (a, b, low) refl

  ends : (s : Scene) → times ≤ counter s + 1 → loop_once s ≡ (yes - 1, after s 0)
  unfolding conditional_do_as_command call_function call_loop scripts_function_array
      loop_specific_times
  ends s enough =
      let a : ltb yes 1 ≡ false = ground arith in
      let b : ltb no 1 ≡ false = ground arith in
      let high : leb times (get_or s.param.buf_8 1 0 + 1) ≡ true = ground arith in
      rw (a, b, high) refl

  -- the line `no` for `n` times, and `yes`
  abbrev lines_of : ℕ → List ℕ
  lines_of zero = (yes - 1) ∷ []
  lines_of (suc n) = (no - 1) ∷ lines_of n

  -- the lines of a run and the counter that it leaves
  abbrev Looped : List ℕ → List ℕ × Scene → Type 0
  Looped lines run = (run.0 ≡ lines) × (counter run.1 ≡ 0)

  put_counter : (s : Scene) (v : ℕ) → 1 < length s.param.buf_8 → counter (after s v) ≡ v
  put_counter s v room = get_or-set s.param.buf_8 1 1 v 0 room

  abbrev then_run : ℕ → ℕ × Scene → List ℕ × Scene
  then_run n first = let rest = loop_lines n first.1 in (first.0 ∷ rest.0, rest.1)

  loops :
      (n : ℕ) (s : Scene)
      → 1 < length s.param.buf_8
      → counter s + suc n ≡ times
      → times < 256
      → Looped (lines_of n) (loop_lines (suc n) s)
  loops zero s room left fits =
      subst (λ f. Looped (lines_of 0) (then_run 0 f)) (sym (ends s (omega (arith, left))))
        (refl, put_counter s 0 room)
  loops (suc n) s room left fits =
      let v = (counter s + 1) % u8_mod in
      let put : counter (after s v) ≡ v = put_counter s v room in
      let long : 1 < length (after s v).param.buf_8 =
        subst (λ k. 1 < k) (sym (length-set s.param.buf_8 1 v)) room in
      let more : Looped (lines_of n) (loop_lines (suc n) (after s v)) =
        loops n (after s v) long (omega (arith, left, fits, put)) fits in
      subst (λ f. Looped (lines_of (suc n)) (then_run (suc n) f))
        (sym (goes_on s (omega (arith, left)))) (ap (λ xs. (no - 1) ∷ xs) more.0, more.1)

  -- The command, with `times` from 1 to 255, goes to the line of `no` for `times` less one rounds and to
  -- that of `yes` in the round behind them, from a counter of 0, and leaves the counter 0 for the next
  -- run. A line counts from 1 in the command.
  pub loop_lines_lem :
      (n : ℕ) (s : Scene)
      → 1 < length s.param.buf_8
      → get_or s.param.buf_8 1 0 ≡ 0
      → suc n ≡ times
      → times < 256
      → ((loop_lines times s).0 ≡ lines_of n) × (get_or (loop_lines times s).1.param.buf_8 1 0 ≡ 0)
  loop_lines_lem n s room fresh same fits =
      subst (λ k. Looped (lines_of n) (loop_lines k s)) same
        (loops n s room (omega (arith, fresh, same)) fits)
