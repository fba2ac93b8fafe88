-- ===== src/TimeManager/Turns.antt =====
-- One turn of the places of TimeManagerExtern.c, for a counter that has no function of its own.
use native.Mathlib.Decide.{ℕ_discrete}
use eclipse_code.Prelude.{
  ℕ, zero, suc, ◌+◌, ◌-◌, ◌≤◌, ◌<◌, ◌≡◌, ◌≢◌, refl, sym, ap, ◌∙◌, Option, none, some, List, get_or,
  arith,
}
use eclipse_code.TimeManager.{
  Manager, TimeManagerBasic, turn, place_turn, handle_loop, extern_handle,
}
use eclipse_code.TimeManager.Inv.{Local, place_turn-places}

module _ {W : Type 0} (act : ℕ → ℕ → Manager W → Manager W) where
  unfoldable pub handles : ℕ → Manager W → Manager W
  handles zero s = s
  handles (suc n) s = handles n (extern_handle act s)

module _ {W : Type 0} (act : ℕ → ℕ → Manager W → Manager W) (local : Local act) where
  pub turn-elsewhere :
      (t : Option ℕ) (q p : ℕ) (s : Manager W) → p ≢ q → (turn act t q s).counters p ≡ s.counters p
  unfolding turn
  turn-elsewhere none q p s ne = ground arith
  turn-elsewhere (some k) q p s ne = local.elsewhere k q p s ne

  pub place_turn-elsewhere :
      (o : Option ℕ) (p : ℕ) (s : Manager W)
      → o ≢ some p
      → (place_turn act o s).counters p ≡ s.counters p
  unfolding place_turn
  place_turn-elsewhere none p s ne = refl
  place_turn-elsewhere (some q) p s ne =
      turn-elsewhere (s.counters q).to_do q p s (λ e. ne (ap (λ (x : ℕ). some x) (sym e)))

  pub handle_loop-elsewhere :
      (n i p : ℕ) (s : Manager W)
      → ((j : ℕ) → i ≤ j → get_or s.p_stmb j none ≢ some p)
      → (handle_loop act n i s).counters p ≡ s.counters p
  unfolding handle_loop
  handle_loop-elsewhere zero i p s out = refl
  handle_loop-elsewhere (suc n) i p s out =
      let o = get_or s.p_stmb i none in
      let same = (place_turn-places act local o s).0 in
      handle_loop-elsewhere n (i + 1) p (place_turn act o s)
        (λ j le h. out j (omega arith) (rw same at h))
      ∙ place_turn-elsewhere o p s (out i (omega arith))

  -- one turn of a counter without a function
  unfoldable pub down : TimeManagerBasic → TimeManagerBasic
  down b = record b { counter = b.counter - 1 }

  pub turn-down :
      (p : ℕ) (s : Manager W)
      → (s.counters p).to_do ≡ none
      → (place_turn act (some p) s).counters p ≡ down (s.counters p)
  unfolding place_turn turn down
  turn-down p s e = rw e (ground arith)

  pub handle_loop-down :
      (n i j p : ℕ) (s : Manager W)
      → i ≤ j
      → j < i + n
      → get_or s.p_stmb j none ≡ some p
      → ((a : ℕ) → get_or s.p_stmb a none ≡ some p → a ≡ j)
      → (s.counters p).to_do ≡ none
      → (handle_loop act n i s).counters p ≡ down (s.counters p)
  unfolding handle_loop
  handle_loop-down zero i j p s le lt at single e = absurd (omega arith)
  handle_loop-down (suc n) i j p s le lt at single e =
      let o = get_or s.p_stmb i none in
      let s1 = place_turn act o s in
      let same = (place_turn-places act local o s).0 in
      elim (ℕ_discrete i j) [
        | yes here ↦
            let own : o ≡ some p = ap (λ (x : ℕ). get_or s.p_stmb x none) here ∙ at in
            handle_loop-elsewhere n (i + 1) p s1
              (λ a above h. absurd (omega (arith, single a (rw same at h))))
            ∙ ap (λ (x : Option ℕ). (place_turn act x s).counters p) own
            ∙ turn-down p s e
        | no later ↦
            let kept : s1.counters p ≡ s.counters p =
              place_turn-elsewhere o p s (λ h. later (single i h)) in
            handle_loop-down n (i + 1) j p s1 (omega arith) (omega arith)
              (ap (λ (b : List (Option ℕ)). get_or b j none) same ∙ at)
              (λ a h. single a (rw same at h)) (ap (λ (b : TimeManagerBasic). b.to_do) kept ∙ e)
            ∙ ap down kept
      ]
