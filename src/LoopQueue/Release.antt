-- ===== src/LoopQueue/Release.antt =====
-- Busy nodes of loop_queues.c: a node that its user holds is not handed out a second time, and
-- what `RealseSimpleQueueBuf` can give back.
use mathlib.Core.Bool.{true≢false}
use eclipse_code.Prelude.{
  ℕ, ◌%◌, ◌≤◌, ◌<◌, ◌≡◌, refl, sym, subst, Bool, true, false, List, [], ◌∷◌, ◌==◌, ◌&&◌, ◌||◌,
  if◌then◌else◌, length, get_or, get_or-set, arith,
}
use eclipse_code.LoopQueue.{ListManager, Reply, step, run}
use eclipse_code.LoopQueue.Inv.{IsValid, step-IsValid}
use eclipse_code.LoopQueue.Refine.{view, step_refines}
use eclipse_code.LoopQueue.Spec
use eclipse_code.LoopQueue.Spec.{
  Fifo, Op, put, get, give_back, clear, used_number, ask_empty, put_in, take_out, free_up,
}

-- whether a call hands node `n` in, and whether one gives it back; clearing the queue gives all back
hands_in : ℕ → Op → Reply → Bool
hands_in n (put permit) (ok, node) = ok && (node == n)
hands_in n _ r = false

gives_back : ℕ → Op → Bool
gives_back n (give_back k) = (k % 256) == n
gives_back n clear = true
gives_back n _ = false

pub any_hands_in : ℕ → List Op → List Reply → Bool
any_hands_in n (op ∷ ops) (r ∷ rs) = hands_in n op r || any_hands_in n ops rs
any_hands_in n _ _ = false

unfoldable pub any_gives_back : ℕ → List Op → Bool
unfolding gives_back
any_gives_back n [] = false
any_gives_back n (op ∷ ops) = gives_back n op || any_gives_back n ops

-- whether a call clears the queue
unfoldable pub any_clears : List Op → Bool
any_clears [] = false
any_clears (clear ∷ ops) = true
any_clears (op ∷ ops) = any_clears ops

abbrev IsBusy : ℕ → List ℕ → Type 0
IsBusy n busy = get_or busy n 1 ≡ 1

take_out_busy : (held : List ℕ) (q : Fifo) → (take_out held q).1.busy ≡ q.busy
unfolding take_out
take_out_busy [] q = refl
take_out_busy (x ∷ held) q = refl

step_busy :
    (max n : ℕ) (op : Op) (q : Fifo)
    → IsBusy n q.busy
    → gives_back n op ≡ false
    → max ≤ length q.busy
    → q.next < max
    → let (r, q') = Spec.step max op q in (hands_in n op r ≡ false) × IsBusy n q'.busy
unfolding Spec.step hands_in gives_back put_in free_up
step_busy max n (put permit) q h b k l =
    ground (arith, get_or-set q.busy q.next n (if permit then 0 else 1) 1)
step_busy max n get q h b k l = (refl, rw take_out_busy h)
step_busy max n clear q h b k l = absurd (true≢false b)
step_busy max n used_number q h b k l = (refl, h)
step_busy max n ask_empty q h b k l = (refl, h)
step_busy max n (give_back j) q h b k l = ground (arith, get_or-set q.busy (j % 256) n 0 1)

module _ (n : ℕ) where
  step-IsBusy :
      (op : Op) {m : ListManager}
      → IsValid m
      → IsBusy n m.p_buf
      → gives_back n op ≡ false
      → let (r, m') = step op m in (hands_in n op r ≡ false) × IsBusy n m'.p_buf
  step-IsBusy op {m} v h b =
      subst (λ t. (hands_in n op t.0 ≡ false) × IsBusy n t.1.busy) (sym (step_refines op v))
        (step_busy m.valid_node_number n op (view m) h b (omega arith) (omega arith))

  -- A busy node of a valid ring is not handed in again by any sequence of calls of the header in which
  -- nobody gives it back and nobody clears the queue.
  pub run_busy :
      (ops : List Op) {m : ListManager}
      → IsValid m
      → IsBusy n m.p_buf
      → any_gives_back n ops ≡ false
      → any_hands_in n ops (run ops m) ≡ false
  unfolding run any_hands_in any_gives_back
  run_busy [] v h b = refl
  run_busy (op ∷ ops) {m} v h b =
      ground (arith, step-IsBusy op v h, run_busy ops (step-IsValid op v))

  gives_back_small :
      256 ≤ n → (ops : List Op) → any_clears ops ≡ false → any_gives_back n ops ≡ false
  unfolding any_gives_back gives_back any_clears
  gives_back_small big [] e = refl
  gives_back_small big (put permit ∷ ops) e = gives_back_small big ops e
  gives_back_small big (get ∷ ops) e = gives_back_small big ops e
  gives_back_small big (clear ∷ ops) e = absurd (true≢false e)
  gives_back_small big (used_number ∷ ops) e = gives_back_small big ops e
  gives_back_small big (ask_empty ∷ ops) e = gives_back_small big ops e
  gives_back_small big (give_back k ∷ ops) e = ground (arith, gives_back_small big ops e)

  -- In a valid ring a busy node from number 256 on is freed by no release: no sequence of calls of the
  -- header that does not clear the queue, releases of the node included, makes the ring hand it in
  -- again.
  pub run_lost :
      256 ≤ n
      → (ops : List Op) {m : ListManager} → IsValid m
      → n < m.valid_node_number
      → IsBusy n m.p_buf
      → any_clears ops ≡ false
      → any_hands_in n ops (run ops m) ≡ false
  run_lost big ops v inside h kept = run_busy ops v h (gives_back_small big ops kept)
