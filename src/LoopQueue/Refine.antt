-- ===== src/LoopQueue/Refine.antt =====
-- The ring behaves as the FIFO of the node numbers between `first_out` and `first_in`.
use eclipse_code.Prelude.{
  ℕ, zero, suc, ◌+◌, ◌-◌, ◌≤◌, ◌<◌, ◌≡◌, refl, ap, sym, ◌∙◌, Bool, true, List, [], ◌∷◌, ◌++◌, ◌==◌,
  length, length-append, replicate, set-append, append_snoc, subst, arith,
}
use mathlib.Core.Path.{ap₂, ◌≡⟨◌⟩◌, ◌∎}
use eclipse_code.LoopQueue.{
  QueueState, queue_empty, queue_normal, queue_full, queue_state_error, ListManager, buf_free,
  updata_list_state, node_number_in_move_forward, node_number_out_move_forward, occupy, count_in,
  count_out, first_in_by, first_in, first_out_by, first_out, realse_buf, step, run, buf_init_loop,
  initialize, is_queue_empty,
}
use eclipse_code.LoopQueue.Inv.{
  state_of, wrap, wrap_lt, wrap-wrap, IsValid, in_forward, out_forward, step-IsValid,
  initialize-IsValid,
}
use eclipse_code.LoopQueue.Spec
use eclipse_code.LoopQueue.Spec.{
  Fifo, Op, put, get, give_back, clear, used_number, ask_empty, without_oldest, put_in, take_out,
  free_up,
}

-- `n` node numbers from `out` on, going round at `max`
abbrev pub window : ℕ → ℕ → ℕ → List ℕ
window max out zero = []
window max out (suc n) = out ∷ window max (wrap max (out + 1)) n

length-window : (max out n : ℕ) → length (window max out n) ≡ n
length-window max out zero = refl
length-window max out (suc n) = ap suc (length-window max (wrap max (out + 1)) n)

-- the queue that a ring stands for
abbrev pub view : ListManager → Fifo
view m = record {
  held = window m.valid_node_number m.lmp.first_out_node_num m.lmp.used_node_num;
  next = m.lmp.first_in_node_num;
  busy = m.p_buf;
}

-- The node after a window extends it at its end.
window-suc :
    (max out n : ℕ)
    → out < max
    → n ≤ max
    → window max out (suc n) ≡ window max out n ++ (wrap max (out + n) ∷ [])
window-suc max out zero h k = ground arith
window-suc max out (suc n) h k =
    ap (λ q. out ∷ q)
      (rw (← wrap-wrap max out n h k)
        (window-suc max (wrap max (out + 1)) n (wrap_lt max (out + 1) (omega arith)) (omega arith)))

window_tail :
    (max out n : ℕ)
    → 0 < n
    → without_oldest (window max out n) ≡ window max (wrap max (out + 1)) (n - 1)
unfolding without_oldest
window_tail max out zero h = absurd (omega arith)
window_tail max out (suc n) h = ap (window max (wrap max (out + 1))) (omega arith)

-- Writing at the end of a full window drops its first node.
window_full :
    (max k out : ℕ)
    → max ≡ suc k
    → out < max
    → without_oldest (window max out max) ++ (out ∷ []) ≡ window max (wrap max (out + 1)) max
window_full max k out e h =
    without_oldest (window max out max) ++ (out ∷ [])
    ≡⟨ ap (λ q. q ++ (out ∷ [])) (window_tail max out max (omega arith)) ⟩
      window max (wrap max (out + 1)) (max - 1) ++ (out ∷ [])
    ≡⟨ ap₂ (λ n x. window max (wrap max (out + 1)) n ++ (x ∷ [])) (omega arith) (ground arith) ⟩
      window max (wrap max (out + 1)) k ++ (wrap max (wrap max (out + 1) + k) ∷ [])
    ≡⟨ sym (
        window-suc max (wrap max (out + 1)) k (wrap_lt max (out + 1) (omega arith)) (omega arith)) ⟩
      window max (wrap max (out + 1)) (suc k)
    ≡⟨ ap (window max (wrap max (out + 1))) (sym e) ⟩ window max (wrap max (out + 1)) max ∎

window_head :
    (max out n : ℕ) → 0 < n → window max out n ≡ out ∷ window max (wrap max (out + 1)) (n - 1)
window_head max out zero h = absurd (omega arith)
window_head max out (suc n) h = ap (λ k. out ∷ window max (wrap max (out + 1)) k) (omega arith)

module _ {m : ListManager} (v : IsValid m) where
  open m use {valid_node_number, lmp}
  open lmp use {first_in_node_num, first_out_node_num, used_node_num}

  first_in_by-put_in :
      (s : QueueState) (permit : Bool)
      → m.lmp.state ≡ s
      → let (r, m') = first_in_by s permit m in
        (r, view m') ≡ put_in valid_node_number permit (view m)
  unfolding first_in_by updata_list_state count_in occupy node_number_in_move_forward
      node_number_out_move_forward put_in
  first_in_by-put_in queue_full permit e = ground (
    arith,
    in_forward v,
    out_forward v,
    length-window valid_node_number first_out_node_num used_node_num,
    window_full valid_node_number (valid_node_number - 1) first_out_node_num,
  )
  first_in_by-put_in queue_state_error permit e = absurd (ground arith)
  first_in_by-put_in queue_empty permit e = ground (
    arith,
    in_forward v,
    length-window valid_node_number first_out_node_num used_node_num,
    window-suc valid_node_number first_out_node_num used_node_num,
  )
  first_in_by-put_in queue_normal permit e = ground (
    arith,
    in_forward v,
    length-window valid_node_number first_out_node_num used_node_num,
    window-suc valid_node_number first_out_node_num used_node_num,
  )

  first_out_by-take_out :
      (s : QueueState)
      → m.lmp.state ≡ s
      → let (r, m') = first_out_by s m in
        (r, view m') ≡ take_out (window valid_node_number first_out_node_num used_node_num) (view m)
  unfolding first_out_by updata_list_state count_out node_number_out_move_forward take_out
  first_out_by-take_out queue_empty e =
      let none_used : used_node_num ≡ 0 = ground arith in rw (none_used, take_out) refl
  first_out_by-take_out queue_state_error e = absurd (ground arith)
  first_out_by-take_out queue_normal e =
      rw (window_head valid_node_number first_out_node_num used_node_num (ground arith))
        (ground (arith, out_forward v))
  first_out_by-take_out queue_full e =
      rw (window_head valid_node_number first_out_node_num used_node_num (ground arith))
        (ground (arith, out_forward v))

realse_buf-free_up :
    (n : ℕ) (m : ListManager) → view (realse_buf n m) ≡ free_up m.valid_node_number n (view m)
unfolding realse_buf free_up
realse_buf-free_up n m = ground arith

-- The loop of `SimpleQueueInitialize` frees the nodes from `i` on.
buf_init_loop_lem :
    (n : ℕ) (done rest : List ℕ)
    → length rest ≡ n
    → buf_init_loop n (length done) (done ++ rest) ≡ done ++ replicate n buf_free
unfolding buf_init_loop
buf_init_loop_lem zero done [] e = refl
buf_init_loop_lem zero done (x ∷ rest) e = absurd (omega arith)
buf_init_loop_lem (suc n) done [] e = absurd (omega arith)
buf_init_loop_lem (suc n) done (x ∷ rest) e =
    rw
      (
        set-append done x rest buf_free,
        ← append_snoc done buf_free rest,
        ← append_snoc done buf_free (replicate n buf_free),
      )
      (subst
        (λ k.
          buf_init_loop n k ((done ++ (buf_free ∷ [])) ++ rest)
          ≡ (done ++ (buf_free ∷ [])) ++ replicate n buf_free)
        (omega (arith, length-append done (buf_free ∷ [])))
        (buf_init_loop_lem n (done ++ (buf_free ∷ [])) rest (omega arith)))

buf_init_loop_all :
    (buf : List ℕ) → buf_init_loop (length buf) 0 buf ≡ replicate (length buf) buf_free
buf_init_loop_all buf = buf_init_loop_lem (length buf) [] buf refl

number-initialize : (m : ListManager) → (initialize m).valid_node_number ≡ m.valid_node_number
unfolding initialize
number-initialize m = ground arith

view-initialize :
    (m : ListManager)
    → m.valid_node_number < 65535
    → length m.p_buf ≡ m.valid_node_number
    → view (initialize m)
      ≡ record { held = []; next = 0; busy = replicate m.valid_node_number buf_free }
unfolding initialize
view-initialize m k e = ground (arith, buf_init_loop_all m.p_buf)

empty-length :
    {m : ListManager} → IsValid m → is_queue_empty m.lmp.state ≡ (length (view m).held == 0)
unfolding is_queue_empty
empty-length {m} v =
    rw (v.agrees, length-window m.valid_node_number m.lmp.first_out_node_num m.lmp.used_node_num)
      (empty_of m.lmp.used_node_num m.valid_node_number)
  where
    empty_of : (used max : ℕ) → is_queue_empty (state_of used max) ≡ (used == 0)
    empty_of used max = ground arith

-- Each call on a valid ring is the step of its queue.
pub step_refines :
    (op : Op) {m : ListManager}
    → IsValid m
    → let (r, m') = step op m in (r, view m') ≡ Spec.step m.valid_node_number op (view m)
unfolding step first_in first_out Spec.step
step_refines (put permit) {m} v = first_in_by-put_in v m.lmp.state permit refl
step_refines get {m} v = first_out_by-take_out v m.lmp.state refl
step_refines (give_back n) {m} v = ap (λ q. ((true, n), q)) (realse_buf-free_up n m)
step_refines clear {m} v = ap (λ q. ((true, 0), q)) (view-initialize m v.small v.room)
step_refines used_number {m} v =
    ap (λ n. ((true, n), view m))
      (sym (length-window m.valid_node_number m.lmp.first_out_node_num m.lmp.used_node_num))
step_refines ask_empty {m} v = ap (λ b. ((b, 0), view m)) (empty-length v)

number-first_in_by :
    (s : QueueState) (permit : Bool) (m : ListManager)
    → (first_in_by s permit m).1.valid_node_number ≡ m.valid_node_number
unfolding first_in_by updata_list_state count_in occupy node_number_in_move_forward
    node_number_out_move_forward
number-first_in_by queue_full permit m = ground arith
number-first_in_by _ permit m = ground arith

number-first_out_by :
    (s : QueueState) (m : ListManager)
    → (first_out_by s m).1.valid_node_number ≡ m.valid_node_number
unfolding first_out_by updata_list_state count_out node_number_out_move_forward
number-first_out_by queue_empty m = refl
number-first_out_by _ m = ground arith

pub number-step :
    (op : Op) (m : ListManager) → (step op m).1.valid_node_number ≡ m.valid_node_number
unfolding step first_in first_out realse_buf
number-step (put permit) m = number-first_in_by m.lmp.state permit m
number-step get m = number-first_out_by m.lmp.state m
number-step (give_back n) m = ground arith
number-step clear m = number-initialize m
number-step used_number m = refl
number-step ask_empty m = refl

-- No sequence of calls tells a valid ring from the FIFO of the node numbers that it holds: the
-- replies are those of the FIFO, in order.
pub run_refines :
    (ops : List Op) {m : ListManager}
    → IsValid m
    → run ops m ≡ Spec.run m.valid_node_number ops (view m)
unfolding run Spec.run
run_refines [] v = refl
run_refines (op ∷ ops) {m} v =
    rw (run_refines ops (step-IsValid op v), ← step_refines op v, number-step)

-- Whatever the ring held, after `SimpleQueueInitialize` its replies are those of the empty FIFO
-- with no busy node, if the array has as many nodes as the ring, at least one and fewer than 65535.
pub initialize_refines :
    (ops : List Op) (m : ListManager)
    → 0 < m.valid_node_number
    → m.valid_node_number < 65535
    → length m.p_buf ≡ m.valid_node_number
    → run ops (initialize m)
      ≡ Spec.run m.valid_node_number ops
          (record { held = []; next = 0; busy = replicate m.valid_node_number buf_free })
initialize_refines ops m h k e =
    run_refines ops (initialize-IsValid m h k e)
    ∙ ap₂ (λ n q. Spec.run n ops q) (number-initialize m) (view-initialize m k e)
