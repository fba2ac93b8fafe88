-- ===== src/LoopQueue/Spec.antt =====
-- What the ring of loop_queues.c promises: a FIFO of at most `max` node numbers. A node number
-- that comes in when the queue is full pushes the oldest one out, and a busy node refuses to come
-- in until its user gives it back or clears the queue.
use eclipse_code.Prelude.{
  ℕ, ◌+◌, ◌-◌, ◌%◌, Bool, true, false, List, [], ◌∷◌, ◌++◌, leb, ◌==◌, if◌then◌else◌, length,
  get_or, set, replicate,
}

-- `busy` has a 1 for each node that is not given back.
pub record Fifo : Type 0 where
  pub held : List ℕ
  pub next : ℕ
  pub busy : List ℕ

pub data Op : Type 0 where
  put : Bool → Op
  get : Op
  give_back : ℕ → Op
  clear : Op
  used_number : Op
  ask_empty : Op

unfoldable pub without_oldest : List ℕ → List ℕ
without_oldest [] = []
without_oldest (x ∷ q) = q

unfoldable pub take_out : List ℕ → Fifo → (Bool × ℕ) × Fifo
take_out [] q = ((false, 0), q)
take_out (x ∷ rest) q = ((true, x), record q { held = rest })

module _ (max : ℕ) where
  unfoldable pub put_in : Bool → Fifo → (Bool × ℕ) × Fifo
  put_in permit q =
      if get_or q.busy q.next 1 == 0
      then (
        (true, q.next),
        record {
          held = (if length q.held == max then without_oldest q.held else q.held) ++ (q.next ∷ []);
          next = if leb max (q.next + 1) then q.next + 1 - max else q.next + 1;
          busy = set q.busy q.next (if permit then 0 else 1);
        },
      )
      else ((false, 0), q)

  unfoldable pub free_up : ℕ → Fifo → Fifo
  free_up n q = if leb max (n % 256) then q else record q { busy = set q.busy (n % 256) 0 }

  -- no node number, and no busy node
  abbrev pub empty : Fifo
  empty = record { held = []; next = 0; busy = replicate max 0 }

  unfoldable pub step : Op → Fifo → (Bool × ℕ) × Fifo
  step (put permit) q = put_in permit q
  step get q = take_out q.held q
  step (give_back n) q = ((true, n), free_up n q)
  step clear q = ((true, 0), empty)
  step used_number q = ((true, length q.held), q)
  step ask_empty q = ((length q.held == 0, 0), q)

  -- the replies to a client's calls, in order
  unfoldable pub run : List Op → Fifo → List (Bool × ℕ)
  run [] q = []
  run (op ∷ ops) q = let (r, q') = step op q in r ∷ run ops q'
