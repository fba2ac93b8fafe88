-- ===== src/AppTimer/Spec.antt =====
-- What app_timer.c promises: a clock that counts the ticks without end, and at each tick the
-- callbacks of the timers that are started and whose interval divides the clock.
use eclipse_code.Prelude.{
  ℕ, ◌+◌, ◌%◌, Bool, true, false, ◌&&◌, Option, none, some, List, [], ◌∷◌, ◌++◌, ◌==◌,
  if◌then◌else◌, update,
}

pub record Timer : Type 0 where
  pub pointer : ℕ
  pub interval : ℕ
  pub action : Option ℕ

pub data Op : Type 0 where
  hook : Op
  start : ℕ → Op
  stop : ℕ → Op
  lock : Op
  unlock : Op

pub record Schedule : Type 0 where
  pub clock : ℕ
  pub locked : Bool
  pub started : ℕ → Bool
  pub log : List ℕ

unfoldable pub call_of : Option ℕ → Bool → List ℕ
call_of none due = []
call_of (some k) due = if due then k ∷ [] else []

unfoldable pub due : ℕ → (ℕ → Bool) → List Timer → List ℕ
due clock started [] = []
due clock started (t ∷ ts) =
    call_of t.action (started t.pointer && clock % t.interval == 0) ++ due clock started ts

module _ (timers : List Timer) where
  unfoldable pub step : Op → Schedule → Schedule
  step hook c =
      if c.locked
      then c
      else record c { clock = c.clock + 1; log = c.log ++ due c.clock c.started timers }
  step (start p) c = record c { started = update c.started p true }
  step (stop p) c = record c { started = update c.started p false }
  step lock c = record c { locked = true }
  step unlock c = record c { locked = false }

  unfoldable pub run : List Op → Schedule → Schedule
  run [] c = c
  run (op ∷ ops) c = run ops (step op c)
