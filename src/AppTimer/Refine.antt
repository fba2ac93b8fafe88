-- ===== src/AppTimer/Refine.antt =====
-- The timers of app_timer.c against the endless clock of Spec, over any sequence of calls.
use eclipse_code.Prelude.{
  ℕ, suc, ◌+◌, ◌≤◌, ◌<◌, ◌≡◌, refl, sym, ◌∙◌, subst, Bool, true, false, List, [], ◌∷◌, ◌++◌, length,
  arith, Bool-cases, inl, inr, update,
}
use eclipse_code.AppTimer.{
  AppTimer, AppTimerEntry, app_timer_hook, app_timer_start, app_timer_stop, app_timer_locked,
  app_timer_unlocked, note, step, run,
}
use eclipse_code.AppTimer.Spec
use eclipse_code.AppTimer.Spec.{Timer, Op, hook, start, stop, lock, unlock, Schedule, due, call_of}
use eclipse_code.AppTimer.Created.{Holds, Fit}
use eclipse_code.AppTimer.Hooks.{Ticked, Kept, Divide, next_count-Ticked, app_timer_hook_lem}

-- each timer is started where the specification has it started
abbrev pub Agree : (ℕ → AppTimerEntry) → (ℕ → Bool) → List Timer → Type 0
Agree entries on [] = Unit {0}
Agree entries on (t ∷ ts) =
    ((entries t.pointer).is_timer_start ≡ on t.pointer) × Agree entries on ts

due-Agree :
    (ts : List Timer) (n : ℕ) (entries : ℕ → AppTimerEntry) (on : ℕ → Bool)
    → Agree entries on ts
    → due n (λ p. (entries p).is_timer_start) ts ≡ due n on ts
unfolding due
due-Agree [] n entries on a = refl
due-Agree (t ∷ ts) n entries on (e, a) = rw (e, due-Agree ts n entries on a) refl

module _ (ts : List Timer) where
  pub record Runs (c : Schedule) (s : AppTimer (List ℕ)) : Type 0 where
    pub on : s.is_timer_start ≡ true
    pub pos : 0 < s.app_timer_counter_threshold
    pub small : s.app_timer_counter_threshold < 50000000
    pub tick :
        Ticked s.app_timer_counter_threshold c.clock s.is_timer_just_begin s.app_timer_counter
    pub dv : Divide ts s.app_timer_counter_threshold
    pub count : s.current_entry_number ≡ length ts
    pub holds : Holds s.p_entry_buf 0 ts
    pub kept : Kept s.entries ts
    pub agree : Agree s.entries c.started ts
    pub free : s.is_timer_locked ≡ c.locked
    pub log : s.world ≡ c.log

update-Kept :
    (ts : List Timer) (entries : ℕ → AppTimerEntry) (p : ℕ) (b : Bool)
    → Kept entries ts
    → Kept (update entries p (record (entries p) { is_timer_start = b })) ts
update-Kept [] entries p b k = tt
update-Kept (t ∷ ts) entries p b (d, a, k) =
    (ground arith, ground arith, update-Kept ts entries p b k)

update-Agree :
    (ts : List Timer) (entries : ℕ → AppTimerEntry) (on : ℕ → Bool) (p : ℕ) (b : Bool)
    → Agree entries on ts
    → Agree (update entries p (record (entries p) { is_timer_start = b })) (update on p b) ts
update-Agree [] entries on p b k = tt
update-Agree (t ∷ ts) entries on p b (a, k) = (ground arith, update-Agree ts entries on p b k)

module _ (ts : List Timer) (few : length ts ≤ 10) (fit : Fit ts) where
  hook-Runs :
      (c : Schedule) (s : AppTimer (List ℕ))
      → c.locked ≡ false
      → Runs ts c s
      → Runs ts
          (record c { clock = c.clock + 1; log = c.log ++ due c.clock c.started ts })
          (app_timer_hook note s)
  hook-Runs c s open_now r =
      subst (Runs ts (record c { clock = c.clock + 1; log = c.log ++ due c.clock c.started ts }))
        (sym (
          app_timer_hook_lem ts c.clock s r.on (r.free ∙ open_now) r.pos r.small r.tick r.dv few
            r.count r.holds r.kept fit))
        (record {
          on = r.on;
          pos = r.pos;
          small = r.small;
          tick = rw (add_one c.clock) (next_count-Ticked c.clock s r.pos r.small r.tick);
          dv = r.dv;
          count = r.count;
          holds = r.holds;
          kept = r.kept;
          agree = r.agree;
          free = r.free;
          log = rw (r.log, due-Agree ts c.clock s.entries c.started r.agree) refl;
        })
    where
      add_one : (n : ℕ) → n + 1 ≡ suc n
      add_one n = omega arith

  -- a locked module and a locked clock stand still
  spec_locked : (c : Schedule) → c.locked ≡ true → Spec.step ts hook c ≡ c
  unfolding Spec.step
  spec_locked c e = ground arith

  spec_free :
      (c : Schedule)
      → c.locked ≡ false
      → Spec.step ts hook c
        ≡ record c { clock = c.clock + 1; log = c.log ++ due c.clock c.started ts }
  unfolding Spec.step
  spec_free c e = ground arith

  hook_locked : (s : AppTimer (List ℕ)) → s.is_timer_locked ≡ true → app_timer_hook note s ≡ s
  unfolding app_timer_hook
  hook_locked s e = ground arith

  hook_step-Runs :
      (c : Schedule) (s : AppTimer (List ℕ))
      → Runs ts c s
      → Runs ts (Spec.step ts hook c) (app_timer_hook note s)
  hook_step-Runs c s r = elim (Bool-cases c.locked) [
    | inl shut ↦
        subst (λ (d : Schedule). Runs ts d (app_timer_hook note s)) (sym (spec_locked c shut))
          (subst (Runs ts c) (sym (hook_locked s (r.free ∙ shut))) r)
    | inr free ↦
        subst (λ (d : Schedule). Runs ts d (app_timer_hook note s)) (sym (spec_free c free))
          (hook-Runs c s free r)
  ]

  step-Runs :
      (op : Op) (c : Schedule) (s : AppTimer (List ℕ))
      → Runs ts c s
      → Runs ts (Spec.step ts op c) (step note op s)
  unfolding Spec.step step app_timer_start app_timer_stop app_timer_locked app_timer_unlocked
  step-Runs hook c s r = hook_step-Runs c s r
  step-Runs (start p) c s r = record {
    on = r.on;
    pos = r.pos;
    small = r.small;
    tick = r.tick;
    dv = r.dv;
    count = r.count;
    holds = r.holds;
    kept = update-Kept ts s.entries p true r.kept;
    agree = update-Agree ts s.entries c.started p true r.agree;
    free = r.free;
    log = r.log;
  }
  step-Runs (stop p) c s r = record {
    on = r.on;
    pos = r.pos;
    small = r.small;
    tick = r.tick;
    dv = r.dv;
    count = r.count;
    holds = r.holds;
    kept = update-Kept ts s.entries p false r.kept;
    agree = update-Agree ts s.entries c.started p false r.agree;
    free = r.free;
    log = r.log;
  }
  step-Runs lock c s r = record {
    on = r.on;
    pos = r.pos;
    small = r.small;
    tick = r.tick;
    dv = r.dv;
    count = r.count;
    holds = r.holds;
    kept = r.kept;
    agree = r.agree;
    free = refl;
    log = r.log;
  }
  step-Runs unlock c s r = record {
    on = r.on;
    pos = r.pos;
    small = r.small;
    tick = r.tick;
    dv = r.dv;
    count = r.count;
    holds = r.holds;
    kept = r.kept;
    agree = r.agree;
    free = refl;
    log = r.log;
  }

  pub run-log :
      (ops : List Op) (c : Schedule) (s : AppTimer (List ℕ))
      → Runs ts c s
      → (run note ops s).world ≡ (Spec.run ts ops c).log
  unfolding Spec.run run
  run-log [] c s r = r.log
  run-log (op ∷ ops) c s r = run-log ops (Spec.step ts op c) (step note op s) (step-Runs op c s r)
