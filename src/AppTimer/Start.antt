-- ===== src/AppTimer/Start.antt =====
-- `AppTimerModuleStart` (app_timer.c) over the search of lcm_gcd.c, and the runs behind it.
use eclipse_code.Prelude.{
  ℕ, ◌+◌, ◌≤◌, ◌<◌, ◌≡◌, ◌↔◌, refl, sym, ap, ◌∙◌, subst, Bool, true, false, List, [], ◌∷◌, length,
  arith, AppResult, app_successed,
}
use eclipse_code.Lcm.{get_lcm}
use eclipse_code.Lcm.Laws.{Multiple, Positive, Found, get_lcm-Found}
use eclipse_code.AppTimer.{
  AppTimer, AppTimerEntry, app_timer_init, app_timer_module_start, start_with, dividers, divider_at,
  create_all, note, run,
}
use eclipse_code.AppTimer.Spec
use eclipse_code.AppTimer.Spec.{Timer, Op, hook, start, stop, lock, unlock, Schedule, due, call_of}
use eclipse_code.AppTimer.Created.{Holds, Fit, Made, Filled, create_all-Filled}
use eclipse_code.AppTimer.Hooks.{Kept, Divide}
use eclipse_code.AppTimer.Refine.{Agree, Runs, run-log}

-- the intervals that `AppTimerModuleStart` collects
intervals : List Timer → List ℕ
intervals [] = []
intervals (t ∷ ts) = t.interval ∷ intervals ts

dividers_lem :
    (ts : List Timer) (i : ℕ) (s : AppTimer (List ℕ))
    → Holds s.p_entry_buf i ts
    → Kept s.entries ts
    → dividers (length ts) i s ≡ intervals ts
unfolding dividers divider_at intervals
dividers_lem [] i s h k = refl
dividers_lem (t ∷ ts) i s (at, h) (d, a, k) = rw (at, d, dividers_lem ts (i + 1) s h k) refl

Fit-Positive : (ts : List Timer) → Fit ts → Positive (intervals ts)
unfolding intervals
Fit-Positive [] f = tt
Fit-Positive (t ∷ ts) (pos, small, new, f) = (pos, Fit-Positive ts f)

Multiple-Divide : (ts : List Timer) (l : ℕ) → Multiple (intervals ts) l → Divide ts l
unfolding intervals
Multiple-Divide [] l m = tt
Multiple-Divide (t ∷ ts) l (d, m) = (d, Multiple-Divide ts l m)

Divide-Multiple : (ts : List Timer) (l : ℕ) → Divide ts l → Multiple (intervals ts) l
unfolding intervals
Divide-Multiple [] l m = tt
Divide-Multiple (t ∷ ts) l (d, m) = (d, Divide-Multiple ts l m)

Made-Kept : (entries : ℕ → AppTimerEntry) (ts : List Timer) → Made entries ts → Kept entries ts
Made-Kept entries [] m = tt
Made-Kept entries (t ∷ ts) (d, a, o, m) = (d, a, Made-Kept entries ts m)

Made-Agree :
    (entries : ℕ → AppTimerEntry) (ts : List Timer)
    → Made entries ts
    → Agree entries (λ p. false) ts
Made-Agree entries [] m = tt
Made-Agree entries (t ∷ ts) (d, a, o, m) = (o, Made-Agree entries ts m)

-- the clock of a module that has just started, behind what the world already holds
abbrev pub fresh_schedule : List ℕ → Schedule
fresh_schedule log = record { clock = 0; locked = false; started = λ p. false; log = log }

started-Runs :
    (ts : List Timer) (t : ℕ) (s c : AppTimer (List ℕ))
    → s.current_entry_number ≡ 0
    → s.is_timer_locked ≡ false
    → 0 < t
    → t < 50000000
    → Divide ts t
    → Filled ts s c
    → Runs ts (fresh_schedule s.world) (start_with (true, t) c).1
unfolding start_with
started-Runs ts t s c none_yet free pos small dv f = record {
  on = refl;
  pos = pos;
  small = small;
  tick = (refl, refl);
  dv = dv;
  count = omega (arith, f.count);
  holds = subst (λ (i : ℕ). Holds c.p_entry_buf i ts) none_yet f.holds;
  kept = Made-Kept c.entries ts f.made;
  agree = Made-Agree c.entries ts f.made;
  free = f.unlocked ∙ free;
  log = f.world;
}

-- With a success of the search the module runs.
search-Runs :
    (ts : List Timer) (r : Bool × ℕ) (s c : AppTimer (List ℕ))
    → s.current_entry_number ≡ 0
    → s.is_timer_locked ≡ false
    → Filled ts s c
    → Found (Multiple (intervals ts)) 50000000 r
    → (start_with r c).0 ≡ app_successed
    → Runs ts (fresh_schedule s.world) (start_with r c).1
unfolding Found
search-Runs ts (true, t) s c none_yet free f ((pos, m, least), lt) ok =
    started-Runs ts t s c none_yet free pos lt (Multiple-Divide ts t m) f
search-Runs ts (false, t) s c none_yet free f found ok = absurd (unfold start_with in cc)

search_iff :
    (ts : List Timer) (r : Bool × ℕ) (c : AppTimer (List ℕ))
    → Found (Multiple (intervals ts)) 50000000 r
    → ((start_with r c).0 ≡ app_successed) ↔ ((t : ℕ) × (0 < t) × (t < 50000000) × Divide ts t)
unfolding Found start_with
search_iff ts (true, t) c ((pos, m, least), lt) =
    (λ e. (t, pos, lt, Multiple-Divide ts t m), λ w. refl)
search_iff ts (false, t) c (z, absent) =
    (λ e. absurd (cc), λ w. absurd (omega (arith, absent w.0 w.1 (Divide-Multiple ts w.0 w.3))))

module _ (ok : Bool) (cur : ℕ) (ts : List Timer) (s : AppTimer (List ℕ)) where
  made_state : AppTimer (List ℕ)
  made_state = create_all ts (app_timer_init s)

  made-Filled :
      length s.p_entry_buf ≡ 10 → length ts ≤ 10 → Fit ts → Filled ts (app_timer_init s) made_state
  unfolding app_timer_init made_state
  made-Filled size few fit = create_all-Filled ts (app_timer_init s) size (omega arith) fit

  module_start_lem :
      length s.p_entry_buf ≡ 10
      → length ts ≤ 10
      → Fit ts
      → app_timer_module_start ok cur (create_all ts) s
        ≡ start_with (get_lcm ok cur (intervals ts) 50000000) made_state
  unfolding app_timer_module_start made_state app_timer_init
  module_start_lem size few fit =
      let f = create_all-Filled ts (app_timer_init s) size (omega arith) fit in
      let n : (create_all ts (app_timer_init s)).current_entry_number ≡ length ts =
        omega (arith, f.count) in
      let c = create_all ts (app_timer_init s) in
      let e : dividers c.current_entry_number 0 c ≡ intervals ts =
        ap (λ (k : ℕ). dividers k 0 c) n
        ∙ dividers_lem ts 0 c f.holds (Made-Kept c.entries ts f.made) in
      ap (λ (l : List ℕ). start_with (get_lcm ok cur l 50000000) c) e

-- After AppTimerModuleStart of two to ten timers, each with its own entry and an interval that
-- AppTimerCreated takes, succeeds, any sequence of ticks, starts, stops, locks and unlocks calls the
-- callbacks that the endless clock calls: at each tick those of the timers that are started and whose
-- interval divides the number of ticks so far.
pub run_lem :
    (ok : Bool) (cur : ℕ) (a b : Timer) (rest : List Timer) (s : AppTimer (List ℕ))
    → length s.p_entry_buf ≡ 10
    → length (a ∷ b ∷ rest) ≤ 10
    → Fit (a ∷ b ∷ rest)
    → (app_timer_module_start ok cur (create_all (a ∷ b ∷ rest)) s).0 ≡ app_successed
    → (ops : List Op)
    → (run note ops (app_timer_module_start ok cur (create_all (a ∷ b ∷ rest)) s).1).world
      ≡ (Spec.run (a ∷ b ∷ rest) ops (fresh_schedule s.world)).log
unfolding intervals app_timer_init
run_lem ok cur a b rest s size few fit won ops =
    let ts : List Timer = a ∷ b ∷ rest in
    let e = module_start_lem ok cur ts s size few fit in
    let found =
      get_lcm-Found ok cur a.interval b.interval (intervals rest) 50000000 (Fit-Positive ts fit) in
    ap (λ (u : AppResult × AppTimer (List ℕ)). (run note ops u.1).world) e
    ∙ run-log ts few fit ops (fresh_schedule s.world)
        (start_with (get_lcm ok cur (intervals ts) 50000000) (made_state ok cur ts s)).1
        (search-Runs ts (get_lcm ok cur (intervals ts) 50000000) (app_timer_init s)
          (made_state ok cur ts s) refl refl (made-Filled ok cur ts s size few fit) found
          (subst (λ (u : AppResult × AppTimer (List ℕ)). u.0 ≡ app_successed) e won))

-- AppTimerModuleStart of two to ten timers, each with its own entry and an interval that
-- AppTimerCreated takes, succeeds exactly when the intervals have a common multiple below 50000000.
pub module_start_iff :
    (ok : Bool) (cur : ℕ) (a b : Timer) (rest : List Timer) (s : AppTimer (List ℕ))
    → length s.p_entry_buf ≡ 10
    → length (a ∷ b ∷ rest) ≤ 10
    → Fit (a ∷ b ∷ rest)
    → ((app_timer_module_start ok cur (create_all (a ∷ b ∷ rest)) s).0 ≡ app_successed)
      ↔ ((t : ℕ) × (0 < t) × (t < 50000000) × Divide (a ∷ b ∷ rest) t)
unfolding intervals
module_start_iff ok cur a b rest s size few fit =
    let ts : List Timer = a ∷ b ∷ rest in
    let c = made_state ok cur ts s in
    let found =
      get_lcm-Found ok cur a.interval b.interval (intervals rest) 50000000 (Fit-Positive ts fit) in
    subst
      (λ (u : AppResult × AppTimer (List ℕ)).
        (u.0 ≡ app_successed) ↔ ((t : ℕ) × (0 < t) × (t < 50000000) × Divide ts t))
      (sym (module_start_lem ok cur ts s size few fit))
      (search_iff ts (get_lcm ok cur (intervals ts) 50000000) c found)
