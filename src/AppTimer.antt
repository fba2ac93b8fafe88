-- ===== src/AppTimer.antt =====
-- CommonSource/IrqAndTimer/app_timer.c and .h: timers over one common tick counter, which starts
-- again at the least common multiple of the timers' intervals. A timer is called by a number, for
-- its `AppTimerEntry *`, which the caller keeps valid; what the calls back do is a parameter.
pub mod Spec
pub mod Created
pub mod Hooks
pub mod Refine
pub mod Start
mod Tests
use Spec.{Timer, Op, hook, start, stop, lock, unlock}
use eclipse_code.Prelude.{
  ℕ, zero, suc, ◌+◌, ◌%◌, Bool, true, false, ◌&&◌, ◌||◌, Option, none, some, List, [], ◌∷◌, ◌++◌,
  ltb, leb, ◌==◌, if◌then◌else◌, get_or, set, update, not, u32_mod, AppResult, app_successed,
  app_error, app_beyond_scope,
}
use eclipse_code.Lcm.{get_lcm}

-- `MAX_TIMER_ENTRY_NUMBER`, `MAX_TIME_SCOPE_IN_MS`
abbrev pub max_timer_entry_number : ℕ
max_timer_entry_number = 10

abbrev pub max_time_scope_in_ms : ℕ
max_time_scope_in_ms = 50000000

-- `AppTimerEntry`; a callback is known by a number.
pub record AppTimerEntry : Type 0 where
  pub entry_number : ℕ
  pub divider : ℕ
  pub is_timer_start : Bool
  pub p_action : Option ℕ

-- The variables of the file, the entries that its pointers lead to, and the callers' `world`.
pub record AppTimer (W : Type 0) : Type 0 where
  pub current_entry_number : ℕ
  pub app_timer_counter_threshold : ℕ
  pub app_timer_counter : ℕ
  pub p_entry_buf : List (Option ℕ)
  pub is_timer_start : Bool
  pub is_timer_locked : Bool
  pub is_timer_just_begin : Bool
  pub entries : ℕ → AppTimerEntry
  pub world : W

module _ {W : Type 0} where
  -- `AppTimerInit`
  unfoldable pub app_timer_init : AppTimer W → AppTimer W
  app_timer_init s = record s {
    is_timer_locked = false;
    is_timer_start = false;
    is_timer_just_begin = false;
    current_entry_number = 0;
    app_timer_counter = 0;
    app_timer_counter_threshold = 0;
  }

  -- the counter's part of `AppTimerHook`
  unfoldable pub next_count : AppTimer W → AppTimer W
  next_count s =
      if leb s.app_timer_counter_threshold s.app_timer_counter
      then if s.is_timer_just_begin
        then record s { is_timer_just_begin = false; app_timer_counter = 0 }
        else record s { app_timer_counter = 1 }
      else record s { app_timer_counter = (s.app_timer_counter + 1) % u32_mod }

  -- `AppTimerCreated`. A write behind the array `pEntryBuf` changes nothing here.
  unfoldable pub app_timer_created : ℕ → ℕ → Option ℕ → AppTimer W → AppResult × AppTimer W
  app_timer_created p_entry interval call_back s =
      if interval == 4294967295 || interval == 0
      then (app_beyond_scope, s)
      else if ltb max_timer_entry_number s.current_entry_number
      then (app_beyond_scope, s)
      else (
        app_successed,
        record s {
          p_entry_buf = set s.p_entry_buf s.current_entry_number (some p_entry);
          current_entry_number = s.current_entry_number + 1;
          entries = update s.entries p_entry (record {
            entry_number = s.current_entry_number;
            divider = interval;
            is_timer_start = false;
            p_action = call_back;
          });
        },
      )

  -- `AppTimerStart` and `AppTimerStop`
  unfoldable pub app_timer_start : ℕ → AppTimer W → AppResult × AppTimer W
  app_timer_start p s = (
    app_successed,
    record s { entries = update s.entries p (record (s.entries p) { is_timer_start = true }) },
  )

  unfoldable pub app_timer_stop : ℕ → AppTimer W → AppResult × AppTimer W
  app_timer_stop p s = (
    app_successed,
    record s { entries = update s.entries p (record (s.entries p) { is_timer_start = false }) },
  )

  -- `AppTimerLocked` and `AppTimerUnlocked`
  unfoldable pub app_timer_locked : AppTimer W → AppTimer W
  app_timer_locked s = record s { is_timer_locked = true }

  unfoldable pub app_timer_unlocked : AppTimer W → AppTimer W
  app_timer_unlocked s = record s { is_timer_locked = false }

  -- `pEntryBuf[i]->divider`. A null pointer has no divider; `AppTimerCreated` has stored none.
  unfoldable pub divider_at : Option ℕ → AppTimer W → ℕ
  divider_at none s = 0
  divider_at (some p) s = (s.entries p).divider

  -- the loop of `AppTimerModuleStart` with `n` entries left, at `i`
  unfoldable pub dividers : ℕ → ℕ → AppTimer W → List ℕ
  dividers zero i s = []
  dividers (suc n) i s = divider_at (get_or s.p_entry_buf i none) s ∷ dividers n (i + 1) s

  unfoldable pub start_with : Bool × ℕ → AppTimer W → AppResult × AppTimer W
  start_with (true, t) s = (
    app_successed,
    record s {
      app_timer_counter_threshold = t;
      is_timer_start = true;
      is_timer_just_begin = true;
      app_timer_counter = t;
    },
  )
  start_with (false, t) s =
      (app_error, record s { app_timer_counter_threshold = t; is_timer_start = false })

  -- `AppTimerModuleStart`; `ok` and `cur` are the stack's contents under the locals of `GetLCM`.
  unfoldable pub app_timer_module_start :
      Bool → ℕ → (AppTimer W → AppTimer W) → AppTimer W → AppResult × AppTimer W
  unfolding start_with dividers app_timer_init
  app_timer_module_start ok cur timer_config s =
      let c = timer_config (app_timer_init s) in
      start_with (get_lcm ok cur (dividers c.current_entry_number 0 c) max_time_scope_in_ms) c

-- what the callbacks do
module _ {W : Type 0} (act : ℕ → AppTimer W → AppTimer W) where
  -- the body of the loop of `AppTimerHook` for an entry with a callback, by `isTimerStart` and the
  -- test of the divider
  unfoldable pub call_action : Option ℕ → Bool → ℕ → AppTimer W → AppTimer W
  call_action none started d s = s
  call_action (some k) started d s =
      if started && ltb 0 d && s.app_timer_counter % d == 0 then act k s else s

  unfoldable pub call_entry : AppTimerEntry → AppTimer W → AppTimer W
  unfolding call_action
  call_entry e s = call_action e.p_action e.is_timer_start e.divider s

  -- a null pointer breaks the loop
  unfoldable pub entry_at : Option ℕ → (AppTimer W → AppTimer W) → AppTimer W → AppTimer W
  entry_at none rest s = s
  entry_at (some p) rest s = rest (call_entry (s.entries p) s)

  -- The loop of `AppTimerHook` at `i`. Both numbers have eight bits, so 255 rounds reach its end.
  unfoldable pub entry_loop : ℕ → ℕ → AppTimer W → AppTimer W
  entry_loop zero i s = s
  entry_loop (suc n) i s =
      if ltb i s.current_entry_number
      then entry_at (get_or s.p_entry_buf i none) (entry_loop n (i + 1)) s
      else s

  -- `AppTimerHook`
  unfoldable pub app_timer_hook : AppTimer W → AppTimer W
  unfolding entry_loop
  app_timer_hook s =
      if s.is_timer_locked || not s.is_timer_start then s else entry_loop 255 0 (next_count s)

  -- a sequence of calls
  unfoldable pub step : Op → AppTimer W → AppTimer W
  step hook s = app_timer_hook s
  step (start p) s = (app_timer_start p s).1
  step (stop p) s = (app_timer_stop p s).1
  step lock s = app_timer_locked s
  step unlock s = app_timer_unlocked s

  unfoldable pub run : List Op → AppTimer W → AppTimer W
  run [] s = s
  run (op ∷ ops) s = run ops (step op s)

-- the calls of `AppTimerCreated` of a `timer_config`, in order
unfoldable pub create_all : {W : Type 0} → List Timer → AppTimer W → AppTimer W
create_all [] s = s
create_all (t ∷ ts) s = create_all ts (app_timer_created t.pointer t.interval t.action s).1

-- a callback that writes down its number
abbrev pub note : ℕ → AppTimer (List ℕ) → AppTimer (List ℕ)
note k s = record s { world = s.world ++ k ∷ [] }
