-- ===== src/SystemTimer.antt =====
-- CommonSource/IrqAndTimer/user_irq.c and .h, the system timer: every entry counts its own ticks. An
-- entry is known by a number, for its `SystemTimerEntry *`. Threads and locks are not modelled.
pub mod Period
mod Tests
use eclipse_code.Prelude.{
  ℕ, zero, suc, ◌+◌, ◌%◌, Bool, true, false, Option, none, some, List, [], ◌∷◌, ltb, ◌==◌,
  if◌then◌else◌, get_or, set, update, u32_mod, AppResult, app_successed, app_beyond_scope,
}

-- `MAX_SYS_TIMER_ENTRY_NUMBER`
abbrev pub max_sys_timer_entry_number : ℕ
max_sys_timer_entry_number = 10

-- `SystemTimerEntry`
pub record SystemTimerEntry : Type 0 where
  pub entry_number : ℕ
  pub divider : ℕ
  pub current_counter : ℕ
  pub is_timer_start : Bool
  pub p_action : Option ℕ

-- the variables of the file, the entries, and the callers' `world`
pub record SystemTimer (W : Type 0) : Type 0 where
  pub current_entry_number : ℕ
  pub p_entry_buf : List (Option ℕ)
  pub entries : ℕ → SystemTimerEntry
  pub world : W

module _ {W : Type 0} where
  unfoldable pub system_timer_init : SystemTimer W → SystemTimer W
  system_timer_init s = record s { current_entry_number = 0 }

  unfoldable pub system_timer_start : ℕ → SystemTimer W → AppResult × SystemTimer W
  system_timer_start p s = (
    app_successed,
    record s { entries = update s.entries p (record (s.entries p) { is_timer_start = true }) },
  )

  unfoldable pub system_timer_stop : ℕ → SystemTimer W → AppResult × SystemTimer W
  system_timer_stop p s = (
    app_successed,
    record s { entries = update s.entries p (record (s.entries p) { is_timer_start = false }) },
  )

  -- A write behind the array `pEntryBuf` changes nothing here.
  unfoldable pub system_timer_created : ℕ → ℕ → Option ℕ → SystemTimer W → AppResult × SystemTimer W
  system_timer_created p_entry interval call_back s =
      if interval == 4294967295
      then (app_beyond_scope, s)
      else if ltb max_sys_timer_entry_number s.current_entry_number
      then (app_beyond_scope, s)
      else (
        app_successed,
        record s {
          p_entry_buf = set s.p_entry_buf s.current_entry_number (some p_entry);
          current_entry_number = s.current_entry_number + 1;
          entries = update s.entries p_entry (record {
            entry_number = s.current_entry_number;
            current_counter = 0;
            divider = interval;
            is_timer_start = false;
            p_action = call_back;
          });
        },
      )

  -- `pEntryBuf[i]->current_counter = c`
  abbrev pub set_counter : ℕ → ℕ → SystemTimer W → SystemTimer W
  set_counter p c s = record s {
    entries = update s.entries p (record (s.entries p) { current_counter = c });
  }

-- what the callbacks do
module _ {W : Type 0} (act : ℕ → SystemTimer W → SystemTimer W) where
  abbrev pub call_action : Option ℕ → SystemTimer W → SystemTimer W
  call_action none s = s
  call_action (some k) s = act k s

  -- the body of the loop of `SystemTimerHook` for the entry `p`
  unfoldable pub tick_entry : ℕ → SystemTimer W → SystemTimer W
  tick_entry p s =
      if (s.entries p).is_timer_start
      then if (s.entries p).current_counter == (s.entries p).divider
        then call_action (s.entries p).p_action (set_counter p 0 s)
        else set_counter p (((s.entries p).current_counter + 1) % u32_mod) s
      else s

  -- a null pointer breaks the loop
  unfoldable pub entry_at :
      Option ℕ → (SystemTimer W → SystemTimer W) → SystemTimer W → SystemTimer W
  entry_at none rest s = s
  entry_at (some p) rest s = rest (tick_entry p s)

  -- The loop of `SystemTimerHook` at `i`. Both numbers have eight bits, so 255 rounds reach its end.
  unfoldable pub entry_loop : ℕ → ℕ → SystemTimer W → SystemTimer W
  entry_loop zero i s = s
  entry_loop (suc n) i s =
      if ltb i s.current_entry_number
      then entry_at (get_or s.p_entry_buf i none) (entry_loop n (i + 1)) s
      else s

  unfoldable pub system_timer_hook : SystemTimer W → SystemTimer W
  unfolding entry_loop
  system_timer_hook s = entry_loop 255 0 s

  unfoldable pub hooks : ℕ → SystemTimer W → SystemTimer W
  hooks zero s = s
  hooks (suc n) s = hooks n (system_timer_hook s)
