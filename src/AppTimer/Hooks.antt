-- ===== src/AppTimer/Hooks.antt =====
-- One call of `AppTimerHook` (app_timer.c): what becomes of the counter, and which callbacks it calls.
use mathlib.Core.List.{append-nil, append_assoc}
use Prim.Native.Nat.{◌∣◌}
use native.Mathlib.Nat
use eclipse_code.Prelude.{
  ℕ, zero, suc, ◌+◌, ◌%◌, ◌≤◌, ◌<◌, ◌≡◌, refl, sym, ap, ◌∙◌, Bool, true, false, ◌&&◌, Option, none,
  some, List, [], ◌∷◌, ◌++◌, ltb, ◌==◌, length, arith,
}
use eclipse_code.AppTimer.{
  AppTimer, AppTimerEntry, next_count, call_action, call_entry, entry_at, entry_loop,
  app_timer_hook, note,
}
use eclipse_code.AppTimer.Spec.{Timer, due, call_of}
use eclipse_code.AppTimer.Created.{Holds, Fit}

-- the counter and `isTimerJustBegin` behind `n` ticks of a module with the threshold `limit`
abbrev pub Ticked : ℕ → ℕ → Bool → ℕ → Type 0
Ticked limit zero begin c = (begin ≡ true) × (c ≡ limit)
Ticked limit (suc n) begin c = (begin ≡ false) × (c ≤ limit) × (c % limit ≡ n % limit)

-- the entries have the timers' intervals and callbacks
abbrev pub Kept : (ℕ → AppTimerEntry) → List Timer → Type 0
Kept entries [] = Unit {0}
Kept entries (t ∷ ts) =
    ((entries t.pointer).divider ≡ t.interval)
    × ((entries t.pointer).p_action ≡ t.action)
    × Kept entries ts

abbrev pub Divide : List Timer → ℕ → Type 0
Divide [] limit = Unit {0}
Divide (t ∷ ts) limit = (t.interval ∣ limit) × Divide ts limit

next_mod : (l c n : ℕ) → c % l ≡ n % l → (c + 1) % l ≡ (n + 1) % l
next_mod l c n e =
    sym (Nat.mod-add-mod c l 1) ∙ ap (λ (x : ℕ). (x + 1) % l) e ∙ Nat.mod-add-mod n l 1

module _ {W : Type 0} where
  pub next_count-Ticked :
      (n : ℕ) (s : AppTimer W)
      → 0 < s.app_timer_counter_threshold
      → s.app_timer_counter_threshold < 50000000
      → Ticked s.app_timer_counter_threshold n s.is_timer_just_begin s.app_timer_counter
      → Ticked s.app_timer_counter_threshold
          (suc n)
          (next_count s).is_timer_just_begin
          (next_count s).app_timer_counter
  unfolding next_count
  next_count-Ticked zero s pos small (b, c) = ground arith
  next_count-Ticked (suc n) s pos small (b, le, e) = ground (
    arith,
    next_mod s.app_timer_counter_threshold s.app_timer_counter n e,
    Nat.mod_self s.app_timer_counter_threshold,
    next_mod s.app_timer_counter_threshold 0 n,
    Nat.zero-mod s.app_timer_counter_threshold,
  )

abbrev started_of : AppTimer (List ℕ) → ℕ → Bool
started_of s p = (s.entries p).is_timer_start

call_entry_lem :
    (a : Option ℕ) (d : ℕ) (e : AppTimerEntry) (s : AppTimer (List ℕ))
    → 0 < d
    → e.divider ≡ d
    → e.p_action ≡ a
    → call_entry note e s
      ≡ record s { world = s.world ++ call_of a (e.is_timer_start && s.app_timer_counter % d == 0) }
unfolding call_entry call_action call_of
call_entry_lem none d e s pos de ae = rw (ae, append-nil) refl
call_entry_lem (some k) d e s pos de ae = rw ae (ground (arith, append-nil s.world))

-- The loop calls the callbacks that are due, in the order of the array.
entry_loop_lem :
    (ts : List Timer) (n i : ℕ) (s : AppTimer (List ℕ))
    → length ts ≤ n
    → s.current_entry_number ≡ i + length ts
    → Holds s.p_entry_buf i ts
    → Kept s.entries ts
    → Fit ts
    → entry_loop note n i s
      ≡ record s { world = s.world ++ due s.app_timer_counter (started_of s) ts }
unfolding entry_loop entry_at due
entry_loop_lem [] zero i s le cur h k f = rw append-nil refl
entry_loop_lem [] (suc n) i s le cur h k f =
    let no : ltb i s.current_entry_number ≡ false = ground arith in rw (no, append-nil) refl
entry_loop_lem (t ∷ ts) zero i s le cur h k f = absurd (omega arith)
entry_loop_lem (t ∷ ts) (suc n) i s le cur (at, h) (de, ae, k) (pos, small, new, f) =
    let go : ltb i s.current_entry_number ≡ true = ground arith in
    let now : List ℕ =
      call_of t.action (started_of s t.pointer && s.app_timer_counter % t.interval == 0) in
    let s1 : AppTimer (List ℕ) = record s { world = s.world ++ now } in
    rw (go, at)
      (ap (λ (u : AppTimer (List ℕ)). entry_loop note n (i + 1) u)
          (call_entry_lem t.action t.interval (s.entries t.pointer) s pos de ae)
        ∙ entry_loop_lem ts n (i + 1) s1 (omega arith) (omega arith) h k f
        ∙ ap (λ (w : List ℕ). record s { world = w })
            (append_assoc s.world now (due s.app_timer_counter (started_of s) ts)))

-- Where two clocks agree up to the threshold, the same timers are due.
mod_of_threshold : (d l c n : ℕ) → d ∣ l → c % l ≡ n % l → c % d ≡ n % d
mod_of_threshold d l c n dv e =
    sym (Nat.mod-mod_of_dvd d c dv) ∙ ap (λ (x : ℕ). x % d) e ∙ Nat.mod-mod_of_dvd d n dv

due-clock :
    (ts : List Timer) (l c n : ℕ) (on : ℕ → Bool)
    → Divide ts l
    → c % l ≡ n % l
    → due c on ts ≡ due n on ts
unfolding due
due-clock [] l c n on d e = refl
due-clock (t ∷ ts) l c n on (dt, d) e =
    rw (mod_of_threshold t.interval l c n dt e, due-clock ts l c n on d e) refl

next_shape :
    {W : Type 0} (s : AppTimer W)
    → next_count s ≡ record s {
      is_timer_just_begin = (next_count s).is_timer_just_begin;
      app_timer_counter = (next_count s).app_timer_counter;
    }
unfolding next_count
next_shape s = ground arith

hook_open :
    (s : AppTimer (List ℕ))
    → s.is_timer_start ≡ true
    → s.is_timer_locked ≡ false
    → app_timer_hook note s ≡ entry_loop note 255 0 (next_count s)
unfolding app_timer_hook
hook_open s on free = ground arith

-- One tick of a module that runs: it counts on, and calls what is due at the endless clock.
pub app_timer_hook_lem :
    (ts : List Timer) (n : ℕ) (s : AppTimer (List ℕ))
    → s.is_timer_start ≡ true
    → s.is_timer_locked ≡ false
    → 0 < s.app_timer_counter_threshold
    → s.app_timer_counter_threshold < 50000000
    → Ticked s.app_timer_counter_threshold n s.is_timer_just_begin s.app_timer_counter
    → Divide ts s.app_timer_counter_threshold
    → length ts ≤ 10
    → s.current_entry_number ≡ length ts
    → Holds s.p_entry_buf 0 ts
    → Kept s.entries ts
    → Fit ts
    → app_timer_hook note s ≡ record s {
      is_timer_just_begin = (next_count s).is_timer_just_begin;
      app_timer_counter = (next_count s).app_timer_counter;
      world = s.world ++ due n (started_of s) ts;
    }
app_timer_hook_lem ts n s on free pos small tick dv few cur h k f =
    let s1 : AppTimer (List ℕ) = record s {
      is_timer_just_begin = (next_count s).is_timer_just_begin;
      app_timer_counter = (next_count s).app_timer_counter;
    } in
    let next = next_count-Ticked n s pos small tick in
    hook_open s on free
    ∙ (ap (λ (u : AppTimer (List ℕ)). entry_loop note 255 0 u) (next_shape s)
        ∙ entry_loop_lem ts 255 0 s1 (omega arith) (omega arith) h k f
        ∙ ap (λ (l : List ℕ). record s1 { world = s.world ++ l })
            (due-clock ts s.app_timer_counter_threshold (next_count s).app_timer_counter n
              (started_of s) dv next.2))
