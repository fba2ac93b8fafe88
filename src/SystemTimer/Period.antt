-- ===== src/SystemTimer/Period.antt =====
-- `SystemTimerHook` of user_irq.c: when the callbacks of started entries are called.
use mathlib.Core.List.{append-nil, append_assoc}
use native.Mathlib.Nat
use native.Mathlib.Decide.{ℕ_discrete}
use eclipse_code.Prelude.{
  ℕ, zero, suc, ◌+◌, ◌%◌, ◌≤◌, ◌<◌, ◌≡◌, ◌≢◌, refl, sym, ap, ◌∙◌, subst, true, false, Option, none,
  some, List, [], ◌∷◌, ◌++◌, ltb, ◌==◌, length, update, arith, u32_mod,
}
use eclipse_code.SystemTimer.{
  SystemTimer, SystemTimerEntry, call_action, tick_entry, entry_at, entry_loop, system_timer_hook,
  hooks, set_counter,
}
use eclipse_code.AppTimer.Spec.{Timer, call_of}
use eclipse_code.AppTimer.Created.{Holds, NotIn}

-- a callback that writes down its number
abbrev pub note : ℕ → SystemTimer (List ℕ) → SystemTimer (List ℕ)
note k s = record s { world = s.world ++ k ∷ [] }

abbrev pub Apart : List Timer → Type 0
Apart [] = Unit {0}
Apart (t ∷ ts) = (t.interval < 4294967295) × NotIn t.pointer ts × Apart ts

-- `k` ticks after a start at 0
abbrev pub RunsFor : ℕ → (ℕ → SystemTimerEntry) → Timer → Type 0
RunsFor k entries t =
    ((entries t.pointer).is_timer_start ≡ true)
    × ((entries t.pointer).divider ≡ t.interval)
    × ((entries t.pointer).p_action ≡ t.action)
    × ((entries t.pointer).current_counter ≡ k % (t.interval + 1))

abbrev pub AllRun : ℕ → (ℕ → SystemTimerEntry) → List Timer → Type 0
AllRun k entries [] = Unit {0}
AllRun k entries (t ∷ ts) = RunsFor k entries t × AllRun k entries ts

-- the callbacks at the tick that makes `n` ticks complete
unfoldable pub due : ℕ → List Timer → List ℕ
due n [] = []
due n (t ∷ ts) = call_of t.action (n % (t.interval + 1) == 0) ++ due n ts

-- the callbacks of `n` ticks behind the first `k`
unfoldable pub calls : ℕ → ℕ → List Timer → List ℕ
calls zero k ts = []
calls (suc n) k ts = due (suc k) ts ++ calls n (suc k) ts

-- the entry `t` behind one more tick
abbrev ticked : ℕ → Timer → SystemTimer (List ℕ) → SystemTimer (List ℕ)
ticked k t s = record s {
  entries =
      update s.entries t.pointer
        (record (s.entries t.pointer) { current_counter = suc k % (t.interval + 1) });
  world = s.world ++ call_of t.action (suc k % (t.interval + 1) == 0);
}

call_action_lem :
    (a : Option ℕ) (s : SystemTimer (List ℕ))
    → call_action note a s ≡ record s { world = s.world ++ call_of a true }
unfolding call_of
call_action_lem none s = rw append-nil refl
call_action_lem (some k) s = refl

call_of-false : (a : Option ℕ) → call_of a false ≡ []
unfolding call_of
call_of-false none = refl
call_of-false (some k) = refl

last_tick : (k d : ℕ) → k % (d + 1) ≡ d → suc k % (d + 1) ≡ 0
last_tick k d e =
    Nat.suc-mod k (d + 1)
    ∙ ap (λ (x : ℕ). suc x % (d + 1)) e
    ∙ ap (λ (x : ℕ). x % (d + 1)) (omega arith)
    ∙ Nat.mod_self (d + 1)

other_tick : (k d : ℕ) → k % (d + 1) ≢ d → suc k % (d + 1) ≡ suc (k % (d + 1))
other_tick k d e =
    let low : k % (d + 1) < d + 1 = Nat.mod-lt k (omega arith) in
    Nat.suc-mod k (d + 1) ∙ Nat.mod-eq_of_lt (omega arith)

module _ (p : ℕ) (s : SystemTimer (List ℕ)) (on : (s.entries p).is_timer_start ≡ true) where
  tick_due :
      ((s.entries p).current_counter == (s.entries p).divider) ≡ true
      → tick_entry note p s ≡ call_action note (s.entries p).p_action (set_counter p 0 s)
  unfolding tick_entry
  tick_due e = ground arith

  tick_wait :
      ((s.entries p).current_counter == (s.entries p).divider) ≡ false
      → tick_entry note p s ≡ set_counter p (((s.entries p).current_counter + 1) % u32_mod) s
  unfolding tick_entry
  tick_wait e = ground arith

-- the entry with the counter `x`, and its callback if that is 0
abbrev counted : Timer → SystemTimer (List ℕ) → ℕ → SystemTimer (List ℕ)
counted t s x = record s {
  entries = update s.entries t.pointer (record (s.entries t.pointer) { current_counter = x });
  world = s.world ++ call_of t.action (x == 0);
}

counted_wait :
    (t : Timer) (s : SystemTimer (List ℕ)) (x : ℕ)
    → 0 < x
    → set_counter t.pointer x s ≡ counted t s x
counted_wait t s x pos =
    let no : (x == 0) ≡ false = ground arith in rw (no, call_of-false t.action, append-nil) refl

tick_entry_lem :
    (k : ℕ) (t : Timer) (s : SystemTimer (List ℕ))
    → t.interval < 4294967295
    → RunsFor k s.entries t
    → tick_entry note t.pointer s ≡ ticked k t s
tick_entry_lem k t s small (on, d, a, c) = elim (ℕ_discrete (k % (t.interval + 1)) t.interval) [
  | yes e ↦
      tick_due t.pointer s on (ground arith)
      ∙ ap (λ (x : Option ℕ). call_action note x (set_counter t.pointer 0 s)) a
      ∙ call_action_lem t.action (set_counter t.pointer 0 s)
      ∙ ap (counted t s) (sym (last_tick k t.interval e))
  | no ne ↦
      let low : k % (t.interval + 1) < t.interval + 1 = Nat.mod-lt k (omega arith) in
      let next : ((s.entries t.pointer).current_counter + 1) % u32_mod ≡ suc k % (t.interval + 1) =
        omega (arith, other_tick k t.interval ne) in
      tick_wait t.pointer s on (ground arith)
      ∙ ap (λ (x : ℕ). set_counter t.pointer x s) next
      ∙ counted_wait t s (suc k % (t.interval + 1)) (omega (arith, other_tick k t.interval ne))
]

AllRun-update :
    (k : ℕ) (entries : ℕ → SystemTimerEntry) (p : ℕ) (e : SystemTimerEntry) (ts : List Timer)
    → NotIn p ts
    → AllRun k entries ts
    → AllRun k (update entries p e) ts
AllRun-update k entries p e [] out r = tt
AllRun-update k entries p e (t ∷ ts) (ne, out) ((a, b, c, d), r) =
    let same : update entries p e t.pointer ≡ entries t.pointer = ground arith in
    (rw same (a, b, c, d), AllRun-update k entries p e ts out r)

record Looped (k : ℕ) (ts : List Timer) (s s' : SystemTimer (List ℕ)) : Type 0 where
  count : s'.current_entry_number ≡ s.current_entry_number
  buf : s'.p_entry_buf ≡ s.p_entry_buf
  others : (p : ℕ) → NotIn p ts → s'.entries p ≡ s.entries p
  runs : AllRun (suc k) s'.entries ts
  log : s'.world ≡ s.world ++ due (suc k) ts

Looped-more :
    (k : ℕ) (t : Timer) (ts : List Timer) (s s' : SystemTimer (List ℕ))
    → RunsFor k s.entries t
    → NotIn t.pointer ts
    → Looped k ts (ticked k t s) s'
    → Looped k (t ∷ ts) s s'
unfolding due
Looped-more k t ts s s' (a, b, c, d) out l = record {
  count = l.count;
  buf = l.buf;
  others = λ p h. l.others p h.1 ∙ ground (arith, h.0);
  runs = (
    (rw own (ground arith), rw own (ground arith), rw own (ground arith), rw own (ground arith)),
    l.runs,
  );
  log =
      l.log
      ∙ append_assoc s.world (call_of t.action (suc k % (t.interval + 1) == 0)) (due (suc k) ts);
}
  where
    own : s'.entries t.pointer ≡ (ticked k t s).entries t.pointer
    own = l.others t.pointer out

Looped-none : (k : ℕ) (s : SystemTimer (List ℕ)) → Looped k [] s s
unfolding due
Looped-none k s = record {
  count = refl;
  buf = refl;
  others = λ p o. refl;
  runs = tt;
  log = rw append-nil refl;
}

entry_loop-Looped :
    (ts : List Timer) (k n i : ℕ) (s : SystemTimer (List ℕ))
    → length ts ≤ n
    → s.current_entry_number ≡ i + length ts
    → Holds s.p_entry_buf i ts
    → Apart ts
    → AllRun k s.entries ts
    → Looped k ts s (entry_loop note n i s)
unfolding entry_loop entry_at
entry_loop-Looped [] k zero i s le cur h f r = Looped-none k s
entry_loop-Looped [] k (suc n) i s le cur h f r =
    let no : ltb i s.current_entry_number ≡ false = ground arith in rw no (Looped-none k s)
entry_loop-Looped (t ∷ ts) k zero i s le cur h f r = absurd (omega arith)
entry_loop-Looped (t ∷ ts) k (suc n) i s le cur (at, h) (small, out, f) (r, rs) =
    let go : ltb i s.current_entry_number ≡ true = ground arith in
    rw (go, at)
      (subst (λ (u : SystemTimer (List ℕ)). Looped k (t ∷ ts) s (entry_loop note n (i + 1) u))
        (sym (tick_entry_lem k t s small r))
        (Looped-more k t ts s (entry_loop note n (i + 1) (ticked k t s)) r out (
          entry_loop-Looped ts k n (i + 1) (ticked k t s) (omega arith) (omega arith) h f (
            AllRun-update k s.entries t.pointer
              (record (s.entries t.pointer) { current_counter = suc k % (t.interval + 1) }) ts out
              rs))))

-- With at most 255 timers, all started and each with its own entry, whose counters stand at k ticks,
-- any number of further ticks calls each callback at the multiples of the interval plus one: the
-- period of an entry is a tick longer than its interval.
pub hooks-calls :
    (n k : ℕ) (ts : List Timer) (s : SystemTimer (List ℕ))
    → length ts ≤ 255
    → s.current_entry_number ≡ length ts
    → Holds s.p_entry_buf 0 ts
    → Apart ts
    → AllRun k s.entries ts
    → (hooks note n s).world ≡ s.world ++ calls n k ts
unfolding hooks calls system_timer_hook
hooks-calls zero k ts s few cur h f r = rw append-nil refl
hooks-calls (suc n) k ts s few cur h f r =
    let l = entry_loop-Looped ts k 255 0 s few (omega arith) h f r in
    let s1 = entry_loop note 255 0 s in
    hooks-calls n (suc k) ts s1 few (l.count ∙ cur)
      (subst (λ (b : List (Option ℕ)). Holds b 0 ts) (sym l.buf) h) f l.runs
    ∙ ap (λ (w : List ℕ). w ++ calls n (suc k) ts) l.log
    ∙ append_assoc s.world (due (suc k) ts) (calls n (suc k) ts)
