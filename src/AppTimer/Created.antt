-- ===== src/AppTimer/Created.antt =====
-- What a row of calls of `AppTimerCreated` (app_timer.c) leaves in the array and in the entries.
use eclipse_code.Prelude.{
  ℕ, zero, suc, ◌+◌, ◌≤◌, ◌<◌, ◌≡◌, ◌≢◌, refl, ap, ◌∙◌, false, Option, none, some, List, [], ◌∷◌,
  length, get_or, set, length-set, get_or-set, app_successed, arith, update,
}
use eclipse_code.AppTimer.{AppTimer, AppTimerEntry, app_timer_created, create_all}
use eclipse_code.AppTimer.Spec.{Timer}

-- the array points to the timers from place `i` on
abbrev pub Holds : List (Option ℕ) → ℕ → List Timer → Type 0
Holds buf i [] = Unit {0}
Holds buf i (t ∷ ts) = (get_or buf i none ≡ some t.pointer) × Holds buf (i + 1) ts

abbrev pub NotIn : ℕ → List Timer → Type 0
NotIn p [] = Unit {0}
NotIn p (t ∷ ts) = (p ≢ t.pointer) × NotIn p ts

-- each timer has its own entry, and an interval that `AppTimerCreated` takes
abbrev pub Fit : List Timer → Type 0
Fit [] = Unit {0}
Fit (t ∷ ts) = (0 < t.interval) × (t.interval < 4294967295) × NotIn t.pointer ts × Fit ts

-- the entries are set to the timers' intervals and callbacks
abbrev pub Made : (ℕ → AppTimerEntry) → List Timer → Type 0
Made entries [] = Unit {0}
Made entries (t ∷ ts) =
    ((entries t.pointer).divider ≡ t.interval)
    × ((entries t.pointer).p_action ≡ t.action)
    × ((entries t.pointer).is_timer_start ≡ false)
    × Made entries ts

pub record Filled {W : Type 0} (ts : List Timer) (s s' : AppTimer W) : Type 0 where
  pub size : length s'.p_entry_buf ≡ 10
  pub count : s'.current_entry_number ≡ s.current_entry_number + length ts
  pub holds : Holds s'.p_entry_buf s.current_entry_number ts
  pub before :
      (j : ℕ)
      → j < s.current_entry_number
      → get_or s'.p_entry_buf j none ≡ get_or s.p_entry_buf j none
  pub made : Made s'.entries ts
  pub others : (p : ℕ) → NotIn p ts → s'.entries p ≡ s.entries p
  pub world : s'.world ≡ s.world
  pub unlocked : s'.is_timer_locked ≡ s.is_timer_locked

module _ {W : Type 0} (t : Timer) (s : AppTimer W) where
  -- the state behind a call of `AppTimerCreated` that there is room for
  abbrev made_entry : AppTimerEntry
  made_entry = record {
    entry_number = s.current_entry_number;
    divider = t.interval;
    is_timer_start = false;
    p_action = t.action;
  }

  abbrev added : AppTimer W
  added = record s {
    p_entry_buf = set s.p_entry_buf s.current_entry_number (some t.pointer);
    current_entry_number = s.current_entry_number + 1;
    entries = update s.entries t.pointer made_entry;
  }

  created_lem :
      0 < t.interval
      → t.interval < 4294967295
      → s.current_entry_number ≤ 10
      → app_timer_created t.pointer t.interval t.action s ≡ (app_successed, added)
  unfolding app_timer_created
  created_lem pos small room = ground arith

  more :
      (ts : List Timer) (s' : AppTimer W)
      → length s.p_entry_buf ≡ 10
      → s.current_entry_number < 10
      → NotIn t.pointer ts
      → Filled ts added s'
      → Filled (t ∷ ts) s s'
  more ts s' size room new f = record {
    size = f.size;
    count = omega (arith, f.count);
    holds = (
      f.before s.current_entry_number (omega arith)
          ∙ ground (
            arith,
            get_or-set s.p_entry_buf s.current_entry_number s.current_entry_number (some t.pointer)
                none,
          ),
      f.holds,
    );
    before = λ j h.
        f.before j (omega arith)
        ∙ ground (arith, get_or-set s.p_entry_buf s.current_entry_number j (some t.pointer) none);
    made =
        let own : s'.entries t.pointer ≡ made_entry = f.others t.pointer new ∙ ground arith in
        (
          ap (λ (e : AppTimerEntry). e.divider) own,
          ap (λ (e : AppTimerEntry). e.p_action) own,
          ap (λ (e : AppTimerEntry). e.is_timer_start) own,
          f.made,
        );
    others = λ p h. f.others p h.1 ∙ ground (arith, h.0);
    world = f.world;
    unlocked = f.unlocked;
  }

pub create_all-Filled :
    {W : Type 0} (ts : List Timer) (s : AppTimer W)
    → length s.p_entry_buf ≡ 10
    → s.current_entry_number + length ts ≤ 10
    → Fit ts
    → Filled ts s (create_all ts s)
unfolding create_all
create_all-Filled [] s size room fit = record {
  size = size;
  count = omega arith;
  holds = tt;
  before = λ j h. refl;
  made = tt;
  others = λ p h. refl;
  world = refl;
  unlocked = refl;
}
create_all-Filled (t ∷ ts) s size room (pos, small, new, fit) =
    rw (created_lem t s pos small (omega arith)) (
      more t s ts (create_all ts (added t s)) size (omega arith) new (
        create_all-Filled ts (added t s)
          (rw (length-set s.p_entry_buf s.current_entry_number (some t.pointer)) size) (omega arith)
          fit))

set_outside {ℓ} : {A : Type ℓ} (xs : List A) (i : ℕ) (v : A) → length xs ≤ i → set xs i v ≡ xs
set_outside [] i v h = refl
set_outside (x ∷ xs) zero v h = absurd (omega arith)
set_outside (x ∷ xs) (suc i) v h = rw (set_outside xs i v (omega arith)) refl

-- With all ten places of the array taken, AppTimerCreated with an interval that it takes still
-- reports success and counts an eleventh entry, which no place of the array holds.
pub created_behind :
    {W : Type 0} (p interval : ℕ) (call_back : Option ℕ) (s : AppTimer W)
    → s.current_entry_number ≡ 10
    → length s.p_entry_buf ≡ 10
    → 0 < interval
    → interval < 4294967295
    → ((app_timer_created p interval call_back s).0 ≡ app_successed)
      × ((app_timer_created p interval call_back s).1.current_entry_number ≡ 11)
      × ((app_timer_created p interval call_back s).1.p_entry_buf ≡ s.p_entry_buf)
created_behind p interval call_back s full size pos small =
    let t : Timer = record { pointer = p; interval = interval; action = call_back } in
    let e = created_lem t s pos small (omega arith) in
    rw e
      (refl, omega arith, set_outside s.p_entry_buf s.current_entry_number (some p) (omega arith))
