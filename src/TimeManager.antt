-- ===== src/TimeManager.antt =====
-- CommonSource/IrqAndTimer/TimeManagerExtern.c and .h: ten places for counters that run down, or for
-- what their owner does at each tick. A counter is known by a number, for its `sTimeManagerBasic *`.
pub mod Places
pub mod Inv
pub mod Turns
pub mod Handle
mod Tests
use eclipse_code.Prelude.{
  ℕ, zero, suc, ◌+◌, ◌-◌, Bool, true, false, Option, none, some, List, [], ◌∷◌, ltb, leb, ◌==◌,
  if◌then◌else◌, get_or, set, update, AppResult, app_successed, app_error, app_beyond_scope,
  app_already_done_before,
}

-- `TM_MAX`
abbrev pub tm_max : ℕ
tm_max = 10

-- `sTimeManagerBasic`; the function `ToDo` is known by a number.
pub record TimeManagerBasic : Type 0 where
  pub counter : ℕ
  pub to_do : Option ℕ

-- the variables of the file, the counters that its pointers lead to, and the callers' `world`
pub record Manager (W : Type 0) : Type 0 where
  pub p_stmb : List (Option ℕ)
  pub entry_counter : ℕ
  pub counters : ℕ → TimeManagerBasic
  pub world : W

abbrev pub points_to : ℕ → Option ℕ → Bool
points_to p none = false
points_to p (some q) = q == p

abbrev pub is_null : Option ℕ → Bool
is_null none = true
is_null (some q) = false

-- the first loop of `TimeManagerExternAdd`: `isAlreadyInList`
unfoldable pub in_list : ℕ → ℕ → ℕ → List (Option ℕ) → Bool
in_list p zero i buf = false
in_list p (suc n) i buf =
    let rest = in_list p n (i + 1) buf in if points_to p (get_or buf i none) then true else rest

-- the second loop of `TimeManagerExternAdd`: the first free place
unfoldable pub free_place : ℕ → ℕ → List (Option ℕ) → Option ℕ
free_place zero i buf = none
free_place (suc n) i buf =
    let rest = free_place n (i + 1) buf in if is_null (get_or buf i none) then some i else rest

-- the loop of `TimeManagerExternInit`
unfoldable pub init_places : ℕ → ℕ → List (Option ℕ) → List (Option ℕ)
init_places zero i buf = buf
init_places (suc n) i buf = init_places n (i + 1) (set buf i none)

-- `*id`, and the result
abbrev pub Reply : Type 0
Reply = ℕ × AppResult

module _ {W : Type 0} where
  unfoldable pub take_place : Option ℕ → ℕ → Option ℕ → Manager W → Reply × Manager W
  take_place none p to_do s = ((tm_max, app_error), s)
  take_place (some i) p to_do s = (
    (i, app_successed),
    record s {
      p_stmb = set s.p_stmb i (some p);
      counters = update s.counters p (record { counter = 0; to_do = to_do });
      entry_counter = s.entry_counter + 1;
    },
  )

  -- `TimeManagerExternAdd`
  unfoldable pub extern_add : ℕ → Option ℕ → Manager W → Reply × Manager W
  unfolding in_list free_place take_place
  extern_add p to_do s =
      if leb tm_max s.entry_counter
      then ((tm_max, app_beyond_scope), s)
      else if in_list p tm_max 0 s.p_stmb
      then ((tm_max, app_already_done_before), s)
      else take_place (free_place tm_max 0 s.p_stmb) p to_do s

  -- the rest of `TimeManagerExternRelease` by `p_sTMB[id]`
  unfoldable pub release_place : Option ℕ → ℕ → Manager W → AppResult × Manager W
  release_place none id s = (app_already_done_before, s)
  release_place (some p) id s = (
    app_successed,
    record s {
      p_stmb = set s.p_stmb id none;
      entry_counter = if ltb 0 s.entry_counter then s.entry_counter - 1 else s.entry_counter;
    },
  )

  -- `TimeManagerExternRelease`
  unfoldable pub extern_release : ℕ → Manager W → AppResult × Manager W
  unfolding release_place
  extern_release id s =
      if leb tm_max id then (app_beyond_scope, s) else release_place (get_or s.p_stmb id none) id s

  abbrev pub write_value : Option ℕ → ℕ → Manager W → Manager W
  write_value none v s = s
  write_value (some p) v s = record s {
    counters = update s.counters p (record (s.counters p) { counter = v });
  }

  abbrev pub read_value : Option ℕ → Manager W → ℕ
  read_value none s = 0
  read_value (some p) s = (s.counters p).counter

  -- `TimeManagerSetBasicValue` and `TimeManagerGetBasicValue`
  unfoldable pub set_basic_value : ℕ → ℕ → Manager W → Manager W
  set_basic_value id v s = if leb tm_max id then s else write_value (get_or s.p_stmb id none) v s

  unfoldable pub get_basic_value : ℕ → Manager W → ℕ
  get_basic_value id s = if leb tm_max id then 0 else read_value (get_or s.p_stmb id none) s

  -- `TimeManagerExternInit`
  unfoldable pub extern_init : Manager W → Manager W
  unfolding init_places
  extern_init s = record s { p_stmb = init_places tm_max 0 s.p_stmb; entry_counter = 0 }

  -- `GetTimeManagerNumber`
  unfoldable pub get_time_manager_number : Manager W → ℕ
  get_time_manager_number s = s.entry_counter

-- what the functions `ToDo` do with a counter
module _ {W : Type 0} (act : ℕ → ℕ → Manager W → Manager W) where
  -- a counter's turn in `TimeManagerExternHandle`, by its `ToDo`
  unfoldable pub turn : Option ℕ → ℕ → Manager W → Manager W
  turn none p s =
      if ltb 0 (s.counters p).counter
      then record s {
        counters =
            update s.counters p (record (s.counters p) { counter = (s.counters p).counter - 1 });
      }
      else s
  turn (some k) p s = act k p s

  unfoldable pub place_turn : Option ℕ → Manager W → Manager W
  place_turn none s = s
  place_turn (some p) s = turn (s.counters p).to_do p s

  unfoldable pub handle_loop : ℕ → ℕ → Manager W → Manager W
  handle_loop zero i s = s
  handle_loop (suc n) i s = handle_loop n (i + 1) (place_turn (get_or s.p_stmb i none) s)

  -- `TimeManagerExternHandle`
  unfoldable pub extern_handle : Manager W → Manager W
  unfolding handle_loop
  extern_handle s = if s.entry_counter == 0 then s else handle_loop tm_max 0 s

-- a client's calls
pub data Op : Type 0 where
  add : ℕ → Option ℕ → Op
  release : ℕ → Op
  set_value : ℕ → ℕ → Op
  handle : Op

module _ {W : Type 0} (act : ℕ → ℕ → Manager W → Manager W) where
  unfoldable pub step : Op → Manager W → Manager W
  step (add p to_do) s = (extern_add p to_do s).1
  step (release id) s = (extern_release id s).1
  step (set_value id v) s = set_basic_value id v s
  step handle s = extern_handle act s

  unfoldable pub run : List Op → Manager W → Manager W
  run [] s = s
  run (op ∷ ops) s = run ops (step op s)
