-- ===== src/ButtonModule/Rounds.antt =====
-- The loop of `ButtonStateMonitor` of ButtonModule.c in one round, while one button is held down.
use native.Mathlib.Decide.{ℕ_discrete}
use eclipse_code.Prelude.{
  ℕ, zero, suc, ◌+◌, ◌≤◌, ◌<◌, ◌≡◌, ◌≢◌, ◌⊎◌, refl, sym, ap, ◌∙◌, subst, Bool, true, false, Option,
  some, none, ◌==◌, arith, inl, inr, test_bit, get_elem?, get_elem?-set, get_elem?-inside, set,
  length, length-set,
}
use eclipse_code.BitOperation.{twobyte_setbit, twobyte_getbit, twobyte_lem}
use eclipse_code.StateMachine.{Records}
use eclipse_code.ButtonModule.{ParamSingleButton, ButtonStateFlag}
use eclipse_code.ButtonModule.Monitor.{
  ButtonPlace, Monitor, button_turn, place_back, turn_at, and_then, monitor_loop,
}
use eclipse_code.ButtonModule.Siblings.{IsStarted, Turned, sibling-Turned}
use eclipse_code.ButtonModule.Held.{Reported}

module _ (loop_time button_number : ℕ) (config : Option (ParamSingleButton → ParamSingleButton))
    (hops : ℕ) (some_hop : 0 < hops) (i : ℕ) (low : i < 16) (few : button_number ≤ 16) where
  -- `sPE` has a place for each button, and every button but `i` is past its initial state.
  pub record Ready (m : Monitor) : Type 0 where
    pub size : button_number ≤ length m.spe
    pub others :
        (j : ℕ) (p : ButtonPlace)
        → j < button_number
        → i ≢ j
        → get_elem? m.spe j ≡ some p
        → IsStarted p.state

  -- the state of a place that is there
  abbrev state_or : Option ButtonPlace → ℕ
  state_or none = 1
  state_or (some p) = p.state

  -- turns of other buttons between two states of the monitor
  record Passed (m m' : Monitor) : Type 0 where
    ready : Ready m'
    same : get_elem? m'.spe i ≡ get_elem? m.spe i
    bit : test_bit m'.sbsf.is_longpush i ≡ test_bit m.sbsf.is_longpush i
    reports_stay : m'.reports ≡ m.reports

  abbrev placed : Monitor → ℕ → ButtonPlace → ButtonStateFlag → Records → Monitor
  placed m j place flags records = record m {
    spe = set m.spe j place;
    sbsf = flags;
    records = records;
  }

  abbrev turn : ℕ → Bool → Option ButtonPlace → Monitor → Option Monitor
  turn = turn_at loop_time button_number config hops

  put_place :
      (m : Monitor) (j : ℕ) (place : ButtonPlace)
      → j < length m.spe
      → get_elem? (set m.spe j place) j ≡ some place
  put_place m j place lt = get_elem?-set m.spe j j place lt ∙ ground arith

  put_other :
      (m : Monitor) (j k : ℕ) (place : ButtonPlace)
      → j < length m.spe
      → j ≢ k
      → get_elem? (set m.spe j place) k ≡ get_elem? m.spe k
  put_other m j k place lt ne =
      let apart : (j == k) ≡ false = ground arith in
      get_elem?-set m.spe j k place lt ∙ rw apart refl

  sibling_turn :
      (j : ℕ) (pushed : Bool) (m : Monitor)
      → j < button_number
      → i ≢ j
      → Ready m
      → (m' : Monitor) × (turn j pushed (get_elem? m.spe j) m ≡ some m') × Passed m m'
  sibling_turn j pushed m lt ne r =
      let room : j < length m.spe = omega (arith, r.size) in
      let (place, at) = get_elem?-inside m.spe j room in
      let t : Turned loop_time button_number config hops some_hop i j ne low (omega arith) lt
          m.sbsf.is_longpush
          (button_turn loop_time button_number config hops j pushed place m.sbsf m.records) =
        sibling-Turned loop_time button_number config hops some_hop i j ne low (omega arith) lt
          pushed m.sbsf m.records place (r.others j place lt ne at) in
      (
        placed m j t.place t.flags t.records,
        ap (λ o. turn j pushed o m) at
            ∙ ap (λ u. place_back loop_time button_number config hops j u m) t.ends,
        record {
          ready = record {
            size = omega (arith, r.size, length-set m.spe j t.place);
            others = λ k p inner other e. elim (ℕ_discrete j k) [
              | yes eq ↦
                  subst IsStarted
                    (ap state_or (
                      sym (put_place m j t.place room)
                      ∙ ap (get_elem? (set m.spe j t.place)) eq
                      ∙ e))
                    t.started
              | no apart ↦ r.others k p inner other (sym (put_other m j k t.place room apart) ∙ e)
            ];
          };
          same = put_other m j i t.place room (λ e. ne (sym e));
          bit = t.bit;
          reports_stay = refl;
        },
      )

  Passed-trans : {m n o : Monitor} → Passed m n → Passed n o → Passed m o
  Passed-trans a b = record {
    ready = b.ready;
    same = b.same ∙ a.same;
    bit = b.bit ∙ a.bit;
    reports_stay = b.reports_stay ∙ a.reports_stay;
  }

  abbrev loop : ℕ → ℕ → ℕ → Monitor → Option Monitor
  loop = monitor_loop loop_time button_number config hops

  abbrev then_loop : ℕ → ℕ → ℕ → Option Monitor → Option Monitor
  then_loop n j value o = and_then loop_time button_number config hops o (loop n j value)

  -- the loop behind the button `i`
  rest_loop :
      (n j value : ℕ) (m : Monitor)
      → j + n ≤ button_number
      → i < j
      → Ready m
      → (m' : Monitor) × (loop n j value m ≡ some m') × Passed m m'
  unfolding monitor_loop
  rest_loop zero j value m le behind r =
      (m, refl, record { ready = r; same = refl; bit = refl; reports_stay = refl })
  rest_loop (suc n) j value m le behind r =
      let (m1, e1, p1) =
        sibling_turn j (twobyte_getbit value j == 1) m (omega (arith, le))
          (λ e. absurd (omega (arith, e, behind))) r in
      let (m2, e2, p2) =
        rest_loop n (j + 1) value m1 (omega (arith, le)) (omega (arith, behind)) p1.ready in
      (m2, ap (then_loop n (j + 1) value) e1 ∙ e2, Passed-trans p1 p2)

  abbrev Reporting : ℕ → ButtonPlace → Type 0
  Reporting = Reported loop_time button_number config hops i

  -- what the turn of the button `i` has come to: its bit is set, or fewer turns are left
  pub record Progress (k : ℕ) (m m' : Monitor) : Type 0 where
    pub ready : Ready m'
    pub place : ButtonPlace
    pub at : get_elem? m'.spe i ≡ some place
    pub reached : (test_bit m'.sbsf.is_longpush i ≡ true) ⊎ Reporting k place
    pub reports_stay : m'.reports ≡ m.reports

  own_turn :
      (k : ℕ) (q : ButtonPlace) (m : Monitor)
      → i < button_number
      → Ready m
      → get_elem? m.spe i ≡ some q
      → Reporting (suc k) q
      → (m' : Monitor) × (turn i true (get_elem? m.spe i) m ≡ some m') × Progress k m m'
  unfolding Reported
  own_turn k q m lt r at rep =
      let room : i < length m.spe = omega (arith, lt, r.size) in
      let (p, f, rs, e, next) = rep m.sbsf m.records in
      (
        placed m i p f rs,
        ap (λ o. turn i true o m) at
            ∙ ap (λ u. place_back loop_time button_number config hops i u m) e,
        record {
          ready = record {
            size = omega (arith, r.size, length-set m.spe i p);
            others = λ j x inner other y.
                r.others j x inner other (sym (put_other m i j p room other) ∙ y);
          };
          place = p;
          at = put_place m i p room;
          reached = elim next [
            | inl done ↦ inl (
                ap (λ (g : ButtonStateFlag). test_bit g.is_longpush i) done.1
                ∙ (twobyte_lem m.sbsf.is_longpush i i (omega (arith, low)) low).0
                ∙ ground arith)
            | inr goes_on ↦ inr goes_on.1
          ];
          reports_stay = refl;
        },
      )

  Progress-Passed : {k : ℕ} {m n o : Monitor} → Progress k m n → Passed n o → Progress k m o
  Progress-Passed a b = record {
    ready = b.ready;
    place = a.place;
    at = b.same ∙ a.at;
    reached = elim a.reached [ inl on ↦ inl (b.bit ∙ on) | inr left ↦ inr left ];
    reports_stay = b.reports_stay ∙ a.reports_stay;
  }

  Passed-Progress : {k : ℕ} {m n o : Monitor} → Passed m n → Progress k n o → Progress k m o
  Passed-Progress a b = record {
    ready = b.ready;
    place = b.place;
    at = b.at;
    reached = b.reached;
    reports_stay = b.reports_stay ∙ a.reports_stay;
  }

  later : (j : ℕ) → j ≤ i → i ≢ j → j + 1 ≤ i
  later j le apart = ground arith

  -- the whole loop of one round
  pub whole_loop :
      (k n j value : ℕ) (q : ButtonPlace) (m : Monitor)
      → j + n ≤ button_number
      → j ≤ i
      → i < j + n
      → (twobyte_getbit value i == 1) ≡ true
      → Ready m
      → get_elem? m.spe i ≡ some q
      → Reporting (suc k) q
      → (m' : Monitor) × (loop n j value m ≡ some m') × Progress k m m'
  unfolding monitor_loop
  whole_loop k zero j value q m le before inner pressed r at rep =
      absurd (omega (arith, before, inner))
  whole_loop k (suc n) j value q m le before inner pressed r at rep = elim (ℕ_discrete i j) [
    | yes eq ↦
        let (m1, e1, p1) = own_turn k q m (omega (arith, le, inner)) r at rep in
        let (m2, e2, p2) =
          rest_loop n (j + 1) value m1 (omega (arith, le)) (omega (arith, eq)) p1.ready in
        (
          m2,
          ap
                (λ x.
                  then_loop n (j + 1) value
                    (turn x (twobyte_getbit value x == 1) (get_elem? m.spe x) m))
                (sym eq)
              ∙ ap (λ b. then_loop n (j + 1) value (turn i b (get_elem? m.spe i) m)) pressed
              ∙ ap (then_loop n (j + 1) value) e1
              ∙ e2,
          Progress-Passed p1 p2,
        )
    | no apart ↦
        let (m1, e1, p1) =
          sibling_turn j (twobyte_getbit value j == 1) m (omega (arith, le)) apart r in
        let (m2, e2, p2) =
          whole_loop k n (j + 1) value q m1 (omega (arith, le)) (later j before apart)
            (omega (arith, inner)) pressed p1.ready (p1.same ∙ at) rep in
        (m2, ap (then_loop n (j + 1) value) e1 ∙ e2, Passed-Progress p1 p2)
  ]

  -- the sample with the bit of the button
  pub pressed_bit : (value : ℕ) → (twobyte_getbit (twobyte_setbit value i) i == 1) ≡ true
  pressed_bit value =
      let reads = (twobyte_lem (twobyte_setbit value i) i i (omega (arith, low)) low).2 in
      let is_set = (twobyte_lem value i i (omega (arith, low)) low).0 in
      let on : test_bit (twobyte_setbit value i) i ≡ true = is_set ∙ ground arith in
      rw (reads, on) refl
