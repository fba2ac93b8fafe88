-- ===== src/ButtonModule/Delivered.antt =====
-- The rounds of `ButtonStateMonitor` of ButtonModule.c while one button is held down: its long push
-- comes to the callback.
use eclipse_code.Prelude.{
  ℕ, zero, suc, ◌+◌, ◌*◌, ◌≤◌, ◌<◌, ◌≡◌, ◌⊎◌, refl, ap, ◌∙◌, true, Option, some, List, ◌++◌, arith,
  inl, inr, get_elem?,
}
use eclipse_code.BitOperation.{twobyte_setbit}
use eclipse_code.ButtonModule.{ParamSingleButton, ParamAboutTime}
use eclipse_code.ButtonModule.Monitor.{
  ButtonPlace, Report, Callbacks, Monitor, button_flag_report, and_then, button_state_monitor,
}
use eclipse_code.ButtonModule.Pushed.{at_rest}
use eclipse_code.ButtonModule.Held.{Reported, long_push-Reported}
use eclipse_code.ButtonModule.Told.{any_tells, report-tells}
use eclipse_code.ButtonModule.Rounds.{Ready, whole_loop, pressed_bit}

module _ (loop_time button_number : ℕ) (config : Option (ParamSingleButton → ParamSingleButton))
    (hops : ℕ) (some_hop : 0 < hops) (i : ℕ) (low : i < 16) (few : button_number ≤ 16) where
  module _ (c : Callbacks) (has : c.has_long_push ≡ true) where
    -- Within `k` rounds, whatever the other buttons' samples are, the callback of long pushes is called
    -- with the bit of the button.
    pub Delivered : ℕ → Monitor → Type 0
    Delivered zero m = ⊥
    Delivered (suc k) m =
        (value : ℕ)
        → (m' : Monitor) × (button_state_monitor loop_time button_number config hops c
              (twobyte_setbit value i) m
            ≡ some m')
          × (((added : List Report) × (m'.reports ≡ m.reports ++ added)
                × (any_tells i added ≡ true))
              ⊎ Delivered k m')

    Ready-report :
        (m : Monitor)
        → Ready loop_time button_number config hops some_hop i low few m
        → Ready loop_time button_number config hops some_hop i low few (button_flag_report c m)
    unfolding button_flag_report
    Ready-report m r = record { size = r.size; others = r.others }

    spe-report : (m : Monitor) → (button_flag_report c m).spe ≡ m.spe
    unfolding button_flag_report
    spe-report m = refl

    delivers :
        (k : ℕ) (q : ButtonPlace) (m : Monitor)
        → i < button_number
        → Ready loop_time button_number config hops some_hop i low few m
        → get_elem? m.spe i ≡ some q
        → Reported loop_time button_number config hops i k q
        → Delivered k m
    unfolding Reported Delivered button_state_monitor
    delivers zero q m lt r at rep = rep
    delivers (suc k) q m lt r at rep = λ value.
        let (m1, e, p) =
          whole_loop loop_time button_number config hops some_hop i low few k button_number 0
            (twobyte_setbit value i) q m (omega arith) (omega arith) (omega (arith, lt))
            (pressed_bit loop_time button_number config hops some_hop i low few value) r at rep in
        (
          button_flag_report c m1,
          ap
              (λ o.
                and_then loop_time button_number config hops o (λ u. some (button_flag_report c u)))
              e,
          elim p.reached [
            | inl on ↦
                let (added, same, tells_it) = report-tells c m1 i has on in
                inl (added, same ∙ ap (λ rs. rs ++ added) p.reports_stay, tells_it)
            | inr left ↦ inr (
                delivers k p.place (button_flag_report c m1) lt (Ready-report m1 p.ready)
                  (ap (λ xs. get_elem? xs i) (spe-report m1) ∙ p.at) left)
          ],
        )

    -- A button at rest in the start state of `ButtonStateMonitor`, one of at most 16, is held down for
    -- `m + n + 2` rounds, where `m` rounds last as long as the threshold of a click, `n` rounds as long
    -- as that of a long push, both are from 1 to 65534, both thresholds of a release are positive, the
    -- engine may do a round, the other buttons are past their initial state, and the callback of long
    -- pushes is set. Whatever the other buttons do, no round fails, and one of these rounds calls the
    -- callback with the bit of the button set.
    pub long_push-Delivered :
        (spat : ParamAboutTime) (m n cs rel last : ℕ) (monitor : Monitor)
        → 0 < spat.release_time_threshold
        → 0 < spat.release_all_time_threshold
        → 0 < m
        → m < 65535
        → 0 < n
        → n < 65535
        → spat.click_time_threshold ≤ m * loop_time
        → spat.long_push_time_threshold ≤ n * loop_time
        → i < button_number
        → Ready loop_time button_number config hops some_hop i low few monitor
        → get_elem? monitor.spe i ≡ some (at_rest cs rel last spat)
        → Delivered (suc (m + n + 1)) monitor
    long_push-Delivered spat m n cs rel last monitor release release_all mpos mfits npos nfits
          clicks enough lt r at =
        delivers (suc (m + n + 1)) (at_rest cs rel last spat) monitor lt r at (
          long_push-Reported loop_time button_number config hops i some_hop spat release release_all
            m n cs rel last mpos mfits npos nfits clicks enough)
