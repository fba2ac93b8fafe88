-- ===== src/ButtonModule/Told.antt =====
-- `ButtonFlagReport` of ButtonModule.c calls the callback of long pushes with the bits that are set.
use mathlib.Core.Bool.{true≢false}
use eclipse_code.Prelude.{
  ℕ, ◌≡◌, refl, sym, ap, ◌∙◌, Bool, true, false, ◌||◌, List, [], ◌∷◌, ◌++◌, ◌==◌, arith, Bool-cases,
  inl, inr, test_bit, test_bit-zero,
}
use eclipse_code.ButtonModule.Monitor.{
  Report, click, double_click, long_push, long_push_release, Callbacks, Monitor, report_if,
  button_flag_report,
}

-- whether a report tells of a long push of the button `i`
abbrev pub tells : ℕ → Report → Bool
tells i (long_push w) = test_bit w i
tells i (click w) = false
tells i (double_click w) = false
tells i (long_push_release w last) = false

abbrev pub any_tells : ℕ → List Report → Bool
any_tells i [] = false
any_tells i (r ∷ rs) = tells i r || any_tells i rs

any_tells-append :
    (i : ℕ) (xs ys : List Report) → any_tells i ys ≡ true → any_tells i (xs ++ ys) ≡ true
any_tells-append i [] ys e = e
any_tells-append i (x ∷ xs) ys e = ground (arith, any_tells-append i xs ys e)

any_tells-first :
    (i : ℕ) (xs ys : List Report) → any_tells i xs ≡ true → any_tells i (xs ++ ys) ≡ true
any_tells-first i [] ys e = absurd (true≢false (sym e))
any_tells-first i (x ∷ xs) ys e = elim (Bool-cases (tells i x)) [
  | inl t ↦ rw t refl
  | inr t ↦ ground (arith, any_tells-first i xs ys)
]

-- the bit of a long push is told, where its callback is set
told : (i w : ℕ) → test_bit w i ≡ true → any_tells i (report_if true w (long_push w)) ≡ true
told i w on = elim (Bool-cases (w == 0)) [
  | inl z ↦
      let nothing : w ≡ 0 = ground arith in
      absurd (true≢false (sym on ∙ ap (λ n. test_bit n i) nothing ∙ test_bit-zero i))
  | inr z ↦ rw (z, on) refl
]

-- `ButtonFlagReport` adds a report of the long push
pub report-tells :
    (c : Callbacks) (m : Monitor) (i : ℕ)
    → c.has_long_push ≡ true
    → test_bit m.sbsf.is_longpush i ≡ true
    → (added : List Report) × ((button_flag_report c m).reports ≡ m.reports ++ added)
      × (any_tells i added ≡ true)
unfolding button_flag_report
report-tells c m i has on = (
  _,
  refl,
  any_tells-append i (report_if c.has_click m.sbsf.is_click (click m.sbsf.is_click)) _ (
      any_tells-append i
        (report_if c.has_double_click m.sbsf.is_double_click (double_click m.sbsf.is_double_click))
        _
        (any_tells-first i
          (report_if c.has_long_push m.sbsf.is_longpush (long_push m.sbsf.is_longpush)) _
          (rw has (told i m.sbsf.is_longpush on)))),
)
