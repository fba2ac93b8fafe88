-- ===== src/TimeManager/Places.antt =====
-- The searches in the array of TimeManagerExtern.c, and the number of its places that are taken.
use native.Mathlib.Decide.{ℕ_discrete}
use eclipse_code.Prelude.{
  ℕ, zero, suc, ◌+◌, ◌≤◌, ◌<◌, ◌≡◌, ◌≢◌, ◌⊎◌, inl, inr, refl, false, Option, none, some, List, ◌==◌,
  if◌then◌else◌, length, get_or, set, get_or-set, arith,
}
use eclipse_code.TimeManager.{is_null, in_list, free_place}

-- the number of places taken among `n` from `i` on
unfoldable pub used : ℕ → ℕ → List (Option ℕ) → ℕ
used zero i buf = 0
used (suc n) i buf = (if is_null (get_or buf i none) then 0 else 1) + used n (i + 1) buf

abbrev weight : Option ℕ → ℕ
weight o = if is_null o then 0 else 1

pub used-set_before :
    (n i j : ℕ) (v : Option ℕ) (buf : List (Option ℕ))
    → j < i
    → j < length buf
    → used n i (set buf j v) ≡ used n i buf
unfolding used
used-set_before zero i j v buf lt inside = refl
used-set_before (suc n) i j v buf lt inside =
    ground
      (arith, get_or-set buf j i v none, used-set_before n (i + 1) j v buf (omega arith) inside)

pub used-set :
    (n i j : ℕ) (v : Option ℕ) (buf : List (Option ℕ))
    → i ≤ j
    → j < i + n
    → j < length buf
    → used n i (set buf j v) + weight (get_or buf j none) ≡ used n i buf + weight v
unfolding used
used-set zero i j v buf le lt inside = absurd (omega arith)
used-set (suc n) i j v buf le lt inside = elim (ℕ_discrete i j) [
  | yes e ↦
      ground
        (arith, get_or-set buf j i v none, used-set_before n (i + 1) j v buf (omega arith) inside)
  | no ne ↦ ground (
    arith,
    get_or-set buf j i v none,
    used-set n (i + 1) j v buf (omega arith) (omega arith) inside,
  )
]

pub used-le : (n i : ℕ) (buf : List (Option ℕ)) → used n i buf ≤ n
unfolding used
used-le zero i buf = omega arith
used-le (suc n) i buf = ground (arith, used-le n (i + 1) buf)

-- the search for a free place
abbrev pub Free : ℕ → ℕ → List (Option ℕ) → Option ℕ → Type 0
Free n i buf (some j) = (i ≤ j) × (j < i + n) × (get_or buf j none ≡ none)
Free n i buf none = used n i buf ≡ n

pub Option-cases : (o : Option ℕ) → (o ≡ none) ⊎ ((q : ℕ) × (o ≡ some q))
Option-cases none = inl refl
Option-cases (some q) = inr (q, refl)

Free-later :
    (n i : ℕ) (buf : List (Option ℕ)) (q : ℕ)
    → get_or buf i none ≡ some q
    → (o : Option ℕ) → Free n (i + 1) buf o
    → Free (suc n) i buf o
unfolding used
Free-later n i buf q e (some j) (a, b, c) = (omega arith, omega arith, c)
Free-later n i buf q e none f = ground arith

pub free_place-Free : (n i : ℕ) (buf : List (Option ℕ)) → Free n i buf (free_place n i buf)
unfolding free_place used
free_place-Free zero i buf = refl
free_place-Free (suc n) i buf = elim (Option-cases (get_or buf i none)) [
  | inl e ↦ rw e (omega arith, omega arith, e)
  | inr (q, e) ↦
      rw e (Free-later n i buf q e (free_place n (i + 1) buf) (free_place-Free n (i + 1) buf))
]

-- the search for a counter
pub in_list_lem :
    (p n i j : ℕ) (buf : List (Option ℕ))
    → in_list p n i buf ≡ false
    → i ≤ j
    → j < i + n
    → get_or buf j none ≢ some p
unfolding in_list
in_list_lem p zero i j buf e le lt = absurd (omega arith)
in_list_lem p (suc n) i j buf e le lt = elim (ℕ_discrete i j) [
  | yes s ↦ λ h. ground arith
  | no ne ↦ in_list_lem p n (i + 1) j buf (ground arith) (omega arith) (omega arith)
]

pub in_list-none :
    (p n i : ℕ) (buf : List (Option ℕ))
    → ((j : ℕ) → get_or buf j none ≢ some p)
    → in_list p n i buf ≡ false
unfolding in_list
in_list-none p zero i buf out = refl
in_list-none p (suc n) i buf out = elim (Option-cases (get_or buf i none)) [
  | inl e ↦ rw e (in_list-none p n (i + 1) buf out)
  | inr (q, e) ↦
      let other : (q == p) ≡ false = ground (arith, out i) in
      rw (e, other) (in_list-none p n (i + 1) buf out)
]
