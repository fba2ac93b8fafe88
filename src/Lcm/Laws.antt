-- ===== src/Lcm/Laws.antt =====
-- `GetLcmBetweenTwoNumber` and `GetLCM` of lcm_gcd.c find the least common multiple.
use Prim.Native.Nat.{◌∣◌}
use native.Mathlib.Nat
use native.Mathlib.Decide.{dec_lt}
use eclipse_code.Prelude.{
  ℕ, zero, suc, ◌+◌, ◌-◌, ◌%◌, ◌≤◌, ◌<◌, ◌≡◌, inl, inr, refl, Bool, true, false, ◌&&◌, ◌||◌, Option,
  some, none, List, [], ◌∷◌, ◌==◌, if◌then◌else◌, Bool-cases, arith,
}
use eclipse_code.Lcm.{lcm_loop, lcm_end, lcm_between, get_lcm_loop, get_lcm}

-- `t` is a multiple of every number of the list
abbrev pub Multiple : List ℕ → ℕ → Type 0
Multiple [] t = Unit {0}
Multiple (x ∷ xs) t = (x ∣ t) × Multiple xs t

abbrev pub Positive : List ℕ → Type 0
Positive [] = Unit {0}
Positive (x ∷ xs) = (0 < x) × Positive xs

-- `t` is the least of the numbers from 1 on with `Common`, and divides all the others
abbrev pub IsLeast : (ℕ → Type 0) → ℕ → Type 0
IsLeast Common t = (0 < t) × Common t × ((s : ℕ) → Common s → t ∣ s)

-- What a search below the limit comes to: the least number from 1 on with `Common`, or 0 where none
-- stands below the limit.
unfoldable pub Found : (ℕ → Type 0) → ℕ → Bool × ℕ → Type 0
Found Common limit (true, t) = IsLeast Common t × (t < limit)
Found Common limit (false, t) = (t ≡ 0) × ((s : ℕ) → 0 < s → Common s → limit ≤ s)

abbrev Both : ℕ → ℕ → ℕ → Type 0
Both m n s = (m ∣ s) × (n ∣ s)

divides : (m n t : ℕ) → (t % m == 0 && t % n == 0) ≡ true → (m ∣ t) × (n ∣ t)
divides m n t h = (Nat.dvd_of_mod-eq-zero m (ground arith), Nat.dvd_of_mod-eq-zero n (ground arith))

divides_not : (m n t : ℕ) → (t % m == 0 && t % n == 0) ≡ false → m ∣ t → n ∣ t → ⊥
divides_not m n t h p q = ground (arith, Nat.mod-eq-zero_of_dvd m p, Nat.mod-eq-zero_of_dvd n q)

-- what the loop hands back: the first common multiple from `temp` on
abbrev First : ℕ → ℕ → ℕ → ℕ → Option ℕ → Type 0
First r temp m n (some t) =
    (temp ≤ t) × (t < temp + r) × (m ∣ t) × (n ∣ t) × ((s : ℕ) → temp ≤ s → m ∣ s → n ∣ s → t ≤ s)
First r temp m n none = (s : ℕ) → temp ≤ s → m ∣ s → n ∣ s → temp + r ≤ s

skip :
    (m n r temp : ℕ)
    → (m ∣ temp → n ∣ temp → ⊥)
    → (o : Option ℕ) → First r (temp + 1) m n o
    → First (suc r) temp m n o
skip m n r temp h none f = λ s le p q. elim (dec_lt temp s) [
  | yes lt ↦ omega (arith, f s (omega arith) p q)
  | no ge ↦ let e : s ≡ temp = omega arith in absurd (h (rw (← e) p) (rw (← e) q))
]
skip m n r temp h (some t) (a, b, c, d, f) = (
  omega arith,
  omega arith,
  c,
  d,
  λ s le p q. elim (dec_lt temp s) [
    | yes lt ↦ f s (omega arith) p q
    | no ge ↦ let e : s ≡ temp = omega arith in absurd (h (rw (← e) p) (rw (← e) q))
  ],
)

lcm_loop-First : (r temp m n : ℕ) → First r temp m n (lcm_loop r temp m n)
unfolding lcm_loop
lcm_loop-First zero temp m n = λ s le p q. omega arith
lcm_loop-First (suc r) temp m n = elim (Bool-cases (temp % m == 0 && temp % n == 0)) [
  | inl e ↦
      rw e
        (omega arith, omega arith, (divides m n temp e).0, (divides m n temp e).1, λ s le p q. le)
  | inr e ↦ rw e (
      skip m n r temp (divides_not m n temp e) (lcm_loop r (temp + 1) m n)
        (lcm_loop-First r (temp + 1) m n))
]

-- the first common multiple divides the others: the remainder would come before it
first-dvd :
    (m n t : ℕ)
    → 0 < t
    → m ∣ t
    → n ∣ t
    → ((s : ℕ) → 0 < s → m ∣ s → n ∣ s → t ≤ s)
    → (s : ℕ) → m ∣ s
    → n ∣ s
    → t ∣ s
first-dvd m n t pos p q least s ms ns = elim (dec_lt 0 (s % t)) [
  | yes lt ↦ absurd (
      omega (
        arith,
        Nat.mod-lt s {m = t} pos,
        least (s % t) lt ((Nat.dvd-mod_iff m p).1 ms) ((Nat.dvd-mod_iff n q).1 ns),
      ))
  | no ge ↦ Nat.dvd_of_mod-eq-zero t (omega arith)
]

end-Found :
    (m n limit : ℕ)
    → 0 < m
    → (o : Option ℕ) → First (limit - m) m m n o
    → Found (Both m n) limit (lcm_end o)
unfolding lcm_end Found
end-Found m n limit pos none f =
    (refl, λ s sp h. let above : m ≤ s = Nat.le_of_dvd sp h.0 in omega (arith, f s above h.0 h.1))
end-Found m n limit pos (some t) (a, b, c, d, f) = (
  (
    omega arith,
    (c, d),
    λ s h.
        first-dvd m n t (omega arith) c d (λ u up mu nu. f u (Nat.le_of_dvd up mu) mu nu) s h.0 h.1,
  ),
  omega arith,
)

-- For two numbers from 1 on the search finds their least common multiple, or none is below the limit.
pub lcm_between-Found :
    (m n limit old : ℕ) → 0 < m → 0 < n → Found (Both m n) limit (lcm_between m n limit old)
unfolding lcm_between
lcm_between-Found m n limit old mp np =
    let go : (m == 0 || n == 0) ≡ false = ground arith in
    rw go (end-Found m n limit mp (lcm_loop (limit - m) m m n) (lcm_loop-First (limit - m) m m n))

Found-map :
    (C D : ℕ → Type 0) (limit : ℕ) (r : Bool × ℕ)
    → ((s : ℕ) → C s → D s)
    → ((s : ℕ) → D s → C s)
    → Found C limit r
    → Found D limit r
unfolding Found
Found-map C D limit (true, t) f g ((pos, c, least), lt) = ((pos, f t c, λ s d. least s (g s d)), lt)
Found-map C D limit (false, t) f g (z, absent) = (z, λ s sp d. absent s sp (g s d))

-- one more number `b` beside those that `pre` stands for
module _ (C : ℕ → Type 0) (up : (s t : ℕ) → s ∣ t → C s → C t) (pre b limit : ℕ) where
  Found-more :
      (r : Bool × ℕ)
      → IsLeast C pre
      → Found (Both pre b) limit r
      → Found (λ s. C s × (b ∣ s)) limit r
  unfolding Found
  Found-more (false, t) (pos, c, least) (z, absent) = (z, λ s sp h. absent s sp (least s h.0, h.1))
  Found-more (true, t) (pos, c, least) ((tp, h, l), lt) =
      ((tp, (up pre t h.0 c, h.1), λ s k. l s (least s k.0, k.1)), lt)

  after :
      (bs : List ℕ) (r : Bool × ℕ)
      → ((t : ℕ)
          → IsLeast (λ s. C s × (b ∣ s)) t
          → t < limit
          → Found (λ s. (C s × (b ∣ s)) × Multiple bs s) limit (get_lcm_loop bs limit true t t))
      → Found (λ s. C s × (b ∣ s)) limit r
      → Found
          (λ s. C s × Multiple (b ∷ bs) s)
          limit
          (if r.0 then get_lcm_loop bs limit r.0 r.1 r.1 else (false, r.1))
  unfolding Found
  after bs (true, t) rest (l, lt) =
      Found-map (λ s. (C s × (b ∣ s)) × Multiple bs s) (λ s. C s × Multiple (b ∷ bs) s) limit
        (get_lcm_loop bs limit true t t) (λ s h. (h.0.0, (h.0.1, h.1)))
        (λ s h. ((h.0, h.1.0), h.1.1)) (rest t l lt)
  after bs (false, t) rest (z, absent) = (z, λ s sp h. absent s sp (h.0, h.1.0))

up_more :
    (C : ℕ → Type 0) (b : ℕ)
    → ((s t : ℕ) → s ∣ t → C s → C t)
    → (s t : ℕ) → s ∣ t
    → C s × (b ∣ s)
    → C t × (b ∣ t)
up_more C b up s t d (c, e) = (up s t d c, Nat.dvd_trans b e d)

-- The loop of `GetLCM`, where `C` says what `pre` is the least common multiple of.
loop-Found :
    (bs : List ℕ) (C : ℕ → Type 0) (limit pre cur : ℕ) (ok : Bool)
    → ((s t : ℕ) → s ∣ t → C s → C t)
    → Positive bs
    → IsLeast C pre
    → (bs ≡ [] → Found C limit (ok, cur))
    → Found (λ s. C s × Multiple bs s) limit (get_lcm_loop bs limit ok pre cur)
unfolding get_lcm_loop
loop-Found [] C limit pre cur ok up pos l found =
    Found-map C (λ s. C s × Unit {0}) limit (ok, cur) (λ s c. (c, tt)) (λ s h. h.0) (found refl)
loop-Found (b ∷ bs) C limit pre cur ok up (bp, pos) l found =
    after C up pre b limit bs (lcm_between pre b limit cur)
      (λ t k lt.
        loop-Found bs (λ s. C s × (b ∣ s)) limit t t true (up_more C b up) pos k
          (λ e. unfold Found in (k, lt)))
      (Found-more C up pre b limit (lcm_between pre b limit cur) l
        (lcm_between-Found pre b limit cur l.0 bp))

-- For two numbers or more, from 1 on, GetLCM hands back their least common multiple if it is below
-- the limit, which divides every other common multiple, and else it fails with 0, whatever the
-- stack held.
pub get_lcm-Found :
    (ok : Bool) (cur x y : ℕ) (rest : List ℕ) (limit : ℕ)
    → Positive (x ∷ y ∷ rest)
    → Found (Multiple (x ∷ y ∷ rest)) limit (get_lcm ok cur (x ∷ y ∷ rest) limit)
unfolding get_lcm
get_lcm-Found ok cur x y rest limit (xp, pos) =
    loop-Found (y ∷ rest) (λ s. x ∣ s) limit x cur ok (λ s t d e. Nat.dvd_trans x e d) pos
      (xp, Nat.dvd_refl x, λ s h. h) (λ e. absurd (cc))
