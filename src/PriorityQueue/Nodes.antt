-- ===== src/PriorityQueue/Nodes.antt =====
-- The nodes of m_priority_queues.c as lists of node numbers: what a chain is, and how many nodes
-- are in use.
use eclipse_code.Prelude.{
  ℕ, zero, suc, ◌+◌, ◌≤◌, ◌<◌, ◌≡◌, refl, sym, ◌∙◌, Bool, true, false, ◌&&◌, ◌||◌, not, Option,
  some, none, List, [], ◌∷◌, ◌++◌, length, ◌==◌, if◌then◌else◌, update, Bool-cases, inl, inr, arith,
}
use mathlib.Core.Bool.{true≢false}
use eclipse_code.PriorityQueue.{NodeWithPriority}

abbrev pub Space : Type 0
Space = ℕ → NodeWithPriority

unfoldable pub mem : ℕ → List ℕ → Bool
mem a [] = false
mem a (x ∷ xs) = (a == x) || mem a xs

unfoldable pub distinct : List ℕ → Bool
distinct [] = true
distinct (x ∷ xs) = not (mem x xs) && distinct xs

unfoldable pub without : ℕ → List ℕ → List ℕ
without a [] = []
without a (x ∷ xs) = let rest = without a xs in if a == x then xs else x ∷ rest

-- The nodes from a pointer on, along `NextPtr`, to the null pointer.
unfoldable pub Chain : Space → Option ℕ → List ℕ → Type 0
Chain s head [] = head ≡ none
Chain s head (a ∷ xs) = (head ≡ some a) × Chain s ((s a).next_ptr) xs

-- how many of the nodes before `n` are taken
unfoldable pub busy_count : ℕ → Space → ℕ
busy_count zero s = 0
busy_count (suc n) s = busy_count n s + (if (s n).is_free then 0 else 1)

-- A chain stands while the links of its nodes do.
pub Chain-frame :
    (s t : Space) (head : Option ℕ) (xs : List ℕ)
    → ((a : ℕ) → mem a xs ≡ true → (t a).next_ptr ≡ (s a).next_ptr)
    → Chain s head xs
    → Chain t head xs
unfolding Chain mem
Chain-frame s t head [] same c = c
Chain-frame s t head (a ∷ xs) same (at, c) = (
  at,
  rw (same a (ground arith)) (Chain-frame s t ((s a).next_ptr) xs (λ b m. same b (ground arith)) c),
)

pub mem-ne : (x a : ℕ) (xs : List ℕ) → mem x xs ≡ false → mem a xs ≡ true → (a == x) ≡ false
mem-ne x a xs out inside = elim (Bool-cases (a == x)) [
  | inl e ↦ let at : x ≡ a = ground arith in absurd (true≢false (sym inside ∙ rw (← at) out))
  | inr ne ↦ ne
]

pub mem-without :
    (a b : ℕ) (xs : List ℕ) → distinct xs ≡ true → mem b (without a xs) ≡ (mem b xs && not (a == b))
unfolding mem without distinct
mem-without a b [] d = refl
mem-without a b (x ∷ xs) d = ground (arith, mem-without a b xs)

pub distinct-without : (a : ℕ) (xs : List ℕ) → distinct xs ≡ true → distinct (without a xs) ≡ true
unfolding distinct without
distinct-without a [] d = refl
distinct-without a (x ∷ xs) d = ground (arith, distinct-without a xs, mem-without a x xs)

pub mem-snoc : (a b : ℕ) (xs : List ℕ) → mem b (xs ++ (a ∷ [])) ≡ (mem b xs || (b == a))
unfolding mem
mem-snoc a b [] = ground arith
mem-snoc a b (x ∷ xs) = ground (arith, mem-snoc a b xs)

pub distinct-snoc :
    (a : ℕ) (xs : List ℕ) → distinct xs ≡ true → mem a xs ≡ false → distinct (xs ++ (a ∷ [])) ≡ true
unfolding distinct mem
distinct-snoc a [] d m = refl
distinct-snoc a (x ∷ xs) d m = ground (arith, distinct-snoc a xs, mem-snoc a x xs)

pub busy_count-frame :
    (n : ℕ) (s t : Space)
    → ((a : ℕ) → a < n → (t a).is_free ≡ (s a).is_free)
    → busy_count n t ≡ busy_count n s
unfolding busy_count
busy_count-frame zero s t same = refl
busy_count-frame (suc n) s t same =
    rw (same n (omega arith), busy_count-frame n s t (λ a l. same a (omega arith))) refl

-- Taking a free node counts it.
pub busy_count-take :
    (n a : ℕ) (s t : Space)
    → a < n
    → (s a).is_free ≡ true
    → (t a).is_free ≡ false
    → ((b : ℕ) → (b == a) ≡ false → (t b).is_free ≡ (s b).is_free)
    → busy_count n t ≡ busy_count n s + 1
unfolding busy_count
busy_count-take zero a s t l free taken same = absurd (omega arith)
busy_count-take (suc n) a s t l free taken same = elim (Bool-cases (n == a)) [
  | inl e ↦
      let at : n ≡ a = ground arith in
      rw (busy_count-frame n s t (λ b h. same b (ground arith))) (ground arith)
  | inr ne ↦ rw (same n ne, busy_count-take n a s t (ground arith) free taken same) (omega arith)
]

-- A list of different nodes before `n`, all of them taken, is no longer than their count.
pub length-busy_count :
    (xs : List ℕ) (n : ℕ) (s : Space)
    → distinct xs ≡ true
    → ((a : ℕ) → mem a xs ≡ true → a < n)
    → ((a : ℕ) → mem a xs ≡ true → (s a).is_free ≡ false)
    → length xs ≤ busy_count n s
unfolding distinct mem
length-busy_count [] n s d l b = omega arith
length-busy_count (x ∷ xs) n s d l b =
    let t : Space = update s x (record (s x) { is_free = true }) in
    let fewer : length xs ≤ busy_count n t =
      length-busy_count xs n t (ground arith) (λ a m. l a (ground arith))
        (λ a m.
          let other : (a == x) ≡ false = mem-ne x a xs (ground arith) m in
          let busy : (s a).is_free ≡ false = b a (ground arith) in rw other busy) in
    let one : busy_count n s ≡ busy_count n t + 1 =
      busy_count-take n x t s (l x (ground arith)) (ground arith) (b x (ground arith))
        (λ a ne. ground arith) in
    omega (arith, fewer, one)

pub busy_count-bound : (n : ℕ) (s : Space) → busy_count n s ≤ n
unfolding busy_count
busy_count-bound zero s = omega arith
busy_count-bound (suc n) s = ground (arith, busy_count-bound n s)

-- a taken node is counted
pub busy_count-some : (n a : ℕ) (s : Space) → a < n → (s a).is_free ≡ false → 0 < busy_count n s
unfolding busy_count
busy_count-some zero a s l b = absurd (omega arith)
busy_count-some (suc n) a s l b = elim (Bool-cases (n == a)) [
  | inl e ↦ let at : n ≡ a = ground arith in rw (at, b) (omega arith)
  | inr ne ↦ omega (arith, busy_count-some n a s (ground arith) b)
]
