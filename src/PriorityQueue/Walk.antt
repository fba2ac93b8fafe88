-- ===== src/PriorityQueue/Walk.antt =====
-- The loops of m_priority_queues.c along a chain of nodes: which node each stops at, and the chain
-- that the link written there makes.
use eclipse_code.Prelude.{
  ℕ, zero, suc, ◌≤◌, ◌≡◌, refl, sym, ◌∙◌, subst, true, false, some, none, List, [], ◌∷◌, ◌++◌,
  length, ◌==◌, Bool-cases, inl, inr, arith, ==_refl,
}
use mathlib.Core.Bool.{true≢false}
use eclipse_code.PriorityQueue.Nodes.{Space, mem, distinct, without, Chain, Chain-frame, mem-ne}
use eclipse_code.PriorityQueue.Chains.{tail_loop, pull_loop, again, tail}

-- `a` is the node of the list with the priority.
unfoldable pub IsOnly : Space → ℕ → ℕ → List ℕ → Type 0
IsOnly s priority a xs =
    (mem a xs ≡ true)
    × ((s a).priority ≡ priority)
    × ((b : ℕ) → mem b xs ≡ true → (s b).priority ≡ priority → b ≡ a)

-- No node of the list has the priority.
unfoldable pub Lacks : Space → ℕ → List ℕ → Type 0
Lacks s priority xs = (b : ℕ) → mem b xs ≡ true → ((s b).priority == priority) ≡ false

-- The links of `t` are those of `s`, but for the node `left`, which points behind `a`, and for `a`.
unfoldable pub IsRelinked : Space → Space → ℕ → ℕ → List ℕ → Type 0
IsRelinked s t left a xs =
    ((t left).next_ptr ≡ (s a).next_ptr)
    × ((b : ℕ)
        → mem b xs ≡ true
        → (b == left) ≡ false
        → (b == a) ≡ false
        → (t b).next_ptr ≡ (s b).next_ptr)

module _ (s : Space) (priority : ℕ) where
  pub only_other :
      (a x : ℕ)
      → (s a).priority ≡ priority
      → ((s x).priority == priority) ≡ false
      → (a == x) ≡ false
  only_other a x at ne = elim (Bool-cases (a == x)) [
    | inl e ↦
        let same : a ≡ x = ground arith in
        let both : (s x).priority ≡ priority = subst (λ z. (s z).priority ≡ priority) same at in
        ground arith
    | inr e ↦ e
  ]

  -- the first node is the one sought, or a later one is
  pub IsOnly-rest :
      (a x : ℕ) (xs : List ℕ)
      → IsOnly s priority a (x ∷ xs)
      → ((s x).priority == priority) ≡ false
      → IsOnly s priority a xs
  unfolding IsOnly mem
  IsOnly-rest a x xs (m, at, only) ne =
      let other : (a == x) ≡ false = only_other a x at ne in
      let later : mem a xs ≡ true = ground arith in
      let rest : (b : ℕ) → mem b xs ≡ true → (s b).priority ≡ priority → b ≡ a =
        λ b n e. only b (ground arith) e in
      (later, at, rest)

  pub IsOnly-first :
      (a x : ℕ) (xs : List ℕ)
      → IsOnly s priority a (x ∷ xs)
      → ((s x).priority == priority) ≡ true
      → x ≡ a
  unfolding IsOnly mem
  IsOnly-first a x xs (m, at, only) e = only x (ground arith) (ground arith)

  -- The loop of `NodeTailAdd` stops at the node that has the priority.
  pub tail_loop-again :
      (n a x : ℕ) (xs : List ℕ)
      → Chain s ((s x).next_ptr) xs
      → length xs ≤ n
      → IsOnly s priority a (x ∷ xs)
      → tail_loop (suc n) s priority x ≡ again a
  unfolding tail_loop Chain IsOnly mem
  tail_loop-again n a x [] c l (m, at, only) =
      let here : a ≡ x = ground arith in
      let found : ((s x).priority == priority) ≡ true = rw (← here) (rw at (==_refl priority)) in
      rw (found, here) refl
  tail_loop-again zero a x (y ∷ ys) c l o = absurd (omega arith)
  tail_loop-again (suc n) a x (y ∷ ys) (next, c) l o =
      elim (Bool-cases ((s x).priority == priority)) [
        | inl e ↦ rw (e, IsOnly-first a x (y ∷ ys) o e) refl
        | inr ne ↦
            rw (ne, next) (tail_loop-again n a y ys c (omega arith) (IsOnly-rest a x (y ∷ ys) o ne))
      ]

  -- Where no node has the priority, it stops at the last one, and a node linked there extends the
  -- chain.
  pub tail_loop-tail :
      (n x : ℕ) (xs : List ℕ)
      → Chain s ((s x).next_ptr) xs
      → length xs ≤ n
      → Lacks s priority (x ∷ xs)
      → distinct (x ∷ xs) ≡ true
      → (last : ℕ) × (tail_loop (suc n) s priority x ≡ tail last)
        × (mem last (x ∷ xs) ≡ true)
        × ((t : Space) (new : ℕ)
            → (t last).next_ptr ≡ some new
            → (t new).next_ptr ≡ none
            → ((b : ℕ)
                → mem b (x ∷ xs) ≡ true
                → (b == last) ≡ false
                → (t b).next_ptr ≡ (s b).next_ptr)
            → Chain t ((t x).next_ptr) (xs ++ (new ∷ [])))
  unfolding tail_loop Chain mem Lacks distinct
  tail_loop-tail n x [] c l lacks d = (
    x,
    rw (lacks x (ground (arith, ==_refl x)), c) refl,
    ground (arith, ==_refl x),
    λ t new link end same. (link, end),
  )
  tail_loop-tail zero x (y ∷ ys) c l lacks d = absurd (omega arith)
  tail_loop-tail (suc n) x (y ∷ ys) (next, c) l lacks d =
      let (last, stop, m, chain) =
        tail_loop-tail n y ys c (omega arith) (λ b m. lacks b (ground arith)) (ground arith) in
      let other : (last == x) ≡ false = mem-ne x last (y ∷ ys) (ground arith) m in
      let other' : (x == last) ≡ false = ground arith in
      let before : mem last (x ∷ y ∷ ys) ≡ true = ground arith in
      let stops : tail_loop (suc (suc n)) s priority x ≡ tail last =
        rw (lacks x (ground (arith, ==_refl x)), next) stop in
      (
        last,
        stops,
        before,
        λ t new link end same. (
          same x (ground (arith, ==_refl x)) other' ∙ next,
          chain t new link end (λ b n e. same b (ground arith) e),
        ),
      )

  -- What the loop of `NodePullAway` finds behind a node `l` on the left of `c`: the node `a` with its
  -- left, and linking the left to what follows takes `a` off the chain.
  unfoldable pub IsPulled : ℕ → ℕ → ℕ → ℕ → List ℕ → Type 0
  IsPulled n a l c xs =
      (left : ℕ) × (pull_loop (suc n) s priority c (some l) ≡ some (a, some left))
      × (mem left (l ∷ c ∷ xs) ≡ true)
      × ((left == a) ≡ false)
      × ((t : Space)
          → IsRelinked s t left a (l ∷ c ∷ xs)
          → Chain t ((t l).next_ptr) (without a (c ∷ xs)))

  IsPulled-here :
      (n l c : ℕ) (xs : List ℕ)
      → Chain s ((s c).next_ptr) xs
      → distinct (l ∷ c ∷ xs) ≡ true
      → ((s c).priority == priority) ≡ true
      → IsPulled n c l c xs
  unfolding IsPulled pull_loop IsRelinked distinct mem without
  IsPulled-here n l c xs chain d e =
      let apart : (l == c) ≡ false = ground arith in
      (
        l,
        rw e refl,
        ground (arith, ==_refl l),
        apart,
        λ t (link, same).
            let still : (b : ℕ) → mem b xs ≡ true → (t b).next_ptr ≡ (s b).next_ptr = λ b m.
              same b (ground arith) (mem-ne l b xs (ground arith) m)
                (mem-ne c b xs (ground arith) m) in
            rw (link, ==_refl c) (Chain-frame s t ((s c).next_ptr) xs still chain),
      )

  IsPulled-later :
      (n a l c y : ℕ) (ys : List ℕ)
      → (s l).next_ptr ≡ some c
      → (s c).next_ptr ≡ some y
      → distinct (l ∷ c ∷ y ∷ ys) ≡ true
      → mem a (y ∷ ys) ≡ true
      → ((s c).priority == priority) ≡ false
      → IsPulled n a c y ys
      → IsPulled (suc n) a l c (y ∷ ys)
  unfolding IsPulled pull_loop IsRelinked distinct mem without Chain
  IsPulled-later n a l c y ys to_c to_y d m ne (left, stop, m', apart, chain) =
      let a_l : (a == l) ≡ false = mem-ne l a (y ∷ ys) (ground arith) m in
      let a_c : (a == c) ≡ false = mem-ne c a (y ∷ ys) (ground arith) m in
      let left_l : (left == l) ≡ false = mem-ne l left (c ∷ y ∷ ys) (ground arith) m' in
      let stops : pull_loop (suc (suc n)) s priority c (some l) ≡ some (a, some left) =
        rw (ne, to_y) stop in
      let before : mem left (l ∷ c ∷ y ∷ ys) ≡ true = ground arith in
      let l_left : (l == left) ≡ false = ground arith in
      let l_a : (l == a) ≡ false = ground arith in
      (
        left,
        stops,
        before,
        apart,
        λ t (link, same).
            let to_c' : (t l).next_ptr ≡ some c =
              same l (ground (arith, ==_refl l)) l_left l_a ∙ to_c in
            rw a_c (to_c', chain t (link, λ b n e f. same b (ground arith) e f)),
      )

  pub pull_loop-IsPulled :
      (n a l c : ℕ) (xs : List ℕ)
      → (s l).next_ptr ≡ some c
      → Chain s ((s c).next_ptr) xs
      → length xs ≤ n
      → distinct (l ∷ c ∷ xs) ≡ true
      → IsOnly s priority a (c ∷ xs)
      → IsPulled n a l c xs
  unfolding Chain distinct IsOnly mem
  pull_loop-IsPulled n a l c [] next chain long d only =
      elim (Bool-cases ((s c).priority == priority)) [
        | inl e ↦ rw (← IsOnly-first a c [] only e) (IsPulled-here n l c [] chain d e)
        | inr ne ↦
            let rest : IsOnly s priority a [] = IsOnly-rest a c [] only ne in
            absurd (true≢false (sym (rest.0)))
      ]
  pull_loop-IsPulled zero a l c (y ∷ ys) next chain long d only = absurd (omega arith)
  pull_loop-IsPulled (suc n) a l c (y ∷ ys) next (to_y, chain) long d only =
      elim (Bool-cases ((s c).priority == priority)) [
        | inl e ↦
            rw (← IsOnly-first a c (y ∷ ys) only e)
              (IsPulled-here (suc n) l c (y ∷ ys) (to_y, chain) d e)
        | inr ne ↦
            let rest = IsOnly-rest a c (y ∷ ys) only ne in
            IsPulled-later n a l c y ys next to_y d (rest.0) ne
              (pull_loop-IsPulled n a c y ys to_y chain (omega arith) (ground arith) rest)
      ]
