-- ===== src/ListNode/Cells.antt =====
-- Sequences of cells: what a chain of nodes of m_list_node.c stands for, as pairs of a node's
-- number and its information.
use eclipse_code.Prelude.{
  ℕ, zero, suc, ◌+◌, ◌≤◌, ◌<◌, ◌≡◌, refl, ap, Bool, true, false, List, [], ◌∷◌, ◌++◌, ltb, ◌==◌,
  ◌||◌, if◌then◌else◌, length, arith,
}

abbrev pub Cells : Type 0
Cells = List (ℕ × ℕ)

abbrev pub has : ℕ → Cells → Bool
has a [] = false
has a ((b, v) ∷ xs) = (a == b) || has a xs

-- the number of the node at place `k`
abbrev pub address : Cells → ℕ → ℕ
address [] k = 0
address ((a, v) ∷ xs) zero = a
address ((a, v) ∷ xs) (suc k) = address xs k

abbrev pub values : Cells → List ℕ
values [] = []
values ((a, v) ∷ xs) = v ∷ values xs

module _ {ℓ} {A : Type ℓ} where
  -- at place `k`, or at the end if the list is shorter
  abbrev pub insert_at : ℕ → A → List A → List A
  insert_at zero x xs = x ∷ xs
  insert_at (suc k) x [] = x ∷ []
  insert_at (suc k) x (y ∷ xs) = y ∷ insert_at k x xs

  abbrev pub remove_at : ℕ → List A → List A
  remove_at k [] = []
  remove_at zero (y ∷ xs) = xs
  remove_at (suc k) (y ∷ xs) = y ∷ remove_at k xs

  pub length-insert_at : (k : ℕ) (x : A) (xs : List A) → length (insert_at k x xs) ≡ suc (length xs)
  length-insert_at zero x xs = refl
  length-insert_at (suc k) x [] = refl
  length-insert_at (suc k) x (y ∷ xs) = ap suc (length-insert_at k x xs)

  pub length-remove_at :
      (k : ℕ) (xs : List A) → k < length xs → suc (length (remove_at k xs)) ≡ length xs
  length-remove_at k [] h = absurd (omega arith)
  length-remove_at zero (y ∷ xs) h = refl
  length-remove_at (suc k) (y ∷ xs) h = ap suc (length-remove_at k xs (omega arith))

  pub insert_at_end : (xs : List A) (x : A) → insert_at (length xs) x xs ≡ xs ++ (x ∷ [])
  insert_at_end [] x = refl
  insert_at_end (y ∷ xs) x = ap (λ l. y ∷ l) (insert_at_end xs x)

pub length-values : (xs : Cells) → length (values xs) ≡ length xs
length-values [] = refl
length-values (x ∷ xs) = ap suc (length-values xs)

pub values-insert_at :
    (k a v : ℕ) (xs : Cells) → values (insert_at k (a, v) xs) ≡ insert_at k v (values xs)
values-insert_at zero a v xs = refl
values-insert_at (suc k) a v [] = refl
values-insert_at (suc k) a v (y ∷ xs) = ap (λ l. y.1 ∷ l) (values-insert_at k a v xs)

pub values-remove_at : (k : ℕ) (xs : Cells) → values (remove_at k xs) ≡ remove_at k (values xs)
values-remove_at k [] = refl
values-remove_at zero (y ∷ xs) = refl
values-remove_at (suc k) (y ∷ xs) = ap (λ l. y.1 ∷ l) (values-remove_at k xs)

-- no node number twice
abbrev pub Distinct : Cells → Type 0
Distinct [] = Unit {0}
Distinct ((a, v) ∷ xs) = (has a xs ≡ false) × Distinct xs

pub has-insert_at :
    (b k a v : ℕ) (xs : Cells) → has b (insert_at k (a, v) xs) ≡ ((b == a) || has b xs)
has-insert_at b zero a v xs = refl
has-insert_at b (suc k) a v [] = refl
has-insert_at b (suc k) a v (y ∷ xs) = ground (arith, has-insert_at b k a v xs)

pub has-address : (k : ℕ) (xs : Cells) → k < length xs → has (address xs k) xs ≡ true
has-address k [] h = absurd (omega arith)
has-address zero ((a, v) ∷ xs) h = ground arith
has-address (suc k) ((a, v) ∷ xs) h = ground (arith, has-address k xs)

pub has-remove_at :
    (b k : ℕ) (xs : Cells)
    → Distinct xs
    → k < length xs
    → has b (remove_at k xs) ≡ (if b == address xs k then false else has b xs)
has-remove_at b k [] d h = absurd (omega arith)
has-remove_at b zero ((a, v) ∷ xs) d h = ground arith
has-remove_at b (suc k) ((a, v) ∷ xs) d h =
    ground (arith, has-remove_at b k xs d.1, has-address k xs)

pub Distinct-insert_at :
    (k a v : ℕ) (xs : Cells) → has a xs ≡ false → Distinct xs → Distinct (insert_at k (a, v) xs)
Distinct-insert_at zero a v xs h d = (h, d)
Distinct-insert_at (suc k) a v [] h d = (refl, tt)
Distinct-insert_at (suc k) a v ((b, w) ∷ xs) h d =
    (ground (arith, has-insert_at b k a v xs), Distinct-insert_at k a v xs (ground arith) d.1)

pub not-has-remove_at : (b k : ℕ) (xs : Cells) → has b xs ≡ false → has b (remove_at k xs) ≡ false
not-has-remove_at b k [] h = refl
not-has-remove_at b zero ((a, v) ∷ xs) h = ground arith
not-has-remove_at b (suc k) ((a, v) ∷ xs) h = ground (arith, not-has-remove_at b k xs)

pub Distinct-remove_at : (k : ℕ) (xs : Cells) → Distinct xs → Distinct (remove_at k xs)
Distinct-remove_at k [] d = tt
Distinct-remove_at zero ((b, w) ∷ xs) d = d.1
Distinct-remove_at (suc k) ((b, w) ∷ xs) d =
    (not-has-remove_at b k xs d.0, Distinct-remove_at k xs d.1)

-- the nodes below `n` that a sequence holds
count_below : ℕ → Cells → ℕ
count_below zero xs = 0
count_below (suc n) xs = count_below n xs + (if has n xs then 1 else 0)

count_below-nil : (n : ℕ) → count_below n [] ≡ 0
unfolding count_below
count_below-nil zero = refl
count_below-nil (suc n) = omega (arith, count_below-nil n)

count_below-cons :
    (n a v : ℕ) (xs : Cells)
    → count_below n ((a, v) ∷ xs) ≤ count_below n xs + (if ltb a n then 1 else 0)
unfolding count_below
count_below-cons zero a v xs = ground arith
count_below-cons (suc n) a v xs = ground (arith, count_below-cons n a v xs)

count_below-le : (n : ℕ) (xs : Cells) → count_below n xs ≤ length xs
count_below-le n [] = omega (arith, count_below-nil n)
count_below-le n ((a, v) ∷ xs) = ground (arith, count_below-cons n a v xs, count_below-le n xs)

count_below_all : (n : ℕ) (xs : Cells) → ((i : ℕ) → i < n → has i xs ≡ true) → count_below n xs ≡ n
unfolding count_below
count_below_all zero xs h = refl
count_below_all (suc n) xs h =
    ground (arith, h n (omega arith), count_below_all n xs (λ i k. h i (omega arith)))

-- A sequence that holds each of the nodes below `n` has at least `n` cells.
pub all_held : (n : ℕ) (xs : Cells) → ((i : ℕ) → i < n → has i xs ≡ true) → n ≤ length xs
all_held n xs h = omega (arith, count_below_all n xs h, count_below-le n xs)

-- different places hold different nodes
pub address-ne :
    (j k : ℕ) (xs : Cells)
    → Distinct xs
    → j < k
    → k < length xs
    → (address xs j == address xs k) ≡ false
address-ne j k [] d h i = absurd (omega arith)
address-ne j zero (x ∷ xs) d h i = absurd (omega arith)
address-ne zero (suc k) ((a, v) ∷ xs) d h i = ground (arith, has-address k xs)
address-ne (suc j) (suc k) ((a, v) ∷ xs) d h i = address-ne j k xs d.1 (omega arith) (omega arith)
