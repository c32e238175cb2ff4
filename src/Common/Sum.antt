-- ===== src/Common/Sum.antt =====
-- Sums over a list, when one member changes.
use sdp_labs.Common.{
  ℕ, zero, suc, ◌+◌, ◌*◌, ◌≤◌, ◌<◌, ◌≡◌, refl, some, List, [], ◌∷◌, arith, get_elem?, set, length,
  replicate, dec_lt,
}

module _ {A : Type 0} where
  unfoldable pub sum : (A → ℕ) → List A → ℕ
  sum f [] = 0
  sum f (x ∷ xs) = f x + sum f xs

  pub sum-set :
      (f : A → ℕ) (l : List A) (i : ℕ) (p q : A)
      → get_elem? l i ≡ some p
      → sum f (set l i q) + f p ≡ sum f l + f q
  unfolding sum
  sum-set f [] i p q h = ground arith
  sum-set f (x ∷ xs) zero p q h = ground arith
  sum-set f (x ∷ xs) (suc i) p q h = omega (arith, sum-set f xs i p q h)

  pub le-sum : (f : A → ℕ) (l : List A) (i : ℕ) {p : A} → get_elem? l i ≡ some p → f p ≤ sum f l
  unfolding sum
  le-sum f [] i h = absurd (ground arith)
  le-sum f (x ∷ xs) zero h = ground arith
  le-sum f (x ∷ xs) (suc i) h = omega (arith, le-sum f xs i h)

  pub sum-le : (f : A → ℕ) (b : ℕ) (l : List A) → ((x : A) → f x ≤ b) → sum f l ≤ b * length l
  unfolding sum
  sum-le f b [] h = omega arith
  sum-le f b (x ∷ xs) h = omega (arith, h x, sum-le f b xs h)

  -- A member for which the term is 0.
  pub sum-le-spare :
      (f : A → ℕ) (b : ℕ) (l : List A) (i : ℕ) {p : A}
      → ((x : A) → f x ≤ b)
      → get_elem? l i ≡ some p
      → f p ≡ 0
      → sum f l + b ≤ b * length l
  unfolding sum
  sum-le-spare f b [] i h e z = absurd (ground arith)
  sum-le-spare f b (x ∷ xs) zero h e z = ground (arith, sum-le f b xs h)
  sum-le-spare f b (x ∷ xs) (suc i) h e z = omega (arith, h x, sum-le-spare f b xs i h e z)

  -- A sum that is not 0 has a term that is not.
  pub sum-pos :
      (f : A → ℕ) (l : List A)
      → 0 < sum f l
      → (i : ℕ) × (x : A) × (get_elem? l i ≡ some x) × (0 < f x)
  unfolding sum
  sum-pos f [] h = absurd (omega arith)
  sum-pos f (x ∷ xs) h = elim (dec_lt 0 (f x)) [
    | yes p ↦ (0, x, refl, p)
    | no p ↦ let (i, y, e, q) = sum-pos f xs (omega arith) in (suc i, y, e, q)
  ]

  pub sum-replicate : (f : A → ℕ) (n : ℕ) (a : A) → f a ≡ 0 → sum f (replicate n a) ≡ 0
  unfolding sum
  sum-replicate f zero a h = refl
  sum-replicate f (suc n) a h = omega (arith, h, sum-replicate f n a h)

  pub sum_le_sum : (f g : A → ℕ) (l : List A) → ((x : A) → f x ≤ g x) → sum f l ≤ sum g l
  unfolding sum
  sum_le_sum f g [] h = omega arith
  sum_le_sum f g (x ∷ xs) h = omega (arith, h x, sum_le_sum f g xs h)

  -- With one term smaller by `n`.
  pub sum-gap :
      (f g : A → ℕ) (n : ℕ) (l : List A) (i : ℕ) {p : A}
      → ((x : A) → f x ≤ g x)
      → get_elem? l i ≡ some p
      → f p + n ≤ g p
      → sum f l + n ≤ sum g l
  unfolding sum
  sum-gap f g n [] i h e d = absurd (ground arith)
  sum-gap f g n (x ∷ xs) zero h e d = ground (arith, sum_le_sum f g xs h)
  sum-gap f g n (x ∷ xs) (suc i) h e d = omega (arith, h x, sum-gap f g n xs i h e d)

  pub sum-double : (f : A → ℕ) (l : List A) → sum (λ x. 2 * f x) l ≡ 2 * sum f l
  unfolding sum
  sum-double f [] = omega arith
  sum-double f (x ∷ xs) = omega (arith, sum-double f xs)

  pub sum-le-sum :
      (f g : A → ℕ) (b : ℕ) (l : List A)
      → ((x : A) → f x ≤ g x + b)
      → sum f l ≤ sum g l + b * length l
  unfolding sum
  sum-le-sum f g b [] h = omega arith
  sum-le-sum f g b (x ∷ xs) h = omega (arith, h x, sum-le-sum f g b xs h)
