-- ===== src/Common/Count.antt =====
-- How many members of a list pass a test, when one member changes or all do.
use sdp_labs.Common.{
  ℕ, zero, suc, ◌+◌, ◌≤◌, ◌<◌, inl, inr, Bool-cases, ◌≡◌, refl, ap₂, Bool, true, false, some, List,
  [], ◌∷◌, ◌++◌, map, arith, get_elem?, set, replicate, length, if◌then◌else◌,
}

-- 1 for a test that passes.
abbrev pub one_if : Bool → ℕ
one_if b = if b then 1 else 0

module _ {ℓ} {A : Type ℓ} where
  unfoldable pub count : (A → Bool) → List A → ℕ
  count f [] = 0
  count f (x ∷ xs) = one_if (f x) + count f xs

  -- A predicate on every member.
  abbrev pub All {κ} : (A → Type κ) → List A → Type κ
  All P [] = Unit
  All P (x ∷ xs) = P x × All P xs

  pub count-nil : (f : A → Bool) → count f [] ≡ 0
  unfolding count
  count-nil f = refl

  pub count-cons :
      (f : A → Bool) (x : A) (xs : List A) → count f (x ∷ xs) ≡ one_if (f x) + count f xs
  unfolding count
  count-cons f x xs = refl

  pub count-append : (f : A → Bool) (l r : List A) → count f (l ++ r) ≡ count f l + count f r
  unfolding count
  count-append f [] r = omega arith
  count-append f (x ∷ l) r = omega (arith, count-append f l r)

  -- Overwriting `p` by `q` at index `i` moves one member of the count.
  pub count-set :
      (f : A → Bool) (l : List A) (i : ℕ) (p q : A)
      → get_elem? l i ≡ some p
      → count f (set l i q) + one_if (f p) ≡ count f l + one_if (f q)
  unfolding count
  count-set f [] i p q h = ground arith
  count-set f (x ∷ xs) zero p q h = ground arith
  count-set f (x ∷ xs) (suc i) p q h = omega (arith, count-set f xs i p q h)

  -- A change of every member that the test does not see.
  pub count-map :
      (f : A → Bool) (g : A → A) (l : List A)
      → ((x : A) → f (g x) ≡ f x)
      → count f (map g l) ≡ count f l
  unfolding count
  count-map f g [] h = refl
  count-map f g (x ∷ xs) h = ap₂ (λ b n. one_if b + n) (h x) (count-map f g xs h)

  pub count-eq-zero :
      (P : A → Type 0) (f : A → Bool) (l : List A)
      → All P l
      → ((x : A) → P x → f x ≡ false)
      → count f l ≡ 0
  unfolding count
  count-eq-zero P f [] a h = refl
  count-eq-zero P f (x ∷ xs) a h = ground (arith, h x a.0, count-eq-zero P f xs a.1 h)

  pub count-le :
      (f g : A → Bool) (l : List A) → ((x : A) → f x ≡ true → g x ≡ true) → count f l ≤ count g l
  unfolding count
  count-le f g [] h = omega arith
  count-le f g (x ∷ xs) h = ground (arith, h x, count-le f g xs h)

  pub All-get :
      (P : A → Type 0) (l : List A) (i : ℕ) {x : A} → All P l → get_elem? l i ≡ some x → P x
  All-get P [] i a h = absurd (ground arith)
  All-get P (y ∷ ys) zero a h = ground arith
  All-get P (y ∷ ys) (suc i) a h = All-get P ys i a.1 h

  pub All-set : (P : A → Type 0) (l : List A) (i : ℕ) {x : A} → All P l → P x → All P (set l i x)
  All-set P [] i a h = tt
  All-set P (y ∷ ys) zero a h = (h, a.1)
  All-set P (y ∷ ys) (suc i) a h = (a.0, All-set P ys i a.1 h)

  pub All-append : (P : A → Type 0) (l r : List A) → All P l → All P r → All P (l ++ r)
  All-append P [] r h g = g
  All-append P (x ∷ l) r h g = (h.0, All-append P l r h.1 g)

  pub All-parts : (P : A → Type 0) (l r : List A) → All P (l ++ r) → All P l × All P r
  All-parts P [] r h = (tt, h)
  All-parts P (x ∷ l) r h = let two = All-parts P l r h.1 in ((h.0, two.0), two.1)

  pub count-replicate :
      (f : A → Bool) (n : ℕ) (a : A) → count f (replicate n a) ≡ (if f a then n else 0)
  unfolding count
  count-replicate f zero a = ground arith
  count-replicate f (suc n) a = ground (arith, count-replicate f n a)

  pub All-map :
      (P Q : A → Type 0) (g : A → A) (l : List A)
      → ((x : A) → P x → Q (g x))
      → All P l
      → All Q (map g l)
  All-map P Q g [] h a = tt
  All-map P Q g (x ∷ xs) h a = (h x a.0, All-map P Q g xs h a.1)

  -- A change of every member that only makes the test fail more often.
  pub count-map-le :
      (f : A → Bool) (g : A → A) (l : List A)
      → ((x : A) → f (g x) ≡ true → f x ≡ true)
      → count f (map g l) ≤ count f l
  unfolding count
  count-map-le f g [] h = omega arith
  count-map-le f g (x ∷ xs) h = ground (arith, h x, count-map-le f g xs h)

  pub count-map-zero :
      (P : A → Type 0) (f : A → Bool) (g : A → A) (l : List A)
      → ((x : A) → P x → f (g x) ≡ false)
      → All P l
      → count f (map g l) ≡ 0
  unfolding count
  count-map-zero P f g [] h a = refl
  count-map-zero P f g (x ∷ xs) h a = ground (arith, h x a.0, count-map-zero P f g xs h a.1)

  -- Where fewer pass the second test than the first, some member passes the first alone.
  pub count-lt :
      (f g : A → Bool) (l : List A)
      → count g l < count f l
      → (i : ℕ) × (x : A) × (get_elem? l i ≡ some x) × (f x ≡ true) × (g x ≡ false)
  unfolding count
  count-lt f g [] h = absurd (omega arith)
  count-lt f g (x ∷ xs) h = elim (Bool-cases (f x)) [
    | inl ft ↦ elim (Bool-cases (g x)) [
      | inl gt ↦ let (i, y, e, a, b) = count-lt f g xs (ground arith) in (suc i, y, e, a, b)
      | inr gf ↦ (0, x, refl, ft, gf)
    ]
    | inr ff ↦ let (i, y, e, a, b) = count-lt f g xs (ground arith) in (suc i, y, e, a, b)
  ]

  -- A member that passes is counted.
  pub count-pos :
      (f : A → Bool) (l : List A) (i : ℕ) {x : A}
      → get_elem? l i ≡ some x
      → f x ≡ true
      → 0 < count f l
  unfolding count
  count-pos f [] i h t = absurd (ground arith)
  count-pos f (y ∷ ys) zero h t = ground arith
  count-pos f (y ∷ ys) (suc i) h t = omega (arith, count-pos f ys i h t)

  pub count_le_length : (f : A → Bool) (l : List A) → count f l ≤ length l
  unfolding count
  count_le_length f [] = omega arith
  count_le_length f (x ∷ xs) = ground (arith, count_le_length f xs)

  -- What is counted is found.
  pub count-found :
      (f : A → Bool) (l : List A)
      → 0 < count f l
      → (i : ℕ) × (x : A) × (get_elem? l i ≡ some x) × (f x ≡ true)
  unfolding count
  count-found f [] h = absurd (omega arith)
  count-found f (x ∷ xs) h = elim (Bool-cases (f x)) [
    | inl t ↦ (0, x, refl, t)
    | inr t ↦ let (i, y, e, q) = count-found f xs (ground arith) in (suc i, y, e, q)
  ]
