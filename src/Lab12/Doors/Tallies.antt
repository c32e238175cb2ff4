-- ===== src/Lab12/Doors/Tallies.antt =====
-- How many consumers are at each place.
use sdp_labs.Common.{
  ℕ, Bool-cases, inl, inr, ◌+◌, ◌<◌, ◌≡◌, refl, ◌==◌, Bool, true, some, List, [], ◌∷◌, get_elem?,
  set, arith, length, length-set,
}
use sdp_labs.Common.Count.{count, count-set, count-pos, count_le_length, one_if, All}
use sdp_labs.Lab12.Doors.{Phase}

-- A number for each place.
abbrev pub kind : Phase → ℕ
kind Phase.outside = 0
kind Phase.entered = 1
kind Phase.first_reset = 2
kind Phase.first_close = 3
kind Phase.second_open = 4
kind Phase.checking = 5
kind Phase.passed = 6
kind Phase.second_reset = 7
kind Phase.second_close = 8
kind Phase.producer_open = 9
kind Phase.left = 10
kind Phase.working = 11
kind Phase.at_second = 12

one_place :
    (p : Phase)
    → one_if (kind p == 0)
        + one_if (kind p == 1)
        + one_if (kind p == 2)
        + one_if (kind p == 3)
        + one_if (kind p == 4)
        + one_if (kind p == 5)
        + one_if (kind p == 6)
        + one_if (kind p == 7)
        + one_if (kind p == 8)
        + one_if (kind p == 9)
        + one_if (kind p == 10)
        + one_if (kind p == 11)
        + one_if (kind p == 12)
      ≡ 1
one_place Phase.outside = refl
one_place _ = refl

here : (n : ℕ) → (n == n) ≡ true
here n = ground arith

module _ {S : Type 0} where
  abbrev pub is_at : ℕ → Phase × S → Bool
  is_at k c = kind c.0 == k

  unfoldable pub tally : ℕ → List (Phase × S) → ℕ
  tally k l = count (is_at k) l

  -- A consumer that moves from `p` to `q`.
  tally-set :
      (l : List (Phase × S)) (i : ℕ) (p q : Phase) (x y : S) (k : ℕ)
      → get_elem? l i ≡ some (p, x)
      → tally k (set l i (q, y)) + one_if (kind p == k) ≡ tally k l + one_if (kind q == k)
  unfolding tally
  tally-set l i p q x y k h = count-set (is_at k) l i (p, x) (q, y) h

  tally-pos :
      (l : List (Phase × S)) (i : ℕ) (p : Phase) (x : S)
      → get_elem? l i ≡ some (p, x)
      → 0 < tally (kind p) l
  unfolding tally
  tally-pos l i p x h = count-pos (is_at (kind p)) l i h (here (kind p))

  pub tally-total :
      (l : List (Phase × S))
      → tally 0 l
          + tally 1 l
          + tally 2 l
          + tally 3 l
          + tally 4 l
          + tally 5 l
          + tally 6 l
          + tally 7 l
          + tally 8 l
          + tally 9 l
          + tally 10 l
          + tally 11 l
          + tally 12 l
        ≡ length l
  unfolding tally count
  tally-total [] = refl
  tally-total (c ∷ l) = omega (arith, one_place c.0, tally-total l)

  -- Where all are counted at one place, each is there.
  pub tally-all : (l : List (Phase × S)) (k : ℕ) → tally k l ≡ length l → All (λ c. kind c.0 ≡ k) l
  unfolding tally count
  tally-all [] k h = tt
  tally-all (c ∷ l) k h = elim (Bool-cases (is_at k c)) [
    | inl t ↦ (ground (arith, t), tally-all l k (ground (arith, t)))
    | inr f ↦ absurd (ground (arith, f, count_le_length (is_at k) l))
  ]

  abbrev Shift1 : ℕ → Phase → Phase → List (Phase × S) → List (Phase × S) → Type 0
  Shift1 k p q l l' = tally k l' + one_if (kind p == k) ≡ tally k l + one_if (kind q == k)

  -- All the numbers, when one consumer moves from `p` to `q`.
  abbrev pub Shift : Phase → Phase → List (Phase × S) → List (Phase × S) → Type 0
  Shift p q l l' =
      Shift1 0 p q l l'
      × Shift1 1 p q l l'
      × Shift1 2 p q l l'
      × Shift1 3 p q l l'
      × Shift1 4 p q l l'
      × Shift1 5 p q l l'
      × Shift1 6 p q l l'
      × Shift1 7 p q l l'
      × Shift1 8 p q l l'
      × Shift1 9 p q l l'
      × Shift1 10 p q l l'
      × Shift1 11 p q l l'
      × Shift1 12 p q l l'
      × (0 < tally (kind p) l)
      × (length l' ≡ length l)

  pub shift :
      (l : List (Phase × S)) (i : ℕ) (p q : Phase) (x y : S)
      → get_elem? l i ≡ some (p, x)
      → Shift p q l (set l i (q, y))
  shift l i p q x y h =
      let at = λ (k : ℕ). tally-set l i p q x y k h in
      (
        at 0,
        at 1,
        at 2,
        at 3,
        at 4,
        at 5,
        at 6,
        at 7,
        at 8,
        at 9,
        at 10,
        at 11,
        at 12,
        tally-pos l i p x h,
        length-set l i (q, y),
      )

  pub All-weaken :
      (P Q : Phase × S → Type 0) (l : List (Phase × S))
      → ((c : Phase × S) → P c → Q c)
      → All P l
      → All Q l
  All-weaken P Q [] h a = tt
  All-weaken P Q (c ∷ l) h a = (h c a.0, All-weaken P Q l h a.1)

-- A place with one phase.
pub kind_outside : (p : Phase) → kind p ≡ 0 → p ≡ Phase.outside
kind_outside Phase.outside e = refl
kind_outside _ e = absurd (omega arith)

pub kind_left : (p : Phase) → kind p ≡ 10 → p ≡ Phase.left
kind_left Phase.left e = refl
kind_left _ e = absurd (omega arith)
