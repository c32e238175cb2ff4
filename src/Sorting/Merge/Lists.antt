-- ===== src/Sorting/Merge/Lists.antt =====
-- Merging lists: what the loops on the array are shown to do.
use mathlib.Core.Path.{subst}
use sdp_labs.Common.{
  sym, ℕ, zero, suc, ◌+◌, ◌≤◌, ◌<◌, ◌≡◌, inl, inr, Bool, true, false, List, [], ◌∷◌, arith, length,
  Bool-cases,
}
use sdp_labs.Common.Count.{count, All}
use sdp_labs.Common.Int.{ℤ, ◌≤ℤ◌, leb_ℤ}
use sdp_labs.Sorting.Bubble.Region.{at}

unfoldable pub merge_lists : List ℤ → List ℤ → List ℤ
merge_lists [] r = r
merge_lists (x ∷ l) [] = x ∷ l
merge_lists (x ∷ l) (y ∷ r) = elim (leb_ℤ x y) [
  | true ↦ x ∷ merge_lists l (y ∷ r)
  | false ↦ y ∷ merge_lists (x ∷ l) r
]

abbrev pub IsSorted : List ℤ → Type 0
IsSorted [] = Unit
IsSorted (x ∷ l) = All (λ y. x ≤ℤ y) l × IsSorted l

pub length-merge_lists : (l r : List ℤ) → length (merge_lists l r) ≡ length l + length r
unfolding merge_lists
length-merge_lists [] r = omega arith
length-merge_lists (x ∷ l) [] = omega arith
length-merge_lists (x ∷ l) (y ∷ r) =
    ground (arith, length-merge_lists l (y ∷ r), length-merge_lists (x ∷ l) r)

pub count-merge_lists :
    (f : ℤ → Bool) (l r : List ℤ) → count f (merge_lists l r) ≡ count f l + count f r
unfolding merge_lists count
count-merge_lists f [] r = omega arith
count-merge_lists f (x ∷ l) [] = omega arith
count-merge_lists f (x ∷ l) (y ∷ r) =
    ground (arith, count-merge_lists f l (y ∷ r), count-merge_lists f (x ∷ l) r)

pub All-merge_lists : (P : ℤ → Type 0) (l r : List ℤ) → All P l → All P r → All P (merge_lists l r)
unfolding merge_lists
All-merge_lists P [] r h g = g
All-merge_lists P (x ∷ l) [] h g = h
All-merge_lists P (x ∷ l) (y ∷ r) h g =
    ground (arith, All-merge_lists P l (y ∷ r) h.1 g, All-merge_lists P (x ∷ l) r h g.1)

-- And what holds of all merged elements holds of both lists.
pub All-merge_lists_back :
    (P : ℤ → Type 0) (l r : List ℤ) → All P (merge_lists l r) → All P l × All P r
unfolding merge_lists
All-merge_lists_back P [] r h = (tt, h)
All-merge_lists_back P (x ∷ l) [] h = (h, tt)
All-merge_lists_back P (x ∷ l) (y ∷ r) h =
    ground (arith, h, All-merge_lists_back P l (y ∷ r), All-merge_lists_back P (x ∷ l) r)

All-le : (x y : ℤ) (l : List ℤ) → x ≤ℤ y → All (λ z. y ≤ℤ z) l → All (λ z. x ≤ℤ z) l
All-le x y [] h a = tt
All-le x y (z ∷ l) h a = (omega (arith, h, a.0), All-le x y l h a.1)

pub merge_lists-le :
    (x y : ℤ) (l r : List ℤ)
    → leb_ℤ x y ≡ true
    → merge_lists (x ∷ l) (y ∷ r) ≡ x ∷ merge_lists l (y ∷ r)
unfolding merge_lists
merge_lists-le x y l r h = ground (arith, h)

pub merge_lists-gt :
    (x y : ℤ) (l r : List ℤ)
    → leb_ℤ x y ≡ false
    → merge_lists (x ∷ l) (y ∷ r) ≡ y ∷ merge_lists (x ∷ l) r
unfolding merge_lists
merge_lists-gt x y l r h = ground (arith, h)

pub merge_lists-IsSorted : (l r : List ℤ) → IsSorted l → IsSorted r → IsSorted (merge_lists l r)
unfolding merge_lists
merge_lists-IsSorted [] r h g = g
merge_lists-IsSorted (x ∷ l) [] h g = h
merge_lists-IsSorted (x ∷ l) (y ∷ r) h g = elim (Bool-cases (leb_ℤ x y)) [
  | inl le ↦ subst IsSorted (sym (merge_lists-le x y l r le)) (
    All-merge_lists (λ z. x ≤ℤ z) l (y ∷ r) h.0
        (ground (arith, le), All-le x y r (ground (arith, le)) g.0),
    merge_lists-IsSorted l (y ∷ r) h.1 g,
  )
  | inr gt ↦ subst IsSorted (sym (merge_lists-gt x y l r gt)) (
    All-merge_lists (λ z. y ≤ℤ z) (x ∷ l) r
        (ground (arith, gt), All-le y x l (ground (arith, gt)) h.0) g.0,
    merge_lists-IsSorted (x ∷ l) r h g.1,
  )
]

-- The same, by places.
pub All-at : (P : ℤ → Type 0) (l : List ℤ) → ((i : ℕ) → i < length l → P (at l i)) → All P l
All-at P [] h = tt
All-at P (x ∷ l) h = (h 0 (omega arith), All-at P l (λ i p. h (suc i) (omega arith)))

pub at-All : (P : ℤ → Type 0) (l : List ℤ) (i : ℕ) → All P l → i < length l → P (at l i)
at-All P [] i a h = absurd (omega arith)
at-All P (x ∷ l) zero a h = a.0
at-All P (x ∷ l) (suc i) a h = at-All P l i a.1 (omega arith)

pub IsSorted-at : (l : List ℤ) → ((i j : ℕ) → i ≤ j → j < length l → at l i ≤ℤ at l j) → IsSorted l
IsSorted-at [] h = tt
IsSorted-at (x ∷ l) h = (
  All-at (λ y. x ≤ℤ y) l (λ i p. h 0 (suc i) (omega arith) (omega arith)),
  IsSorted-at l (λ i j p q. h (suc i) (suc j) (omega arith) (omega arith)),
)

pub at-IsSorted : (l : List ℤ) (i j : ℕ) → IsSorted l → i ≤ j → j < length l → at l i ≤ℤ at l j
at-IsSorted [] i j s h p = absurd (omega arith)
at-IsSorted (x ∷ l) zero zero s h p = omega arith
at-IsSorted (x ∷ l) zero (suc j) s h p = at-All (λ y. x ≤ℤ y) l j s.0 (omega arith)
at-IsSorted (x ∷ l) (suc i) zero s h p = absurd (omega arith)
at-IsSorted (x ∷ l) (suc i) (suc j) s h p = at-IsSorted l i j s.1 (omega arith) (omega arith)
