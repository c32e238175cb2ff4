-- ===== src/Sorting/Merge/Places.antt =====
-- The places of an array that is given as several lists.
use mathlib.Core.List.{append_assoc}
use sdp_labs.Common.{
  ℕ, zero, suc, ◌+◌, ◌<◌, ◌≡◌, ap, refl, some, List, [], ◌∷◌, ◌++◌, arith, length, get_elem?, set,
  length-append,
}
use sdp_labs.Common.Int.{ℤ}
use sdp_labs.Sorting.Bubble.Region.{at}
use sdp_labs.Sorting.Merge.{store}

-- The place behind a prefix.
pub get_elem?-here : (p q : List ℤ) (x : ℤ) → get_elem? (p ++ x ∷ q) (length p) ≡ some x
get_elem?-here [] q x = refl
get_elem?-here (y ∷ p) q x = get_elem?-here p q x

pub set-here : (p q : List ℤ) (x y : ℤ) → set (p ++ x ∷ q) (length p) y ≡ p ++ y ∷ q
set-here [] q x y = refl
set-here (z ∷ p) q x y = ap (λ l. z ∷ l) (set-here p q x y)

pub set-behind : (p : List ℤ) (y : ℤ) → set (p ++ []) (length p) y ≡ p
set-behind [] y = refl
set-behind (z ∷ p) y = ap (λ l. z ∷ l) (set-behind p y)

pub snoc : (p q : List ℤ) (x : ℤ) → (p ++ x ∷ []) ++ q ≡ p ++ x ∷ q
snoc p q x = append_assoc p (x ∷ []) q

pub length-snoc : (p : List ℤ) (x : ℤ) → length (p ++ x ∷ []) ≡ length p + 1
length-snoc p x = length-append p (x ∷ [])

pub store-here : (p q : List ℤ) (x y : ℤ) → store (p ++ x ∷ q) (length p) y ≡ some (p ++ y ∷ q)
unfolding store
store-here p q x y = ground (arith, length-append p (x ∷ q), set-here p q x y)

-- The places of an array in two parts.
pub at-append_right : (p q : List ℤ) (k : ℕ) → at (p ++ q) (length p + k) ≡ at q k
at-append_right [] q k = ap (at q) (omega arith)
at-append_right (x ∷ p) q k = ground (arith, at-append_right p q k)

pub at-append_left : (p q : List ℤ) (k : ℕ) → k < length p → at (p ++ q) k ≡ at p k
at-append_left [] q k h = absurd (omega arith)
at-append_left (x ∷ p) q zero h = refl
at-append_left (x ∷ p) q (suc k) h = at-append_left p q k (omega arith)
