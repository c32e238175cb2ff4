-- ===== src/Sorting/Barriers/Places.antt =====
-- How many threads of lab4.2.c are at each place, and how many posts they have to go.
use sdp_labs.Common.{
  ℕ, zero, suc, Bool-cases, inl, inr, ◌+◌, ◌<◌, ◌≡◌, refl, ◌==◌, true, false, some, List, [], ◌∷◌,
  get_elem?, set, arith, length, length-set, replicate, if◌then◌else◌,
}
use sdp_labs.Common.Count.{count, count-set, count-pos, count-replicate, one_if}
use sdp_labs.Common.Sum.{sum, sum-set}
use sdp_labs.Sorting.Barriers.{Phase, sem_wait}

-- A number for each place.
abbrev pub kind : Phase → ℕ
kind Phase.sorting = 0
kind Phase.decreasing = 1
kind Phase.checking = 2
kind (Phase.first_posts n) = 3
kind Phase.at_first = 4
kind Phase.increasing = 5
kind (Phase.second_posts n) = 6
kind Phase.at_second = 7
kind Phase.testing = 8
kind Phase.ended = 9

abbrev pub posts1 : Phase → ℕ
posts1 (Phase.first_posts n) = n
posts1 _ = 0

abbrev pub posts2 : Phase → ℕ
posts2 (Phase.second_posts n) = n
posts2 _ = 0

unfoldable pub tally : ℕ → List Phase → ℕ
tally k l = count (λ q. kind q == k) l

-- All of some places together.
abbrev pub tallies : List ℕ → List Phase → ℕ
tallies [] l = 0
tallies (k ∷ ks) l = tally k l + tallies ks l

abbrev all_places : List ℕ
all_places = 0 ∷ 1 ∷ 2 ∷ 3 ∷ 4 ∷ 5 ∷ 6 ∷ 7 ∷ 8 ∷ 9 ∷ []

abbrev one_of : List ℕ → Phase → ℕ
one_of [] q = 0
one_of (k ∷ ks) q = one_if (kind q == k) + one_of ks q

one_place : (q : Phase) → one_of all_places q ≡ 1
one_place Phase.sorting = refl
one_place _ = refl

here : (n : ℕ) → (n == n) ≡ true
here n = ground arith

pub tally-total : (l : List Phase) → tallies all_places l ≡ length l
unfolding tally count
tally-total [] = refl
tally-total (q ∷ l) = omega (arith, one_place q, tally-total l)

-- The numbers when one thread moves from `q` to `r`.
abbrev Shifts : List ℕ → Phase → Phase → List Phase → List Phase → Type 0
Shifts [] q r l l' = Unit
Shifts (k ∷ ks) q r l l' =
    (tally k l' + one_if (kind q == k) ≡ tally k l + one_if (kind r == k)) × Shifts ks q r l l'

abbrev pub Shift : Phase → Phase → List Phase → List Phase → Type 0
Shift q r l l' =
    Shifts all_places q r l l'
    × (sum posts1 l' + posts1 q ≡ sum posts1 l + posts1 r)
    × (sum posts2 l' + posts2 q ≡ sum posts2 l + posts2 r)
    × (0 < tally (kind q) l)
    × (length l' ≡ length l)

shifts :
    (ks : List ℕ) (l : List Phase) (i : ℕ) (q r : Phase)
    → get_elem? l i ≡ some q
    → Shifts ks q r l (set l i r)
unfolding tally
shifts [] l i q r h = tt
shifts (k ∷ ks) l i q r h = (count-set (λ x. kind x == k) l i q r h, shifts ks l i q r h)

pub tally-pos : (l : List Phase) (i : ℕ) (q : Phase) → get_elem? l i ≡ some q → 0 < tally (kind q) l
unfolding tally
tally-pos l i q h = count-pos (λ x. kind x == kind q) l i h (here (kind q))

pub shift :
    (l : List Phase) (i : ℕ) (q r : Phase) → get_elem? l i ≡ some q → Shift q r l (set l i r)
shift l i q r h = (
  shifts all_places l i q r h,
  sum-set posts1 l i q r h,
  sum-set posts2 l i q r h,
  tally-pos l i q h,
  length-set l i r,
)

-- Who is not in a loop of posts has none to go.
none_to_post1 : (q : Phase) → (kind q == 3) ≡ false → posts1 q ≡ 0
none_to_post1 (Phase.first_posts n) h = absurd (ground arith)
none_to_post1 _ h = refl

none_to_post2 : (q : Phase) → (kind q == 6) ≡ false → posts2 q ≡ 0
none_to_post2 (Phase.second_posts n) h = absurd (ground arith)
none_to_post2 _ h = refl

pub sum-posts1 : (l : List Phase) → tally 3 l ≡ 0 → sum posts1 l ≡ 0
unfolding tally count sum
sum-posts1 [] h = refl
sum-posts1 (q ∷ l) h = elim (Bool-cases (kind q == 3)) [
  | inl t ↦ absurd (ground (arith, t))
  | inr f ↦ omega (arith, none_to_post1 q f, sum-posts1 l (ground (arith, f)))
]

pub sum-posts2 : (l : List Phase) → tally 6 l ≡ 0 → sum posts2 l ≡ 0
unfolding tally count sum
sum-posts2 [] h = refl
sum-posts2 (q ∷ l) h = elim (Bool-cases (kind q == 6)) [
  | inl t ↦ absurd (ground (arith, t))
  | inr f ↦ omega (arith, none_to_post2 q f, sum-posts2 l (ground (arith, f)))
]

pub tally-replicate : (k n : ℕ) → tally k (replicate n Phase.sorting) ≡ (if 0 == k then n else 0)
unfolding tally
tally-replicate k n = count-replicate (λ q. kind q == k) n Phase.sorting

pub sem_wait-suc : (a k : ℕ) → sem_wait a ≡ some k → a ≡ suc k
sem_wait-suc zero k e = absurd (ground arith)
sem_wait-suc (suc a) k e = ground arith
