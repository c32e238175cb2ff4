-- ===== src/Sorting/Bubble/Boundaries.antt =====
-- The last thread of lab04/lab4.2.c: what a pass over the boundaries means.
use mathlib.Core.Path.{subst}
use sdp_labs.Common.{
  ℕ, ◌+◌, ◌≤◌, ◌<◌, ◌≡◌, ◌∙◌, ap, inl, inr, refl, Bool, Option, some, List, [], ◌∷◌, arith, length,
  dec_le, dec_lt, Bool-cases, if◌then◌else◌,
}
use sdp_labs.Common.Count.{count}
use sdp_labs.Common.Int.{ℤ, ◌≤ℤ◌, eqb_ℤ}
use sdp_labs.Sorting.Bubble.{exchange, boundaries}
use sdp_labs.Sorting.Bubble.Region.{at, exchange_lem}
use sdp_labs.Sorting.Bubble.Sorted.{SortedIn}

-- The regions that end at `extremes`, and the last one at `hi`, are each in order.
abbrev pub RegionsSorted : ℕ → List ℕ → ℕ → List ℤ → Type 0
RegionsSorted lo [] hi a = SortedIn lo hi a
RegionsSorted lo (e ∷ rest) hi a =
    (lo ≤ e) × (e < hi) × SortedIn lo e a × RegionsSorted (e + 1) rest hi a

boundaries_steps :
    (e : ℕ) (rest : List ℕ) (a : List ℤ) (n : ℕ) {b : List ℤ} {s : Bool} {r : Option (List ℤ × ℕ)}
    → exchange a e ≡ some (b, s)
    → boundaries rest b (if s then n + 1 else n) ≡ r
    → boundaries (e ∷ rest) a n ≡ r
unfolding boundaries
boundaries_steps e rest a n x y = ground (arith, x, y)

-- The elements at each boundary are in order.
abbrev InOrder : List ℕ → List ℤ → Type 0
InOrder [] a = Unit
InOrder (e ∷ rest) a = (at a e ≤ℤ at a (e + 1)) × InOrder rest a

abbrev InArray : List ℕ → List ℤ → Type 0
InArray [] a = Unit
InArray (e ∷ rest) a = (e + 1 < length a) × InArray rest a

-- The pass over `es` ends; it has made `swaps` swaps.
record Passed (es : List ℕ) (a : List ℤ) (n : ℕ) (r : Option (List ℤ × ℕ)) : Type 0 where
  b : List ℤ
  swaps : ℕ
  result : r ≡ some (b, n + swaps)
  perm : (v : ℤ) → count (eqb_ℤ v) b ≡ count (eqb_ℤ v) a
  kept : swaps ≡ 0 → (b ≡ a) × InOrder es a

InArray-size : (es : List ℕ) (a b : List ℤ) → length b ≡ length a → InArray es a → InArray es b
InArray-size [] a b e h = tt
InArray-size (x ∷ es) a b e h = (omega (arith, e, h.0), InArray-size es a b e h.1)

some_pair :
    (b : List ℤ) (m n : ℕ) → m ≡ n → ◌≡◌ {A = Option (List ℤ × ℕ)} (some (b, m)) (some (b, n))
some_pair b m n e = ap (λ k. some (b, k)) e

pass_lem : (es : List ℕ) (a : List ℤ) (n : ℕ) → InArray es a → Passed es a n (boundaries es a n)
unfolding boundaries
pass_lem [] a n h = record {
  b = a;
  swaps = 0;
  result = some_pair a n (n + 0) (omega arith);
  perm = λ v. refl;
  kept = λ z. (refl, tt);
}
pass_lem (e ∷ rest) a n h =
    let x = exchange_lem a e h.0 in
    let p =
      pass_lem rest x.b (if x.swapped then n + 1 else n)
        (InArray-size rest a x.b x.region.size h.1) in
    record {
      b = p.b;
      swaps = if x.swapped then p.swaps + 1 else p.swaps;
      result = boundaries_steps e rest a n x.result p.result ∙ some_pair p.b _ _ (ground arith);
      perm = λ v. p.perm v ∙ x.region.perm v;
      kept = λ z. elim (Bool-cases x.swapped) [
        | inl yes_swapped ↦ absurd (ground (arith, z, yes_swapped))
        | inr no_swap ↦
            let (same, ordered) = p.kept (ground (arith, z, no_swap)) in
            let old = x.kept no_swap in
            (
              same ∙ old,
              (subst (λ l. at l e ≤ℤ at l (e + 1)) old x.ordered, subst (InOrder rest) old ordered),
            )
      ];
    }

RegionsSorted-InArray :
    (es : List ℕ) (lo hi : ℕ) (a : List ℤ) → hi < length a → RegionsSorted lo es hi a → InArray es a
RegionsSorted-InArray [] lo hi a h s = tt
RegionsSorted-InArray (e ∷ rest) lo hi a h s =
    (omega (arith, s.1), RegionsSorted-InArray rest (e + 1) hi a h s.3)

-- Two regions in order, and the boundary between them, make one.
pub join-SortedIn :
    (lo e hi : ℕ) (a : List ℤ)
    → SortedIn lo e a
    → SortedIn (e + 1) hi a
    → at a e ≤ℤ at a (e + 1)
    → SortedIn lo hi a
join-SortedIn lo e hi a s t h i j p q r = elim (dec_le j e) [
  | yes left ↦ s i j p q left
  | no nl ↦ elim (dec_lt e i) [
    | yes right ↦ t i j (omega arith) q r
    | no nr ↦
        omega
          (arith, h, s i e p (omega arith) (omega arith), t (e + 1) j (omega arith) (omega arith) r)
  ]
]

join_all :
    (es : List ℕ) (lo hi : ℕ) (a : List ℤ)
    → RegionsSorted lo es hi a
    → InOrder es a
    → SortedIn lo hi a
join_all [] lo hi a s o = s
join_all (e ∷ rest) lo hi a s o =
    join-SortedIn lo e hi a s.2 (join_all rest (e + 1) hi a s.3 o.1) o.0

-- A pass over boundaries that the array has stays in the array, keeps the number of times that each
-- value occurs, and counts its swaps. If the regions were in order and it makes no swap, the array is as
-- before and in order from the first region to the last: the threads stop only on a sorted array.
pub boundaries_lem :
    (es : List ℕ) (lo hi : ℕ) (a : List ℤ) (n : ℕ)
    → hi < length a
    → RegionsSorted lo es hi a
    → (b : List ℤ) × (swaps : ℕ) × (boundaries es a n ≡ some (b, n + swaps))
      × ((v : ℤ) → count (eqb_ℤ v) b ≡ count (eqb_ℤ v) a)
      × (swaps ≡ 0 → (b ≡ a) × SortedIn lo hi a)
boundaries_lem es lo hi a n h s =
    let p = pass_lem es a n (RegionsSorted-InArray es lo hi a h s) in
    (p.b, p.swaps, p.result, p.perm, λ z. ((p.kept z).0, join_all es lo hi a s (p.kept z).1))
