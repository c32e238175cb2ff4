-- ===== src/Sorting/Regions/Round.antt =====
-- The regions cover the array, and what a round does.
use mathlib.Core.Path.{subst, subst₂}
use sdp_labs.Common.{
  ℕ, zero, suc, ◌+◌, ◌-◌, ◌*◌, ◌/◌, ◌≤◌, ◌<◌, ◌==◌, ◌≡◌, ◌∙◌, sym, ap, inl, refl, Option, some,
  List, [], ◌∷◌, arith, length, if◌then◌else◌,
}
use sdp_labs.Common.Count.{count}
use sdp_labs.Common.Int.{ℤ, eqb_ℤ}
use sdp_labs.Sorting.Bubble.{bubble_sort, boundaries}
use sdp_labs.Sorting.Bubble.Region.{at}
use sdp_labs.Sorting.Bubble.Sorted.{SortedIn, SortedIn-same, bubble_sort_lem}
use sdp_labs.Sorting.Bubble.Boundaries.{RegionsSorted, boundaries_lem}
use sdp_labs.Sorting.Regions.{Params, params_from, params, extremes, sort_all, round}

-- The regions follow one another from `lo` to `hi`, and none is empty.
pub data Chain : ℕ → List Params → ℕ → Type 0 where
  last : {lo hi : ℕ} (p : Params) → p.left ≡ lo → p.right ≡ hi → lo ≤ hi → Chain lo (p ∷ []) hi
  more :
      {lo hi : ℕ} (p q : Params) (ps : List Params)
      → p.left ≡ lo
      → lo ≤ p.right
      → p.right < hi
      → Chain (p.right + 1) (q ∷ ps) hi
      → Chain lo (p ∷ q ∷ ps) hi

record SortedAll (lo : ℕ) (ps : List Params) (hi : ℕ) (a : List ℤ) : Type 0 where
  b : List ℤ
  result : sort_all ps a ≡ some b
  size : length b ≡ length a
  perm : (v : ℤ) → count (eqb_ℤ v) b ≡ count (eqb_ℤ v) a
  before : (k : ℕ) → k < lo → at b k ≡ at a k
  sorted : RegionsSorted lo (extremes ps) hi b

sort_all_steps :
    (p : Params) (ps : List Params) (a : List ℤ) {b c : List ℤ}
    → bubble_sort a p.left p.right ≡ some b
    → sort_all ps b ≡ some c
    → sort_all (p ∷ ps) a ≡ some c
unfolding sort_all
sort_all_steps p ps a x y = ground (arith, x, y)

sort_all_nil : (a : List ℤ) → sort_all [] a ≡ some a
unfolding sort_all
sort_all_nil a = refl

sort_all_lem :
    (lo : ℕ) (ps : List Params) (hi : ℕ) (a : List ℤ)
    → Chain lo ps hi
    → hi < length a
    → SortedAll lo ps hi a
sort_all_lem lo _ hi a (last p l r le) h =
    let (b, e, region, s) =
      bubble_sort_lem a p.left p.right (omega (arith, l, r)) (omega (arith, r)) in
    record {
      b = b;
      result = sort_all_steps p [] a e (sort_all_nil b);
      size = region.size;
      perm = region.perm;
      before = λ k lt. region.outside k (inl (omega (arith, l)));
      sorted = subst₂ (λ x y. SortedIn x y b) l r s;
    }
sort_all_lem lo _ hi a (more p q ps l le lt rest) h =
    let (b, e, region, s) = bubble_sort_lem a p.left p.right (omega (arith, l)) (omega arith) in
    let y = sort_all_lem (p.right + 1) (q ∷ ps) hi b rest (omega (arith, region.size)) in
    record {
      b = y.b;
      result = sort_all_steps p (q ∷ ps) a e y.result;
      size = y.size ∙ region.size;
      perm = λ v. y.perm v ∙ region.perm v;
      before = λ k small. y.before k (omega arith) ∙ region.outside k (inl (omega (arith, l)));
      sorted = (
        le,
        lt,
        SortedIn-same lo p.right b y.b (λ k u. y.before k (omega arith))
            (subst (λ x. SortedIn x p.right b) l s),
        y.sorted,
      );
    }

round_steps :
    (ps : List Params) (a : List ℤ) {b : List ℤ} {r : Option (List ℤ × ℕ)}
    → sort_all ps a ≡ some b
    → boundaries (extremes ps) b 0 ≡ r
    → round ps a ≡ r
unfolding round
round_steps ps a x y = ground (arith, x, y)

mul_last : (size i n k : ℕ) → i + suc k ≡ n → size * n ≡ size * i + size + size * k
mul_last size i n k e = rw (sym e) (omega arith)

le_mul : (size k : ℕ) → size ≤ size * suc k
le_mul size k = omega arith

-- The loop of `inefficientSort` from region `i` on.
params_from-Chain :
    (rounds i nthreads size dim : ℕ)
    → 1 ≤ size
    → size * nthreads ≤ dim
    → i + suc rounds ≡ nthreads
    → Chain (size * i) (params_from (suc rounds) i nthreads size dim) (dim - 1)
unfolding params_from
params_from-Chain zero i nthreads size dim pos_size fits all =
    let place : size * nthreads ≡ size * i + size = mul_last size i nthreads 0 all ∙ omega arith in
    last _ refl (ground arith) (omega (arith, place))
params_from-Chain (suc rounds) i nthreads size dim pos_size fits all =
    let place : size * nthreads ≡ size * i + size + size * suc rounds =
      mul_last size i nthreads (suc rounds) all in
    let step : size * (i + 1) ≡ size * i + size =
      mul_last size i (i + 1) 0 (omega arith) ∙ omega arith in
    let some_left : size ≤ size * suc rounds = le_mul size rounds in
    let inner : (if i + 1 == nthreads then dim - 1 else size * (i + 1) - 1) ≡ size * (i + 1) - 1 =
      ground arith in
    let rest = params_from-Chain rounds (i + 1) nthreads size dim pos_size fits (omega arith) in
    more _ _ _ refl (omega (arith, inner, step)) (omega (arith, inner, step, place, some_left)) (
      subst (λ k. Chain k (params_from (suc rounds) (i + 1) nthreads size dim) (dim - 1))
        (omega (arith, inner, step)) rest)

-- For at least one thread and as many numbers as threads or more: the regions start at the first place of
-- the array, follow one another without a gap, are not empty, and end at the last place.
pub params-Chain :
    (nthreads dim : ℕ) → 1 ≤ nthreads → nthreads ≤ dim → Chain 0 (params nthreads dim) (dim - 1)
unfolding params
params-Chain zero dim one enough = absurd (omega arith)
params-Chain (suc n) dim one enough =
    subst (λ k. Chain k (params_from (suc n) 0 (suc n) (dim / suc n) dim) (dim - 1)) (omega arith)
      (params_from-Chain n 0 (suc n) (dim / suc n) dim (grind arith) (grind arith) (omega arith))

-- One round of the threads on the whole array, for at least one thread and as many numbers as threads or
-- more: it stays in the array and keeps the number of times that each value occurs; and if it ends with
-- `swapsCount` 0, at which the threads stop, the array is sorted.
pub round_lem :
    (nthreads : ℕ) (a : List ℤ)
    → 1 ≤ nthreads
    → nthreads ≤ length a
    → (b : List ℤ) × (swaps : ℕ) × (round (params nthreads (length a)) a ≡ some (b, swaps))
      × ((v : ℤ) → count (eqb_ℤ v) b ≡ count (eqb_ℤ v) a)
      × (swaps ≡ 0 → SortedIn 0 (length a - 1) b)
round_lem nthreads a one enough =
    let s =
      sort_all_lem 0 (params nthreads (length a)) (length a - 1) a
        (params-Chain nthreads (length a) one enough) (omega arith) in
    let (b, n, e, perm, stop) =
      boundaries_lem (extremes (params nthreads (length a))) 0 (length a - 1) s.b 0
        (omega (arith, s.size)) s.sorted in
    (
      b,
      n,
      round_steps (params nthreads (length a)) a s.result e ∙ ap (λ k. some (b, k)) (omega arith),
      λ v. perm v ∙ s.perm v,
      λ z. subst (SortedIn 0 (length a - 1)) (sym (stop z).0) (stop z).1,
    )
