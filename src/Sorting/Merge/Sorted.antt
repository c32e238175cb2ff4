-- ===== src/Sorting/Merge/Sorted.antt =====
-- Both merge sorts sort, and stay in the array.
use mathlib.Core.Path.{subst}
use mathlib.Core.List.{append_assoc}
use sdp_labs.Common.{
  ℕ, zero, suc, ◌+◌, ◌-◌, ◌/◌, ◌≤◌, ◌<◌, ◌≡◌, ◌∙◌, sym, ap, inl, refl, true, Option, some, List,
  ◌++◌, arith, length, take, drop, take-append-drop, length-take, length-drop, length-append,
  dec_lt,
}
use sdp_labs.Common.Count.{All-append, All-parts, count, count-append, All}
use sdp_labs.Common.Int.{ℤ, ◌≤ℤ◌}
use sdp_labs.Sorting.Bubble.Region.{Region, Region-refl, Region-trans, Region-widen}
use sdp_labs.Sorting.Bubble.Sorted.{SortedIn, SortedIn-same, Ordered, ≤ℤ_refl_at}
use sdp_labs.Sorting.Merge.{merge, merge_sort}
use sdp_labs.Sorting.Merge.Lists
use sdp_labs.Sorting.Merge.Lists.{merge_lists}
use sdp_labs.Sorting.Merge.Segments.{parts, seg-Region, seg-IsSorted, seg-SortedIn}
use sdp_labs.Sorting.Merge.Loops.{merge_parts}

-- The place behind each temporary array is free, and the one behind the array holds `z`.
module _ (z : ℤ) where
  -- `merge` of two neighbouring regions in order.
  pub merge_lem :
      (a : List ℤ) (left middle right : ℕ)
      → left ≤ middle
      → middle < right
      → right < length a
      → SortedIn left middle a
      → SortedIn (middle + 1) right a
      → Ordered left right a (merge true (some z) a left middle right)
  merge_lem a left middle right le lt h s1 s2 =
      let p = parts left right a (omega arith) h in
      let n : ℕ = middle - left + 1 in
      let l = take n p.seg in
      let r = drop n p.seg in
      let cut : l ++ r ≡ p.seg = take-append-drop n p.seg in
      let size_l : length l ≡ middle - left + 1 = omega (arith, length-take n p.seg, p.size) in
      let size_r : length r ≡ right - middle = omega (arith, length-drop n p.seg, p.size) in
      let three : a ≡ p.pre ++ (l ++ (r ++ p.post)) =
        p.whole
        ∙ ap (λ q. p.pre ++ (q ++ p.post)) (sym cut)
        ∙ ap (λ q. p.pre ++ q) (append_assoc l r p.post) in
      let four : a ≡ (p.pre ++ l) ++ (r ++ p.post) =
        three ∙ sym (append_assoc p.pre l (r ++ p.post)) in
      let sorted_l =
        seg-IsSorted p.pre l (r ++ p.post) p.before size_l le
          (subst (SortedIn left middle) three s1) in
      let sorted_r =
        seg-IsSorted (p.pre ++ l) r p.post {lo = middle + 1} {hi = right}
          (omega (arith, length-append p.pre l, p.before, size_l)) (omega (arith, size_r))
          (omega arith) (subst (SortedIn (middle + 1) right) four s2) in
      let size_m : length (merge_lists l r) ≡ right - left + 1 =
        omega (arith, Lists.length-merge_lists l r, size_l, size_r) in
      record {
        b = p.pre ++ (merge_lists l r ++ p.post);
        result = merge_parts z a p.pre l r p.post left middle right three p.before size_l size_r le;
        region =
            subst (λ q. Region left right q (p.pre ++ (merge_lists l r ++ p.post))) (sym p.whole)
              (seg-Region p.pre p.seg (merge_lists l r) p.post p.before p.size size_m (omega arith)
                (λ f. Lists.count-merge_lists f l r ∙ sym (count-append f l r) ∙ ap (count f) cut)
                (λ v all.
                  let two = All-parts (λ z. z ≤ℤ v) l r (subst (All (λ z. z ≤ℤ v)) (sym cut) all) in
                  Lists.All-merge_lists (λ z. z ≤ℤ v) l r two.0 two.1)
                (λ v all.
                  let two = Lists.All-merge_lists_back (λ z. z ≤ℤ v) l r all in
                  subst (All (λ z. z ≤ℤ v)) cut (All-append (λ z. z ≤ℤ v) l r two.0 two.1)));
        sorted =
            seg-SortedIn p.pre (merge_lists l r) p.post p.before size_m (omega arith)
              (Lists.merge_lists-IsSorted l r sorted_l sorted_r);
      }

-- Two halves that are sorted one after the other stay sorted.
halves :
    (a b c : List ℤ) (left middle right : ℕ)
    → left ≤ middle
    → middle < right
    → Region left middle a b
    → SortedIn left middle b
    → Region (middle + 1) right b c
    → Region left right a c × SortedIn left middle c
halves a b c left middle right le lt r s q = (
  Region-trans (Region-widen (omega arith) (omega arith) r)
      (Region-widen (omega arith) (omega arith) q),
  SortedIn-same left middle b c (λ k h. q.outside k (inl (omega arith))) s,
)

module _ (z : ℤ) where
  -- The two recursive calls and `merge`.
  pub sort_halves :
      (a b c : List ℤ) (left middle right : ℕ)
      → left ≤ middle
      → middle < right
      → right < length a
      → Region left middle a b
      → SortedIn left middle b
      → Region (middle + 1) right b c
      → SortedIn (middle + 1) right c
      → Ordered left right a (merge true (some z) c left middle right)
  sort_halves a b c left middle right le lt h r s q t =
      let (region, sorted) = halves a b c left middle right le lt r s q in
      let m = merge_lem z c left middle right le lt (omega (arith, region.size)) sorted t in
      record {
        b = m.b;
        result = m.result;
        region = Region-trans region m.region;
        sorted = m.sorted;
      }

-- A region of at most one place is in order.
pub short : (a : List ℤ) (left right : ℕ) → right ≤ left → Ordered left right a (some a)
short a left right h = record {
  b = a;
  result = refl;
  region = Region-refl left right a;
  sorted = λ i j p q r. ≤ℤ_refl_at a i j (omega arith);
}

pub Ordered-same :
    (left right : ℕ) (a : List ℤ) {o o' : Option (List ℤ)}
    → o' ≡ o
    → Ordered left right a o
    → Ordered left right a o'
Ordered-same left right a e r = subst (Ordered left right a) (sym e) r

abbrev pub middle_of : ℕ → ℕ → ℕ
middle_of left right = left + (right - left) / 2

module _ (z : ℤ) where
  merge_sort-long :
      (fuel : ℕ) (a : List ℤ) (left right : ℕ) {b c : List ℤ}
      → left < right
      → merge_sort true (some z) fuel a left (middle_of left right) ≡ some b
      → merge_sort true (some z) fuel b (middle_of left right + 1) right ≡ some c
      → merge_sort true (some z) (suc fuel) a left right
        ≡ merge true (some z) c left (middle_of left right) right
  unfolding merge_sort
  merge_sort-long fuel a left right lt e f = ground (arith, e, f)

  merge_sort-short :
      (fuel : ℕ) (a : List ℤ) (left right : ℕ)
      → right ≤ left
      → merge_sort true (some z) (suc fuel) a left right ≡ some a
  unfolding merge_sort
  merge_sort-short fuel a left right le = ground arith

  -- `mergeSort` of merge.c on the places from `left` to `right` of an array that has them, if left is below
  -- right, with more fuel than right - left. Its copies
  -- write behind each temporary array and may read behind the whole array, which C leaves undefined: if
  -- nothing that the program uses lies behind a temporary array, and the place behind the array can
  -- be read, it comes to an end with no other access out of an array, changes nothing outside the
  -- places, keeps the number of times that each value occurs, and leaves the places in order.
  pub merge_sort_lem :
      (fuel : ℕ) (a : List ℤ) (left right : ℕ)
      → right - left < fuel
      → (left < right → right < length a)
      → Ordered left right a (merge_sort true (some z) fuel a left right)
  merge_sort_lem zero a left right enough h = absurd (omega arith)
  merge_sort_lem (suc fuel) a left right enough h = elim (dec_lt left right) [
    | no n ↦
        Ordered-same left right a (merge_sort-short fuel a left right (omega arith))
          (short a left right (omega arith))
    | yes lt ↦
        let m = middle_of left right in
        let x = merge_sort_lem fuel a left m (omega arith) (λ _. omega (arith, h lt)) in
        let y =
          merge_sort_lem fuel x.b (m + 1) right (omega arith)
            (λ _. omega (arith, h lt, x.region.size)) in
        Ordered-same left right a (merge_sort-long fuel a left right lt x.result y.result) (
          sort_halves z a x.b y.b left m right (omega arith) (omega arith) (h lt) x.region x.sorted
            y.region y.sorted)
  ]
