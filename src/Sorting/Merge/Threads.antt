-- ===== src/Sorting/Merge/Threads.antt =====
-- The merge sort of lab02/lab2.2.c sorts too, and with the threshold 0 it is that of lab02/merge.c.
use sdp_labs.Common.{
  ℕ, zero, suc, ◌+◌, ◌-◌, ◌≤◌, ◌<◌, ◌≡◌, ◌∙◌, inl, inr, refl, Bool, true, Option, some, List, arith,
  length, dec_lt, dec_le, Option-cases,
}
use sdp_labs.Common.Int.{ℤ}
use sdp_labs.Sorting.Bubble.{bubble_sort}
use sdp_labs.Sorting.Bubble.Sorted.{Ordered, bubble_sort_lem}
use sdp_labs.Sorting.Merge.{merge, merge_sort, merge_sort_threads}
use sdp_labs.Sorting.Merge.Sorted.{sort_halves, short, Ordered-same, middle_of}

module _ (z : ℤ) (fuel threshold : ℕ) (a : List ℤ) (left right : ℕ) where
  threads-long :
      {b c : List ℤ}
      → left < right
      → threshold < right - left
      → merge_sort_threads true (some z) fuel threshold a left (middle_of left right) ≡ some b
      → merge_sort_threads true (some z) fuel threshold b (middle_of left right + 1) right ≡ some c
      → merge_sort_threads true (some z) (suc fuel) threshold a left right
        ≡ merge true (some z) c left (middle_of left right) right
  unfolding merge_sort_threads
  threads-long lt far e f = ground (arith, e, f)

  threads-near :
      left < right
      → right - left ≤ threshold
      → merge_sort_threads true (some z) (suc fuel) threshold a left right
        ≡ bubble_sort a left right
  unfolding merge_sort_threads
  threads-near lt near = ground arith

  threads-short :
      right ≤ left → merge_sort_threads true (some z) (suc fuel) threshold a left right ≡ some a
  unfolding merge_sort_threads
  threads-short le = ground arith

-- `mergeSort` of lab2.2.c, for any threshold, on an array that has the places, if left is below right, with more fuel than right - left, where the copies of `merge`
-- write behind each temporary array and may read behind the whole array, which C leaves undefined: if
-- nothing that the program uses lies behind a temporary array, and the place behind the array can be
-- read, it comes to an end with no other access out of an array, changes nothing outside the places
-- from `left` to `right`, keeps the number of times that each value occurs, and leaves those places in
-- order.
pub merge_sort_threads_lem :
    (z : ℤ) (fuel threshold : ℕ) (a : List ℤ) (left right : ℕ)
    → right - left < fuel
    → (left < right → right < length a)
    → Ordered left right a (merge_sort_threads true (some z) fuel threshold a left right)
merge_sort_threads_lem z zero threshold a left right enough h = absurd (omega arith)
merge_sort_threads_lem z (suc fuel) threshold a left right enough h = elim (dec_lt left right) [
  | no n ↦
      Ordered-same left right a (threads-short z fuel threshold a left right (omega arith))
        (short a left right (omega arith))
  | yes lt ↦ elim (dec_le (right - left) threshold) [
    | yes near ↦
        let (b, e, region, sorted) = bubble_sort_lem a left right (omega arith) (h lt) in
        record {
          b = b;
          result = threads-near z fuel threshold a left right lt near ∙ e;
          region = region;
          sorted = sorted;
        }
    | no far ↦
        let m = middle_of left right in
        let x =
          merge_sort_threads_lem z fuel threshold a left m (omega arith)
            (λ _. omega (arith, h lt)) in
        let y =
          merge_sort_threads_lem z fuel threshold x.b (m + 1) right (omega arith)
            (λ _. omega (arith, h lt, x.region.size)) in
        Ordered-same left right a
          (threads-long z fuel threshold a left right lt (omega arith) x.result y.result)
          (sort_halves z a x.b y.b left m right (omega arith) (omega arith) (h lt) x.region x.sorted
            y.region y.sorted)
  ]
]

-- With the threshold 0 every region of two places or more is split: the threads do what `mergeSort` of
-- merge.c does, on every array and all bounds, out of range too.
pub merge_sort_threads-zero :
    (spare : Bool) (behind : Option ℤ) (fuel : ℕ) (a : List ℤ) (left right : ℕ)
    → merge_sort_threads spare behind fuel 0 a left right
      ≡ merge_sort spare behind fuel a left right
unfolding merge_sort_threads merge_sort
merge_sort_threads-zero spare behind zero a left right = refl
merge_sort_threads-zero spare behind (suc fuel) a left right =
    elim (Option-cases (merge_sort spare behind fuel a left (middle_of left right))) [
      | inl e ↦
          ground (arith, e, merge_sort_threads-zero spare behind fuel a left (middle_of left right))
      | inr (v, e) ↦ ground (
        arith,
        e,
        merge_sort_threads-zero spare behind fuel a left (middle_of left right),
        merge_sort_threads-zero spare behind fuel v (middle_of left right + 1) right,
      )
    ]
