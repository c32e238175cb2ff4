-- ===== src/Sorting/Quick/Sorted.antt =====
-- The quicksort ends and sorts.
use mathlib.Core.Path.{subst}
use sdp_labs.Common.{
  ℕ, zero, suc, ◌+◌, ◌-◌, ◌≤◌, ◌<◌, ◌≡◌, ◌∙◌, sym, ap, inl, inr, Option, some, List, arith, length,
  get-lt-length, dec_lt,
}
use sdp_labs.Common.Count.{count}
use sdp_labs.Common.Int.{ℤ, ◌≤ℤ◌, eqb_ℤ}
use sdp_labs.Sorting.Bubble.Boundaries.{join-SortedIn}
use sdp_labs.Sorting.Bubble.Region.{at, get_elem?-at}
use sdp_labs.Sorting.Bubble.Sorted.{SortedIn, SortedIn-same, ≤ℤ_refl_at}
use sdp_labs.Sorting.Quick.{partition_loop, qsorter, sort_file}
use sdp_labs.Sorting.Quick.Partition.{partition_lem, first_head}
use sdp_labs.Sorting.Quick.Shuffled.{Shuffled, Shuffled-refl, Shuffled-trans, Shuffled-widen}

pub record Sorts (left right : ℕ) (v : List ℤ) (r : Option (List ℤ)) : Type 0 where
  pub w : List ℤ
  pub result : r ≡ some w
  pub shuffled : Shuffled left right v w
  pub sorted : SortedIn left right w

qsorter_steps :
    (fuel : ℕ) (v : List ℤ) (left right : ℕ) {j : ℕ} {w u : List ℤ}
    → left < right
    → right < length v
    → partition_loop (right + 2) v (at v left) left (right + 1) ≡ some (j, w)
    → qsorter fuel w left j ≡ some u
    → qsorter (suc fuel) v left right ≡ qsorter fuel u (j + 1) right
unfolding qsorter
qsorter_steps fuel v left right lt h e f =
    let (x, g) = get-lt-length v left (omega arith) in
    ground (arith, e, f, g ∙ ap some (sym (get_elem?-at v left g)))

qsorter_short :
    (fuel : ℕ) (v : List ℤ) (left right : ℕ)
    → right ≤ left
    → qsorter (suc fuel) v left right ≡ some v
unfolding qsorter
qsorter_short fuel v left right le = ground arith

-- After both calls the left part is still not above the pivot, and the right part not below it.
parts_join :
    (x : ℤ) (left j right : ℕ) (w u t : List ℤ)
    → left ≤ j
    → j < right
    → ((k : ℕ) → left ≤ k → k < j + 1 → at w k ≤ℤ x)
    → ((k : ℕ) → j + 1 ≤ k → k < right + 1 → x ≤ℤ at w k)
    → Shuffled left j w u
    → SortedIn left j u
    → Shuffled (j + 1) right u t
    → SortedIn (j + 1) right t
    → SortedIn left right t
parts_join x left j right w u t le lt low high s sorted r sorted' =
    let (a, a_left, a_right, a_from) = s.from j le (omega arith) in
    let (b, b_left, b_right, b_from) = r.from (j + 1) (omega arith) (omega arith) in
    let left_part : at t j ≤ℤ x =
      subst (λ z. z ≤ℤ x) (sym (r.outside j (inl (omega arith)) ∙ a_from))
        (low a a_left (omega arith)) in
    let right_part : x ≤ℤ at t (j + 1) =
      subst (λ z. x ≤ℤ z) (sym (b_from ∙ s.outside b (inr (omega arith))))
        (high b b_left (omega arith)) in
    join-SortedIn left j right t
      (SortedIn-same left j u t (λ k h. r.outside k (inl (omega arith))) sorted) sorted'
      (omega (arith, left_part, right_part))

-- `qsorter` on the places from `left` to `right`, with more fuel than right - left: it comes to an end, its
-- scans stay in the array, it moves elements within these places only, and leaves them in order.
pub qsorter_lem :
    (fuel : ℕ) (v : List ℤ) (left right : ℕ)
    → right - left < fuel
    → (left < right → right < length v)
    → Sorts left right v (qsorter fuel v left right)
qsorter_lem zero v left right enough h = absurd (omega arith)
qsorter_lem (suc fuel) v left right enough h = elim (dec_lt left right) [
  | no n ↦ record {
    w = v;
    result = qsorter_short fuel v left right (omega arith);
    shuffled = Shuffled-refl left right v;
    sorted = λ i j p q r. ≤ℤ_refl_at v i j (omega arith);
  }
  | yes lt ↦
      let s =
        partition_lem (right + 2) v (at v left) left right left (right + 1) (omega arith)
          (first_head v left right lt (h lt)) in
      let a =
        qsorter_lem fuel s.w left s.j (omega (arith, s.from_left, s.to_right))
          (λ _. omega (arith, s.to_right, s.shuffled.size, h lt)) in
      let b =
        qsorter_lem fuel a.w (s.j + 1) right (omega (arith, s.from_left, s.to_right))
          (λ _. omega (arith, a.shuffled.size, s.shuffled.size, h lt)) in
      record {
        w = b.w;
        result = qsorter_steps fuel v left right lt (h lt) s.result a.result ∙ b.result;
        shuffled = Shuffled-trans s.shuffled (
            Shuffled-trans (Shuffled-widen (omega arith) (omega (arith, s.to_right)) a.shuffled)
              (Shuffled-widen (omega (arith, s.from_left)) (omega arith) b.shuffled));
        sorted =
            parts_join (at v left) left s.j right s.w a.w b.w s.from_left s.to_right s.low s.high
              a.shuffled a.sorted b.shuffled b.sorted;
      }
]

-- The program of qsort.c on any numbers comes to an end and stays in the array; the numbers it prints are
-- those of the file, each as often as there, in order.
pub sort_file_lem :
    (v : List ℤ)
    → (w : List ℤ) × (sort_file v ≡ some w)
      × (length w ≡ length v)
      × ((z : ℤ) → count (eqb_ℤ z) w ≡ count (eqb_ℤ z) v)
      × ((i j : ℕ) → i ≤ j → j < length v → at w i ≤ℤ at w j)
unfolding sort_file
sort_file_lem v =
    let s = qsorter_lem (length v + 1) v 0 (length v - 1) (omega arith) (λ lt. omega arith) in
    (
      s.w,
      s.result,
      s.shuffled.size,
      s.shuffled.perm,
      λ i j p q. s.sorted i j (omega arith) p (omega arith),
    )
