-- ===== src/Sorting/Merge/Overrun.antt =====
-- The copies of `merge` in lab02/merge.c make one round too many.
use sdp_labs.Common.{
  ℕ, zero, suc, ◌+◌, ◌-◌, ◌≤◌, ◌<◌, ◌≡◌, refl, false, Option, none, some, List, arith, length,
  length-set, replicate, length-replicate, Option-cases, inl, inr,
}
use sdp_labs.Common.Int.{ℤ, pos}
use sdp_labs.Sorting.Merge.{fetch, temp_store, copy_in, merge, merge_sort}
use sdp_labs.Sorting.Merge.Sorted.{middle_of}

module _ (behind : Option ℤ) where
  temp_store-within :
      (dst : List ℤ) (i : ℕ) (x : ℤ) {d : List ℤ}
      → temp_store false behind dst i x ≡ some d
      → (i < length dst) × (length d ≡ length dst)
  unfolding temp_store
  temp_store-within dst i x e = ground (arith, e, length-set dst i x)

  -- More rounds than the temporary array has places.
  copy_in-overruns :
      (rounds i from : ℕ) (vet dst : List ℤ)
      → i ≤ length dst
      → length dst < i + rounds
      → copy_in false behind rounds i from vet dst ≡ none
  unfolding copy_in
  copy_in-overruns zero i from vet dst le lt = absurd (omega arith)
  copy_in-overruns (suc rounds) i from vet dst le lt =
      elim (Option-cases (fetch false behind vet (from + i))) [
        | inl e ↦ ground (arith, e)
        | inr (x, e) ↦ elim (Option-cases (temp_store false behind dst i x)) [
          | inl f ↦ ground (arith, e, f)
          | inr (d, f) ↦
              let (less, same) = temp_store-within dst i x f in
              ground (
                arith,
                e,
                f,
                copy_in-overruns rounds (i + 1) from vet d (omega (arith, less, same))
                    (omega (arith, lt, same)),
              )
        ]
      ]

  merge-overruns :
      (vet : List ℤ) (left middle right : ℕ) → merge false behind vet left middle right ≡ none
  unfolding merge
  merge-overruns vet left middle right = ground (
    arith,
    copy_in-overruns (middle - left + 1 + 1) 0 left vet (replicate (middle - left + 1) (pos 0))
        (omega arith) (omega (arith, length-replicate (middle - left + 1) (pos 0))),
  )

  -- `mergeSort` of merge.c on two places or more, whatever the array holds: if something that the program
  -- uses lies behind the temporary arrays, no fuel lets it come to an end without a write to that place.
  pub merge_sort-overruns :
      (fuel : ℕ) (vet : List ℤ) (left right : ℕ)
      → left < right
      → merge_sort false behind fuel vet left right ≡ none
  unfolding merge_sort
  merge_sort-overruns zero vet left right lt = refl
  merge_sort-overruns (suc fuel) vet left right lt =
      elim (Option-cases (merge_sort false behind fuel vet left (middle_of left right))) [
        | inl e ↦ ground (arith, e)
        | inr (v, e) ↦
            elim (Option-cases (merge_sort false behind fuel v (middle_of left right + 1) right)) [
              | inl f ↦ ground (arith, e, f)
              | inr (w, f) ↦
                  ground (arith, e, f, merge-overruns w left (middle_of left right) right)
            ]
      ]
