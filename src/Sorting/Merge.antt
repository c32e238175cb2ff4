-- ===== src/Sorting/Merge.antt =====
-- The merge sort of lab02/merge.c and the one of lab02/lab2.2.c, which starts two threads for the halves
-- and uses a bubble sort for short regions. The threads of a call work on disjoint halves and are
-- joined before `merge`, so they run one after the other here.
pub mod Lists
pub mod Places
pub mod Loops
pub mod Segments
pub mod Sorted
pub mod Threads
pub mod Overrun
use sdp_labs.Common.{
  ℕ, zero, suc, ◌+◌, ◌-◌, ◌/◌, ◌==◌, ◌&&◌, Option, none, some, List, replicate, get_elem?, set, ltb,
  leb, length, if◌then◌else◌, Bool, true, false,
}
use sdp_labs.Common.Int.{ℤ, pos, leb_ℤ}
use sdp_labs.Sorting.Bubble.{bubble_sort}

-- The copies of `merge` make one round too many: they write behind each temporary array, and may read
-- behind `vet`. C leaves that undefined, so what comes of it is given: `spare` says whether the place
-- behind each temporary array can be written and holds nothing that the program uses, and `behind` is
-- what is read behind `vet`, if that place can be read.
module _ (spare : Bool) (behind : Option ℤ) where
  -- `vet[k]`
  unfoldable pub fetch : List ℤ → ℕ → Option ℤ
  fetch vet k = elim (get_elem? vet k) [
    | some x ↦ some x
    | none ↦ if k == length vet then behind else none
  ]

  -- `L[i] = x` and `R[j] = x`; `none` is a write that destroys something else.
  unfoldable pub temp_store : List ℤ → ℕ → ℤ → Option (List ℤ)
  temp_store dst i x =
      if ltb i (length dst)
      then some (set dst i x)
      else if spare && (i == length dst)
      then some dst
      else none

  -- `for (i = 0; i <= n1; i++) L[i] = vet[left + i];` from `i` on, with `rounds` to go.
  unfoldable pub copy_in : ℕ → ℕ → ℕ → List ℤ → List ℤ → Option (List ℤ)
  copy_in zero i from vet dst = some dst
  copy_in (suc rounds) i from vet dst = elim (fetch vet (from + i)) [
    | none ↦ none
    | some x ↦ elim (temp_store dst i x) [
      | none ↦ none
      | some d ↦ copy_in rounds (i + 1) from vet d
    ]
  ]

-- `vet[k] = x`; `none` is a write behind the array.
unfoldable pub store : List ℤ → ℕ → ℤ → Option (List ℤ)
store vet k x = if ltb k (length vet) then some (set vet k x) else none

-- The variables of `merge` in its loops; `a` is n1 - i and `b` is n2 - j, what is left of L and of R.
pub record Merging : Type 0 where
  pub a : ℕ
  pub b : ℕ
  pub i : ℕ
  pub j : ℕ
  pub k : ℕ
  pub vet : List ℤ

-- `while (i < n1 && j < n2)`
unfoldable pub both_loop : List ℤ → List ℤ → ℕ → ℕ → ℕ → ℕ → ℕ → List ℤ → Option Merging
unfolding store
both_loop l r zero b i j k vet = some (record { a = zero; b = b; i = i; j = j; k = k; vet = vet })
both_loop l r (suc a) zero i j k vet =
    some (record { a = suc a; b = zero; i = i; j = j; k = k; vet = vet })
both_loop l r (suc a) (suc b) i j k vet = elim (get_elem? l i) [
  | none ↦ none
  | some x ↦ elim (get_elem? r j) [
    | none ↦ none
    | some y ↦ elim (leb_ℤ x y) [
      | true ↦ elim (store vet k x) [
        | none ↦ none
        | some v ↦ both_loop l r a (suc b) (i + 1) j (k + 1) v
      ]
      | false ↦ elim (store vet k y) [
        | none ↦ none
        | some v ↦ both_loop l r (suc a) b i (j + 1) (k + 1) v
      ]
    ]
  ]
]

-- `while (i < n1) vet[k++] = L[i++];` with `rounds` to go.
unfoldable pub rest_loop : List ℤ → ℕ → ℕ → ℕ → List ℤ → Option (ℕ × List ℤ)
unfolding store
rest_loop l zero i k vet = some (k, vet)
rest_loop l (suc rounds) i k vet = elim (get_elem? l i) [
  | none ↦ none
  | some x ↦ elim (store vet k x) [ none ↦ none | some v ↦ rest_loop l rounds (i + 1) (k + 1) v ]
]

-- The loops of `merge` behind the copies.
unfoldable pub merge_loops : List ℤ → List ℤ → ℕ → ℕ → ℕ → ℕ → ℕ → List ℤ → Option (List ℤ)
unfolding both_loop rest_loop
merge_loops l r a b i j k vet = elim (both_loop l r a b i j k vet) [
  | none ↦ none
  | some m ↦ elim (rest_loop l m.a m.i m.k m.vet) [
    | none ↦ none
    | some (k', v) ↦ elim (rest_loop r m.b m.j k' v) [ none ↦ none | some (_, w) ↦ some w ]
  ]
]

module _ (spare : Bool) (behind : Option ℤ) where
  unfoldable pub merge : List ℤ → ℕ → ℕ → ℕ → Option (List ℤ)
  unfolding copy_in merge_loops
  merge vet left middle right =
      let n1 : ℕ = middle - left + 1 in
      let n2 : ℕ = right - middle in
      elim (copy_in spare behind (n1 + 1) 0 left vet (replicate n1 (pos 0))) [
        | none ↦ none
        | some l ↦ elim (copy_in spare behind (n2 + 1) 0 (middle + 1) vet (replicate n2 (pos 0))) [
          | none ↦ none
          | some r ↦ merge_loops l r n1 n2 0 0 left vet
        ]
      ]

  -- `mergeSort` of merge.c; `none` also where the fuel runs out.
  unfoldable pub merge_sort : ℕ → List ℤ → ℕ → ℕ → Option (List ℤ)
  unfolding merge
  merge_sort zero vet left right = none
  merge_sort (suc fuel) vet left right =
      let middle : ℕ = left + (right - left) / 2 in
      elim (ltb left right) [
        | false ↦ some vet
        | true ↦ elim (merge_sort fuel vet left middle) [
          | none ↦ none
          | some v ↦ elim (merge_sort fuel v (middle + 1) right) [
            | none ↦ none
            | some w ↦ merge w left middle right
          ]
        ]
      ]

  -- `mergeSort` of lab2.2.c.
  unfoldable pub merge_sort_threads : ℕ → ℕ → List ℤ → ℕ → ℕ → Option (List ℤ)
  unfolding merge bubble_sort
  merge_sort_threads zero threshold vet left right = none
  merge_sort_threads (suc fuel) threshold vet left right =
      let middle : ℕ = left + (right - left) / 2 in
      elim (ltb left right) [
        | false ↦ some vet
        | true ↦ elim (leb (right - left) threshold) [
          | true ↦ bubble_sort vet left right
          | false ↦ elim (merge_sort_threads fuel threshold vet left middle) [
            | none ↦ none
            | some v ↦ elim (merge_sort_threads fuel threshold v (middle + 1) right) [
              | none ↦ none
              | some w ↦ merge w left middle right
            ]
          ]
        ]
      ]
