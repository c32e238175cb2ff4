-- ===== src/Sorting/Bubble.antt =====
-- The bubble sort of lab01/lab1.1.c (`sort`) and of lab04/lab4.2.c (`bubbleSort`, on a region), and
-- the pass of `threadFunction` over the boundaries of the regions. `none` is an access out of the
-- array.
pub mod Region
pub mod Sorted
pub mod Boundaries
use sdp_labs.Common.{
  ℕ, zero, suc, ◌+◌, ◌-◌, Bool, Option, none, some, List, [], ◌∷◌, get_elem?, set, if◌then◌else◌,
}
use sdp_labs.Common.Int.{ℤ, ltb_ℤ}

-- `if (array[j] > array[j+1])` and the swap; the Bool says whether it was made.
unfoldable pub exchange : List ℤ → ℕ → Option (List ℤ × Bool)
exchange a j = elim (get_elem? a j) [
  | none ↦ none
  | some x ↦ elim (get_elem? a (j + 1)) [
    | none ↦ none
    | some y ↦ some (if ltb_ℤ y x then set (set a j y) (j + 1) x else a, ltb_ℤ y x)
  ]
]

-- The inner loop from `j` on, with `left` rounds to go.
unfoldable pub inner : ℕ → ℕ → List ℤ → Option (List ℤ)
unfolding exchange
inner zero j a = some a
inner (suc left) j a = elim (exchange a j) [ none ↦ none | some (b, _) ↦ inner left (j + 1) b ]

-- The outer loop, with `left` rounds to go: its inner loop starts at `l`, and has as many rounds.
unfoldable pub outer : ℕ → ℕ → List ℤ → Option (List ℤ)
unfolding inner
outer zero l a = some a
outer (suc left) l a = elim (inner (suc left) l a) [ none ↦ none | some b ↦ outer left l b ]

-- `sort(array, n)`: `i` runs from 0 below n - 1, and `j` from 0 below n - i - 1.
unfoldable pub sort : List ℤ → ℕ → Option (List ℤ)
unfolding outer
sort a n = outer (n - 1) 0 a

-- `bubbleSort`: `i` runs from l below r, and `j` from l below r - i + l.
unfoldable pub bubble_sort : List ℤ → ℕ → ℕ → Option (List ℤ)
unfolding outer
bubble_sort a l r = outer (r - l) l a

-- The last thread's loop over the boundaries, given the `right` of all regions but the last: the
-- array, and `swapsCount`.
unfoldable pub boundaries : List ℕ → List ℤ → ℕ → Option (List ℤ × ℕ)
unfolding exchange
boundaries [] a swaps = some (a, swaps)
boundaries (extreme ∷ rest) a swaps = elim (exchange a extreme) [
  | none ↦ none
  | some (b, swapped) ↦ boundaries rest b (if swapped then swaps + 1 else swaps)
]
