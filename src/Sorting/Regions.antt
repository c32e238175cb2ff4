-- ===== src/Sorting/Regions.antt =====
-- lab04/lab4.2.c: the regions of the threads (`inefficientSort`), and the rounds of `threadFunction`:
-- every thread sorts its region, and the last one passes over the boundaries. The
-- threads run one after the other here; Sorting/Barriers.antt has them in any interleaving. The number of threads, a logarithm of the C library, is given.
pub mod Round
pub mod Inversions
pub mod Rounds
use sdp_labs.Common.{
  ℕ, zero, suc, ◌+◌, ◌-◌, ◌*◌, ◌/◌, ◌==◌, Option, none, some, List, [], ◌∷◌, if◌then◌else◌, true,
  false,
}
use sdp_labs.Common.Int.{ℤ}
use sdp_labs.Sorting.Bubble.{bubble_sort, boundaries}

-- `mergeParamType` without the array, which all threads share.
pub record Params : Type 0 where
  pub left : ℕ
  pub right : ℕ

-- The loop of `inefficientSort` from `i` on, with `rounds` to go.
unfoldable pub params_from : ℕ → ℕ → ℕ → ℕ → ℕ → List Params
params_from zero i nthreads region_size dim = []
params_from (suc rounds) i nthreads region_size dim =
    record {
      left = region_size * i;
      right = if i + 1 == nthreads then dim - 1 else region_size * (i + 1) - 1;
    }
    ∷ params_from rounds (i + 1) nthreads region_size dim

unfoldable pub params : ℕ → ℕ → List Params
unfolding params_from
params nthreads dim = params_from nthreads 0 nthreads (dim / nthreads) dim

-- `params[i].right` for `i` below nthreads - 1.
abbrev pub extremes : List Params → List ℕ
extremes [] = []
extremes (p ∷ []) = []
extremes (p ∷ q ∷ ps) = p.right ∷ extremes (q ∷ ps)

unfoldable pub sort_all : List Params → List ℤ → Option (List ℤ)
unfolding bubble_sort
sort_all [] a = some a
sort_all (p ∷ ps) a = elim (bubble_sort a p.left p.right) [ none ↦ none | some b ↦ sort_all ps b ]

-- One round: the array, and `swapsCount`.
unfoldable pub round : List Params → List ℤ → Option (List ℤ × ℕ)
unfolding sort_all boundaries
round ps a = elim (sort_all ps a) [ none ↦ none | some b ↦ boundaries (extremes ps) b 0 ]

-- `do { … } while (swapsCount);` on fuel.
unfoldable pub rounds : ℕ → List Params → List ℤ → Option (List ℤ)
unfolding round
rounds zero ps a = none
rounds (suc fuel) ps a = elim (round ps a) [
  | none ↦ none
  | some (b, swaps) ↦ elim (swaps == 0) [ true ↦ some b | false ↦ rounds fuel ps b ]
]
