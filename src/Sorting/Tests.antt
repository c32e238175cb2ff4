-- ===== src/Sorting/Tests.antt =====
-- The sorting routines at concrete arrays.
use sdp_labs.Common.{ℕ, ◌≤◌, ◌<◌, length, ◌≡◌, refl, true, false, none, some, List, [], ◌∷◌, arith}
use sdp_labs.Common.Count.{count}
use sdp_labs.Common.Int.{ℤ, pos, negsuc, ◌≤ℤ◌, eqb_ℤ}
use sdp_labs.Sorting.Bubble.{sort}
use sdp_labs.Sorting.Bubble.Region.{at}
use sdp_labs.Sorting.Bubble.Sorted.{Ordered}
use sdp_labs.Sorting.Merge.{fetch, temp_store, merge_sort, merge_sort_threads}
use sdp_labs.Sorting.Merge.Sorted.{merge_sort_lem}
use sdp_labs.Sorting.Merge.Overrun.{merge_sort-overruns}
use sdp_labs.Sorting.Merge.Threads.{merge_sort_threads_lem}
use sdp_labs.Sorting.Quick.{sort_file}
use sdp_labs.Sorting.Quick.Sorted.{sort_file_lem}
use sdp_labs.Sorting.Regions.{params, round, rounds}

abbrev numbers : List ℤ
numbers = pos 9 ∷ pos 4 ∷ negsuc 0 ∷ pos 7 ∷ []

sort_runs : sort numbers 4 ≡ some (negsuc 0 ∷ pos 4 ∷ pos 7 ∷ pos 9 ∷ [])
unfolding sort
sort_runs = refl

-- Two regions in order, 2 5 and 3 8, with a boundary to swap.
abbrev regions : List ℤ
regions = pos 2 ∷ pos 5 ∷ pos 3 ∷ pos 8 ∷ []

round_runs : round (params 2 4) numbers ≡ some (pos 4 ∷ negsuc 0 ∷ pos 9 ∷ pos 7 ∷ [], 1)
unfolding round params
round_runs = refl

merge_sort_runs :
    merge_sort true (some (pos 5)) 4 numbers 0 3 ≡ some (negsuc 0 ∷ pos 4 ∷ pos 7 ∷ pos 9 ∷ [])
unfolding merge_sort fetch temp_store
merge_sort_runs = refl

merge_sort_lem_example : Ordered 0 3 numbers (merge_sort true (some (pos 5)) 4 numbers 0 3)
merge_sort_lem_example = merge_sort_lem (pos 5) 4 numbers 0 3 (omega arith) (λ _. omega arith)

merge_sort_threads_lem_example :
    Ordered 0 3 numbers (merge_sort_threads true (some (pos 5)) 4 1 numbers 0 3)
merge_sort_threads_lem_example =
    merge_sort_threads_lem (pos 5) 4 1 numbers 0 3 (omega arith) (λ _. omega arith)

sort_file_runs : sort_file numbers ≡ some (negsuc 0 ∷ pos 4 ∷ pos 7 ∷ pos 9 ∷ [])
unfolding sort_file
sort_file_runs = refl

sort_file_lem_example :
    (w : List ℤ) × (sort_file numbers ≡ some w)
    × (length w ≡ length numbers)
    × ((z : ℤ) → count (eqb_ℤ z) w ≡ count (eqb_ℤ z) numbers)
    × ((i j : ℕ) → i ≤ j → j < length numbers → at w i ≤ℤ at w j)
sort_file_lem_example = sort_file_lem numbers

rounds_runs : rounds 6 (params 2 4) numbers ≡ some (negsuc 0 ∷ pos 4 ∷ pos 7 ∷ pos 9 ∷ [])
unfolding rounds params
rounds_runs = refl

merge_sort-overruns_example : merge_sort false (some (pos 5)) 4 numbers 0 3 ≡ none
merge_sort-overruns_example = merge_sort-overruns (some (pos 5)) 4 numbers 0 3 (omega arith)
