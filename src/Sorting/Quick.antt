-- ===== src/Sorting/Quick.antt =====
-- The quicksort of lab04/qsort.c. The two threads of a call work on disjoint regions and are joined, so
-- they run one after the other here. `none` is an access out of the array, or fuel that is too short.
pub mod Shuffled
pub mod Scans
pub mod Partition
pub mod Sorted
use sdp_labs.Common.{
  ℕ, zero, suc, ◌+◌, ◌-◌, Option, none, some, List, get_elem?, get_or, set, ltb, length, true,
  false,
}
use sdp_labs.Common.Int.{ℤ, pos, ltb_ℤ}

-- `while (v[--j] > x);`
unfoldable pub scan_down : List ℤ → ℤ → ℕ → Option ℕ
scan_down v x zero = none
scan_down v x (suc j) = elim (get_elem? v j) [
  | none ↦ none
  | some y ↦ elim (ltb_ℤ x y) [ true ↦ scan_down v x j | false ↦ some j ]
]

-- `while (v[++i] < x);` where `i` is one more than in C, with `rounds` places to look at.
unfoldable pub scan_up : ℕ → List ℤ → ℤ → ℕ → Option ℕ
scan_up zero v x i = none
scan_up (suc rounds) v x i = elim (get_elem? v i) [
  | none ↦ none
  | some y ↦ elim (ltb_ℤ y x) [ true ↦ scan_up rounds v x (i + 1) | false ↦ some i ]
]

-- `tmp = v[i]; v[i] = v[j]; v[j] = tmp;`
abbrev pub swap : List ℤ → ℕ → ℕ → List ℤ
swap v i j = set (set v i (get_or v j (pos 0))) j (get_or v i (pos 0))

-- `while (i < j)`, where `i` is one more than in C: the last `j`, and the array.
unfoldable pub partition_loop : ℕ → List ℤ → ℤ → ℕ → ℕ → Option (ℕ × List ℤ)
unfolding scan_down scan_up
partition_loop zero v x i j = none
partition_loop (suc fuel) v x i j = elim (scan_down v x j) [
  | none ↦ none
  | some down ↦ elim (scan_up (length v) v x i) [
    | none ↦ none
    | some up ↦ elim (ltb up down) [
      | true ↦ partition_loop fuel (swap v up down) x (up + 1) down
      | false ↦ some (down, v)
    ]
  ]
]

-- `j` falls in every round, from right + 1 on.
unfoldable pub qsorter : ℕ → List ℤ → ℕ → ℕ → Option (List ℤ)
unfolding partition_loop
qsorter zero v left right = none
qsorter (suc fuel) v left right = elim (ltb left right) [
  | false ↦ some v
  | true ↦ elim (get_elem? v left) [
    | none ↦ none
    | some x ↦ elim (partition_loop (right + 2) v x left (right + 1)) [
      | none ↦ none
      | some (j, w) ↦ elim (qsorter fuel w left j) [
        | none ↦ none
        | some u ↦ qsorter fuel u (j + 1) right
      ]
    ]
  ]
]

-- `main`: all `n` numbers. With none, `right` is -1 in C and 0 here: nothing is done.
unfoldable pub sort_file : List ℤ → Option (List ℤ)
unfolding qsorter
sort_file v = qsorter (length v + 1) v 0 (length v - 1)
