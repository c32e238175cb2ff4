-- ===== src/Sorting/Regions/Rounds.antt =====
-- The threads of lab04/lab4.2.c stop, and then the array is sorted.
use mathlib.Core.Path.{subst}
use sdp_labs.Common.{
  ℕ, zero, suc, ◌-◌, ◌≤◌, ◌<◌, ◌≡◌, ◌≢◌, ◌∙◌, sym, ap, some, List, arith, length, ℕ_discrete,
}
use sdp_labs.Common.Count.{count}
use sdp_labs.Common.Int.{ℤ, eqb_ℤ}
use sdp_labs.Sorting.Bubble.Sorted.{SortedIn}
use sdp_labs.Sorting.Regions.{Params, params, round, rounds}
use sdp_labs.Sorting.Regions.Inversions.{inversions, round-inversions}
use sdp_labs.Sorting.Regions.Round.{round_lem}

rounds_steps :
    (fuel : ℕ) (ps : List Params) (a : List ℤ) {b : List ℤ} {n : ℕ}
    → round ps a ≡ some (b, n)
    → (n ≡ 0 → rounds (suc fuel) ps a ≡ some b)
      × (n ≢ 0 → rounds (suc fuel) ps a ≡ rounds fuel ps b)
unfolding rounds
rounds_steps fuel ps a e = ground (arith, e)

-- The loop of the threads on the whole array, for at least one thread and as many numbers as threads or
-- more. After at most as many rounds as the array has inversions, and one more, it ends: it has stayed in
-- the array, the array is sorted, and each value occurs as often as before.
pub rounds_lem :
    (fuel nthreads : ℕ) (a : List ℤ)
    → 1 ≤ nthreads
    → nthreads ≤ length a
    → inversions a < fuel
    → (b : List ℤ) × (rounds fuel (params nthreads (length a)) a ≡ some b)
      × (length b ≡ length a)
      × ((v : ℤ) → count (eqb_ℤ v) b ≡ count (eqb_ℤ v) a)
      × SortedIn 0 (length a - 1) b
rounds_lem zero nthreads a one many enough = absurd (omega arith)
rounds_lem (suc fuel) nthreads a one many enough =
    let ps = params nthreads (length a) in
    let (b, n, e, perm, stop) = round_lem nthreads a one many in
    let (size, fewer) = round-inversions ps a e in
    elim (ℕ_discrete n 0) [
      | yes none_made ↦ (b, (rounds_steps fuel ps a e).0 none_made, size, perm, stop none_made)
      | no some_made ↦
          let (c, f, size', perm', sorted) =
            rounds_lem fuel nthreads b one (omega (arith, many, size))
              (omega (arith, fewer, enough, some_made)) in
          (
            c,
            (rounds_steps fuel ps a e).1 some_made
                ∙ ap (λ k. rounds fuel (params nthreads k) b) (sym size)
                ∙ f,
            size' ∙ size,
            λ v. perm' v ∙ perm v,
            subst (λ k. SortedIn 0 (k - 1) c) size sorted,
          )
    ]
