-- ===== src/Sorting/Barriers/Result.antt =====
-- The barriers of lab4.2.c: the last thread is alone, and the array is sorted when a thread has returned.
use mathlib.Core.Path.{subst}
use sdp_labs.Common.{
  ℕ, ◌-◌, ◌≤◌, ◌<◌, ◌≡◌, ◌≢◌, ◌∙◌, refl, some, List, arith, length, get_elem?, set,
  get_elem?-set_ne,
}
use sdp_labs.Common.Count.{count}
use sdp_labs.Common.Int.{ℤ, eqb_ℤ}
use sdp_labs.Sorting.Bubble.Sorted.{SortedIn}
use sdp_labs.Sorting.Regions.{Params, params}
use sdp_labs.Sorting.Regions.Round.{params-Chain}
use sdp_labs.Sorting.Barriers.{Phase, Shared, State, Run}
use sdp_labs.Sorting.Barriers.Places.{tally, tally-total, tally-pos, kind, shift}
use sdp_labs.Sorting.Barriers.Modes.{Mode, Good}
use sdp_labs.Sorting.Barriers.Order.{Ordered}
use sdp_labs.Sorting.Barriers.Safety.{Run-Inv, shown}

sorted_when_ended :
    (ps : List Params) (hi : ℕ) (v0 : List ℤ) (m : Mode) (s : Shared) (l : List Phase)
    → 0 < tally 9 l
    → Good (length ps) m s l
    → Ordered ps hi v0 m s l
    → SortedIn 0 hi s.v
sorted_when_ended ps hi v0 Mode.goes_on s l pos g o = o.2 (ground (arith, g, pos))
sorted_when_ended ps hi v0 _ s l pos g o = absurd (omega (arith, tally-total l))

all_at_first :
    (n : ℕ) (l : List Phase) (q : Phase)
    → length l ≡ n
    → tally 4 l ≡ n
    → 0 < tally (kind q) l
    → q ≡ Phase.at_first
all_at_first n l Phase.at_first e f pos = refl
all_at_first n l _ e f pos = absurd (omega (arith, tally-total l))

module _ (nthreads : ℕ) (v : List ℤ) (one : 1 ≤ nthreads) (many : nthreads ≤ length v) where
  -- For at least one thread and as many numbers as threads or more, and in whatever order the threads run:
  -- as soon as one of them has returned the array is sorted, and each value occurs as often as at first.
  pub ended-SortedIn :
      {k : ℕ} {s : State} (i : ℕ)
      → Run (params nthreads (length v)) v k s
      → get_elem? s.phases i ≡ some Phase.ended
      → SortedIn 0 (length v - 1) s.shared.v
        × (length s.shared.v ≡ length v)
        × ((x : ℤ) → count (eqb_ℤ x) s.shared.v ≡ count (eqb_ℤ x) v)
  ended-SortedIn {s = s} i r at =
      let ps = params nthreads (length v) in
      let (m, g, o) =
        Run-Inv ps (length v - 1) v (params-Chain nthreads (length v) one many) (omega arith) r in
      (
        sorted_when_ended ps (length v - 1) v m s.shared s.phases
            (tally-pos s.phases i Phase.ended at) g o,
        o.0.0,
        o.0.1,
      )

  -- For at least one thread and as many numbers as threads or more, and in whatever order the threads run:
  -- while a thread checks the boundaries, every other thread waits at the first barrier.
  pub checker_alone :
      {k : ℕ} {s : State} (i j : ℕ) (q : Phase)
      → Run (params nthreads (length v)) v k s
      → i ≢ j
      → get_elem? s.phases i ≡ some Phase.checking
      → get_elem? s.phases j ≡ some q
      → q ≡ Phase.at_first
  checker_alone {s = s} i j q r ne at at' =
      let ps = params nthreads (length v) in
      let c = params-Chain nthreads (length v) one many in
      let (m, g, o) = Run-Inv ps (length v - 1) v c (omega arith) r in
      let l' = set s.phases i Phase.at_first in
      let f = shift s.phases i Phase.checking Phase.at_first at in
      let mode =
        (shown ps (length v - 1) v c (omega arith) m s.shared s.phases g).0 (omega (arith, f)) in
      let g' = subst (λ x. Good (length ps) x s.shared s.phases) mode g in
      all_at_first (length ps) l' q (omega (arith, g', f)) (omega (arith, g', f))
        (tally-pos l' j q (get_elem?-set_ne s.phases Phase.at_first ne ∙ at'))
