-- ===== src/Sorting/Barriers/Tests.antt =====
-- Two threads of lab4.2.c on an array of two numbers, and the theorems there.
use mathlib.Core.Path.{subst}
use sdp_labs.Common.{
  ℕ, ◌+◌, ◌*◌, ◌≤◌, ◌<◌, ◌≡◌, refl, ap₂, ◌⊎◌, inl, inr, Option, none, some, some_inj, Option-cases,
  List, [], ◌∷◌, get_elem?, set, arith, length,
}
use sdp_labs.Common.Count.{count}
use sdp_labs.Common.Int.{ℤ, pos, eqb_ℤ}
use sdp_labs.Sorting.Bubble.{bubble_sort, boundaries}
use sdp_labs.Sorting.Bubble.Sorted.{SortedIn}
use sdp_labs.Sorting.Regions.{Params, params, rounds}
use sdp_labs.Sorting.Regions.Inversions.{inversions}
use sdp_labs.Sorting.Barriers.{Phase, State, thread_function, Step, Run, started}
use sdp_labs.Sorting.Barriers.Ending.{round_steps}
use sdp_labs.Sorting.Barriers.Progress.{CanStep, AllEnded, threads_end}
use sdp_labs.Sorting.Barriers.Serial.{ended-rounds}
use sdp_labs.Sorting.Barriers.Result.{ended-SortedIn, checker_alone}

abbrev two : List ℤ
two = pos 9 ∷ pos 4 ∷ []

abbrev ps : List Params
ps = params 2 2

-- A run by the numbers of the threads.
unfoldable turn : ℕ → State → Option State
turn i s = elim (get_elem? ps i) [
  | none ↦ none
  | some p ↦ elim (get_elem? s.phases i) [
    | none ↦ none
    | some q ↦ elim (thread_function ps p q s.shared) [
      | none ↦ none
      | some (d, r) ↦ some (record { shared = d; phases = set s.phases i r })
    ]
  ]
]

unfoldable play : List ℕ → State → Option State
unfolding turn
play [] s = some s
play (i ∷ is) s = elim (turn i s) [ none ↦ none | some t ↦ play is t ]

turn-Step : (i : ℕ) (s t : State) → turn i s ≡ some t → Step ps s t
unfolding turn
turn-Step i s t e = elim (Option-cases (get_elem? ps i)) [
  | inl no_p ↦ absurd (ground (arith, no_p, e))
  | inr (p, gp) ↦ elim (Option-cases (get_elem? s.phases i)) [
    | inl no_q ↦ absurd (ground (arith, gp, no_q, e))
    | inr (q, gq) ↦ elim (Option-cases (thread_function ps p q s.shared)) [
      | inl waits ↦ absurd (ground (arith, gp, gq, waits, e))
      | inr ((d, r), go) ↦
          let same : record { shared = d; phases = set s.phases i r } ≡ t =
            some_inj (ground (arith, gp, gq, go, e)) in
          subst (λ (x : State). Step ps s x) same (Step.steps i p q r d gp gq go)
    ]
  ]
]

play-Run :
    (is : List ℕ) {n : ℕ} (s t : State)
    → Run ps two n s
    → play is s ≡ some t
    → Run ps two (n + length is) t
unfolding play
play-Run [] {n} s t r e =
    subst (λ (x : State × ℕ). Run ps two x.1 x.0) (ap₂ (λ x k. (x, k)) (some_inj e) (omega arith)) r
play-Run (i ∷ is) {n} s t r e = elim (Option-cases (turn i s)) [
  | inl stuck ↦ absurd (ground (arith, stuck, e))
  | inr (u, go) ↦
      subst (λ k. Run ps two k t) (omega arith)
        (play-Run is u t (Run.later r (turn-Step i s u go)) (ground (arith, go, e)))
]

-- Both sort, and thread 1 comes last.
abbrev to_check : List ℕ
to_check = 0 ∷ 0 ∷ 1 ∷ 1 ∷ []

checks :
    (s : State) × (play to_check (started ps two) ≡ some s)
    × (get_elem? s.phases 1 ≡ some Phase.checking)
    × (get_elem? s.phases 0 ≡ some Phase.at_first)
unfolding play turn params thread_function bubble_sort boundaries
checks = (_, refl, refl, refl)

checker_alone_example : Phase.at_first ≡ Phase.at_first
checker_alone_example =
    checker_alone 2 two (omega arith) (omega arith) 1 0 Phase.at_first
      (play-Run to_check (started ps two) checks.0 Run.start checks.1) (omega arith) checks.2
      checks.3

-- Thread 1 swaps at the boundary. Thread 0 sorts for the second time before thread 1 has made its test,
-- is the last of the second round, and returns while thread 1 is before the second barrier.
abbrev schedule : List ℕ
schedule =
    0 ∷ 0 ∷ 1 ∷ 1 ∷ 1 ∷ 1 ∷ 1 ∷ 1 ∷ 1 ∷ 0 ∷ 0 ∷ 1 ∷ 1 ∷ 1 ∷ 1 ∷ 0 ∷ 0 ∷ 0 ∷ 1 ∷ 1 ∷ 1 ∷ 1 ∷ 0 ∷ 0
    ∷ 0 ∷ 0 ∷ 0 ∷ 0 ∷ 1 ∷ 0 ∷ 1 ∷ 1 ∷ 1 ∷ 1 ∷ 0 ∷ 0 ∷ []

played :
    (s : State) × (play schedule (started ps two) ≡ some s)
    × (get_elem? s.phases 0 ≡ some Phase.ended)
    × (s.shared.v ≡ pos 4 ∷ pos 9 ∷ [])
unfolding play turn params thread_function bubble_sort boundaries
played = (_, refl, refl, refl)

ended-SortedIn_example :
    SortedIn 0 1 played.0.shared.v
    × (length played.0.shared.v ≡ 2)
    × ((x : ℤ) → count (eqb_ℤ x) played.0.shared.v ≡ count (eqb_ℤ x) two)
ended-SortedIn_example =
    ended-SortedIn 2 two (omega arith) (omega arith) 0
      (play-Run schedule (started ps two) played.0 Run.start played.1) played.2

threads_end_example :
    (CanStep (params 2 2) played.0 ⊎ AllEnded played.0)
    × (36 ≤ (round_steps 2 + 1) * inversions two + round_steps 2)
threads_end_example =
    threads_end 2 two (omega arith) (omega arith)
      (play-Run schedule (started ps two) played.0 Run.start played.1)

-- It has one.
few_inversions : inversions two < 2
unfolding inversions count
few_inversions = omega arith

ended-rounds_example : rounds 2 (params 2 2) two ≡ some played.0.shared.v
ended-rounds_example =
    ended-rounds 2 two (omega arith) (omega arith) 0 2
      (play-Run schedule (started ps two) played.0 Run.start played.1) played.2 few_inversions
