-- ===== src/Sorting/Barriers/Branches.antt =====
-- The branches of `threadFunction` of lab4.2.c, a constructor for each.
use mathlib.Core.Path.{subst}
use sdp_labs.Common.{
  ℕ, zero, suc, ◌+◌, ◌-◌, ◌≡◌, ◌==◌, inl, inr, Bool-cases, Option-cases, true, false, Option, some,
  some_inj, arith, length, List,
}
use sdp_labs.Common.Int.{ℤ}
use sdp_labs.Sorting.Bubble.{bubble_sort, boundaries}
use sdp_labs.Sorting.Regions.{Params, extremes}
use sdp_labs.Sorting.Barriers.{Phase, Shared, sem_wait, thread_function}
use sdp_labs.Sorting.Barriers.Places.{sem_wait-suc}

module _ (ps : List Params) (p : Params) (s : Shared) where
  pub data Branch : Phase → Shared → Phase → Type 0 where
    sorts :
        {b : List ℤ}
        → bubble_sort s.v p.left p.right ≡ some b
        → Branch Phase.sorting (record s { v = b }) Phase.decreasing
    comes :
        (s.running_threads_sorting - 1 == 0) ≡ false
        → Branch Phase.decreasing
            (record s { running_threads_sorting = s.running_threads_sorting - 1 })
            Phase.at_first
    comes_last :
        (s.running_threads_sorting - 1 == 0) ≡ true
        → Branch Phase.decreasing
            (record s { running_threads_sorting = s.running_threads_sorting - 1 })
            Phase.checking
    checks :
        {b : List ℤ} {k : ℕ}
        → boundaries (extremes ps) s.v 0 ≡ some (b, k)
        → Branch Phase.checking
            (record s { v = b; swaps_count = k })
            (Phase.first_posts (length ps))
    posts1 :
        {k : ℕ}
        → Branch (Phase.first_posts (suc k)) (record s { sem1 = s.sem1 + 1 }) (Phase.first_posts k)
    posted1 : Branch (Phase.first_posts 0) s Phase.at_first
    waits1 :
        {k : ℕ} → s.sem1 ≡ suc k → Branch Phase.at_first (record s { sem1 = k }) Phase.increasing
    goes :
        (s.running_threads_sorting + 1 == length ps) ≡ false
        → Branch Phase.increasing
            (record s { running_threads_sorting = s.running_threads_sorting + 1 })
            Phase.at_second
    goes_last :
        (s.running_threads_sorting + 1 == length ps) ≡ true
        → Branch Phase.increasing
            (record s { running_threads_sorting = s.running_threads_sorting + 1 })
            (Phase.second_posts (length ps))
    posts2 :
        {k : ℕ}
        → Branch
            (Phase.second_posts (suc k))
            (record s { sem2 = s.sem2 + 1 })
            (Phase.second_posts k)
    posted2 : Branch (Phase.second_posts 0) s Phase.at_second
    waits2 : {k : ℕ} → s.sem2 ≡ suc k → Branch Phase.at_second (record s { sem2 = k }) Phase.testing
    repeats : (s.swaps_count == 0) ≡ false → Branch Phase.testing s Phase.sorting
    ends : (s.swaps_count == 0) ≡ true → Branch Phase.testing s Phase.ended

  taken :
      {q r r' : Phase} {d d' : Shared}
      → Branch q d r
      → ◌≡◌ {A = Option (Shared × Phase)} (some (d, r)) (some (d', r'))
      → Branch q d' r'
  taken {q = q} b e = subst (λ (t : Shared × Phase). Branch q t.0 t.1) (some_inj e) b

  -- Each step is one of them.
  pub thread_function-Branch :
      (q : Phase) {d : Shared} {r : Phase} → thread_function ps p q s ≡ some (d, r) → Branch q d r
  unfolding thread_function
  thread_function-Branch Phase.sorting e = elim (Option-cases (bubble_sort s.v p.left p.right)) [
    | inl fault ↦ absurd (ground (arith, fault, e))
    | inr (b, found) ↦ taken (Branch.sorts found) (ground (arith, found, e))
  ]
  thread_function-Branch Phase.decreasing e =
      elim (Bool-cases (s.running_threads_sorting - 1 == 0)) [
        | inl t ↦ taken (Branch.comes_last t) (ground (arith, t, e))
        | inr t ↦ taken (Branch.comes t) (ground (arith, t, e))
      ]
  thread_function-Branch Phase.checking e = elim (Option-cases (boundaries (extremes ps) s.v 0)) [
    | inl fault ↦ absurd (ground (arith, fault, e))
    | inr ((b, k), found) ↦ taken (Branch.checks found) (ground (arith, found, e))
  ]
  thread_function-Branch (Phase.first_posts zero) e = taken Branch.posted1 e
  thread_function-Branch (Phase.first_posts (suc k)) e = taken Branch.posts1 e
  thread_function-Branch Phase.at_first e = elim (Option-cases (sem_wait s.sem1)) [
    | inl waits ↦ absurd (ground (arith, waits, e))
    | inr (k, t) ↦ taken (Branch.waits1 (sem_wait-suc s.sem1 k t)) (ground (arith, t, e))
  ]
  thread_function-Branch Phase.increasing e =
      elim (Bool-cases (s.running_threads_sorting + 1 == length ps)) [
        | inl t ↦ taken (Branch.goes_last t) (ground (arith, t, e))
        | inr t ↦ taken (Branch.goes t) (ground (arith, t, e))
      ]
  thread_function-Branch (Phase.second_posts zero) e = taken Branch.posted2 e
  thread_function-Branch (Phase.second_posts (suc k)) e = taken Branch.posts2 e
  thread_function-Branch Phase.at_second e = elim (Option-cases (sem_wait s.sem2)) [
    | inl waits ↦ absurd (ground (arith, waits, e))
    | inr (k, t) ↦ taken (Branch.waits2 (sem_wait-suc s.sem2 k t)) (ground (arith, t, e))
  ]
  thread_function-Branch Phase.testing e = elim (Bool-cases (s.swaps_count == 0)) [
    | inl t ↦ taken (Branch.ends t) (ground (arith, t, e))
    | inr t ↦ taken (Branch.repeats t) (ground (arith, t, e))
  ]
  thread_function-Branch Phase.ended e = absurd (ground (arith, e))
