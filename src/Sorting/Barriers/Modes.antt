-- ===== src/Sorting/Barriers/Modes.antt =====
-- The modes that the threads of lab4.2.c go through together, and what holds of their numbers.
use sdp_labs.Common.{ℕ, ◌+◌, ◌<◌, ◌≡◌, ◌≢◌, List, [], ◌∷◌, length}
use sdp_labs.Common.Sum.{sum}
use sdp_labs.Sorting.Barriers.{Phase, Shared}
use sdp_labs.Sorting.Barriers.Places.{tally, tallies, posts1, posts2}

-- The first sort; the last thread checks the boundaries; all pass the first barrier; all pass the second one
-- and sort again or end.
pub data Mode : Type 0 where
  first checks passes goes_on : Mode

abbrev Sems : ℕ → ℕ → Shared → List Phase → Type 0
Sems a b s l = (s.sem1 + sum posts1 l ≡ a) × (s.sem2 + sum posts2 l ≡ b)

module _ (n : ℕ) where
  -- `running_threads_sorting` counts those that have not come to the first barrier, and those behind
  -- the second count; the calls of a semaphore that are made or to be made are as many as will wait.
  abbrev pub Holds : Mode → Shared → List Phase → Type 0
  Holds Mode.first s l =
      Sems 0 0 s l
      × (s.running_threads_sorting ≡ tallies (0 ∷ 1 ∷ []) l)
      × (tallies (0 ∷ 1 ∷ 4 ∷ []) l ≡ n)
      × (0 < s.running_threads_sorting)
  Holds Mode.checks s l =
      Sems 0 0 s l × (s.running_threads_sorting ≡ 0) × (tally 2 l ≡ 1) × (tally 4 l + 1 ≡ n)
  Holds Mode.passes s l =
      Sems (tallies (3 ∷ 4 ∷ []) l) 0 s l
      × (s.running_threads_sorting ≡ tally 7 l)
      × (tallies (3 ∷ 4 ∷ 5 ∷ 7 ∷ []) l ≡ n)
      × (tally 7 l < n)
  Holds Mode.goes_on s l =
      Sems 0 (tallies (6 ∷ 7 ∷ []) l) s l
      × (s.running_threads_sorting ≡ tallies (0 ∷ 1 ∷ 6 ∷ 7 ∷ 8 ∷ 9 ∷ []) l)
      × (tallies (0 ∷ 1 ∷ 4 ∷ 6 ∷ 7 ∷ 8 ∷ 9 ∷ []) l ≡ n)
      × (0 < s.running_threads_sorting)
      × (s.swaps_count ≡ 0 → tallies (0 ∷ 1 ∷ 4 ∷ []) l ≡ 0)
      × (s.swaps_count ≢ 0 → tally 9 l ≡ 0)

  abbrev pub Good : Mode → Shared → List Phase → Type 0
  Good m s l = (length l ≡ n) × Holds m s l

  abbrev pub Next : Shared → List Phase → Type 0
  Next s l = (m : Mode) × Good m s l
