-- ===== src/Sorting/Barriers.antt =====
-- lab04/lab4.2.c: `threadFunction` with its two barriers, by any number of threads, in any interleaving.
-- A call on a semaphore is a step, and so is a section under the mutex. So is `bubbleSort` on a region,
-- which no other thread touches meanwhile, and the loop over the boundaries, at which all others wait.
pub mod Places
pub mod Branches
pub mod Modes
pub mod Moves
pub mod Order
pub mod Safety
pub mod Result
pub mod Ending
pub mod Progress
pub mod Serial
mod Tests
use sdp_labs.Common.{
  ℕ, zero, suc, ◌+◌, ◌-◌, ◌≡◌, ◌==◌, Option, none, some, List, get_elem?, set, replicate, length,
  if◌then◌else◌, true, false,
}
use sdp_labs.Common.Int.{ℤ}
use sdp_labs.Sorting.Bubble.{bubble_sort, boundaries}
use sdp_labs.Sorting.Regions.{Params, extremes}

-- Where a thread is: before its sort; before `--runningThreadsSorting`; before the loop over the
-- boundaries; in the loop of `sem_post(&sem1)`, with calls to go; before `sem_wait(&sem1)`; before
-- `++runningThreadsSorting`; the same for sem2; before the test of `swapsCount`; after its return.
pub data Phase : Type 0 where
  sorting decreasing checking at_first increasing at_second testing ended : Phase
  first_posts second_posts : ℕ → Phase

-- The global variables.
pub record Shared : Type 0 where
  pub v : List ℤ
  pub running_threads_sorting : ℕ
  pub sem1 : ℕ
  pub sem2 : ℕ
  pub swaps_count : ℕ

pub record State : Type 0 where
  pub shared : Shared
  pub phases : List Phase

-- `sem_wait`; `none` while the thread waits.
abbrev pub sem_wait : ℕ → Option ℕ
sem_wait zero = none
sem_wait (suc n) = some n

module _ (params : List Params) where
  abbrev pub nthreads : ℕ
  nthreads = length params

  -- A step of the thread with the region `p`: `none` while it waits, after its return, and at an access
  -- out of the array.
  unfoldable pub thread_function : Params → Phase → Shared → Option (Shared × Phase)
  thread_function p Phase.sorting s = elim (bubble_sort s.v p.left p.right) [
    | none ↦ none
    | some b ↦ some (record s { v = b }, Phase.decreasing)
  ]
  thread_function p Phase.decreasing s =
      let k : ℕ = s.running_threads_sorting - 1 in
      some (
        record s { running_threads_sorting = k },
        if k == 0 then Phase.checking else Phase.at_first,
      )
  thread_function p Phase.checking s = elim (boundaries (extremes params) s.v 0) [
    | none ↦ none
    | some (b, swaps) ↦ some (record s { v = b; swaps_count = swaps }, Phase.first_posts nthreads)
  ]
  thread_function p (Phase.first_posts zero) s = some (s, Phase.at_first)
  thread_function p (Phase.first_posts (suc n)) s =
      some (record s { sem1 = s.sem1 + 1 }, Phase.first_posts n)
  thread_function p Phase.at_first s = elim (sem_wait s.sem1) [
    | none ↦ none
    | some n ↦ some (record s { sem1 = n }, Phase.increasing)
  ]
  thread_function p Phase.increasing s =
      let k : ℕ = s.running_threads_sorting + 1 in
      some (
        record s { running_threads_sorting = k },
        if k == nthreads then Phase.second_posts nthreads else Phase.at_second,
      )
  thread_function p (Phase.second_posts zero) s = some (s, Phase.at_second)
  thread_function p (Phase.second_posts (suc n)) s =
      some (record s { sem2 = s.sem2 + 1 }, Phase.second_posts n)
  thread_function p Phase.at_second s = elim (sem_wait s.sem2) [
    | none ↦ none
    | some n ↦ some (record s { sem2 = n }, Phase.testing)
  ]
  thread_function p Phase.testing s =
      some (s, if s.swaps_count == 0 then Phase.ended else Phase.sorting)
  thread_function p Phase.ended s = none

  pub data Step (s : State) : State → Type 0 where
    steps :
        (i : ℕ) (p : Params) (q r : Phase) (d : Shared)
        → get_elem? params i ≡ some p
        → get_elem? s.phases i ≡ some q
        → thread_function p q s.shared ≡ some (d, r)
        → Step s (record { shared = d; phases = set s.phases i r })

  -- `inefficientSort` has created the threads.
  abbrev pub started : List ℤ → State
  started v = record {
    shared = record {
      v = v;
      running_threads_sorting = nthreads;
      sem1 = 0;
      sem2 = 0;
      swaps_count = 0;
    };
    phases = replicate nthreads Phase.sorting;
  }

  -- `Run n v s`: `n` steps lead from the start with the array `v` to `s`.
  pub data Run (v : List ℤ) : ℕ → State → Type 0 where
    start : Run v 0 (started v)
    later : {n : ℕ} {s t : State} → Run v n s → Step s t → Run v (suc n) t
