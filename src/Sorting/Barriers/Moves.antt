-- ===== src/Sorting/Barriers/Moves.antt =====
-- Each step of a thread of lab4.2.c keeps what holds in the modes.
use sdp_labs.Common.{ℕ, suc, ◌+◌, ◌-◌, ◌≡◌, ◌==◌, true, false, List, arith}
use sdp_labs.Common.Int.{ℤ}
use sdp_labs.Sorting.Barriers.{Phase, Shared}
use sdp_labs.Sorting.Barriers.Places.{tally-total, Shift}
use sdp_labs.Sorting.Barriers.Modes.{Mode, Good}

-- A thread that moves: `l'` are the phases after it.
module _ (n : ℕ) (s : Shared) (l l' : List Phase) where
  pub sort-Next :
      (m : Mode) (b : List ℤ)
      → Good n m s l
      → Shift Phase.sorting Phase.decreasing l l'
      → Good n m (record s { v = b }) l'
  sort-Next Mode.first b h f = ground (arith, tally-total l)
  sort-Next Mode.checks b h f = absurd (omega (arith, tally-total l))
  sort-Next Mode.passes b h f = absurd (omega (arith, tally-total l))
  sort-Next Mode.goes_on b h f = ground (arith, tally-total l)

  pub decrease-Next :
      (m : Mode)
      → Good n m s l
      → (s.running_threads_sorting - 1 == 0) ≡ false
      → Shift Phase.decreasing Phase.at_first l l'
      → Good n m (record s { running_threads_sorting = s.running_threads_sorting - 1 }) l'
  decrease-Next Mode.first h e f = ground (arith, tally-total l)
  decrease-Next Mode.checks h e f = absurd (omega (arith, tally-total l))
  decrease-Next Mode.passes h e f = absurd (omega (arith, tally-total l))
  decrease-Next Mode.goes_on h e f = ground (arith, tally-total l)

  pub last_decrease-Next :
      (m : Mode)
      → Good n m s l
      → (s.running_threads_sorting - 1 == 0) ≡ true
      → Shift Phase.decreasing Phase.checking l l'
      → Good n Mode.checks (record s { running_threads_sorting = s.running_threads_sorting - 1 }) l'
  last_decrease-Next Mode.first h e f = ground (arith, tally-total l)
  last_decrease-Next Mode.checks h e f = absurd (omega (arith, tally-total l))
  last_decrease-Next Mode.passes h e f = absurd (omega (arith, tally-total l))
  last_decrease-Next Mode.goes_on h e f = ground (arith, tally-total l)

  pub check-Next :
      (m : Mode) (b : List ℤ) (k : ℕ)
      → Good n m s l
      → Shift Phase.checking (Phase.first_posts n) l l'
      → Good n Mode.passes (record s { v = b; swaps_count = k }) l'
  check-Next Mode.checks b k h f = ground (arith, tally-total l, tally-total l')
  check-Next _ b k h f = absurd (omega (arith, tally-total l))

  pub post1-Next :
      (m : Mode) (k : ℕ)
      → Good n m s l
      → Shift (Phase.first_posts (suc k)) (Phase.first_posts k) l l'
      → Good n m (record s { sem1 = s.sem1 + 1 }) l'
  post1-Next Mode.passes k h f = ground arith
  post1-Next _ k h f = absurd (omega (arith, tally-total l))

  pub posted1-Next :
      (m : Mode) → Good n m s l → Shift (Phase.first_posts 0) Phase.at_first l l' → Good n m s l'
  posted1-Next Mode.passes h f = ground arith
  posted1-Next _ h f = absurd (omega (arith, tally-total l))

  pub wait1-Next :
      (m : Mode) (k : ℕ)
      → Good n m s l
      → s.sem1 ≡ suc k
      → Shift Phase.at_first Phase.increasing l l'
      → Good n m (record s { sem1 = k }) l'
  wait1-Next Mode.passes k h e f = ground arith
  wait1-Next _ k h e f = absurd (omega arith)

  pub increase-Next :
      (m : Mode)
      → Good n m s l
      → (s.running_threads_sorting + 1 == n) ≡ false
      → Shift Phase.increasing Phase.at_second l l'
      → Good n m (record s { running_threads_sorting = s.running_threads_sorting + 1 }) l'
  increase-Next Mode.passes h e f = ground (arith, tally-total l)
  increase-Next _ h e f = absurd (omega (arith, tally-total l))

  pub last_increase-Next :
      (m : Mode)
      → Good n m s l
      → (s.running_threads_sorting + 1 == n) ≡ true
      → Shift Phase.increasing (Phase.second_posts n) l l'
      → Good n Mode.goes_on
          (record s { running_threads_sorting = s.running_threads_sorting + 1 })
          l'
  last_increase-Next Mode.passes h e f = ground (arith, tally-total l, tally-total l')
  last_increase-Next _ h e f = absurd (omega (arith, tally-total l))

  pub post2-Next :
      (m : Mode) (k : ℕ)
      → Good n m s l
      → Shift (Phase.second_posts (suc k)) (Phase.second_posts k) l l'
      → Good n m (record s { sem2 = s.sem2 + 1 }) l'
  post2-Next Mode.goes_on k h f = ground arith
  post2-Next _ k h f = absurd (omega (arith, tally-total l))

  pub posted2-Next :
      (m : Mode) → Good n m s l → Shift (Phase.second_posts 0) Phase.at_second l l' → Good n m s l'
  posted2-Next Mode.goes_on h f = ground arith
  posted2-Next _ h f = absurd (omega (arith, tally-total l))

  pub wait2-Next :
      (m : Mode) (k : ℕ)
      → Good n m s l
      → s.sem2 ≡ suc k
      → Shift Phase.at_second Phase.testing l l'
      → Good n m (record s { sem2 = k }) l'
  wait2-Next Mode.goes_on k h e f = ground arith
  wait2-Next _ k h e f = absurd (omega arith)

  pub again-Next :
      (m : Mode)
      → Good n m s l
      → (s.swaps_count == 0) ≡ false
      → Shift Phase.testing Phase.sorting l l'
      → Good n m s l'
  again-Next Mode.goes_on h e f = ground arith
  again-Next _ h e f = absurd (omega (arith, tally-total l))

  pub end-Next :
      (m : Mode)
      → Good n m s l
      → (s.swaps_count == 0) ≡ true
      → Shift Phase.testing Phase.ended l l'
      → Good n m s l'
  end-Next Mode.goes_on h e f = ground arith
  end-Next _ h e f = absurd (omega (arith, tally-total l))
