-- ===== src/Sorting/Barriers/Ending.antt =====
-- How many steps the threads of lab4.2.c have to go: each of them reduces a number.
use native.Mathlib.Nat.{mul_comm}
use sdp_labs.Common.{
  ℕ, zero, suc, ◌+◌, ◌*◌, ◌≤◌, ◌<◌, ◌≡◌, ap, refl, ◌==◌, true, false, some, List, [], ◌∷◌, arith,
  length, replicate, get_elem?, set,
}
use sdp_labs.Common.Sum.{sum, sum-set}
use sdp_labs.Common.Int.{ℤ}
use sdp_labs.Sorting.Regions.{Params, extremes}
use sdp_labs.Sorting.Regions.Inversions.{inversions, bubble-inversions, boundaries-inversions}
use sdp_labs.Sorting.Regions.Round.{Chain}
use sdp_labs.Sorting.Barriers.{Phase, Shared, State, Step, Run}
use sdp_labs.Sorting.Barriers.Safety.{Run-Inv}
use sdp_labs.Sorting.Barriers.Places.{tallies, tally-total, Shift, shift, posts1}
use sdp_labs.Sorting.Barriers.Branches.{Branch, thread_function-Branch}
use sdp_labs.Sorting.Barriers.Modes.{Mode, Good}

-- The steps of a round, for `n` threads.
abbrev effort : ℕ → Phase → ℕ
effort n Phase.sorting = 2 * n + 9
effort n Phase.decreasing = 2 * n + 8
effort n Phase.checking = 2 * n + 7
effort n (Phase.first_posts k) = n + 6 + k
effort n Phase.at_first = n + 5
effort n Phase.increasing = n + 4
effort n (Phase.second_posts k) = 3 + k
effort n Phase.at_second = 2
effort n Phase.testing = 1
effort n Phase.ended = 0

-- Those that are on their way to the test of `swapsCount`.
abbrev under_way : Shared → List Phase → ℕ
under_way s l = s.sem1 + sum posts1 l + tallies (5 ∷ 6 ∷ 7 ∷ 8 ∷ []) l

abbrev pub round_steps : ℕ → ℕ
round_steps n = n * (2 * n + 9)

-- They sort again if there was a swap; each swap takes an inversion away.
abbrev again : ℕ → Shared → List Phase → ℕ
again n s l = elim (s.swaps_count == 0) [ true ↦ 0 | false ↦ (2 * n + 9) * under_way s l ]

abbrev pub steps_left : ℕ → Shared → List Phase → ℕ
steps_left n s l = (round_steps n + 1) * inversions s.v + again n s l + sum (effort n) l

again-same :
    (n : ℕ) (s s' : Shared) (l l' : List Phase)
    → s'.swaps_count ≡ s.swaps_count
    → under_way s' l' ≡ under_way s l
    → again n s' l' ≡ again n s l
again-same n s s' l l' e f = ground (arith, e, ap (λ x. (2 * n + 9) * x) f)

mul_le : (a b c : ℕ) → b ≤ c → a * b ≤ a * c
mul_le zero b c h = omega arith
mul_le (suc a) b c h = omega (arith, mul_le a b c h)

mul_more : (a b c : ℕ) → b < c → a * b + a ≤ a * c
mul_more zero b c h = omega arith
mul_more (suc a) b c h = omega (arith, mul_more a b c h)

module _ (n : ℕ) (s s' : Shared) (l l' : List Phase) (i : ℕ) (q r : Phase) (f : Shift q r l l')
    (moved : sum (effort n) l' + effort n q ≡ sum (effort n) l + effort n r) where
  -- A step that makes neither a swap nor a test.
  plain_step :
      effort n r < effort n q
      → inversions s'.v ≤ inversions s.v
      → s'.swaps_count ≡ s.swaps_count
      → under_way s' l' ≡ under_way s l
      → steps_left n s' l' < steps_left n s l
  plain_step less fewer same way = omega (
    arith,
    moved,
    less,
    again-same n s s' l l' same way,
    mul_le (round_steps n + 1) (inversions s'.v) (inversions s.v) fewer,
  )

-- The step of the last thread: with `k` swaps, as many inversions are gone.
check_step :
    (n : ℕ) (m : Mode) (s : Shared) (l l' : List Phase) (b : List ℤ) (k : ℕ)
    → Good n m s l
    → Shift Phase.checking (Phase.first_posts n) l l'
    → sum (effort n) l' + effort n Phase.checking
      ≡ sum (effort n) l + effort n (Phase.first_posts n)
    → inversions b + k ≡ inversions s.v
    → steps_left n (record s { v = b; swaps_count = k }) l' < steps_left n s l
check_step n Mode.checks s l l' b zero g f moved fewer =
    let same : inversions b ≡ inversions s.v = omega (arith, fewer) in
    omega (arith, moved, ap (λ x. (round_steps n + 1) * x) same)
check_step n Mode.checks s l l' b (suc k) g f moved fewer =
    let way : under_way (record s { v = b; swaps_count = suc k }) l' ≡ n =
      omega (arith, g, f, tally-total l) in
    let more : again n (record s { v = b; swaps_count = suc k }) l' ≡ (2 * n + 9) * n =
      ground (arith, ap (λ x. (2 * n + 9) * x) way) in
    omega (
      arith,
      moved,
      more,
      mul_comm n (2 * n + 9),
      mul_more (round_steps n + 1) (inversions b) (inversions s.v) (omega (arith, fewer)),
    )
check_step n _ s l l' b k g f moved fewer = absurd (omega (arith, tally-total l))

again_step :
    (n : ℕ) (s : Shared) (l l' : List Phase)
    → (s.swaps_count == 0) ≡ false
    → Shift Phase.testing Phase.sorting l l'
    → sum (effort n) l' + effort n Phase.testing ≡ sum (effort n) l + effort n Phase.sorting
    → steps_left n s l' < steps_left n s l
again_step n s l l' t f moved =
    let before : again n s l ≡ (2 * n + 9) * under_way s l = ground (arith, t) in
    let after : again n s l' ≡ (2 * n + 9) * under_way s l' = ground (arith, t) in
    omega (
      arith,
      moved,
      before,
      after,
      mul_more (2 * n + 9) (under_way s l') (under_way s l) (omega (arith, f)),
    )

end_step :
    (n : ℕ) (s : Shared) (l l' : List Phase)
    → (s.swaps_count == 0) ≡ true
    → sum (effort n) l' + effort n Phase.testing ≡ sum (effort n) l + effort n Phase.ended
    → steps_left n s l' < steps_left n s l
end_step n s l l' t moved =
    let before : again n s l ≡ 0 = ground (arith, t) in
    let after : again n s l' ≡ 0 = ground (arith, t) in omega (arith, moved, before, after)

module _ (ps : List Params) (i : ℕ) (p : Params) (m : Mode) (s : Shared) (l : List Phase) where
  plain :
      (a : Shared) (q b : Phase)
      → get_elem? l i ≡ some q
      → effort (length ps) b < effort (length ps) q
      → inversions a.v ≤ inversions s.v
      → a.swaps_count ≡ s.swaps_count
      → under_way a (set l i b) ≡ under_way s l
      → steps_left (length ps) a (set l i b) < steps_left (length ps) s l
  plain a q b at less fewer same way =
      plain_step (length ps) s a l (set l i b) i q b (shift l i q b at)
        (sum-set (effort (length ps)) l i q b at) less fewer same way

  -- Every step leaves less to do.
  pub Branch-shrinks :
      {q r : Phase} {d : Shared}
      → Good (length ps) m s l
      → get_elem? l i ≡ some q
      → Branch ps p s q d r
      → steps_left (length ps) d (set l i r) < steps_left (length ps) s l
  Branch-shrinks g at (Branch.sorts {b = b} found) =
      plain (record s { v = b }) Phase.sorting Phase.decreasing at (omega arith)
        (bubble-inversions s.v p.left p.right found).1 refl
        (omega (arith, shift l i Phase.sorting Phase.decreasing at))
  Branch-shrinks {d = d} g at (Branch.comes t) =
      plain d Phase.decreasing Phase.at_first at (omega arith) (omega arith) refl
        (omega (arith, shift l i Phase.decreasing Phase.at_first at))
  Branch-shrinks {d = d} g at (Branch.comes_last t) =
      plain d Phase.decreasing Phase.checking at (omega arith) (omega arith) refl
        (omega (arith, shift l i Phase.decreasing Phase.checking at))
  Branch-shrinks g at (Branch.checks {b = b} {k = k} found) =
      let next = Phase.first_posts (length ps) in
      check_step (length ps) m s l (set l i next) b k g (shift l i Phase.checking next at)
        (sum-set (effort (length ps)) l i Phase.checking next at)
        (omega (arith, (boundaries-inversions (extremes ps) s.v 0 found).1))
  Branch-shrinks g at (Branch.posted1) =
      plain s (Phase.first_posts 0) Phase.at_first at (omega arith) (omega arith) refl
        (omega (arith, shift l i (Phase.first_posts 0) Phase.at_first at))
  Branch-shrinks {d = d} g at (Branch.posts1 {k = k}) =
      plain d (Phase.first_posts (suc k)) (Phase.first_posts k) at (omega arith) (omega arith) refl
        (omega (arith, shift l i (Phase.first_posts (suc k)) (Phase.first_posts k) at))
  Branch-shrinks {d = d} g at (Branch.waits1 e) =
      plain d Phase.at_first Phase.increasing at (omega arith) (omega arith) refl
        (omega (arith, e, shift l i Phase.at_first Phase.increasing at))
  Branch-shrinks {d = d} g at (Branch.goes t) =
      plain d Phase.increasing Phase.at_second at (omega arith) (omega arith) refl
        (omega (arith, shift l i Phase.increasing Phase.at_second at))
  Branch-shrinks {d = d} g at (Branch.goes_last t) =
      plain d Phase.increasing (Phase.second_posts (length ps)) at (omega arith) (omega arith) refl
        (omega (arith, shift l i Phase.increasing (Phase.second_posts (length ps)) at))
  Branch-shrinks g at (Branch.posted2) =
      plain s (Phase.second_posts 0) Phase.at_second at (omega arith) (omega arith) refl
        (omega (arith, shift l i (Phase.second_posts 0) Phase.at_second at))
  Branch-shrinks {d = d} g at (Branch.posts2 {k = k}) =
      plain d (Phase.second_posts (suc k)) (Phase.second_posts k) at (omega arith) (omega arith)
        refl (omega (arith, shift l i (Phase.second_posts (suc k)) (Phase.second_posts k) at))
  Branch-shrinks {d = d} g at (Branch.waits2 e) =
      plain d Phase.at_second Phase.testing at (omega arith) (omega arith) refl
        (omega (arith, e, shift l i Phase.at_second Phase.testing at))
  Branch-shrinks g at (Branch.repeats t) =
      again_step (length ps) s l (set l i Phase.sorting) t
        (shift l i Phase.testing Phase.sorting at)
        (sum-set (effort (length ps)) l i Phase.testing Phase.sorting at)
  Branch-shrinks g at (Branch.ends t) =
      end_step (length ps) s l (set l i Phase.ended) t
        (sum-set (effort (length ps)) l i Phase.testing Phase.ended at)

sum-same : {A : Type 0} (f : A → ℕ) (n : ℕ) (a : A) → sum f (replicate n a) ≡ n * f a
unfolding sum
sum-same f zero a = omega arith
sum-same f (suc n) a = omega (arith, sum-same f n a)

-- All steps of a run together.
pub Run-bound :
    (ps : List Params) (hi : ℕ) (v : List ℤ)
    → Chain 0 ps hi
    → hi < length v
    → {k : ℕ} {s : State} → Run ps v k s
    → k + steps_left (length ps) s.shared s.phases
      ≤ (round_steps (length ps) + 1) * inversions v + round_steps (length ps)
Run-bound ps hi v c inside Run.start =
    omega (arith, sum-same (effort (length ps)) (length ps) Phase.sorting)
Run-bound ps hi v c inside (Run.later {s = s} r (Step.steps i p q q' d gp gq e)) =
    let (m, g, o) = Run-Inv ps hi v c inside r in
    omega (
      arith,
      Run-bound ps hi v c inside r,
      Branch-shrinks ps i p m s.shared s.phases g gq (thread_function-Branch ps p s.shared q e),
    )
