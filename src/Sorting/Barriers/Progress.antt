-- ===== src/Sorting/Barriers/Progress.antt =====
-- The threads of lab4.2.c never wait for ever, and they all return.
use mathlib.Core.Path.{subst}
use sdp_labs.Common.{
  ℕ, zero, suc, ◌+◌, ◌*◌, ◌/◌, ◌-◌, ◌≤◌, ◌<◌, ◌≡◌, ◌≢◌, ap, sym, ◌⊎◌, inl, inr, refl, ◌==◌, some,
  List, [], ◌∷◌, arith, length, get_elem?, get-lt-length, lt-length-get, dec_lt,
}
use sdp_labs.Common.Count.{All, count-found}
use sdp_labs.Common.Int.{ℤ}
use sdp_labs.Sorting.Bubble.Sorted.{bubble_sort_lem}
use sdp_labs.Sorting.Regions.{Params, params, params_from}
use sdp_labs.Sorting.Regions.Round.{Chain, params-Chain}
use sdp_labs.Sorting.Regions.Inversions.{inversions}
use sdp_labs.Sorting.Barriers.{Phase, Shared, State, thread_function, Step, Run, sem_wait}
use sdp_labs.Sorting.Barriers.Places.{
  tally, tallies, tally-total, tally-pos, kind, sum-posts1, sum-posts2,
}
use sdp_labs.Sorting.Barriers.Modes.{Mode, Good}
use sdp_labs.Sorting.Barriers.Order.{Chain-inside, check-Ordered}
use sdp_labs.Sorting.Barriers.Safety.{Inv, Run-Inv, shown, in_mode}
use sdp_labs.Sorting.Barriers.Ending.{round_steps, Run-bound}

tally-found :
    (k : ℕ) (l : List Phase)
    → 0 < tally k l
    → (i : ℕ) × (q : Phase) × (get_elem? l i ≡ some q) × (kind q ≡ k)
unfolding tally
tally-found k l pos =
    let (i, q, at, t) = count-found (λ x. kind x == k) l pos in (i, q, at, ground (arith, t))

-- Some thread can go on.
abbrev pub CanStep : List Params → State → Type 0
CanStep ps s = (t : State) × Step ps s t

-- No thread has anything left to do.
abbrev pub AllEnded : State → Type 0
AllEnded s = (i : ℕ) (q : Phase) → get_elem? s.phases i ≡ some q → q ≡ Phase.ended

-- What a place needs: a thread before a semaphore waits for a post.
abbrev Ready : Shared → ℕ → Type 0
Ready s k = (k ≡ 4 → 0 < s.sem1) × (k ≡ 7 → 0 < s.sem2) × (k ≢ 9)

all_nine :
    (l : List Phase) (q : Phase) → tally 9 l ≡ length l → 0 < tally (kind q) l → q ≡ Phase.ended
all_nine l Phase.ended h pos = refl
all_nine l _ h pos = absurd (omega (arith, tally-total l))

sem_wait-pos : (n : ℕ) → 0 < n → sem_wait n ≡ some (n - 1)
sem_wait-pos zero h = absurd (omega arith)
sem_wait-pos (suc n) h = ap some (omega arith)

module _ (ps : List Params) (hi : ℕ) (v0 : List ℤ) (c : Chain 0 ps hi) (inside : hi < length v0)
    (s : State) where
  module _ (i : ℕ) (p : Params) (gp : get_elem? ps i ≡ some p) where
    goes :
        (q : Phase)
        → get_elem? s.phases i ≡ some q
        → (d : Shared) × (r : Phase) × (thread_function ps p q s.shared ≡ some (d, r))
        → CanStep ps s
    goes q gq (d, r, e) = (_, Step.steps i p q r d gp gq e)

    -- Every place but the last leads on.
    thread_function-goes :
        (q : Phase)
        → get_elem? s.phases i ≡ some q
        → Inv ps hi v0 c inside s.shared s.phases
        → Ready s.shared (kind q)
        → (d : Shared) × (r : Phase) × (thread_function ps p q s.shared ≡ some (d, r))
    unfolding thread_function
    thread_function-goes Phase.sorting gq (m, g, o) h =
        let place = Chain-inside 0 ps hi i c gp in
        let (b, found, region, sorted) =
          bubble_sort_lem s.shared.v p.left p.right place.1 (omega (arith, place, o.0.0)) in
        (record s.shared { v = b }, Phase.decreasing, ground (arith, found))
    thread_function-goes Phase.checking gq (m, g, o) h =
        let mode =
          (shown ps hi v0 c inside m s.shared s.phases g).0
            (tally-pos s.phases i Phase.checking gq) in
        let (g', o') = in_mode ps hi v0 c inside m Mode.checks s.shared s.phases mode (g, o) in
        let (b, k, found, perm, stop) = check-Ordered ps hi v0 s.shared s.phases c inside g' o' in
        (
          record s.shared { v = b; swaps_count = k },
          Phase.first_posts (length ps),
          ground (arith, found),
        )
    thread_function-goes Phase.at_first gq inv h = (
      record s.shared { sem1 = s.shared.sem1 - 1 },
      Phase.increasing,
      ground (arith, sem_wait-pos s.shared.sem1 (h.0 refl)),
    )
    thread_function-goes Phase.at_second gq inv h = (
      record s.shared { sem2 = s.shared.sem2 - 1 },
      Phase.testing,
      ground (arith, sem_wait-pos s.shared.sem2 (h.1 refl)),
    )
    thread_function-goes Phase.ended gq inv h = absurd (h.2 refl)
    thread_function-goes (Phase.first_posts zero) gq inv h = (_, _, refl)
    thread_function-goes (Phase.first_posts (suc n)) gq inv h = (_, _, refl)
    thread_function-goes (Phase.second_posts zero) gq inv h = (_, _, refl)
    thread_function-goes (Phase.second_posts (suc n)) gq inv h = (_, _, refl)
    thread_function-goes _ gq inv h = (_, _, refl)

  module _ (inv : Inv ps hi v0 c inside s.shared s.phases) where
    pick : (k : ℕ) → Ready s.shared k → 0 < tally k s.phases → CanStep ps s
    pick k h pos =
        let (i, q, at, is) = tally-found k s.phases pos in
        let (p, gp) = get-lt-length ps i (omega (arith, inv.1.0, lt-length-get s.phases i at)) in
        goes i p gp q at (thread_function-goes i p gp q at inv (subst (Ready s.shared) (sym is) h))

    picks : (ks : List ℕ) → All (Ready s.shared) ks → 0 < tallies ks s.phases → CanStep ps s
    picks [] h pos = absurd (omega arith)
    picks (k ∷ ks) h pos = elim (dec_lt 0 (tally k s.phases)) [
      | yes here ↦ pick k h.0 here
      | no gone ↦ picks ks h.1 (omega arith)
    ]

    free : (k : ℕ) → k ≢ 4 → k ≢ 7 → k ≢ 9 → Ready s.shared k
    free k a b e = ground (arith, a, b, e)

    progress_in : (m : Mode) → Good (length ps) m s.shared s.phases → CanStep ps s ⊎ AllEnded s
    progress_in Mode.first g =
        inl (picks (0 ∷ 1 ∷ []) (ground arith, (ground arith, tt)) (omega (arith, g)))
    progress_in Mode.checks g = inl (pick 2 (ground arith) (omega (arith, g)))
    progress_in Mode.passes g = elim (dec_lt 0 (tallies (3 ∷ 5 ∷ []) s.phases)) [
      | yes some_go ↦ inl (picks (3 ∷ 5 ∷ []) (ground arith, (ground arith, tt)) some_go)
      | no all_wait ↦
          let posted = sum-posts1 s.phases (omega arith) in
          inl (pick 4 (ground (arith, g, posted)) (omega (arith, g)))
    ]
    progress_in Mode.goes_on g = elim (dec_lt 0 (tallies (0 ∷ 1 ∷ 6 ∷ 8 ∷ []) s.phases)) [
      | yes some_go ↦ inl (
          picks (0 ∷ 1 ∷ 6 ∷ 8 ∷ [])
            (ground arith, (ground arith, (ground arith, (ground arith, tt)))) some_go)
      | no none_go ↦ elim (dec_lt 0 (tally 7 s.phases)) [
        | yes all_wait ↦
            let posted = sum-posts2 s.phases (omega arith) in
            inl (pick 7 (ground (arith, g, posted)) all_wait)
        | no gone ↦ inr (λ i q at.
            all_nine s.phases q (ground (arith, g, tally-total s.phases))
              (tally-pos s.phases i q at))
      ]
    ]

    pub progress : CanStep ps s ⊎ AllEnded s
    progress = progress_in inv.0 inv.1

length-params_from : (rounds i n size dim : ℕ) → length (params_from rounds i n size dim) ≡ rounds
unfolding params_from
length-params_from zero i n size dim = refl
length-params_from (suc rounds) i n size dim =
    omega (arith, length-params_from rounds (i + 1) n size dim)

length-params : (n dim : ℕ) → length (params n dim) ≡ n
unfolding params
length-params n dim = length-params_from n 0 n (dim / n) dim

module _ (nthreads : ℕ) (v : List ℤ) (one : 1 ≤ nthreads) (many : nthreads ≤ length v) where
  -- For at least one thread and as many numbers as threads or more, and in whatever order the threads run:
  -- some thread can go on, or all have returned; and with `round_steps` for nthreads * (2 * nthreads + 9), a
  -- run has at most round_steps steps, and round_steps + 1 more for each inversion of the array at first.
  pub threads_end :
      {k : ℕ} {s : State}
      → Run (params nthreads (length v)) v k s
      → (CanStep (params nthreads (length v)) s ⊎ AllEnded s)
        × (k ≤ (round_steps nthreads + 1) * inversions v + round_steps nthreads)
  threads_end {k = k} {s = s} r =
      let ps = params nthreads (length v) in
      let c = params-Chain nthreads (length v) one many in
      (
        progress ps (length v - 1) v c (omega arith) s
            (Run-Inv ps (length v - 1) v c (omega arith) r),
        subst (λ n. k ≤ (round_steps n + 1) * inversions v + round_steps n)
            (length-params nthreads (length v))
            (omega (arith, Run-bound ps (length v - 1) v c (omega arith) r)),
      )
