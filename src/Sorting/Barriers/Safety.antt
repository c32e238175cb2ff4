-- ===== src/Sorting/Barriers/Safety.antt =====
-- The modes and the order hold in every state that lab4.2.c reaches.
use mathlib.Core.Path.{subst, subst₂}
use sdp_labs.Common.{
  ℕ, suc, ◌<◌, ◌≡◌, ◌∙◌, sym, refl, true, some, some_inj, List, [], ◌∷◌, arith, length, get_elem?,
  set, length-replicate, replicate-entry,
}
use sdp_labs.Common.Sum.{sum-replicate}
use sdp_labs.Common.Int.{ℤ}
use sdp_labs.Sorting.Bubble.Sorted.{SortedIn, bubble_sort_lem}
use sdp_labs.Sorting.Regions.{Params}
use sdp_labs.Sorting.Regions.Round.{Chain}
use sdp_labs.Sorting.Barriers.{Phase, Shared, State, Step, Run, started}
use sdp_labs.Sorting.Barriers.Places.{
  tally, tallies, tally-total, tally-pos, shift, posts1, posts2, tally-replicate,
}
use sdp_labs.Sorting.Barriers.Branches.{Branch, thread_function-Branch}
use sdp_labs.Sorting.Bubble.Region.{Region}
use sdp_labs.Sorting.Barriers.Modes.{Mode, Good}
use sdp_labs.Sorting.Barriers.Moves.{
  sort-Next, decrease-Next, last_decrease-Next, check-Next, post1-Next, posted1-Next, wait1-Next,
  increase-Next, last_increase-Next, post2-Next, posted2-Next, wait2-Next, again-Next, end-Next,
}
use sdp_labs.Sorting.Barriers.Order.{
  is_done, Chain-inside, Ordered, Ordered-set, sort-Ordered, check-Ordered, nobody_done, Permuted,
  Regions, Whole,
}

module _ (ps : List Params) (hi : ℕ) (v0 : List ℤ) (c : Chain 0 ps hi)
    (inside : hi < length v0) where
  abbrev pub Inv : Shared → List Phase → Type 0
  Inv s l = (m : Mode) × Good (length ps) m s l × Ordered ps hi v0 m s l

  -- The mode that some places show.
  abbrev pub Shown : Mode → Shared → List Phase → Type 0
  Shown m s l =
      (0 < tally 2 l → m ≡ Mode.checks)
      × (0 < tally 3 l → m ≡ Mode.passes)
      × (0 < tally 5 l → m ≡ Mode.passes)
      × (0 < s.sem1 → m ≡ Mode.passes)

  pub shown : (m : Mode) (s : Shared) (l : List Phase) → Good (length ps) m s l → Shown m s l
  shown Mode.first s l h = ground (arith, tally-total l)
  shown _ s l h = ground (arith, tally-total l)

  to_checks :
      (m : Mode) (s : Shared) (l l' : List Phase)
      → Good (length ps) m s l
      → 0 < tally 1 l
      → Ordered ps hi v0 m s l'
      → Ordered ps hi v0 Mode.checks s l'
  to_checks Mode.first s l l' g pos o = (o.0, o.1, tt)
  to_checks Mode.goes_on s l l' g pos o = (o.0, o.1, tt)
  to_checks _ s l l' g pos o = absurd (omega (arith, tally-total l))

  -- When the last thread has passed the first barrier, nobody has begun another round.
  to_goes_on :
      (s s' : Shared) (l l' : List Phase)
      → Good (length ps) Mode.goes_on s' l'
      → tallies (0 ∷ 1 ∷ 4 ∷ []) l' ≡ 0
      → s'.v ≡ s.v
      → s'.swaps_count ≡ s.swaps_count
      → Ordered ps hi v0 Mode.passes s l
      → Ordered ps hi v0 Mode.goes_on s' l'
  to_goes_on s s' l l' g none_back e f o = (
    subst (λ v. Permuted ps hi v0 v) (sym e) o.0,
    λ j p q gp gq done. absurd (
        ground (
          arith,
          done,
          nobody_done ps hi v0 (length ps) s' l' q g (omega (arith, none_back))
              (tally-pos l' j q gq),
        )),
    λ z. subst (SortedIn 0 hi) (sym e) (o.2 (sym f ∙ z)),
  )

  pub in_mode :
      (m m' : Mode) (s : Shared) (l : List Phase)
      → m ≡ m'
      → Good (length ps) m s l × Ordered ps hi v0 m s l
      → Good (length ps) m' s l × Ordered ps hi v0 m' s l
  in_mode m m' s l e h = subst (λ x. Good (length ps) x s l × Ordered ps hi v0 x s l) e h

  module _ (i : ℕ) (p : Params) (s : Shared) (l : List Phase) (gp : get_elem? ps i ≡ some p) where
    -- A step that changes neither the array nor the number of swaps, in the mode `m`.
    keeps :
        {q : Phase} {d : Shared} (r : Phase) (m : Mode)
        → get_elem? l i ≡ some q
        → (is_done r ≡ true → is_done q ≡ true)
        → d.v ≡ s.v
        → d.swaps_count ≡ s.swaps_count
        → Ordered ps hi v0 m s l
        → Good (length ps) m d (set l i r)
        → Inv d (set l i r)
    keeps {q} {d} r m gq h e f o g = (
      m,
      g,
      subst₂ (λ v k. Permuted ps hi v0 v × Regions ps hi v0 m v (set l i r) × Whole ps hi v0 m k v)
          (sym e) (sym f) (Ordered-set ps hi v0 m s l i q r gq h o),
    )

    pub Branch-Inv :
        {q r : Phase} {d : Shared}
        → Inv s l
        → get_elem? l i ≡ some q
        → Branch ps p s q d r
        → Inv d (set l i r)
    Branch-Inv (m, g, o) gq (Branch.sorts {b = b} found) =
        let f = shift l i Phase.sorting Phase.decreasing gq in
        let place = Chain-inside 0 ps hi i c gp in
        let (b', found', region, sorted) =
          bubble_sort_lem s.v p.left p.right place.1 (omega (arith, place, o.0.0)) in
        let same : b' ≡ b = some_inj (sym found' ∙ found) in
        (
          m,
          sort-Next (length ps) s l (set l i Phase.decreasing) m b g f,
          sort-Ordered ps hi v0 m s l i p b (length ps) c g (omega (arith, f)) gp
              (subst (Region p.left p.right s.v) same region)
              (subst (SortedIn p.left p.right) same sorted) o,
        )
    Branch-Inv {d = d} (m, g, o) gq (Branch.comes t) =
        keeps Phase.at_first m gq (λ z. refl) refl refl o
          (decrease-Next (length ps) s l (set l i Phase.at_first) m g t
            (shift l i Phase.decreasing Phase.at_first gq))
    Branch-Inv (m, g, o) gq (Branch.comes_last t) =
        let f = shift l i Phase.decreasing Phase.checking gq in
        (
          Mode.checks,
          last_decrease-Next (length ps) s l (set l i Phase.checking) m g t f,
          to_checks m s l (set l i Phase.checking) g (omega (arith, f))
              (Ordered-set ps hi v0 m s l i Phase.decreasing Phase.checking gq (λ z. refl) o),
        )
    Branch-Inv (m, g, o) gq (Branch.checks {b = b} {k = k} found) =
        let next = Phase.first_posts (length ps) in
        let f = shift l i Phase.checking next gq in
        let (g', o') = in_mode m Mode.checks s l ((shown m s l g).0 (omega (arith, f))) (g, o) in
        let (b', k', found', perm, stop) = check-Ordered ps hi v0 s l c inside g' o' in
        let same : (b', k') ≡ (b, k) = some_inj (sym found' ∙ found) in
        (
          Mode.passes,
          check-Next (length ps) s l (set l i next) m b k g f,
          subst
              (λ (t : List ℤ × ℕ).
                Permuted ps hi v0 t.0 × Unit × Whole ps hi v0 Mode.passes t.1 t.0)
              same (perm, tt, stop),
        )
    Branch-Inv (m, g, o) gq Branch.posted1 =
        let f = shift l i (Phase.first_posts 0) Phase.at_first gq in
        let (g', o') = in_mode m Mode.passes s l ((shown m s l g).1 (omega (arith, f))) (g, o) in
        (Mode.passes, posted1-Next (length ps) s l (set l i Phase.at_first) Mode.passes g' f, o')
    Branch-Inv (m, g, o) gq (Branch.posts1 {k = k}) =
        keeps (Phase.first_posts k) m gq (λ z. z) refl refl o
          (post1-Next (length ps) s l (set l i (Phase.first_posts k)) m k g
            (shift l i (Phase.first_posts (suc k)) (Phase.first_posts k) gq))
    Branch-Inv (m, g, o) gq (Branch.waits1 {k = k} t) =
        keeps Phase.increasing m gq (λ z. refl) refl refl o
          (wait1-Next (length ps) s l (set l i Phase.increasing) m k g t
            (shift l i Phase.at_first Phase.increasing gq))
    Branch-Inv (m, g, o) gq (Branch.goes t) =
        keeps Phase.at_second m gq (λ z. z) refl refl o
          (increase-Next (length ps) s l (set l i Phase.at_second) m g t
            (shift l i Phase.increasing Phase.at_second gq))
    Branch-Inv {d = d} (m, g, o) gq (Branch.goes_last t) =
        let l' = set l i (Phase.second_posts (length ps)) in
        let f = shift l i Phase.increasing (Phase.second_posts (length ps)) gq in
        let (g', o') = in_mode m Mode.passes s l ((shown m s l g).2 (omega (arith, f))) (g, o) in
        let good = last_increase-Next (length ps) s l l' m g t f in
        (
          Mode.goes_on,
          good,
          to_goes_on s d l l' good (ground (arith, g', t, f, tally-total l)) refl refl o',
        )
    Branch-Inv (m, g, o) gq Branch.posted2 =
        keeps Phase.at_second m gq (λ z. z) refl refl o
          (posted2-Next (length ps) s l (set l i Phase.at_second) m g
            (shift l i (Phase.second_posts 0) Phase.at_second gq))
    Branch-Inv (m, g, o) gq (Branch.posts2 {k = k}) =
        keeps (Phase.second_posts k) m gq (λ z. z) refl refl o
          (post2-Next (length ps) s l (set l i (Phase.second_posts k)) m k g
            (shift l i (Phase.second_posts (suc k)) (Phase.second_posts k) gq))
    Branch-Inv (m, g, o) gq (Branch.waits2 {k = k} t) =
        keeps Phase.testing m gq (λ z. z) refl refl o
          (wait2-Next (length ps) s l (set l i Phase.testing) m k g t
            (shift l i Phase.at_second Phase.testing gq))
    Branch-Inv (m, g, o) gq (Branch.ends t) =
        keeps Phase.ended m gq (λ z. z) refl refl o
          (end-Next (length ps) s l (set l i Phase.ended) m g t
            (shift l i Phase.testing Phase.ended gq))
    Branch-Inv (m, g, o) gq (Branch.repeats t) =
        keeps Phase.sorting m gq (λ z. z) refl refl o
          (again-Next (length ps) s l (set l i Phase.sorting) m g t
            (shift l i Phase.testing Phase.sorting gq))

  Chain-pos : (lo : ℕ) (l : List Params) (k : ℕ) → Chain lo l k → 0 < length l
  Chain-pos lo _ k (Chain.last q a b d) = omega arith
  Chain-pos lo _ k (Chain.more q r l a b d rest) = omega arith

  started-Good : Good (length ps) Mode.first (started ps v0).shared (started ps v0).phases
  started-Good =
      let n = length ps in
      let pos = Chain-pos 0 ps hi c in
      ground (
        arith,
        pos,
        length-replicate n Phase.sorting,
        tally-replicate 0 n,
        tally-replicate 1 n,
        tally-replicate 4 n,
        sum-replicate posts1 n Phase.sorting refl,
        sum-replicate posts2 n Phase.sorting refl,
      )

  pub Run-Inv : {k : ℕ} {s : State} → Run ps v0 k s → Inv s.shared s.phases
  Run-Inv Run.start = (
    Mode.first,
    started-Good,
    (
      (refl, λ x. refl),
      λ i p q gp gq done.
          absurd (ground (arith, done, replicate-entry (length ps) i Phase.sorting gq)),
      tt,
    ),
  )
  Run-Inv (Run.later {s = s} r (Step.steps i p q r' d gp gq e)) =
      Branch-Inv i p s.shared s.phases gp (Run-Inv r) gq (thread_function-Branch ps p s.shared q e)
