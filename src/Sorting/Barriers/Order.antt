-- ===== src/Sorting/Barriers/Order.antt =====
-- What is sorted, whatever the order of the steps of lab4.2.c.
use mathlib.Core.Path.{subst, subst₂}
use sdp_labs.Common.{
  ℕ, zero, suc, ◌+◌, ◌≤◌, ◌<◌, ◌≡◌, ◌∙◌, ap, ◌⊎◌, inl, inr, sym, refl, Bool, true, false, some,
  some_inj, List, ◌∷◌, arith, length, get_elem?, set, get_elem?-set, get-lt-length, lt-length-get,
  dec_lt,
}
use sdp_labs.Common.Count.{count}
use sdp_labs.Common.Int.{ℤ, ◌≤ℤ◌, eqb_ℤ}
use sdp_labs.Sorting.Bubble.{boundaries}
use sdp_labs.Sorting.Bubble.Region.{at, Region}
use sdp_labs.Sorting.Bubble.Sorted.{SortedIn}
use sdp_labs.Sorting.Bubble.Boundaries.{RegionsSorted, boundaries_lem}
use sdp_labs.Sorting.Regions.{Params, extremes}
use sdp_labs.Sorting.Regions.Round.{Chain}
use sdp_labs.Sorting.Regions.Inversions.{boundaries-inversions}
use sdp_labs.Sorting.Barriers.{Phase, Shared}
use sdp_labs.Sorting.Barriers.Places.{tally, tally-total, tally-pos, kind}
use sdp_labs.Sorting.Barriers.Modes.{Mode, Good}

-- Each region lies in the array, and two of them are apart.
pub Chain-inside :
    (lo : ℕ) (ps : List Params) (hi i : ℕ) {p : Params}
    → Chain lo ps hi
    → get_elem? ps i ≡ some p
    → (lo ≤ p.left) × (p.left ≤ p.right) × (p.right ≤ hi)
Chain-inside lo _ hi zero (Chain.last q a b c) h = ground (arith, a, b, c, h)
Chain-inside lo _ hi (suc i) (Chain.last q a b c) h = absurd (ground (arith, h))
Chain-inside lo _ hi zero (Chain.more q r ps a b c rest) h = ground (arith, a, b, c, h)
Chain-inside lo _ hi (suc i) (Chain.more q r ps a b c rest) h =
    omega (arith, b, Chain-inside (q.right + 1) (r ∷ ps) hi i rest h)

Chain-apart :
    (lo : ℕ) (ps : List Params) (hi i j : ℕ) {p q : Params}
    → Chain lo ps hi
    → i < j
    → get_elem? ps i ≡ some p
    → get_elem? ps j ≡ some q
    → p.right < q.left
Chain-apart lo _ hi i zero c lt h g = absurd (omega arith)
Chain-apart lo _ hi i (suc j) (Chain.last q a b c) lt h g = absurd (ground (arith, g))
Chain-apart lo _ hi zero (suc j) (Chain.more q r ps a b c rest) lt h g =
    ground (arith, h, Chain-inside (q.right + 1) (r ∷ ps) hi j rest g)
Chain-apart lo _ hi (suc i) (suc j) (Chain.more q r ps a b c rest) lt h g =
    Chain-apart (q.right + 1) (r ∷ ps) hi i j rest (omega arith) h g

-- Where every region is in order, the boundaries can be passed.
all_in_order :
    (lo : ℕ) (ps : List Params) (hi : ℕ) (v : List ℤ)
    → Chain lo ps hi
    → ((i : ℕ) (p : Params) → get_elem? ps i ≡ some p → SortedIn p.left p.right v)
    → RegionsSorted lo (extremes ps) hi v
all_in_order lo _ hi v (Chain.last p a b c) h = subst₂ (λ x y. SortedIn x y v) a b (h 0 p refl)
all_in_order lo _ hi v (Chain.more p q ps a b c rest) h = (
  b,
  c,
  subst (λ x. SortedIn x p.right v) a (h 0 p refl),
  all_in_order (p.right + 1) (q ∷ ps) hi v rest (λ i r g. h (suc i) r g),
)

SortedIn-within :
    (lo hi : ℕ) (a b : List ℤ)
    → ((k : ℕ) → lo ≤ k → k ≤ hi → at b k ≡ at a k)
    → SortedIn lo hi a
    → SortedIn lo hi b
SortedIn-within lo hi a b same s i j p q r =
    subst₂ (λ x y. x ≤ℤ y) (sym (same i p (omega arith))) (sym (same j (omega arith) r))
      (s i j p q r)

-- Has a thread sorted its region in this round?
abbrev pub is_done : Phase → Bool
is_done Phase.decreasing = true
is_done Phase.checking = true
is_done Phase.at_first = true
is_done _ = false

module _ (ps : List Params) (hi : ℕ) (v0 : List ℤ) where
  abbrev pub DoneSorted : List ℤ → List Phase → Type 0
  DoneSorted v l =
      (i : ℕ) (p : Params) (q : Phase)
      → get_elem? ps i ≡ some p
      → get_elem? l i ≡ some q
      → is_done q ≡ true
      → SortedIn p.left p.right v

  abbrev pub Regions : Mode → List ℤ → List Phase → Type 0
  Regions Mode.passes v l = Unit
  Regions _ v l = DoneSorted v l

  -- After a check without a swap the array is sorted.
  abbrev pub Whole : Mode → ℕ → List ℤ → Type 0
  Whole Mode.first swaps v = Unit
  Whole Mode.checks swaps v = Unit
  Whole Mode.passes swaps v = swaps ≡ 0 → SortedIn 0 hi v
  Whole Mode.goes_on swaps v = swaps ≡ 0 → SortedIn 0 hi v

  abbrev pub Permuted : List ℤ → Type 0
  Permuted v = (length v ≡ length v0) × ((x : ℤ) → count (eqb_ℤ x) v ≡ count (eqb_ℤ x) v0)

  abbrev pub Ordered : Mode → Shared → List Phase → Type 0
  Ordered m s l = Permuted s.v × Regions m s.v l × Whole m s.swaps_count s.v

  -- A thread that goes on without sorting.
  DoneSorted-set :
      (v : List ℤ) (l : List Phase) (i : ℕ) (q r : Phase)
      → get_elem? l i ≡ some q
      → (is_done r ≡ true → is_done q ≡ true)
      → DoneSorted v l
      → DoneSorted v (set l i r)
  DoneSorted-set v l i q r at_i h d j p r' gp gr done = elim (get_elem?-set l i j r gr) [
    | inl (same, is) ↦
        let old : get_elem? l j ≡ some q = ap (get_elem? l) same ∙ at_i in
        d j p q gp old (h (ap is_done (sym is) ∙ done))
    | inr (ne, old) ↦ d j p r' gp old done
  ]

  pub Ordered-set :
      (m : Mode) (s : Shared) (l : List Phase) (i : ℕ) (q r : Phase)
      → get_elem? l i ≡ some q
      → (is_done r ≡ true → is_done q ≡ true)
      → Ordered m s l
      → Ordered m s (set l i r)
  Ordered-set Mode.first s l i q r g h o = (o.0, DoneSorted-set s.v l i q r g h o.1, tt)
  Ordered-set Mode.checks s l i q r g h o = (o.0, DoneSorted-set s.v l i q r g h o.1, tt)
  Ordered-set Mode.passes s l i q r g h o = (o.0, tt, o.2)
  Ordered-set Mode.goes_on s l i q r g h o = (o.0, DoneSorted-set s.v l i q r g h o.1, o.2)

  sorted-DoneSorted :
      (v b : List ℤ) (l : List Phase) (i : ℕ) (p : Params)
      → Chain 0 ps hi
      → get_elem? ps i ≡ some p
      → Region p.left p.right v b
      → SortedIn p.left p.right b
      → DoneSorted v l
      → DoneSorted b (set l i Phase.decreasing)
  sorted-DoneSorted v b l i p c gi region sorted d j p' q' gp gq done =
      elim (get_elem?-set l i j Phase.decreasing gq) [
        | inl (same, is) ↦
            let one : p ≡ p' = some_inj (sym gi ∙ ap (get_elem? ps) (sym same) ∙ gp) in
            subst (λ (x : Params). SortedIn x.left x.right b) one sorted
        | inr (ne, old) ↦
            let elsewhere : (p'.right < p.left) ⊎ (p.right < p'.left) = elim (dec_lt j i) [
              | yes lt ↦ inl (Chain-apart 0 ps hi j i c lt gp gi)
              | no ge ↦ inr (Chain-apart 0 ps hi i j c (omega arith) gi gp)
            ] in
            SortedIn-within p'.left p'.right v b
              (λ k x y.
                region.outside k
                  (elim elsewhere [ inl e ↦ inl (omega arith) | inr e ↦ inr (omega arith) ]))
              (d j p' q' gp old done)
      ]

  pub sort-Ordered :
      (m : Mode) (s : Shared) (l : List Phase) (i : ℕ) (p : Params) (b : List ℤ) (n : ℕ)
      → Chain 0 ps hi
      → Good n m s l
      → 0 < tally 0 l
      → get_elem? ps i ≡ some p
      → Region p.left p.right s.v b
      → SortedIn p.left p.right b
      → Ordered m s l
      → Ordered m (record s { v = b }) (set l i Phase.decreasing)
  sort-Ordered Mode.first s l i p b n c g pos gi region sorted o = (
    (region.size ∙ o.0.0, λ x. region.perm x ∙ o.0.1 x),
    sorted-DoneSorted s.v b l i p c gi region sorted o.1,
    tt,
  )
  sort-Ordered Mode.goes_on s l i p b n c g pos gi region sorted o = (
    (region.size ∙ o.0.0, λ x. region.perm x ∙ o.0.1 x),
    sorted-DoneSorted s.v b l i p c gi region sorted o.1,
    λ z. absurd (ground (arith, z)),
  )
  sort-Ordered Mode.checks s l i p b n c g pos gi region sorted o =
      absurd (omega (arith, tally-total l))
  sort-Ordered Mode.passes s l i p b n c g pos gi region sorted o =
      absurd (omega (arith, tally-total l))

  done_at_check :
      (n : ℕ) (s : Shared) (l : List Phase) (q : Phase)
      → Good n Mode.checks s l
      → 0 < tally (kind q) l
      → is_done q ≡ true
  done_at_check n s l Phase.checking g pos = refl
  done_at_check n s l Phase.at_first g pos = refl
  done_at_check n s l Phase.decreasing g pos = refl
  done_at_check n s l _ g pos = absurd (omega (arith, tally-total l))

  -- The check of the last thread stays in the array, and a check without a swap finds it sorted.
  pub check-Ordered :
      (s : Shared) (l : List Phase)
      → Chain 0 ps hi
      → hi < length v0
      → Good (length ps) Mode.checks s l
      → Ordered Mode.checks s l
      → (b : List ℤ) × (k : ℕ) × (boundaries (extremes ps) s.v 0 ≡ some (b, k))
        × Permuted b
        × (k ≡ 0 → SortedIn 0 hi b)
  check-Ordered s l c h g o =
      let sorted = all_in_order 0 ps hi s.v c (λ i p gp.
        let (q, gq) = get-lt-length l i (omega (arith, g.0, lt-length-get ps i gp)) in
        o.1 i p q gp gq (done_at_check (length ps) s l q g (tally-pos l i q gq))) in
      let (b, k, e, perm, stop) =
        boundaries_lem (extremes ps) 0 hi s.v 0 (omega (arith, o.0.0)) sorted in
      (
        b,
        0 + k,
        e,
        ((boundaries-inversions (extremes ps) s.v 0 e).0 ∙ o.0.0, λ x. perm x ∙ o.0.1 x),
        λ z. let (same, whole) = stop (omega (arith, z)) in subst (SortedIn 0 hi) (sym same) whole,
      )

  -- Behind the second count nobody waits at the first barrier.
  pub nobody_done :
      (n : ℕ) (s : Shared) (l : List Phase) (q : Phase)
      → Good n Mode.goes_on s l
      → tally 0 l + tally 1 l + tally 4 l ≡ 0
      → 0 < tally (kind q) l
      → is_done q ≡ false
  nobody_done n s l Phase.decreasing g z pos = absurd (omega arith)
  nobody_done n s l Phase.checking g z pos = absurd (omega (arith, tally-total l))
  nobody_done n s l Phase.at_first g z pos = absurd (omega arith)
  nobody_done n s l _ g z pos = refl
