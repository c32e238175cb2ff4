-- ===== src/Sorting/Barriers/Serial.antt =====
-- The threads of lab4.2.c in any interleaving compute what their rounds compute one after the other.
use mathlib.Core.Path.{subst}
use sdp_labs.Common.{
  ℕ, suc, ◌≤◌, ◌<◌, ◌≡◌, ◌∙◌, ap, ap₂, sym, refl, true, some, List, [], ◌∷◌, arith, length,
  get_elem?, lt-length-get,
}
use sdp_labs.Common.Count.{count, count-found, count-pos, one_if}
use sdp_labs.Common.Int.{ℤ, pos, negsuc, ◌≤ℤ◌, eqb_ℤ, eq_of_parts}
use sdp_labs.Sorting.Bubble.Region.{at, get_elem?-at}
use sdp_labs.Sorting.Regions.{params, rounds}
use sdp_labs.Sorting.Regions.Inversions.{inversions}
use sdp_labs.Sorting.Regions.Rounds.{rounds_lem}
use sdp_labs.Sorting.Barriers.{Phase, State, Run}
use sdp_labs.Sorting.Barriers.Result.{ended-SortedIn}

abbrev Ascending : List ℤ → Type 0
Ascending a = (i j : ℕ) → i ≤ j → j < length a → at a i ≤ℤ at a j

eqb_ℤ-eq : (a b : ℤ) → eqb_ℤ a b ≡ true → a ≡ b
eqb_ℤ-eq (pos a) (pos b) h = ap pos (ground (arith, h))
eqb_ℤ-eq (pos a) (negsuc b) h = absurd (ground (arith, h))
eqb_ℤ-eq (negsuc a) (pos b) h = absurd (ground (arith, h))
eqb_ℤ-eq (negsuc a) (negsuc b) h = ap negsuc (ground (arith, h))

eqb_ℤ_refl : (a : ℤ) → eqb_ℤ a a ≡ true
eqb_ℤ_refl (pos a) = ground arith
eqb_ℤ_refl (negsuc a) = ground arith

≤ℤ_antisym : (a b : ℤ) → a ≤ℤ b → b ≤ℤ a → a ≡ b
≤ℤ_antisym a b h g = eq_of_parts a b (omega (arith, h, g))

-- The first number of an ascending list is the least.
first_least : (x y : ℤ) (l : List ℤ) → Ascending (x ∷ l) → 0 < count (eqb_ℤ y) (x ∷ l) → x ≤ℤ y
first_least x y l up h =
    let (i, z, get, is) = count-found (eqb_ℤ y) (x ∷ l) h in
    let same : at (x ∷ l) i ≡ y = get_elem?-at (x ∷ l) i get ∙ sym (eqb_ℤ-eq y z is) in
    subst (λ w. x ≤ℤ w) same (up 0 i (omega arith) (lt-length-get (x ∷ l) i get))

-- Two ascending lists with the same values are the same.
Ascending-unique :
    (a b : List ℤ)
    → length a ≡ length b
    → Ascending a
    → Ascending b
    → ((v : ℤ) → count (eqb_ℤ v) a ≡ count (eqb_ℤ v) b)
    → a ≡ b
unfolding count
Ascending-unique [] [] e up up' h = refl
Ascending-unique [] (y ∷ b) e up up' h = absurd (omega (arith, e))
Ascending-unique (x ∷ a) [] e up up' h = absurd (omega (arith, e))
Ascending-unique (x ∷ a) (y ∷ b) e up up' h =
    let x_in : 0 < count (eqb_ℤ x) (y ∷ b) =
      omega (arith, h x, count-pos (eqb_ℤ x) (x ∷ a) 0 refl (eqb_ℤ_refl x)) in
    let y_in : 0 < count (eqb_ℤ y) (x ∷ a) =
      omega (arith, h y, count-pos (eqb_ℤ y) (y ∷ b) 0 refl (eqb_ℤ_refl y)) in
    let same : x ≡ y = ≤ℤ_antisym x y (first_least x y a up y_in) (first_least y x b up' x_in) in
    ap₂ (λ z l. z ∷ l) same
      (Ascending-unique a b (omega (arith, e))
        (λ i j p q. up (suc i) (suc j) (omega arith) (omega arith))
        (λ i j p q. up' (suc i) (suc j) (omega arith) (omega arith))
        (λ v. omega (arith, h v, ap (λ z. one_if (eqb_ℤ v z)) same)))

module _ (nthreads : ℕ) (v : List ℤ) (one : 1 ≤ nthreads) (many : nthreads ≤ length v) where
  -- For at least one thread and as many numbers as threads or more, and in whatever order the threads run:
  -- as soon as one of them has returned, the array is the one that the rounds of the loop give when in
  -- each of them the regions are sorted one after the other and then the boundaries are passed. They give
  -- one within any number of rounds greater than the number of inversions of the array at first.
  pub ended-rounds :
      {k : ℕ} {s : State} (i fuel : ℕ)
      → Run (params nthreads (length v)) v k s
      → get_elem? s.phases i ≡ some Phase.ended
      → inversions v < fuel
      → rounds fuel (params nthreads (length v)) v ≡ some s.shared.v
  ended-rounds {s = s} i fuel r at enough =
      let (b, e, size, perm, sorted) = rounds_lem fuel nthreads v one many enough in
      let (sorted', size', perm') = ended-SortedIn nthreads v one many i r at in
      e
      ∙ ap some (
          Ascending-unique b s.shared.v (size ∙ sym size')
            (λ x y p q. sorted x y (omega arith) p (omega (arith, size)))
            (λ x y p q. sorted' x y (omega arith) p (omega (arith, size')))
            (λ z. perm z ∙ sym (perm' z)))
