-- ===== src/Sorting/Bubble/Sorted.antt =====
-- The loops of the bubble sort sort, and stay in the array.
use mathlib.Core.Path.{subst, subst₂}
use sdp_labs.Common.{
  ℕ, zero, suc, ◌+◌, ◌-◌, ◌≤◌, ◌<◌, ◌≡◌, ◌∙◌, sym, ap, inl, inr, refl, Bool, Option, some, List, [],
  ◌∷◌, arith, length, ℕ_discrete,
}
use sdp_labs.Common.Count.{count}
use sdp_labs.Common.Int.{ℤ, ◌≤ℤ◌, pos_part, neg_part, eqb_ℤ}
use sdp_labs.Sorting.Bubble.{exchange, inner, outer, sort, bubble_sort}
use sdp_labs.Sorting.Bubble.Region.{
  at, Region, Region-refl, Region-trans, Region-widen, exchange_lem,
}

-- The places from `lo` to `hi` are in order.
abbrev pub SortedIn : ℕ → ℕ → List ℤ → Type 0
SortedIn lo hi b = (i j : ℕ) → lo ≤ i → i ≤ j → j ≤ hi → at b i ≤ℤ at b j

-- A region in order stays so where the array stays the same.
pub SortedIn-same :
    (lo hi : ℕ) (a b : List ℤ)
    → ((k : ℕ) → k ≤ hi → at b k ≡ at a k)
    → SortedIn lo hi a
    → SortedIn lo hi b
SortedIn-same lo hi a b same s i j p q r =
    subst₂ (λ x y. x ≤ℤ y) (sym (same i (omega arith))) (sym (same j r)) (s i j p q r)

-- The inner loop over the places from `j` to `j + left` brings the greatest element to the last.
record Lifted (left j : ℕ) (a : List ℤ) : Type 0 where
  b : List ℤ
  result : inner left j a ≡ some b
  region : Region j (j + left) a b
  top : (k : ℕ) → j ≤ k → k ≤ j + left → at b k ≤ℤ at b (j + left)

inner_steps :
    (left j : ℕ) (a : List ℤ) {b c : List ℤ} {s : Bool}
    → exchange a j ≡ some (b, s)
    → inner left (j + 1) b ≡ some c
    → inner (suc left) j a ≡ some c
unfolding inner
inner_steps left j a e r = ground (arith, e, r)

pub ≤ℤ_refl_at : (b : List ℤ) (i j : ℕ) → i ≡ j → at b i ≤ℤ at b j
≤ℤ_refl_at b i j e = subst (λ k. at b i ≤ℤ at b k) e (omega arith)

inner_lem : (left j : ℕ) (a : List ℤ) → j + left < length a → Lifted left j a
unfolding inner
inner_lem zero j a h = record {
  b = a;
  result = refl;
  region = Region-refl j (j + 0) a;
  top = λ k p q. ≤ℤ_refl_at a k (j + 0) (omega arith);
}
inner_lem (suc left) j a h =
    let x = exchange_lem a j (omega arith) in
    let i = inner_lem left (j + 1) x.b (omega (arith, x.region.size)) in
    let end : j + 1 + left ≡ j + suc left = omega arith in
    record {
      b = i.b;
      result = inner_steps left j a x.result i.result;
      region =
          Region-trans (Region-widen (omega arith) (omega arith) x.region)
            (Region-widen (omega arith) (omega arith) i.region);
      top = λ k p q.
          subst (λ e. at i.b k ≤ℤ at i.b e) end
            (elim (ℕ_discrete k j) [
              | yes same ↦ omega (
                arith,
                ap pos_part (ap (at i.b) same ∙ i.region.outside j (inl (omega arith))),
                ap neg_part (ap (at i.b) same ∙ i.region.outside j (inl (omega arith))),
                x.ordered,
                i.region.back (at i.b (j + 1 + left)) i.top (j + 1) (omega arith) (omega arith),
              )
              | no ne ↦ i.top k (omega arith) (omega arith)
            ]);
    }

-- A routine has sorted a region.
pub record Ordered (l r : ℕ) (a : List ℤ) (o : Option (List ℤ)) : Type 0 where
  pub b : List ℤ
  pub result : o ≡ some b
  pub region : Region l r a b
  pub sorted : SortedIn l r b

outer_steps :
    (left l : ℕ) (a : List ℤ) {b c : List ℤ}
    → inner (suc left) l a ≡ some b
    → outer left l b ≡ some c
    → outer (suc left) l a ≡ some c
unfolding outer
outer_steps left l a e r = ground (arith, e, r)

outer_lem :
    (left l : ℕ) (a : List ℤ) → l + left < length a → Ordered l (l + left) a (outer left l a)
unfolding outer
outer_lem zero l a h = record {
  b = a;
  result = refl;
  region = Region-refl l (l + 0) a;
  sorted = λ i j p q r. ≤ℤ_refl_at a i j (omega arith);
}
outer_lem (suc left) l a h =
    let x = inner_lem (suc left) l a h in
    let o = outer_lem left l x.b (omega (arith, x.region.size)) in
    let same : at o.b (l + suc left) ≡ at x.b (l + suc left) =
      o.region.outside (l + suc left) (inr (omega arith)) in
    record {
      b = o.b;
      result = outer_steps left l a x.result o.result;
      region = Region-trans x.region (Region-widen (omega arith) (omega arith) o.region);
      sorted = λ i j p q r. elim (ℕ_discrete j (l + suc left)) [
        | yes last ↦ elim (ℕ_discrete i j) [
          | yes both ↦ ≤ℤ_refl_at o.b i j both
          | no ne ↦
              subst (λ z. at o.b i ≤ℤ z) (sym (ap (at o.b) last ∙ same))
                (o.region.bound (at x.b (l + suc left)) (λ k u v. x.top k u (omega arith)) i p
                  (omega arith))
        ]
        | no before ↦ o.sorted i j p q (omega arith)
      ];
    }

-- `bubbleSort` on the places from `l` to `r` of an array that has them: it stays in the array, changes
-- nothing outside, keeps the number of times that each value occurs, and leaves the places in order.
pub bubble_sort_lem :
    (a : List ℤ) (l r : ℕ)
    → l ≤ r
    → r < length a
    → (b : List ℤ) × (bubble_sort a l r ≡ some b) × Region l r a b × SortedIn l r b
unfolding bubble_sort
bubble_sort_lem a l r le h =
    let o = outer_lem (r - l) l a (omega arith) in
    let end : l + (r - l) ≡ r = omega arith in
    (
      o.b,
      o.result,
      subst (λ e. Region l e a o.b) end o.region,
      subst (λ e. SortedIn l e o.b) end o.sorted,
    )

-- `sort` on an array of `n` elements sorts all of it, with each value as often as before.
pub sort_lem :
    (a : List ℤ)
    → (b : List ℤ) × (sort a (length a) ≡ some b)
      × (length b ≡ length a)
      × ((v : ℤ) → count (eqb_ℤ v) b ≡ count (eqb_ℤ v) a)
      × ((i j : ℕ) → i ≤ j → j < length a → at b i ≤ℤ at b j)
unfolding sort outer
sort_lem [] = ([], refl, refl, (λ v. refl), λ i j p q. absurd (omega arith))
sort_lem (x ∷ a) =
    let o = outer_lem (length a) 0 (x ∷ a) (omega arith) in
    let rounds : suc (length a) - 1 ≡ length a = omega arith in
    (
      o.b,
      ap (λ n. outer n 0 (x ∷ a)) rounds ∙ o.result,
      o.region.size,
      o.region.perm,
      λ i j p q. o.sorted i j (omega arith) p (omega arith),
    )
