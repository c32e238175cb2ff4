-- ===== src/Sorting/Regions/Inversions.antt =====
-- Every swap of neighbours takes one inversion away.
use mathlib.Core.Path.{subst}
use sdp_labs.Common.{
  ℕ, zero, suc, ◌+◌, ◌-◌, ◌≤◌, ◌≡◌, ◌⊎◌, ◌∙◌, sym, ap, inl, inr, refl, Bool, true, Option, none,
  some, List, [], ◌∷◌, arith, length, get_elem?, set, length-set, Bool-cases, Option-cases,
  if◌then◌else◌,
}
use sdp_labs.Common.Count.{count, one_if}
use sdp_labs.Common.Int.{ℤ, ltb_ℤ}
use sdp_labs.Sorting.Bubble.{exchange, inner, outer, bubble_sort, boundaries}
use sdp_labs.Sorting.Bubble.Region.{swapped-perm, exchange_steps}
use sdp_labs.Sorting.Regions.{Params, extremes, sort_all, round}

abbrev pub less : ℤ → ℤ → Bool
less x y = ltb_ℤ y x

-- The pairs of places that are out of order.
unfoldable pub inversions : List ℤ → ℕ
inversions [] = 0
inversions (x ∷ a) = count (less x) a + inversions a

count-swap :
    (f : ℤ → Bool) (a : List ℤ) (j : ℕ) {x y : ℤ}
    → get_elem? a j ≡ some x
    → get_elem? a (suc j) ≡ some y
    → count f (set (set a j y) (suc j) x) ≡ count f a
count-swap f a j {x} {y} e e' =
    let next : suc j ≡ j + 1 = omega arith in
    ap (λ k. count f (set (set a j y) k x)) next
    ∙ swapped-perm f a j e (ap (get_elem? a) (sym next) ∙ e')

swap-inversions :
    (a : List ℤ) (j : ℕ) {x y : ℤ}
    → get_elem? a j ≡ some x
    → get_elem? a (suc j) ≡ some y
    → ltb_ℤ y x ≡ true
    → inversions (set (set a j y) (suc j) x) + 1 ≡ inversions a
unfolding inversions count
swap-inversions [] j e e' lt = absurd (ground arith)
swap-inversions (z ∷ []) zero e e' lt = absurd (ground arith)
swap-inversions (z ∷ w ∷ a) zero e e' lt = ground (arith, e, e', lt)
swap-inversions (z ∷ a) (suc j) e e' lt =
    omega (arith, swap-inversions a j e e' lt, count-swap (less z) a j e e')

some_both :
    {b c : List ℤ} {s r : Bool}
    → ◌≡◌ {A = Option (List ℤ × Bool)} (some (b, s)) (some (c, r))
    → (b ≡ c) × (s ≡ r)
some_both e = ground (arith, e)

swapped_length : (a : List ℤ) (i j : ℕ) (x y : ℤ) → length (set (set a i y) j x) ≡ length a
swapped_length a i j x y = length-set (set a i y) j x ∙ length-set a i y

-- What an exchange does to the length and to the inversions.
abbrev pub Fewer : List ℤ → List ℤ → ℕ → Type 0
Fewer a b n = (length b ≡ length a) × (inversions b + n ≡ inversions a)

exchanged :
    (a : List ℤ) (j : ℕ) {x y : ℤ} {b : List ℤ} {s : Bool}
    → get_elem? a j ≡ some x
    → get_elem? a (j + 1) ≡ some y
    → exchange a j ≡ some (b, s)
    → Fewer a b (one_if s)
exchanged a j {x} {y} {b} {s} e e' h =
    let next : j + 1 ≡ suc j = omega arith in
    let (is_b, is_s) = some_both (sym h ∙ exchange_steps a j e e') in
    elim (Bool-cases (ltb_ℤ y x)) [
      | inl lt ↦
          let swapped : b ≡ set (set a j y) (j + 1) x = is_b ∙ rw lt refl in
          subst (λ l. Fewer a l (one_if s)) (sym swapped)
            (subst (λ r. Fewer a (set (set a j y) (j + 1) x) (one_if r)) (sym (is_s ∙ lt))
              (
                swapped_length a j (j + 1) x y,
                ap (λ k. inversions (set (set a j y) k x) + 1) next
                    ∙ swap-inversions a j e (ap (get_elem? a) (sym next) ∙ e') lt,
              ))
      | inr ge ↦
          let same : b ≡ a = is_b ∙ rw ge refl in
          subst (λ l. Fewer a l (one_if s)) (sym same)
            (subst (λ r. Fewer a a (one_if r)) (sym (is_s ∙ ge)) (refl, omega arith))
    ]

exchange-none :
    (a : List ℤ) (j : ℕ)
    → (get_elem? a j ≡ none) ⊎ (get_elem? a (j + 1) ≡ none)
    → exchange a j ≡ none
unfolding exchange
exchange-none a j (inl e) = ground (arith, e)
exchange-none a j (inr e) = elim (Option-cases (get_elem? a j)) [
  | inl f ↦ ground (arith, f)
  | inr (x, f) ↦ ground (arith, e, f)
]

exchange-inversions :
    (a : List ℤ) (j : ℕ) {b : List ℤ} {s : Bool} → exchange a j ≡ some (b, s) → Fewer a b (one_if s)
exchange-inversions a j h = elim (Option-cases (get_elem? a j)) [
  | inl e ↦ absurd (ground (arith, h, exchange-none a j (inl e)))
  | inr (x, e) ↦ elim (Option-cases (get_elem? a (j + 1))) [
    | inl e' ↦ absurd (ground (arith, h, exchange-none a j (inr e')))
    | inr (y, e') ↦ exchanged a j e e' h
  ]
]

-- No more inversions, in an array of the same length.
abbrev pub NoMore : List ℤ → List ℤ → Type 0
NoMore a b = (length b ≡ length a) × (inversions b ≤ inversions a)

NoMore-trans : (a b c : List ℤ) → NoMore a b → NoMore b c → NoMore a c
NoMore-trans a b c h g = (g.0 ∙ h.0, omega (arith, h.1, g.1))

inner-inversions : (left j : ℕ) (a : List ℤ) {b : List ℤ} → inner left j a ≡ some b → NoMore a b
unfolding inner
inner-inversions zero j a h = ground arith
inner-inversions (suc left) j a {b} h = elim (Option-cases (exchange a j)) [
  | inl e ↦ absurd (ground (arith, e, h))
  | inr ((c, s), e) ↦
      let one = exchange-inversions a j e in
      let rest = inner-inversions left (j + 1) c {b = b} (ground (arith, e, h)) in
      (rest.0 ∙ one.0, omega (arith, rest.1, one.1))
]

outer-inversions : (left l : ℕ) (a : List ℤ) {b : List ℤ} → outer left l a ≡ some b → NoMore a b
unfolding outer
outer-inversions zero l a h = ground arith
outer-inversions (suc left) l a {b} h = elim (Option-cases (inner (suc left) l a)) [
  | inl e ↦ absurd (ground (arith, e, h))
  | inr (c, e) ↦
      NoMore-trans a c b (inner-inversions (suc left) l a e)
        (outer-inversions left l c (ground (arith, e, h)))
]

pub bubble-inversions :
    (a : List ℤ) (l r : ℕ) {b : List ℤ} → bubble_sort a l r ≡ some b → NoMore a b
unfolding bubble_sort
bubble-inversions a l r h = outer-inversions (r - l) l a h

sort_all-inversions :
    (ps : List Params) (a : List ℤ) {b : List ℤ} → sort_all ps a ≡ some b → NoMore a b
unfolding sort_all
sort_all-inversions [] a h = ground arith
sort_all-inversions (p ∷ ps) a {b} h = elim (Option-cases (bubble_sort a p.left p.right)) [
  | inl e ↦ absurd (ground (arith, e, h))
  | inr (c, e) ↦
      NoMore-trans a c b (bubble-inversions a p.left p.right e)
        (sort_all-inversions ps c (ground (arith, e, h)))
]

pub boundaries-inversions :
    (es : List ℕ) (a : List ℤ) (n : ℕ) {b : List ℤ} {m : ℕ}
    → boundaries es a n ≡ some (b, m)
    → (length b ≡ length a) × (inversions b + m ≡ inversions a + n)
unfolding boundaries
boundaries-inversions [] a n h = ground arith
boundaries-inversions (e ∷ rest) a n {b} {m} h = elim (Option-cases (exchange a e)) [
  | inl f ↦ absurd (ground (arith, f, h))
  | inr ((c, s), f) ↦
      let one = exchange-inversions a e f in
      let more =
        boundaries-inversions rest c (if s then n + 1 else n) {b = b} {m = m}
          (ground (arith, f, h)) in
      (more.0 ∙ one.0, ground (arith, more.1, one.1))
]

-- A round that makes `m` swaps at the boundaries takes at least `m` inversions away.
pub round-inversions :
    (ps : List Params) (a : List ℤ) {b : List ℤ} {m : ℕ}
    → round ps a ≡ some (b, m)
    → (length b ≡ length a) × (inversions b + m ≤ inversions a)
unfolding round
round-inversions ps a {b} {m} h = elim (Option-cases (sort_all ps a)) [
  | inl e ↦ absurd (ground (arith, e, h))
  | inr (c, e) ↦
      let one = sort_all-inversions ps a e in
      let more = boundaries-inversions (extremes ps) c 0 {b = b} {m = m} (ground (arith, e, h)) in
      (more.0 ∙ one.0, omega (arith, more.1, one.1))
]
