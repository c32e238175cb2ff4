-- ===== src/Sorting/Bubble/Region.antt =====
-- What a routine may do to the elements of a region of an array: permute them.
use sdp_labs.Common.{
  ℕ, ◌+◌, ◌≤◌, ◌<◌, ◌≡◌, ◌≢◌, ◌⊎◌, ◌∙◌, sym, ap, inl, inr, refl, Bool, true, false, Option, some,
  List, arith, length, get_elem?, get_or, get_or-set_self, get_or-set_ne, set, length-set,
  Bool-cases, get_elem?-set_ne, get-lt-length, lt-length-get, dec_lt, [], ◌∷◌, zero, suc,
  ℕ_discrete, if◌then◌else◌,
}
use mathlib.Core.Path.{subst}
use sdp_labs.Common.Count.{count, count-set}
use sdp_labs.Common.Int.{ℤ, pos, ◌≤ℤ◌, eqb_ℤ, ltb_ℤ}
use sdp_labs.Sorting.Bubble.{exchange}

-- The element at place `i`.
abbrev pub at : List ℤ → ℕ → ℤ
at a i = get_or a i (pos 0)

-- What bounds the elements of `a` from `lo` to `hi` bounds those of `b`.
abbrev pub Bounded : ℕ → ℕ → List ℤ → List ℤ → Type 0
Bounded lo hi a b =
    (v : ℤ) → ((k : ℕ) → lo ≤ k → k ≤ hi → at a k ≤ℤ v) → (k : ℕ) → lo ≤ k → k ≤ hi → at b k ≤ℤ v

-- `b` is `a` with the places from `lo` to `hi` permuted: as many of each value, the same elsewhere,
-- and the same bounds in the region.
pub record Region (lo hi : ℕ) (a b : List ℤ) : Type 0 where
  pub size : length b ≡ length a
  pub perm : (v : ℤ) → count (eqb_ℤ v) b ≡ count (eqb_ℤ v) a
  pub outside : (k : ℕ) → (k < lo) ⊎ (hi < k) → at b k ≡ at a k
  pub bound : Bounded lo hi a b
  pub back : Bounded lo hi b a

pub Region-refl : (lo hi : ℕ) (a : List ℤ) → Region lo hi a a
Region-refl lo hi a = record {
  size = refl;
  perm = λ v. refl;
  outside = λ k h. refl;
  bound = λ v h. h;
  back = λ v h. h;
}

pub Region-trans :
    {lo hi : ℕ} {a b c : List ℤ} → Region lo hi a b → Region lo hi b c → Region lo hi a c
Region-trans r s = record {
  size = s.size ∙ r.size;
  perm = λ v. s.perm v ∙ r.perm v;
  outside = λ k h. s.outside k h ∙ r.outside k h;
  bound = λ v h. s.bound v (r.bound v h);
  back = λ v h. r.back v (s.back v h);
}

Bounded-widen :
    {lo hi lo' hi' : ℕ} (a b : List ℤ)
    → lo' ≤ lo
    → hi ≤ hi'
    → ((k : ℕ) → (k < lo) ⊎ (hi < k) → at b k ≡ at a k)
    → Bounded lo hi a b
    → Bounded lo' hi' a b
Bounded-widen {lo} {hi} a b le ge same bound v h k x y = elim (dec_lt k lo) [
  | yes below ↦ subst (λ z. z ≤ℤ v) (sym (same k (inl below))) (h k x y)
  | no nb ↦ elim (dec_lt hi k) [
    | yes above ↦ subst (λ z. z ≤ℤ v) (sym (same k (inr above))) (h k x y)
    | no na ↦ bound v (λ j p q. h j (omega arith) (omega arith)) k (omega arith) (omega arith)
  ]
]

-- A region within a larger one.
pub Region-widen :
    {lo hi lo' hi' : ℕ} {a b : List ℤ} → lo' ≤ lo → hi ≤ hi' → Region lo hi a b → Region lo' hi' a b
Region-widen {a = a} {b = b} le ge r = record {
  size = r.size;
  perm = r.perm;
  outside = λ k h. r.outside k (elim h [ inl x ↦ inl (omega arith) | inr x ↦ inr (omega arith) ]);
  bound = Bounded-widen a b le ge r.outside r.bound;
  back = Bounded-widen b a le ge (λ k h. sym (r.outside k h)) r.back;
}

pub get_elem?-at : (a : List ℤ) (i : ℕ) {x : ℤ} → get_elem? a i ≡ some x → at a i ≡ x
get_elem?-at [] i h = absurd (ground arith)
get_elem?-at (y ∷ a) zero h = ground arith
get_elem?-at (y ∷ a) (suc i) h = get_elem?-at a i h

-- The element at each place after a write.
at-set_self : (a : List ℤ) (i : ℕ) (v : ℤ) → i < length a → at (set a i v) i ≡ v
at-set_self a i v h = get_or-set_self a i v (pos 0) h

at-set_ne : (a : List ℤ) (i j : ℕ) (v : ℤ) → i ≢ j → at (set a i v) j ≡ at a j
at-set_ne a i j v ne = get_or-set_ne a i j v (pos 0) ne

-- What `exchange` makes of places `j` and `j + 1`.
pub record Exchanged (j : ℕ) (a : List ℤ) (r : Option (List ℤ × Bool)) : Type 0 where
  pub b : List ℤ
  pub swapped : Bool
  pub result : r ≡ some (b, swapped)
  pub region : Region j (j + 1) a b
  pub ordered : at b j ≤ℤ at b (j + 1)
  pub kept : swapped ≡ false → b ≡ a

pub swapped-perm :
    (f : ℤ → Bool) (a : List ℤ) (j : ℕ) {x y : ℤ}
    → get_elem? a j ≡ some x
    → get_elem? a (j + 1) ≡ some y
    → count f (set (set a j y) (j + 1) x) ≡ count f a
swapped-perm f a j {x} {y} e e' = omega (
  arith,
  count-set f a j x y e,
  count-set f (set a j y) (j + 1) y x (get_elem?-set_ne a y (omega arith) ∙ e'),
)

-- The two elements after a swap.
swapped-at :
    (a : List ℤ) (j : ℕ) (x y : ℤ)
    → j + 1 < length a
    → (at (set (set a j y) (j + 1) x) j ≡ y) × (at (set (set a j y) (j + 1) x) (j + 1) ≡ x)
swapped-at a j x y h = (
  at-set_ne (set a j y) (j + 1) j x (omega arith) ∙ at-set_self a j y (omega arith),
  at-set_self (set a j y) (j + 1) x (omega (arith, length-set a j y)),
)

-- Two arrays with the same two elements at `j` and `j + 1`, the other way round.
crossed :
    (a b : List ℤ) (j : ℕ) {x y : ℤ}
    → at b j ≡ y
    → at b (j + 1) ≡ x
    → at a j ≡ x
    → at a (j + 1) ≡ y
    → Bounded j (j + 1) a b
crossed a b j here there x_here y_here v h k p q = elim (ℕ_discrete k j) [
  | yes same ↦
      subst (λ z. z ≤ℤ v) (sym (ap (at b) same ∙ here ∙ sym y_here))
        (h (j + 1) (omega arith) (omega arith))
  | no ne ↦
      let last : k ≡ j + 1 = omega arith in
      subst (λ z. z ≤ℤ v) (sym (ap (at b) last ∙ there ∙ sym x_here))
        (h j (omega arith) (omega arith))
]

swapped-Region :
    (a : List ℤ) (j : ℕ) {x y : ℤ}
    → get_elem? a j ≡ some x
    → get_elem? a (j + 1) ≡ some y
    → Region j (j + 1) a (set (set a j y) (j + 1) x)
swapped-Region a j {x} {y} e e' =
    let two = swapped-at a j x y (lt-length-get a (j + 1) e') in
    record {
      size = length-set (set a j y) (j + 1) x ∙ length-set a j y;
      perm = λ v. swapped-perm (eqb_ℤ v) a j e e';
      outside = λ k h.
          at-set_ne (set a j y) (j + 1) k x (elim h [ inl p ↦ omega arith | inr p ↦ omega arith ])
          ∙ at-set_ne a j k y (elim h [ inl p ↦ omega arith | inr p ↦ omega arith ]);
      bound = crossed a _ j two.0 two.1 (get_elem?-at a j e) (get_elem?-at a (j + 1) e');
      back = crossed _ a j (get_elem?-at a j e) (get_elem?-at a (j + 1) e') two.0 two.1;
    }

pub exchange_steps :
    (a : List ℤ) (j : ℕ) {x y : ℤ}
    → get_elem? a j ≡ some x
    → get_elem? a (j + 1) ≡ some y
    → exchange a j ≡ some (if ltb_ℤ y x then set (set a j y) (j + 1) x else a, ltb_ℤ y x)
unfolding exchange
exchange_steps a j e e' = ground (arith, e, e')

pub exchange_lem : (a : List ℤ) (j : ℕ) → j + 1 < length a → Exchanged j a (exchange a j)
exchange_lem a j h =
    let (x, e) = get-lt-length a j (omega arith) in
    let (y, e') = get-lt-length a (j + 1) h in
    let two = swapped-at a j x y h in
    elim (Bool-cases (ltb_ℤ y x)) [
      | inl less ↦ record {
        b = set (set a j y) (j + 1) x;
        swapped = true;
        result = exchange_steps a j e e' ∙ rw less refl;
        region = swapped-Region a j e e';
        ordered = ground (arith, two.0, two.1, less);
        kept = λ z. absurd (ground arith);
      }
      | inr not_less ↦ record {
        b = a;
        swapped = false;
        result = exchange_steps a j e e' ∙ rw not_less refl;
        region = Region-refl j (j + 1) a;
        ordered = ground (arith, get_elem?-at a j e, get_elem?-at a (j + 1) e', not_less);
        kept = λ z. refl;
      }
    ]
