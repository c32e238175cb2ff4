-- ===== src/Sorting/Quick/Shuffled.antt =====
-- What the quicksort does to a region: each place gets what was at some place of the region.
use sdp_labs.Common.{
  ℕ, ◌≤◌, ◌<◌, ◌≡◌, ◌≢◌, ◌⊎◌, ◌∙◌, sym, ap, inl, inr, refl, Bool, some, List, arith, length,
  get_elem?, get_or-set_self, get_or-set_ne, set, length-set, get_elem?-set_ne, get-lt-length,
  dec_lt, ℕ_discrete,
}
use sdp_labs.Common.Count.{count, count-set}
use sdp_labs.Common.Int.{ℤ, pos, eqb_ℤ}
use sdp_labs.Sorting.Bubble.Region.{at, get_elem?-at}
use sdp_labs.Sorting.Quick.{swap}

-- `b` is `a` with places from `lo` to `hi` permuted.
pub record Shuffled (lo hi : ℕ) (a b : List ℤ) : Type 0 where
  pub size : length b ≡ length a
  pub perm : (v : ℤ) → count (eqb_ℤ v) b ≡ count (eqb_ℤ v) a
  pub outside : (k : ℕ) → (k < lo) ⊎ (hi < k) → at b k ≡ at a k
  pub from : (k : ℕ) → lo ≤ k → k ≤ hi → (i : ℕ) × (lo ≤ i) × (i ≤ hi) × (at b k ≡ at a i)

pub Shuffled-refl : (lo hi : ℕ) (a : List ℤ) → Shuffled lo hi a a
Shuffled-refl lo hi a = record {
  size = refl;
  perm = λ v. refl;
  outside = λ k h. refl;
  from = λ k p q. (k, p, q, refl);
}

pub Shuffled-trans :
    {lo hi : ℕ} {a b c : List ℤ} → Shuffled lo hi a b → Shuffled lo hi b c → Shuffled lo hi a c
Shuffled-trans r s = record {
  size = s.size ∙ r.size;
  perm = λ v. s.perm v ∙ r.perm v;
  outside = λ k h. s.outside k h ∙ r.outside k h;
  from = λ k p q.
      let (i, pi, qi, e) = s.from k p q in
      let (j, pj, qj, f) = r.from i pi qi in (j, pj, qj, e ∙ f);
}

-- A region within a larger one.
pub Shuffled-widen :
    {lo hi lo' hi' : ℕ} {a b : List ℤ}
    → lo' ≤ lo
    → hi ≤ hi'
    → Shuffled lo hi a b
    → Shuffled lo' hi' a b
Shuffled-widen {lo} {hi} le ge r = record {
  size = r.size;
  perm = r.perm;
  outside = λ k h. r.outside k (elim h [ inl x ↦ inl (omega arith) | inr x ↦ inr (omega arith) ]);
  from = λ k p q. elim (dec_lt k lo) [
    | yes below ↦ (k, p, q, r.outside k (inl below))
    | no nb ↦ elim (dec_lt hi k) [
      | yes above ↦ (k, p, q, r.outside k (inr above))
      | no na ↦
          let (i, pi, qi, e) = r.from k (omega arith) (omega arith) in
          (i, omega arith, omega arith, e)
    ]
  ];
}

-- The elements after a swap.
module _ (v : List ℤ) (i j : ℕ) where
  pub at-swap_first : i < j → j < length v → at (swap v i j) i ≡ at v j
  at-swap_first lt h =
      get_or-set_ne (set v i (at v j)) j i (at v i) (pos 0) (omega arith)
      ∙ get_or-set_self v i (at v j) (pos 0) (omega arith)

  pub at-swap_second : j < length v → at (swap v i j) j ≡ at v i
  at-swap_second h =
      get_or-set_self (set v i (at v j)) j (at v i) (pos 0) (omega (arith, length-set v i (at v j)))

  pub at-swap_ne : (k : ℕ) → i ≢ k → j ≢ k → at (swap v i j) k ≡ at v k
  at-swap_ne k ni nj =
      get_or-set_ne (set v i (at v j)) j k (at v i) (pos 0) nj
      ∙ get_or-set_ne v i k (at v j) (pos 0) ni

  swap-perm : (f : ℤ → Bool) → i < j → j < length v → count f (swap v i j) ≡ count f v
  swap-perm f lt h =
      let (x, e) = get-lt-length v i (omega arith) in
      let (y, e') = get-lt-length v j h in
      let first : get_elem? v i ≡ some (at v i) = e ∙ ap some (sym (get_elem?-at v i e)) in
      let second : get_elem? v j ≡ some (at v j) = e' ∙ ap some (sym (get_elem?-at v j e')) in
      omega (
        arith,
        count-set f v i (at v i) (at v j) first,
        count-set f (set v i (at v j)) j (at v j) (at v i)
            (get_elem?-set_ne v (at v j) (omega arith) ∙ second),
      )

  pub swap-Shuffled : i < j → j < length v → Shuffled i j v (swap v i j)
  swap-Shuffled lt h = record {
    size = length-set (set v i (at v j)) j (at v i) ∙ length-set v i (at v j);
    perm = λ z. swap-perm (eqb_ℤ z) lt h;
    outside = λ k o. elim o [
      | inl p ↦ at-swap_ne k (omega arith) (omega arith)
      | inr p ↦ at-swap_ne k (omega arith) (omega arith)
    ];
    from = λ k p q. elim (ℕ_discrete k i) [
      | yes is_i ↦ (j, omega arith, omega arith, ap (at (swap v i j)) is_i ∙ at-swap_first lt h)
      | no ni ↦ elim (ℕ_discrete k j) [
        | yes is_j ↦ (i, omega arith, omega arith, ap (at (swap v i j)) is_j ∙ at-swap_second h)
        | no nj ↦ (k, p, q, at-swap_ne k (omega arith) (omega arith))
      ]
    ];
  }
