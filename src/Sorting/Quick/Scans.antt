-- ===== src/Sorting/Quick/Scans.antt =====
-- The two inner loops of `qsorter`: an element that stops them keeps them in the array.
use mathlib.Core.Path.{subst}
use sdp_labs.Common.{
  ℕ, zero, suc, ◌+◌, ◌-◌, ◌≤◌, ◌<◌, ◌≡◌, ◌≢◌, ◌∙◌, sym, ap, inl, inr, true, false, some, List,
  arith, length, get_elem?, get-lt-length, ℕ_discrete, Bool-cases,
}
use sdp_labs.Common.Int.{ℤ, ◌≤ℤ◌, ltb_ℤ}
use sdp_labs.Sorting.Bubble.Region.{at, get_elem?-at}
use sdp_labs.Sorting.Quick.{scan_down, scan_up}

module _ (v : List ℤ) (x : ℤ) where
  down_steps :
      (j : ℕ) {y : ℤ}
      → get_elem? v j ≡ some y
      → (ltb_ℤ x y ≡ true → scan_down v x (suc j) ≡ scan_down v x j)
        × (ltb_ℤ x y ≡ false → scan_down v x (suc j) ≡ some j)
  unfolding scan_down
  down_steps j e = ground (arith, e)

  up_steps :
      (rounds i : ℕ) {y : ℤ}
      → get_elem? v i ≡ some y
      → (ltb_ℤ y x ≡ true → scan_up (suc rounds) v x i ≡ scan_up rounds v x (i + 1))
        × (ltb_ℤ y x ≡ false → scan_up (suc rounds) v x i ≡ some i)
  unfolding scan_up
  up_steps rounds i e = ground (arith, e)

  -- The place where the first loop stops, if `p` is below `j` with an element that is not above `x`.
  pub record Down (p j : ℕ) : Type 0 where
    pub stop : ℕ
    pub result : scan_down v x j ≡ some stop
    pub from_p : p ≤ stop
    pub below : stop < j
    pub small : at v stop ≤ℤ x
    pub passed : (k : ℕ) → stop < k → k < j → x ≤ℤ at v k

  pub record Up (rounds i q : ℕ) : Type 0 where
    pub stop : ℕ
    pub result : scan_up rounds v x i ≡ some stop
    pub from_i : i ≤ stop
    pub to_q : stop ≤ q
    pub great : x ≤ℤ at v stop
    pub passed : (k : ℕ) → i ≤ k → k < stop → at v k ≤ℤ x

pub scan_down_lem :
    (v : List ℤ) (x : ℤ) (j p : ℕ) → p < j → j ≤ length v → at v p ≤ℤ x → Down v x p j
scan_down_lem v x zero p lt le s = absurd (omega arith)
scan_down_lem v x (suc j) p lt le s =
    let (y, e) = get-lt-length v j (omega arith) in
    let here : at v j ≡ y = get_elem?-at v j e in
    elim (Bool-cases (ltb_ℤ x y)) [
      | inl more ↦
          let before : p ≢ j = λ same. ground (arith, s, ap (at v) same, here, more) in
          let d = scan_down_lem v x j p (omega arith) (omega arith) s in
          record {
            stop = d.stop;
            result = (down_steps v x j e).0 more ∙ d.result;
            from_p = d.from_p;
            below = omega (arith, d.below);
            small = d.small;
            passed = λ k a b. elim (ℕ_discrete k j) [
              | yes last ↦ subst (λ z. x ≤ℤ z) (sym (ap (at v) last ∙ here)) (ground (arith, more))
              | no nl ↦ d.passed k a (omega arith)
            ];
          }
      | inr stops ↦ record {
        stop = j;
        result = (down_steps v x j e).1 stops;
        from_p = omega arith;
        below = omega arith;
        small = subst (λ z. z ≤ℤ x) (sym here) (ground (arith, stops));
        passed = λ k a b. absurd (omega arith);
      }
    ]

pub scan_up_lem :
    (rounds : ℕ) (v : List ℤ) (x : ℤ) (i q : ℕ)
    → i ≤ q
    → q < length v
    → q - i < rounds
    → x ≤ℤ at v q
    → Up v x rounds i q
scan_up_lem zero v x i q le lt enough s = absurd (omega arith)
scan_up_lem (suc rounds) v x i q le lt enough s =
    let (y, e) = get-lt-length v i (omega arith) in
    let here : at v i ≡ y = get_elem?-at v i e in
    elim (Bool-cases (ltb_ℤ y x)) [
      | inl less ↦
          let before : q ≢ i = λ same. ground (arith, s, ap (at v) same, here, less) in
          let u = scan_up_lem rounds v x (i + 1) q (omega arith) lt (omega arith) s in
          record {
            stop = u.stop;
            result = (up_steps v x rounds i e).0 less ∙ u.result;
            from_i = omega (arith, u.from_i);
            to_q = u.to_q;
            great = u.great;
            passed = λ k a b. elim (ℕ_discrete k i) [
              | yes first ↦
                  subst (λ z. z ≤ℤ x) (sym (ap (at v) first ∙ here)) (ground (arith, less))
              | no nf ↦ u.passed k (omega arith) b
            ];
          }
      | inr stops ↦ record {
        stop = i;
        result = (up_steps v x rounds i e).1 stops;
        from_i = omega arith;
        to_q = le;
        great = subst (λ z. x ≤ℤ z) (sym here) (ground (arith, stops));
        passed = λ k a b. absurd (omega arith);
      }
    ]
