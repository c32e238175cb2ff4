-- ===== src/Lab12/BigNumber/Results.antt =====
-- `factorial` and `myMultiply` of lab12es01.cpp against the products of numbers.
use mathlib.Core.Path.{subst}
use sdp_labs.Common.{
  ℕ, zero, suc, ◌+◌, ◌-◌, ◌*◌, ◌^◌, ◌≤◌, ◌<◌, ◌≡◌, ◌∙◌, sym, ap, refl, ◌⊎◌, inl, inr, some, List,
  [], ◌∷◌, arith, length, take,
}
use sdp_labs.Lab12.BigNumber.{
  multiply, chars, digits_of, text_of, factorial_loop, factorial, my_multiply,
}
use sdp_labs.Lab12.BigNumber.Digits.{value, Canonical, length-le}
use sdp_labs.Lab12.BigNumber.Multiply.{multiply_lem}
use sdp_labs.Lab12.BigNumber.Text.{
  Writes, scan, scan-chars, chars-digits_of, digits_of-All, append-Canonical, length-chars,
  take-all, chars-Writes, digits_of-lem,
}

le_mul : (x v : ℕ) → v ≤ suc x * v
le_mul x v = omega arith

abbrev pub fact : ℕ → ℕ
fact zero = 1
fact (suc n) = suc n * fact n

fact_step : (x : ℕ) → 0 < x → fact x ≡ x * fact (x - 1)
fact_step zero h = absurd (omega arith)
fact_step (suc x) h = ap (λ k. suc x * fact k) (omega arith)

fact_pos : (x : ℕ) → 0 < fact x
fact_pos zero = omega arith
fact_pos (suc x) = omega (arith, fact_pos x)

fact_grows : (x : ℕ) → fact x ≤ fact (suc x)
fact_grows x = omega (arith, le_mul x (fact x))

fact_le : (x k : ℕ) → fact x ≤ fact (k + x)
fact_le x zero = omega (arith, ap fact {x = 0 + x} {y = x} (omega arith))
fact_le x (suc k) = omega (
  arith,
  fact_le x k,
  ap fact {x = suc k + x} {y = suc (k + x)} (omega arith),
  fact_grows (k + x),
)

fact_pred : (n : ℕ) → fact (2 + (n - 1) - 1) ≡ fact n
fact_pred zero = refl
fact_pred (suc n) = ap fact {y = suc n} (omega arith)

ℕ_cases : (n : ℕ) → (n ≡ 0) ⊎ (0 < n)
ℕ_cases zero = inl refl
ℕ_cases (suc n) = inr (omega arith)

zero-Writes : Writes (48 ∷ []) 0
zero-Writes = (refl, ((omega arith, omega arith), tt), inr refl)

zero_text : (s : List ℕ) → Writes s 0 → s ≡ 48 ∷ []
zero_text [] h = absurd (ground arith)
zero_text (c ∷ s) (v, all, inl lead) =
    let (can, p) =
      append-Canonical (digits_of s) (c - 48) (digits_of-All s all.1) (omega arith)
        (omega (arith, all.0)) in
    absurd (
      omega
        (arith, p, scan-chars (digits_of (c ∷ s)), ap (scan 0) (chars-digits_of (c ∷ s) all), v))
zero_text (c ∷ s) (v, all, inr e) = e

multiply_zero : (x m : ℕ) → 0 < x → x ≤ 214748364 → multiply m x (0 ∷ []) ≡ some (0 ∷ [])
unfolding multiply
multiply_zero x m pos le = ground arith

zero_mul : (n : ℕ) → 0 * n ≡ 0
zero_mul n = omega arith

mul_zero : (x : ℕ) → x * 0 ≡ 0
mul_zero x = omega arith

le_times : (x n : ℕ) → 0 < x → n ≤ x * n
le_times zero n h = absurd (omega arith)
le_times (suc x) n h = omega arith

zero_times :
    (m x : ℕ)
    → 0 < x
    → 0 < m
    → digits_of (take (suc m) (48 ∷ [])) ≡ 0 ∷ []
    → multiply (suc m) x (0 ∷ []) ≡ some (0 ∷ [])
    → my_multiply (suc m) (48 ∷ []) x ≡ some (48 ∷ [])
unfolding my_multiply text_of
zero_times m x xp room whole e =
    let run : multiply (suc m) x (digits_of (take (suc m) (48 ∷ []))) ≡ some (0 ∷ []) =
      ap (multiply (suc m) x) whole ∙ e in
    ground (arith, run)

module _ (m : ℕ) where
  factorial_loop_lem :
      (rounds x : ℕ) (res : List ℕ)
      → 0 < x
      → x + rounds ≤ 214748365
      → fact (x + rounds - 1) < 10 ^ m
      → Canonical res
      → value res ≡ fact (x - 1)
      → length res ≤ m
      → (r : List ℕ) × (factorial_loop (suc m) rounds x res ≡ some r)
        × Canonical r
        × (value r ≡ fact (x + rounds - 1))
        × (length r ≤ m)
  unfolding factorial_loop
  factorial_loop_lem zero x res pos le fit can v len =
      (res, refl, can, v ∙ ap fact (omega arith), len)
  factorial_loop_lem (suc rounds) x res pos le fit can v len =
      let now : x * value res ≡ fact x = ap (λ k. x * k) v ∙ sym (fact_step x pos) in
      let final : fact (rounds + x) ≡ fact (x + suc rounds - 1) = ap fact (omega arith) in
      let small : x * value res < 10 ^ m = omega (arith, now, fact_le x rounds, final, fit) in
      let (r, e, cr, vr, _) =
        multiply_lem (suc m) x res pos (omega arith) can (omega (arith, small)) in
      let index : x + 1 + rounds - 1 ≡ x + suc rounds - 1 = omega arith in
      let (r', e', cr', vr', len') =
        factorial_loop_lem rounds (x + 1) r (omega arith) (omega arith)
          (subst (λ k. fact k < 10 ^ m) (sym index) fit) cr (vr ∙ now ∙ ap fact (omega arith))
          (length-le r m cr (omega (arith, vr, small))) in
      (r', ground (arith, e, e'), cr', vr' ∙ ap fact index, len')

  -- `factorial(n)` is the decimal text of n!, for n up to 214748364 where n! is below 10 ^ (MAXDIGITS - 1):
  -- no LONG overflows, and nothing is written behind an array.
  pub factorial_lem :
      (n : ℕ)
      → n ≤ 214748364
      → fact n < 10 ^ m
      → (s : List ℕ) × (factorial (suc m) n ≡ some s) × Writes s (fact n)
  unfolding factorial text_of
  factorial_lem n le fit =
      let same : fact (2 + (n - 1) - 1) ≡ fact n = fact_pred n in
      let some_place : 1 ≤ m = elim (ℕ_cases m) [
        | inl z ↦ absurd (omega (arith, fit, fact_pos n, ap (λ k. 10 ^ k) z))
        | inr p ↦ p
      ] in
      let (r, e, can, v, len) =
        factorial_loop_lem (n - 1) 2 (1 ∷ []) (omega arith) (omega arith) (omega (arith, same, fit))
          (omega arith, omega arith, tt) refl some_place in
      (
        chars r,
        ground (arith, e, len),
        subst (Writes (chars r)) (v ∙ same)
            (chars-Writes r can (omega (arith, v, fact_pos (2 + (n - 1) - 1)))),
      )

  -- `myMultiply(s, x)`, for a decimal text `s` of `n` without leading zeros, is that of `x * n`, for x up to
  -- 214748364 where the product is below 10 ^ (MAXDIGITS - 1), and MAXDIGITS is more than 1.
  pub my_multiply_lem :
      (s : List ℕ) (n x : ℕ)
      → Writes s n
      → x ≤ 214748364
      → x * n < 10 ^ m
      → 0 < m
      → (r : List ℕ) × (my_multiply (suc m) s x ≡ some r) × Writes r (x * n)
  unfolding my_multiply text_of
  my_multiply_lem s n x w le fit room = elim (ℕ_cases x) [
    | inl z ↦ (
      48 ∷ [],
      ground arith,
      subst (Writes (48 ∷ [])) (sym (ap (λ k. k * n) z ∙ zero_mul n)) zero-Writes,
    )
    | inr xp ↦ elim (ℕ_cases n) [
      | inl z ↦
          let same : s ≡ 48 ∷ [] = zero_text s (subst (Writes s) z w) in
          let whole : digits_of (take (suc m) (48 ∷ [])) ≡ 0 ∷ [] =
            ap digits_of (take-all (suc m) (48 ∷ []) (omega arith)) in
          (
            48 ∷ [],
            rw same (zero_times m x xp room whole (multiply_zero x (suc m) xp le)),
            subst (Writes (48 ∷ [])) (sym (ap (λ k. x * k) z ∙ mul_zero x)) zero-Writes,
          )
      | inr np ↦
          let (can, v) = digits_of-lem s n np w in
          let prod : x * value (digits_of s) ≡ x * n = ap (λ k. x * k) v in
          let more : n ≤ x * n = le_times x n xp in
          let (r, e, cr, vr, _) =
            multiply_lem (suc m) x (digits_of s) xp le can (omega (arith, prod, fit)) in
          let len = length-le r m cr (omega (arith, vr, prod, fit)) in
          let size : length s ≤ m = omega (
            arith,
            length-le (digits_of s) m can (omega (arith, v)),
            length-chars (digits_of s),
            ap length (chars-digits_of s w.1),
          ) in
          let whole : take (suc m) s ≡ s = take-all (suc m) s (omega arith) in
          (
            chars r,
            ground (arith, whole, e, len),
            subst (Writes (chars r)) (vr ∙ prod) (chars-Writes r cr (omega (arith, vr, prod))),
          )
    ]
  ]
