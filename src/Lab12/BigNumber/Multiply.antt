-- ===== src/Lab12/BigNumber/Multiply.antt =====
-- `multiply` of lab12es01.cpp against the product of numbers.
use sdp_labs.Common.{
  ℕ, zero, suc, ◌+◌, ◌*◌, ◌/◌, ◌%◌, ◌^◌, ◌≤◌, ◌<◌, ◌≡◌, ◌∙◌, sym, ap, refl, some, List, [], ◌∷◌,
  ◌++◌, arith, length, length-append, ltb, true,
}
use mathlib.Core.List.{append_assoc, append-nil}
use sdp_labs.Lab12.BigNumber.{digit_loop, carry_loop, multiply}
use sdp_labs.Lab12.BigNumber.Digits.{value, Canonical, length-le}

digit_le : (d x : ℕ) → d < 10 → d * x ≤ 9 * x
digit_le d zero h = omega arith
digit_le d (suc x) h = omega (arith, digit_le d x h)

distribute : (x d v : ℕ) → x * (d + 10 * v) ≡ d * x + 10 * (x * v)
distribute zero d v = omega arith
distribute (suc x) d v = omega (arith, distribute x d v)

mul_pos : (x v : ℕ) → 0 < x → 0 < v → 0 < x * v
mul_pos zero v h g = absurd (omega arith)
mul_pos (suc x) v h g = omega arith

-- The loop on the digits: with the digits `t` of the carry behind it, the result is the product.
abbrev Product : ℕ → ℕ → List ℕ → List ℕ → Type 0
Product x c res r = Canonical r × (value r ≡ x * value res + c)

digit_loop_lem :
    (x c : ℕ) (res : List ℕ)
    → x ≤ 214748364
    → c < x
    → Canonical res
    → (r : List ℕ) × (carry : ℕ) × (digit_loop x c res ≡ some (r, carry))
      × (carry < x)
      × (length r ≡ length res)
      × ((t : List ℕ) → Canonical t → value t ≡ carry → Product x c res (r ++ t))
unfolding digit_loop
digit_loop_lem x c [] hx hc can = ([], c, refl, hc, refl, λ t ct vt. (ct, omega arith))
digit_loop_lem x c (d ∷ res) hx hc can =
    let le = digit_le d x can.0 in
    let small : ltb (d * x + c) (2 ^ 31) ≡ true = ground arith in
    let (r, carry, e, lt, len, rest) =
      digit_loop_lem x ((d * x + c) / 10) res hx (omega arith) can.2 in
    (
      (d * x + c) % 10 ∷ r,
      carry,
      ground (arith, small, e),
      lt,
      omega arith,
      λ t ct vt.
          let (cr, vr) = rest t ct vt in
          let eq : value ((d * x + c) % 10 ∷ r ++ t) ≡ x * value (d ∷ res) + c =
            omega (arith, distribute x d (value res)) in
          (
            (omega arith, omega (arith, eq, mul_pos x (value (d ∷ res)) (omega arith) can.1), cr),
            eq,
          ),
    )

-- The digits of a number, on fuel.
abbrev digits : ℕ → ℕ → List ℕ
digits zero c = []
digits (suc fuel) zero = []
digits (suc fuel) (suc c) = suc c % 10 ∷ digits fuel (suc c / 10)

digits_lem : (fuel c : ℕ) → c < fuel → Canonical (digits fuel c) × (value (digits fuel c) ≡ c)
digits_lem zero c h = absurd (omega arith)
digits_lem (suc fuel) zero h = (tt, refl)
digits_lem (suc fuel) (suc c) h =
    let (can, v) = digits_lem fuel (suc c / 10) (omega arith) in
    let eq : suc c % 10 + 10 * value (digits fuel (suc c / 10)) ≡ suc c = omega (arith, v) in
    ((omega arith, omega (arith, eq), can), eq)

module _ (max_digits : ℕ) where
  carry_loop_lem :
      (fuel c : ℕ) (r : List ℕ)
      → c < fuel
      → length (r ++ digits fuel c) ≤ max_digits
      → carry_loop max_digits fuel c r ≡ some (r ++ digits fuel c)
  unfolding carry_loop
  carry_loop_lem zero c r h le = absurd (omega arith)
  carry_loop_lem (suc fuel) zero r h le = ap some (sym (append-nil r))
  carry_loop_lem (suc fuel) (suc c) r h le =
      let next : List ℕ = r ++ suc c % 10 ∷ [] in
      let same : next ++ digits fuel (suc c / 10) ≡ r ++ (suc c % 10 ∷ digits fuel (suc c / 10)) =
        append_assoc r (suc c % 10 ∷ []) (digits fuel (suc c / 10)) in
      let room : ltb (length r) max_digits ≡ true =
        ground (arith, length-append r (suc c % 10 ∷ digits fuel (suc c / 10))) in
      let go =
        carry_loop_lem fuel (suc c / 10) next (omega arith) (omega (arith, ap length same)) in
      ground (arith, room, go ∙ ap some same)

  -- A number without leading zeros times `x` from 1 to 214748364, whose product is below 10 ^ MAXDIGITS: no LONG
  -- overflows, no write is behind the array, and the result is the product, again without leading zeros,
  -- of at most MAXDIGITS digits.
  pub multiply_lem :
      (x : ℕ) (res : List ℕ)
      → 0 < x
      → x ≤ 214748364
      → Canonical res
      → x * value res < 10 ^ max_digits
      → (r : List ℕ) × (multiply max_digits x res ≡ some r)
        × Canonical r
        × (value r ≡ x * value res)
        × (length r ≤ max_digits)
  unfolding multiply
  multiply_lem x res h le can fit =
      let (r, c, e, lt, len, rest) = digit_loop_lem x 0 res le h can in
      let (cd, vd) = digits_lem (c + 1) c (omega arith) in
      let (cr, vr) = rest (digits (c + 1) c) cd vd in
      let bound = length-le (r ++ digits (c + 1) c) max_digits cr (omega (arith, vr)) in
      (
        r ++ digits (c + 1) c,
        ground (arith, e, carry_loop_lem (c + 1) c r (omega arith) bound),
        cr,
        omega (arith, vr),
        bound,
      )
