-- ===== src/Lab12/BigNumber/Digits.antt =====
-- The value of digits, and how many there are.
use sdp_labs.Common.{ℕ, zero, suc, ◌+◌, ◌*◌, ◌^◌, ◌≤◌, ◌<◌, ◌≡◌, List, [], ◌∷◌, arith, length}

abbrev pub value : List ℕ → ℕ
value [] = 0
value (d ∷ res) = d + 10 * value res

-- Decimal digits, the last of which is not 0: what is left behind any place has a value.
abbrev pub Canonical : List ℕ → Type 0
Canonical [] = Unit
Canonical (d ∷ res) = (d < 10) × (0 < value (d ∷ res)) × Canonical res

pow_ten : (m : ℕ) → 10 ^ suc m ≡ 10 * 10 ^ m
pow_ten m = omega arith

-- A number below 10 ^ m has at most m digits.
pub length-le : (res : List ℕ) (m : ℕ) → Canonical res → value res < 10 ^ m → length res ≤ m
length-le [] m c h = omega arith
length-le (d ∷ res) zero c h = absurd (omega (arith, c.1))
length-le (d ∷ res) (suc m) c h = omega (arith, length-le res m c.2 (omega (arith, pow_ten m)))
