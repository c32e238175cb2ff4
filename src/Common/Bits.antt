-- ===== src/Common/Bits.antt =====
-- Single bits of a word: `|`, `&`, `~` and `1 << k` seen bit by bit.
use Prim.Native.Nat.{bit_and, bit_or, digits, bit_and-bitwise, bit_or-bitwise, max}
use native.Mathlib.Nat.{pow-suc, one-le-pow, pow-le-pow_right}
use sdp_labs.Common.{
  ℕ, zero, suc, ◌+◌, ◌-◌, ◌*◌, ◌/◌, ◌%◌, ◌^◌, ◌≤◌, ◌<◌, ◌≡◌, ◌≢◌, ◌↔◌, ◌∙◌, sym, refl, ap, min,
  arith, ℕ_discrete,
}

-- Bit `p` of `a`.
pub bit : ℕ → ℕ → ℕ
bit a zero = a % 2
bit a (suc p) = bit (a / 2) p

-- What a bitwise operation does with `f` on the lowest digits, whatever fuel it has.
module _ (z : ℕ → ℕ) (f : ℕ → ℕ → ℕ) where
  enough : (m n a b : ℕ) → a ≤ m → a ≤ n → digits z f m a b ≡ digits z f n a b
  enough zero zero a b h k = refl
  enough zero (suc n) zero b h k = refl
  enough zero (suc n) (suc a) b h k = absurd (omega arith)
  enough (suc m) zero zero b h k = refl
  enough (suc m) zero (suc a) b h k = absurd (omega arith)
  enough (suc m) (suc n) zero b h k = refl
  enough (suc m) (suc n) (suc a) b h k =
      omega (arith, enough m n (suc a / 2) (b / 2) (omega arith) (omega arith))

-- The lowest digit, and the others.
pub bit_or-digit : (a b : ℕ) → bit_or a b ≡ bit_or (a / 2) (b / 2) * 2 + max (a % 2) (b % 2)
bit_or-digit zero b = omega (arith, bit_or-bitwise 0 b, bit_or-bitwise 0 (b / 2))
bit_or-digit (suc a) b =
    let half : ℕ = suc a / 2 in
    omega (
      arith,
      bit_or-bitwise (suc a) b,
      bit_or-bitwise half (b / 2),
      enough (λ b. b) max a half half (b / 2) (omega arith) (omega arith),
    )

pub bit_and-digit : (a b : ℕ) → bit_and a b ≡ bit_and (a / 2) (b / 2) * 2 + min (a % 2) (b % 2)
bit_and-digit zero b = omega (arith, bit_and-bitwise 0 b, bit_and-bitwise 0 (b / 2))
bit_and-digit (suc a) b =
    let half : ℕ = suc a / 2 in
    omega (
      arith,
      bit_and-bitwise (suc a) b,
      bit_and-bitwise half (b / 2),
      enough (λ b. zero) min a half half (b / 2) (omega arith) (omega arith),
    )

pub bit-le-one : (a p : ℕ) → bit a p ≤ 1
unfolding bit
bit-le-one a zero = omega arith
bit-le-one a (suc p) = bit-le-one (a / 2) p

pub bit-bit_or : (a b p : ℕ) → bit (bit_or a b) p ≡ max (bit a p) (bit b p)
unfolding bit
bit-bit_or a b zero = omega (arith, bit_or-digit a b)
bit-bit_or a b (suc p) =
    let e : bit_or a b / 2 ≡ bit_or (a / 2) (b / 2) = omega (arith, bit_or-digit a b) in
    rw e (bit-bit_or (a / 2) (b / 2) p)

pub bit-bit_and : (a b p : ℕ) → bit (bit_and a b) p ≡ min (bit a p) (bit b p)
unfolding bit
bit-bit_and a b zero = omega (arith, bit_and-digit a b)
bit-bit_and a b (suc p) =
    let e : bit_and a b / 2 ≡ bit_and (a / 2) (b / 2) = omega (arith, bit_and-digit a b) in
    rw e (bit-bit_and (a / 2) (b / 2) p)

pub bit_zero : (p : ℕ) → bit 0 p ≡ 0
unfolding bit
bit_zero zero = refl
bit_zero (suc p) = bit_zero p

-- `1 << k` has bit `k` alone.
pub bit-pow_self : (k : ℕ) → bit (2 ^ k) k ≡ 1
unfolding bit
bit-pow_self zero = refl
bit-pow_self (suc k) =
    let e : 2 ^ suc k / 2 ≡ 2 ^ k = omega (arith, pow-suc 2 k) in rw e (bit-pow_self k)

pub bit-pow_ne : (k p : ℕ) → k ≢ p → bit (2 ^ k) p ≡ 0
unfolding bit
bit-pow_ne zero zero h = absurd (h refl)
bit-pow_ne zero (suc p) h = bit_zero p
bit-pow_ne (suc k) zero h = omega (arith, pow-suc 2 k)
bit-pow_ne (suc k) (suc p) h =
    let e : 2 ^ suc k / 2 ≡ 2 ^ k = omega (arith, pow-suc 2 k) in
    rw e (bit-pow_ne k p (λ z. h (ap suc z)))

-- `~a` in a word of `k` bits.
abbrev pub complement : ℕ → ℕ → ℕ
complement k a = 2 ^ k - 1 - a

pub bit-complement : (k a p : ℕ) → a < 2 ^ k → p < k → bit (complement k a) p ≡ 1 - bit a p
unfolding bit
bit-complement zero a p h l = absurd (omega arith)
bit-complement (suc k) a zero h l = omega (arith, pow-suc 2 k, one-le-pow k 2)
bit-complement (suc k) a (suc p) h l =
    let e : complement (suc k) a / 2 ≡ complement k (a / 2) =
      omega (arith, pow-suc 2 k, one-le-pow k 2) in
    rw e (bit-complement k (a / 2) p (omega (arith, pow-suc 2 k)) (omega arith))

-- A test of one bit by `&`.
bit_and-zero : (n a : ℕ) → a ≤ n → bit_and a 0 ≡ 0
bit_and-zero n zero h = omega (arith, bit_and-bitwise 0 0)
bit_and-zero zero (suc a) h = absurd (omega arith)
bit_and-zero (suc n) (suc a) h =
    omega (arith, bit_and-digit (suc a) 0, bit_and-zero n (suc a / 2) (omega arith))

pub bit_and-pow : (a k : ℕ) → bit_and a (2 ^ k) ≡ bit a k * 2 ^ k
unfolding bit
bit_and-pow a zero = omega (arith, bit_and-digit a 1, bit_and-zero (a / 2) (a / 2) (omega arith))
bit_and-pow a (suc k) =
    let e : 2 ^ suc k / 2 ≡ 2 ^ k = omega (arith, pow-suc 2 k) in
    let rest : bit_and (a / 2) (2 ^ suc k / 2) ≡ bit (a / 2) k * 2 ^ k =
      rw e (bit_and-pow (a / 2) k) in
    omega (
      arith,
      bit_and-digit a (2 ^ suc k),
      rest,
      pow-suc 2 k,
      ap (λ (t : ℕ). bit (a / 2) k * t) (pow-suc 2 k),
    )

-- A word that is not all ones has a bit that is 0.
pub some_zero_bit : (k a : ℕ) → a < 2 ^ k → a ≢ 2 ^ k - 1 → (p : ℕ) × (p < k) × (bit a p ≡ 0)
unfolding bit
some_zero_bit zero a h ne = absurd (ne (omega arith))
some_zero_bit (suc k) a h ne = elim (ℕ_discrete (a % 2) 0) [
  | yes even ↦ (0, omega arith, even)
  | no odd ↦
      let (p, lt, e) =
        some_zero_bit k (a / 2) (omega (arith, pow-suc 2 k))
          (omega (arith, pow-suc 2 k, one-le-pow k 2)) in
      (suc p, omega arith, e)
]

-- `1 << off` fits a word.
pub pow_small : (off : ℕ) → off < 32 → 2 ^ off < 2 ^ 32
pow_small off h =
    omega (arith, pow-le-pow_right {n = 2} (omega arith) {i = off} {j = 31} (omega arith))

one_bit : (b k : ℕ) → b ≤ 1 → (b * 2 ^ k ≡ 0) ↔ (b ≡ 0)
one_bit zero k h = ((λ z. refl), (λ z. omega arith))
one_bit (suc zero) k h =
    ((λ z. absurd (omega (arith, one-le-pow k 2))), (λ z. absurd (omega arith)))
one_bit (suc (suc b)) k h = absurd (omega arith)

pub bit_and-eq-zero : (a k : ℕ) → (bit_and a (2 ^ k) ≡ 0) ↔ (bit a k ≡ 0)
bit_and-eq-zero a k =
    let i = one_bit (bit a k) k (bit-le-one a k) in
    ((λ z. i.0 (sym (bit_and-pow a k) ∙ z)), (λ z. bit_and-pow a k ∙ i.1 z))
