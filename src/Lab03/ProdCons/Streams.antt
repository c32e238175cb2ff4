-- ===== src/Lab03/ProdCons/Streams.antt =====
-- The sequence of items that goes through the buffer.
use sdp_labs.Common.{
  ℕ, zero, suc, ◌+◌, ◌-◌, ◌≤◌, ◌≡◌, refl, ap, ap₂, ◌∙◌, sym, false, List, [], ◌∷◌, ◌++◌, arith, ltb,
  if◌then◌else◌,
}
use sdp_labs.Common.Count.{All}
use sdp_labs.Common.Int.{ℤ, pos, eqb_ℤ}
use sdp_labs.Lab03.ProdCons.{over, item}

-- `k` numbers from `n` on.
abbrev pub numbers : ℕ → ℕ → List ℤ
numbers zero n = []
numbers (suc k) n = pos n ∷ numbers k (n + 1)

-- What the producer still has to put at counter `n`.
pub left : ℕ → ℕ → List ℤ
left limit n = if ltb limit n then [] else numbers (limit - n) n ++ over ∷ []

numbers-end : (limit n k : ℕ) → n + k ≡ limit → n ≤ limit → left limit n ≡ numbers k n ++ over ∷ []
unfolding left
numbers-end limit n k e h =
    let same : limit - n ≡ k = omega arith in ground (arith, ap (λ k. numbers k n) same)

left-step-k : (limit n k : ℕ) → n + k ≡ limit → left limit n ≡ item limit n ∷ left limit (n + 1)
unfolding left
left-step-k limit n zero e = numbers-end limit n zero e (omega arith) ∙ ground arith
left-step-k limit n (suc k) e =
    numbers-end limit n (suc k) e (omega arith)
    ∙ ap₂ ◌∷◌ (ground arith) (sym (numbers-end limit (n + 1) k (omega arith) (omega arith)))

pub left-step : (limit n : ℕ) → n ≤ limit → left limit n ≡ item limit n ∷ left limit (n + 1)
left-step limit n h = left-step-k limit n (limit - n) (omega arith)

pub left_done : (limit : ℕ) → left limit (limit + 1) ≡ []
unfolding left
left_done limit = ground arith

pub left_all : (limit : ℕ) → left limit 0 ≡ numbers limit 0 ++ over ∷ []
left_all limit = numbers-end limit 0 limit (omega arith) (omega arith)

-- Where OVER stands, the stream ends.
pub over_last :
    (p q : List ℤ) (k n : ℕ)
    → p ++ (over ∷ q) ≡ numbers k n ++ over ∷ []
    → (q ≡ []) × (p ≡ numbers k n)
over_last [] q zero n e = ground arith
over_last [] q (suc k) n e = absurd (ground arith)
over_last (y ∷ []) q zero n e = absurd (ground arith)
over_last (y ∷ z ∷ p) q zero n e = absurd (ground arith)
over_last (y ∷ p) q (suc k) n e =
    let r = over_last p q k (n + 1) (ground arith) in ground (arith, r.0, r.1)

-- A list without OVER is not the whole stream.
pub not_over :
    (p : List ℤ) (k n : ℕ) → All (λ x. eqb_ℤ x over ≡ false) p → p ≡ numbers k n ++ over ∷ [] → ⊥
not_over [] zero n a e = ground arith
not_over [] (suc k) n a e = ground arith
not_over (y ∷ p) zero n a e = ground (arith, a.0)
not_over (y ∷ p) (suc k) n a e = not_over p k (n + 1) a.1 (ground arith)

-- A list without OVER that starts the stream is a list of its first numbers.
pub prefix_numbers :
    (p q : List ℤ) (k n : ℕ)
    → All (λ x. eqb_ℤ x over ≡ false) p
    → p ++ q ≡ numbers k n ++ over ∷ []
    → (m : ℕ) × (m ≤ k) × (p ≡ numbers m n)
prefix_numbers [] q k n a e = (0, omega arith, refl)
prefix_numbers (y ∷ p) q zero n a e = absurd (ground (arith, a.0))
prefix_numbers (y ∷ p) q (suc k) n a e =
    let (m, le, eq) = prefix_numbers p q k (n + 1) a.1 (ground arith) in
    (suc m, omega arith, ground (arith, eq))
