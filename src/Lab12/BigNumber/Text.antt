-- ===== src/Lab12/BigNumber/Text.antt =====
-- Numbers as texts, as `factorial` and `myMultiply` of lab12es01.cpp write them.
use sdp_labs.Common.{
  ℕ, zero, suc, ◌+◌, ◌-◌, ◌*◌, ◌≤◌, ◌<◌, ◌≡◌, ◌∙◌, sym, ap, refl, ◌⊎◌, inl, inr, List, [], ◌∷◌,
  ◌++◌, arith, length, take, length-append, get_or,
}
use sdp_labs.Common.Count.{All, All-append}
use sdp_labs.Lab12.BigNumber.{chars, digits_of}
use sdp_labs.Lab12.BigNumber.Digits.{value, Canonical}

-- The number that a text reads as, from the left.
abbrev pub scan : ℕ → List ℕ → ℕ
scan n [] = n
scan n (c ∷ s) = scan (n * 10 + (c - 48)) s

abbrev pub IsDigit : ℕ → Type 0
IsDigit c = (48 ≤ c) × (c < 58)

-- A text of digits that reads as `n` and has no leading zero.
abbrev pub Writes : List ℕ → ℕ → Type 0
Writes s n = (scan 0 s ≡ n) × All IsDigit s × ((48 < get_or s 0 0) ⊎ (s ≡ 48 ∷ []))

scan-append : (n : ℕ) (s : List ℕ) (c : ℕ) → scan n (s ++ c ∷ []) ≡ scan n s * 10 + (c - 48)
scan-append n [] c = refl
scan-append n (b ∷ s) c = scan-append (n * 10 + (b - 48)) s c

pub scan-chars : (res : List ℕ) → scan 0 (chars res) ≡ value res
scan-chars [] = refl
scan-chars (d ∷ res) = omega (arith, scan-append 0 (chars res) (d + 48), scan-chars res)

chars-append : (res : List ℕ) (d : ℕ) → chars (res ++ d ∷ []) ≡ (d + 48) ∷ chars res
chars-append [] d = refl
chars-append (b ∷ res) d = ap (λ l. l ++ (b + 48) ∷ []) (chars-append res d)

pub chars-digits_of : (s : List ℕ) → All IsDigit s → chars (digits_of s) ≡ s
chars-digits_of [] h = refl
chars-digits_of (c ∷ s) h =
    chars-append (digits_of s) (c - 48)
    ∙ ap (λ (k : ℕ). k ∷ chars (digits_of s)) {y = c} (omega (arith, h.0))
    ∙ ap (λ l. c ∷ l) (chars-digits_of s h.1)

pub digits_of-All : (s : List ℕ) → All IsDigit s → All (λ d. d < 10) (digits_of s)
digits_of-All [] h = tt
digits_of-All (c ∷ s) h =
    All-append (λ d. d < 10) (digits_of s) ((c - 48) ∷ []) (digits_of-All s h.1)
      (omega (arith, h.0), tt)

pub append-Canonical :
    (l : List ℕ) (d : ℕ)
    → All (λ b. b < 10) l
    → 0 < d
    → d < 10
    → Canonical (l ++ d ∷ []) × (0 < value (l ++ d ∷ []))
append-Canonical [] d h pos lt = ((lt, omega arith, tt), omega arith)
append-Canonical (b ∷ l) d h pos lt =
    let (can, v) = append-Canonical l d h.1 pos lt in
    ((h.0, omega (arith, v), can), omega (arith, v))

chars-All : (res : List ℕ) → Canonical res → All IsDigit (chars res)
chars-All [] h = tt
chars-All (d ∷ res) h =
    All-append IsDigit (chars res) ((d + 48) ∷ []) (chars-All res h.2)
      ((omega arith, omega (arith, h.0)), tt)

get_or-append : (s t : List ℕ) → 48 < get_or s 0 0 → 48 < get_or (s ++ t) 0 0
get_or-append [] t h = absurd (omega arith)
get_or-append (c ∷ s) t h = h

chars-lead : (d : ℕ) (res : List ℕ) → Canonical (d ∷ res) → 48 < get_or (chars (d ∷ res)) 0 0
chars-lead d [] h = omega (arith, h.1)
chars-lead d (e ∷ res) h = get_or-append (chars (e ∷ res)) ((d + 48) ∷ []) (chars-lead e res h.2)

pub length-chars : (res : List ℕ) → length (chars res) ≡ length res
length-chars [] = refl
length-chars (d ∷ res) = omega (arith, length-append (chars res) ((d + 48) ∷ []), length-chars res)

pub take-all : (n : ℕ) (s : List ℕ) → length s ≤ n → take n s ≡ s
take-all zero [] h = refl
take-all zero (c ∷ s) h = absurd (omega arith)
take-all (suc n) [] h = refl
take-all (suc n) (c ∷ s) h = ap (λ l. c ∷ l) (take-all n s (omega arith))

-- Canonical digits with a value are written as that value.
pub chars-Writes : (res : List ℕ) → Canonical res → 0 < value res → Writes (chars res) (value res)
chars-Writes [] h pos = absurd (omega arith)
chars-Writes (d ∷ res) h pos =
    (scan-chars (d ∷ res), chars-All (d ∷ res) h, inl (chars-lead d res h))

-- What the digits of such a text are.
pub digits_of-lem :
    (s : List ℕ) (n : ℕ) → 0 < n → Writes s n → Canonical (digits_of s) × (value (digits_of s) ≡ n)
digits_of-lem [] n pos h = absurd (omega (arith, h.0))
digits_of-lem (c ∷ s) n pos (v, all, inl lead) =
    let (can, p) =
      append-Canonical (digits_of s) (c - 48) (digits_of-All s all.1) (omega arith)
        (omega (arith, all.0)) in
    (can, sym (scan-chars (digits_of (c ∷ s))) ∙ ap (scan 0) (chars-digits_of (c ∷ s) all) ∙ v)
digits_of-lem (c ∷ s) n pos (v, all, inr zero_text) = absurd (omega (arith, ap (scan 0) zero_text))
