-- ===== src/Lab12/BigNumber.antt =====
-- lab12/lab12es01/lab12es01/lab12es01.cpp: numbers as arrays of decimal digits, the lowest first, and as text.
-- The first `res_size` places of `res` are the list. `none` is a LONG that overflows, or a write behind
-- an array of MAXDIGITS. A LONG that comes in is not negative here.
pub mod Digits
pub mod Multiply
pub mod Text
pub mod Results
use sdp_labs.Common.{
  ℕ, zero, suc, ◌+◌, ◌-◌, ◌*◌, ◌/◌, ◌%◌, ◌^◌, Option, none, some, List, [], ◌∷◌, ◌++◌, length, take,
  ltb, ◌==◌, true, false,
}

-- The `for` loop of `multiply`: the new digits, and the carry.
unfoldable pub digit_loop : ℕ → ℕ → List ℕ → Option (List ℕ × ℕ)
digit_loop x carry [] = some ([], carry)
digit_loop x carry (d ∷ res) =
    let prod : ℕ = d * x + carry in
    elim (ltb prod (2 ^ 31)) [
      | false ↦ none
      | true ↦ elim (digit_loop x (prod / 10) res) [
        | none ↦ none
        | some (res', carry') ↦ some (prod % 10 ∷ res', carry')
      ]
    ]

-- The digits as characters, the highest first; the 0 behind them needs a place too.
abbrev pub chars : List ℕ → List ℕ
chars [] = []
chars (d ∷ res) = chars res ++ (d + 48) ∷ []

abbrev pub digits_of : List ℕ → List ℕ
digits_of [] = []
digits_of (c ∷ s) = digits_of s ++ (c - 48) ∷ []

module _ (max_digits : ℕ) where
  -- `while (carry)`, on fuel.
  unfoldable pub carry_loop : ℕ → ℕ → List ℕ → Option (List ℕ)
  carry_loop zero carry res = none
  carry_loop (suc fuel) carry res = elim (carry == 0) [
    | true ↦ some res
    | false ↦ elim (ltb (length res) max_digits) [
      | false ↦ none
      | true ↦ carry_loop fuel (carry / 10) (res ++ carry % 10 ∷ [])
    ]
  ]

  -- The carry falls in every round.
  unfoldable pub multiply : ℕ → List ℕ → Option (List ℕ)
  unfolding digit_loop carry_loop
  multiply x res = elim (digit_loop x 0 res) [
    | none ↦ none
    | some (res', carry) ↦ carry_loop (carry + 1) carry res'
  ]

  unfoldable pub text_of : List ℕ → Option (List ℕ)
  text_of res = elim (ltb (length res) max_digits) [ true ↦ some (chars res) | false ↦ none ]

  -- The loop of `factorial` from `x` on, with `rounds` to go.
  unfoldable pub factorial_loop : ℕ → ℕ → List ℕ → Option (List ℕ)
  unfolding multiply
  factorial_loop zero x res = some res
  factorial_loop (suc rounds) x res = elim (multiply x res) [
    | none ↦ none
    | some res' ↦ factorial_loop rounds (x + 1) res'
  ]

  unfoldable pub factorial : ℕ → Option (List ℕ)
  unfolding factorial_loop text_of
  factorial n = elim (factorial_loop (n - 1) 2 (1 ∷ [])) [ none ↦ none | some res ↦ text_of res ]

  unfoldable pub my_multiply : List ℕ → ℕ → Option (List ℕ)
  unfolding multiply text_of
  my_multiply previous current = elim (current == 0) [
    | true ↦ some (48 ∷ [])
    | false ↦ elim (multiply current (digits_of (take max_digits previous))) [
      | none ↦ none
      | some res ↦ text_of res
    ]
  ]
