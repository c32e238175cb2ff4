-- ===== src/Lab12/Doors/Level.antt =====
-- What a consumer of lab12es01.cpp has computed at each place of its loop.
use mathlib.Core.Path.{subst}
use sdp_labs.Common.{
  ℕ, ◌+◌, ◌≡◌, ◌∙◌, ap, ◌⊎◌, inl, inr, sym, refl, ◌==◌, Bool, true, false, not, ◌&&◌, Option, none,
  some, List, [], ◌∷◌, ◌++◌, arith, get_elem?, set, Bool-cases, get_elem?-set,
}
use sdp_labs.Lab12.Doors.{Phase, Shared, consume, consumer_wait, consumer_signal}
use sdp_labs.Lab12.Doors.Tallies.{tally-total, shift}
use sdp_labs.Lab12.Doors.Modes.{Mode, has_opened, is_second_c, is_first_b, was_leaving}
use sdp_labs.Lab12.Doors.Moves.{Good}

-- The variables of consumer `i` that has handled some numbers.
abbrev pub run : {N S : Type 0} → (ℕ → N → S → S) → ℕ → S → List N → S
run job i x [] = x
run job i x (n ∷ ns) = run job i (job i n x) ns

-- The numbers of a file up to a record that is too short.
abbrev pub numbers : {N : Type 0} → List (Option N) → List N
numbers [] = []
numbers (none ∷ rest) = []
numbers (some n ∷ rest) = n ∷ numbers rest

pub run-append :
    {N S : Type 0} (job : ℕ → N → S → S) (i : ℕ) (x : S) (l : List N) (n : N)
    → run job i x (l ++ n ∷ []) ≡ job i n (run job i x l)
run-append job i x [] n = refl
run-append job i x (m ∷ l) n = run-append job i (job i m x) l n

-- Has a consumer dealt with `number`? One outside has when the first door is closed for it again.
abbrev pub fresh : {N : Type 0} → Phase → Shared N → Bool
fresh Phase.outside d = has_opened d.producer && not d.first_door
fresh Phase.entered d = false
fresh Phase.first_reset d = false
fresh Phase.first_close d = false
fresh Phase.second_open d = false
fresh Phase.checking d = false
fresh Phase.working d = false
fresh Phase.at_second d = true
fresh Phase.passed d = true
fresh Phase.second_reset d = true
fresh Phase.second_close d = true
fresh Phase.producer_open d = true
fresh Phase.left d = false

-- What a consumer leaves alone.
abbrev pub Kept : {N : Type 0} → Phase → Shared N → Shared N → Type 0
Kept p d d' =
    (d'.number ≡ d.number)
    × (d'.past ≡ d.past)
    × (d'.producer ≡ d.producer)
    × (d'.file ≡ d.file)
    × ((d'.first_door ≡ d.first_door) ⊎ (p ≡ Phase.first_close))

module _ {N S : Type 0} (job : ℕ → N → S → S) where
  pub consume-Kept :
      (i : ℕ) (p q : Phase) (x y : S) (d d' : Shared N)
      → consume job i p x d ≡ some (d', q, y)
      → Kept p d d'
  unfolding consume consumer_wait consumer_signal
  consume-Kept i Phase.outside q x y d d' e = ground (arith, e)
  consume-Kept i _ q x y d d' e = ground (arith, e)

module _ {N S : Type 0} (job : ℕ → N → S → S) (start : ℕ → S) where
  abbrev pub level : Bool → ℕ → Shared N → S
  level true i d = job i d.number (run job i (start i) d.past)
  level false i d = run job i (start i) d.past

  abbrev pub Fits : Shared N → List (Phase × S) → Type 0
  Fits d l = (i : ℕ) (p : Phase) (x : S) → get_elem? l i ≡ some (p, x) → x ≡ level (fresh p d) i d

  consume-level :
      (m : Mode) (l : List (Phase × S)) (i : ℕ) (p q : Phase) (x y : S) (d d' : Shared N)
      → Good m d l
      → get_elem? l i ≡ some (p, x)
      → x ≡ level (fresh p d) i d
      → consume job i p x d ≡ some (d', q, y)
      → y ≡ level (fresh q d') i d'
  unfolding consume consumer_wait consumer_signal
  consume-level m l i Phase.passed q x y d d' h at f e =
      let s = shift l i Phase.passed Phase.passed x x at in
      let good = subst (λ t. Good t d l) (was_leaving d l h.0 m h.2 (omega (arith, s))) h in
      elim (Bool-cases (d.in_second + 1 == 4)) [
        | inl t ↦ ground (arith, e, t)
        | inr t ↦ ground (arith, e, t, good.2)
      ]
  consume-level m l i Phase.producer_open q x y d d' h at f e =
      let s = shift l i Phase.producer_open Phase.producer_open x x at in
      let good = subst (λ t. Good t d l) (is_second_c d l h.0 m h.2 (omega (arith, s))) h in
      ground (arith, e, good.2)
  consume-level m l i _ q x y d d' h at f e = ground (arith, e)

  door_same :
      (m : Mode) (l : List (Phase × S)) (i : ℕ) (p : Phase) (x : S) (j : ℕ) (z : S)
      (d d' : Shared N)
      → Good m d l
      → get_elem? l i ≡ some (p, x)
      → get_elem? l j ≡ some (Phase.outside, z)
      → Kept p d d'
      → d'.first_door ≡ d.first_door
  door_same m l i p x j z d d' h at at' (a, b, c, f, inl e) = e
  door_same m l i p x j z d d' h at at' (a, b, c, f, inr e) =
      let s =
        shift l i Phase.first_close Phase.first_close x x
          (subst (λ q. get_elem? l i ≡ some (q, x)) e at) in
      let o = shift l j Phase.outside Phase.outside z z at' in
      let good = subst (λ t. Good t d l) (is_first_b d l h.0 m h.2 (omega (arith, s))) h in
      absurd (omega (arith, tally-total l, good.0, good.2, o))

  level-same :
      (b : Bool) (j : ℕ) (d d' : Shared N)
      → d'.number ≡ d.number
      → d'.past ≡ d.past
      → level b j d ≡ level b j d'
  level-same true j d d' e f = ground (arith, e, f)
  level-same false j d d' e f = ground (arith, e, f)

  -- A consumer that does not move keeps its level.
  others-level :
      (m : Mode) (l : List (Phase × S)) (i : ℕ) (p : Phase) (x : S) (j : ℕ) (p' : Phase) (z : S)
      (d d' : Shared N)
      → Good m d l
      → get_elem? l i ≡ some (p, x)
      → get_elem? l j ≡ some (p', z)
      → Kept p d d'
      → z ≡ level (fresh p' d) j d
      → z ≡ level (fresh p' d') j d'
  others-level m l i p x j Phase.outside z d d' h at at' k f =
      let same = door_same m l i p x j z d d' h at at' k in
      let test : fresh Phase.outside d ≡ fresh Phase.outside d' = ground (arith, same, k.2) in
      f ∙ level-same (fresh Phase.outside d) j d d' k.0 k.1 ∙ ap (λ b. level b j d') test
  others-level m l i p x j Phase.entered z d d' h at at' k f =
      f ∙ level-same (fresh Phase.entered d) j d d' k.0 k.1
  others-level m l i p x j Phase.first_reset z d d' h at at' k f =
      f ∙ level-same (fresh Phase.first_reset d) j d d' k.0 k.1
  others-level m l i p x j Phase.first_close z d d' h at at' k f =
      f ∙ level-same (fresh Phase.first_close d) j d d' k.0 k.1
  others-level m l i p x j Phase.second_open z d d' h at at' k f =
      f ∙ level-same (fresh Phase.second_open d) j d d' k.0 k.1
  others-level m l i p x j Phase.checking z d d' h at at' k f =
      f ∙ level-same (fresh Phase.checking d) j d d' k.0 k.1
  others-level m l i p x j Phase.working z d d' h at at' k f =
      f ∙ level-same (fresh Phase.working d) j d d' k.0 k.1
  others-level m l i p x j Phase.at_second z d d' h at at' k f =
      f ∙ level-same (fresh Phase.at_second d) j d d' k.0 k.1
  others-level m l i p x j Phase.passed z d d' h at at' k f =
      f ∙ level-same (fresh Phase.passed d) j d d' k.0 k.1
  others-level m l i p x j Phase.second_reset z d d' h at at' k f =
      f ∙ level-same (fresh Phase.second_reset d) j d d' k.0 k.1
  others-level m l i p x j Phase.second_close z d d' h at at' k f =
      f ∙ level-same (fresh Phase.second_close d) j d d' k.0 k.1
  others-level m l i p x j Phase.producer_open z d d' h at at' k f =
      f ∙ level-same (fresh Phase.producer_open d) j d d' k.0 k.1
  others-level m l i p x j Phase.left z d d' h at at' k f =
      f ∙ level-same (fresh Phase.left d) j d d' k.0 k.1

  pub consume-Fits :
      (m : Mode) (l : List (Phase × S)) (i : ℕ) (p q : Phase) (x y : S) (d d' : Shared N)
      → Good m d l
      → Fits d l
      → get_elem? l i ≡ some (p, x)
      → consume job i p x d ≡ some (d', q, y)
      → Fits d' (set l i (q, y))
  consume-Fits m l i p q x y d d' h f at e j p' z at' = elim (get_elem?-set l i j (q, y) at') [
    | inl both ↦
        subst (λ k. z ≡ level (fresh p' d') k d') (sym both.0)
          (subst (λ (c : Phase × S). c.1 ≡ level (fresh c.0 d') i d') (sym both.1)
            (consume-level m l i p q x y d d' h at (f i p x at) e))
    | inr other ↦
        others-level m l i p x j p' z d d' h at other.1 (consume-Kept job i p q x y d d' e)
          (f j p' z other.1)
  ]
