-- ===== src/Lab12/Doors/Effort.antt =====
-- What the threads of lab12es01.cpp have still to do, as a number that each step of a consumer reduces.
use mathlib.Core.Path.{subst}
use sdp_labs.Common.{
  ℕ, ◌+◌, ◌*◌, ◌≤◌, ◌<◌, ◌≡◌, inl, inr, Bool, true, false, not, ◌&&◌, some, List, ◌==◌, arith,
  length, get_elem?, Bool-cases,
}
use sdp_labs.Common.Sum.{sum, sum-le-sum}
use sdp_labs.Lab12.Doors.{Phase, Producer, Shared, consume, consumer_wait, consumer_signal}
use sdp_labs.Lab12.Doors.Tallies.{shift}
use sdp_labs.Lab12.Doors.Modes.{Mode, has_opened, was_leaving, is_second_c}
use sdp_labs.Lab12.Doors.Moves.{Good}

-- What a consumer has to do in this round; `ahead` tells one outside that it has not begun.
abbrev pub effort : Bool → Phase → ℕ
effort true Phase.outside = 12
effort false Phase.outside = 0
effort ahead Phase.entered = 11
effort ahead Phase.first_reset = 10
effort ahead Phase.first_close = 9
effort ahead Phase.second_open = 8
effort ahead Phase.checking = 7
effort ahead Phase.working = 6
effort ahead Phase.at_second = 5
effort ahead Phase.passed = 4
effort ahead Phase.second_reset = 3
effort ahead Phase.second_close = 2
effort ahead Phase.producer_open = 1
effort ahead Phase.left = 0

-- What the producer has to do, less than 80 for a record of the file.
abbrev pub producer_effort : Producer → ℕ
producer_effort Producer.reading = 5
producer_effort Producer.signalling = 70
producer_effort Producer.waiting = 60
producer_effort Producer.finishing = 4
producer_effort Producer.joining = 3
producer_effort Producer.ended = 2

abbrev pub ahead : {N : Type 0} → Shared N → Bool
ahead d = not (has_opened d.producer && not d.first_door)

abbrev pub base : {N : Type 0} → Shared N → ℕ
base d = 80 * length d.file + producer_effort d.producer

effort_le : (a b : Bool) (p : Phase) → (b ≡ true → a ≡ true) → effort b p ≤ effort a p
effort_le a b Phase.outside h = elim (Bool-cases b) [
  | inl t ↦ ground (arith, h t, t)
  | inr t ↦ ground (arith, t)
]
effort_le a b Phase.entered h = omega arith
effort_le a b _ h = omega arith

effort_top : (p : Phase) → effort true p ≤ effort false p + 12
effort_top Phase.outside = omega arith
effort_top _ = omega arith

module _ {S : Type 0} where
  abbrev pub consumers_effort : Bool → List (Phase × S) → ℕ
  consumers_effort a l = sum (λ c. effort a c.0) l

  pub consumers_le :
      (a b : Bool) (l : List (Phase × S))
      → (b ≡ true → a ≡ true)
      → consumers_effort b l ≤ consumers_effort a l
  consumers_le a b l h = omega (
    arith,
    sum-le-sum (λ (c : Phase × S). effort b c.0) (λ c. effort a c.0) 0 l
        (λ c. omega (arith, effort_le a b c.0 h)),
  )

  pub consumers_top :
      (l : List (Phase × S)) → consumers_effort true l ≤ consumers_effort false l + 12 * length l
  consumers_top l =
      sum-le-sum (λ (c : Phase × S). effort true c.0) (λ c. effort false c.0) 12 l
        (λ c. effort_top c.0)

abbrev pub steps_left : {N S : Type 0} → Shared N → List (Phase × S) → ℕ
steps_left d l = base d + consumers_effort (ahead d) l

module _ {N S : Type 0} (job : ℕ → N → S → S) where
  -- No consumer opens the first door.
  pub consume_closes :
      (i : ℕ) (p q : Phase) (x y : S) (d d' : Shared N)
      → consume job i p x d ≡ some (d', q, y)
      → d'.first_door ≡ true
      → d.first_door ≡ true
  unfolding consume consumer_wait consumer_signal
  consume_closes i Phase.outside q x y d d' e o = ground (arith, e, o)
  consume_closes i _ q x y d d' e o = ground (arith, e, o)

  pub consume-effort :
      (m : Mode) (l : List (Phase × S)) (i : ℕ) (p q : Phase) (x y : S) (d d' : Shared N)
      → Good m d l
      → get_elem? l i ≡ some (p, x)
      → consume job i p x d ≡ some (d', q, y)
      → effort (ahead d) q < effort (ahead d) p
  unfolding consume consumer_wait consumer_signal
  consume-effort m l i Phase.passed q x y d d' h at e =
      let s = shift l i Phase.passed Phase.passed x x at in
      let good = subst (λ t. Good t d l) (was_leaving d l h.0 m h.2 (omega (arith, s))) h in
      elim (Bool-cases (d.in_second + 1 == 4)) [
        | inl t ↦ ground (arith, e, t)
        | inr t ↦ ground (arith, e, t, good.2)
      ]
  consume-effort m l i Phase.producer_open q x y d d' h at e =
      let s = shift l i Phase.producer_open Phase.producer_open x x at in
      let good = subst (λ t. Good t d l) (is_second_c d l h.0 m h.2 (omega (arith, s))) h in
      ground (arith, e, good.2)
  consume-effort m l i _ q x y d d' h at e = ground (arith, e)
