-- ===== src/Lab12/Doors/Safety.antt =====
-- The modes hold in every state that lab12es01.cpp reaches.
use mathlib.Core.Path.{subst}
use sdp_labs.Common.{
  ℕ, ◌+◌, ◌≡◌, inl, inr, refl, ◌==◌, true, false, Option, some, List, arith, get_elem?, set,
  Bool-cases, some_inj,
}
use sdp_labs.Common.Count.{All, count}
use sdp_labs.Lab12.Doors.{
  Phase, Producer, Shared, State, consume, consumer_wait, consumer_signal, Step, Reach, started,
}
use sdp_labs.Lab12.Doors.Tallies.{kind, tally, tally-all, shift, All-weaken, kind_outside}
use sdp_labs.Lab12.Doors.Modes.{
  Mode, has_opened, is_arriving, was_arriving, is_first_a, is_first_b, is_first_c, is_leaving,
  was_leaving, is_second_a, is_second_b, is_second_c,
}
use sdp_labs.Lab12.Doors.Moves.{
  Good, Next, produce-Good, idle_before, enter-Good, count_in-Good, last_in-Good, first_reset-Good,
  first_close-Good, second_open-Good, inside-Good, pass-Good, count_out-Good, last_out-Good,
  second_reset-Good, second_close-Good, producer_open-Good,
}

module _ {N S : Type 0} (job : ℕ → N → S → S) (m : Mode) (d : Shared N) (l : List (Phase × S))
    (i : ℕ) where
  in_mode : (n : Mode) → Good m d l → m ≡ n → Good n d l
  in_mode n h e = subst (λ t. Good t d l) e h

  finish :
      (n : Mode) (a d' : Shared N) (b q : Phase) (x y : S)
      → Good n a (set l i (b, x))
      → ◌≡◌ {A = Option (Shared N × Phase × S)} (some (a, b, x)) (some (d', q, y))
      → Next d' (set l i (q, y))
  finish n a d' b q x y h e =
      subst (λ (t : Shared N × Phase × S). Next t.0 (set l i (t.1, t.2))) (some_inj e) (n, h)

  pub consume-Good :
      (p q : Phase) (x y : S) (d' : Shared N)
      → Good m d l
      → get_elem? l i ≡ some (p, x)
      → consume job i p x d ≡ some (d', q, y)
      → Next d' (set l i (q, y))
  unfolding consume consumer_wait consumer_signal
  consume-Good Phase.outside q x y d' h at e = elim (Bool-cases d.first_door) [
    | inl t ↦
        let s = shift l i Phase.outside Phase.entered x x at in
        let good =
          enter-Good d l (set l i (Phase.entered, x))
            (in_mode Mode.arriving h (is_arriving d l h.0 m h.2 (omega (arith, s)) t)) s in
        finish Mode.arriving (d) d' Phase.entered q x y good (ground (arith, e, t))
    | inr f ↦ absurd (ground (arith, e, f))
  ]
  consume-Good Phase.entered q x y d' h at e = elim (Bool-cases (d.in_first + 1 == 4)) [
    | inl t ↦
        let s = shift l i Phase.entered Phase.first_reset x x at in
        let good =
          last_in-Good d l (set l i (Phase.first_reset, x))
            (in_mode Mode.arriving h (was_arriving d l h.0 m h.2 (omega (arith, s)))) t s in
        finish Mode.first_a (record d { in_first = d.in_first + 1 }) d' Phase.first_reset q x y good
          (ground (arith, e, t))
    | inr t ↦
        let s = shift l i Phase.entered Phase.checking x x at in
        let good =
          count_in-Good d l (set l i (Phase.checking, x))
            (in_mode Mode.arriving h (was_arriving d l h.0 m h.2 (omega (arith, s)))) t s in
        finish Mode.arriving (record d { in_first = d.in_first + 1 }) d' Phase.checking q x y good
          (ground (arith, e, t))
  ]
  consume-Good Phase.first_reset q x y d' h at e =
      let s = shift l i Phase.first_reset Phase.first_close x x at in
      let good =
        first_reset-Good d l (set l i (Phase.first_close, x))
          (in_mode Mode.first_a h (is_first_a d l h.0 m h.2 (omega (arith, s)))) s in
      finish Mode.first_b (record d { in_first = 0 }) d' Phase.first_close q x y good
        (ground (arith, e))
  consume-Good Phase.first_close q x y d' h at e =
      let s = shift l i Phase.first_close Phase.second_open x x at in
      let good =
        first_close-Good d l (set l i (Phase.second_open, x))
          (in_mode Mode.first_b h (is_first_b d l h.0 m h.2 (omega (arith, s)))) s in
      finish Mode.first_c (record d { first_door = false }) d' Phase.second_open q x y good
        (ground (arith, e))
  consume-Good Phase.second_open q x y d' h at e =
      let s = shift l i Phase.second_open Phase.checking x x at in
      let good =
        second_open-Good d l (set l i (Phase.checking, x))
          (in_mode Mode.first_c h (is_first_c d l h.0 m h.2 (omega (arith, s)))) s in
      finish Mode.leaving (record d { second_door = true }) d' Phase.checking q x y good
        (ground (arith, e))
  consume-Good Phase.checking q x y d' h at e = elim (Bool-cases d.done) [
    | inl t ↦
        let s = shift l i Phase.checking Phase.left x x at in
        finish m d d' Phase.left q x y (inside-Good d l (set l i (Phase.left, x)) m h (inl (t, s)))
          (ground (arith, e, t))
    | inr t ↦
        let s = shift l i Phase.checking Phase.working x x at in
        finish m d d' Phase.working q x y
          (inside-Good d l (set l i (Phase.working, x)) m h (inr (inl (t, s))))
          (ground (arith, e, t))
  ]
  consume-Good Phase.working q x y d' h at e =
      let x' = job i d.number x in
      let s = shift l i Phase.working Phase.at_second x x' at in
      finish m d d' Phase.at_second q x' y
        (inside-Good d l (set l i (Phase.at_second, x')) m h (inr (inr s))) (ground (arith, e))
  consume-Good Phase.at_second q x y d' h at e = elim (Bool-cases d.second_door) [
    | inl t ↦
        let s = shift l i Phase.at_second Phase.passed x x at in
        let good =
          pass-Good d l (set l i (Phase.passed, x))
            (in_mode Mode.leaving h (is_leaving d l h.0 m h.2 (omega (arith, s)) t)) s in
        finish Mode.leaving (d) d' Phase.passed q x y good (ground (arith, e, t))
    | inr f ↦ absurd (ground (arith, e, f))
  ]
  consume-Good Phase.passed q x y d' h at e = elim (Bool-cases (d.in_second + 1 == 4)) [
    | inl t ↦
        let s = shift l i Phase.passed Phase.second_reset x x at in
        let good =
          last_out-Good d l (set l i (Phase.second_reset, x))
            (in_mode Mode.leaving h (was_leaving d l h.0 m h.2 (omega (arith, s)))) t s in
        finish Mode.second_a (record d { in_second = d.in_second + 1 }) d' Phase.second_reset q x y
          good (ground (arith, e, t))
    | inr t ↦
        let s = shift l i Phase.passed Phase.outside x x at in
        let good =
          count_out-Good d l (set l i (Phase.outside, x))
            (in_mode Mode.leaving h (was_leaving d l h.0 m h.2 (omega (arith, s)))) t s in
        finish Mode.leaving (record d { in_second = d.in_second + 1 }) d' Phase.outside q x y good
          (ground (arith, e, t))
  ]
  consume-Good Phase.second_reset q x y d' h at e =
      let s = shift l i Phase.second_reset Phase.second_close x x at in
      let good =
        second_reset-Good d l (set l i (Phase.second_close, x))
          (in_mode Mode.second_a h (is_second_a d l h.0 m h.2 (omega (arith, s)))) s in
      finish Mode.second_b (record d { in_second = 0 }) d' Phase.second_close q x y good
        (ground (arith, e))
  consume-Good Phase.second_close q x y d' h at e =
      let s = shift l i Phase.second_close Phase.producer_open x x at in
      let good =
        second_close-Good d l (set l i (Phase.producer_open, x))
          (in_mode Mode.second_b h (is_second_b d l h.0 m h.2 (omega (arith, s)))) s in
      finish Mode.second_c (record d { second_door = false }) d' Phase.producer_open q x y good
        (ground (arith, e))
  consume-Good Phase.producer_open q x y d' h at e =
      let s = shift l i Phase.producer_open Phase.outside x x at in
      let good =
        producer_open-Good d l (set l i (Phase.outside, x))
          (in_mode Mode.second_c h (is_second_c d l h.0 m h.2 (omega (arith, s)))) s in
      finish Mode.over (record d { producer_door = true }) d' Phase.outside q x y good
        (ground (arith, e))
  consume-Good Phase.left q x y d' h at e = absurd (ground (arith, e))

join-Good :
    {N S : Type 0} (m : Mode) (d : Shared N) (l : List (Phase × S))
    → Good m d l
    → d.producer ≡ Producer.joining
    → Good m (record d { producer = Producer.ended }) l
join-Good Mode.idle d l h e = ground arith
join-Good _ d l h e = ground arith

module _ {N S : Type 0} (job : ℕ → N → S → S) where
  pub Step-Good :
      (m : Mode) {s t : State N S}
      → Good m s.shared s.consumers
      → Step job s t
      → Next t.shared t.consumers
  Step-Good m {s} h (Step.produces {d = d} e) =
      produce-Good s.shared.producer m s.shared d s.consumers h refl e
  Step-Good m {s} h (Step.joins e all) = (m, join-Good m s.shared s.consumers h e)
  Step-Good m {s} h (Step.consumes i p q x y d at e) =
      consume-Good job m s.shared s.consumers i p q x y d h at e

  module _ (start : ℕ → S) (junk : N) (file : List (Option N)) where
    started-Good :
        Good Mode.idle (started job start junk file).shared (started job start junk file).consumers
    unfolding tally count
    started-Good = ground arith

    pub Reach-Good : {s : State N S} → Reach job start junk file s → Next s.shared s.consumers
    Reach-Good Reach.begins = (Mode.idle, started-Good)
    Reach-Good (Reach.later r st) = let (m, good) = Reach-Good r in Step-Good m good st

    -- Whenever the producer may write `number` or `done`, that is until it opens the first door, both doors
    -- are closed and all consumers are outside, where they read neither.
    pub rooms_lem :
        {s : State N S}
        → Reach job start junk file s
        → has_opened s.shared.producer ≡ false
        → All (λ c. c.0 ≡ Phase.outside) s.consumers
          × (s.shared.first_door ≡ false)
          × (s.shared.second_door ≡ false)
    rooms_lem {s} r e =
        let (m, good) = Reach-Good r in
        let idle = idle_before m s.shared s.consumers good e in
        (
          All-weaken (λ c. kind c.0 ≡ 0) (λ c. c.0 ≡ Phase.outside) s.consumers
              (λ c. kind_outside c.0) (tally-all s.consumers 0 (omega (arith, idle.0, idle.2))),
          ground arith,
          ground arith,
        )
