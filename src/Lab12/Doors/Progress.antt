-- ===== src/Lab12/Doors/Progress.antt =====
-- lab12es01.cpp does not stop before it ends, and it ends.
use sdp_labs.Common.{
  ℕ, ◌<◌, ◌≡◌, ◌≢◌, ◌∙◌, ap, sym, refl, ◌⊎◌, inl, inr, true, false, Option, some, List, [], ◌∷◌,
  ◌++◌, arith, length, ==_iff, dec_lt,
}
use sdp_labs.Common.Count.{count-found}
use sdp_labs.Lab12.Doors.{
  Phase, Producer, Shared, State, producer_wait, produce, consume, consumer_wait, consumer_signal,
  Step, Reach,
}
use sdp_labs.Lab12.Doors.Tallies.{kind, is_at, tally, tally-all, All-weaken, kind_left}
use sdp_labs.Lab12.Doors.Modes.{Mode, has_opened, has_read}
use sdp_labs.Lab12.Doors.Moves.{Good}
use sdp_labs.Lab12.Doors.Safety.{Reach-Good}

module _ {N S : Type 0} (job : ℕ → N → S → S) where
  abbrev CanStep : State N S → Type 0
  CanStep s = (t : State N S) × Step job s t

  Moves : ℕ → Phase → S → Shared N → Type 0
  Moves i p x d = (d' : Shared N) × (q : Phase) × (y : S) × (consume job i p x d ≡ some (d', q, y))

  -- A consumer waits only at a closed door, or has left.
  consume-Moves :
      (i : ℕ) (p : Phase) (x : S) (d : Shared N)
      → (kind p ≡ 0 → d.first_door ≡ true)
      → (kind p ≡ 12 → d.second_door ≡ true)
      → kind p ≢ 10
      → Moves i p x d
  unfolding Moves consume consumer_wait consumer_signal
  consume-Moves i Phase.outside x d a b c = (d, Phase.entered, x, ground (arith, a refl))
  consume-Moves i Phase.at_second x d a b c = (d, Phase.passed, x, ground (arith, b refl))
  consume-Moves i Phase.left x d a b c = absurd (c refl)
  consume-Moves i _ x d a b c = (_, _, _, refl)

  -- Where someone is at a place that he can leave, there is a step.
  found-CanStep :
      (s : State N S) (k : ℕ)
      → 0 < tally k s.consumers
      → (k ≡ 0 → s.shared.first_door ≡ true)
      → (k ≡ 12 → s.shared.second_door ≡ true)
      → k ≢ 10
      → CanStep s
  unfolding tally Moves
  found-CanStep s k h a b c =
      let (i, (p, x), at, e) = count-found (is_at k) s.consumers h in
      let same : kind p ≡ k = (==_iff (kind p) k).0 e in
      let (d', q, y, go) =
        consume-Moves i p x s.shared (λ z. a (sym same ∙ z)) (λ z. b (sym same ∙ z))
          (λ z. c (sym same ∙ z)) in
      (_, Step.consumes i p q x y d' at go)

  produce-CanStep :
      (s : State N S) (p : Producer)
      → s.shared.producer ≡ p
      → (has_opened p ≡ false) ⊎ ((p ≡ Producer.waiting) × (s.shared.producer_door ≡ true))
      → CanStep s
  unfolding produce producer_wait
  produce-CanStep s Producer.waiting e h =
      let d' : Shared N = record s.shared {
        producer_door = false;
        producer = Producer.reading;
        past = s.shared.past ++ s.shared.number ∷ [];
      } in
      let open_door : s.shared.producer_door ≡ true = ground arith in
      (_, Step.produces {d = d'} (ap (λ p. produce p s.shared) e ∙ ground (arith, open_door)))
  produce-CanStep s Producer.joining e h = absurd (ground arith)
  produce-CanStep s Producer.ended e h = absurd (ground arith)
  produce-CanStep s _ e h = (_, Step.produces (ap (λ p. produce p s.shared) e))

  abbrev Lives : State N S → Type 0
  Lives s = (s.shared.producer ≡ Producer.ended) ⊎ CanStep s

  -- Where all have left, the producer's wait for the threads is over.
  all_left :
      (s : State N S) (p : Producer)
      → s.shared.producer ≡ p
      → has_opened p ≡ true
      → has_read p ≡ true
      → length s.consumers ≡ 4
      → tally 10 s.consumers ≡ 4
      → Lives s
  all_left s Producer.joining e a b four left = inr (
    _,
    Step.joins e (
        All-weaken (λ c. kind c.0 ≡ 10) (λ c. c.0 ≡ Phase.left) s.consumers (λ c. kind_left c.0)
          (tally-all s.consumers 10 (omega arith))),
  )
  all_left s Producer.ended e a b four left = inl e
  all_left s _ e a b four left = absurd (ground arith)

  at_place : (s : State N S) (k : ℕ) → 0 < tally k s.consumers → k ≢ 0 → k ≢ 12 → k ≢ 10 → Lives s
  at_place s k h a b c = inr (found-CanStep s k h (λ z. absurd (a z)) (λ z. absurd (b z)) c)

  leaving-Lives : (s : State N S) → Good Mode.leaving s.shared s.consumers → Lives s
  leaving-Lives s h = elim (dec_lt 0 (tally 6 s.consumers)) [
    | yes z ↦ at_place s 6 z (omega arith) (omega arith) (omega arith)
    | no z6 ↦ elim (dec_lt 0 (tally 5 s.consumers)) [
      | yes z ↦ at_place s 5 z (omega arith) (omega arith) (omega arith)
      | no z5 ↦ elim (dec_lt 0 (tally 11 s.consumers)) [
        | yes z ↦ at_place s 11 z (omega arith) (omega arith) (omega arith)
        | no z11 ↦ elim (dec_lt 0 (tally 12 s.consumers)) [
          | yes z ↦
              inr
                (found-CanStep s 12 z (λ e. absurd (omega arith)) (λ e. ground arith) (omega arith))
          | no z12 ↦
              let some_left : 0 < tally 10 s.consumers = omega (arith, h.2) in
              let over : s.shared.done ≡ true = ground arith in
              all_left s s.shared.producer refl (ground arith) (ground arith) h.0 (ground arith)
        ]
      ]
    ]
  ]

  Good-Lives : (m : Mode) (s : State N S) → Good m s.shared s.consumers → Lives s
  Good-Lives Mode.idle s h = inr (produce-CanStep s s.shared.producer refl (inl (ground arith)))
  Good-Lives Mode.arriving s h = elim (dec_lt 0 (tally 0 s.consumers)) [
    | yes z ↦
        inr (found-CanStep s 0 z (λ e. ground arith) (λ e. absurd (omega arith)) (omega arith))
    | no z ↦ at_place s 1 (omega (arith, h.2)) (omega arith) (omega arith) (omega arith)
  ]
  Good-Lives Mode.first_a s h =
      at_place s 2 (omega (arith, h.2)) (omega arith) (omega arith) (omega arith)
  Good-Lives Mode.first_b s h =
      at_place s 3 (omega (arith, h.2)) (omega arith) (omega arith) (omega arith)
  Good-Lives Mode.first_c s h =
      at_place s 4 (omega (arith, h.2)) (omega arith) (omega arith) (omega arith)
  Good-Lives Mode.leaving s h = leaving-Lives s h
  Good-Lives Mode.second_a s h =
      at_place s 7 (omega (arith, h.2)) (omega arith) (omega arith) (omega arith)
  Good-Lives Mode.second_b s h =
      at_place s 8 (omega (arith, h.2)) (omega arith) (omega arith) (omega arith)
  Good-Lives Mode.second_c s h =
      at_place s 9 (omega (arith, h.2)) (omega arith) (omega arith) (omega arith)
  Good-Lives Mode.over s h = inr (produce-CanStep s s.shared.producer refl (inr (ground arith)))

  module _ (start : ℕ → S) (junk : N) (file : List (Option N)) where
    pub lives_lem :
        {s : State N S}
        → Reach job start junk file s
        → (s.shared.producer ≡ Producer.ended) ⊎ CanStep s
    lives_lem {s} r = let (m, good) = Reach-Good job start junk file r in Good-Lives m s good
