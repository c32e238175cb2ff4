-- ===== src/Lab12/Doors/Result.antt =====
-- What lab12es01.cpp has computed of its file when it ends.
use mathlib.Core.Path.{subst}
use mathlib.Core.List.{append_assoc, append-nil}
use sdp_labs.Common.{
  ℕ, ◌≡◌, ◌∙◌, ap, sym, refl, inl, inr, false, Option, none, some, List, [], ◌∷◌, ◌++◌, arith,
  get_elem?, Bool-cases, some_inj,
}
use sdp_labs.Common.Count.{All, All-get}
use sdp_labs.Lab12.Doors.{
  Phase, Producer, Shared, State, read_next, producer_signal, producer_wait, produce, consume,
  consumer_wait, consumer_signal, Step, Reach,
}
use sdp_labs.Lab12.Doors.Work.{Reach-Fits}
use sdp_labs.Lab12.Doors.Level.{run, level, fresh, numbers, consume-Kept}

-- What the producer has made of the numbers `all` of its file.
abbrev Heard : {N : Type 0} → List N → Producer → Shared N → Type 0
Heard all Producer.reading d = d.past ++ numbers d.file ≡ all
Heard all Producer.signalling d = d.past ++ (d.number ∷ numbers d.file) ≡ all
Heard all Producer.waiting d = d.past ++ (d.number ∷ numbers d.file) ≡ all
Heard all Producer.finishing d = d.past ≡ all
Heard all Producer.joining d = d.past ≡ all
Heard all Producer.ended d = d.past ≡ all

module _ {N : Type 0} where
  read-Heard :
      (all : List N) (file : List (Option N)) (d : Shared N)
      → d.past ++ numbers file ≡ all
      → Heard all (read_next file d).producer (read_next file d)
  unfolding read_next
  read-Heard all [] d h = sym (append-nil d.past) ∙ h
  read-Heard all (none ∷ rest) d h = sym (append-nil d.past) ∙ h
  read-Heard all (some n ∷ rest) d h = h

  produce-Heard :
      (all : List N) (p : Producer) (d d' : Shared N)
      → Heard all p d
      → produce p d ≡ some d'
      → Heard all d'.producer d'
  unfolding produce producer_wait producer_signal
  produce-Heard all Producer.reading d d' h e =
      subst (λ (t : Shared N). Heard all t.producer t) (some_inj e) (read-Heard all d.file d h)
  produce-Heard all Producer.signalling d d' h e =
      subst (λ (t : Shared N). Heard all t.producer t) (some_inj e) h
  produce-Heard all Producer.waiting d d' h e = elim (Bool-cases d.producer_door) [
    | inl t ↦
        let eq : record d {
          producer_door = false;
          producer = Producer.reading;
          past = d.past ++ d.number ∷ [];
        }
            ≡ d' =
          some_inj (ground (arith, t)) in
        subst (λ (t' : Shared N). Heard all t'.producer t') eq
          (append_assoc d.past (d.number ∷ []) (numbers d.file) ∙ h)
    | inr t ↦ absurd (ground (arith, e, t))
  ]
  produce-Heard all Producer.finishing d d' h e =
      subst (λ (t : Shared N). Heard all t.producer t) (some_inj e) h
  produce-Heard all Producer.joining d d' h e = absurd (ground arith)
  produce-Heard all Producer.ended d d' h e = absurd (ground arith)

  same-Heard :
      (all : List N) (p : Producer) (d d' : Shared N)
      → d'.number ≡ d.number
      → d'.past ≡ d.past
      → d'.file ≡ d.file
      → Heard all p d
      → Heard all p d'
  same-Heard all Producer.reading d d' a b c h = ground (arith, a, b, c, h)
  same-Heard all _ d d' a b c h = ground (arith, a, b, c, h)

read-continues :
    {N : Type 0} (file : List (Option N)) (d : Shared N)
    → (read_next file d).producer ≡ Producer.ended
    → ⊥
unfolding read_next
read-continues [] d e = ground arith
read-continues (none ∷ rest) d e = ground arith
read-continues (some n ∷ rest) d e = ground arith

module _ {N S : Type 0} (job : ℕ → N → S → S) (start : ℕ → S) where
  abbrev Gone : State N S → Type 0
  Gone s = s.shared.producer ≡ Producer.ended → All (λ c. c.0 ≡ Phase.left) s.consumers

  Step-Heard :
      (all : List N) {s t : State N S}
      → Heard all s.shared.producer s.shared
      → Step job s t
      → Heard all t.shared.producer t.shared
  Step-Heard all {s} h (Step.produces {d = d} e) =
      produce-Heard all s.shared.producer s.shared d h e
  Step-Heard all {s} h (Step.joins e l) = subst (λ p. Heard all p s.shared) e h
  Step-Heard all {s} h (Step.consumes i p q x y d at e) =
      let k = consume-Kept job i p q x y s.shared d e in
      subst (λ q'. Heard all q' d) (sym k.2)
        (same-Heard all s.shared.producer s.shared d k.0 k.1 k.3 h)

  -- The loop of the producer itself does not end the program.
  produce-continues :
      (p : Producer) (d d' : Shared N)
      → d.producer ≡ p
      → produce p d ≡ some d'
      → (d'.producer ≡ Producer.ended)
      → ⊥
  unfolding produce producer_wait producer_signal
  produce-continues Producer.reading d d' h e o =
      absurd (read-continues d.file d (ap (λ (t : Shared N). t.producer) (some_inj e) ∙ o))
  produce-continues Producer.signalling d d' h e o = ground arith
  produce-continues Producer.waiting d d' h e o = elim (Bool-cases d.producer_door) [
    | inl t ↦ ground (arith, e, t)
    | inr t ↦ ground (arith, e, t)
  ]
  produce-continues Producer.finishing d d' h e o = ground arith
  produce-continues Producer.joining d d' h e o = ground arith
  produce-continues Producer.ended d d' h e o = ground arith

  consume_left :
      (i : ℕ) (p q : Phase) (x y : S) (d d' : Shared N)
      → p ≡ Phase.left
      → consume job i p x d ≡ some (d', q, y)
      → ⊥
  unfolding consume consumer_wait consumer_signal
  consume_left i p q x y d d' h e =
      absurd (ground (arith, subst (λ p'. consume job i p' x d ≡ some (d', q, y)) h e))

  Step-Gone : {s t : State N S} → Gone s → Step job s t → Gone t
  Step-Gone {s} g (Step.produces {d = d} e) over =
      absurd (produce-continues s.shared.producer s.shared d refl e over)
  Step-Gone {s} g (Step.joins e l) over = l
  Step-Gone {s} g (Step.consumes i p q x y d at e) over =
      let k = consume-Kept job i p q x y s.shared d e in
      let gone =
        All-get (λ (c : Phase × S). c.0 ≡ Phase.left) s.consumers i {x = (p, x)}
          (g (sym k.2 ∙ over)) at in
      absurd (consume_left i p q x y s.shared d gone e)

  module _ (junk : N) (file : List (Option N)) where
    Reach-Heard :
        {s : State N S}
        → Reach job start junk file s
        → Heard (numbers file) s.shared.producer s.shared
    Reach-Heard Reach.begins = refl
    Reach-Heard (Reach.later r st) = Step-Heard (numbers file) (Reach-Heard r) st

    pub Reach-Gone : {s : State N S} → Reach job start junk file s → Gone s
    Reach-Gone Reach.begins e = absurd (ground arith)
    Reach-Gone (Reach.later r st) e = Step-Gone (Reach-Gone r) st e

    -- When the program has ended, in whatever order its threads ran, each consumer has left its loop and has
    -- done its job on each number of the file, once and in the order of the file, up to a record that is
    -- too short.
    pub served_lem :
        {s : State N S} (i : ℕ) (p : Phase) (x : S)
        → Reach job start junk file s
        → s.shared.producer ≡ Producer.ended
        → get_elem? s.consumers i ≡ some (p, x)
        → (p ≡ Phase.left) × (x ≡ run job i (start i) (numbers file))
    served_lem {s} i p x r e at =
        let gone : p ≡ Phase.left =
          All-get (λ (c : Phase × S). c.0 ≡ Phase.left) s.consumers i {x = (p, x)} (Reach-Gone r e)
            at in
        let past : s.shared.past ≡ numbers file =
          subst (λ q. Heard (numbers file) q s.shared) e (Reach-Heard r) in
        (
          gone,
          Reach-Fits job start junk file r i p x at
              ∙ ap (λ q. level job start (fresh q s.shared) i s.shared) gone
              ∙ ap (run job i (start i)) past,
        )
