-- ===== src/Lab12/Doors/Moves.antt =====
-- Each step of lab12es01.cpp keeps what holds in the modes.
use mathlib.Core.Path.{subst}
use sdp_labs.Common.{
  ◌+◌, ◌≡◌, ◌⊎◌, inl, inr, refl, ◌==◌, true, false, Option, none, some, List, [], ◌∷◌, ◌++◌, arith,
  length, Bool-cases, some_inj,
}
use sdp_labs.Lab12.Doors.{
  Phase, Producer, Shared, read_next, producer_signal, producer_wait, produce,
}
use sdp_labs.Lab12.Doors.Tallies.{tally-total, Shift}
use sdp_labs.Lab12.Doors.Modes.{Mode, Holds, has_opened, has_read, is_idle, is_over}

-- What holds of the shared variables and the consumers in a mode.
abbrev pub Good : {N S : Type 0} → Mode → Shared N → List (Phase × S) → Type 0
Good m d l = (length l ≡ 4) × (d.done ≡ has_read d.producer) × Holds m d l

abbrev pub Next : {N S : Type 0} → Shared N → List (Phase × S) → Type 0
Next d l = (m : Mode) × Good m d l

module _ {N S : Type 0} where
  pub read-Good :
      (file : List (Option N)) (d : Shared N) (l : List (Phase × S))
      → Good Mode.idle d l
      → d.producer ≡ Producer.reading
      → Good Mode.idle (read_next file d) l
  unfolding read_next
  read-Good [] d l h e = ground arith
  read-Good (none ∷ rest) d l h e = ground arith
  read-Good (some n ∷ rest) d l h e = ground arith

  pub signal-Good :
      (p : Producer) (d : Shared N) (l : List (Phase × S))
      → Good Mode.idle d l
      → d.done ≡ has_read p
      → has_opened p ≡ true
      → Good Mode.arriving (record (producer_signal d) { producer = p }) l
  unfolding producer_signal
  signal-Good p d l h e o = ground (arith, tally-total l)

  pub wait-Good :
      (d : Shared N) (l : List (Phase × S))
      → Good Mode.over d l
      → Good Mode.idle
          (record d {
            producer_door = false;
            producer = Producer.reading;
            past = d.past ++ d.number ∷ [];
          })
          l
  wait-Good d l h = ground arith

  -- Before the first door is opened, nobody is anywhere else.
  pub idle_before :
      (m : Mode) (d : Shared N) (l : List (Phase × S))
      → Good m d l
      → has_opened d.producer ≡ false
      → Good Mode.idle d l
  idle_before m d l h e = subst (λ t. Good t d l) (is_idle d l h.0 m h.2 e) h

  pub over_at :
      (m : Mode) (d : Shared N) (l : List (Phase × S))
      → Good m d l
      → d.producer_door ≡ true
      → Good Mode.over d l
  over_at m d l h e = subst (λ t. Good t d l) (is_over d l h.0 m h.2 e) h

  pub produce-Good :
      (p : Producer) (m : Mode) (d d' : Shared N) (l : List (Phase × S))
      → Good m d l
      → d.producer ≡ p
      → produce p d ≡ some d'
      → Next d' l
  unfolding produce producer_wait
  produce-Good Producer.reading m d d' l h e g =
      let good = read-Good d.file d l (idle_before m d l h (ground arith)) e in
      (Mode.idle, subst (λ (t : Shared N). Good Mode.idle t l) (some_inj g) good)
  produce-Good Producer.signalling m d d' l h e g =
      let good =
        signal-Good Producer.waiting d l (idle_before m d l h (ground arith)) (ground arith) refl in
      (Mode.arriving, subst (λ (t : Shared N). Good Mode.arriving t l) (some_inj g) good)
  produce-Good Producer.waiting m d d' l h e g = elim (Bool-cases d.producer_door) [
    | inl t ↦
        let good = wait-Good d l (over_at m d l h t) in
        let eq : record d {
          producer_door = false;
          producer = Producer.reading;
          past = d.past ++ d.number ∷ [];
        }
            ≡ d' =
          some_inj (ground (arith, t)) in
        (Mode.idle, subst (λ (t' : Shared N). Good Mode.idle t' l) eq good)
    | inr f ↦ absurd (ground arith)
  ]
  produce-Good Producer.finishing m d d' l h e g =
      let good =
        signal-Good Producer.joining d l (idle_before m d l h (ground arith)) (ground arith) refl in
      (Mode.arriving, subst (λ (t : Shared N). Good Mode.arriving t l) (some_inj g) good)
  produce-Good Producer.joining m d d' l h e g = absurd (ground arith)
  produce-Good Producer.ended m d d' l h e g = absurd (ground arith)

-- A consumer that moves: `l'` are the consumers after it.
module _ {N S : Type 0} (d : Shared N) (l l' : List (Phase × S)) where
  pub enter-Good :
      Good Mode.arriving d l → Shift Phase.outside Phase.entered l l' → Good Mode.arriving d l'
  enter-Good h s = ground (arith, tally-total l')

  pub count_in-Good :
      Good Mode.arriving d l
      → (d.in_first + 1 == 4) ≡ false
      → Shift Phase.entered Phase.checking l l'
      → Good Mode.arriving (record d { in_first = d.in_first + 1 }) l'
  count_in-Good h e s = ground arith

  pub last_in-Good :
      Good Mode.arriving d l
      → (d.in_first + 1 == 4) ≡ true
      → Shift Phase.entered Phase.first_reset l l'
      → Good Mode.first_a (record d { in_first = d.in_first + 1 }) l'
  last_in-Good h e s = ground (arith, tally-total l)

  pub first_reset-Good :
      Good Mode.first_a d l
      → Shift Phase.first_reset Phase.first_close l l'
      → Good Mode.first_b (record d { in_first = 0 }) l'
  first_reset-Good h s = ground (arith, tally-total l)

  pub first_close-Good :
      Good Mode.first_b d l
      → Shift Phase.first_close Phase.second_open l l'
      → Good Mode.first_c (record d { first_door = false }) l'
  first_close-Good h s = ground (arith, tally-total l)

  pub second_open-Good :
      Good Mode.first_c d l
      → Shift Phase.second_open Phase.checking l l'
      → Good Mode.leaving (record d { second_door = true }) l'
  second_open-Good h s = ground (arith, tally-total l)

  -- In the first room.
  abbrev pub Inside : Type 0
  Inside =
      ((d.done ≡ true) × Shift Phase.checking Phase.left l l')
      ⊎ ((d.done ≡ false) × Shift Phase.checking Phase.working l l')
      ⊎ Shift Phase.working Phase.at_second l l'

  pub inside-Good : (m : Mode) → Good m d l → Inside → Good m d l'
  inside-Good Mode.idle h s = ground (arith, tally-total l)
  inside-Good _ h s = ground (arith, tally-total l)

  pub pass-Good :
      Good Mode.leaving d l → Shift Phase.at_second Phase.passed l l' → Good Mode.leaving d l'
  pass-Good h s = ground arith

  pub count_out-Good :
      Good Mode.leaving d l
      → (d.in_second + 1 == 4) ≡ false
      → Shift Phase.passed Phase.outside l l'
      → Good Mode.leaving (record d { in_second = d.in_second + 1 }) l'
  count_out-Good h e s = ground arith

  pub last_out-Good :
      Good Mode.leaving d l
      → (d.in_second + 1 == 4) ≡ true
      → Shift Phase.passed Phase.second_reset l l'
      → Good Mode.second_a (record d { in_second = d.in_second + 1 }) l'
  last_out-Good h e s = ground (arith, tally-total l)

  pub second_reset-Good :
      Good Mode.second_a d l
      → Shift Phase.second_reset Phase.second_close l l'
      → Good Mode.second_b (record d { in_second = 0 }) l'
  second_reset-Good h s = ground (arith, tally-total l)

  pub second_close-Good :
      Good Mode.second_b d l
      → Shift Phase.second_close Phase.producer_open l l'
      → Good Mode.second_c (record d { second_door = false }) l'
  second_close-Good h s = ground (arith, tally-total l)

  pub producer_open-Good :
      Good Mode.second_c d l
      → Shift Phase.producer_open Phase.outside l l'
      → Good Mode.over (record d { producer_door = true }) l'
  producer_open-Good h s = ground (arith, tally-total l)
