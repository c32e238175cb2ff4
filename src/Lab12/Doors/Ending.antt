-- ===== src/Lab12/Doors/Ending.antt =====
-- How many steps are left in lab12es01.cpp.
use mathlib.Core.Path.{subst}
use sdp_labs.Common.{
  ℕ, zero, suc, ◌+◌, ◌*◌, ◌≤◌, ◌<◌, ◌≡◌, ◌∙◌, ap, sym, refl, ◌⊎◌, inl, inr, true, false, Option,
  none, some, List, [], ◌∷◌, arith, length, get_elem?, set, Bool-cases, some_inj,
}
use sdp_labs.Common.Sum.{sum, sum-set}
use sdp_labs.Lab12.Doors.{
  Phase, Producer, Shared, State, read_next, producer_signal, producer_wait, produce, consume, Step,
  Reach, started,
}
use sdp_labs.Lab12.Doors.Modes.{Mode}
use sdp_labs.Lab12.Doors.Moves.{Good, over_at}
use sdp_labs.Lab12.Doors.Safety.{Reach-Good}
use sdp_labs.Lab12.Doors.Progress.{lives_lem}
use sdp_labs.Lab12.Doors.Level.{Kept, consume-Kept}
use sdp_labs.Lab12.Doors.Effort.{
  effort, ahead, base, consumers_effort, consumers_le, consumers_top, steps_left, consume_closes,
  consume-effort,
}

module _ {N S : Type 0} (job : ℕ → N → S → S) where
  base-same : (d d' : Shared N) → d'.file ≡ d.file → d'.producer ≡ d.producer → base d' ≡ base d
  base-same d d' e f = ground (arith, e, f)

  ahead-true :
      (p : Phase) (d d' : Shared N)
      → Kept p d d'
      → (d'.first_door ≡ true → d.first_door ≡ true)
      → ahead d' ≡ true
      → ahead d ≡ true
  ahead-true p d d' k h t = ground (arith, k.2, h)

  consume-shrinks :
      (m : Mode) (l : List (Phase × S)) (i : ℕ) (p q : Phase) (x y : S) (d d' : Shared N)
      → Good m d l
      → get_elem? l i ≡ some (p, x)
      → consume job i p x d ≡ some (d', q, y)
      → steps_left d' (set l i (q, y)) < steps_left d l
  consume-shrinks m l i p q x y d d' h at e =
      let k = consume-Kept job i p q x y d d' e in
      let less = consume-effort job m l i p q x y d d' h at e in
      let moved = sum-set (λ (c : Phase × S). effort (ahead d) c.0) l i (p, x) (q, y) at in
      let closes = ahead-true p d d' k (consume_closes job i p q x y d d' e) in
      omega (
        arith,
        moved,
        less,
        base-same d d' k.3 k.2,
        consumers_le (ahead d) (ahead d') (set l i (q, y)) closes,
      )

  read-shrinks :
      (file : List (Option N)) (d : Shared N) (l : List (Phase × S))
      → d.file ≡ file
      → d.producer ≡ Producer.reading
      → steps_left (read_next file d) l < steps_left d l
  unfolding read_next
  read-shrinks [] d l e f = ground (arith, e, f)
  read-shrinks (none ∷ rest) d l e f = ground (arith, e, f)
  read-shrinks (some n ∷ rest) d l e f = ground (arith, e, f)

  produce-shrinks :
      (p : Producer) (m : Mode) (l : List (Phase × S)) (d d' : Shared N)
      → Good m d l
      → d.producer ≡ p
      → produce p d ≡ some d'
      → steps_left d' l < steps_left d l
  unfolding produce producer_wait producer_signal
  produce-shrinks Producer.reading m l d d' h p e =
      subst (λ (t : Shared N). steps_left t l < steps_left d l) (some_inj e)
        (read-shrinks d.file d l refl p)
  produce-shrinks Producer.signalling m l d d' h p e =
      let was : ahead d ≡ true = ground (arith, p) in
      let now : ahead d' ≡ true = ground (arith, e) in
      let less : base d' < base d = ground (arith, p, e) in
      omega (arith, less, ap (λ b. consumers_effort b l) (now ∙ sym was))
  produce-shrinks Producer.waiting m l d d' h p e = elim (Bool-cases d.producer_door) [
    | inl t ↦
        let over = over_at m d l h t in
        let was : ahead d ≡ false = ground (arith, over.2) in
        let now : ahead d' ≡ true = ground (arith, e, t) in
        let less : base d' + 55 ≡ base d = ground (arith, p, e, t) in
        omega (
          arith,
          less,
          h.0,
          ap (λ b. consumers_effort b l) was,
          ap (λ b. consumers_effort b l) now,
          consumers_top l,
        )
    | inr t ↦ absurd (ground (arith, e, t))
  ]
  produce-shrinks Producer.finishing m l d d' h p e =
      let was : ahead d ≡ true = ground (arith, p) in
      let now : ahead d' ≡ true = ground (arith, e) in
      let less : base d' < base d = ground (arith, p, e) in
      omega (arith, less, ap (λ b. consumers_effort b l) (now ∙ sym was))
  produce-shrinks Producer.joining m l d d' h p e = absurd (ground arith)
  produce-shrinks Producer.ended m l d d' h p e = absurd (ground arith)

  join-shrinks :
      (d : Shared N) (l : List (Phase × S))
      → d.producer ≡ Producer.joining
      → steps_left (record d { producer = Producer.ended }) l < steps_left d l
  join-shrinks d l e =
      let same : ahead (record d { producer = Producer.ended }) ≡ ahead d = ground (arith, e) in
      let less : base (record d { producer = Producer.ended }) < base d = ground (arith, e) in
      omega (arith, less, ap (λ b. consumers_effort b l) same)

  Step-shrinks :
      (m : Mode) {s t : State N S}
      → Good m s.shared s.consumers
      → Step job s t
      → steps_left t.shared t.consumers < steps_left s.shared s.consumers
  Step-shrinks m {s} h (Step.produces {d = d} e) =
      produce-shrinks s.shared.producer m s.consumers s.shared d h refl e
  Step-shrinks m {s} h (Step.joins e all) = join-shrinks s.shared s.consumers e
  Step-shrinks m {s} h (Step.consumes i p q x y d at e) =
      consume-shrinks m s.consumers i p q x y s.shared d h at e

  -- `Run n s t`: `n` steps lead from `s` to `t`.
  pub data Run : ℕ → State N S → State N S → Type 0 where
    none_yet : {s : State N S} → Run zero s s
    one_more : {n : ℕ} {s t u : State N S} → Run n s t → Step job t u → Run (suc n) s u

  module _ (start : ℕ → S) (junk : N) (file : List (Option N)) where
    run-Reach :
        {n : ℕ} {s : State N S}
        → Run n (started job start junk file) s
        → Reach job start junk file s
    run-Reach Run.none_yet = Reach.begins
    run-Reach (Run.one_more r st) = Reach.later (run-Reach r) st

    Run-bound :
        {n : ℕ} {s : State N S}
        → Run n (started job start junk file) s
        → n + steps_left s.shared s.consumers ≤ 80 * length file + 53
    unfolding sum
    Run-bound Run.none_yet = omega arith
    Run-bound (Run.one_more r st) =
        let (m, good) = Reach-Good job start junk file (run-Reach r) in
        omega (arith, Step-shrinks m good st, Run-bound r)

    -- No run from the start has more than 80 steps for each record of the file and 53 more, and where it
    -- stops the program has ended or some thread has a step.
    pub ends_lem :
        {n : ℕ} {s : State N S}
        → Run n (started job start junk file) s
        → (n ≤ 80 * length file + 53)
          × ((s.shared.producer ≡ Producer.ended) ⊎ ((t : State N S) × Step job s t))
    ends_lem r = (omega (arith, Run-bound r), lives_lem job start junk file (run-Reach r))
