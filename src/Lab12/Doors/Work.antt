-- ===== src/Lab12/Doors/Work.antt =====
-- What the consumers of lab12es01.cpp have computed.
use mathlib.Core.Path.{subst}
use sdp_labs.Common.{
  ℕ, zero, suc, ◌≡◌, ◌∙◌, ap, inl, inr, sym, refl, false, Option, none, some, List, [], ◌∷◌, arith,
  length, get_elem?, Bool-cases, some_inj,
}
use sdp_labs.Common.Count.{All-get}
use sdp_labs.Lab12.Doors.{
  Phase, Producer, Shared, State, read_next, producer_signal, producer_wait, produce, Step, Reach,
  started,
}
use sdp_labs.Lab12.Doors.Tallies.{kind, tally, tally-all, kind_outside}
use sdp_labs.Lab12.Doors.Modes.{Mode, has_opened}
use sdp_labs.Lab12.Doors.Moves.{Good, idle_before, over_at}
use sdp_labs.Lab12.Doors.Safety.{Reach-Good}
use sdp_labs.Lab12.Doors.Level.{run-append, fresh, level, Fits, consume-Fits}

module _ {N S : Type 0} (job : ℕ → N → S → S) (start : ℕ → S) where
  everyone_outside :
      (d : Shared N) (l : List (Phase × S))
      → length l ≡ 4
      → tally 0 l ≡ 4
      → (j : ℕ) (p : Phase) (z : S) → get_elem? l j ≡ some (p, z)
      → p ≡ Phase.outside
  everyone_outside d l four h j p z at =
      kind_outside p (
        All-get (λ (c : Phase × S). kind c.0 ≡ 0) l j {x = (p, z)} (tally-all l 0 (omega arith)) at)

  -- A step of the producer, while all are outside.
  produce-Fits :
      (l : List (Phase × S)) (d d' : Shared N)
      → length l ≡ 4
      → tally 0 l ≡ 4
      → Fits job start d l
      → ((j : ℕ)
          → level job start (fresh Phase.outside d) j d
            ≡ level job start (fresh Phase.outside d') j d')
      → Fits job start d' l
  produce-Fits l d d' four h f same j p z at =
      let out = everyone_outside d l four h j p z at in
      f j p z at
      ∙ ap (λ q. level job start (fresh q d) j d) out
      ∙ same j
      ∙ ap (λ q. level job start (fresh q d') j d') (sym out)

  read-level :
      (file : List (Option N)) (d : Shared N) (j : ℕ)
      → has_opened d.producer ≡ false
      → level job start (fresh Phase.outside d) j d
        ≡ level job start (fresh Phase.outside (read_next file d)) j (read_next file d)
  unfolding read_next
  read-level [] d j e = ground arith
  read-level (none ∷ rest) d j e = ground arith
  read-level (some n ∷ rest) d j e = ground arith

  produce-level :
      (p : Producer) (m : Mode) (l : List (Phase × S)) (d d' : Shared N)
      → Good m d l
      → d.producer ≡ p
      → produce p d ≡ some d'
      → (tally 0 l ≡ 4)
        × ((j : ℕ)
            → level job start (fresh Phase.outside d) j d
              ≡ level job start (fresh Phase.outside d') j d')
  unfolding produce producer_wait producer_signal
  produce-level Producer.reading m l d d' h p e =
      let idle = idle_before m d l h (ground arith) in
      (
        omega (arith, idle.2),
        λ j.
            subst
              (λ (t : Shared N).
                level job start (fresh Phase.outside d) j d
                ≡ level job start (fresh Phase.outside t) j t)
              (some_inj e) (read-level d.file d j (ground arith)),
      )
  produce-level Producer.signalling m l d d' h p e =
      let idle = idle_before m d l h (ground arith) in
      (omega (arith, idle.2), λ j. ground (arith, e))
  produce-level Producer.waiting m l d d' h p e = elim (Bool-cases d.producer_door) [
    | inl t ↦
        let over = over_at m d l h t in
        (
          omega (arith, over.2),
          λ j. ground (arith, e, t, over.2, run-append job j (start j) d.past d.number),
        )
    | inr t ↦ absurd (ground (arith, e, t))
  ]
  produce-level Producer.finishing m l d d' h p e =
      let idle = idle_before m d l h (ground arith) in
      (omega (arith, idle.2), λ j. ground (arith, e))
  produce-level Producer.joining m l d d' h p e = absurd (ground arith)
  produce-level Producer.ended m l d d' h p e = absurd (ground arith)

  Step-Fits :
      (m : Mode) {s t : State N S}
      → Good m s.shared s.consumers
      → Fits job start s.shared s.consumers
      → Step job s t
      → Fits job start t.shared t.consumers
  Step-Fits m {s} h f (Step.produces {d = d} e) =
      let (out, same) = produce-level s.shared.producer m s.consumers s.shared d h refl e in
      produce-Fits s.consumers s.shared d h.0 out f same
  Step-Fits m {s} h f (Step.joins e all) = λ j p z at.
      let gone : p ≡ Phase.left =
        All-get (λ (c : Phase × S). c.0 ≡ Phase.left) s.consumers j {x = (p, z)} all at in
      let d' : Shared N = record s.shared { producer = Producer.ended } in
      f j p z at
      ∙ ap (λ q. level job start (fresh q s.shared) j s.shared) gone
      ∙ ap (λ q. level job start (fresh q d') j d') (sym gone)
  Step-Fits m {s} h f (Step.consumes i p q x y d at e) =
      consume-Fits job start m s.consumers i p q x y s.shared d h f at e

  started-Fits :
      (junk : N) (file : List (Option N))
      → Fits job start (started job start junk file).shared (started job start junk file).consumers
  started-Fits junk file zero p z at = ground (arith, at)
  started-Fits junk file (suc zero) p z at = ground (arith, at)
  started-Fits junk file (suc (suc zero)) p z at = ground (arith, at)
  started-Fits junk file (suc (suc (suc zero))) p z at = ground (arith, at)
  started-Fits junk file (suc (suc (suc (suc j)))) p z at = absurd (ground (arith, at))

  module _ (junk : N) (file : List (Option N)) where
    pub Reach-Fits :
        {s : State N S} → Reach job start junk file s → Fits job start s.shared s.consumers
    Reach-Fits Reach.begins = started-Fits junk file
    Reach-Fits (Reach.later r st) =
        let (m, good) = Reach-Good job start junk file r in Step-Fits m good (Reach-Fits r) st
