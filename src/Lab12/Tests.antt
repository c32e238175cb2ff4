-- ===== src/Lab12/Tests.antt =====
-- Runs of the programs of lab12, and the theorems at concrete inputs.
use sdp_labs.Common.{
  ℕ, ◌+◌, ◌*◌, ◌≤◌, ◌≡◌, refl, ◌⊎◌, Option, none, some, List, [], ◌∷◌, ◌++◌, arith, length,
  get_elem?, set, Option-cases, inl, inr, some_inj,
}
use mathlib.Core.Path.{subst}
use sdp_labs.Common.Count.{All}
use sdp_labs.Common.Int.{ℤ, pos}
use sdp_labs.Lab12.BigNumber.{multiply, factorial, my_multiply, carry_loop, digit_loop}
use sdp_labs.Lab12.BigNumber.Digits.{value, Canonical}
use sdp_labs.Lab12.BigNumber.Multiply.{multiply_lem}
use sdp_labs.Lab12.BigNumber.Text.{Writes}
use sdp_labs.Lab12.BigNumber.Results.{factorial_lem}
use sdp_labs.Lab12.Doors.{
  Phase, Producer, State, Step, Reach, started, produce, consume, read_next, producer_signal,
  producer_wait, consumer_wait, consumer_signal,
}
use sdp_labs.Lab12.BigNumber.{text_of, factorial_loop}
use sdp_labs.Lab12.Doors.Level.{run}
use sdp_labs.Lab12.Doors.Result.{served_lem}
use sdp_labs.Lab12.Doors.Ending.{ends_lem, Run}
use sdp_labs.Lab12.Doors.Jobs.{Local, Line, start, job, job_of, Products, products_lem}

multiply_lem_example :
    (r : List ℕ) × (multiply 4 25 (8 ∷ 9 ∷ 1 ∷ []) ≡ some r)
    × Canonical r
    × (value r ≡ 4950)
    × (length r ≤ 4)
multiply_lem_example =
    multiply_lem 4 25 (8 ∷ 9 ∷ 1 ∷ []) (omega arith) (omega arith) (omega arith) (omega arith)

factorial_lem_example : (s : List ℕ) × (factorial 5 6 ≡ some s) × Writes s 720
factorial_lem_example = factorial_lem 4 6 (omega arith) (omega arith)

-- A run by a schedule: `none` is a step of the producer, `some i` one of consumer `i`.
module _ {N S : Type 0} (job : ℕ → N → S → S) where
  unfoldable turn : Option ℕ → State N S → Option (State N S)
  turn none s = elim (produce s.shared.producer s.shared) [
    | none ↦ none
    | some d ↦ some (record s { shared = d })
  ]
  turn (some i) s = elim (get_elem? s.consumers i) [
    | none ↦ none
    | some (p, x) ↦ elim (consume job i p x s.shared) [
      | none ↦ none
      | some (d, q, y) ↦ some (record { shared = d; consumers = set s.consumers i (q, y) })
    ]
  ]

  unfoldable play : List (Option ℕ) → State N S → Option (State N S)
  unfolding turn
  play [] s = some s
  play (o ∷ os) s = elim (turn o s) [ none ↦ none | some t ↦ play os t ]

  turn-Step : (o : Option ℕ) (s t : State N S) → turn o s ≡ some t → Step job s t
  unfolding turn
  turn-Step none s t e = elim (Option-cases (produce s.shared.producer s.shared)) [
    | inl no_step ↦ absurd (ground (arith, no_step, e))
    | inr (d, step) ↦
        let same : record s { shared = d } ≡ t = some_inj (ground (arith, step, e)) in
        subst (λ t'. Step job s t') same (Step.produces step)
  ]
  turn-Step (some i) s t e = elim (Option-cases (get_elem? s.consumers i)) [
    | inl gone ↦ absurd (ground (arith, gone, e))
    | inr ((p, x), at) ↦ elim (Option-cases (consume job i p x s.shared)) [
      | inl waits ↦ absurd (ground (arith, waits, at, e))
      | inr ((d, q, y), go) ↦
          let next : State N S = record { shared = d; consumers = set s.consumers i (q, y) } in
          let same : next ≡ t = some_inj (ground (arith, at, go, e)) in
          subst (λ t'. Step job s t') same (Step.consumes i p q x y d at go)
    ]
  ]

  play-Reach :
      (start : ℕ → S) (junk : N) (file : List (Option N)) (os : List (Option ℕ)) (s t : State N S)
      → Reach job start junk file s
      → play os s ≡ some t
      → Reach job start junk file t
  unfolding play
  play-Reach start junk file [] s t r e = subst (Reach job start junk file) (some_inj e) r
  play-Reach start junk file (o ∷ os) s t r e = elim (Option-cases (turn o s)) [
    | inl stuck ↦ absurd (ground (arith, stuck, e))
    | inr (u, go) ↦
        play-Reach start junk file os u t (Reach.later r (turn-Step o s u go))
          (ground (arith, go, e))
  ]

-- The consumers in turn, each twice.
abbrev each_twice : List (Option ℕ)
each_twice = some 2 ∷ some 2 ∷ some 0 ∷ some 0 ∷ some 3 ∷ some 3 ∷ some 1 ∷ some 1 ∷ []

abbrev once : List (Option ℕ)
once = some 0 ∷ some 3 ∷ some 2 ∷ some 1 ∷ []

abbrev last_one : List (Option ℕ)
last_one = some 1 ∷ some 1 ∷ some 1 ∷ []

-- A file of 6, and of a record that is too short.
abbrev file_of_6 : List (Option ℤ)
file_of_6 = some (pos 6) ∷ none ∷ []

-- Up to the job, through the second door, and the rest.
abbrev schedule : List (Option ℕ)
schedule =
    none
    ∷ none
    ∷ (each_twice
        ++ last_one
        ++ each_twice
        ++ each_twice
        ++ last_one
        ++ (none ∷ none ∷ none ∷ each_twice)
        ++ last_one
        ++ once)

abbrev before : State ℤ (Option Local)
before = started (job 5) start (pos 9) file_of_6

-- What the thread of the product is left with.
abbrev of_6 : Option Local
of_6 = some (record {
  accumulator = 0;
  result_number = 54 ∷ [];
  printed = Line.product_line (54 ∷ []) ∷ [];
})

abbrev Ready : State ℤ (Option Local) → Type 0
Ready s =
    (s.shared.producer ≡ Producer.joining)
    × All (λ c. c.0 ≡ Phase.left) s.consumers
    × (get_elem? s.consumers 1 ≡ some (Phase.left, of_6))

played : (s : State ℤ (Option Local)) × (play (job 5) schedule before ≡ some s) × Ready s
unfolding play turn produce consume read_next producer_signal producer_wait consumer_wait
    consumer_signal job_of my_multiply factorial factorial_loop multiply digit_loop carry_loop
    text_of
played = (_, refl, (refl, (refl, (refl, (refl, (refl, tt)))), refl))

-- The same run, up to the end of the program.
at_end :
    (s : State ℤ (Option Local)) × Reach (job 5) start (pos 9) file_of_6 s
    × (s.shared.producer ≡ Producer.ended)
    × (get_elem? s.consumers 1 ≡ some (Phase.left, of_6))
at_end =
    let (s, go, (joining, all, second)) = played in
    (
      _,
      Reach.later (play-Reach (job 5) start (pos 9) file_of_6 schedule before s Reach.begins go)
          (Step.joins joining all),
      refl,
      second,
    )

served_lem_example : (Phase.left ≡ Phase.left) × (of_6 ≡ run (job 5) 1 (start 1) (pos 6 ∷ []))
served_lem_example =
    served_lem (job 5) start (pos 9) file_of_6 1 Phase.left (of_6) at_end.1 at_end.2 at_end.3

products_lem_example :
    ((y : Local) × (of_6 ≡ some y) × Products 1 (6 ∷ []) y.printed)
    × ((i : ℕ) (q : Phase) (z : Option Local)
        → get_elem? at_end.0.consumers i ≡ some (q, z)
        → (y : Local) × (z ≡ some y))
products_lem_example =
    products_lem 4 (omega arith) (pos 9) file_of_6 (6 ∷ []) Phase.left (of_6) at_end.1 at_end.2
      at_end.3 refl (omega arith, omega arith, omega arith, omega arith, tt)

-- The first number has been read.
abbrev early : State ℤ (Option Local)
early = record before {
  shared = record before.shared {
    number = pos 6;
    file = none ∷ [];
    producer = Producer.signalling;
  };
}

ends_lem_example :
    (1 ≤ 80 * 2 + 53)
    × ((early.shared.producer ≡ Producer.ended)
        ⊎ ((t : State ℤ (Option Local)) × Step (job 5) early t))
unfolding produce read_next
ends_lem_example =
    ends_lem (job 5) start (pos 9) file_of_6 (Run.one_more Run.none_yet (Step.produces refl))
