-- ===== src/Lab12/Doors.antt =====
-- lab12/lab12es01/lab12es01/lab12es01.cpp, VERSION 'C': one producer and four consumers between two doors,
-- in any interleaving. The calls on events and on the critical section do not fail.
pub mod Modes
pub mod Tallies
pub mod Moves
pub mod Safety
pub mod Level
pub mod Work
pub mod Result
pub mod Progress
pub mod Effort
pub mod Ending
pub mod Jobs
use sdp_labs.Common.{
  ℕ, ◌+◌, ◌≡◌, ◌⊎◌, ◌==◌, Bool, true, false, Option, none, some, List, [], ◌∷◌, ◌++◌, get_elem?,
  set, if◌then◌else◌,
}
use sdp_labs.Common.Count.{All}

-- Where a consumer is: before the first door; through it and not counted; the three lines of the last one
-- that is counted; before the test of `done`; before its job; before the second door; through it and not
-- counted; again the three lines of the last one; after its loop.
pub data Phase : Type 0 where
  outside entered first_reset first_close second_open checking working at_second passed second_reset
        second_close producer_open left :
      Phase

-- Where `_tmain` is: before `ReadFile`; before `producerSignal` in its loop; before `producerWait`; before
-- `producerSignal` after its loop; before its wait for the threads; after it.
pub data Producer : Type 0 where
  reading signalling waiting finishing joining ended : Producer

-- `number`, `done`, the doors and counters of SyncStructC, what is left of the file and, which the
-- program does not keep, the numbers that are dealt with. A record that is too short is `none`.
pub record Shared (N : Type 0) : Type 0 where
  pub number : N
  pub done : Bool
  pub first_door : Bool
  pub second_door : Bool
  pub producer_door : Bool
  pub in_first : ℕ
  pub in_second : ℕ
  pub producer : Producer
  pub file : List (Option N)
  pub past : List N

-- A consumer's own variables are an `S`.
pub record State (N : Type 0) (S : Type 0) : Type 0 where
  pub shared : Shared N
  pub consumers : List (Phase × S)

-- A pass through the body of `_tmain` up to its next wait.
unfoldable pub read_next : {N : Type 0} → List (Option N) → Shared N → Shared N
read_next [] d = record d { done = true; producer = Producer.finishing }
read_next (none ∷ rest) d = record d { done = true; producer = Producer.finishing }
read_next (some n ∷ rest) d = record d { number = n; file = rest; producer = Producer.signalling }

unfoldable pub producer_signal : {N : Type 0} → Shared N → Shared N
producer_signal d = record d { first_door = true }

-- `none` while the thread waits.
unfoldable pub producer_wait : {N : Type 0} → Shared N → Option (Shared N)
producer_wait d =
    if d.producer_door
    then some (record d {
      producer_door = false;
      producer = Producer.reading;
      past = d.past ++ d.number ∷ [];
    })
    else none

unfoldable pub produce : {N : Type 0} → Producer → Shared N → Option (Shared N)
unfolding read_next producer_signal producer_wait
produce Producer.reading d = some (read_next d.file d)
produce Producer.signalling d = some (record (producer_signal d) { producer = Producer.waiting })
produce Producer.waiting d = producer_wait d
produce Producer.finishing d = some (record (producer_signal d) { producer = Producer.joining })
produce Producer.joining d = none
produce Producer.ended d = none

-- What a step of a consumer makes of the shared variables, and where it leaves the consumer.
abbrev Moved : Type 0 → Type 0
Moved N = Option (Shared N × Phase)

-- `consumerWait`, line by line; `none` while the thread waits.
unfoldable pub consumer_wait : {N : Type 0} → Phase → Shared N → Moved N
consumer_wait Phase.outside d = if d.first_door then some (d, Phase.entered) else none
consumer_wait Phase.entered d = some (
  record d { in_first = d.in_first + 1 },
  if d.in_first + 1 == 4 then Phase.first_reset else Phase.checking,
)
consumer_wait Phase.first_reset d = some (record d { in_first = 0 }, Phase.first_close)
consumer_wait Phase.first_close d = some (record d { first_door = false }, Phase.second_open)
consumer_wait Phase.second_open d = some (record d { second_door = true }, Phase.checking)
consumer_wait _ d = none

-- `consumerSignal`, line by line.
unfoldable pub consumer_signal : {N : Type 0} → Phase → Shared N → Moved N
consumer_signal Phase.at_second d = if d.second_door then some (d, Phase.passed) else none
consumer_signal Phase.passed d = some (
  record d { in_second = d.in_second + 1 },
  if d.in_second + 1 == 4 then Phase.second_reset else Phase.outside,
)
consumer_signal Phase.second_reset d = some (record d { in_second = 0 }, Phase.second_close)
consumer_signal Phase.second_close d = some (record d { second_door = false }, Phase.producer_open)
consumer_signal Phase.producer_open d = some (record d { producer_door = true }, Phase.outside)
consumer_signal _ d = none

module _ {N S : Type 0} (job : ℕ → N → S → S) where
  -- The loop of consumer `i`, whose variables are `x`. Its job, `switch (param->threadNumber)`, is one step.
  unfoldable pub consume : ℕ → Phase → S → Shared N → Option (Shared N × Phase × S)
  unfolding consumer_wait consumer_signal
  consume i Phase.checking x d = some (d, if d.done then Phase.left else Phase.working, x)
  consume i Phase.working x d = some (d, Phase.at_second, job i d.number x)
  consume i p x d = elim (consumer_wait p d) [
    | some (d', q) ↦ some (d', q, x)
    | none ↦ elim (consumer_signal p d) [ some (d', q) ↦ some (d', q, x) | none ↦ none ]
  ]

  pub data Step (s : State N S) : State N S → Type 0 where
    produces :
        {d : Shared N}
        → produce s.shared.producer s.shared ≡ some d
        → Step s (record s { shared = d })
    -- `WaitForMultipleObjects(4, consumerThreads, TRUE, INFINITE)`
    joins :
        s.shared.producer ≡ Producer.joining
        → All (λ c. c.0 ≡ Phase.left) s.consumers
        → Step s (record s { shared = record s.shared { producer = Producer.ended } })
    consumes :
        (i : ℕ) (p q : Phase) (x y : S) (d : Shared N)
        → get_elem? s.consumers i ≡ some (p, x)
        → consume i p x s.shared ≡ some (d, q, y)
        → Step s (record { shared = d; consumers = set s.consumers i (q, y) })

  module _ (start : ℕ → S) (junk : N) (file : List (Option N)) where
    -- The threads run, and `done` is FALSE.
    abbrev pub started : State N S
    started = record {
      shared = record {
        number = junk;
        done = false;
        first_door = false;
        second_door = false;
        producer_door = false;
        in_first = 0;
        in_second = 0;
        producer = Producer.reading;
        file = file;
        past = [];
      };
      consumers =
          (Phase.outside, start 0)
          ∷ (Phase.outside, start 1)
          ∷ (Phase.outside, start 2)
          ∷ (Phase.outside, start 3)
          ∷ [];
    }

    pub data Reach : State N S → Type 0 where
      begins : Reach started
      later : {s t : State N S} → Reach s → Step s t → Reach t
