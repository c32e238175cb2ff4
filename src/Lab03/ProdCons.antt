-- ===== src/Lab03/ProdCons.antt =====
-- lab03/prod_cons.c: one producer and one consumer over a buffer of 16 integers, in any interleaving
-- of the sections that they run under the mutex.
pub mod Streams
pub mod Safety
use sdp_labs.Common.{
  ℕ, ◌+◌, ◌≤◌, ◌≡◌, Bool, true, false, Option, none, some, List, [], ◌∷◌, ◌++◌, ltb, if◌then◌else◌,
}
use sdp_labs.Common.Int.{ℤ, pos, minus_one, eqb_ℤ}
use sdp_labs.Lab03.Ring.{Buffer, b_init, send, receive}

-- `BUFFER_SIZE` and `OVER`
abbrev pub buffer_size : ℕ
buffer_size = 16

abbrev pub over : ℤ
over = minus_one

-- `init`, `put` and `get`: the same code as in lab3.1.c with `dim` the constant BUFFER_SIZE.
abbrev pub init : List ℤ → Buffer ℤ
init junk = b_init junk buffer_size

abbrev pub put : Buffer ℤ → ℤ → Option (Buffer ℤ)
put = send

abbrev pub get : Buffer ℤ → Option (ℤ × Buffer ℤ)
get = receive

-- What `producer` puts when its counter is `n`: the numbers below `limit` (10000 in the source), and
-- behind the loop OVER.
abbrev pub item : ℕ → ℕ → ℤ
item limit n = if ltb n limit then pos n else over

-- The two threads. A waiting thread is in pthread_cond_wait; `printed` is what the consumer has shown.
pub record Threads : Type 0 where
  pub buffer : Buffer ℤ
  pub next : ℕ
  pub producer_waits : Bool
  pub consumer_waits : Bool
  pub printed : List ℤ
  pub finished : Bool

-- The loop of `consumer` for one item.
abbrev pub consume : Threads → ℤ → Buffer ℤ → Threads
consume s x b =
    if eqb_ℤ x over
    then record s { buffer = b; producer_waits = false; finished = true }
    else record s { buffer = b; producer_waits = false; printed = s.printed ++ x ∷ [] }

-- One step. pthread_cond_signal wakes the one thread that can wait on that condition, and a wait may
-- also end by itself; then the thread tests its condition again.
pub data Step (limit : ℕ) (s : Threads) : Threads → Type 0 where
  puts :
      {b : Buffer ℤ}
      → s.producer_waits ≡ false
      → s.next ≤ limit
      → put s.buffer (item limit s.next) ≡ some b
      → Step limit s (record s { buffer = b; next = s.next + 1; consumer_waits = false })
  put_waits :
      s.producer_waits ≡ false
      → s.next ≤ limit
      → put s.buffer (item limit s.next) ≡ none
      → Step limit s (record s { producer_waits = true })
  gets :
      {x : ℤ} {b : Buffer ℤ}
      → s.consumer_waits ≡ false
      → s.finished ≡ false
      → get s.buffer ≡ some (x, b)
      → Step limit s (consume s x b)
  get_waits :
      s.consumer_waits ≡ false
      → s.finished ≡ false
      → get s.buffer ≡ none
      → Step limit s (record s { consumer_waits = true })
  producer_wakes : Step limit s (record s { producer_waits = false })
  consumer_wakes : Step limit s (record s { consumer_waits = false })

abbrev pub initial : List ℤ → Threads
initial junk = record {
  buffer = init junk;
  next = 0;
  producer_waits = false;
  consumer_waits = false;
  printed = [];
  finished = false;
}

pub data Reach (limit : ℕ) (junk : List ℤ) : Threads → Type 0 where
  start : Reach limit junk (initial junk)
  later : {s t : Threads} → Reach limit junk s → Step limit s t → Reach limit junk t
