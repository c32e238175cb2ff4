-- ===== src/Lab03/ProdCons/Safety.antt =====
-- What the producer and the consumer of prod_cons.c achieve in every interleaving.
use mathlib.Core.List.{append_assoc, append-nil}
use mathlib.Core.Path.{subst}
use sdp_labs.Common.{
  ℕ, ◌+◌, ◌≤◌, ◌≡◌, ◌≢◌, ◌⊎◌, inl, inr, refl, ap, ◌∙◌, sym, Bool, true, false, none, some, List, [],
  ◌∷◌, ◌++◌, arith, length, Bool-cases, dec_le,
}
use sdp_labs.Common.Count.{All}
use sdp_labs.Common.Int.{ℤ, eqb_ℤ}
use sdp_labs.Lab03.Ring.{Buffer}
use sdp_labs.Lab03.Ring.Fifo.{Queue, b_init-Queue, send-some, send-none, receive-some, receive-none}
use sdp_labs.Lab03.ProdCons.{
  over, buffer_size, item, put, get, consume, Threads, Step, puts, put_waits, gets, get_waits,
  producer_wakes, consumer_wakes, Reach, start, later,
}
use sdp_labs.Lab03.ProdCons.Streams.{
  numbers, left, left-step, left_done, left_all, over_last, not_over, prefix_numbers,
}

abbrev pub Plain : ℤ → Type 0
Plain x = eqb_ℤ x over ≡ false

-- `xs` is in the buffer. What has been printed, what is in the buffer and what is still to come make
-- up the whole stream.
pub record Inv (limit : ℕ) (s : Threads) (xs : List ℤ) : Type 0 where
  pub queue : Queue s.buffer xs
  pub size : s.buffer.dim ≡ buffer_size
  pub next_le : s.next ≤ limit + 1
  pub plain : All Plain s.printed
  pub stream :
      s.finished ≡ false → s.printed ++ (xs ++ left limit s.next) ≡ numbers limit 0 ++ over ∷ []
  pub done : s.finished ≡ true → s.printed ≡ numbers limit 0
  pub full : s.producer_waits ≡ true → length xs ≡ buffer_size
  pub empty : s.consumer_waits ≡ true → xs ≡ []

abbrev pub Holds : ℕ → Threads → Type 0
Holds limit s = (xs : List ℤ) × Inv limit s xs

Plain-append : (l : List ℤ) (x : ℤ) → All Plain l → Plain x → All Plain (l ++ x ∷ [])
Plain-append [] x a h = (h, tt)
Plain-append (y ∷ l) x a h = (a.0, Plain-append l x a.1 h)

eq_over : (x : ℤ) → eqb_ℤ x over ≡ true → x ≡ over
eq_over x h = ground arith

puts-Inv :
    (limit : ℕ) (s : Threads) (xs : List ℤ) {b : Buffer ℤ}
    → Inv limit s xs
    → s.producer_waits ≡ false
    → s.next ≤ limit
    → put s.buffer (item limit s.next) ≡ some b
    → Holds limit (record s { buffer = b; next = s.next + 1; consumer_waits = false })
puts-Inv limit s xs {b} inv awake le e =
    let (q, same) = send-some inv.queue (item limit s.next) e in
    (
      xs ++ item limit s.next ∷ [],
      record {
        queue = q;
        size = same ∙ inv.size;
        next_le = omega arith;
        plain = inv.plain;
        stream = λ f. rw (append_assoc, ← left-step limit s.next le) (inv.stream f);
        done = inv.done;
        full = λ w. absurd (ground arith);
        empty = λ w. absurd (ground arith);
      },
    )

gets-Inv :
    (limit : ℕ) (s : Threads) (xs : List ℤ) {x : ℤ} {b : Buffer ℤ}
    → Inv limit s xs
    → s.consumer_waits ≡ false
    → s.finished ≡ false
    → get s.buffer ≡ some (x, b)
    → Holds limit (consume s x b)
gets-Inv limit s xs {x} {b} inv awake run e =
    let (rest, split, q, same) = receive-some inv.queue e in
    let whole : s.printed ++ (x ∷ (rest ++ left limit s.next)) ≡ numbers limit 0 ++ over ∷ [] =
      rw split at (inv.stream run) in
    elim (Bool-cases (eqb_ℤ x over)) [
      | inl last ↦ (
        rest,
        rw last (record {
          queue = q;
          size = same ∙ inv.size;
          next_le = inv.next_le;
          plain = inv.plain;
          stream = λ f. absurd (ground arith);
          done = λ _.
              (over_last s.printed (rest ++ left limit s.next) limit 0 (
                subst
                  (λ y.
                    s.printed ++ (y ∷ (rest ++ left limit s.next)) ≡ numbers limit 0 ++ over ∷ [])
                  (eq_over x last) whole)).1;
          full = λ w. absurd (ground arith);
          empty = λ w. absurd (ground arith);
        }),
      )
      | inr more ↦ (
        rest,
        rw more (record {
          queue = q;
          size = same ∙ inv.size;
          next_le = inv.next_le;
          plain = Plain-append s.printed x inv.plain more;
          stream = λ f. rw append_assoc whole;
          done = λ f. absurd (ground arith);
          full = λ w. absurd (ground arith);
          empty = λ w. absurd (ground arith);
        }),
      )
    ]

Step-Holds : {limit : ℕ} {s t : Threads} → Holds limit s → Step limit s t → Holds limit t
Step-Holds {limit} {s} (xs, inv) (puts awake le e) = puts-Inv limit s xs inv awake le e
Step-Holds {limit} {s} (xs, inv) (put_waits awake le e) = (
  xs,
  record {
    queue = inv.queue;
    size = inv.size;
    next_le = inv.next_le;
    plain = inv.plain;
    stream = inv.stream;
    done = inv.done;
    full = λ _. send-none inv.queue (item limit s.next) e ∙ inv.size;
    empty = inv.empty;
  },
)
Step-Holds {limit} {s} (xs, inv) (gets awake run e) = gets-Inv limit s xs inv awake run e
Step-Holds (xs, inv) (get_waits awake run e) = (
  xs,
  record {
    queue = inv.queue;
    size = inv.size;
    next_le = inv.next_le;
    plain = inv.plain;
    stream = inv.stream;
    done = inv.done;
    full = inv.full;
    empty = λ _. receive-none inv.queue e;
  },
)
Step-Holds (xs, inv) producer_wakes = (
  xs,
  record {
    queue = inv.queue;
    size = inv.size;
    next_le = inv.next_le;
    plain = inv.plain;
    stream = inv.stream;
    done = inv.done;
    full = λ w. absurd (ground arith);
    empty = inv.empty;
  },
)
Step-Holds (xs, inv) consumer_wakes = (
  xs,
  record {
    queue = inv.queue;
    size = inv.size;
    next_le = inv.next_le;
    plain = inv.plain;
    stream = inv.stream;
    done = inv.done;
    full = inv.full;
    empty = λ w. absurd (ground arith);
  },
)

Reach-Holds :
    {limit : ℕ} {junk : List ℤ} {s : Threads}
    → length junk ≡ buffer_size
    → Reach limit junk s
    → Holds limit s
Reach-Holds {limit} {junk} len start = (
  [],
  record {
    queue = b_init-Queue junk buffer_size len (omega arith);
    size = refl;
    next_le = omega arith;
    plain = tt;
    stream = λ _. left_all limit;
    done = λ f. absurd (ground arith);
    full = λ w. absurd (ground arith);
    empty = λ _. refl;
  },
)
Reach-Holds len (later r st) = Step-Holds (Reach-Holds len r) st

-- With a buffer of 16 places, in every reachable state the consumer has printed the first numbers from 0 on, in order and each
-- once; and when it has left its loop it has printed all numbers below `limit`.
pub printed_lem :
    {limit : ℕ} {junk : List ℤ} {s : Threads}
    → length junk ≡ buffer_size
    → Reach limit junk s
    → ((m : ℕ) × (m ≤ limit) × (s.printed ≡ numbers m 0))
      × (s.finished ≡ true → s.printed ≡ numbers limit 0)
printed_lem {limit} {s = s} len r =
    let (xs, inv) = Reach-Holds len r in
    (
      elim (Bool-cases s.finished) [
        | inl f ↦ (limit, omega arith, inv.done f)
        | inr run ↦
            prefix_numbers s.printed (xs ++ left limit s.next) limit 0 inv.plain (inv.stream run)
      ],
      inv.done,
    )

-- With an empty buffer and the consumer in its loop, the producer has not put OVER.
next-le-limit : (limit : ℕ) (s : Threads) → Inv limit s [] → s.finished ≡ false → s.next ≤ limit
next-le-limit limit s inv run = elim (dec_le s.next limit) [
  | yes le ↦ le
  | no more ↦
      let last : s.next ≡ limit + 1 = omega (arith, inv.next_le) in
      absurd (
        not_over s.printed limit 0 inv.plain (
          sym (append-nil s.printed)
          ∙ ap (λ l. s.printed ++ l) (sym (left_done limit))
          ∙ ap (λ n. s.printed ++ left limit n) (sym last)
          ∙ inv.stream run))
]

-- No deadlock, with a buffer of 16 places: in every reachable state in which the consumer is still in its loop, the producer can
-- put its next item now, or the consumer can get one now; neither of them waits then.
pub can_go_on :
    {limit : ℕ} {junk : List ℤ} {s : Threads}
    → length junk ≡ buffer_size
    → Reach limit junk s
    → s.finished ≡ false
    → ((s.producer_waits ≡ false) × (s.next ≤ limit) × (put s.buffer (item limit s.next) ≢ none))
      ⊎ ((s.consumer_waits ≡ false) × (get s.buffer ≢ none))
can_go_on {limit} {s = s} len r run = let (xs, inv) = Reach-Holds len r in go xs inv
  where
    awake : (b : Bool) → (b ≡ true → ⊥) → b ≡ false
    awake true h = absurd (h refl)
    awake false h = refl

    go :
        (xs : List ℤ)
        → Inv limit s xs
        → ((s.producer_waits ≡ false)
            × (s.next ≤ limit)
            × (put s.buffer (item limit s.next) ≢ none))
          ⊎ ((s.consumer_waits ≡ false) × (get s.buffer ≢ none))
    go [] inv = inl (
      awake s.producer_waits (λ w. omega (arith, inv.full w)),
      next-le-limit limit s inv run,
      λ e. omega (arith, send-none inv.queue (item limit s.next) e, inv.size),
    )
    go (x ∷ xs) inv = inr (
      awake s.consumer_waits (λ w. ground (arith, inv.empty w)),
      λ e. ground (arith, receive-none inv.queue e),
    )
