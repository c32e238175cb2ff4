-- ===== src/Lab03/Ring/Fifo.antt =====
-- A buffer holds a queue of at most `dim` items: `send` appends one, `receive` takes the oldest.
use mathlib.Core.Path.{subst}
use sdp_labs.Common.{
  ℕ, ◌+◌, ◌-◌, ◌≤◌, ◌<◌, ◌≡◌, ◌∙◌, ap, sym, ◌⊎◌, inl, inr, Bool-cases, some_inj, refl, none, some,
  List, [], ◌∷◌, ◌++◌, arith, get_elem?, get_elem?-set_self, get_elem?-set_ne, length-append,
  length-set, set, length, ltb, if◌then◌else◌, ◌==◌,
}
use sdp_labs.Lab03.Ring.{Buffer, advance, b_init, send, receive}

-- The slot `n` places behind slot `i`, going round at `dim`.
abbrev pub behind : ℕ → ℕ → ℕ → ℕ
behind dim i n = if ltb (i + n) dim then i + n else i + n - dim

module _ {A : Type 0} where
  -- From slot `i` on the buffer holds `xs`.
  abbrev pub Holds : ℕ → List A → ℕ → List A → Type 0
  Holds dim buf i [] = Unit {0}
  Holds dim buf i (x ∷ xs) = (get_elem? buf i ≡ some x) × Holds dim buf (advance dim i) xs

  -- The buffer represents the queue `xs`, oldest first.
  pub record Queue (b : Buffer A) (xs : List A) : Type 0 where
    pub room : length b.buffer ≡ b.dim
    pub size : b.count ≡ length xs
    pub fits : b.count ≤ b.dim
    pub read_in : b.read_pos < b.dim
    pub write_at : b.write_pos ≡ behind b.dim b.read_pos b.count
    pub held : Holds b.dim b.buffer b.read_pos xs

  -- A write in the slot behind the queue appends to it.
  Holds-set :
      (dim : ℕ) (buf : List A) (i p : ℕ) (xs : List A) (v : A)
      → length buf ≡ dim
      → i < dim
      → length xs < dim
      → p ≡ behind dim i (length xs)
      → Holds dim buf i xs
      → Holds dim (set buf p v) i (xs ++ v ∷ [])
  Holds-set dim buf i p [] v len lt few e h = (ground (arith, get_elem?-set_self buf p v), tt)
  Holds-set dim buf i p (x ∷ xs) v len lt few e h = (
    ground (arith, h.0, get_elem?-set_ne buf {i = p} {j = i} v),
    Holds-set dim buf (advance dim i) p xs v len (ground arith) (omega arith) (ground arith) h.1,
  )

  -- A new buffer represents the empty queue.
  pub b_init-Queue :
      (junk : List A) (size : ℕ) → length junk ≡ size → 0 < size → Queue (b_init junk size) []
  b_init-Queue junk size e h = record {
    room = e;
    size = refl;
    fits = omega arith;
    read_in = h;
    write_at = ground arith;
    held = tt;
  }

  -- On every buffer that represents a queue: a full buffer makes `send` wait, and otherwise it stores
  -- the item behind all others; it never writes out of range.
  pub send_lem :
      (b : Buffer A) (xs : List A) (x : A)
      → Queue b xs
      → ((b.count ≡ b.dim) × (send b x ≡ none))
        ⊎ ((length xs < b.dim)
            × ((b' : Buffer A) × (send b x ≡ some b') × (b'.dim ≡ b.dim) × Queue b' (xs ++ x ∷ [])))
  unfolding send
  send_lem b xs x q = elim (Bool-cases (b.count == b.dim)) [
    | inl full ↦ inl (ground arith, rw full)
    | inr free ↦ inr (
      ground (arith, q.size, q.fits),
      (
        sent,
        rw free,
        refl,
        record {
          room = ground (arith, length-set b.buffer b.write_pos x, q.room);
          size = ground (arith, length-append {0} xs (x ∷ []), q.size);
          fits = ground (arith, q.fits);
          read_in = q.read_in;
          write_at = ground (arith, q.write_at, q.fits, q.read_in);
          held =
              Holds-set b.dim b.buffer b.read_pos b.write_pos xs x q.room q.read_in
                (ground (arith, q.size, q.fits)) (ground (arith, q.write_at, q.size)) q.held;
        },
      ),
    )
  ]
    where
      sent : Buffer A
      sent = record b {
        buffer = set b.buffer b.write_pos x;
        write_pos = advance b.dim b.write_pos;
        count = b.count + 1;
      }

  -- On every buffer that represents a queue: an empty buffer makes `receive` wait, and otherwise it returns the oldest item and leaves the
  -- others in order; it never reads out of range.
  pub receive_lem :
      (b : Buffer A) (xs : List A)
      → Queue b xs
      → ((xs ≡ []) × (receive b ≡ none))
        ⊎ ((x : A) × (rest : List A) × (xs ≡ x ∷ rest)
            × ((b' : Buffer A) × (receive b ≡ some (x, b')) × (b'.dim ≡ b.dim) × Queue b' rest))
  unfolding receive
  receive_lem b [] q = inl (refl, ground (arith, q.size))
  receive_lem b (x ∷ rest) q = inr (
    x,
    rest,
    refl,
    (
      taken,
      ground (arith, q.size, q.held),
      refl,
      record {
        room = q.room;
        size = ground (arith, q.size);
        fits = ground (arith, q.fits);
        read_in = ground (arith, q.read_in);
        write_at = ground (arith, q.write_at, q.size, q.read_in, q.fits);
        held = q.held.1;
      },
    ),
  )
    where
      taken : Buffer A
      taken = record b { read_pos = advance b.dim b.read_pos; count = b.count - 1 }

  -- The same, read from the result of the call.
  module _ {b : Buffer A} {xs : List A} (q : Queue b xs) where
    pub send-some :
        (x : A) {b' : Buffer A} → send b x ≡ some b' → Queue b' (xs ++ x ∷ []) × (b'.dim ≡ b.dim)
    send-some x {b'} e = elim (send_lem b xs x q) [
      | inl (full, no_room) ↦ absurd (cc)
      | inr (room, (sent, e', same, q')) ↦
          let eq : sent ≡ b' = some_inj (sym e' ∙ e) in rw (← eq) (q', same)
    ]

    pub send-none : (x : A) → send b x ≡ none → length xs ≡ b.dim
    send-none x e = elim (send_lem b xs x q) [
      | inl (full, no_room) ↦ omega (arith, q.size)
      | inr (room, (sent, e', same, q')) ↦ absurd (cc)
    ]

    pub receive-some :
        {x : A} {b' : Buffer A}
        → receive b ≡ some (x, b')
        → (rest : List A) × (xs ≡ x ∷ rest) × Queue b' rest × (b'.dim ≡ b.dim)
    receive-some {x} {b'} e = elim (receive_lem b xs q) [
      | inl (none_left, wait) ↦ absurd (cc)
      | inr (y, rest, split, (taken, e', same, q')) ↦
          let eq : ◌≡◌ {A = A × Buffer A} (y, taken) (x, b') = some_inj (sym e' ∙ e) in
          (
            rest,
            rw split (ap (λ (r : A × Buffer A). r.0 ∷ rest) eq),
            subst (λ (r : A × Buffer A). Queue r.1 rest) eq q',
            subst (λ (r : A × Buffer A). r.1.dim ≡ b.dim) eq same,
          )
    ]

    pub receive-none : receive b ≡ none → xs ≡ []
    receive-none e = elim (receive_lem b xs q) [
      | inl (none_left, wait) ↦ none_left
      | inr (y, rest, split, (taken, e', same, q')) ↦ absurd (cc)
    ]
