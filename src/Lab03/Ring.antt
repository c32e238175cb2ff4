-- ===== src/Lab03/Ring.antt =====
-- The circular buffer of lab03/prod_cons.c (`struct prodcons`, 16 integers) and of lab03/lab3.1.c
-- (`Buffer`, `dim` records): the sections under the mutex. The mutex and the two condition variables
-- are those of pthread; a call that has to wait has no result here.
pub mod Fifo
use sdp_labs.Common.{
  ℕ, ◌+◌, ◌-◌, ◌==◌, leb, Bool, Option, none, some, List, get_elem?, set, replicate, if◌then◌else◌,
}

-- `b->in++; if (b->in >= b->dim) b->in = 0;`
abbrev pub advance : ℕ → ℕ → ℕ
advance dim i = if leb dim (i + 1) then 0 else i + 1

-- `Buffer` of office.h. The length of `buffer` is what was allocated.
pub record Buffer {ℓ} (A : Type ℓ) : Type ℓ where
  pub buffer : List A
  pub write_pos : ℕ
  pub read_pos : ℕ
  pub count : ℕ
  pub dim : ℕ

module _ {ℓ} {A : Type ℓ} where
  -- `B_init`: what malloc leaves in the memory is `junk`.
  abbrev pub b_init : List A → ℕ → Buffer A
  b_init junk size = record { buffer = junk; write_pos = 0; read_pos = 0; count = 0; dim = size }

  -- `send` behind its wait for room; `none` while the buffer is full.
  unfoldable pub send : Buffer A → A → Option (Buffer A)
  send b x =
      if b.count == b.dim
      then none
      else some (record b {
        buffer = set b.buffer b.write_pos x;
        write_pos = advance b.dim b.write_pos;
        count = b.count + 1;
      })

  -- `receive` behind its wait for data; `none` while the buffer is empty, or for a read out of range.
  unfoldable pub receive : Buffer A → Option (A × Buffer A)
  receive b = if b.count == 0 then none else elim (get_elem? b.buffer b.read_pos) [
    | none ↦ none
    | some x ↦ some (x, record b { read_pos = advance b.dim b.read_pos; count = b.count - 1 })
  ]
