-- ===== src/Device.antt =====
-- lab07/chardev_SDP_lab/chardev_SDP_lab.c: a character device that keeps one message. The memory of the
-- process, copy_to_user and copy_from_user are those of Linux, and parameters here; so is the semaphore
-- `me`, which device_open takes and device_release gives back: read and write are the sections between.
pub mod Message
pub mod Hello
pub mod Echo
pub mod ProcFile
mod Tests
use sdp_labs.Common.{
  ℕ, zero, suc, ◌+◌, ◌==◌, Option, none, some, List, [], ◌∷◌, ◌++◌, take, drop, length, replicate,
  ltb, leb, if◌then◌else◌,
}

-- BUF_LEN
abbrev pub buf_len : ℕ
buf_len = 128

-- What `memset` leaves, and the array at load.
abbrev pub zeros : ℕ → List ℕ
zeros n = replicate n 0

-- `strlen`: `none` where no byte of the array is 0.
unfoldable pub strlen : List ℕ → Option ℕ
strlen [] = none
strlen (c ∷ s) = if c == 0 then some 0 else elim (strlen s) [ none ↦ none | some n ↦ some (suc n) ]

-- What a call of `device_read` leaves: the count it returns, the memory, and `char_dev_buf`.
pub record Read (Mem : Type 0) : Type 0 where
  pub count : ℕ
  pub mem : Mem
  pub buf : List ℕ

-- `copy_to_user mem to bytes` is the memory behind the copy.
unfoldable pub device_read :
    {Mem : Type 0} → (Mem → ℕ → List ℕ → Mem) → Mem → ℕ → ℕ → List ℕ → Option (Read Mem)
unfolding strlen
device_read copy_to_user mem buff count buf = elim (strlen buf) [
  | none ↦ none
  | some strl ↦
      let n : ℕ = if ltb count strl then count else strl in
      some (record { count = n; mem = copy_to_user mem buff (take n buf); buf = zeros buf_len })
]

-- `copy_from_user mem from n` are the bytes that arrive. Their number is not compared with BUF_LEN;
-- `none` is a write behind the array.
unfoldable pub device_write :
    {Mem : Type 0} → (Mem → ℕ → ℕ → List ℕ) → Mem → ℕ → ℕ → List ℕ → Option (ℕ × List ℕ)
device_write copy_from_user mem buff count buf =
    let bytes = copy_from_user mem buff count in
    if leb (length bytes) (length buf) then some (count, bytes ++ drop (length bytes) buf) else none
