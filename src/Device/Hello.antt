-- ===== src/Device/Hello.antt =====
-- lab07/chardev_SDP_1/chardev_SDP-1.c: a device that says how many times it was opened. sprintf and put_user
-- are code of Linux, and parameters: `sprintf n` is the message with the 0 behind it.
-- The C code takes no lock: others can come between the test of `device_open` and what follows it.
pub mod Copies
pub mod Runs
use sdp_labs.Common.{
  ℕ, zero, suc, ◌+◌, ◌-◌, ◌==◌, Bool, Option, none, some, List, ◌++◌, drop, length, get_elem?, true,
  false, if◌then◌else◌, leb,
}
use sdp_labs.Common.Int.{ℤ, pos, negsuc}

-- BUF_LEN, -EBUSY and -EINVAL
abbrev pub buf_size : ℕ
buf_size = 80

abbrev pub ebusy : ℤ
ebusy = negsuc 15

abbrev pub einval : ℤ
einval = negsuc 21

-- The variables of the driver, and the use counter of the module.
pub record Hello : Type 0 where
  pub opened : ℕ
  pub counter : ℕ
  pub msg : List ℕ
  pub msg_ptr : ℕ
  pub use_count : ℕ

-- What sprintf leaves in an array; `none` is a write behind it.
unfoldable pub overlay : List ℕ → List ℕ → Option (List ℕ)
overlay text a = if leb (length text) (length a) then some (text ++ drop (length text) a) else none

-- `if (Device_Open)`
unfoldable pub may_open : Hello → Bool
may_open s = s.opened == 0

-- What follows the test.
unfoldable pub open_rest : (ℕ → List ℕ) → Hello → Option Hello
open_rest sprintf s = elim (overlay (sprintf s.counter) s.msg) [
  | none ↦ none
  | some m ↦ some (record s {
    opened = s.opened + 1;
    counter = s.counter + 1;
    msg = m;
    msg_ptr = 0;
    use_count = s.use_count + 1;
  })
]

-- A call that nobody interrupts.
unfoldable pub device_open : (ℕ → List ℕ) → Hello → Option (ℤ × Hello)
unfolding may_open open_rest
device_open sprintf s = elim (may_open s) [
  | false ↦ some (ebusy, s)
  | true ↦ elim (open_rest sprintf s) [ none ↦ none | some t ↦ some (pos 0, t) ]
]

-- Linux calls it for a file that is open, so that neither count is 0.
unfoldable pub device_release : Hello → ℤ × Hello
device_release s = (pos 0, record s { opened = s.opened - 1; use_count = s.use_count - 1 })

-- What the loop `while (length && *msg_Ptr)` leaves.
pub record Copied (Mem : Type 0) : Type 0 where
  pub mem : Mem
  pub buffer : ℕ
  pub length_left : ℕ
  pub ptr : ℕ
  pub bytes_read : ℕ

-- `put_user mem to byte` is the memory behind the write. `none` is a read behind the message.
unfoldable pub copy_loop :
    {Mem : Type 0} → (Mem → ℕ → ℕ → Mem) → Mem → ℕ → ℕ → List ℕ → ℕ → ℕ → Option (Copied Mem)
copy_loop put_user mem buffer zero msg ptr n =
    some (record { mem = mem; buffer = buffer; length_left = 0; ptr = ptr; bytes_read = n })
copy_loop put_user mem buffer (suc left) msg ptr n = elim (get_elem? msg ptr) [
  | none ↦ none
  | some c ↦ elim (c == 0) [
    | true ↦
        some
          (record { mem = mem; buffer = buffer; length_left = suc left; ptr = ptr; bytes_read = n })
    | false ↦ copy_loop put_user (put_user mem buffer c) (buffer + 1) left msg (ptr + 1) (n + 1)
  ]
]

-- The count that the read returns, the memory, and the driver.
unfoldable pub device_read :
    {Mem : Type 0} → (Mem → ℕ → ℕ → Mem) → Mem → ℕ → ℕ → Hello → Option (ℕ × Mem × Hello)
unfolding copy_loop
device_read put_user mem buffer len s = elim (get_elem? s.msg s.msg_ptr) [
  | none ↦ none
  | some c ↦ elim (c == 0) [
    | true ↦ some (0, mem, s)
    | false ↦ elim (copy_loop put_user mem buffer len s.msg s.msg_ptr 0) [
      | none ↦ none
      | some r ↦ some (r.bytes_read, r.mem, record s { msg_ptr = r.ptr })
    ]
  ]
]

-- It refuses, whatever is written.
abbrev pub device_write : ℕ → Hello → ℤ × Hello
device_write len s = (einval, s)
