-- ===== src/Device/Echo.antt =====
-- lab07/chardev_SDP_2/chardev_SDP_2.c: the device that also keeps the last text written to it. put_user
-- and copy_from_user are code of Linux, and parameters; `greeting n` is the text that snprintf makes
-- of the counter. An open is one step.
pub mod Roundtrip
use sdp_labs.Common.{
  ℕ, zero, suc, ◌+◌, ◌-◌, ◌==◌, Option, none, some, List, [], ◌∷◌, ◌++◌, take, length, replicate,
  true, false, ltb, if◌then◌else◌,
}
use sdp_labs.Common.Int.{ℤ, pos, negsuc}
use sdp_labs.Device.Hello.{Copied, overlay, copy_loop, buf_size, ebusy}

-- -EFAULT
abbrev pub efault : ℤ
efault = negsuc 13

-- write_msg_Ptr is NULL until the first open.
pub record Echo : Type 0 where
  pub opened : ℕ
  pub counter : ℕ
  pub msg : List ℕ
  pub msg_ptr : ℕ
  pub write_msg : List ℕ
  pub write_msg_ptr : Option ℕ
  pub use_count : ℕ

-- What snprintf writes: the text, cut to `size` bytes with the 0.
abbrev pub snprintf : ℕ → List ℕ → List ℕ
snprintf size text = take (size - 1) text ++ 0 ∷ []

-- The argument of %s; `none` where no byte of the array is 0.
unfoldable pub c_string : List ℕ → Option (List ℕ)
c_string [] = none
c_string (c ∷ s) = elim (c == 0) [
  | true ↦ some []
  | false ↦ elim (c_string s) [ none ↦ none | some t ↦ some (c ∷ t) ]
]

-- "Last Message: " and the end of the line
abbrev pub last_message : List ℕ
last_message = 76 ∷ 97 ∷ 115 ∷ 116 ∷ 32 ∷ 77 ∷ 101 ∷ 115 ∷ 115 ∷ 97 ∷ 103 ∷ 101 ∷ 58 ∷ 32 ∷ []

abbrev pub newline : List ℕ
newline = 10 ∷ []

unfoldable pub device_open : (ℕ → List ℕ) → Echo → Option (ℤ × Echo)
unfolding overlay
device_open greeting s = elim (s.opened == 0) [
  | false ↦ some (ebusy, s)
  | true ↦ elim (overlay (snprintf 80 (greeting s.counter)) s.msg) [
    | none ↦ none
    | some m ↦ some (
      pos 0,
      record s {
        opened = s.opened + 1;
        counter = s.counter + 1;
        msg = m;
        msg_ptr = 0;
        write_msg_ptr = some 0;
        use_count = s.use_count + 1;
      },
    )
  ]
]

unfoldable pub device_release : Echo → ℤ × Echo
device_release s = (pos 0, record s { opened = s.opened - 1; use_count = s.use_count - 1 })

-- The two loops, the second with the buffer and the length that the first leaves.
unfoldable pub device_read :
    {Mem : Type 0} → (Mem → ℕ → ℕ → Mem) → Mem → ℕ → ℕ → Echo → Option (ℕ × Mem × Echo)
unfolding copy_loop
device_read put_user mem buffer len s = elim (copy_loop put_user mem buffer len s.msg s.msg_ptr 0) [
  | none ↦ none
  | some r ↦ elim s.write_msg_ptr [
    | none ↦ some (r.bytes_read, r.mem, record s { msg_ptr = r.ptr })
    | some p ↦ elim (copy_loop put_user r.mem r.buffer r.length_left s.write_msg p r.bytes_read) [
      | none ↦ none
      | some q ↦
          some (q.bytes_read, q.mem, record s { msg_ptr = r.ptr; write_msg_ptr = some q.ptr })
    ]
  ]
]

-- `copy_from_user mem from n` are the bytes that arrive, or `none` for a fault. Their number is not compared
-- with the 80 of `new_msg` before the copy; `none` is a write or a read behind an array.
unfoldable pub device_write :
    {Mem : Type 0} → (Mem → ℕ → ℕ → Option (List ℕ)) → Mem → ℕ → ℕ → Echo → Option (ℤ × Echo)
unfolding overlay c_string
device_write copy_from_user mem buff len s = elim (copy_from_user mem buff len) [
  | none ↦ some (efault, s)
  | some bytes ↦ elim (overlay bytes (replicate buf_size 0)) [
    | none ↦ none
    | some new_msg ↦ elim (c_string new_msg) [
      | none ↦ none
      | some text ↦
          let n : ℕ = if ltb 60 len then 65 else len in
          elim (overlay (snprintf (15 + n) (last_message ++ text ++ newline)) s.write_msg) [
            | none ↦ none
            | some w ↦ some (pos n, record s { write_msg = w; write_msg_ptr = some 0 })
          ]
    ]
  ]
]
