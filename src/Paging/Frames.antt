-- ===== src/Paging/Frames.antt =====
-- lab05/src/paging.c: `frames`, an array of 32-bit words with one bit for each frame of 4 KB.
pub mod Bitset
pub mod First
use Prim.Native.Nat.{bit_and, bit_or}
use sdp_labs.Common.{
  ℕ, zero, suc, ◌+◌, ◌*◌, ◌/◌, ◌%◌, ◌^◌, Bool, Option, none, some, List, get_elem?, set, ◌==◌,
  if◌then◌else◌,
}
use sdp_labs.Common.Bits.{complement}

-- INDEX_FROM_BIT and OFFSET_FROM_BIT
abbrev pub index_from_bit : ℕ → ℕ
index_from_bit a = a / 32

abbrev pub offset_from_bit : ℕ → ℕ
offset_from_bit a = a % 32

-- `frames[idx]` is read and written back by `f`; `none` where `idx` is out of the array.
abbrev pub update_word : List ℕ → ℕ → (ℕ → ℕ) → Option (List ℕ)
update_word frames idx f = elim (get_elem? frames idx) [
  | none ↦ none
  | some w ↦ some (set frames idx (f w))
]

unfoldable pub set_frame : List ℕ → ℕ → Option (List ℕ)
set_frame frames frame_addr =
    let frame = frame_addr / 0x1000 in
    let idx = index_from_bit frame in
    let off = offset_from_bit frame in update_word frames idx (λ w. bit_or w (2 ^ off))

unfoldable pub clear_frame : List ℕ → ℕ → Option (List ℕ)
clear_frame frames frame_addr =
    let frame = frame_addr / 0x1000 in
    let idx = index_from_bit frame in
    let off = offset_from_bit frame in
    update_word frames idx (λ w. bit_and w (complement 32 (2 ^ off)))

unfoldable pub test_frame : List ℕ → ℕ → Option ℕ
test_frame frames frame_addr =
    let frame = frame_addr / 0x1000 in
    let idx = index_from_bit frame in
    let off = offset_from_bit frame in
    elim (get_elem? frames idx) [ none ↦ none | some w ↦ some (bit_and w (2 ^ off)) ]

-- The inner loop of `first_frame` from bit `j` on, with `left` rounds to go.
unfoldable pub first_bit : ℕ → ℕ → ℕ → Option ℕ
first_bit zero j w = none
first_bit (suc left) j w =
    let rest = first_bit left (j + 1) w in if bit_and w (2 ^ j) == 0 then some j else rest

-- Its outer loop from word `i` on. A word that is not all ones and yet has no free bit, and a word
-- out of the array, do not occur; the loop goes on behind the first, and `none` is returned for both
-- the second and for a loop that runs out: the C function then returns no value.
unfoldable pub first_frame_from : ℕ → ℕ → List ℕ → Option ℕ
unfolding first_bit
first_frame_from zero i frames = none
first_frame_from (suc left) i frames =
    let rest = first_frame_from left (i + 1) frames in
    elim (get_elem? frames i) [
      | none ↦ none
      | some w ↦
          if w == 0xFFFFFFFF
          then rest
          else elim (first_bit 32 0 w) [ none ↦ rest | some j ↦ some (i * 4 * 8 + j) ]
    ]

unfoldable pub first_frame : List ℕ → ℕ → Option ℕ
unfolding first_frame_from
first_frame frames nframes = first_frame_from (index_from_bit nframes) 0 frames
