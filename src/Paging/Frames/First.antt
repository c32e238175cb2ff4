-- ===== src/Paging/Frames/First.antt =====
-- `first_frame` finds the free frame with the least number.
use Prim.Native.Nat.{bit_and}
use mathlib.Core.Path.{subst}
use sdp_labs.Common.{
  ℕ, zero, suc, ◌+◌, ◌*◌, ◌^◌, ◌≤◌, ◌<◌, ◌≡◌, ◌≢◌, ◌⊎◌, ◌∙◌, sym, refl, ap, true, false, Option,
  none, some, List, arith, get_elem?, get-lt-length, length, ◌==◌, Bool-cases, inl, inr, dec_lt,
}
use sdp_labs.Common.Bits.{bit, bit-le-one, bit_and-eq-zero, bit-complement, bit_zero}
use sdp_labs.Paging.Frames.{
  index_from_bit, offset_from_bit, first_bit, first_frame_from, first_frame,
}
use sdp_labs.Paging.Frames.Bitset.{in_use, in_use-some}

-- The search through one word stops at the first bit that is 0.
first_bit_lem :
    (left j w : ℕ)
    → ((p : ℕ) × (first_bit left j w ≡ some p)
        × (j ≤ p)
        × (p < j + left)
        × (bit w p ≡ 0)
        × ((q : ℕ) → j ≤ q → q < p → bit w q ≡ 1))
      ⊎ ((first_bit left j w ≡ none) × ((q : ℕ) → j ≤ q → q < j + left → bit w q ≡ 1))
unfolding first_bit
first_bit_lem zero j w = inr (refl, λ q h l. absurd (omega arith))
first_bit_lem (suc left) j w = elim (dec_lt 0 (bit w j)) [
  | no free ↦
      inl
        (j, rw (is_zero free), omega arith, omega arith, omega arith, λ q h l. absurd (omega arith))
  | yes used ↦ elim (first_bit_lem left (j + 1) w) [
    | inl (p, e, a, b, z, below) ↦ inl (
      p,
      rw (not_zero used) e,
      omega arith,
      omega arith,
      z,
      λ q h l. elim (dec_lt j q) [
        | yes past ↦ below q (omega arith) l
        | no at ↦ let s : q ≡ j = omega arith in rw s (omega (arith, bit-le-one w j))
      ],
    )
    | inr (e, all) ↦ inr (
      rw (not_zero used) e,
      λ q h l. elim (dec_lt j q) [
        | yes past ↦ all q (omega arith) (omega arith)
        | no at ↦ let s : q ≡ j = omega arith in rw s (omega (arith, bit-le-one w j))
      ],
    )
  ]
]
  where
    is_zero : ¬ (0 < bit w j) → (bit_and w (2 ^ j) == 0) ≡ true
    is_zero h =
        let e : bit_and w (2 ^ j) ≡ 0 = (bit_and-eq-zero w j).1 (omega arith) in ground arith

    not_zero : 0 < bit w j → (bit_and w (2 ^ j) == 0) ≡ false
    not_zero h =
        let e : bit_and w (2 ^ j) ≢ 0 = λ z. omega (arith, (bit_and-eq-zero w j).0 z) in
        ground arith

-- The bits of word `i` are those of the frames `i * 32` to `i * 32 + 31`.
in_use-word :
    (frames : List ℕ) (i g w v : ℕ)
    → get_elem? frames i ≡ some w
    → ((q : ℕ) → i * 32 + q ≡ g → bit w q ≡ v)
    → i * 32 ≤ g
    → g < i * 32 + 32
    → in_use frames g ≡ v
in_use-word frames i g w v e bits lo hi =
    let at : get_elem? frames (index_from_bit g) ≡ some w =
      ap (λ n. get_elem? frames n) (omega arith) ∙ e in
    in_use-some frames g at ∙ bits (offset_from_bit g) (omega arith)

all_ones : (q : ℕ) → q < 32 → bit 0xFFFFFFFF q ≡ 1
all_ones q h = omega (arith, bit-complement 32 0 q (omega arith) h, bit_zero q)

-- What the loops over the words from word `i` on find.
abbrev Found : ℕ → ℕ → List ℕ → Option ℕ → Type 0
Found i end frames r =
    ((f : ℕ) × (r ≡ some f)
      × (i * 32 ≤ f)
      × (f < end * 32)
      × (in_use frames f ≡ 0)
      × ((g : ℕ) → i * 32 ≤ g → g < f → in_use frames g ≡ 1))
    ⊎ ((r ≡ none) × ((g : ℕ) → i * 32 ≤ g → g < end * 32 → in_use frames g ≡ 1))

-- A word with no free bit is passed over.
skip_word :
    (i end : ℕ) (frames : List ℕ) {w : ℕ} (r : Option ℕ)
    → get_elem? frames i ≡ some w
    → ((q : ℕ) → q < 32 → bit w q ≡ 1)
    → i < end
    → Found (i + 1) end frames r
    → Found i end frames r
skip_word i end frames {w} r e ones lt found = elim found [
  | inl (f, s, a, b, free, below) ↦ inl (
    f,
    s,
    omega arith,
    b,
    free,
    λ g h l. elim (dec_lt g (i * 32 + 32)) [
      | yes here ↦ word g h here
      | no past ↦ below g (omega arith) l
    ],
  )
  | inr (s, all) ↦ inr (
    s,
    λ g h l. elim (dec_lt g (i * 32 + 32)) [
      | yes here ↦ word g h here
      | no past ↦ all g (omega arith) l
    ],
  )
]
  where
    word : (g : ℕ) → i * 32 ≤ g → g < i * 32 + 32 → in_use frames g ≡ 1
    word g h l = in_use-word frames i g w 1 e (λ q z. ones q (omega arith)) h l

-- One round of the outer loop: on to the next word, or out of the loop.
module _ (left i : ℕ) (frames : List ℕ) (w : ℕ) (here : get_elem? frames i ≡ some w) where
  round_skips :
      ((w == 0xFFFFFFFF) ≡ true) ⊎ (first_bit 32 0 w ≡ none)
      → first_frame_from (suc left) i frames ≡ first_frame_from left (i + 1) frames
  unfolding first_frame_from
  round_skips h = ground (arith, here)

  round_finds :
      (j : ℕ)
      → (w == 0xFFFFFFFF) ≡ false
      → first_bit 32 0 w ≡ some j
      → first_frame_from (suc left) i frames ≡ some (i * 4 * 8 + j)
  unfolding first_frame_from
  round_finds j h k = ground (arith, here)

ones : (w : ℕ) → (w == 0xFFFFFFFF) ≡ true → (q : ℕ) → q < 32 → bit w q ≡ 1
ones w h q l = let e : w ≡ 0xFFFFFFFF = ground arith in rw e (all_ones q l)

first_frame_from_lem :
    (left i end : ℕ) (frames : List ℕ)
    → i + left ≡ end
    → end ≤ length frames
    → Found i end frames (first_frame_from left i frames)
unfolding first_frame_from
first_frame_from_lem zero i end frames e room = inr (refl, λ g h l. absurd (omega arith))
first_frame_from_lem (suc left) i end frames e room =
    let (w, here) = get-lt-length frames i (omega arith) in
    word w here (first_frame_from_lem left (i + 1) end frames (omega arith) room)
  where
    word :
        (w : ℕ)
        → get_elem? frames i ≡ some w
        → Found (i + 1) end frames (first_frame_from left (i + 1) frames)
        → Found i end frames (first_frame_from (suc left) i frames)
    word w here rest = elim (Bool-cases (w == 0xFFFFFFFF)) [
      | inl full ↦
          let r =
            skip_word i end frames (first_frame_from left (i + 1) frames) here (ones w full)
              (omega arith) rest in
          subst (Found i end frames) (sym (round_skips left i frames w here (inl full))) r
      | inr some_free ↦ elim (first_bit_lem 32 0 w) [
        | inl (p, s, a, b, z, below) ↦ inl (
          i * 4 * 8 + p,
          round_finds left i frames w here p some_free s,
          omega arith,
          omega arith,
          in_use-word frames i (i * 4 * 8 + p) w 0 here (λ q y. ap (bit w) (omega arith) ∙ z)
              (omega arith) (omega arith),
          λ g h l.
              in_use-word frames i g w 1 here (λ q y. below q (omega arith) (omega arith)) h
                (omega arith),
        )
        | inr (s, all) ↦
            let r =
              skip_word i end frames (first_frame_from left (i + 1) frames) here
                (λ q l. all q (omega arith) (omega arith)) (omega arith) rest in
            subst (Found i end frames) (sym (round_skips left i frames w here (inr s))) r
      ]
    ]

-- If the array has a word for each 32 of the `nframes` frames, `first_frame` returns the free frame with
-- the least number, below `nframes` rounded down to a multiple of 32; and it runs through without a
-- result exactly when all of those are in use.
pub first_frame_lem :
    (frames : List ℕ) (nframes : ℕ)
    → index_from_bit nframes ≤ length frames
    → ((f : ℕ) × (first_frame frames nframes ≡ some f)
        × (f < index_from_bit nframes * 32)
        × (in_use frames f ≡ 0)
        × ((g : ℕ) → g < f → in_use frames g ≡ 1))
      ⊎ ((first_frame frames nframes ≡ none)
          × ((g : ℕ) → g < index_from_bit nframes * 32 → in_use frames g ≡ 1))
unfolding first_frame
first_frame_lem frames nframes room =
    elim (first_frame_from_lem (index_from_bit nframes) 0 (index_from_bit nframes) frames
      (omega arith) room) [
        | inl (f, s, a, b, free, below) ↦ inl (f, s, b, free, λ g l. below g (omega arith) l)
        | inr (s, all) ↦ inr (s, λ g l. all g (omega arith) l)
      ]
