-- ===== src/Paging/Frames/Bitset.antt =====
-- The bitset as a set of frame numbers: what setting, clearing and testing one frame means.
use Prim.Native.Nat.{bit_and, bit_or}
use sdp_labs.Common.{
  ℕ, ◌/◌, ◌^◌, ◌<◌, ◌≡◌, ◌≢◌, ◌↔◌, ◌∙◌, sym, Option, none, some, List, arith, get_elem?,
  get_elem?-set_self, get_elem?-set_ne, lt-length-get, get-lt-length, set, length, length-set,
  ℕ_discrete,
}
use sdp_labs.Common.Bits.{
  bit, bit-le-one, bit-bit_or, bit-bit_and, bit-pow_self, bit-pow_ne, complement, bit-complement,
  bit_and-eq-zero, pow_small,
}
use sdp_labs.Paging.Frames.{index_from_bit, offset_from_bit, set_frame, clear_frame, test_frame}

-- The bit of frame `f`: 1 if it is in use, 0 if it is free or out of the array.
pub in_use : List ℕ → ℕ → ℕ
in_use frames f = elim (get_elem? frames (index_from_bit f)) [
  | none ↦ 0
  | some w ↦ bit w (offset_from_bit f)
]

pub in_use-some :
    (frames : List ℕ) (f : ℕ) {w : ℕ}
    → get_elem? frames (index_from_bit f) ≡ some w
    → in_use frames f ≡ bit w (offset_from_bit f)
unfolding in_use
in_use-some frames f e = rw (e, in_use)

-- A new word in the place of frame `f` that has the old bits but for that of `f`.
pub update-in_use :
    (frames : List ℕ) (f : ℕ) {w : ℕ} (v : ℕ)
    → get_elem? frames (index_from_bit f) ≡ some w
    → ((p : ℕ) → p < 32 → p ≢ offset_from_bit f → bit v p ≡ bit w p)
    → (g : ℕ) → g ≢ f
    → in_use (set frames (index_from_bit f) v) g ≡ in_use frames g
unfolding in_use
update-in_use frames f {w} v e keep g ne = elim (ℕ_discrete (index_from_bit f) (index_from_bit g)) [
  | yes same ↦
      let there : get_elem? (set frames (index_from_bit f) v) (index_from_bit g) ≡ some v =
        rw (← same) (
          get_elem?-set_self frames (index_from_bit f) v
            (lt-length-get frames (index_from_bit f) e)) in
      let before : get_elem? frames (index_from_bit g) ≡ some w = rw (← same) e in
      in_use-some (set frames (index_from_bit f) v) g there
      ∙ keep (offset_from_bit g) (omega arith) (omega arith)
      ∙ sym (in_use-some frames g before)
  | no other ↦ rw (get_elem?-set_ne frames v other, in_use)
]

pub update-in_use_self :
    (frames : List ℕ) (f : ℕ) {w : ℕ} (v : ℕ)
    → get_elem? frames (index_from_bit f) ≡ some w
    → in_use (set frames (index_from_bit f) v) f ≡ bit v (offset_from_bit f)
unfolding in_use
update-in_use_self frames f v e =
    in_use-some (set frames (index_from_bit f) v) f
      (get_elem?-set_self frames (index_from_bit f) v (lt-length-get frames (index_from_bit f) e))

-- What changes when frame `f` is set, or cleared: its bit, and nothing else.
pub record Changed (frames : List ℕ) (f v : ℕ) (r : Option (List ℕ)) : Type 0 where
  pub frames' : List ℕ
  pub result : r ≡ some frames'
  pub it : in_use frames' f ≡ v
  pub others : (g : ℕ) → g ≢ f → in_use frames' g ≡ in_use frames g
  pub size : length frames' ≡ length frames

-- For an address in a frame `f` that the array has a word for, `set_frame` succeeds, makes `f` in use
-- and changes the bit of no other frame.
pub set_frame_lem :
    (frames : List ℕ) (addr : ℕ)
    → index_from_bit (addr / 0x1000) < length frames
    → Changed frames (addr / 0x1000) 1 (set_frame frames addr)
unfolding set_frame
set_frame_lem frames addr room =
    let f = addr / 0x1000 in
    let (w, e) = get-lt-length frames (index_from_bit f) room in
    let v = bit_or w (2 ^ offset_from_bit f) in
    record {
      frames' = set frames (index_from_bit f) v;
      result = ground (arith, e);
      it =
          update-in_use_self frames f v e
          ∙ omega (
            arith,
            bit-bit_or w (2 ^ offset_from_bit f) (offset_from_bit f),
            bit-pow_self (offset_from_bit f),
            bit-le-one w (offset_from_bit f),
          );
      others = update-in_use frames f v e (λ p lt ne. omega (
        arith,
        bit-bit_or w (2 ^ offset_from_bit f) p,
        bit-pow_ne (offset_from_bit f) p (λ z. ne (sym z)),
      ));
      size = length-set frames (index_from_bit f) v;
    }

-- For an address in a frame `f` that the array has a word for, `clear_frame` succeeds, makes `f` free and
-- changes the bit of no other frame.
pub clear_frame_lem :
    (frames : List ℕ) (addr : ℕ)
    → index_from_bit (addr / 0x1000) < length frames
    → Changed frames (addr / 0x1000) 0 (clear_frame frames addr)
unfolding clear_frame
clear_frame_lem frames addr room =
    let f = addr / 0x1000 in
    let off = offset_from_bit f in
    let (w, e) = get-lt-length frames (index_from_bit f) room in
    let mask = complement 32 (2 ^ off) in
    let v = bit_and w mask in
    record {
      frames' = set frames (index_from_bit f) v;
      result = ground (arith, e);
      it =
          update-in_use_self frames f v e
          ∙ omega (
            arith,
            bit-bit_and w mask off,
            bit-pow_self off,
            bit-complement 32 (2 ^ off) off (pow_small off (omega arith)) (omega arith),
          );
      others = update-in_use frames f v e (λ p lt ne. omega (
        arith,
        bit-bit_and w mask p,
        bit-pow_ne off p (λ z. ne (sym z)),
        bit-le-one w p,
        bit-complement 32 (2 ^ off) p (pow_small off (omega arith)) lt,
      ));
      size = length-set frames (index_from_bit f) v;
    }

-- For an address in a frame that the array has a word for, the result of `test_frame` is nonzero
-- exactly if the frame is in use.
pub test_frame_lem :
    (frames : List ℕ) (addr : ℕ)
    → index_from_bit (addr / 0x1000) < length frames
    → (r : ℕ) × (test_frame frames addr ≡ some r) × ((r ≡ 0) ↔ (in_use frames (addr / 0x1000) ≡ 0))
unfolding test_frame
test_frame_lem frames addr room =
    let f = addr / 0x1000 in
    let (w, e) = get-lt-length frames (index_from_bit f) room in
    (
      bit_and w (2 ^ offset_from_bit f),
      ground (arith, e),
      (
        (λ z. in_use-some frames f e ∙ (bit_and-eq-zero w (offset_from_bit f)).0 z),
        (λ z. (bit_and-eq-zero w (offset_from_bit f)).1 (sym (in_use-some frames f e) ∙ z)),
      ),
    )
