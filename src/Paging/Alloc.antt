-- ===== src/Paging/Alloc.antt =====
-- lab05/src/paging.c and paging.h: giving a frame to a page, and taking it back.
use sdp_labs.Common.{
  ℕ, ◌*◌, ◌/◌, ◌%◌, ◌^◌, ◌≤◌, ◌<◌, ◌≡◌, ◌≢◌, ◌⊎◌, ◌∙◌, sym, ap, Bool, Option, none, some, List,
  arith, length, ◌==◌, if◌then◌else◌, inl, inr,
}
use sdp_labs.Paging.Frames.{index_from_bit, set_frame, clear_frame, first_frame}
use sdp_labs.Paging.Frames.Bitset.{in_use, set_frame_lem, clear_frame_lem}
use sdp_labs.Paging.Frames.First.{first_frame_lem}

-- `page_t`
pub record Page : Type 0 where
  pub present : ℕ
  pub rw_bit : ℕ
  pub user : ℕ
  pub accessed : ℕ
  pub dirty : ℕ
  pub unused : ℕ
  pub frame : ℕ

-- The assignments of `alloc_frame` for frame `idx`; the field `frame` has 20 bits.
abbrev pub with_frame : Page → Bool → Bool → ℕ → Page
with_frame page is_kernel is_writeable idx = record page {
  present = 1;
  rw_bit = if is_writeable then 1 else 0;
  user = if is_kernel then 0 else 1;
  frame = idx % 2 ^ 20;
}

-- `none` where `first_frame` returns no value, or the bitset has no word for the frame. (Its result is
-- never the -1 that `alloc_frame` looks for.)
unfoldable pub alloc_frame : Page → Bool → Bool → List ℕ → ℕ → Option (Page × List ℕ)
alloc_frame page is_kernel is_writeable frames nframes =
    if page.frame == 0
    then elim (first_frame frames nframes) [
      | none ↦ none
      | some idx ↦ elim (set_frame frames (idx * 0x1000 % 2 ^ 32)) [
        | none ↦ none
        | some frames' ↦ some (with_frame page is_kernel is_writeable idx, frames')
      ]
    ]
    else some (page, frames)

unfoldable pub free_frame : Page → List ℕ → Option (Page × List ℕ)
free_frame page frames =
    if page.frame == 0 then some (page, frames) else elim (clear_frame frames page.frame) [
      | none ↦ none
      | some frames' ↦ some (record page { frame = 0 }, frames')
    ]

-- Page `page` gets the free frame `f`, and `f` alone becomes one in use.
pub record Given (page : Page) (is_kernel is_writeable : Bool) (frames : List ℕ)
    (r : Option (Page × List ℕ)) : Type 0 where
  pub f : ℕ
  pub frames' : List ℕ
  pub result : r ≡ some (with_frame page is_kernel is_writeable f, frames')
  pub fits : f % 2 ^ 20 ≡ f
  pub was_free : in_use frames f ≡ 0
  pub least : (g : ℕ) → g < f → in_use frames g ≡ 1
  pub now_used : in_use frames' f ≡ 1
  pub others : (g : ℕ) → g ≢ f → in_use frames' g ≡ in_use frames g
  pub size : length frames' ≡ length frames

alloc_steps :
    (page : Page) (is_kernel is_writeable : Bool) (frames : List ℕ) (nframes : ℕ) {f : ℕ}
    {frames' : List ℕ}
    → page.frame ≡ 0
    → first_frame frames nframes ≡ some f
    → set_frame frames (f * 0x1000 % 2 ^ 32) ≡ some frames'
    → alloc_frame page is_kernel is_writeable frames nframes
      ≡ some (with_frame page is_kernel is_writeable f, frames')
unfolding alloc_frame
alloc_steps page is_kernel is_writeable frames nframes h s t = ground (arith, s, t)

alloc_fails :
    (page : Page) (is_kernel is_writeable : Bool) (frames : List ℕ) (nframes : ℕ)
    → page.frame ≡ 0
    → first_frame frames nframes ≡ none
    → alloc_frame page is_kernel is_writeable frames nframes ≡ none
unfolding alloc_frame
alloc_fails page is_kernel is_writeable frames nframes h s = ground (arith, s)

-- For a page without a frame, a bitset with enough words and at most 2^20 frames: `alloc_frame` gives the
-- page the free frame with the least number, sets present, rw and user from its arguments, and marks
-- that frame and no other; or it has no result, and every frame is in use whose number is below nframes
-- rounded down to a multiple of 32.
pub alloc_frame_lem :
    (page : Page) (is_kernel is_writeable : Bool) (frames : List ℕ) (nframes : ℕ)
    → page.frame ≡ 0
    → index_from_bit nframes ≤ length frames
    → nframes ≤ 2 ^ 20
    → Given page is_kernel is_writeable frames
        (alloc_frame page is_kernel is_writeable frames nframes)
      ⊎ ((alloc_frame page is_kernel is_writeable frames nframes ≡ none)
          × ((g : ℕ) → g < index_from_bit nframes * 32 → in_use frames g ≡ 1))
alloc_frame_lem page is_kernel is_writeable frames nframes h room few =
    elim (first_frame_lem frames nframes room) [
      | inl (f, s, lt, free, below) ↦
          let at : f * 0x1000 % 2 ^ 32 / 0x1000 ≡ f = omega arith in
          let c = set_frame_lem frames (f * 0x1000 % 2 ^ 32) (omega arith) in
          inl (record {
            f = f;
            frames' = c.frames';
            result = alloc_steps page is_kernel is_writeable frames nframes h s c.result;
            fits = omega arith;
            was_free = free;
            least = below;
            now_used = ap (in_use c.frames') (sym at) ∙ c.it;
            others = λ g ne. c.others g (λ z. ne (z ∙ at));
            size = c.size;
          })
      | inr (s, all) ↦ inr (alloc_fails page is_kernel is_writeable frames nframes h s, all)
    ]

free_steps :
    (page : Page) (frames : List ℕ) {frames' : List ℕ}
    → page.frame ≢ 0
    → clear_frame frames page.frame ≡ some frames'
    → free_frame page frames ≡ some (record page { frame = 0 }, frames')
unfolding free_frame
free_steps page frames h s = ground (arith, s)

-- `free_frame` hands `clear_frame` the number of the frame where that expects an address. For every page
-- with a frame, in a bitset with enough words, the page loses its frame, but the frame stays as it was
-- in the bitset, and the frame whose number is the 4096th part of it is freed in its place.
pub free_frame_lem :
    (page : Page) (frames : List ℕ)
    → page.frame ≢ 0
    → index_from_bit (page.frame / 0x1000) < length frames
    → (frames' : List ℕ) × (free_frame page frames ≡ some (record page { frame = 0 }, frames'))
      × (in_use frames' page.frame ≡ in_use frames page.frame)
      × (in_use frames' (page.frame / 0x1000) ≡ 0)
free_frame_lem page frames h room =
    let c = clear_frame_lem frames page.frame room in
    (c.frames', free_steps page frames h c.result, c.others page.frame (omega arith), c.it)
