-- ===== src/Paging/Start.antt =====
-- lab05/src/paging.c: `initialise_paging`, which gives each page of the memory in use the frame of the
-- same number. The calls of kmalloc are parameters: each gives the physical address of the memory and
-- the `placement_address` after it. Registers and the handler of page faults are not part of the model.
pub mod Identity
use sdp_labs.Common.{
  ℕ, zero, suc, ◌+◌, ◌*◌, ◌/◌, Option, none, some, List, [], ◌∷◌, ltb, true, false, replicate,
}
use sdp_labs.Paging.Frames.{index_from_bit}
use sdp_labs.Paging.Alloc.{Page, alloc_frame}
use sdp_labs.Paging.Directory.{Directory, ◌>>=◌, table_of, page_of, get_page, put_page}

-- `mem_end_page / 0x1000`
abbrev pub nframes : ℕ
nframes = 0x1000000 / 0x1000

-- memset of the first `n` words with 0.
unfoldable pub clear_words : ℕ → List ℕ → List ℕ
clear_words zero l = l
clear_words (suc n) [] = []
clear_words (suc n) (w ∷ l) = 0 ∷ clear_words n l

pub record Memory : Type 0 where
  pub frames : List ℕ
  pub directory : Directory
  pub placement_address : ℕ

-- What memset leaves of a page directory.
abbrev pub no_tables : Directory
no_tables = record { tables = replicate 1024 none; tables_physical = replicate 1024 0 }

-- `get_page` calls kmalloc_ap if there is no table, and only then the placement address moves.
unfoldable pub next_placement : Option (List Page) → ℕ → ℕ → ℕ
next_placement none old new = new
next_placement (some t) old new = old

module _ (kmalloc kmalloc_a kmalloc_ap : ℕ → ℕ → ℕ × ℕ) where
  -- The body of the loop for the address `i`; `none` where `alloc_frame` has no frame to give.
  unfoldable pub map_page : ℕ → Memory → Option Memory
  map_page i s =
      let (tmp, next) = kmalloc_ap 0x1000 s.placement_address in
      let placement = next_placement (table_of s.directory (i / 0x1000)) s.placement_address next in
      let (there, dir) = get_page i true tmp s.directory in
      do
        page ← page_of dir (i / 0x1000)
        (page', frames) ← alloc_frame page false false s.frames nframes
        directory ← put_page dir (i / 0x1000) page'
        some (record { frames = frames; directory = directory; placement_address = placement })

  -- The loop from the address `i` on; `none` also where the fuel runs out.
  unfoldable pub map_loop : ℕ → ℕ → Memory → Option Memory
  map_loop zero i s = none
  map_loop (suc fuel) i s = elim (ltb i s.placement_address) [
    | true ↦ do s' ← map_page i s; map_loop fuel (i + 0x1000) s'
    | false ↦ some s
  ]

  -- `words` is what lies in the memory from `frames` on, as words. kmalloc and memset are given the number of
  -- words where they expect that of bytes, so that only a fourth of them are cleared; the
  -- others lie in what is allocated next, which may change them, but none of them is read while one of
  -- the first 1024 frames is free. A page_directory_t is two arrays of 1024 words and one word.
  unfoldable pub initialise_paging : ℕ → List ℕ → ℕ → Option Memory
  initialise_paging fuel words placement_address =
      let (f, after_frames) = kmalloc (index_from_bit nframes) placement_address in
      let (d, after_directory) = kmalloc_a (1024 * 4 + 1024 * 4 + 4) after_frames in
      map_loop fuel 0 (record {
        frames = clear_words (index_from_bit nframes / 4) words;
        directory = no_tables;
        placement_address = after_directory;
      })
