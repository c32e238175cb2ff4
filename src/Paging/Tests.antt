-- ===== src/Paging/Tests.antt =====
-- The theorems on frames and pages at concrete values.
use sdp_labs.Common.{
  ◌+◌, ◌*◌, ◌/◌, ◌≤◌, replicate, length-replicate, ℕ, ◌<◌, ◌≡◌, ◌⊎◌, refl, true, false, none, some,
  List, [], ◌∷◌, arith,
}
use sdp_labs.Paging.Frames.{set_frame, clear_frame, first_frame}
use sdp_labs.Paging.Frames.Bitset.{in_use}
use sdp_labs.Paging.Alloc.{alloc_frame, free_frame, Given, alloc_frame_lem, free_frame_lem}
use sdp_labs.Paging.Directory.{Directory, blank, page_of}
use sdp_labs.Paging.Start.{Memory, initialise_paging}
use sdp_labs.Paging.Start.Identity.{initialise_paging_lem}

-- Frames 0 to 33 are in use.
abbrev bitset : List ℕ
bitset = 0xFFFFFFFF ∷ 3 ∷ []

first_frame_runs : first_frame bitset 64 ≡ some 34
unfolding first_frame
first_frame_runs = refl

set_frame_runs : set_frame bitset 0x22000 ≡ some (0xFFFFFFFF ∷ 7 ∷ [])
unfolding set_frame
set_frame_runs = refl

clear_frame_runs : clear_frame bitset 0x21000 ≡ some (0xFFFFFFFF ∷ 1 ∷ [])
unfolding clear_frame
clear_frame_runs = refl

alloc_frame_lem_example :
    Given blank false true bitset (alloc_frame blank false true bitset 64)
    ⊎ ((alloc_frame blank false true bitset 64 ≡ none) × ((g : ℕ) → g < 64 → in_use bitset g ≡ 1))
alloc_frame_lem_example =
    alloc_frame_lem blank false true bitset 64 refl (omega arith) (omega arith)

-- Frame 33 is given back, and frame 0 becomes free in its place.
free_frame_lem_example :
    (frames' : List ℕ) × (free_frame (record blank { frame = 33 }) bitset ≡ some (blank, frames'))
    × (in_use frames' 33 ≡ in_use bitset 33)
    × (in_use frames' 0 ≡ 0)
free_frame_lem_example =
    free_frame_lem (record blank { frame = 33 }) bitset (omega arith) (omega arith)

abbrev two_pages : Directory
two_pages = record {
  tables = some (record blank { frame = 5 } ∷ record blank { frame = 9 } ∷ []) ∷ none ∷ [];
  tables_physical = 0 ∷ 0 ∷ [];
}

-- A placement allocator, as kmalloc is before there is a heap.
abbrev align : ℕ → ℕ
align p = (p + 0xFFF) / 0x1000 * 0x1000

abbrev kmalloc : ℕ → ℕ → ℕ × ℕ
kmalloc size p = (p, p + size)

abbrev kmalloc_a : ℕ → ℕ → ℕ × ℕ
kmalloc_a size p = (align p, align p + size)

-- The kernel ends at 1 MB, and the memory behind it is not 0.
initialise_paging_lem_example :
    (s : Memory) × (initialise_paging kmalloc kmalloc_a kmalloc_a 1026 (replicate 128 7) 0x100000
      ≡ some s)
    × (s.placement_address ≡ 0x105000)
    × ((n : ℕ)
        → n * 0x1000 < 0x105000
        → page_of s.directory n ≡ some (record blank { present = 1; user = 1; frame = n }))
    × ((g : ℕ) → g * 0x1000 < 0x105000 → in_use s.frames g ≡ 1)
    × ((g : ℕ) → g < 1024 → 0x105000 ≤ g * 0x1000 → in_use s.frames g ≡ 0)
initialise_paging_lem_example =
    initialise_paging_lem kmalloc kmalloc_a kmalloc_a 1026 (replicate 128 7) 0x100000 0x103004
      0x105000 refl refl (omega arith) (omega arith) (omega arith)
      (omega (arith, length-replicate {A = ℕ} 128 7)) (omega arith)
