-- ===== src/Paging/Directory/Swap.antt =====
-- What `get_page` and `swap_pages` do to the pages of a directory.
use Prim.Native.Nat.{bit_or}
use sdp_labs.Common.{
  ℕ, ◌/◌, ◌%◌, ◌<◌, ◌≡◌, ◌≢◌, ◌⊎◌, ◌∙◌, sym, ap, Bool, true, false, none, some, List, arith,
  get_elem?, get_elem?-set_self, get_elem?-set_ne, set, length, get_elem?-replicate, if◌then◌else◌,
  Bool-cases, inl, inr, ℕ_discrete, Option-cases, some_inj,
}
use sdp_labs.Paging.Alloc.{Page}
use sdp_labs.Paging.Directory.{
  Directory, blank, blank_table, table_of, page_of, get_page, put_frame, swap_pages,
}
use sdp_labs.Paging.Directory.Pages.{page_of-found, page_of-same, Put, put_page_lem}

put_frame_lem :
    (dir : Directory) (n f : ℕ) {p : Page}
    → page_of dir n ≡ some p
    → Put dir n (record p { frame = f }) (put_frame dir n f)
unfolding put_frame
put_frame_lem dir n f {p} e =
    let w = put_page_lem dir n (record p { frame = f }) e in
    record { dir' = w.dir'; result = ground (arith, e, w.result); it = w.it; others = w.others }

swap_steps :
    (dir dir1 dir2 : Directory) (a b : ℕ) {p q : Page}
    → page_of dir a ≡ some p
    → page_of dir b ≡ some q
    → put_frame dir a q.frame ≡ some dir1
    → put_frame dir1 b p.frame ≡ some dir2
    → swap_pages a b dir ≡ some dir2
unfolding swap_pages
swap_steps dir dir1 dir2 a b e e' r r' = ground (arith, e, e', r, r')

-- For two pages that are there, the same one allowed: `swap_pages` gives each the frame of the other
-- and leaves its flags, and all other pages, as they are.
pub swap_pages_lem :
    (dir : Directory) (a b : ℕ) {p q : Page}
    → page_of dir a ≡ some p
    → page_of dir b ≡ some q
    → (dir' : Directory) × (swap_pages a b dir ≡ some dir')
      × (page_of dir' a ≡ some (record p { frame = q.frame }))
      × (page_of dir' b ≡ some (record q { frame = p.frame }))
      × ((m : ℕ) → m ≢ a → m ≢ b → page_of dir' m ≡ page_of dir m)
swap_pages_lem dir a b {p} {q} e e' = elim (ℕ_discrete a b) [
  | yes same ↦
      let pq : p ≡ q = some_inj (sym e ∙ ap (page_of dir) same ∙ e') in
      let back =
        put_frame_lem first.dir' b p.frame (ap (page_of first.dir') (sym same) ∙ first.it) in
      let kept : record p { frame = p.frame } ≡ record p { frame = q.frame } =
        ap (λ (z : Page). record p { frame = z.frame }) pq in
      (
        back.dir',
        swap_steps dir first.dir' back.dir' a b e e' first.result back.result,
        ap (page_of back.dir') same ∙ back.it ∙ ap some kept,
        back.it ∙ ap (λ (z : Page). some (record z { frame = p.frame })) pq,
        λ m na nb. back.others m nb ∙ first.others m na,
      )
  | no other ↦
      let then_b = put_frame_lem first.dir' b p.frame (first.others b (λ z. other (sym z)) ∙ e') in
      (
        then_b.dir',
        swap_steps dir first.dir' then_b.dir' a b e e' first.result then_b.result,
        then_b.others a other ∙ first.it,
        then_b.it,
        λ m na nb. then_b.others m nb ∙ first.others m na,
      )
]
  where
    first : Put dir a (record p { frame = q.frame }) (put_frame dir a q.frame)
    first = put_frame_lem dir a q.frame e

blank_table-entry : (i : ℕ) → i < 1024 → get_elem? blank_table i ≡ some blank
unfolding blank_table
blank_table-entry i h = get_elem?-replicate 1024 i blank h

-- The directory with a new table for page `n`.
abbrev with_table : Directory → ℕ → ℕ → Directory
with_table dir n tmp = record {
  tables = set dir.tables (n / 1024) (some blank_table);
  tables_physical = set dir.tables_physical (n / 1024) (bit_or tmp 7);
}

pub get_page-there :
    (address : ℕ) (make : Bool) (tmp : ℕ) (dir : Directory) {t : List Page}
    → table_of dir (address / 0x1000) ≡ some t
    → get_page address make tmp dir ≡ (true, dir)
unfolding get_page
get_page-there address make tmp dir e = ground (arith, e)

get_page-absent :
    (address : ℕ) (make : Bool) (tmp : ℕ) (dir : Directory)
    → table_of dir (address / 0x1000) ≡ none
    → get_page address make tmp dir
      ≡ (if make then (true, with_table dir (address / 0x1000) tmp) else (false, dir))
unfolding get_page
get_page-absent address make tmp dir e = ground (arith, e)

-- `get_page` for an address below the end of the directory: if the table of the address is there, the
-- page is found and nothing changes. If it is not and `make` is set, the page is found, it is blank, so
-- is its whole table, and the pages of all other tables stay as they are. Otherwise there is no such
-- page, and nothing changes.
pub get_page_lem :
    (address : ℕ) (make : Bool) (tmp : ℕ) (dir : Directory)
    → address / 0x1000 / 1024 < length dir.tables
    → ((t : List Page) × (table_of dir (address / 0x1000) ≡ some t)
        × (get_page address make tmp dir ≡ (true, dir)))
      ⊎ (((table_of dir (address / 0x1000) ≡ none)
            × (make ≡ true)
            × ((dir' : Directory) × (get_page address make tmp dir ≡ (true, dir'))
                × ((m : ℕ) → m / 1024 ≡ address / 0x1000 / 1024 → page_of dir' m ≡ some blank)
                × ((m : ℕ) → m / 1024 ≢ address / 0x1000 / 1024 → page_of dir' m ≡ page_of dir m)))
          ⊎ ((table_of dir (address / 0x1000) ≡ none)
              × (make ≡ false)
              × (get_page address make tmp dir ≡ (false, dir))))
get_page_lem address make tmp dir room = elim (Option-cases (table_of dir n)) [
  | inr (t, e) ↦ inl (t, e, get_page-there address make tmp dir e)
  | inl e ↦ elim (Bool-cases make) [
    | inl yes_make ↦ inr (
        inl (
          e,
          yes_make,
          (
            new,
            get_page-absent address make tmp dir e
                ∙ ap (λ b. if b then (true, new) else (false, dir)) yes_make,
            (λ m same.
                page_of-found new m (
                  ap (get_elem? new.tables) same
                  ∙ get_elem?-set_self dir.tables (n / 1024) (some blank_table) room)
                ∙ blank_table-entry (m % 1024) (omega arith)),
            (λ m other.
                page_of-same dir new m
                  (get_elem?-set_ne dir.tables (some blank_table) (λ z. other (sym z)))),
          ),
        ))
    | inr no_make ↦ inr (
        inr (
          e,
          no_make,
          get_page-absent address make tmp dir e
              ∙ ap (λ b. if b then (true, new) else (false, dir)) no_make,
        ))
  ]
]
  where
    n : ℕ
    n = address / 0x1000

    new : Directory
    new = with_table dir n tmp
