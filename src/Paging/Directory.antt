-- ===== src/Paging/Directory.antt =====
-- lab05/src/paging.c: `get_page` and `swap_pages` over the two levels of the page directory.
pub mod Pages
pub mod Swap
use Prim.Native.Nat.{bit_or}
use sdp_labs.Common.{
  ℕ, zero, suc, ◌+◌, ◌*◌, ◌/◌, ◌%◌, ◌^◌, ◌≤◌, ◌<◌, ◌≡◌, ◌≢◌, ◌⊎◌, ◌∙◌, sym, refl, ap, Bool, true,
  false, Option, none, some, List, arith, get_elem?, get_elem?-set_self, get_elem?-set_ne,
  lt-length-get, set, length, replicate, ◌==◌, if◌then◌else◌, Bool-cases, inl, inr, ℕ_discrete,
  Option-cases,
}
use sdp_labs.Paging.Alloc.{Page}

-- `page_directory_t`; a table that is not there is `none`.
pub record Directory : Type 0 where
  pub tables : List (Option (List Page))
  pub tables_physical : List ℕ

-- What memset leaves.
abbrev pub blank : Page
blank = record { present = 0; rw_bit = 0; user = 0; accessed = 0; dirty = 0; unused = 0; frame = 0 }

-- A new table of 1024 entries.
pub blank_table : List Page
blank_table = replicate 1024 blank

infixl 5 ◌>>=◌
abbrev pub ◌>>=◌ {ℓ κ} : {A : Type ℓ} {B : Type κ} → Option A → (A → Option B) → Option B
none >>= f = none
some a >>= f = f a

-- `dir->tables[n / 1024]`, where it is there.
abbrev pub table_of : Directory → ℕ → Option (List Page)
table_of dir n = do t ← get_elem? dir.tables (n / 1024); t

-- `dir->tables[n / 1024]->pages[n % 1024]` for page number `n`.
unfoldable pub page_of : Directory → ℕ → Option Page
page_of dir n = do t ← table_of dir n; get_elem? t (n % 1024)

-- `get_page`: the page is known by its number, and `tmp` is the physical address of the memory that
-- kmalloc_ap returns. The result is whether there is such a page, and the directory.
unfoldable pub get_page : ℕ → Bool → ℕ → Directory → Bool × Directory
get_page address make tmp dir =
    let n = address / 0x1000 in
    elim (table_of dir n) [
      | some t ↦ (true, dir)
      | none ↦
          if make
          then (
            true,
            record {
              tables = set dir.tables (n / 1024) (some blank_table);
              tables_physical = set dir.tables_physical (n / 1024) (bit_or tmp 7);
            },
          )
          else (false, dir)
    ]

-- `dir->tables[n / 1024]->pages[n % 1024] = p`
unfoldable pub put_page : Directory → ℕ → Page → Option Directory
put_page dir n p = do
  t ← table_of dir n
  q ← get_elem? t (n % 1024)
  some (record dir { tables = set dir.tables (n / 1024) (some (set t (n % 1024) p)) })

-- `dir->tables[n / 1024]->pages[n % 1024].frame = f`
unfoldable pub put_frame : Directory → ℕ → ℕ → Option Directory
put_frame dir n f = do p ← page_of dir n; put_page dir n (record p { frame = f })

-- `swap_pages`; the switches of CR0 around it do not change the directory.
unfoldable pub swap_pages : ℕ → ℕ → Directory → Option Directory
swap_pages pn1 pn2 dir = do
  p1 ← page_of dir pn1
  p2 ← page_of dir pn2
  dir' ← put_frame dir pn1 p2.frame
  put_frame dir' pn2 p1.frame
