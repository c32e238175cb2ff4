-- ===== src/Paging/Directory/Pages.antt =====
-- What a write to an entry of the page directory does to its pages.
use sdp_labs.Common.{
  ℕ, ◌/◌, ◌%◌, ◌≡◌, ◌≢◌, ◌∙◌, sym, ap, Option, none, some, List, arith, get_elem?,
  get_elem?-set_self, get_elem?-set_ne, lt-length-get, set, inl, inr, ℕ_discrete, Option-cases,
}
use sdp_labs.Paging.Alloc.{Page}
use sdp_labs.Paging.Directory.{Directory, page_of, put_page}

-- Where a page is found: its table, and its entry there.
record Found (dir : Directory) (n : ℕ) (p : Page) : Type 0 where
  table : List Page
  at : get_elem? dir.tables (n / 1024) ≡ some (some table)
  entry : get_elem? table (n % 1024) ≡ some p

found : (dir : Directory) (n : ℕ) {p : Page} → page_of dir n ≡ some p → Found dir n p
unfolding page_of
found dir n {p} e = elim (Option-cases (get_elem? dir.tables (n / 1024))) [
  | inl missing ↦ absurd (ground arith)
  | inr (some t, at) ↦ record { table = t; at = at; entry = ground (arith, at) }
  | inr (none, at) ↦ absurd (ground arith)
]

pub page_of-found :
    (dir : Directory) (n : ℕ) {t : List Page}
    → get_elem? dir.tables (n / 1024) ≡ some (some t)
    → page_of dir n ≡ get_elem? t (n % 1024)
unfolding page_of
page_of-found dir n e = ground (arith, e)

pub page_of-same :
    (dir dir' : Directory) (n : ℕ)
    → get_elem? dir'.tables (n / 1024) ≡ get_elem? dir.tables (n / 1024)
    → page_of dir' n ≡ page_of dir n
unfolding page_of
page_of-same dir dir' n e = ground (arith, e)

-- Entry `n` becomes `q`, and the others stay.
pub record Put (dir : Directory) (n : ℕ) (q : Page) (r : Option Directory) : Type 0 where
  pub dir' : Directory
  pub result : r ≡ some dir'
  pub it : page_of dir' n ≡ some q
  pub others : (m : ℕ) → m ≢ n → page_of dir' m ≡ page_of dir m

pub put_page_lem :
    (dir : Directory) (n : ℕ) (q : Page) {p : Page}
    → page_of dir n ≡ some p
    → Put dir n q (put_page dir n q)
unfolding put_page
put_page_lem dir n q {p} e = record {
  dir' = after;
  result = ground (arith, w.at, w.entry);
  it =
      page_of-found after n there
      ∙ get_elem?-set_self w.table (n % 1024) q (lt-length-get w.table (n % 1024) w.entry);
  others = λ m ne. elim (ℕ_discrete (n / 1024) (m / 1024)) [
    | yes same ↦
        page_of-found after m (ap (get_elem? after.tables) (sym same) ∙ there)
        ∙ get_elem?-set_ne w.table q (λ z. ne (omega arith))
        ∙ sym (page_of-found dir m (ap (get_elem? dir.tables) (sym same) ∙ w.at))
    | no other ↦ page_of-same dir after m (get_elem?-set_ne dir.tables (some table') other)
  ];
}
  where
    w : Found dir n p
    w = found dir n e

    table' : List Page
    table' = set w.table (n % 1024) q

    after : Directory
    after = record dir { tables = set dir.tables (n / 1024) (some table') }

    there : get_elem? after.tables (n / 1024) ≡ some (some table')
    there =
        get_elem?-set_self dir.tables (n / 1024) (some table')
          (lt-length-get dir.tables (n / 1024) w.at)
