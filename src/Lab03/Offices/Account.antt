-- ===== src/Lab03/Offices/Account.antt =====
-- The invariant of the offices, and what each kind of step changes.
use sdp_labs.Common.{
  ℕ, ◌+◌, ◌≡◌, ◌≢◌, ◌==◌, ◌∙◌, sym, ap, inl, inr, Option, some, List, [], ◌∷◌, ◌++◌, length,
  get_elem?, set, if◌then◌else◌, arith, length-append, get_elem?-set_self, get_elem?-set_ne,
  lt-length-get, ℕ_discrete, get_elem?-set,
}
use mathlib.Core.Path.{subst}
use sdp_labs.Common.Count.{count, count-append}
use sdp_labs.Common.Sum.{sum}
use sdp_labs.Lab03.Offices.{Info, Seat, Desk, State, num_offices}
use sdp_labs.Lab03.Offices.Flow.{
  has_id, requests, office_owes, clerk_owes, Account, AccountAt, in_flight, due, still_here,
}

pub record Holds (k : ℕ) (s : State) : Type 0 where
  pub seats_size : length s.seats ≡ k
  pub desks_size : length s.desks ≡ num_offices
  pub normal_count : s.normal ≡ length s.normal_q
  pub urgent_count :
      (o : ℕ) (d : Desk) → get_elem? s.desks o ≡ some d → d.urgent ≡ length d.urgent_q
  pub accounts :
      (i : ℕ) → AccountAt (requests i s) (office_owes i s) (clerk_owes i s) (get_elem? s.seats i)
  pub flow : in_flight s ≡ sum due s.seats
  pub here : s.st_count ≡ count still_here s.seats

AccountAt-same :
    {c c' a a' b b' : ℕ} {o o' : Option Seat}
    → c' ≡ c
    → a' ≡ a
    → b' ≡ b
    → o' ≡ o
    → AccountAt c a b o
    → AccountAt c' a' b' o'
AccountAt-same {c} {c'} {a} {a'} {b} {b'} {o} {o'} l p q r h =
    subst (λ x. AccountAt x a' b' o') (sym l)
      (subst (λ x. AccountAt c x b' o') (sym p)
        (subst (λ x. AccountAt c a x o') (sym q) (subst (AccountAt c a b) (sym r) h)))

-- The accounts when the seat of `i` changes, and what is owed to nobody else.
pub accounts-set :
    (s s' : State) (i : ℕ) {old new : Seat}
    → s'.seats ≡ set s.seats i new
    → get_elem? s.seats i ≡ some old
    → ((j : ℕ) → i ≢ j → requests j s' ≡ requests j s)
    → ((j : ℕ) → i ≢ j → office_owes j s' ≡ office_owes j s)
    → ((j : ℕ) → i ≢ j → clerk_owes j s' ≡ clerk_owes j s)
    → ((j : ℕ) → AccountAt (requests j s) (office_owes j s) (clerk_owes j s) (get_elem? s.seats j))
    → Account (requests i s') (office_owes i s') (clerk_owes i s') new
    → (j : ℕ)
    → AccountAt (requests j s') (office_owes j s') (clerk_owes j s') (get_elem? s'.seats j)
accounts-set s s' i {old} {new} e at one same same' all mine j = elim (ℕ_discrete i j) [
  | yes eq ↦
      let here : get_elem? s'.seats j ≡ some new =
        ap (λ l. get_elem? l j) e
        ∙ ap (λ n. get_elem? (set s.seats i new) n) (sym eq)
        ∙ get_elem?-set_self s.seats i new (lt-length-get s.seats i at) in
      subst (AccountAt (requests j s') (office_owes j s') (clerk_owes j s')) (sym here)
        (subst (λ n. Account (requests n s') (office_owes n s') (clerk_owes n s') new) eq mine)
  | no ne ↦
      let there : get_elem? s'.seats j ≡ get_elem? s.seats j =
        ap (λ l. get_elem? l j) e ∙ get_elem?-set_ne s.seats new ne in
      AccountAt-same (one j ne) (same j ne) (same' j ne) there (all j)
]

-- A step that changes no seat, and nothing that is owed.
pub accounts-same :
    (s s' : State)
    → s'.seats ≡ s.seats
    → ((j : ℕ) → requests j s' ≡ requests j s)
    → ((j : ℕ) → office_owes j s' ≡ office_owes j s)
    → ((j : ℕ) → clerk_owes j s' ≡ clerk_owes j s)
    → ((j : ℕ) → AccountAt (requests j s) (office_owes j s) (clerk_owes j s) (get_elem? s.seats j))
    → (j : ℕ)
    → AccountAt (requests j s') (office_owes j s') (clerk_owes j s') (get_elem? s'.seats j)
accounts-same s s' e one same same' all j =
    AccountAt-same (one j) (same j) (same' j) (ap (λ l. get_elem? l j) e) (all j)

-- The account of a student who is there.
pub seat_at :
    {k : ℕ} {s : State} (i : ℕ) {seat : Seat}
    → Holds k s
    → get_elem? s.seats i ≡ some seat
    → Account (requests i s) (office_owes i s) (clerk_owes i s) seat
seat_at {s = s} i h e =
    subst (AccountAt (requests i s) (office_owes i s) (clerk_owes i s)) e (h.accounts i)

-- A new item at the end of a queue.
pub count-snoc :
    (i : ℕ) (q : List Info) (m : Info)
    → count (has_id i) (q ++ m ∷ []) ≡ count (has_id i) q + (if m.id == i then 1 else 0)
unfolding count
count-snoc i q m = ground (arith, count-append (has_id i) q (m ∷ []))

pub length-snoc : (q : List Info) (m : Info) → length (q ++ m ∷ []) ≡ length q + 1
length-snoc q m = length-append q (m ∷ [])

-- How many wait in the desks' queues stays right when one desk's queue and counter change together.
pub urgent_count-set :
    (desks : List Desk) (o : ℕ) (new : Desk)
    → new.urgent ≡ length new.urgent_q
    → ((p : ℕ) (d : Desk) → get_elem? desks p ≡ some d → d.urgent ≡ length d.urgent_q)
    → (p : ℕ) (d : Desk) → get_elem? (set desks o new) p ≡ some d
    → d.urgent ≡ length d.urgent_q
urgent_count-set desks o new right all p d e = elim (get_elem?-set desks o p new e) [
  | inl (same, is_new) ↦ subst (λ x. x.urgent ≡ length x.urgent_q) (sym is_new) right
  | inr (ne, old) ↦ all p d old
]
