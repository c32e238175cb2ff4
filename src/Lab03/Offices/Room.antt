-- ===== src/Lab03/Offices/Room.antt =====
-- With at most QUEUE_MAXDIM students every queue has room for whoever sends.
use sdp_labs.Common.{
  ℕ, ◌+◌, ◌≤◌, ◌<◌, ◌≡◌, refl, inl, inr, Option, none, some, length, get_elem?, arith, Bool-cases,
}
use sdp_labs.Common.Sum.{le-sum, sum-le-spare}
use sdp_labs.Lab03.Offices.{Student, Seat, Desk, State, Reach, queue_maxdim}
use sdp_labs.Lab03.Offices.Flow.{
  owes, desk_owes, requests, office_owes, clerk_owes, Account, AccountAt, in_flight, due, desk_load,
  office_due, clerk_due, with_clerk,
}
use sdp_labs.Lab03.Offices.Account.{Holds}
use sdp_labs.Lab03.Offices.Safety.{Reach-Holds}

due-le : (st : Student) → office_due st + clerk_due st ≤ 2
due-le Student.arriving = omega arith
due-le _ = omega arith

answers-short : {c x y : ℕ} (seat : Seat) → Account c x y seat → length seat.answers ≤ 2
answers-short seat a = elim (Bool-cases (with_clerk seat.student)) [
  | inl t ↦ ground (arith, a.by_clerk, due-le seat.student)
  | inr f ↦ ground (arith, a.by_offices, due-le seat.student)
]

someone :
    (c x y : ℕ) (o : Option Seat)
    → AccountAt c x y o
    → 0 < x + y
    → (seat : Seat) × (o ≡ some seat) × (length seat.answers < queue_maxdim)
someone c x y none a h = absurd (omega (arith, a.0, a.1))
someone c x y (some seat) a h = (seat, refl, omega (arith, answers-short seat a))

-- Whom an office serves is a student, whose queue has room.
pub served :
    {k : ℕ} {s : State} (o : ℕ) {d : Desk} (i : ℕ)
    → Holds k s
    → get_elem? s.desks o ≡ some d
    → 0 < owes i d.office
    → (seat : Seat) × (get_elem? s.seats i ≡ some seat) × (length seat.answers < queue_maxdim)
unfolding office_owes
served {s = s} o {d} i h e p =
    someone (requests i s) (office_owes i s) (clerk_owes i s) (get_elem? s.seats i) (h.accounts i)
      (omega (arith, p, le-sum (desk_owes i) s.desks o e))

pub clerk_served :
    {k : ℕ} {s : State} (i : ℕ)
    → Holds k s
    → 0 < owes i s.clerk
    → (seat : Seat) × (get_elem? s.seats i ≡ some seat) × (length seat.answers < queue_maxdim)
unfolding clerk_owes
clerk_served {s = s} i h p =
    someone (requests i s) (office_owes i s) (clerk_owes i s) (get_elem? s.seats i) (h.accounts i)
      (omega (arith, p))

-- The queues to the offices and to the special office, when a student waits for no answer.
pub normal-room :
    {k : ℕ} {s : State} (i : ℕ) {seat : Seat}
    → k ≤ queue_maxdim
    → Holds k s
    → get_elem? s.seats i ≡ some seat
    → due seat ≡ 0
    → (length s.normal_q < queue_maxdim) × (length s.special_q < queue_maxdim)
unfolding in_flight
normal-room {s = s} i le h e z =
    let spare = sum-le-spare due 2 s.seats i (λ x. due-le x.student) e z in
    (omega (arith, h.flow, h.seats_size, spare, le), omega (arith, h.flow, h.seats_size, spare, le))

pub urgent-room :
    {k : ℕ} {s : State} (i o : ℕ) {seat : Seat} {d : Desk}
    → k ≤ queue_maxdim
    → Holds k s
    → get_elem? s.seats i ≡ some seat
    → due seat ≡ 0
    → get_elem? s.desks o ≡ some d
    → length d.urgent_q < queue_maxdim
unfolding in_flight
urgent-room {s = s} i o le h e z f = omega (
  arith,
  h.flow,
  h.seats_size,
  sum-le-spare due 2 s.seats i (λ x. due-le x.student) e z,
  le,
  le-sum desk_load s.desks o f,
)

-- With at most QUEUE_MAXDIM students no `send` finds its queue full: not a student's before the first
-- critical section, in the second, or to the special office, nor the answer of an office or of
-- the special office, which goes to a student who is there.
pub sends-room :
    {k : ℕ} {s : State}
    → k ≤ queue_maxdim
    → Reach k s
    → ((i : ℕ) (seat : Seat)
        → get_elem? s.seats i ≡ some seat
        → office_due seat.student + clerk_due seat.student ≡ 0
        → (length s.normal_q < queue_maxdim)
          × (length s.special_q < queue_maxdim)
          × ((o : ℕ) (d : Desk) → get_elem? s.desks o ≡ some d → length d.urgent_q < queue_maxdim))
      × ((o i : ℕ) (d : Desk)
          → get_elem? s.desks o ≡ some d
          → 0 < owes i d.office
          → (seat : Seat) × (get_elem? s.seats i ≡ some seat)
            × (length seat.answers < queue_maxdim))
      × ((i : ℕ)
          → 0 < owes i s.clerk
          → (seat : Seat) × (get_elem? s.seats i ≡ some seat)
            × (length seat.answers < queue_maxdim))
sends-room {s = s} le r =
    let h = Reach-Holds r in
    (
      (λ i seat e z.
          let (normal, special) = normal-room i le h e z in
          (normal, special, λ o d f. urgent-room i o le h e z f)),
      (λ o i d e p. served o i h e p),
      (λ i p. clerk_served i h p),
    )
