-- ===== src/Lab03/Offices/Flow.antt =====
-- What the offices still owe to each student: a request that waits or is served is worth its two
-- answers, and one of which the first answer is sent is worth one.
use sdp_labs.Common.{
  ℕ, ◌+◌, ◌*◌, ◌≤◌, ◌<◌, ◌≡◌, ◌==◌, Bool, true, false, not, Option, none, some, List, [], ◌∷◌,
  length, if◌then◌else◌,
}
use sdp_labs.Common.Count.{count}
use sdp_labs.Common.Int.{ℤ, pos}
use sdp_labs.Common.Sum.{sum}
use sdp_labs.Lab03.Offices.{Info, Student, Seat, Office, idle, got, told, Desk, State, num_offices}

abbrev pub has_id : ℕ → Info → Bool
has_id i m = m.id == i

abbrev pub owes : ℕ → Office → ℕ
owes i idle = 0
owes i (got m) = if m.id == i then 2 else 0
owes i (told m) = if m.id == i then 1 else 0

abbrev pub desk_owes : ℕ → Desk → ℕ
desk_owes i d = 2 * count (has_id i) d.urgent_q + owes i d.office

unfoldable pub office_owes : ℕ → State → ℕ
office_owes i s = 2 * count (has_id i) s.normal_q + sum (desk_owes i) s.desks

unfoldable pub clerk_owes : ℕ → State → ℕ
clerk_owes i s = 2 * count (has_id i) s.special_q + owes i s.clerk

-- The requests of a student that wait at an office or are served there.
abbrev pub busy_with : ℕ → Office → ℕ
busy_with i idle = 0
busy_with i (got m) = if m.id == i then 1 else 0
busy_with i (told m) = if m.id == i then 1 else 0

abbrev pub desk_requests : ℕ → Desk → ℕ
desk_requests i d = count (has_id i) d.urgent_q + busy_with i d.office

unfoldable pub requests : ℕ → State → ℕ
requests i s = count (has_id i) s.normal_q + sum (desk_requests i) s.desks

-- The answers that a student still waits for, from the offices and from the special office.
abbrev pub office_due : Student → ℕ
office_due Student.queued = 2
office_due (Student.selected o) = 1
office_due (Student.queued_again o) = 2
office_due (Student.selected_again o) = 1
office_due Student.arriving = 0
office_due (Student.to_special o) = 0
office_due (Student.at_special o) = 0
office_due (Student.received o) = 0
office_due (Student.going_back o u) = 0
office_due Student.leaving = 0
office_due Student.gone = 0

abbrev pub clerk_due : Student → ℕ
clerk_due (Student.at_special o) = 2
clerk_due (Student.received o) = 1
clerk_due Student.arriving = 0
clerk_due Student.queued = 0
clerk_due (Student.selected o) = 0
clerk_due (Student.to_special o) = 0
clerk_due (Student.going_back o u) = 0
clerk_due (Student.queued_again o) = 0
clerk_due (Student.selected_again o) = 0
clerk_due Student.leaving = 0
clerk_due Student.gone = 0

abbrev pub with_clerk : Student → Bool
with_clerk (Student.at_special o) = true
with_clerk (Student.received o) = true
with_clerk Student.arriving = false
with_clerk Student.queued = false
with_clerk (Student.selected o) = false
with_clerk (Student.to_special o) = false
with_clerk (Student.going_back o u) = false
with_clerk (Student.queued_again o) = false
with_clerk (Student.selected_again o) = false
with_clerk Student.leaving = false
with_clerk Student.gone = false

-- The number of an office.
abbrev pub IsOffice : ℤ → Type 0
IsOffice o = (n : ℕ) × (n < num_offices) × (o ≡ pos n)

-- The office number that a student has is one, and so is the one in the answer that tells it.
abbrev pub KnowsOffice : Student → List Info → Type 0
KnowsOffice Student.queued [] = Unit {0}
KnowsOffice Student.queued (m ∷ q) = IsOffice m.office_no
KnowsOffice (Student.selected o) q = IsOffice o
KnowsOffice (Student.to_special o) q = IsOffice o
KnowsOffice (Student.at_special o) q = IsOffice o
KnowsOffice (Student.received o) q = IsOffice o
KnowsOffice (Student.going_back o u) q = IsOffice o
KnowsOffice Student.arriving q = Unit {0}
KnowsOffice (Student.queued_again o) q = Unit {0}
KnowsOffice (Student.selected_again o) q = Unit {0}
KnowsOffice Student.leaving q = Unit {0}
KnowsOffice Student.gone q = Unit {0}

-- What is owed to a student, and the answers that wait for him, are what he waits for.
pub record Account (requested owed_by_offices owed_by_clerk : ℕ) (seat : Seat) : Type 0 where
  pub by_offices :
      owed_by_offices + (if with_clerk seat.student then 0 else length seat.answers)
      ≡ office_due seat.student
  pub by_clerk :
      owed_by_clerk + (if with_clerk seat.student then length seat.answers else 0)
      ≡ clerk_due seat.student
  pub single : requested ≤ 1
  pub knows : KnowsOffice seat.student seat.answers

-- Nothing is owed to a number that is no student's.
abbrev pub AccountAt : ℕ → ℕ → ℕ → Option Seat → Type 0
AccountAt requested owed_by_offices owed_by_clerk none = (owed_by_offices ≡ 0) × (owed_by_clerk ≡ 0)
AccountAt requested owed_by_offices owed_by_clerk (some seat) =
    Account requested owed_by_offices owed_by_clerk seat

-- The same over all students: this bounds the queues.
abbrev pub load : Office → ℕ
load idle = 0
load (got m) = 2
load (told m) = 1

abbrev pub desk_load : Desk → ℕ
desk_load d = 2 * length d.urgent_q + load d.office

abbrev pub due : Seat → ℕ
due seat = office_due seat.student + clerk_due seat.student

abbrev pub waiting_answers : Seat → ℕ
waiting_answers seat = length seat.answers

unfoldable pub in_flight : State → ℕ
in_flight s =
    2 * length s.normal_q
    + sum desk_load s.desks
    + (2 * length s.special_q + load s.clerk)
    + sum waiting_answers s.seats

abbrev pub has_left : Student → Bool
has_left Student.gone = true
has_left Student.arriving = false
has_left Student.queued = false
has_left (Student.selected o) = false
has_left (Student.to_special o) = false
has_left (Student.at_special o) = false
has_left (Student.received o) = false
has_left (Student.going_back o u) = false
has_left (Student.queued_again o) = false
has_left (Student.selected_again o) = false
has_left Student.leaving = false

abbrev pub still_here : Seat → Bool
still_here seat = not (has_left seat.student)
