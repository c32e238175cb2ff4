-- ===== src/Lab03/Offices/Tests.antt =====
-- The theorems on the offices at runs of one student.
use sdp_labs.Common.{
  ℕ, ◌+◌, ◌*◌, ◌≤◌, ◌<◌, ◌≡◌, refl, false, some, [], ◌∷◌, length, get_elem?, arith,
}
use sdp_labs.Common.Int.{pos, minus_one}
use sdp_labs.Lab03.Offices.{
  Info, Student, Seat, idle, got, Desk, State, arrives, hears, takes_normal, tells, answers_step,
  leaves, arrive, opened, Reach, start, later, queue_maxdim,
}
use sdp_labs.Lab03.Offices.Account.{Holds}
use sdp_labs.Lab03.Offices.Finish.{Steps, done, then, run-length}
use sdp_labs.Lab03.Offices.Flow.{owes, office_due, clerk_due}
use sdp_labs.Lab03.Offices.Room.{sends-room}
use sdp_labs.Lab03.Offices.Safety.{Reach-Holds}

-- The student has arrived, and office 2 has taken his request.
abbrev request : Info
request = record { id = 0; office_no = minus_one; urgent = pos 0 }

abbrev empty_desk : Desk
empty_desk = record { office = idle; urgent_q = []; urgent = 0 }

abbrev taken : State
taken = record (arrive 0 [] (opened 1)) {
  normal_q = [];
  normal = 0;
  desks = empty_desk ∷ empty_desk ∷ record empty_desk { office = got request } ∷ empty_desk ∷ [];
}

taken_run : Reach 1 taken
taken_run = later (later start (arrives 0 refl (omega arith))) (takes_normal 2 0 refl refl refl)

-- The whole run of a student who does not go to the special office.
whole_run : (t : State) × Steps 7 (opened 1) t × (t.st_count ≡ 0)
whole_run = (
  _,
  then (arrives 0 refl (omega arith)) (
      then (takes_normal 2 0 refl refl refl) (
        then (tells 2 request refl refl refl (omega arith)) (
          then (hears 0 Student.queued refl refl) (
            then (answers_step 2 request false refl refl refl (omega arith))
              (then (hears 0 (Student.selected (pos 2)) refl refl) (then (leaves 0 refl) done)))))),
  refl,
)

Reach-Holds_example : Holds 1 taken
Reach-Holds_example = Reach-Holds taken_run

sends-room_example :
    ((i : ℕ) (seat : Seat)
      → get_elem? taken.seats i ≡ some seat
      → office_due seat.student + clerk_due seat.student ≡ 0
      → (length taken.normal_q < queue_maxdim)
        × (length taken.special_q < queue_maxdim)
        × ((o : ℕ) (d : Desk)
            → get_elem? taken.desks o ≡ some d
            → length d.urgent_q < queue_maxdim))
    × ((o i : ℕ) (d : Desk)
        → get_elem? taken.desks o ≡ some d
        → 0 < owes i d.office
        → (seat : Seat) × (get_elem? taken.seats i ≡ some seat)
          × (length seat.answers < queue_maxdim))
    × ((i : ℕ)
        → 0 < owes i taken.clerk
        → (seat : Seat) × (get_elem? taken.seats i ≡ some seat)
          × (length seat.answers < queue_maxdim))
sends-room_example = sends-room (omega arith) taken_run

run-length_example : 7 ≤ 19 * 1
run-length_example = run-length 1 7 whole_run.1
