-- ===== src/Lab03/Offices/Work.antt =====
-- What is left to do: every step is one of at most 19 steps that a student needs.
use sdp_labs.Common.{
  ℕ, zero, suc, ◌+◌, ◌*◌, ◌≤◌, ◌≡◌, ap, true, [], ◌∷◌, ◌++◌, length, replicate, arith,
}
use sdp_labs.Common.Int.{pos, minus_one}
use sdp_labs.Common.Sum.{sum, sum-set}
use sdp_labs.Lab03.Offices.{
  Info, Student, Seat, idle, got, told, Desk, State, Step, arrives, hears, asks, goes_back, leaves,
  takes_urgent, takes_normal, tells, answers_step, clerk_takes, clerk_tells, clerk_answers, opened,
  hear, waits, answer, verdict,
}
use sdp_labs.Lab03.Offices.Account.{length-snoc}
use sdp_labs.Lab03.Offices.Flow.{load}

-- A request not yet made is worth the three steps of the office besides the student's own.
abbrev pub steps_left : Student → ℕ
steps_left Student.arriving = 19
steps_left Student.queued = 15
steps_left (Student.selected o) = 14
steps_left (Student.to_special o) = 13
steps_left (Student.at_special o) = 9
steps_left (Student.received o) = 8
steps_left (Student.going_back o u) = 7
steps_left (Student.queued_again o) = 3
steps_left (Student.selected_again o) = 2
steps_left Student.leaving = 1
steps_left Student.gone = 0

abbrev pub seat_work : Seat → ℕ
seat_work seat = steps_left seat.student

abbrev pub desk_work : Desk → ℕ
desk_work d = 3 * length d.urgent_q + load d.office

unfoldable pub work : State → ℕ
work s =
    sum seat_work s.seats
    + (3 * length s.normal_q + sum desk_work s.desks)
    + (3 * length s.special_q + load s.clerk)

hear-less : (st : Student) (m : Info) → waits st ≡ true → steps_left (hear st m) + 1 ≤ steps_left st
hear-less Student.arriving m w = absurd (ground arith)
hear-less (Student.to_special o) m w = absurd (ground arith)
hear-less (Student.going_back o u) m w = absurd (ground arith)
hear-less Student.leaving m w = absurd (ground arith)
hear-less Student.gone m w = absurd (ground arith)
hear-less _ m w = ground arith

pub Step-less : {s t : State} → Step s t → work t + 1 ≤ work s
unfolding work
Step-less {s} (arrives i {a} e _) = omega (
  arith,
  length-snoc s.normal_q (record { id = i; office_no = minus_one; urgent = pos 0 }),
  sum-set seat_work s.seats i (record { student = Student.arriving; answers = a })
      (record { student = Student.queued; answers = a }) e,
)
Step-less {s} (hears i st {m} {rest} e w) = omega (
  arith,
  hear-less st m w,
  sum-set seat_work s.seats i (record { student = st; answers = m ∷ rest })
      (record { student = hear st m; answers = rest }) e,
)
Step-less {s} (asks i {a} {o} e _) = omega (
  arith,
  length-snoc s.special_q (record { id = i; office_no = o; urgent = pos 0 }),
  sum-set seat_work s.seats i (record { student = Student.to_special o; answers = a })
      (record { student = Student.at_special o; answers = a }) e,
)
Step-less {s} (goes_back i o {a} {u} {d} e f _) =
    let m : Info = record { id = i; office_no = pos o; urgent = u } in
    omega (
      arith,
      length-snoc d.urgent_q m,
      sum-set desk_work s.desks o d
          (record d { urgent_q = d.urgent_q ++ m ∷ []; urgent = d.urgent + 1 }) f,
      sum-set seat_work s.seats i (record { student = Student.going_back (pos o) u; answers = a })
          (record { student = Student.queued_again (pos o); answers = a }) e,
    )
Step-less {s} (leaves i {a} e) = omega (
  arith,
  sum-set seat_work s.seats i (record { student = Student.leaving; answers = a })
      (record { student = Student.gone; answers = a }) e,
)
Step-less {s} (takes_urgent o n {m} {q} e) = omega (
  arith,
  sum-set desk_work s.desks o (record { office = idle; urgent_q = m ∷ q; urgent = suc n })
      (record { office = got m; urgent_q = q; urgent = n }) e,
)
Step-less {s} (takes_normal o n {m} {q} {urgent_q} e f _) = omega (
  arith,
  ap length f,
  sum-set desk_work s.desks o (record { office = idle; urgent_q = urgent_q; urgent = 0 })
      (record { office = got m; urgent_q = urgent_q; urgent = 0 }) e,
)
Step-less {s} (tells o m {d} {seat} e at f _) = omega (
  arith,
  ap load at,
  sum-set desk_work s.desks o d (record d { office = told m }) e,
  sum-set seat_work s.seats m.id seat
      (answer seat (record { id = m.id; office_no = pos o; urgent = minus_one })) f,
)
Step-less {s} (answers_step o m sends {d} {seat} e at f _) = omega (
  arith,
  ap load at,
  sum-set desk_work s.desks o d (record d { office = idle }) e,
  sum-set seat_work s.seats m.id seat
      (answer seat (record { id = m.id; office_no = verdict o m sends; urgent = minus_one })) f,
)
Step-less {s} (clerk_takes e f) = omega (arith, ap load e, ap length f)
Step-less {s} (clerk_tells m {seat} at f _) = omega (
  arith,
  ap load at,
  sum-set seat_work s.seats m.id seat (answer seat (record m { urgent = minus_one })) f,
)
Step-less {s} (clerk_answers m {seat} at f _) = omega (
  arith,
  ap load at,
  sum-set seat_work s.seats m.id seat (answer seat (record m { urgent = pos 1 })) f,
)

seats_work :
    (k : ℕ)
    → sum seat_work (replicate k (record { student = Student.arriving; answers = [] })) ≡ 19 * k
unfolding sum
seats_work zero = omega arith
seats_work (suc k) = omega (arith, seats_work k)

pub opened-work : (k : ℕ) → work (opened k) ≡ 19 * k
unfolding work sum
opened-work k = omega (arith, seats_work k)
