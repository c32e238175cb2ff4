-- ===== src/Lab03/Offices.antt =====
-- lab03/lab3.1.c: the students, the four offices and the special office, in any interleaving. A queue is
-- the list of its items (Ring/Fifo.antt shows that `send` and `receive` do that), of at most QUEUE_MAXDIM.
-- A section under `cond->lock` or `st_count.me` is one step. In C a student who finds a queue full
-- under the lock keeps the lock and waits; here the step is not there until there is room.
-- A wait on a condition variable is likewise a step that is there when the test of its loop holds: the
-- signals and broadcasts are not part of the model, and nothing is said of a wakeup that is lost.
pub mod Flow
pub mod Account
pub mod Moves
pub mod Hears
pub mod Served
pub mod Answers
pub mod Clerk
pub mod Safety
pub mod Room
pub mod Progress
pub mod Work
pub mod Finish
mod Tests
use sdp_labs.Common.{
  ℕ, zero, suc, ◌+◌, ◌-◌, ◌<◌, ◌≡◌, Bool, true, false, some, List, [], ◌∷◌, ◌++◌, get_elem?, set,
  replicate, length, if◌then◌else◌,
}
use sdp_labs.Common.Int.{ℤ, pos, minus_one, eqb_ℤ}

-- `Info` of office.h, NUM_OFFICES and QUEUE_MAXDIM
pub record Info : Type 0 where
  pub id : ℕ
  pub office_no : ℤ
  pub urgent : ℤ

abbrev pub num_offices : ℕ
num_offices = 4

abbrev pub queue_maxdim : ℕ
queue_maxdim = 100

-- Where a student is in `studentFunction`, with `office_number` once it is set: before the first critical
-- section, at the first two calls of `receive`, at the call of `send` to the special office, at the
-- next two calls of `receive`, before the second critical section (with `response.urgent`), at the
-- last two calls of `receive`, before the end, and behind it.
pub data Student : Type 0 where
  arriving queued : Student
  selected to_special at_special received : ℤ → Student
  going_back : ℤ → ℤ → Student
  queued_again selected_again : ℤ → Student
  leaving gone : Student

-- A student's thread, with answer_Q[i].
pub record Seat : Type 0 where
  pub student : Student
  pub answers : List Info

-- Where an office is in its loop: at the head, before the first `send`, before the second.
pub data Office : Type 0 where
  idle : Office
  got told : Info → Office

-- An office's thread, with urgent_Q[i] and cond->urgent[i].
pub record Desk : Type 0 where
  pub office : Office
  pub urgent_q : List Info
  pub urgent : ℕ

-- `clerk` is the special office.
pub record State : Type 0 where
  pub normal_q : List Info
  pub normal : ℕ
  pub special_q : List Info
  pub seats : List Seat
  pub desks : List Desk
  pub clerk : Office
  pub st_count : ℕ

-- The student waits in `receive(answer_Q[i])`.
abbrev pub waits : Student → Bool
waits Student.arriving = false
waits Student.queued = true
waits (Student.selected o) = true
waits (Student.to_special o) = false
waits (Student.at_special o) = true
waits (Student.received o) = true
waits (Student.going_back o u) = false
waits (Student.queued_again o) = true
waits (Student.selected_again o) = true
waits Student.leaving = false
waits Student.gone = false

-- What the student does with the response, up to the next `send` or `receive`.
abbrev pub hear : Student → Info → Student
hear Student.arriving m = Student.arriving
hear Student.queued m = Student.selected m.office_no
hear (Student.selected o) m =
    if eqb_ℤ m.office_no minus_one then Student.to_special o else Student.leaving
hear (Student.to_special o) m = Student.to_special o
hear (Student.at_special o) m = Student.received o
hear (Student.received o) m = Student.going_back o m.urgent
hear (Student.going_back o u) m = Student.going_back o u
hear (Student.queued_again o) m = Student.selected_again o
hear (Student.selected_again o) m = Student.leaving
hear Student.leaving m = Student.leaving
hear Student.gone m = Student.gone

-- The first critical section of student `i`, and the second.
abbrev pub arrive : ℕ → List Info → State → State
arrive i a s = record s {
  normal_q = s.normal_q ++ record { id = i; office_no = minus_one; urgent = pos 0 } ∷ [];
  normal = s.normal + 1;
  seats = set s.seats i (record { student = Student.queued; answers = a });
}

abbrev pub go_back : ℕ → List Info → ℕ → ℤ → Desk → State → State
go_back i a o u d s = record s {
  desks = set s.desks o (record d {
    urgent_q = d.urgent_q ++ record { id = i; office_no = pos o; urgent = u } ∷ [];
    urgent = d.urgent + 1;
  });
  seats = set s.seats i (record { student = Student.queued_again (pos o); answers = a });
}

abbrev pub ask_special : ℕ → List Info → ℤ → State → State
ask_special i a o s = record s {
  special_q = s.special_q ++ record { id = i; office_no = o; urgent = pos 0 } ∷ [];
  seats = set s.seats i (record { student = Student.at_special o; answers = a });
}

-- `response = receive(answer_Q[i])`
abbrev pub listen : ℕ → Student → Info → List Info → State → State
listen i st m rest s = record s {
  seats = set s.seats i (record { student = hear st m; answers = rest });
}

abbrev pub leave : ℕ → List Info → State → State
leave i a s = record s {
  st_count = s.st_count - 1;
  seats = set s.seats i (record { student = Student.gone; answers = a });
}

-- `officeAnswer.office_no`; `sends` is whether the random number is below 4.
abbrev pub verdict : ℕ → Info → Bool → ℤ
verdict o m sends = if eqb_ℤ m.urgent (pos 1) then pos o else if sends then minus_one else pos o

-- `send(answer_Q[id], …)`
abbrev pub answer : Seat → Info → Seat
answer seat m = record seat { answers = seat.answers ++ m ∷ [] }

pub data Step (s : State) : State → Type 0 where
  arrives :
      (i : ℕ) {a : List Info}
      → get_elem? s.seats i ≡ some (record { student = Student.arriving; answers = a })
      → length s.normal_q < queue_maxdim
      → Step s (arrive i a s)
  hears :
      (i : ℕ) (st : Student) {m : Info} {rest : List Info}
      → get_elem? s.seats i ≡ some (record { student = st; answers = m ∷ rest })
      → waits st ≡ true
      → Step s (listen i st m rest s)
  asks :
      (i : ℕ) {a : List Info} {o : ℤ}
      → get_elem? s.seats i ≡ some (record { student = Student.to_special o; answers = a })
      → length s.special_q < queue_maxdim
      → Step s (ask_special i a o s)
  goes_back :
      (i o : ℕ) {a : List Info} {u : ℤ} {d : Desk}
      → get_elem? s.seats i ≡ some (record { student = Student.going_back (pos o) u; answers = a })
      → get_elem? s.desks o ≡ some d
      → length d.urgent_q < queue_maxdim
      → Step s (go_back i a o u d s)
  leaves :
      (i : ℕ) {a : List Info}
      → get_elem? s.seats i ≡ some (record { student = Student.leaving; answers = a })
      → Step s (leave i a s)
  takes_urgent :
      (o n : ℕ) {m : Info} {q : List Info}
      → get_elem? s.desks o ≡ some (record { office = idle; urgent_q = m ∷ q; urgent = suc n })
      → Step s
          (record s { desks = set s.desks o (record { office = got m; urgent_q = q; urgent = n }) })
  takes_normal :
      (o n : ℕ) {m : Info} {q urgent_q : List Info}
      → get_elem? s.desks o ≡ some (record { office = idle; urgent_q = urgent_q; urgent = 0 })
      → s.normal_q ≡ m ∷ q
      → s.normal ≡ suc n
      → Step s (record s {
        normal_q = q;
        normal = n;
        desks = set s.desks o (record { office = got m; urgent_q = urgent_q; urgent = 0 });
      })
  tells :
      (o : ℕ) (m : Info) {d : Desk} {seat : Seat}
      → get_elem? s.desks o ≡ some d
      → d.office ≡ got m
      → get_elem? s.seats m.id ≡ some seat
      → length seat.answers < queue_maxdim
      → Step s (record s {
        desks = set s.desks o (record d { office = told m });
        seats =
            set s.seats m.id
              (answer seat (record { id = m.id; office_no = pos o; urgent = minus_one }));
      })
  answers_step :
      (o : ℕ) (m : Info) (sends : Bool) {d : Desk} {seat : Seat}
      → get_elem? s.desks o ≡ some d
      → d.office ≡ told m
      → get_elem? s.seats m.id ≡ some seat
      → length seat.answers < queue_maxdim
      → Step s (record s {
        desks = set s.desks o (record d { office = idle });
        seats =
            set s.seats m.id (
              answer seat
                (record { id = m.id; office_no = verdict o m sends; urgent = minus_one }));
      })
  clerk_takes :
      {m : Info} {q : List Info}
      → s.clerk ≡ idle
      → s.special_q ≡ m ∷ q
      → Step s (record s { special_q = q; clerk = got m })
  clerk_tells :
      (m : Info) {seat : Seat}
      → s.clerk ≡ got m
      → get_elem? s.seats m.id ≡ some seat
      → length seat.answers < queue_maxdim
      → Step s (record s {
        clerk = told m;
        seats = set s.seats m.id (answer seat (record m { urgent = minus_one }));
      })
  clerk_answers :
      (m : Info) {seat : Seat}
      → s.clerk ≡ told m
      → get_elem? s.seats m.id ≡ some seat
      → length seat.answers < queue_maxdim
      → Step s (record s {
        clerk = idle;
        seats = set s.seats m.id (answer seat (record m { urgent = pos 1 }));
      })

-- `main`, with `k` students.
abbrev pub opened : ℕ → State
opened k = record {
  normal_q = [];
  normal = 0;
  special_q = [];
  seats = replicate k (record { student = Student.arriving; answers = [] });
  desks = replicate num_offices (record { office = idle; urgent_q = []; urgent = 0 });
  clerk = idle;
  st_count = k;
}

pub data Reach (k : ℕ) : State → Type 0 where
  start : Reach k (opened k)
  later : {s t : State} → Reach k s → Step s t → Reach k t
