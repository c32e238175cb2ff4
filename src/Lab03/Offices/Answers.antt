-- ===== src/Lab03/Offices/Answers.antt =====
-- Every step of the offices keeps the invariant: an answer of an office to a student.
use sdp_labs.Common.{
  ℕ, ◌+◌, ◌*◌, ◌≤◌, ◌≡◌, ◌≢◌, ◌==◌, ◌∙◌, ap, refl, inl, inr, Bool, some, [], length, get_elem?, set,
  if◌then◌else◌, arith, length-set, Bool-cases, lt-length-get,
}
use sdp_labs.Common.Count.{count-set}
use sdp_labs.Common.Int.{pos, minus_one}
use sdp_labs.Common.Sum.{sum-set, sum-gap, sum-double}
use sdp_labs.Lab03.Offices.{
  Info, Student, Seat, Office, idle, got, told, Desk, State, answer, verdict,
}
use sdp_labs.Lab03.Offices.Flow.{
  owes, busy_with, desk_owes, desk_requests, requests, office_owes, clerk_owes, Account, in_flight,
  due, still_here, desk_load, load, waiting_answers, IsOffice, with_clerk, office_due,
}
use sdp_labs.Lab03.Offices.Account.{Holds, accounts-set, seat_at, length-snoc, urgent_count-set}
use sdp_labs.Lab03.Offices.Served.{knows_snoc, one_side}

-- The account of a student who gets an answer from an office.
office_answer-Account :
    {c x x' y : ℕ} (seat : Seat) (r : Info)
    → Account c x y seat
    → x ≡ x' + 1
    → (c' : ℕ) → c' ≤ c
    → (seat.student ≡ Student.queued → seat.answers ≡ [] → IsOffice r.office_no)
    → Account c' x' y (answer seat r)
office_answer-Account seat r a less c' c'-le new = elim (Bool-cases (with_clerk seat.student)) [
  | inl t ↦ absurd (ground (arith, a.by_offices, (one_side seat.student).0 t))
  | inr f ↦ record {
    by_offices = ground (arith, a.by_offices, length-snoc seat.answers r);
    by_clerk = ground (arith, a.by_clerk);
    single = omega (arith, a.single);
    knows = knows_snoc seat.student seat.answers r a.knows new;
  }
]

-- An office that sends the answer `r`, and is at `office` then.
office_reply-Holds :
    {k : ℕ} {s : State} (o : ℕ) {d : Desk} (office : Office) (r : Info) {seat : Seat}
    → Holds k s
    → get_elem? s.desks o ≡ some d
    → get_elem? s.seats r.id ≡ some seat
    → ((j : ℕ) → owes j d.office ≡ owes j office + (if r.id == j then 1 else 0))
    → ((j : ℕ) → busy_with j office ≤ busy_with j d.office)
    → ((j : ℕ) → r.id ≢ j → busy_with j office ≡ busy_with j d.office)
    → load d.office ≡ load office + 1
    → (seat.student ≡ Student.queued → seat.answers ≡ [] → IsOffice r.office_no)
    → Holds k (record s {
      desks = set s.desks o (record d { office = office });
      seats = set s.seats r.id (answer seat r);
    })
unfolding requests office_owes clerk_owes in_flight
office_reply-Holds {s = s} o {d} office r {seat} h e f less busy others lighter new =
    let i : ℕ = r.id in
    let desk : Desk = record d { office = office } in
    let told_seat : Seat = answer seat r in
    let s' : State = record s { desks = set s.desks o desk; seats = set s.seats i told_seat } in
    record {
      seats_size = length-set s.seats i told_seat ∙ h.seats_size;
      desks_size = length-set s.desks o desk ∙ h.desks_size;
      normal_count = h.normal_count;
      urgent_count = urgent_count-set s.desks o desk (h.urgent_count o d e) h.urgent_count;
      accounts =
          accounts-set s s' i refl f
            (λ j ne. omega (arith, others j ne, sum-set (desk_requests j) s.desks o d desk e))
            (λ j ne. ground (arith, less j, sum-set (desk_owes j) s.desks o d desk e))
            (λ j ne. refl) h.accounts
            (office_answer-Account seat r (seat_at i h f)
              (ground (arith, less i, sum-set (desk_owes i) s.desks o d desk e)) (requests i s')
              (omega (arith, busy i, sum-set (desk_requests i) s.desks o d desk e)) new);
      flow = omega (
        arith,
        h.flow,
        lighter,
        length-snoc seat.answers r,
        sum-set desk_load s.desks o d desk e,
        sum-set due s.seats i seat told_seat f,
        sum-set waiting_answers s.seats i seat told_seat f,
      );
      here = omega (arith, h.here, count-set still_here s.seats i seat told_seat f);
    }

pub tells-Holds :
    {k : ℕ} {s : State} (o : ℕ) (m : Info) {d : Desk} {seat : Seat}
    → Holds k s
    → get_elem? s.desks o ≡ some d
    → d.office ≡ got m
    → get_elem? s.seats m.id ≡ some seat
    → Holds k (record s {
      desks = set s.desks o (record d { office = told m });
      seats =
          set s.seats m.id
            (answer seat (record { id = m.id; office_no = pos o; urgent = minus_one }));
    })
tells-Holds {s = s} o m {d} h e at f =
    office_reply-Holds o (told m) (record { id = m.id; office_no = pos o; urgent = minus_one }) h e
      f (λ j. ground (arith, ap (owes j) at)) (λ j. ground (arith, ap (busy_with j) at))
      (λ j ne. ground (arith, ap (busy_with j) at)) (omega (arith, ap load at))
      (λ _ _. (o, omega (arith, h.desks_size, lt-length-get s.desks o e), refl))

owes-le-busy : (j : ℕ) (p : Office) → owes j p ≤ 2 * busy_with j p
owes-le-busy j idle = omega arith
owes-le-busy j (got m) = ground arith
owes-le-busy j (told m) = ground arith

-- A student to whom a second answer is owed heard the first: he has one request only.
second_answer :
    {k : ℕ} {s : State} (o : ℕ) (m : Info) {d : Desk} {seat : Seat}
    → Holds k s
    → get_elem? s.desks o ≡ some d
    → d.office ≡ told m
    → get_elem? s.seats m.id ≡ some seat
    → office_owes m.id s ≤ 1
unfolding requests office_owes
second_answer {s = s} o m {d} h e at f =
    let i : ℕ = m.id in
    omega (
      arith,
      (seat_at i h f).single,
      sum-double (desk_requests i) s.desks,
      sum-gap (desk_owes i) (λ x. 2 * desk_requests i x) 1 s.desks o
          (λ x. omega (arith, owes-le-busy i x.office)) e
          (ground (arith, ap (owes i) at, ap (busy_with i) at)),
    )

pub answers-Holds :
    {k : ℕ} {s : State} (o : ℕ) (m : Info) (sends : Bool) {d : Desk} {seat : Seat}
    → Holds k s
    → get_elem? s.desks o ≡ some d
    → d.office ≡ told m
    → get_elem? s.seats m.id ≡ some seat
    → Holds k (record s {
      desks = set s.desks o (record d { office = idle });
      seats =
          set s.seats m.id
            (answer seat (record { id = m.id; office_no = verdict o m sends; urgent = minus_one }));
    })
answers-Holds {s = s} o m sends {d} {seat} h e at f =
    office_reply-Holds o idle
      (record { id = m.id; office_no = verdict o m sends; urgent = minus_one }) h e f
      (λ j. ground (arith, ap (owes j) at)) (λ j. ground (arith, ap (busy_with j) at))
      (λ j ne. ground (arith, ap (busy_with j) at)) (omega (arith, ap load at))
      (λ q none_yet. absurd (
        ground (
          arith,
          second_answer o m h e at f,
          (seat_at m.id h f).by_offices,
          ap office_due q,
          ap with_clerk q,
          ap length none_yet,
        )))
