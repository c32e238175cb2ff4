-- ===== src/Lab03/Offices/Moves.antt =====
-- Every step of the offices keeps the invariant: the students' steps.
use sdp_labs.Common.{
  ℕ, ◌+◌, ◌≤◌, ◌≡◌, ◌∙◌, refl, some, List, [], ◌∷◌, ◌++◌, length, get_elem?, arith, length-set,
}
use sdp_labs.Common.Count.{count-set}
use sdp_labs.Common.Int.{ℤ, pos, minus_one}
use sdp_labs.Common.Sum.{sum-set, sum_le_sum}
use sdp_labs.Lab03.Offices.{
  Info, Student, Seat, Office, idle, got, told, Desk, State, arrive, ask_special, go_back, leave,
}
use sdp_labs.Lab03.Offices.Flow.{
  owes, busy_with, desk_owes, desk_requests, requests, office_owes, clerk_owes, in_flight, due,
  still_here, desk_load, waiting_answers, KnowsOffice,
}
use sdp_labs.Lab03.Offices.Account.{
  Holds, accounts-set, seat_at, count-snoc, length-snoc, urgent_count-set,
}

knows_nothing : (a : List Info) → length a ≡ 0 → KnowsOffice Student.queued a
knows_nothing [] e = tt
knows_nothing (m ∷ a) e = absurd (omega arith)

busy-le-owes : (j : ℕ) (o : Office) → busy_with j o ≤ owes j o
busy-le-owes j idle = omega arith
busy-le-owes j (got m) = ground arith
busy-le-owes j (told m) = ground arith

-- What is requested is owed.
requests-le-owes : (j : ℕ) (s : State) → requests j s ≤ office_owes j s
unfolding requests office_owes
requests-le-owes j s = omega (
  arith,
  sum_le_sum (desk_requests j) (desk_owes j) s.desks (λ d. omega (arith, busy-le-owes j d.office)),
)

module _ {k : ℕ} {s : State} (i : ℕ) {a : List Info} (h : Holds k s) where
  pub arrive-Holds :
      get_elem? s.seats i ≡ some (record { student = Student.arriving; answers = a })
      → Holds k (arrive i a s)
  unfolding requests office_owes clerk_owes in_flight
  arrive-Holds e =
      let old : Seat = record { student = Student.arriving; answers = a } in
      let new : Seat = record { student = Student.queued; answers = a } in
      let m : Info = record { id = i; office_no = minus_one; urgent = pos 0 } in
      let mine = seat_at i h e in
      record {
        seats_size = length-set s.seats i new ∙ h.seats_size;
        desks_size = h.desks_size;
        normal_count = omega (arith, h.normal_count, length-snoc s.normal_q m);
        urgent_count = h.urgent_count;
        accounts =
            accounts-set s (arrive i a s) i refl e
              (λ j ne. ground (arith, count-snoc j s.normal_q m))
              (λ j ne. ground (arith, count-snoc j s.normal_q m)) (λ j ne. refl) h.accounts
              (record {
                by_offices = ground (arith, mine.by_offices, count-snoc i s.normal_q m);
                by_clerk = mine.by_clerk;
                single =
                    ground
                      (arith, requests-le-owes i s, mine.by_offices, count-snoc i s.normal_q m);
                knows = knows_nothing a (omega (arith, mine.by_offices));
              });
        flow = omega (
          arith,
          h.flow,
          length-snoc s.normal_q m,
          sum-set due s.seats i old new e,
          sum-set waiting_answers s.seats i old new e,
        );
        here = omega (arith, h.here, count-set still_here s.seats i old new e);
      }

  pub ask_special-Holds :
      {o : ℤ}
      → get_elem? s.seats i ≡ some (record { student = Student.to_special o; answers = a })
      → Holds k (ask_special i a o s)
  unfolding requests office_owes clerk_owes in_flight
  ask_special-Holds {o} e =
      let old : Seat = record { student = Student.to_special o; answers = a } in
      let new : Seat = record { student = Student.at_special o; answers = a } in
      let m : Info = record { id = i; office_no = o; urgent = pos 0 } in
      let mine = seat_at i h e in
      record {
        seats_size = length-set s.seats i new ∙ h.seats_size;
        desks_size = h.desks_size;
        normal_count = h.normal_count;
        urgent_count = h.urgent_count;
        accounts =
            accounts-set s (ask_special i a o s) i refl e (λ j ne. refl) (λ j ne. refl)
              (λ j ne. ground (arith, count-snoc j s.special_q m)) h.accounts
              (record {
                by_offices = omega (arith, mine.by_offices);
                by_clerk =
                    ground (arith, mine.by_offices, mine.by_clerk, count-snoc i s.special_q m);
                single = mine.single;
                knows = mine.knows;
              });
        flow = omega (
          arith,
          h.flow,
          length-snoc s.special_q m,
          sum-set due s.seats i old new e,
          sum-set waiting_answers s.seats i old new e,
        );
        here = omega (arith, h.here, count-set still_here s.seats i old new e);
      }

  pub leave-Holds :
      get_elem? s.seats i ≡ some (record { student = Student.leaving; answers = a })
      → Holds k (leave i a s)
  unfolding requests office_owes clerk_owes in_flight
  leave-Holds e =
      let old : Seat = record { student = Student.leaving; answers = a } in
      let new : Seat = record { student = Student.gone; answers = a } in
      let mine = seat_at i h e in
      record {
        seats_size = length-set s.seats i new ∙ h.seats_size;
        desks_size = h.desks_size;
        normal_count = h.normal_count;
        urgent_count = h.urgent_count;
        accounts =
            accounts-set s (leave i a s) i refl e (λ j ne. refl) (λ j ne. refl) (λ j ne. refl)
              h.accounts
              (record {
                by_offices = mine.by_offices;
                by_clerk = mine.by_clerk;
                single = mine.single;
                knows = tt;
              });
        flow = omega (
          arith,
          h.flow,
          sum-set due s.seats i old new e,
          sum-set waiting_answers s.seats i old new e,
        );
        here = omega (arith, h.here, count-set still_here s.seats i old new e);
      }

  pub go_back-Holds :
      {u : ℤ} (o : ℕ) {d : Desk}
      → get_elem? s.seats i ≡ some (record { student = Student.going_back (pos o) u; answers = a })
      → get_elem? s.desks o ≡ some d
      → Holds k (go_back i a o u d s)
  unfolding requests office_owes clerk_owes in_flight
  go_back-Holds {u} o {d} e f =
      let old : Seat = record { student = Student.going_back (pos o) u; answers = a } in
      let new : Seat = record { student = Student.queued_again (pos o); answers = a } in
      let m : Info = record { id = i; office_no = pos o; urgent = u } in
      let desk : Desk = record d { urgent_q = d.urgent_q ++ m ∷ []; urgent = d.urgent + 1 } in
      let mine = seat_at i h e in
      record {
        seats_size = length-set s.seats i new ∙ h.seats_size;
        desks_size = length-set s.desks o desk ∙ h.desks_size;
        normal_count = h.normal_count;
        urgent_count =
            urgent_count-set s.desks o desk
              (omega (arith, h.urgent_count o d f, length-snoc d.urgent_q m)) h.urgent_count;
        accounts =
            accounts-set s (go_back i a o u d s) i refl e
              (λ j ne.
                ground
                  (arith, count-snoc j d.urgent_q m, sum-set (desk_requests j) s.desks o d desk f))
              (λ j ne.
                ground (arith, count-snoc j d.urgent_q m, sum-set (desk_owes j) s.desks o d desk f))
              (λ j ne. refl) h.accounts
              (record {
                by_offices = ground (
                  arith,
                  mine.by_offices,
                  count-snoc i d.urgent_q m,
                  sum-set (desk_owes i) s.desks o d desk f,
                );
                by_clerk = mine.by_clerk;
                single = ground (
                  arith,
                  requests-le-owes i s,
                  mine.by_offices,
                  count-snoc i d.urgent_q m,
                  sum-set (desk_requests i) s.desks o d desk f,
                );
                knows = tt;
              });
        flow = omega (
          arith,
          h.flow,
          length-snoc d.urgent_q m,
          sum-set desk_load s.desks o d desk f,
          sum-set due s.seats i old new e,
          sum-set waiting_answers s.seats i old new e,
        );
        here = omega (arith, h.here, count-set still_here s.seats i old new e);
      }
