-- ===== src/Lab03/Offices/Hears.antt =====
-- Every step of the offices keeps the invariant: a response that a student hears.
use sdp_labs.Common.{
  ℕ, ◌+◌, ◌≡◌, ◌∙◌, ap, refl, inl, inr, true, some, List, ◌∷◌, get_elem?, arith, length-set,
  Bool-cases,
}
use sdp_labs.Common.Count.{count-set, one_if}
use sdp_labs.Common.Int.{minus_one, eqb_ℤ}
use sdp_labs.Common.Sum.{sum-set}
use sdp_labs.Lab03.Offices.{Info, Student, Seat, State, hear, waits, listen}
use sdp_labs.Lab03.Offices.Flow.{
  requests, office_owes, clerk_owes, Account, in_flight, due, still_here, waiting_answers,
}
use sdp_labs.Lab03.Offices.Account.{Holds, accounts-set, seat_at}

-- The account after a response.
hear-Account :
    (st : Student) (m : Info) (rest : List Info) {c x y : ℕ}
    → waits st ≡ true
    → Account c x y (record { student = st; answers = m ∷ rest })
    → Account c x y (record { student = hear st m; answers = rest })
hear-Account Student.arriving m rest w h = absurd (ground arith)
hear-Account Student.queued m rest w h = record {
  by_offices = omega (arith, h.by_offices);
  by_clerk = h.by_clerk;
  single = h.single;
  knows = h.knows;
}
hear-Account (Student.selected o) m rest w h = elim (Bool-cases (eqb_ℤ m.office_no minus_one)) [
  | inl no_office ↦ rw no_office (record {
    by_offices = omega (arith, h.by_offices);
    by_clerk = h.by_clerk;
    single = h.single;
    knows = h.knows;
  })
  | inr done ↦ rw done (record {
    by_offices = omega (arith, h.by_offices);
    by_clerk = h.by_clerk;
    single = h.single;
    knows = tt;
  })
]
hear-Account (Student.to_special o) m rest w h = absurd (ground arith)
hear-Account (Student.at_special o) m rest w h = record {
  by_offices = h.by_offices;
  by_clerk = omega (arith, h.by_clerk);
  single = h.single;
  knows = h.knows;
}
hear-Account (Student.received o) m rest w h = record {
  by_offices = omega (arith, h.by_offices, h.by_clerk);
  by_clerk = omega (arith, h.by_clerk);
  single = h.single;
  knows = h.knows;
}
hear-Account (Student.going_back o u) m rest w h = absurd (ground arith)
hear-Account (Student.queued_again o) m rest w h = record {
  by_offices = omega (arith, h.by_offices);
  by_clerk = h.by_clerk;
  single = h.single;
  knows = tt;
}
hear-Account (Student.selected_again o) m rest w h = record {
  by_offices = omega (arith, h.by_offices);
  by_clerk = h.by_clerk;
  single = h.single;
  knows = tt;
}
hear-Account Student.leaving m rest w h = absurd (ground arith)
hear-Account Student.gone m rest w h = absurd (ground arith)

-- One answer fewer is due, and the student is still here.
hear-due :
    (st : Student) (m : Info) (rest : List Info)
    → waits st ≡ true
    → (due (record { student = hear st m; answers = rest }) + 1
        ≡ due (record { student = st; answers = m ∷ rest }))
      × (still_here (record { student = hear st m; answers = rest })
          ≡ still_here (record { student = st; answers = m ∷ rest }))
hear-due Student.arriving m rest w = absurd (ground arith)
hear-due (Student.to_special o) m rest w = absurd (ground arith)
hear-due (Student.going_back o u) m rest w = absurd (ground arith)
hear-due Student.leaving m rest w = absurd (ground arith)
hear-due Student.gone m rest w = absurd (ground arith)
hear-due _ m rest w = ground arith

pub listen-Holds :
    {k : ℕ} {s : State} (i : ℕ) (st : Student) {m : Info} {rest : List Info}
    → Holds k s
    → get_elem? s.seats i ≡ some (record { student = st; answers = m ∷ rest })
    → waits st ≡ true
    → Holds k (listen i st m rest s)
unfolding requests office_owes clerk_owes in_flight
listen-Holds {s = s} i st {m} {rest} h e w =
    let old : Seat = record { student = st; answers = m ∷ rest } in
    let new : Seat = record { student = hear st m; answers = rest } in
    let (fewer, stays) = hear-due st m rest w in
    record {
      seats_size = length-set s.seats i new ∙ h.seats_size;
      desks_size = h.desks_size;
      normal_count = h.normal_count;
      urgent_count = h.urgent_count;
      accounts =
          accounts-set s (listen i st m rest s) i refl e (λ j ne. refl) (λ j ne. refl)
            (λ j ne. refl) h.accounts (hear-Account st m rest w (seat_at i h e));
      flow = omega (
        arith,
        h.flow,
        fewer,
        sum-set due s.seats i old new e,
        sum-set waiting_answers s.seats i old new e,
      );
      here = omega (arith, h.here, ap one_if stays, count-set still_here s.seats i old new e);
    }
