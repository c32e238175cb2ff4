-- ===== src/Lab03/Offices/Clerk.antt =====
-- Every step of the offices keeps the invariant: the steps of the special office.
use sdp_labs.Common.{
  ℕ, ◌+◌, ◌≡◌, ◌==◌, ◌∙◌, ap, refl, inl, inr, some, List, ◌∷◌, length, get_elem?, set,
  if◌then◌else◌, arith, length-set, Bool-cases,
}
use sdp_labs.Common.Count.{count, count-cons, count-set}
use sdp_labs.Common.Int.{pos, minus_one}
use sdp_labs.Common.Sum.{sum-set}
use sdp_labs.Lab03.Offices.{Info, Seat, Office, idle, got, told, State, answer}
use sdp_labs.Lab03.Offices.Flow.{
  has_id, owes, requests, office_owes, clerk_owes, Account, in_flight, due, still_here, load,
  waiting_answers, with_clerk,
}
use sdp_labs.Lab03.Offices.Account.{Holds, accounts-set, accounts-same, seat_at, length-snoc}
use sdp_labs.Lab03.Offices.Served.{knows_snoc, one_side}

-- The account of a student who gets an answer from the special office.
clerk_answer-Account :
    {c x y y' : ℕ} (seat : Seat) (r : Info)
    → Account c x y seat
    → y ≡ y' + 1
    → Account c x y' (answer seat r)
clerk_answer-Account seat r a less = elim (Bool-cases (with_clerk seat.student)) [
  | inl t ↦ record {
    by_offices = ground (arith, a.by_offices);
    by_clerk = ground (arith, a.by_clerk, length-snoc seat.answers r);
    single = a.single;
    knows =
        knows_snoc seat.student seat.answers r a.knows
          (λ q _. absurd (ground (arith, ap with_clerk q)));
  }
  | inr f ↦ absurd (ground (arith, a.by_clerk, (one_side seat.student).1 f))
]

-- The special office sends the answer `r`, and is at `clerk` then.
clerk_reply-Holds :
    {k : ℕ} {s : State} (clerk : Office) (r : Info) {seat : Seat}
    → Holds k s
    → get_elem? s.seats r.id ≡ some seat
    → ((j : ℕ) → owes j s.clerk ≡ owes j clerk + (if r.id == j then 1 else 0))
    → load s.clerk ≡ load clerk + 1
    → Holds k (record s { clerk = clerk; seats = set s.seats r.id (answer seat r) })
unfolding requests office_owes clerk_owes in_flight
clerk_reply-Holds {s = s} clerk r {seat} h f less lighter =
    let i : ℕ = r.id in
    let told_seat : Seat = answer seat r in
    let s' : State = record s { clerk = clerk; seats = set s.seats i told_seat } in
    record {
      seats_size = length-set s.seats i told_seat ∙ h.seats_size;
      desks_size = h.desks_size;
      normal_count = h.normal_count;
      urgent_count = h.urgent_count;
      accounts =
          accounts-set s s' i refl f (λ j ne. refl) (λ j ne. refl) (λ j ne. ground (arith, less j))
            h.accounts (clerk_answer-Account seat r (seat_at i h f) (ground (arith, less i)));
      flow = omega (
        arith,
        h.flow,
        lighter,
        length-snoc seat.answers r,
        sum-set due s.seats i seat told_seat f,
        sum-set waiting_answers s.seats i seat told_seat f,
      );
      here = omega (arith, h.here, count-set still_here s.seats i seat told_seat f);
    }

pub clerk_takes-Holds :
    {k : ℕ} {s : State} {m : Info} {q : List Info}
    → Holds k s
    → s.clerk ≡ idle
    → s.special_q ≡ m ∷ q
    → Holds k (record s { special_q = q; clerk = got m })
unfolding requests office_owes clerk_owes in_flight
clerk_takes-Holds {s = s} {m} {q} h e f = record {
  seats_size = h.seats_size;
  desks_size = h.desks_size;
  normal_count = h.normal_count;
  urgent_count = h.urgent_count;
  accounts =
      accounts-same s (record s { special_q = q; clerk = got m }) refl (λ j. refl) (λ j. refl)
        (λ j. ground (arith, ap (count (has_id j)) f, count-cons (has_id j) m q, ap (owes j) e))
        h.accounts;
  flow = omega (arith, h.flow, ap length f, ap load e);
  here = h.here;
}

pub clerk_tells-Holds :
    {k : ℕ} {s : State} (m : Info) {seat : Seat}
    → Holds k s
    → s.clerk ≡ got m
    → get_elem? s.seats m.id ≡ some seat
    → Holds k (record s {
      clerk = told m;
      seats = set s.seats m.id (answer seat (record m { urgent = minus_one }));
    })
clerk_tells-Holds m h at f =
    clerk_reply-Holds (told m) (record m { urgent = minus_one }) h f
      (λ j. ground (arith, ap (owes j) at)) (omega (arith, ap load at))

pub clerk_answers-Holds :
    {k : ℕ} {s : State} (m : Info) {seat : Seat}
    → Holds k s
    → s.clerk ≡ told m
    → get_elem? s.seats m.id ≡ some seat
    → Holds k (record s {
      clerk = idle;
      seats = set s.seats m.id (answer seat (record m { urgent = pos 1 }));
    })
clerk_answers-Holds m h at f =
    clerk_reply-Holds idle (record m { urgent = pos 1 }) h f (λ j. ground (arith, ap (owes j) at))
      (omega (arith, ap load at))
