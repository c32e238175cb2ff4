-- ===== src/Lab03/Offices/Served.antt =====
-- Every step of the offices keeps the invariant: the steps of the offices and of the special office.
use sdp_labs.Common.{
  ℕ, suc, ◌≡◌, ◌∙◌, ap, refl, true, false, some, List, [], ◌∷◌, ◌++◌, length, get_elem?, set, arith,
  length-set,
}
use sdp_labs.Common.Count.{count, count-cons}
use sdp_labs.Common.Sum.{sum-set}
use sdp_labs.Lab03.Offices.{Info, Student, idle, got, Desk, State}
use sdp_labs.Lab03.Offices.Flow.{
  has_id, desk_owes, desk_requests, requests, office_owes, clerk_owes, in_flight, desk_load,
  KnowsOffice, IsOffice, with_clerk, office_due, clerk_due,
}
use sdp_labs.Lab03.Offices.Account.{Holds, accounts-same, urgent_count-set}

pub knows_snoc :
    (st : Student) (a : List Info) (m : Info)
    → KnowsOffice st a
    → (st ≡ Student.queued → a ≡ [] → IsOffice m.office_no)
    → KnowsOffice st (a ++ m ∷ [])
knows_snoc Student.queued [] m h new = new refl refl
knows_snoc Student.queued (x ∷ a) m h new = h
knows_snoc (Student.selected o) a m h new = h
knows_snoc (Student.to_special o) a m h new = h
knows_snoc (Student.at_special o) a m h new = h
knows_snoc (Student.received o) a m h new = h
knows_snoc (Student.going_back o u) a m h new = h
knows_snoc Student.arriving a m h new = tt
knows_snoc (Student.queued_again o) a m h new = tt
knows_snoc (Student.selected_again o) a m h new = tt
knows_snoc Student.leaving a m h new = tt
knows_snoc Student.gone a m h new = tt

-- A student waits for the offices or for the special office, not for both.
pub one_side :
    (st : Student)
    → (with_clerk st ≡ true → office_due st ≡ 0) × (with_clerk st ≡ false → clerk_due st ≡ 0)
one_side Student.arriving = ground arith
one_side _ = ground arith

-- An office takes `m` from its queue, or from the common one.
pub take_urgent-Holds :
    {k : ℕ} {s : State} (o n : ℕ) {m : Info} {q : List Info}
    → Holds k s
    → get_elem? s.desks o ≡ some (record { office = idle; urgent_q = m ∷ q; urgent = suc n })
    → Holds k
        (record s { desks = set s.desks o (record { office = got m; urgent_q = q; urgent = n }) })
unfolding requests office_owes clerk_owes in_flight
take_urgent-Holds {s = s} o n {m} {q} h e =
    let old : Desk = record { office = idle; urgent_q = m ∷ q; urgent = suc n } in
    let new : Desk = record { office = got m; urgent_q = q; urgent = n } in
    record {
      seats_size = h.seats_size;
      desks_size = length-set s.desks o new ∙ h.desks_size;
      normal_count = h.normal_count;
      urgent_count =
          urgent_count-set s.desks o new (omega (arith, h.urgent_count o old e)) h.urgent_count;
      accounts =
          accounts-same s (record s { desks = set s.desks o new }) refl
            (λ j.
              ground
                (arith, count-cons (has_id j) m q, sum-set (desk_requests j) s.desks o old new e))
            (λ j.
              ground (arith, count-cons (has_id j) m q, sum-set (desk_owes j) s.desks o old new e))
            (λ j. refl) h.accounts;
      flow = omega (arith, h.flow, sum-set desk_load s.desks o old new e);
      here = h.here;
    }

pub take_normal-Holds :
    {k : ℕ} {s : State} (o n : ℕ) {m : Info} {q urgent_q : List Info}
    → Holds k s
    → get_elem? s.desks o ≡ some (record { office = idle; urgent_q = urgent_q; urgent = 0 })
    → s.normal_q ≡ m ∷ q
    → s.normal ≡ suc n
    → Holds k (record s {
      normal_q = q;
      normal = n;
      desks = set s.desks o (record { office = got m; urgent_q = urgent_q; urgent = 0 });
    })
unfolding requests office_owes clerk_owes in_flight
take_normal-Holds {s = s} o n {m} {q} {urgent_q = u} h e f g =
    let old : Desk = record { office = idle; urgent_q = u; urgent = 0 } in
    let new : Desk = record { office = got m; urgent_q = u; urgent = 0 } in
    record {
      seats_size = h.seats_size;
      desks_size = length-set s.desks o new ∙ h.desks_size;
      normal_count = omega (arith, h.normal_count, g, ap length f);
      urgent_count = urgent_count-set s.desks o new (h.urgent_count o old e) h.urgent_count;
      accounts =
          accounts-same s (record s { normal_q = q; normal = n; desks = set s.desks o new }) refl
            (λ j. ground (
              arith,
              ap (count (has_id j)) f,
              count-cons (has_id j) m q,
              sum-set (desk_requests j) s.desks o old new e,
            ))
            (λ j. ground (
              arith,
              ap (count (has_id j)) f,
              count-cons (has_id j) m q,
              sum-set (desk_owes j) s.desks o old new e,
            ))
            (λ j. refl) h.accounts;
      flow = omega (arith, h.flow, ap length f, sum-set desk_load s.desks o old new e);
      here = h.here;
    }
