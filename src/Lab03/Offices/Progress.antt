-- ===== src/Lab03/Offices/Progress.antt =====
-- Some thread can move as long as a student is there.
use sdp_labs.Common.{
  ℕ, ◌+◌, ◌*◌, ◌≤◌, ◌<◌, ◌≡◌, ◌∙◌, ap, refl, true, false, some, List, [], ◌∷◌, length, get_elem?,
  arith, dec_lt, get-lt-length, if◌then◌else◌, ◌==◌,
}
use sdp_labs.Common.Count.{count_le_length, count-found}
use sdp_labs.Common.Sum.{sum, sum-pos}
use sdp_labs.Lab03.Offices.{
  Info, Student, Office, idle, got, told, State, Step, arrives, hears, asks, goes_back, leaves,
  takes_urgent, takes_normal, tells, answers_step, clerk_takes, clerk_tells, clerk_answers, Reach,
  queue_maxdim,
}
use sdp_labs.Lab03.Offices.Flow.{
  has_id, owes, desk_owes, office_owes, clerk_owes, still_here, desk_load, load, with_clerk,
  office_due, clerk_due,
}
use sdp_labs.Lab03.Offices.Account.{Holds, seat_at}
use sdp_labs.Lab03.Offices.Room.{served, clerk_served, normal-room, urgent-room}
use sdp_labs.Lab03.Offices.Safety.{Reach-Holds}

abbrev CanMove : State → Type 0
CanMove s = (t : State) × Step s t

own : (m : Info) (n : ℕ) → (if m.id == m.id then n else 0) ≡ n
own m n = ground arith

take_common :
    {k : ℕ} {s : State} (o : ℕ) (q : List Info)
    → Holds k s
    → get_elem? s.desks o ≡ some (record { office = idle; urgent_q = []; urgent = 0 })
    → s.normal_q ≡ q
    → 0 < length q
    → CanMove s
take_common o [] h e f p = absurd (omega arith)
take_common o (m ∷ q) h e f p = (_, takes_normal o (length q) e f (h.normal_count ∙ ap length f))

-- An office that has something to do, or could take from the common queue.
desk_moves :
    {k : ℕ} {s : State} (o : ℕ) (p : Office) (q : List Info) (u : ℕ)
    → Holds k s
    → get_elem? s.desks o ≡ some (record { office = p; urgent_q = q; urgent = u })
    → 0 < desk_load (record { office = p; urgent_q = q; urgent = u }) + length s.normal_q
    → CanMove s
desk_moves {s = s} o idle [] u h e l =
    let none_urgent = h.urgent_count o (record { office = idle; urgent_q = []; urgent = u }) e in
    take_common o s.normal_q h
      (e ∙ ap (λ n. some (record { office = idle; urgent_q = []; urgent = n })) none_urgent) refl
      (omega arith)
desk_moves o idle (m ∷ q) u h e l =
    let counted = h.urgent_count o (record { office = idle; urgent_q = m ∷ q; urgent = u }) e in
    (
      _,
      takes_urgent o (length q)
          (e ∙ ap (λ n. some (record { office = idle; urgent_q = m ∷ q; urgent = n })) counted),
    )
desk_moves o (got m) q u h e l =
    let (seat, f, room) = served o m.id h e (omega (arith, own m 2)) in (_, tells o m e refl f room)
desk_moves o (told m) q u h e l =
    let (seat, f, room) = served o m.id h e (omega (arith, own m 1)) in
    (_, answers_step o m true e refl f room)

clerk_moves :
    {k : ℕ} {s : State} (p : Office) (q : List Info)
    → Holds k s
    → s.clerk ≡ p
    → s.special_q ≡ q
    → 0 < 2 * length q + load p
    → CanMove s
clerk_moves idle [] h e f l = absurd (omega arith)
clerk_moves idle (m ∷ q) h e f l = (_, clerk_takes e f)
clerk_moves (got m) q h e f l =
    let (seat, g, room) = clerk_served m.id h (omega (arith, own m 2, ap (owes m.id) e)) in
    (_, clerk_tells m e g room)
clerk_moves (told m) q h e f l =
    let (seat, g, room) = clerk_served m.id h (omega (arith, own m 1, ap (owes m.id) e)) in
    (_, clerk_answers m e g room)

owes-le-load : (i : ℕ) (p : Office) → owes i p ≤ load p
owes-le-load i idle = omega arith
owes-le-load i (got m) = ground arith
owes-le-load i (told m) = ground arith

-- When a student waits for the offices, one of them moves.
office_moves : {k : ℕ} {s : State} (i : ℕ) → Holds k s → 0 < office_owes i s → CanMove s
unfolding office_owes
office_moves {s = s} i h p = elim (dec_lt 0 (sum (desk_owes i) s.desks)) [
  | yes q ↦
      let (o, d, e, l) = sum-pos (desk_owes i) s.desks q in
      desk_moves o d.office d.urgent_q d.urgent h e
        (omega (arith, l, owes-le-load i d.office, count_le_length (has_id i) d.urgent_q))
  | no q ↦
      let (d, e) = get-lt-length s.desks 0 (omega (arith, h.desks_size)) in
      desk_moves 0 d.office d.urgent_q d.urgent h e
        (omega (arith, p, count_le_length (has_id i) s.normal_q))
]

special_moves : {k : ℕ} {s : State} (i : ℕ) → Holds k s → 0 < clerk_owes i s → CanMove s
unfolding clerk_owes
special_moves {s = s} i h p =
    clerk_moves s.clerk s.special_q h refl refl
      (omega (arith, p, owes-le-load i s.clerk, count_le_length (has_id i) s.special_q))

waits_offices :
    {k : ℕ} {s : State} (i : ℕ) (st : Student)
    → Holds k s
    → get_elem? s.seats i ≡ some (record { student = st; answers = [] })
    → with_clerk st ≡ false
    → 0 < office_due st
    → CanMove s
waits_offices i st h e w p = office_moves i h (ground (arith, (seat_at i h e).by_offices))

waits_clerk :
    {k : ℕ} {s : State} (i : ℕ) (st : Student)
    → Holds k s
    → get_elem? s.seats i ≡ some (record { student = st; answers = [] })
    → with_clerk st ≡ true
    → 0 < clerk_due st
    → CanMove s
waits_clerk i st h e w p = special_moves i h (ground (arith, (seat_at i h e).by_clerk))

-- A student who is not gone moves, or one that he waits for does.
seat_moves :
    {k : ℕ} {s : State} (i : ℕ) (st : Student) (a : List Info)
    → k ≤ queue_maxdim
    → Holds k s
    → get_elem? s.seats i ≡ some (record { student = st; answers = a })
    → still_here (record { student = st; answers = a }) ≡ true
    → CanMove s
seat_moves i Student.arriving a le h e w = (_, arrives i e (normal-room i le h e refl).0)
seat_moves i Student.queued (m ∷ a) le h e w = (_, hears i Student.queued e refl)
seat_moves i Student.queued [] le h e w = waits_offices i Student.queued h e refl (omega arith)
seat_moves i (Student.selected o) (m ∷ a) le h e w = (_, hears i (Student.selected o) e refl)
seat_moves i (Student.selected o) [] le h e w =
    waits_offices i (Student.selected o) h e refl (omega arith)
seat_moves i (Student.to_special o) a le h e w = (_, asks i e (normal-room i le h e refl).1)
seat_moves i (Student.at_special o) (m ∷ a) le h e w = (_, hears i (Student.at_special o) e refl)
seat_moves i (Student.at_special o) [] le h e w =
    waits_clerk i (Student.at_special o) h e refl (omega arith)
seat_moves i (Student.received o) (m ∷ a) le h e w = (_, hears i (Student.received o) e refl)
seat_moves i (Student.received o) [] le h e w =
    waits_clerk i (Student.received o) h e refl (omega arith)
seat_moves {s = s} i (Student.going_back o u) a le h e w =
    let (n, small, is_n) = (seat_at i h e).knows in
    let (d, f) = get-lt-length s.desks n (omega (arith, h.desks_size, small)) in
    let e' = e ∙ ap (λ z. some (record { student = Student.going_back z u; answers = a })) is_n in
    (_, goes_back i n e' f (urgent-room i n le h e refl f))
seat_moves i (Student.queued_again o) (m ∷ a) le h e w =
    (_, hears i (Student.queued_again o) e refl)
seat_moves i (Student.queued_again o) [] le h e w =
    waits_offices i (Student.queued_again o) h e refl (omega arith)
seat_moves i (Student.selected_again o) (m ∷ a) le h e w =
    (_, hears i (Student.selected_again o) e refl)
seat_moves i (Student.selected_again o) [] le h e w =
    waits_offices i (Student.selected_again o) h e refl (omega arith)
seat_moves i Student.leaving a le h e w = (_, leaves i e)
seat_moves i Student.gone a le h e w = absurd (ground arith)

-- With at most QUEUE_MAXDIM students, until the last one is gone some thread can take a step.
no_deadlock :
    {k : ℕ} {s : State} → k ≤ queue_maxdim → Reach k s → 0 < s.st_count → (t : State) × Step s t
no_deadlock {s = s} le r p =
    let h = Reach-Holds r in
    let (i, seat, e, w) = count-found still_here s.seats (omega (arith, h.here, p)) in
    seat_moves i seat.student seat.answers le h e w
