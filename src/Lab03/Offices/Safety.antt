-- ===== src/Lab03/Offices/Safety.antt =====
-- Every state that the offices reach keeps the invariant.
use sdp_labs.Common.{
  ℕ, ◌≡◌, ◌∙◌, ap, refl, Option, none, some, [], length, get_elem?, replicate, arith,
  length-replicate, replicate-entry, sym,
}
use mathlib.Core.Path.{subst}
use sdp_labs.Common.Count.{count, count-replicate}
use sdp_labs.Common.Sum.{sum, sum-replicate}
use sdp_labs.Lab03.Offices.{
  Student, Seat, idle, Desk, State, Step, arrives, hears, asks, goes_back, leaves, takes_urgent,
  takes_normal, tells, answers_step, clerk_takes, clerk_tells, clerk_answers, Reach, start, later,
  opened, num_offices,
}
use sdp_labs.Lab03.Offices.Flow.{
  requests, office_owes, clerk_owes, Account, AccountAt, in_flight, due, still_here,
  waiting_answers,
}
use sdp_labs.Lab03.Offices.Account.{Holds}
use sdp_labs.Lab03.Offices.Hears.{listen-Holds}
use sdp_labs.Lab03.Offices.Moves.{arrive-Holds, ask_special-Holds, go_back-Holds, leave-Holds}
use sdp_labs.Lab03.Offices.Served.{take_urgent-Holds, take_normal-Holds}
use sdp_labs.Lab03.Offices.Answers.{tells-Holds, answers-Holds}
use sdp_labs.Lab03.Offices.Clerk.{clerk_takes-Holds, clerk_tells-Holds, clerk_answers-Holds}

Step-Holds : {k : ℕ} {s t : State} → Holds k s → Step s t → Holds k t
Step-Holds h (arrives i e _) = arrive-Holds i h e
Step-Holds h (hears i st e w) = listen-Holds i st h e w
Step-Holds h (asks i e _) = ask_special-Holds i h e
Step-Holds h (goes_back i o e f _) = go_back-Holds i h o e f
Step-Holds h (leaves i e) = leave-Holds i h e
Step-Holds h (takes_urgent o n e) = take_urgent-Holds o n h e
Step-Holds h (takes_normal o n e f g) = take_normal-Holds o n h e f g
Step-Holds h (tells o m e at f _) = tells-Holds o m h e at f
Step-Holds h (answers_step o m sends e at f _) = answers-Holds o m sends h e at f
Step-Holds h (clerk_takes e f) = clerk_takes-Holds h e f
Step-Holds h (clerk_tells m at f _) = clerk_tells-Holds m h at f
Step-Holds h (clerk_answers m at f _) = clerk_answers-Holds m h at f

opened_account :
    (k i : ℕ) (o : Option Seat)
    → ((seat : Seat) → o ≡ some seat → seat ≡ record { student = Student.arriving; answers = [] })
    → AccountAt 0 0 0 o
opened_account k i none h = (refl, refl)
opened_account k i (some seat) h =
    subst (Account 0 0 0) (sym (h seat refl))
      (record { by_offices = refl; by_clerk = refl; single = omega arith; knows = tt })

opened-Holds : (k : ℕ) → Holds k (opened k)
unfolding requests office_owes clerk_owes in_flight count sum
opened-Holds k =
    let seat : Seat = record { student = Student.arriving; answers = [] } in
    let desk : Desk = record { office = idle; urgent_q = []; urgent = 0 } in
    record {
      seats_size = length-replicate k seat;
      desks_size = refl;
      normal_count = refl;
      urgent_count = λ o d e.
          let is_desk = replicate-entry num_offices o desk e in
          ap (λ x. x.urgent) is_desk ∙ ap (λ x. length x.urgent_q) (sym is_desk);
      accounts = λ i.
          opened_account k i (get_elem? (replicate k seat) i) (λ x e. replicate-entry k i seat e);
      flow =
          omega (arith, sum-replicate due k seat refl, sum-replicate waiting_answers k seat refl);
      here = sym (count-replicate still_here k seat);
    }

-- In every state that is reached, for every student: the answers that the offices still owe and those
-- that lie in answer_Q are together the answers that the student waits for, and the same for the
-- special office; one request at most is with the offices; the office number the student has is one.
-- The counters under `cond->lock` are the lengths of the queues, so that no `receive` there waits, and
-- st_count is the number of students who have not left.
pub Reach-Holds : {k : ℕ} {s : State} → Reach k s → Holds k s
Reach-Holds {k} start = opened-Holds k
Reach-Holds (later r t) = Step-Holds (Reach-Holds r) t
