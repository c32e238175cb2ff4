-- ===== src/Kernel/Machine/Quiet.antt =====
-- Which steps leave which semaphores and condition variables alone.
use sdp_labs.Common.{ℕ, ◌≡◌, Bool, true, false, some, get_elem?, set, ◌==◌, if◌then◌else◌}
use sdp_labs.Common.Count.{All}
use sdp_labs.Kernel.Proc.{
  Proc, Table, Chan, Context, user, in_sem_wait, in_cond_wait, in_cond_relock, in_cond_lock, wakeup,
  kill, is_sleeping, Fits,
}
use sdp_labs.Kernel.Proc.Wakeup.{
  wakeup-Fits, set-Quiet, stay-Quiet, kill-Quiet, wakeup-Quiet, Quiet-refl, Quiet-trans,
}
use sdp_labs.Kernel.Semaphore.Balance
use sdp_labs.Kernel.Condition.Accounts
use sdp_labs.Kernel.Machine.Invariant.{SemQuiet, CondQuiet}

-- A place outside of every operation, or in one on semaphore `n`, or on condition variable `n`.
abbrev pub at_sem : ℕ → Context → Bool
at_sem n user = true
at_sem n (in_sem_wait m) = m == n
at_sem n (in_cond_wait m) = false
at_sem n (in_cond_relock m) = false
at_sem n (in_cond_lock m) = false

abbrev pub at_cond : ℕ → Context → Bool
at_cond n user = true
at_cond n (in_sem_wait m) = false
at_cond n (in_cond_wait m) = m == n
at_cond n (in_cond_relock m) = m == n
at_cond n (in_cond_lock m) = m == n

-- Every test of a place that the invariant uses is one of these.
module _ (n : ℕ) where
  pub SemQuiet-refl : (t : Table) → SemQuiet n t t
  SemQuiet-refl t = record { waits = Quiet-refl _ t }

  pub CondQuiet-refl : (t : Table) → CondQuiet n t t
  CondQuiet-refl t = record { waits = Quiet-refl _ t; locks = Quiet-refl _ t }

  pub CondQuiet-trans : {t u v : Table} → CondQuiet n t u → CondQuiet n u v → CondQuiet n t v
  CondQuiet-trans a b = record {
    waits = Quiet-trans _ a.waits b.waits;
    locks = Quiet-trans _ a.locks b.locks;
  }

  pub SemQuiet-trans : {t u v : Table} → SemQuiet n t u → SemQuiet n u v → SemQuiet n t v
  SemQuiet-trans a b = record { waits = Quiet-trans _ a.waits b.waits }

  pub wakeup-SemQuiet : (c : Chan) (t : Table) → SemQuiet n t (wakeup c t)
  wakeup-SemQuiet c t = record { waits = wakeup-Quiet _ c t }

  pub wakeup-CondQuiet : (c : Chan) (t : Table) → CondQuiet n t (wakeup c t)
  wakeup-CondQuiet c t = record { waits = wakeup-Quiet _ c t; locks = wakeup-Quiet _ c t }

  pub kill-SemQuiet : (pid : ℕ) (t : Table) → SemQuiet n t (kill pid t).0
  kill-SemQuiet pid t = record { waits = kill-Quiet _ pid t }

  pub kill-CondQuiet : (pid : ℕ) (t : Table) → CondQuiet n t (kill pid t).0
  kill-CondQuiet pid t = record { waits = kill-Quiet _ pid t; locks = kill-Quiet _ pid t }

  module _ (t : Table) (i : ℕ) (p q : Proc) (here : get_elem? t i ≡ some p) where
    -- Process `i` stays at its place, and does not fall asleep there.
    pub stay-SemQuiet :
        q.context ≡ p.context
        → (is_sleeping q.state ≡ true → is_sleeping p.state ≡ true)
        → SemQuiet n t (set t i q)
    stay-SemQuiet same up = record { waits = stay-Quiet _ t i p q here same up }

    pub stay-CondQuiet :
        q.context ≡ p.context
        → (is_sleeping q.state ≡ true → is_sleeping p.state ≡ true)
        → CondQuiet n t (set t i q)
    stay-CondQuiet same up = record {
      waits = stay-Quiet _ t i p q here same up;
      locks = stay-Quiet _ t i p q here same up;
    }

    -- Process `i` stays out of the places of semaphore `n`, or of condition variable `n`.
    pub set-SemQuiet :
        Balance.in_wait n p.context ≡ false
        → Balance.in_wait n q.context ≡ false
        → SemQuiet n t (set t i q)
    set-SemQuiet a b = record { waits = set-Quiet _ t i p q here a b }

    pub set-CondQuiet :
        Accounts.in_wait n p.context ≡ false
        → Accounts.in_wait n q.context ≡ false
        → Accounts.in_lock n p.context ≡ false
        → Accounts.in_lock n q.context ≡ false
        → CondQuiet n t (set t i q)
    set-CondQuiet a b c d = record {
      waits = set-Quiet _ t i p q here a b;
      locks = set-Quiet _ t i p q here c d;
    }

-- The wakeups under a test.
pub if-SemQuiet :
    (n : ℕ) (b : Bool) (c : Chan) (t : Table) → SemQuiet n t (if b then wakeup c t else t)
if-SemQuiet n true c t = wakeup-SemQuiet n c t
if-SemQuiet n false c t = SemQuiet-refl n t

pub if-CondQuiet :
    (n : ℕ) (b : Bool) (c : Chan) (t : Table) → CondQuiet n t (if b then wakeup c t else t)
if-CondQuiet n true c t = wakeup-CondQuiet n c t
if-CondQuiet n false c t = CondQuiet-refl n t

pub if-Fits :
    (b : Bool) (c : Chan) (t : Table) → All Fits t → All Fits (if b then wakeup c t else t)
if-Fits true c t h = wakeup-Fits c t h
if-Fits false c t h = h
