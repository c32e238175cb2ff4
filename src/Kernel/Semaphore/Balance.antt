-- ===== src/Kernel/Semaphore/Balance.antt =====
-- The accounts of one semaphore against the processes in its `sem_wait`, kept by every operation.
use sdp_labs.Common.{
  ℕ, ◌+◌, ◌≤◌, ◌<◌, ◌≡◌, Bool, false, some, arith, get_elem?, set, ◌==◌, Bool-cases, inl, inr,
}
use sdp_labs.Common.Count.{All, one_if}
use sdp_labs.Common.Int.{ℤ, pos, ◌+ℤ◌, ◌-ℤ◌, ◌≤ℤ◌, ltb_ℤ}
use sdp_labs.Kernel.Proc.{
  Proc, Table, Chan, Context, user, in_sem_wait, in_cond_wait, in_cond_relock, in_cond_lock,
  running, is_sleeping, fall_asleep, tidy_up, Fits,
}
use sdp_labs.Kernel.Proc.Wakeup.{
  standing-set, asleep-set, asleep-le-standing, standing, asleep, standing-wakeup, asleep-wakeup,
}
use sdp_labs.Kernel.Semaphore.{
  Semaphore, sem_init, sem_wait_loop, sem_wait, sem_wait_resume, sem_post,
}

-- Inside `sem_wait(sn)`, behind the call of `sleep`.
abbrev pub in_wait : ℕ → Context → Bool
in_wait sn user = false
in_wait sn (in_sem_wait m) = m == sn
in_wait sn (in_cond_wait m) = false
in_wait sn (in_cond_relock m) = false
in_wait sn (in_cond_lock m) = false

-- `count` is `tokens` less the waiting processes, and as long as one of them sleeps there is no token.
pub record Balanced (sn : ℕ) (s : Semaphore) (t : Table) : Type 0 where
  pub owed : s.count +ℤ pos (standing (in_wait sn) t) ≡ s.tokens
  pub drained : 0 < asleep (in_wait sn) t → s.tokens ≤ℤ pos 0

module _ (sn : ℕ) {s : Semaphore} {t : Table} (b : Balanced sn s t) (fit : All Fits t) where
  pub sem_post-Balanced : let (s', t') = sem_post sn s t in Balanced sn s' t'
  unfolding sem_post ◌+ℤ◌
  sem_post-Balanced = ground (
    arith,
    b.owed,
    b.drained,
    asleep-le-standing (in_wait sn) t,
    standing-wakeup (in_wait sn) (Chan.sem_q sn) t,
    asleep-wakeup (in_wait sn) (Chan.sem_q sn) t (λ p f w z. ground arith) fit,
  )

-- The loop of `sem_wait`, with `n` the waiting processes and the caller among them. The table still
-- has the caller as it was, `old`.
module _ (sn : ℕ) (t : Table) (i : ℕ) (old p : Proc) (here : get_elem? t i ≡ some old) where
  sem_wait_loop-Balanced :
      (s : Semaphore) (n : ℕ)
      → is_sleeping old.state ≡ false
      → n + one_if (in_wait sn old.context) ≡ standing (in_wait sn) t + 1
      → s.count +ℤ pos n ≡ s.tokens
      → (0 < asleep (in_wait sn) t → s.tokens ≤ℤ pos 0)
      → let (p', s') = sem_wait_loop sn p s in Balanced sn s' (set t i p')
  unfolding sem_wait_loop ◌+ℤ◌
  sem_wait_loop-Balanced s n up total owed drained = elim (Bool-cases (ltb_ℤ s.tokens (pos 1))) [
    | inl lack ↦ rw lack (
        ground (
          arith,
          standing-set (in_wait sn) t i old asleep_now here,
          asleep-set (in_wait sn) t i old asleep_now here,
        ))
    | inr got ↦ rw got (
        ground (
          arith,
          standing-set (in_wait sn) t i old back here,
          asleep-set (in_wait sn) t i old back here,
        ))
  ]
    where
      asleep_now : Proc
      asleep_now = fall_asleep (Chan.sem_q sn) (in_sem_wait sn) p

      back : Proc
      back = record p { context = user }

module _ (sn : ℕ) {s : Semaphore} {t : Table} (i : ℕ) {p : Proc} (b : Balanced sn s t)
    (here : get_elem? t i ≡ some p) (runs : p.state ≡ running) where
  pub sem_wait-Balanced :
      p.context ≡ user → let (p', s') = sem_wait sn p s in Balanced sn s' (set t i p')
  unfolding sem_wait ◌+ℤ◌
  sem_wait-Balanced e =
      sem_wait_loop-Balanced sn t i p p here (record s { count = s.count -ℤ pos 1 })
        (standing (in_wait sn) t + 1) (ground arith) (ground arith) (ground (arith, b.owed))
        (λ h. ground (arith, b.drained h))

  pub sem_wait_resume-Balanced :
      p.context ≡ in_sem_wait sn
      → let (p', s') = sem_wait_resume sn p s in Balanced sn s' (set t i p')
  unfolding sem_wait_resume
  sem_wait_resume-Balanced e =
      sem_wait_loop-Balanced sn t i p (tidy_up p) here s (standing (in_wait sn) t) (ground arith)
        (ground arith) b.owed b.drained

-- Whatever moves no process into or out of `sem_wait(sn)` and puts none to sleep there.
pub Balanced-frame :
    (sn : ℕ) {s : Semaphore} (t t' : Table)
    → standing (in_wait sn) t' ≡ standing (in_wait sn) t
    → asleep (in_wait sn) t' ≤ asleep (in_wait sn) t
    → Balanced sn s t
    → Balanced sn s t'
unfolding ◌+ℤ◌
Balanced-frame sn t t' e le b = ground (arith, b.owed, b.drained)

-- `sem_init` while nobody waits.
pub sem_init-Balanced :
    (sn : ℕ) (v : ℤ) (s : Semaphore) {t : Table}
    → standing (in_wait sn) t ≡ 0
    → Balanced sn (sem_init v s) t
unfolding ◌+ℤ◌
sem_init-Balanced sn v s {t} idle = ground (arith, asleep-le-standing (in_wait sn) t)
