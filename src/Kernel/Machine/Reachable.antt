-- ===== src/Kernel/Machine/Reachable.antt =====
-- What holds in every state that the kernel reaches.
use sdp_labs.Common.{ℕ, ◌<◌, ◌≡◌, refl, Bool, true, false, ◌&&◌, some, arith, get_elem?}
use sdp_labs.Common.Count.{count-lt, count-pos}
use sdp_labs.Common.Int.{pos, ◌+ℤ◌, ◌≤ℤ◌}
use sdp_labs.Kernel.Proc.{Proc, Table, Context, in_sem_wait, is_sleeping}
use sdp_labs.Kernel.Proc.Wakeup.{standing, asleep}
use sdp_labs.Kernel.Semaphore.{Semaphore}
use sdp_labs.Kernel.Semaphore.Balance
use sdp_labs.Kernel.Condition.{Condition}
use sdp_labs.Kernel.Condition.Accounts
use sdp_labs.Kernel.Machine.{
  Kernel, Step, dispatch_step, yield_step, kill_step, elsewhere, sem_alloc_step, sem_init_step,
  sem_destroy_step, sem_wait_step, sem_wait_again, sem_post_step, cond_alloc_step, cond_set_step,
  cond_destroy_step, cond_lock_step, cond_lock_again, cond_unlock_step, cond_wait_step,
  cond_wait_again, cond_relock_again, cond_signal_step, cond_broadcast_step, Reach, start, next,
}
use sdp_labs.Kernel.Machine.Invariant.{Inv}
use sdp_labs.Kernel.Machine.Steps
use sdp_labs.Kernel.Machine.CondSteps

-- Every step keeps the invariant: whatever the processes do and however they are interleaved, the
-- accounts of each semaphore and of each condition variable agree with the process table.
-- (A step initialises a semaphore, or hands out an entry of the condition table, only while no process
-- stands in it.)
pub Step-Inv : {k k' : Kernel} → Inv k → Step k k' → Inv k'
Step-Inv inv (dispatch_step i e) = Steps.dispatch-Inv inv i e
Step-Inv inv (yield_step i r) = Steps.yield-Inv inv i r.entry
Step-Inv inv (kill_step pid) = Steps.kill-Inv inv pid
Step-Inv inv (elsewhere i q e a b) = Steps.elsewhere-Inv inv i q e a b
Step-Inv inv sem_alloc_step = Steps.sem_alloc-Inv inv
Step-Inv inv (sem_init_step n v {s} e idle) = Steps.sem_init-Inv inv n v s idle
Step-Inv inv (sem_destroy_step n e) = Steps.sem_destroy-Inv inv n e
Step-Inv inv (sem_wait_step i n r e) = Steps.sem_wait-Inv inv i n r e
Step-Inv inv (sem_wait_again i n r e) = Steps.sem_wait_resume-Inv inv i n r e
Step-Inv inv (sem_post_step n e) = Steps.sem_post-Inv inv n e
Step-Inv inv (cond_alloc_step idle) = CondSteps.cond_alloc-Inv inv idle
Step-Inv inv (cond_set_step n v e) = CondSteps.entry-Inv inv n _ e refl refl refl
Step-Inv inv (cond_destroy_step n e) = CondSteps.entry-Inv inv n _ e refl refl refl
Step-Inv inv (cond_lock_step i n r e) = CondSteps.cond_lock-Inv inv i n r e
Step-Inv inv (cond_lock_again i n r e) = CondSteps.cond_lock_resume-Inv inv i n r e
Step-Inv inv (cond_unlock_step n e) = CondSteps.cond_unlock-Inv inv n e
Step-Inv inv (cond_wait_step i n r e) = CondSteps.cond_wait-Inv inv i n r e
Step-Inv inv (cond_wait_again i n r e) = CondSteps.cond_wait_resume-Inv inv i n r e
Step-Inv inv (cond_relock_again i n r e) = CondSteps.cond_relock_resume-Inv inv i n r e
Step-Inv inv (cond_signal_step n e) = CondSteps.cond_signal-Inv inv n e
Step-Inv inv (cond_broadcast_step n e) = CondSteps.cond_broadcast-Inv inv n e

pub Reach-Inv : {k k' : Kernel} → Inv k → Reach k k' → Inv k'
Reach-Inv inv start = inv
Reach-Inv inv (next r st) = Step-Inv (Reach-Inv inv r) st

-- A process that stands at the places `w`, and does not sleep.
pub record AwakeAt (w : Context → Bool) (t : Table) : Type 0 where
  pub index : ℕ
  pub proc : Proc
  pub entry : get_elem? t index ≡ some proc
  pub place : w proc.context ≡ true
  pub up : is_sleeping proc.state ≡ false

awake_one : (w : Context → Bool) (t : Table) → asleep w t < standing w t → AwakeAt w t
awake_one w t h =
    let (i, p, e, a, b) =
      count-lt (λ p. w p.context) (λ p. w p.context && is_sleeping p.state) t h in
    record { index = i; proc = p; entry = e; place = a; up = ground arith }

module _ {k k' : Kernel} (inv : Inv k) (run : Reach k k') where
  -- In every state that a run from a kernel with the invariant reaches, `count` of a semaphore is
  -- `tokens` less the number of processes inside `sem_wait`.
  pub sem_count :
      (n : ℕ) {s : Semaphore}
      → get_elem? k'.semaphores n ≡ some s
      → s.count +ℤ pos (standing (Balance.in_wait n) k'.ptable) ≡ s.tokens
  sem_count n e = ((Reach-Inv inv run).sems n e).owed

  -- No wakeup of a semaphore is lost: in every state that a run from a kernel with the invariant
  -- reaches, as long as some process sleeps in `sem_wait` of a semaphore, that semaphore has no token.
  pub sem_no_lost_wakeup :
      (n : ℕ) {s : Semaphore} (i : ℕ) {p : Proc}
      → get_elem? k'.semaphores n ≡ some s
      → get_elem? k'.ptable i ≡ some p
      → p.context ≡ in_sem_wait n
      → is_sleeping p.state ≡ true
      → s.tokens ≤ℤ pos 0
  sem_no_lost_wakeup n {s} i {p} e here at down = ((Reach-Inv inv run).sems n e).drained sleeper
    where
      sleeper : 0 < asleep (Balance.in_wait n) k'.ptable
      sleeper =
          count-pos (λ p. Balance.in_wait n p.context && is_sleeping p.state) k'.ptable i here
            (ground arith)

  -- In every state that a run from a kernel with the invariant reaches, the `count` of a condition
  -- variable is the number of processes in the first loop of its `cond_wait`, and its tokens are at
  -- least 0 and at most that number.
  pub cond_accounts :
      (n : ℕ) {c : Condition}
      → get_elem? k'.conditions n ≡ some c
      → (c.count ≡ pos (standing (Accounts.in_wait n) k'.ptable))
        × (pos 0 ≤ℤ c.resurrection_token)
        × (c.resurrection_token ≤ℤ c.count)
  cond_accounts n e =
      let a = (Reach-Inv inv run).conds n e in
      (a.counted, a.nonneg, ground (arith, a.counted, a.bounded))

  -- No signal is lost: in every state that a run from a kernel with the invariant reaches and in which a
  -- condition variable has a resurrection token, no process sleeps in the first loop of its `cond_wait`, and some process in that loop is awake.
  pub cond_no_lost_signal :
      (n : ℕ) {c : Condition}
      → get_elem? k'.conditions n ≡ some c
      → pos 1 ≤ℤ c.resurrection_token
      → (asleep (Accounts.in_wait n) k'.ptable ≡ 0) × AwakeAt (Accounts.in_wait n) k'.ptable
  cond_no_lost_signal n {c} e token =
      let a = (Reach-Inv inv run).conds n e in
      (
        ground (arith, a.drained),
        awake_one (Accounts.in_wait n) k'.ptable (ground (arith, a.drained, a.bounded)),
      )

  -- In every state that a run from a kernel with the invariant reaches, a process that sleeps for the lock of a condition variable, in
  -- `cond_lock` or in the second loop of `cond_wait`, finds the lock held: nobody sleeps on a free lock.
  pub cond_lock_held :
      (n : ℕ) {c : Condition} (i : ℕ) {p : Proc}
      → get_elem? k'.conditions n ≡ some c
      → get_elem? k'.ptable i ≡ some p
      → Accounts.in_lock n p.context ≡ true
      → is_sleeping p.state ≡ true
      → c.locked ≡ true
  cond_lock_held n {c} i {p} e here at down =
      ground (arith, ((Reach-Inv inv run).conds n e).free, sleeper)
    where
      sleeper : 0 < asleep (Accounts.in_lock n) k'.ptable
      sleeper =
          count-pos (λ p. Accounts.in_lock n p.context && is_sleeping p.state) k'.ptable i here
            (ground arith)
