-- ===== src/Kernel/Machine.antt =====
-- The whole kernel state of file.c and proc.c, and its steps: an interleaving of the sections that
-- the processes run under the locks. Every system call of lab06/src/sysfile.c that works on a
-- semaphore or a condition variable is a step, and so is each return of `sleep`.
pub mod Invariant
pub mod Initial
pub mod Quiet
pub mod Steps
pub mod CondSteps
pub mod Reachable
pub mod History
pub mod Grants
use sdp_labs.Common.{ℕ, ◌≡◌, Bool, true, false, List, Option, none, some, get_elem?, set}
use sdp_labs.Common.Int.{ℤ, pos}
use sdp_labs.Kernel.Proc.{
  Proc, Table, Context, user, in_sem_wait, in_cond_wait, in_cond_relock, in_cond_lock, runnable,
  running, dispatch, yield, kill,
}
use sdp_labs.Kernel.Proc.Wakeup.{standing}
use sdp_labs.Kernel.Semaphore.{
  Semaphore, sem_alloc, sem_init, sem_destroy, sem_wait, sem_wait_resume, sem_post,
}
use sdp_labs.Kernel.Semaphore.Balance
use sdp_labs.Kernel.Condition.{
  Condition, cond_alloc, cond_set, cond_destroy, cond_lock, cond_lock_resume, cond_unlock,
  cond_wait_enter, cond_wait_loop, cond_wait_resume, cond_relock_resume, cond_signal,
  cond_broadcast,
}
use sdp_labs.Kernel.Condition.Accounts

-- `ptable.proc`, `semaphore_table.semaphore` and `condition_table.condition`.
pub record Kernel : Type 0 where
  pub ptable : Table
  pub semaphores : List Semaphore
  pub conditions : List Condition

-- Writes back what an operation made of process `i` and of entry `n`, or of the table and the entry.
abbrev pub put_sem : Kernel → ℕ → ℕ → Proc × Semaphore → Kernel
put_sem k i n r = record k { ptable = set k.ptable i r.0; semaphores = set k.semaphores n r.1 }

abbrev pub put_sem_table : Kernel → ℕ → Semaphore × Table → Kernel
put_sem_table k n r = record k { ptable = r.1; semaphores = set k.semaphores n r.0 }

abbrev pub put_cond : Kernel → ℕ → ℕ → Proc × Condition → Kernel
put_cond k i n r = record k { ptable = set k.ptable i r.0; conditions = set k.conditions n r.1 }

abbrev pub put_cond_table : Kernel → ℕ → Condition × Table → Kernel
put_cond_table k n r = record k { ptable = r.1; conditions = set k.conditions n r.0 }

-- `cond_wait` from its call on: the wakeups of the unlock, then the loop of process `i`.
abbrev pub cond_wait : Kernel → ℕ → ℕ → Proc → Condition → Kernel
cond_wait k i n p c =
    let (c', t') = cond_wait_enter n c k.ptable in
    put_cond (record k { ptable = t' }) i n (cond_wait_loop n p c')

-- Process `i`, which the table shows as `p`, runs in user code, or at the place `at`.
pub record Runs (k : Kernel) (i : ℕ) (p : Proc) (at : Context) : Type 0 where
  pub entry : get_elem? k.ptable i ≡ some p
  pub state : p.state ≡ running
  pub place : p.context ≡ at

-- No process stands in an operation on condition variable `n`.
abbrev pub Unused : ℕ → Table → Type 0
Unused n t = (standing (Accounts.in_wait n) t ≡ 0) × (standing (Accounts.in_lock n) t ≡ 0)

-- One step. `elsewhere` is any other kernel or user code. A semaphore is initialised, and an entry of
-- the condition table is handed out again, only while no process stands in it.
pub data Step (k : Kernel) : Kernel → Type 0 where
  dispatch_step :
      (i : ℕ) {p : Proc}
      → get_elem? k.ptable i ≡ some p
      → Step k (record k { ptable = set k.ptable i (dispatch p) })
  yield_step :
      (i : ℕ) {p : Proc} {at : Context}
      → Runs k i p at
      → Step k (record k { ptable = set k.ptable i (yield p) })
  kill_step : (pid : ℕ) → Step k (record k { ptable = (kill pid k.ptable).0 })
  elsewhere :
      (i : ℕ) {p : Proc} (q : Proc)
      → get_elem? k.ptable i ≡ some p
      → p.context ≡ user
      → q.context ≡ user
      → Step k (record k { ptable = set k.ptable i q })
  sem_alloc_step : Step k (record k { semaphores = (sem_alloc k.semaphores).1 })
  sem_init_step :
      (n : ℕ) (v : ℤ) {s : Semaphore}
      → get_elem? k.semaphores n ≡ some s
      → standing (Balance.in_wait n) k.ptable ≡ 0
      → Step k (record k { semaphores = set k.semaphores n (sem_init v s) })
  sem_destroy_step :
      (n : ℕ) {s : Semaphore}
      → get_elem? k.semaphores n ≡ some s
      → Step k (record k { semaphores = set k.semaphores n (sem_destroy s) })
  sem_wait_step :
      (i n : ℕ) {p : Proc} {s : Semaphore}
      → Runs k i p user
      → get_elem? k.semaphores n ≡ some s
      → Step k (put_sem k i n (sem_wait n p s))
  sem_wait_again :
      (i n : ℕ) {p : Proc} {s : Semaphore}
      → Runs k i p (in_sem_wait n)
      → get_elem? k.semaphores n ≡ some s
      → Step k (put_sem k i n (sem_wait_resume n p s))
  sem_post_step :
      (n : ℕ) {s : Semaphore}
      → get_elem? k.semaphores n ≡ some s
      → Step k (put_sem_table k n (sem_post n s k.ptable))
  cond_alloc_step :
      ((n : ℕ) → (cond_alloc k.conditions).0 ≡ pos n → Unused n k.ptable)
      → Step k (record k { conditions = (cond_alloc k.conditions).1 })
  cond_set_step :
      (n : ℕ) (v : ℤ) {c : Condition}
      → get_elem? k.conditions n ≡ some c
      → Step k (record k { conditions = set k.conditions n (cond_set v c) })
  cond_destroy_step :
      (n : ℕ) {c : Condition}
      → get_elem? k.conditions n ≡ some c
      → Step k (record k { conditions = set k.conditions n (cond_destroy c) })
  cond_lock_step :
      (i n : ℕ) {p : Proc} {c : Condition}
      → Runs k i p user
      → get_elem? k.conditions n ≡ some c
      → Step k (put_cond k i n (cond_lock n p c))
  cond_lock_again :
      (i n : ℕ) {p : Proc} {c : Condition}
      → Runs k i p (in_cond_lock n)
      → get_elem? k.conditions n ≡ some c
      → Step k (put_cond k i n (cond_lock_resume n p c))
  cond_unlock_step :
      (n : ℕ) {c : Condition}
      → get_elem? k.conditions n ≡ some c
      → Step k (put_cond_table k n (cond_unlock n c k.ptable))
  cond_wait_step :
      (i n : ℕ) {p : Proc} {c : Condition}
      → Runs k i p user
      → get_elem? k.conditions n ≡ some c
      → Step k (cond_wait k i n p c)
  cond_wait_again :
      (i n : ℕ) {p : Proc} {c : Condition}
      → Runs k i p (in_cond_wait n)
      → get_elem? k.conditions n ≡ some c
      → Step k (put_cond k i n (cond_wait_resume n p c))
  cond_relock_again :
      (i n : ℕ) {p : Proc} {c : Condition}
      → Runs k i p (in_cond_relock n)
      → get_elem? k.conditions n ≡ some c
      → Step k (put_cond k i n (cond_relock_resume n p c))
  cond_signal_step :
      (n : ℕ) {c : Condition}
      → get_elem? k.conditions n ≡ some c
      → Step k (put_cond_table k n (cond_signal n c k.ptable))
  cond_broadcast_step :
      (n : ℕ) {c : Condition}
      → get_elem? k.conditions n ≡ some c
      → Step k (put_cond_table k n (cond_broadcast n c k.ptable))

pub data Reach (k : Kernel) : Kernel → Type 0 where
  start : Reach k k
  next : {u v : Kernel} → Reach k u → Step u v → Reach k v
