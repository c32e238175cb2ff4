-- ===== src/Kernel/Calls/Steps.antt =====
-- The numbers of the system calls on semaphores and condition variables, and the steps that the calls make.
use sdp_labs.Common.{
  ℕ, ◌≡◌, Bool, true, false, ◌⊎◌, inl, inr, refl, none, some, get_elem?, set, arith,
}
use sdp_labs.Common.Int.{ℤ, pos, minus_one}
use sdp_labs.Kernel.Args.{User, argint}
use sdp_labs.Kernel.Proc.{Proc, user}
use sdp_labs.Kernel.Proc.Wakeup.{standing}
use sdp_labs.Kernel.Semaphore.{Semaphore, sem_alloc, sem_init, sem_destroy, sem_wait, sem_post}
use sdp_labs.Kernel.Semaphore.Balance
use sdp_labs.Kernel.Condition.{
  Condition, cond_alloc, cond_set, cond_get, cond_destroy, cond_lock, cond_unlock, cond_signal,
  cond_broadcast,
}
use sdp_labs.Kernel.Machine.{
  Kernel, Step, Runs, Unused, put_sem, put_sem_table, put_cond, put_cond_table, cond_wait,
  sem_alloc_step, sem_init_step, sem_destroy_step, sem_wait_step, sem_post_step, cond_alloc_step,
  cond_set_step, cond_destroy_step, cond_lock_step, cond_unlock_step, cond_wait_step,
  cond_signal_step, cond_broadcast_step,
}
use sdp_labs.Kernel.Calls.{Call, Result, with_arg, call_entry, entry_of, syscall}

-- What the call with a number of syscall.h does, when its arguments can be
-- fetched and there is such an entry: the value it returns, and the kernel after it.
pub data Made (k : Kernel) (u : User) (i : ℕ) (p : Proc) : ℕ → ℤ → Kernel → Type 0 where
  sem_alloc_made :
      Made k u i p 5
        (sem_alloc k.semaphores).0
        (record k { semaphores = (sem_alloc k.semaphores).1 })
  sem_init_made :
      (n : ℕ) (v : ℤ) (s : Semaphore)
      → argint u 0 ≡ some (pos n)
      → argint u 1 ≡ some v
      → get_elem? k.semaphores n ≡ some s
      → Made k u i p 16 (pos 0) (record k { semaphores = set k.semaphores n (sem_init v s) })
  sem_destroy_made :
      (n : ℕ) (s : Semaphore)
      → argint u 0 ≡ some (pos n)
      → get_elem? k.semaphores n ≡ some s
      → Made k u i p 17 (pos 0) (record k { semaphores = set k.semaphores n (sem_destroy s) })
  sem_wait_made :
      (n : ℕ) (s : Semaphore)
      → argint u 0 ≡ some (pos n)
      → get_elem? k.semaphores n ≡ some s
      → Made k u i p 18 (pos 0) (put_sem k i n (sem_wait n p s))
  sem_post_made :
      (n : ℕ) (s : Semaphore)
      → argint u 0 ≡ some (pos n)
      → get_elem? k.semaphores n ≡ some s
      → Made k u i p 19 (pos 0) (put_sem_table k n (sem_post n s k.ptable))
  cond_alloc_made :
      Made k u i p 27
        (cond_alloc k.conditions).0
        (record k { conditions = (cond_alloc k.conditions).1 })
  cond_set_made :
      (n : ℕ) (v : ℤ) (c : Condition)
      → argint u 0 ≡ some (pos n)
      → argint u 1 ≡ some v
      → get_elem? k.conditions n ≡ some c
      → Made k u i p 28 (pos 0) (record k { conditions = set k.conditions n (cond_set v c) })
  cond_get_made :
      (n : ℕ) (c : Condition)
      → argint u 0 ≡ some (pos n)
      → get_elem? k.conditions n ≡ some c
      → Made k u i p 29 (cond_get c) (k)
  cond_destroy_made :
      (n : ℕ) (c : Condition)
      → argint u 0 ≡ some (pos n)
      → get_elem? k.conditions n ≡ some c
      → Made k u i p 30 (pos 0) (record k { conditions = set k.conditions n (cond_destroy c) })
  cond_lock_made :
      (n : ℕ) (c : Condition)
      → argint u 0 ≡ some (pos n)
      → get_elem? k.conditions n ≡ some c
      → Made k u i p 31 (pos 0) (put_cond k i n (cond_lock n p c))
  cond_unlock_made :
      (n : ℕ) (c : Condition)
      → argint u 0 ≡ some (pos n)
      → get_elem? k.conditions n ≡ some c
      → Made k u i p 32 (pos 0) (put_cond_table k n (cond_unlock n c k.ptable))
  cond_wait_made :
      (n : ℕ) (c : Condition)
      → argint u 0 ≡ some (pos n)
      → get_elem? k.conditions n ≡ some c
      → Made k u i p 33 (pos 0) (cond_wait k i n p c)
  cond_signal_made :
      (n : ℕ) (c : Condition)
      → argint u 0 ≡ some (pos n)
      → get_elem? k.conditions n ≡ some c
      → Made k u i p 34 (pos 0) (put_cond_table k n (cond_signal n c k.ptable))
  cond_broadcast_made :
      (n : ℕ) (c : Condition)
      → argint u 0 ≡ some (pos n)
      → get_elem? k.conditions n ≡ some c
      → Made k u i p 35 (pos 0) (put_cond_table k n (cond_broadcast n c k.ptable))

-- Nobody stands in `sem_wait` of a semaphore that `c` initialises, or in an operation on an entry that
-- `c` hands out.
pub record Idle (k : Kernel) (u : User) (c : Call) : Type 0 where
  pub sems :
      (n : ℕ)
      → c ≡ Call.sem_init_call
      → argint u 0 ≡ some (pos n)
      → standing (Balance.in_wait n) k.ptable ≡ 0
  pub conds :
      (n : ℕ) → c ≡ Call.cond_alloc_call → (cond_alloc k.conditions).0 ≡ pos n → Unused n k.ptable

module _ {k : Kernel} {i : ℕ} {p : Proc} (run : Runs k i p user) (u : User) where
  -- For a process that runs in user code and calls by a number of a semaphore or condition variable, when
  -- nobody waits in a semaphore that the call initialises nor stands in an operation on an entry that it
  -- hands out: if the arguments can be fetched and the entry is there, `syscall` returns the value of
  -- the operation of that number in syscall.h and leaves the kernel that the operation gives, and this
  -- is a step of the kernel, or nothing changes.
  pub syscall-Made :
      {num : ℕ} {r : ℤ} {k' : Kernel}
      → ((c : Call) → entry_of (pos num) ≡ some c → Idle k u c)
      → Made k u i p num r k'
      → (syscall (pos num) k u i p ≡ some (r, k')) × ((k' ≡ k) ⊎ Step k k')
  unfolding syscall call_entry
  syscall-Made idle sem_alloc_made = (refl, inr sem_alloc_step)
  syscall-Made idle (sem_init_made n v s a b e) = (
    ground (arith, a, b, e),
    inr (sem_init_step n v e ((idle Call.sem_init_call refl).sems n refl a)),
  )
  syscall-Made idle cond_alloc_made =
      (refl, inr (cond_alloc_step (λ n e. (idle Call.cond_alloc_call refl).conds n refl e)))
  syscall-Made idle (cond_set_made n v c a b e) =
      (ground (arith, a, b, e), inr (cond_set_step n v e))
  syscall-Made idle (cond_get_made n c a e) = (ground (arith, a, e), inl refl)
  syscall-Made idle (sem_destroy_made n s a e) = (ground (arith, a, e), inr (sem_destroy_step n e))
  syscall-Made idle (sem_post_made n s a e) = (ground (arith, a, e), inr (sem_post_step n e))
  syscall-Made idle (sem_wait_made n s a e) = (ground (arith, a, e), inr (sem_wait_step i n run e))
  syscall-Made idle (cond_destroy_made n c a e) =
      (ground (arith, a, e), inr (cond_destroy_step n e))
  syscall-Made idle (cond_unlock_made n c a e) = (ground (arith, a, e), inr (cond_unlock_step n e))
  syscall-Made idle (cond_signal_made n c a e) = (ground (arith, a, e), inr (cond_signal_step n e))
  syscall-Made idle (cond_broadcast_made n c a e) =
      (ground (arith, a, e), inr (cond_broadcast_step n e))
  syscall-Made idle (cond_lock_made n c a e) =
      (ground (arith, a, e), inr (cond_lock_step i n run e))
  syscall-Made idle (cond_wait_made n c a e) =
      (ground (arith, a, e), inr (cond_wait_step i n run e))

with_arg-none :
    (k : Kernel) (u : User) (n : ℕ) (f : ℤ → Result)
    → argint u n ≡ none
    → with_arg k u n f ≡ some (minus_one, k)
with_arg-none k u n f e = ground (arith, e)

-- The calls that take arguments, and so do not work without.
abbrev pub takes_arg : Call → Bool
takes_arg Call.other = false
takes_arg Call.sem_alloc_call = false
takes_arg Call.cond_alloc_call = false
takes_arg _ = true

entry_refuses :
    (c : Call) (k : Kernel) (u : User) (i : ℕ) (p : Proc)
    → takes_arg c ≡ true
    → argint u 0 ≡ none
    → call_entry c k u i p ≡ some (minus_one, k)
unfolding call_entry
entry_refuses Call.other k u i p t e = absurd (ground arith)
entry_refuses Call.sem_alloc_call k u i p t e = absurd (ground arith)
entry_refuses Call.cond_alloc_call k u i p t e = absurd (ground arith)
entry_refuses _ k u i p t e = with_arg-none k u 0 _ e

-- A call number for which the array has no entry, and a call with arguments whose first argument is
-- not in the memory of the process, return -1 and leave the kernel as it was.
pub syscall_refuses :
    (num : ℤ) (k : Kernel) (u : User) (i : ℕ) (p : Proc)
    → (entry_of num ≡ none)
      ⊎ ((c : Call) × (entry_of num ≡ some c) × (takes_arg c ≡ true) × (argint u 0 ≡ none))
    → syscall num k u i p ≡ some (minus_one, k)
unfolding syscall
syscall_refuses num k u i p (inl e) = ground (arith, e)
syscall_refuses num k u i p (inr (c, e, t, bad)) = ground (arith, e, entry_refuses c k u i p t bad)
