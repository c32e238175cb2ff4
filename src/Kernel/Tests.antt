-- ===== src/Kernel/Tests.antt =====
-- The theorems on the kernel at concrete runs: two processes, one semaphore, one condition variable.
use sdp_labs.Common.{
  ℕ, zero, suc, ◌+◌, ◌≡◌, ◌⊎◌, refl, Bool, true, false, none, some, [], ◌∷◌, arith, get_elem?,
  none_ne_some, ◌≤◌, ◌<◌, ◌==◌, if◌then◌else◌,
}
use sdp_labs.Common.Count.{count, one_if}
use sdp_labs.Common.Int.{pos, negsuc, ◌+ℤ◌, ◌≤ℤ◌}
use sdp_labs.Kernel.Proc.{Proc, user, running}
use sdp_labs.Kernel.Proc.Wakeup.{standing, asleep}
use sdp_labs.Kernel.Semaphore.{Semaphore, sem_wait, sem_post}
use sdp_labs.Kernel.Semaphore.Balance
use sdp_labs.Kernel.Condition.{Condition, cond_lock, cond_wait_enter, cond_wait_loop, cond_signal}
use sdp_labs.Kernel.Condition.Accounts
use sdp_labs.Kernel.Machine.{
  Kernel, Runs, sem_wait_step, sem_post_step, cond_lock_step, cond_wait_step, cond_signal_step,
  Reach, start, next, put_sem, put_cond, put_sem_table, put_cond_table, cond_wait,
}
use sdp_labs.Kernel.Machine.{Step}
use sdp_labs.Kernel.Calls.{Call, syscall}
use sdp_labs.Kernel.Calls.Steps.{Idle, sem_wait_made, syscall-Made}
use sdp_labs.Kernel.Args.{User, uint_of, argint, argptr, argptr_lem}
use sdp_labs.Kernel.Machine.Invariant.{Inv}
use sdp_labs.Kernel.Machine.Reachable.{
  AwakeAt, Step-Inv, sem_count, sem_no_lost_wakeup, cond_accounts, cond_no_lost_signal,
  cond_lock_held,
}
use sdp_labs.Kernel.Machine.History.{all_posts, all_takes, sem_history}
use sdp_labs.Kernel.Machine.Grants.{all_grants, all_frees, cond_lock_history}

abbrev in_user : ℕ → Proc
in_user n = record { state = running; pid = n; chan = none; killed = false; context = user }

abbrev one_sem : Semaphore
one_sem = record { count = pos 0; tokens = pos 0; ref = 1 }

abbrev free_sem : Semaphore
free_sem = record { count = pos 3; tokens = pos 3; ref = 0 }

abbrev one_cond : Condition
one_cond = record {
  locked = false;
  count = pos 0;
  resurrection_token = pos 0;
  value = pos 0;
  ref = 1;
}

abbrev boot : Kernel
boot = record {
  ptable = in_user 1 ∷ in_user 2 ∷ [];
  semaphores = one_sem ∷ [];
  conditions = one_cond ∷ [];
}

runs :
    (i : ℕ) {k : Kernel}
    → get_elem? k.ptable i ≡ some (in_user (i + 1))
    → Runs k i (in_user (i + 1)) user
runs i e = record { entry = e; state = refl; place = refl }

boot-Balanced :
    (n : ℕ) {s : Semaphore}
    → get_elem? boot.semaphores n ≡ some s
    → Balance.Balanced n s boot.ptable
unfolding count ◌+ℤ◌
boot-Balanced zero e = ground arith
boot-Balanced (suc n) e = absurd (none_ne_some e)

boot-Accounts :
    (n : ℕ) {c : Condition}
    → get_elem? boot.conditions n ≡ some c
    → Accounts.Accounts n c boot.ptable
unfolding count ◌+ℤ◌
boot-Accounts zero e = ground arith
boot-Accounts (suc n) e = absurd (none_ne_some e)

boot-Inv : Inv boot
boot-Inv = record { fit = (refl, (refl, tt)); sems = boot-Balanced; conds = boot-Accounts }

-- Process 0 calls `sem_wait(0)` and sleeps.
abbrev waited : Kernel
waited = put_sem boot 0 0 (sem_wait 0 (in_user 1) one_sem)

wait_run : Reach boot waited
wait_run = next start (sem_wait_step 0 0 (runs 0 refl) refl)

-- Then process 1 calls `sem_post(0)`.
abbrev posted : Kernel
posted = put_sem_table waited 0 (sem_post 0 waiting_sem waited.ptable)
  where
    waiting_sem : Semaphore
    waiting_sem = record { count = negsuc 0; tokens = pos 0; ref = 1 }

post_run : Reach boot posted
unfolding sem_wait
post_run = next wait_run (sem_post_step 0 refl)

-- Process 0 calls `cond_wait(0)` and sleeps, and process 1 signals.
abbrev signalled : Kernel
signalled = put_cond_table (cond_wait boot 0 0 (in_user 1) one_cond) 0 (
    cond_signal 0 (record one_cond { count = pos 1 })
      (cond_wait boot 0 0 (in_user 1) one_cond).ptable)

signal_run : Reach boot signalled
unfolding cond_wait_enter cond_wait_loop
signal_run = next (next start (cond_wait_step 0 0 (runs 0 refl) refl)) (cond_signal_step 0 refl)

-- Process 0 takes the lock of the condition variable, and process 1 sleeps for it.
abbrev locked_twice : Kernel
locked_twice =
    put_cond (put_cond boot 0 0 (cond_lock 0 (in_user 1) one_cond)) 1 0
      (cond_lock 0 (in_user 2) (record one_cond { locked = true }))

lock_run : Reach boot locked_twice
unfolding cond_lock
lock_run =
    next (next start (cond_lock_step 0 0 (runs 0 refl) refl))
      (cond_lock_step 1 0 (runs 1 refl) refl)

Step-Inv_example : Inv waited
Step-Inv_example = Step-Inv boot-Inv (sem_wait_step 0 0 (runs 0 refl) refl)

sem_count_example : negsuc 0 +ℤ pos (standing (Balance.in_wait 0) waited.ptable) ≡ pos 0
unfolding sem_wait
sem_count_example = sem_count boot-Inv wait_run 0 refl

sem_no_lost_wakeup_example : pos 0 ≤ℤ pos 0
unfolding sem_wait
sem_no_lost_wakeup_example =
    sem_no_lost_wakeup boot-Inv wait_run 0
      {s = record { count = negsuc 0; tokens = pos 0; ref = 1 }} 0 refl refl refl refl

sem_history_example :
    (pos 1 +ℤ pos (all_takes 0 post_run) ≡ pos 0 +ℤ pos (all_posts 0 post_run))
    × (pos 0 ≤ℤ pos 0 → pos (all_takes 0 post_run) ≤ℤ pos 0 +ℤ pos (all_posts 0 post_run))
unfolding post_run wait_run sem_wait sem_post
sem_history_example = sem_history 0 post_run refl refl refl

cond_accounts_example :
    (pos 1 ≡ pos (standing (Accounts.in_wait 0) signalled.ptable))
    × (pos 0 ≤ℤ pos 1)
    × (pos 1 ≤ℤ pos 1)
unfolding cond_wait_enter cond_wait_loop cond_signal
cond_accounts_example =
    cond_accounts boot-Inv signal_run 0
      {c = record one_cond { count = pos 1; resurrection_token = pos 1 }} refl

cond_no_lost_signal_example :
    (asleep (Accounts.in_wait 0) signalled.ptable ≡ 0)
    × AwakeAt (Accounts.in_wait 0) signalled.ptable
unfolding cond_wait_enter cond_wait_loop cond_signal
cond_no_lost_signal_example =
    cond_no_lost_signal boot-Inv signal_run 0
      {c = record one_cond { count = pos 1; resurrection_token = pos 1 }} refl (omega arith)

cond_lock_held_example : ◌≡◌ {A = Bool} true true
unfolding cond_lock
cond_lock_held_example =
    cond_lock_held boot-Inv lock_run 0 {c = record one_cond { locked = true }} 1 refl refl refl refl

cond_lock_history_example :
    one_if true + all_frees 0 lock_run ≡ one_if false + all_grants 0 lock_run
unfolding lock_run cond_lock
cond_lock_history_example = cond_lock_history 0 lock_run refl refl

-- A process with 64 bytes and its stack at 16: the first argument is 2, the second 40.
abbrev bytes : ℕ → ℕ
bytes a = if a == 20 then 2 else if a == 24 then 40 else if a == 41 then 7 else 0

abbrev caller : User
caller = record { sz = 64; esp = 16; byte_at = bytes }

argint_runs : argint caller 1 ≡ some (pos 40)
unfolding argint
argint_runs = refl

argptr_lem_example :
    (((uint_of (pos 40) < 64) × (uint_of (pos 40) + 24 ≤ 64))
      × (argptr caller 1 (pos 24) ≡ some (uint_of (pos 40))))
    ⊎ (((64 < uint_of (pos 40) + 24) ⊎ (64 ≤ uint_of (pos 40))) × (argptr caller 1 (pos 24) ≡ none))
argptr_lem_example = argptr_lem caller 1 24 (omega arith) (omega arith) argint_runs

-- Its first argument is 0.
abbrev waiter : User
waiter = record caller { byte_at = λ a. 0 }

first_arg : argint waiter 0 ≡ some (pos 0)
unfolding argint
first_arg = refl

waiter-Idle : (c : Call) → Idle boot waiter c
unfolding count
waiter-Idle c = record { sems = λ n a b. refl; conds = λ n a b. (refl, refl) }

syscall-Made_example :
    (syscall (pos 18) boot waiter 0 (in_user 1) ≡ some (pos 0, waited))
    × ((waited ≡ boot) ⊎ Step boot waited)
syscall-Made_example =
    syscall-Made (runs 0 refl) waiter (λ c e. waiter-Idle c)
      (sem_wait_made 0 one_sem first_arg refl)

-- The stack pointer is at the end of the memory.
no_arg : argint (record caller { esp = 60 }) 0 ≡ none
unfolding argint
no_arg = refl
