-- ===== src/Kernel/Proc.antt =====
-- lab06/xv6-cond-martino/proc.h and proc.c: process states, sleep, wakeup1, kill, and the choice of
-- the scheduler. A section of kernel code between `acquire` and `release` (or `sleep`, which
-- releases the lock only when ptable.lock is held) runs as one step.
pub mod Wakeup
use sdp_labs.Common.{
  ℕ, ◌≡◌, Bool, true, false, ◌&&◌, Option, none, some, List, [], ◌∷◌, map, ◌==◌, if◌then◌else◌,
}

-- `enum procstate`
pub data ProcState : Type 0 where
  unused embryo sleeping runnable running zombie : ProcState

abbrev pub is_sleeping : ProcState → Bool
is_sleeping sleeping = true
is_sleeping _ = false

abbrev pub is_runnable : ProcState → Bool
is_runnable runnable = true
is_runnable _ = false

abbrev pub is_running : ProcState → Bool
is_running running = true
is_running _ = false

-- The addresses that file.c sleeps on: `&s->q`, `&c->q` and `&c->m` of the entry with that number.
pub data Chan : Type 0 where
  sem_q cond_q cond_m : ℕ → Chan

abbrev pub chan_eq : Chan → Chan → Bool
chan_eq (sem_q a) (sem_q b) = a == b
chan_eq (sem_q a) (cond_q b) = false
chan_eq (sem_q a) (cond_m b) = false
chan_eq (cond_q a) (sem_q b) = false
chan_eq (cond_q a) (cond_q b) = a == b
chan_eq (cond_q a) (cond_m b) = false
chan_eq (cond_m a) (sem_q b) = false
chan_eq (cond_m a) (cond_q b) = false
chan_eq (cond_m a) (cond_m b) = a == b

-- Where the saved context of a process continues: in user code, or behind the call of `sleep` in
-- sem_wait, in the first or the second loop of cond_wait, or in cond_lock.
pub data Context : Type 0 where
  user : Context
  in_sem_wait in_cond_wait in_cond_relock in_cond_lock : ℕ → Context

-- `struct proc`, as far as sleep, wakeup, kill and the scheduler read it. `chan` 0 is `none`.
pub record Proc : Type 0 where
  pub state : ProcState
  pub pid : ℕ
  pub chan : Option Chan
  pub killed : Bool
  pub context : Context

-- `ptable.proc`
abbrev pub Table : Type 0
Table = List Proc

-- `sleep(chan, lk)` up to the context switch; `at` is where the process will continue.
abbrev pub fall_asleep : Chan → Context → Proc → Proc
fall_asleep c at p = record p { chan = some c; state = sleeping; context = at }

-- `sleep` behind the context switch: `proc->chan = 0`.
abbrev pub tidy_up : Proc → Proc
tidy_up p = record p { chan = none }

-- The body of the loop of `wakeup1`.
abbrev pub waits_on : Chan → Option Chan → Bool
waits_on c none = false
waits_on c (some d) = chan_eq d c

abbrev pub wake : Chan → Proc → Proc
wake c p = if is_sleeping p.state && waits_on c p.chan then record p { state = runnable } else p

-- `wakeup1` and `wakeup`: every process that sleeps on `c` can run again.
unfoldable pub wakeup : Chan → Table → Table
wakeup c = map (wake c)

abbrev pub kill_one : Proc → Proc
kill_one p = record p { state = if is_sleeping p.state then runnable else p.state; killed = true }

-- `kill(pid)`: the first process with that number, and whether there is one (0 or -1 in C).
unfoldable pub kill : ℕ → Table → Table × Bool
kill pid [] = ([], false)
kill pid (p ∷ t) =
    let (rest, found) = kill pid t in
    if p.pid == pid then (kill_one p ∷ t, true) else (p ∷ rest, found)

-- `scheduler` for one process that it finds runnable; any other is passed over.
abbrev pub dispatch : Proc → Proc
dispatch p = if is_runnable p.state then record p { state = running } else p

-- `yield`
abbrev pub yield : Proc → Proc
yield p = record p { state = runnable }

-- The channel that a process sleeps on at each place of file.c. Other parts of the kernel sleep in
-- their own code, which is `user` here.
abbrev pub fits_at : Context → Option Chan → Bool
fits_at user c = true
fits_at (in_sem_wait n) c = waits_on (sem_q n) c
fits_at (in_cond_wait n) c = waits_on (cond_q n) c
fits_at (in_cond_relock n) c = waits_on (cond_m n) c
fits_at (in_cond_lock n) c = waits_on (cond_m n) c

-- A process that sleeps, sleeps on the channel of the place where it stands.
abbrev pub fits : Proc → Bool
fits p = if is_sleeping p.state then fits_at p.context p.chan else true

abbrev pub Fits : Proc → Type 0
Fits p = fits p ≡ true
