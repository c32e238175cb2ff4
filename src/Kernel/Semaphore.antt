-- ===== src/Kernel/Semaphore.antt =====
-- lab06/src/file.c, semaphores: each function from `acquire` to `release` or `sleep`. `lock` and `q`
-- have no entry: a section under the lock is one step, and `&s->q` is `Chan.sem_q sn`.
pub mod Balance
use sdp_labs.Common.{ℕ, ◌==◌, Bool, List, if◌then◌else◌}
use sdp_labs.Common.Int.{ℤ, pos, ◌+ℤ◌, ◌-ℤ◌, ltb_ℤ, leb_ℤ, int_of}
use sdp_labs.Common.Slots.{alloc_from}
use sdp_labs.Kernel.Proc.{Proc, Table, Context, Chan, fall_asleep, tidy_up, wakeup}

-- `struct semaphore`. The ints do not wrap: C leaves their overflow undefined.
pub record Semaphore : Type 0 where
  pub count : ℤ
  pub tokens : ℤ
  pub ref : ℕ

-- `s->ref == 0`, and the body of the loop of `sem_alloc` for such an entry.
abbrev pub sem_is_free : Semaphore → Bool
sem_is_free s = s.ref == 0

abbrev pub sem_assign : Semaphore → Semaphore
sem_assign s = record s { ref = 1 }

-- The number of the entry taken, or -1.
unfoldable pub sem_alloc : List Semaphore → ℤ × List Semaphore
unfolding alloc_from
sem_alloc l = let (n, l') = alloc_from sem_is_free sem_assign 0 l in (int_of n, l')

abbrev pub sem_init : ℤ → Semaphore → Semaphore
sem_init n s = record s { count = n; tokens = n }

abbrev pub sem_destroy : Semaphore → Semaphore
sem_destroy s = record s { ref = 0 }

-- The loop of `sem_wait` and what follows it, for the calling process `p`.
unfoldable pub sem_wait_loop : ℕ → Proc → Semaphore → Proc × Semaphore
unfolding ◌-ℤ◌
sem_wait_loop sn p s =
    if ltb_ℤ s.tokens (pos 1)
    then (fall_asleep (Chan.sem_q sn) (Context.in_sem_wait sn) p, s)
    else (record p { context = Context.user }, record s { tokens = s.tokens -ℤ pos 1 })

-- `sem_wait` from its call on.
unfoldable pub sem_wait : ℕ → Proc → Semaphore → Proc × Semaphore
unfolding sem_wait_loop
sem_wait sn p s = sem_wait_loop sn p (record s { count = s.count -ℤ pos 1 })

-- `sem_wait` from the return of `sleep` on.
unfoldable pub sem_wait_resume : ℕ → Proc → Semaphore → Proc × Semaphore
unfolding sem_wait_loop
sem_wait_resume sn p s = sem_wait_loop sn (tidy_up p) s

unfoldable pub sem_post : ℕ → Semaphore → Table → Semaphore × Table
unfolding ◌+ℤ◌
sem_post sn s t =
    let s' : Semaphore = record s { count = s.count +ℤ pos 1; tokens = s.tokens +ℤ pos 1 } in
    (s', if leb_ℤ s'.count (pos 0) then wakeup (Chan.sem_q sn) t else t)
