-- ===== src/Kernel/Condition.antt =====
-- lab06/src/file.c, condition variables: each function from `acquire` to `release` or `sleep`.
-- `lock`, `q` and `m` have no entry: a section under the lock is one step, and `&c->q` and `&c->m`
-- are `Chan.cond_q cn` and `Chan.cond_m cn`.
pub mod Accounts
pub mod Waiting
use sdp_labs.Common.{ℕ, ◌==◌, Bool, true, false, List, if◌then◌else◌}
use sdp_labs.Common.Int.{ℤ, pos, ◌+ℤ◌, ◌-ℤ◌, ltb_ℤ, eqb_ℤ, int_of}
use sdp_labs.Common.Slots.{alloc_from}
use sdp_labs.Kernel.Proc.{Proc, Table, Context, Chan, fall_asleep, tidy_up, wakeup}

-- `struct condition`. `locked` is only ever 0 or 1.
pub record Condition : Type 0 where
  pub locked : Bool
  pub count : ℤ
  pub resurrection_token : ℤ
  pub value : ℤ
  pub ref : ℕ

-- `c->ref == 0`, and the body of the loop of `cond_alloc` for such an entry.
abbrev pub cond_is_free : Condition → Bool
cond_is_free c = c.ref == 0

abbrev pub cond_assign : Condition → Condition
cond_assign c = record c { ref = 1; count = pos 0; resurrection_token = pos 0; locked = false }

-- The number of the entry taken, or -1.
unfoldable pub cond_alloc : List Condition → ℤ × List Condition
unfolding alloc_from
cond_alloc l = let (n, l') = alloc_from cond_is_free cond_assign 0 l in (int_of n, l')

abbrev pub cond_set : ℤ → Condition → Condition
cond_set n c = record c { value = n }

abbrev pub cond_get : Condition → ℤ
cond_get c = c.value

abbrev pub cond_destroy : Condition → Condition
cond_destroy c = record c { ref = 0 }

-- `while(c->locked) sleep(&c->m, &c->lock); c->locked = 1;`, with `at` the place of this `sleep`.
unfoldable pub cond_lock_loop : Context → ℕ → Proc → Condition → Proc × Condition
cond_lock_loop at cn p c =
    if c.locked
    then (fall_asleep (Chan.cond_m cn) at p, c)
    else (record p { context = Context.user }, record c { locked = true })

unfoldable pub cond_lock : ℕ → Proc → Condition → Proc × Condition
unfolding cond_lock_loop
cond_lock cn = cond_lock_loop (Context.in_cond_lock cn) cn

unfoldable pub cond_lock_resume : ℕ → Proc → Condition → Proc × Condition
unfolding cond_lock_loop
cond_lock_resume cn p = cond_lock_loop (Context.in_cond_lock cn) cn (tidy_up p)

-- `cond_unlock`, and the same code in `cond_wait`.
unfoldable pub cond_unlock : ℕ → Condition → Table → Condition × Table
cond_unlock cn c t =
    if c.locked then (record c { locked = false }, wakeup (Chan.cond_m cn) t) else (c, t)

-- The first loop of `cond_wait` and what follows it.
unfoldable pub cond_wait_loop : ℕ → Proc → Condition → Proc × Condition
unfolding cond_lock_loop ◌-ℤ◌
cond_wait_loop cn p c =
    if eqb_ℤ c.resurrection_token (pos 0)
    then (fall_asleep (Chan.cond_q cn) (Context.in_cond_wait cn) p, c)
    else cond_lock_loop (Context.in_cond_relock cn) cn p
        (record c { resurrection_token = c.resurrection_token -ℤ pos 1; count = c.count -ℤ pos 1 })

-- `cond_wait` up to its first loop: the caller is counted, and the lock is released.
unfoldable pub cond_wait_enter : ℕ → Condition → Table → Condition × Table
unfolding cond_unlock ◌+ℤ◌
cond_wait_enter cn c t = cond_unlock cn (record c { count = c.count +ℤ pos 1 }) t

-- `cond_wait` from the return of `sleep` in its first loop, and in its second.
unfoldable pub cond_wait_resume : ℕ → Proc → Condition → Proc × Condition
unfolding cond_wait_loop
cond_wait_resume cn p = cond_wait_loop cn (tidy_up p)

unfoldable pub cond_relock_resume : ℕ → Proc → Condition → Proc × Condition
unfolding cond_lock_loop
cond_relock_resume cn p = cond_lock_loop (Context.in_cond_relock cn) cn (tidy_up p)

unfoldable pub cond_signal : ℕ → Condition → Table → Condition × Table
unfolding ◌+ℤ◌
cond_signal cn c t =
    if ltb_ℤ (pos 0) c.count
    then (
      if ltb_ℤ c.resurrection_token c.count
          then record c { resurrection_token = c.resurrection_token +ℤ pos 1 }
          else c,
      wakeup (Chan.cond_q cn) t,
    )
    else (c, t)

unfoldable pub cond_broadcast : ℕ → Condition → Table → Condition × Table
cond_broadcast cn c t =
    if ltb_ℤ (pos 0) c.count
    then (record c { resurrection_token = c.count }, wakeup (Chan.cond_q cn) t)
    else (c, t)
