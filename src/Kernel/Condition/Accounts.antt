-- ===== src/Kernel/Condition/Accounts.antt =====
-- The accounts of one condition variable against the processes in its `cond_wait` and `cond_lock`,
-- kept by every operation.
use sdp_labs.Common.{ℕ, ◌≤◌, ◌<◌, ◌≡◌, Bool, false, arith, ◌==◌}
use sdp_labs.Common.Count.{All}
use sdp_labs.Common.Int.{pos, ◌+ℤ◌, ◌≤ℤ◌}
use sdp_labs.Kernel.Proc.{
  Table, Chan, Context, user, in_sem_wait, in_cond_wait, in_cond_relock, in_cond_lock, Fits,
}
use sdp_labs.Kernel.Proc.Wakeup.{standing, asleep, standing-wakeup, asleep-wakeup, asleep-wakeup-le}
use sdp_labs.Kernel.Condition.{Condition, cond_unlock, cond_signal, cond_broadcast}

-- In the first loop of `cond_wait(cn)`.
abbrev pub in_wait : ℕ → Context → Bool
in_wait cn user = false
in_wait cn (in_sem_wait m) = false
in_wait cn (in_cond_wait m) = m == cn
in_wait cn (in_cond_relock m) = false
in_wait cn (in_cond_lock m) = false

-- In the loop of `cond_lock(cn)`, or in the second loop of `cond_wait(cn)`.
abbrev pub in_lock : ℕ → Context → Bool
in_lock cn user = false
in_lock cn (in_sem_wait m) = false
in_lock cn (in_cond_wait m) = false
in_lock cn (in_cond_relock m) = m == cn
in_lock cn (in_cond_lock m) = m == cn

-- `count` is the number of waiting processes, there are at most as many tokens, while there is one
-- nobody sleeps for it, and while the lock is free nobody sleeps for that.
pub record Accounts (cn : ℕ) (c : Condition) (t : Table) : Type 0 where
  pub counted : c.count ≡ pos (standing (in_wait cn) t)
  pub nonneg : pos 0 ≤ℤ c.resurrection_token
  pub bounded : c.resurrection_token ≤ℤ pos (standing (in_wait cn) t)
  pub drained : 0 < asleep (in_wait cn) t → c.resurrection_token ≤ℤ pos 0
  pub free : c.locked ≡ false → asleep (in_lock cn) t ≡ 0

module _ (cn : ℕ) {c : Condition} {t : Table} (a : Accounts cn c t) (fit : All Fits t) where
  pub cond_signal-Accounts : let (c', t') = cond_signal cn c t in Accounts cn c' t'
  unfolding cond_signal ◌+ℤ◌
  cond_signal-Accounts = ground (
    arith,
    a.counted,
    a.nonneg,
    a.bounded,
    a.drained,
    a.free,
    standing-wakeup (in_wait cn) (Chan.cond_q cn) t,
    asleep-wakeup (in_wait cn) (Chan.cond_q cn) t (λ p f w z. ground arith) fit,
    asleep-wakeup-le (in_lock cn) (Chan.cond_q cn) t,
  )

  pub cond_broadcast-Accounts : let (c', t') = cond_broadcast cn c t in Accounts cn c' t'
  unfolding cond_broadcast ◌+ℤ◌
  cond_broadcast-Accounts = ground (
    arith,
    a.counted,
    a.nonneg,
    a.bounded,
    a.drained,
    a.free,
    standing-wakeup (in_wait cn) (Chan.cond_q cn) t,
    asleep-wakeup (in_wait cn) (Chan.cond_q cn) t (λ p f w z. ground arith) fit,
    asleep-wakeup-le (in_lock cn) (Chan.cond_q cn) t,
  )

  pub cond_unlock-Accounts : let (c', t') = cond_unlock cn c t in Accounts cn c' t'
  unfolding cond_unlock ◌+ℤ◌
  cond_unlock-Accounts = ground (
    arith,
    a.counted,
    a.nonneg,
    a.bounded,
    a.drained,
    a.free,
    standing-wakeup (in_wait cn) (Chan.cond_m cn) t,
    asleep-wakeup (in_lock cn) (Chan.cond_m cn) t (λ p f w z. ground arith) fit,
    asleep-wakeup-le (in_wait cn) (Chan.cond_m cn) t,
  )

-- Whatever moves no process into or out of `cond_wait(cn)` and puts none to sleep on `cn`.
pub Accounts-frame :
    (cn : ℕ) {c : Condition} (t t' : Table)
    → standing (in_wait cn) t' ≡ standing (in_wait cn) t
    → asleep (in_wait cn) t' ≤ asleep (in_wait cn) t
    → asleep (in_lock cn) t' ≤ asleep (in_lock cn) t
    → Accounts cn c t
    → Accounts cn c t'
unfolding ◌+ℤ◌
Accounts-frame cn t t' e le le' a =
    ground (arith, a.counted, a.nonneg, a.bounded, a.drained, a.free)
