-- ===== src/Kernel/Condition/Waiting.antt =====
-- `cond_wait` and `cond_lock`, from their calls and from the returns of `sleep`, keep the accounts.
use sdp_labs.Common.{
  ℕ, ◌+◌, ◌-◌, ◌<◌, ◌≡◌, refl, true, false, some, arith, get_elem?, set, Bool-cases, inl, inr,
}
use sdp_labs.Common.Count.{All, one_if}
use sdp_labs.Common.Int.{pos, ◌+ℤ◌, ◌-ℤ◌, ◌≤ℤ◌, eqb_ℤ}
use sdp_labs.Kernel.Proc.{
  Proc, Table, Chan, Context, user, in_cond_wait, in_cond_relock, in_cond_lock, running,
  is_sleeping, fall_asleep, tidy_up, Fits,
}
use sdp_labs.Kernel.Proc.Wakeup.{
  standing-set, asleep-set, standing, asleep, standing-wakeup, asleep-wakeup, asleep-wakeup-le,
}
use sdp_labs.Kernel.Condition.{
  Condition, cond_lock_loop, cond_lock, cond_lock_resume, cond_wait_loop, cond_wait_resume,
  cond_relock_resume, cond_wait_enter,
}
use sdp_labs.Kernel.Condition.Accounts.{Accounts, in_wait, in_lock}

-- The accounts in the middle of an operation of process `i`, which the table shows as `old`: `n`
-- processes wait, the caller not counted as one that the table has.
pub record Pending (cn : ℕ) (c : Condition) (t : Table) (n : ℕ) : Type 0 where
  pub counted : c.count ≡ pos n
  pub nonneg : pos 0 ≤ℤ c.resurrection_token
  pub bounded : c.resurrection_token ≤ℤ pos n
  pub drained : 0 < asleep (in_wait cn) t → c.resurrection_token ≤ℤ pos 0
  pub free : c.locked ≡ false → asleep (in_lock cn) t ≡ 0

module _ (cn : ℕ) (t : Table) (i : ℕ) (old p : Proc) (here : get_elem? t i ≡ some old)
    (up : is_sleeping old.state ≡ false) where
  pub cond_lock_loop-Accounts :
      (at : Context) (c : Condition) (n : ℕ)
      → in_lock cn at ≡ true
      → in_wait cn at ≡ false
      → n + one_if (in_wait cn old.context) ≡ standing (in_wait cn) t
      → Pending cn c t n
      → let (p', c') = cond_lock_loop at cn p c in Accounts cn c' (set t i p')
  unfolding cond_lock_loop ◌+ℤ◌
  cond_lock_loop-Accounts at c n lk nw total pend = elim (Bool-cases c.locked) [
    | inl busy ↦ rw busy (
        ground (
          arith,
          pend.counted,
          pend.nonneg,
          pend.bounded,
          pend.drained,
          standing-set (in_wait cn) t i old asleep_now here,
          asleep-set (in_wait cn) t i old asleep_now here,
          asleep-set (in_lock cn) t i old asleep_now here,
        ))
    | inr idle ↦ rw idle (
        ground (
          arith,
          pend.counted,
          pend.nonneg,
          pend.bounded,
          pend.drained,
          pend.free idle,
          standing-set (in_wait cn) t i old back here,
          asleep-set (in_wait cn) t i old back here,
          asleep-set (in_lock cn) t i old back here,
        ))
  ]
    where
      asleep_now : Proc
      asleep_now = fall_asleep (Chan.cond_m cn) at p

      back : Proc
      back = record p { context = user }

  pub cond_wait_loop-Accounts :
      (c : Condition) (n : ℕ)
      → n + one_if (in_wait cn old.context) ≡ standing (in_wait cn) t + 1
      → Pending cn c t n
      → let (p', c') = cond_wait_loop cn p c in Accounts cn c' (set t i p')
  unfolding cond_wait_loop ◌+ℤ◌
  cond_wait_loop-Accounts c n total pend = elim (Bool-cases (eqb_ℤ c.resurrection_token (pos 0))) [
    | inl lack ↦ rw lack (
        ground (
          arith,
          pend.counted,
          pend.nonneg,
          pend.bounded,
          pend.drained,
          pend.free,
          standing-set (in_wait cn) t i old asleep_now here,
          asleep-set (in_wait cn) t i old asleep_now here,
          asleep-set (in_lock cn) t i old asleep_now here,
        ))
    | inr got ↦ rw got (
        cond_lock_loop-Accounts (in_cond_relock cn) taken (n - 1) (ground arith) (ground arith)
          (ground (arith, pend.nonneg, pend.bounded, pend.drained))
          (ground (arith, pend.counted, pend.nonneg, pend.bounded, pend.drained, pend.free)))
  ]
    where
      asleep_now : Proc
      asleep_now = fall_asleep (Chan.cond_q cn) (in_cond_wait cn) p

      taken : Condition
      taken = record c {
        resurrection_token = c.resurrection_token -ℤ pos 1;
        count = c.count -ℤ pos 1;
      }

-- Process `i`, which runs, calls an operation or comes back from `sleep` in one.
module _ (cn : ℕ) {c : Condition} {t : Table} (i : ℕ) {p : Proc} (a : Accounts cn c t)
    (here : get_elem? t i ≡ some p) (runs : p.state ≡ running) where
  pending : Pending cn c t (standing (in_wait cn) t)
  pending = record {
    counted = a.counted;
    nonneg = a.nonneg;
    bounded = a.bounded;
    drained = a.drained;
    free = a.free;
  }

  pub cond_lock-Accounts :
      p.context ≡ user → let (p', c') = cond_lock cn p c in Accounts cn c' (set t i p')
  unfolding cond_lock
  cond_lock-Accounts e =
      cond_lock_loop-Accounts cn t i p p here (ground arith) (in_cond_lock cn) c
        (standing (in_wait cn) t) (ground arith) refl (ground arith) pending

  pub cond_lock_resume-Accounts :
      p.context ≡ in_cond_lock cn
      → let (p', c') = cond_lock_resume cn p c in Accounts cn c' (set t i p')
  unfolding cond_lock_resume
  cond_lock_resume-Accounts e =
      cond_lock_loop-Accounts cn t i p (tidy_up p) here (ground arith) (in_cond_lock cn) c
        (standing (in_wait cn) t) (ground arith) refl (ground arith) pending

  pub cond_relock_resume-Accounts :
      p.context ≡ in_cond_relock cn
      → let (p', c') = cond_relock_resume cn p c in Accounts cn c' (set t i p')
  unfolding cond_relock_resume
  cond_relock_resume-Accounts e =
      cond_lock_loop-Accounts cn t i p (tidy_up p) here (ground arith) (in_cond_relock cn) c
        (standing (in_wait cn) t) (ground arith) refl (ground arith) pending

  pub cond_wait_resume-Accounts :
      p.context ≡ in_cond_wait cn
      → let (p', c') = cond_wait_resume cn p c in Accounts cn c' (set t i p')
  unfolding cond_wait_resume
  cond_wait_resume-Accounts e =
      cond_wait_loop-Accounts cn t i p (tidy_up p) here (ground arith) c (standing (in_wait cn) t)
        (ground arith) pending

-- The first part of `cond_wait`: the caller is counted before it stands in the loop.
pub cond_wait_enter-Pending :
    (cn : ℕ) {c : Condition} {t : Table}
    → Accounts cn c t
    → All Fits t
    → let (c', t') = cond_wait_enter cn c t in Pending cn c' t' (standing (in_wait cn) t' + 1)
unfolding cond_wait_enter ◌+ℤ◌
cond_wait_enter-Pending cn {c} {t} a fit = ground (
  arith,
  a.counted,
  a.nonneg,
  a.bounded,
  a.drained,
  a.free,
  standing-wakeup (in_wait cn) (Chan.cond_m cn) t,
  asleep-wakeup (in_lock cn) (Chan.cond_m cn) t (λ p f w z. ground arith) fit,
  asleep-wakeup-le (in_wait cn) (Chan.cond_m cn) t,
)
