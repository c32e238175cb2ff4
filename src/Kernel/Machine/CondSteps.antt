-- ===== src/Kernel/Machine/CondSteps.antt =====
-- The steps on condition variables keep the invariant of the kernel.
use sdp_labs.Common.{
  ℕ, ◌+◌, ◌≡◌, ◌∙◌, sym, ap, Bool, true, false, some, arith, get_elem?, set, inl, inr,
  if◌then◌else◌,
}
use sdp_labs.Common.Count.{All, All-set}
use sdp_labs.Common.Int.{pos, ◌+ℤ◌, ltb_ℤ, int_of}
use sdp_labs.Common.Slots.{alloc_from-entry}
use sdp_labs.Kernel.Proc.{
  Proc, Table, Chan, user, in_cond_wait, in_cond_relock, in_cond_lock, Fits, is_sleeping, wakeup,
}
use sdp_labs.Kernel.Proc.Wakeup.{standing, asleep-le-standing, wakeup-entry}
use sdp_labs.Kernel.Condition.{
  Condition, cond_is_free, cond_assign, cond_alloc, cond_lock, cond_lock_resume, cond_unlock,
  cond_wait_enter, cond_wait_loop, cond_wait_resume, cond_relock_resume, cond_signal,
  cond_broadcast,
}
use sdp_labs.Kernel.Condition.Accounts
use sdp_labs.Kernel.Condition.Accounts.{Accounts}
use sdp_labs.Kernel.Condition.Waiting
use sdp_labs.Kernel.Machine.{Kernel, Runs, put_cond, put_cond_table, cond_wait, Unused}
use sdp_labs.Kernel.Machine.Invariant.{Inv, SemQuiet, CondQuiet, cond-Inv}
use sdp_labs.Kernel.Machine.Quiet.{
  SemQuiet-refl, CondQuiet-refl, SemQuiet-trans, CondQuiet-trans, if-SemQuiet, if-CondQuiet,
  if-Fits, at_cond, set-SemQuiet, set-CondQuiet,
}

-- The table after the unlock in `cond_wait`.
cond_wait_enter-table :
    (n : ℕ) (c : Condition) (t : Table)
    → (cond_wait_enter n c t).1 ≡ (if c.locked then wakeup (Chan.cond_m n) t else t)
unfolding cond_wait_enter
cond_wait_enter-table n c t = ground arith

if-entry :
    (b : Bool) (ch : Chan) (t : Table) (i : ℕ) {p : Proc}
    → get_elem? t i ≡ some p
    → is_sleeping p.state ≡ false
    → get_elem? (if b then wakeup ch t else t) i ≡ some p
if-entry true ch t i here up = wakeup-entry ch t i here up
if-entry false ch t i here up = here

-- The accounts do not see `value` and `ref`.
Accounts-same :
    (n : ℕ) {c : Condition} (d : Condition) {t : Table}
    → d.count ≡ c.count
    → d.resurrection_token ≡ c.resurrection_token
    → d.locked ≡ c.locked
    → Accounts n c t
    → Accounts n d t
Accounts-same n d e f g a = record {
  counted = e ∙ a.counted;
  nonneg = rw f a.nonneg;
  bounded = rw f a.bounded;
  drained = λ h. rw f (a.drained h);
  free = λ h. a.free (sym g ∙ h);
}

-- The accounts of an entry that is handed out while nobody stands in it.
cond_assign-Accounts :
    (n : ℕ) (c : Condition) {t : Table} → Unused n t → Accounts n (cond_assign c) t
unfolding ◌+ℤ◌
cond_assign-Accounts n c {t} u =
    ground
      (arith, asleep-le-standing (Accounts.in_wait n) t, asleep-le-standing (Accounts.in_lock n) t)

module _ {k : Kernel} (inv : Inv k) where
  -- An operation on condition variable `n` that changes process `i` and the entry.
  put_cond-Inv :
      (i n : ℕ) {p : Proc} (r : Proc × Condition)
      → get_elem? k.ptable i ≡ some p
      → at_cond n p.context ≡ true
      → at_cond n r.0.context ≡ true
      → Fits r.0
      → Accounts n r.1 (set k.ptable i r.0)
      → Inv (put_cond k i n r)
  put_cond-Inv i n {p} r here old new f a =
      cond-Inv inv n r.1 (set k.ptable i r.0) (All-set Fits k.ptable i inv.fit f) a
        (λ m. set-SemQuiet m k.ptable i p r.0 here (ground arith) (ground arith))
        (λ m ne.
          set-CondQuiet m k.ptable i p r.0 here (ground arith) (ground arith) (ground arith)
            (ground arith))

  pub cond_lock-Inv :
      (i n : ℕ) {p : Proc} {c : Condition}
      → Runs k i p user
      → get_elem? k.conditions n ≡ some c
      → Inv (put_cond k i n (cond_lock n p c))
  unfolding cond_lock
  cond_lock-Inv i n {p} {c} r e =
      put_cond-Inv i n (cond_lock n p c) r.entry (ground (arith, r.place)) (ground arith)
        (ground arith) (Waiting.cond_lock-Accounts n i (inv.conds n e) r.entry r.state r.place)

  pub cond_lock_resume-Inv :
      (i n : ℕ) {p : Proc} {c : Condition}
      → Runs k i p (in_cond_lock n)
      → get_elem? k.conditions n ≡ some c
      → Inv (put_cond k i n (cond_lock_resume n p c))
  unfolding cond_lock_resume
  cond_lock_resume-Inv i n {p} {c} r e =
      put_cond-Inv i n (cond_lock_resume n p c) r.entry (ground (arith, r.place)) (ground arith)
        (ground arith)
        (Waiting.cond_lock_resume-Accounts n i (inv.conds n e) r.entry r.state r.place)

  pub cond_wait_resume-Inv :
      (i n : ℕ) {p : Proc} {c : Condition}
      → Runs k i p (in_cond_wait n)
      → get_elem? k.conditions n ≡ some c
      → Inv (put_cond k i n (cond_wait_resume n p c))
  unfolding cond_wait_resume
  cond_wait_resume-Inv i n {p} {c} r e =
      put_cond-Inv i n (cond_wait_resume n p c) r.entry (ground (arith, r.place)) (ground arith)
        (ground arith)
        (Waiting.cond_wait_resume-Accounts n i (inv.conds n e) r.entry r.state r.place)

  pub cond_relock_resume-Inv :
      (i n : ℕ) {p : Proc} {c : Condition}
      → Runs k i p (in_cond_relock n)
      → get_elem? k.conditions n ≡ some c
      → Inv (put_cond k i n (cond_relock_resume n p c))
  unfolding cond_relock_resume
  cond_relock_resume-Inv i n {p} {c} r e =
      put_cond-Inv i n (cond_relock_resume n p c) r.entry (ground (arith, r.place)) (ground arith)
        (ground arith)
        (Waiting.cond_relock_resume-Accounts n i (inv.conds n e) r.entry r.state r.place)

  -- An operation on condition variable `n` that changes the entry and may wake a channel.
  put_cond_table-Inv :
      (n : ℕ) (r : Condition × Table) (b : Bool) (ch : Chan)
      → r.1 ≡ (if b then wakeup ch k.ptable else k.ptable)
      → Accounts n r.0 r.1
      → Inv (put_cond_table k n r)
  put_cond_table-Inv n r b ch e a =
      cond-Inv inv n r.0 r.1 (rw e (if-Fits b ch k.ptable inv.fit)) a
        (λ m. rw e (if-SemQuiet m b ch k.ptable)) (λ m _. rw e (if-CondQuiet m b ch k.ptable))

  pub cond_signal-Inv :
      (n : ℕ) {c : Condition}
      → get_elem? k.conditions n ≡ some c
      → Inv (put_cond_table k n (cond_signal n c k.ptable))
  unfolding cond_signal
  cond_signal-Inv n {c} e =
      put_cond_table-Inv n (cond_signal n c k.ptable) (ltb_ℤ (pos 0) c.count) (Chan.cond_q n)
        (ground arith) (Accounts.cond_signal-Accounts n (inv.conds n e) inv.fit)

  pub cond_broadcast-Inv :
      (n : ℕ) {c : Condition}
      → get_elem? k.conditions n ≡ some c
      → Inv (put_cond_table k n (cond_broadcast n c k.ptable))
  unfolding cond_broadcast
  cond_broadcast-Inv n {c} e =
      put_cond_table-Inv n (cond_broadcast n c k.ptable) (ltb_ℤ (pos 0) c.count) (Chan.cond_q n)
        (ground arith) (Accounts.cond_broadcast-Accounts n (inv.conds n e) inv.fit)

  pub cond_unlock-Inv :
      (n : ℕ) {c : Condition}
      → get_elem? k.conditions n ≡ some c
      → Inv (put_cond_table k n (cond_unlock n c k.ptable))
  unfolding cond_unlock
  cond_unlock-Inv n {c} e =
      put_cond_table-Inv n (cond_unlock n c k.ptable) c.locked (Chan.cond_m n) (ground arith)
        (Accounts.cond_unlock-Accounts n (inv.conds n e) inv.fit)

  pub cond_wait-Inv :
      (i n : ℕ) {p : Proc} {c : Condition}
      → Runs k i p user
      → get_elem? k.conditions n ≡ some c
      → Inv (cond_wait k i n p c)
  unfolding cond_wait_loop
  cond_wait-Inv i n {p} {c} r e =
      cond-Inv inv n r'.1 (set t' i r'.0) (All-set Fits t' i fit (ground arith)) accounts
        (λ m.
          SemQuiet-trans m (woken_sem m)
            (set-SemQuiet m t' i p r'.0 here (ground (arith, r.place)) (ground arith)))
        (λ m ne. CondQuiet-trans m (woken_cond m) (
          set-CondQuiet m t' i p r'.0 here (ground (arith, r.place)) (ground arith)
            (ground (arith, r.place)) (ground arith)))
    where
      c' : Condition
      c' = (cond_wait_enter n c k.ptable).0

      t' : Table
      t' = (cond_wait_enter n c k.ptable).1

      r' : Proc × Condition
      r' = cond_wait_loop n p c'

      woken : t' ≡ (if c.locked then wakeup (Chan.cond_m n) k.ptable else k.ptable)
      woken = cond_wait_enter-table n c k.ptable

      fit : All Fits t'
      fit = rw woken (if-Fits c.locked (Chan.cond_m n) k.ptable inv.fit)

      woken_sem : (m : ℕ) → SemQuiet m k.ptable t'
      woken_sem m = rw woken (if-SemQuiet m c.locked (Chan.cond_m n) k.ptable)

      woken_cond : (m : ℕ) → CondQuiet m k.ptable t'
      woken_cond m = rw woken (if-CondQuiet m c.locked (Chan.cond_m n) k.ptable)

      here : get_elem? t' i ≡ some p
      here =
          rw woken (if-entry c.locked (Chan.cond_m n) k.ptable i r.entry (ground (arith, r.state)))

      accounts : Accounts n r'.1 (set t' i r'.0)
      accounts =
          Waiting.cond_wait_loop-Accounts n t' i p p here (ground (arith, r.state)) c'
            (standing (Accounts.in_wait n) t' + 1) (ground (arith, r.place))
            (Waiting.cond_wait_enter-Pending n (inv.conds n e) inv.fit)

  -- A change of the entry that its accounts do not see.
  pub entry-Inv :
      (n : ℕ) {c : Condition} (d : Condition)
      → get_elem? k.conditions n ≡ some c
      → d.count ≡ c.count
      → d.resurrection_token ≡ c.resurrection_token
      → d.locked ≡ c.locked
      → Inv (record k { conditions = set k.conditions n d })
  entry-Inv n d e x y z =
      cond-Inv inv n d k.ptable inv.fit (Accounts-same n d x y z (inv.conds n e))
        (λ m. SemQuiet-refl m k.ptable) (λ m _. CondQuiet-refl m k.ptable)

  pub cond_alloc-Inv :
      ((n : ℕ) → (cond_alloc k.conditions).0 ≡ pos n → Unused n k.ptable)
      → Inv (record k { conditions = (cond_alloc k.conditions).1 })
  unfolding cond_alloc
  cond_alloc-Inv idle = record {
    fit = inv.fit;
    sems = inv.sems;
    conds = λ n e. elim (alloc_from-entry cond_is_free cond_assign k.conditions n e) [
      | inl (same, _) ↦ inv.conds n same
      | inr (old, here, x, found) ↦ rw x (cond_assign-Accounts n old (idle n (ap int_of found)))
    ];
  }
