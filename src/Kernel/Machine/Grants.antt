-- ===== src/Kernel/Machine/Grants.antt =====
-- The grants of the lock of a condition variable against its releases, in a run of the kernel.
use sdp_labs.Common.{
  ℕ, ◌+◌, ◌≡◌, ◌≢◌, refl, Bool, false, ◌&&◌, some, none, arith, get_elem?, get_elem?-set, set, ◌==◌,
  Option, inl, inr,
}
use sdp_labs.Common.Count.{one_if}
use sdp_labs.Common.Int.{pos, eqb_ℤ}
use sdp_labs.Common.Slots.{alloc_from-entry}
use sdp_labs.Kernel.Proc.{Proc, Table}
use sdp_labs.Kernel.Condition.{
  Condition, cond_is_free, cond_assign, cond_alloc, cond_lock, cond_lock_resume, cond_unlock,
  cond_wait_enter, cond_wait_loop, cond_wait_resume, cond_relock_resume, cond_signal,
  cond_broadcast,
}
use sdp_labs.Kernel.Machine.{
  Kernel, Step, cond_alloc_step, cond_set_step, cond_destroy_step, cond_lock_step, cond_lock_again,
  cond_unlock_step, cond_wait_step, cond_wait_again, cond_relock_again, cond_signal_step,
  cond_broadcast_step, Reach, start, next,
}
use sdp_labs.Kernel.Machine.History.{returned}

abbrev pub lock_is_set : Option Condition → Bool
lock_is_set none = false
lock_is_set (some c) = c.locked

-- The step lets a process return from `cond_lock(n)` or `cond_wait(n)`: it has the lock.
abbrev pub grants : ℕ → {k k' : Kernel} → Step k k' → ℕ
grants n (cond_lock_step i m {p} {c} r e) = one_if (m == n && returned (cond_lock m p c).0.context)
grants n (cond_lock_again i m {p} {c} r e) =
    one_if (m == n && returned (cond_lock_resume m p c).0.context)
grants n {k} (cond_wait_step i m {p} {c} r e) =
    one_if (m == n && returned (cond_wait_loop m p (cond_wait_enter m c k.ptable).0).0.context)
grants n (cond_wait_again i m {p} {c} r e) =
    one_if (m == n && returned (cond_wait_resume m p c).0.context)
grants n (cond_relock_again i m {p} {c} r e) =
    one_if (m == n && returned (cond_relock_resume m p c).0.context)
grants n _ = 0

-- The step finds the lock of `n` held and gives it up: `cond_unlock(n)`, the start of `cond_wait(n)`,
-- or a `cond_alloc` that hands the entry out again.
abbrev pub frees : ℕ → {k k' : Kernel} → Step k k' → ℕ
frees n (cond_unlock_step m {c} e) = one_if (m == n && c.locked)
frees n (cond_wait_step i m {p} {c} r e) = one_if (m == n && c.locked)
frees n {k} (cond_alloc_step idle) =
    one_if (eqb_ℤ (cond_alloc k.conditions).0 (pos n) && lock_is_set (get_elem? k.conditions n))
frees n _ = 0

abbrev pub all_grants : ℕ → {k k' : Kernel} → Reach k k' → ℕ
all_grants n start = 0
all_grants n (next r st) = all_grants n r + grants n st

abbrev pub all_frees : ℕ → {k k' : Kernel} → Reach k k' → ℕ
all_frees n start = 0
all_frees n (next r st) = all_frees n r + frees n st

-- The lock of `n` before and after a step with `g` grants and `f` releases.
record Passed (n g f : ℕ) (k : Kernel) (c' : Condition) : Type 0 where
  before : Condition
  entry : get_elem? k.conditions n ≡ some before
  lock : one_if c'.locked + f ≡ one_if before.locked + g

put-Passed :
    (n m g f : ℕ) (k : Kernel) {c x : Condition} (c' : Condition)
    → get_elem? k.conditions m ≡ some c
    → get_elem? (set k.conditions m c') n ≡ some x
    → (m ≢ n → (g ≡ 0) × (f ≡ 0))
    → (m ≡ n → one_if c'.locked + f ≡ one_if c.locked + g)
    → Passed n g f k x
put-Passed n m g f k {c} {x} c' e h off on = elim (get_elem?-set k.conditions m n c' h) [
  | inl (same, y) ↦ record { before = c; entry = rw same e; lock = ground (arith, on) }
  | inr (ne, old) ↦ record { before = x; entry = old; lock = ground (arith, off) }
]

-- A lock operation of one process: it has the lock exactly if it returns.
abbrev Locks : Condition → Proc × Condition → Type 0
Locks c r = one_if r.1.locked ≡ one_if c.locked + one_if (returned r.0.context)

cond_lock-Locks : (m : ℕ) (p : Proc) (c : Condition) → Locks c (cond_lock m p c)
unfolding cond_lock
cond_lock-Locks m p c = ground arith

cond_lock_resume-Locks : (m : ℕ) (p : Proc) (c : Condition) → Locks c (cond_lock_resume m p c)
unfolding cond_lock_resume
cond_lock_resume-Locks m p c = ground arith

cond_wait_loop-Locks : (m : ℕ) (p : Proc) (c : Condition) → Locks c (cond_wait_loop m p c)
unfolding cond_wait_loop
cond_wait_loop-Locks m p c = ground arith

cond_wait_resume-Locks : (m : ℕ) (p : Proc) (c : Condition) → Locks c (cond_wait_resume m p c)
unfolding cond_wait_resume
cond_wait_resume-Locks m p c = ground arith

cond_relock_resume-Locks : (m : ℕ) (p : Proc) (c : Condition) → Locks c (cond_relock_resume m p c)
unfolding cond_relock_resume
cond_relock_resume-Locks m p c = ground arith

-- The operations on the entry alone.
locked-cond_unlock : (m : ℕ) (c : Condition) (t : Table) → (cond_unlock m c t).0.locked ≡ false
unfolding cond_unlock
locked-cond_unlock m c t = ground arith

locked-cond_wait_enter :
    (m : ℕ) (c : Condition) (t : Table) → (cond_wait_enter m c t).0.locked ≡ false
unfolding cond_wait_enter
locked-cond_wait_enter m c t = ground arith

locked-cond_signal : (m : ℕ) (c : Condition) (t : Table) → (cond_signal m c t).0.locked ≡ c.locked
unfolding cond_signal
locked-cond_signal m c t = ground arith

locked-cond_broadcast :
    (m : ℕ) (c : Condition) (t : Table) → (cond_broadcast m c t).0.locked ≡ c.locked
unfolding cond_broadcast
locked-cond_broadcast m c t = ground arith

cond_alloc-passes :
    (n : ℕ) (k : Kernel) {x : Condition}
    → get_elem? (cond_alloc k.conditions).1 n ≡ some x
    → Passed n 0
        (one_if
          (eqb_ℤ (cond_alloc k.conditions).0 (pos n) && lock_is_set (get_elem? k.conditions n)))
        k
        x
unfolding cond_alloc
cond_alloc-passes n k {x} h = elim (alloc_from-entry cond_is_free cond_assign k.conditions n h) [
  | inl (same, other) ↦ record { before = x; entry = same; lock = ground (arith, other) }
  | inr (old, here, y, found) ↦ record {
    before = old;
    entry = here;
    lock = ground (arith, y, here, found);
  }
]

Step-Passed :
    (n : ℕ) {k k' : Kernel} (st : Step k k') {x : Condition}
    → get_elem? k'.conditions n ≡ some x
    → Passed n (grants n st) (frees n st) k x
Step-Passed n {k} (cond_alloc_step idle) h = cond_alloc-passes n k h
Step-Passed n {k} (cond_set_step m v e) h =
    put-Passed n m 0 0 k _ e h (λ _. (refl, refl)) (λ _. refl)
Step-Passed n {k} (cond_destroy_step m e) h =
    put-Passed n m 0 0 k _ e h (λ _. (refl, refl)) (λ _. refl)
Step-Passed n {k} (cond_lock_step i m {p} {c} r e) h =
    put-Passed n m _ 0 k (cond_lock m p c).1 e h (λ ne. ground arith)
      (λ same. ground (arith, cond_lock-Locks m p c))
Step-Passed n {k} (cond_lock_again i m {p} {c} r e) h =
    put-Passed n m _ 0 k (cond_lock_resume m p c).1 e h (λ ne. ground arith)
      (λ same. ground (arith, cond_lock_resume-Locks m p c))
Step-Passed n {k} (cond_unlock_step m {c} e) h =
    put-Passed n m 0 _ k (cond_unlock m c k.ptable).0 e h (λ ne. ground arith)
      (λ same. ground (arith, locked-cond_unlock m c k.ptable))
Step-Passed n {k} (cond_wait_step i m {p} {c} r e) h =
    put-Passed n m _ _ k (cond_wait_loop m p (cond_wait_enter m c k.ptable).0).1 e h
      (λ ne. ground arith)
      (λ same. ground (
        arith,
        cond_wait_loop-Locks m p (cond_wait_enter m c k.ptable).0,
        locked-cond_wait_enter m c k.ptable,
      ))
Step-Passed n {k} (cond_wait_again i m {p} {c} r e) h =
    put-Passed n m _ 0 k (cond_wait_resume m p c).1 e h (λ ne. ground arith)
      (λ same. ground (arith, cond_wait_resume-Locks m p c))
Step-Passed n {k} (cond_relock_again i m {p} {c} r e) h =
    put-Passed n m _ 0 k (cond_relock_resume m p c).1 e h (λ ne. ground arith)
      (λ same. ground (arith, cond_relock_resume-Locks m p c))
Step-Passed n {k} (cond_signal_step m {c} e) h =
    put-Passed n m 0 0 k (cond_signal m c k.ptable).0 e h (λ _. (refl, refl))
      (λ _. ground (arith, locked-cond_signal m c k.ptable))
Step-Passed n {k} (cond_broadcast_step m {c} e) h =
    put-Passed n m 0 0 k (cond_broadcast m c k.ptable).0 e h (λ _. (refl, refl))
      (λ _. ground (arith, locked-cond_broadcast m c k.ptable))
Step-Passed n {k} _ {x} h = record { before = x; entry = h; lock = refl }

-- Mutual exclusion by the lock of a condition variable, for any run of the kernel: the times that some
-- process got the lock (by a return from `cond_lock` or `cond_wait`) and the lock bit at the start make
-- up the times that it was given up and the lock bit at the end. So between two grants there is always
-- a release.
pub cond_lock_history :
    (n : ℕ) {k k' : Kernel} (run : Reach k k') {c c' : Condition}
    → get_elem? k.conditions n ≡ some c
    → get_elem? k'.conditions n ≡ some c'
    → one_if c'.locked + all_frees n run ≡ one_if c.locked + all_grants n run
cond_lock_history n start e e' = ground arith
cond_lock_history n (next r st) e e' =
    let m = Step-Passed n st e' in omega (arith, m.lock, cond_lock_history n r e m.entry)
