-- ===== src/Kernel/Machine/Steps.antt =====
-- The semaphore steps, and those of the scheduler, keep the invariant of the kernel.
use sdp_labs.Common.{ℕ, ◌≡◌, refl, true, some, arith, get_elem?, set, inl, inr}
use sdp_labs.Common.Count.{All-set, All-get}
use sdp_labs.Common.Int.{ℤ}
use sdp_labs.Common.Slots.{alloc_from-entry}
use sdp_labs.Kernel.Proc.{
  Proc, Chan, user, in_sem_wait, dispatch, yield, kill, fits, Fits, is_sleeping,
}
use sdp_labs.Kernel.Proc.Wakeup.{standing, kill-Fits}
use sdp_labs.Kernel.Semaphore.{
  Semaphore, sem_is_free, sem_assign, sem_alloc, sem_init, sem_destroy, sem_wait, sem_wait_resume,
  sem_post,
}
use sdp_labs.Kernel.Semaphore.Balance
use sdp_labs.Kernel.Machine.{Kernel, Runs, put_sem, put_sem_table}
use sdp_labs.Kernel.Machine.Invariant.{Inv, quiet-Inv, sem-Inv}
use sdp_labs.Kernel.Machine.Quiet.{
  SemQuiet-refl, CondQuiet-refl, if-SemQuiet, if-CondQuiet, if-Fits, at_sem, kill-SemQuiet,
  kill-CondQuiet, stay-SemQuiet, stay-CondQuiet, set-SemQuiet, set-CondQuiet,
}

module _ {k : Kernel} (inv : Inv k) where
  -- A process goes on, is preempted, or runs code that is not modelled.
  stay-Inv :
      (i : ℕ) {p : Proc} (q : Proc)
      → get_elem? k.ptable i ≡ some p
      → (fits p ≡ true → fits q ≡ true)
      → q.context ≡ p.context
      → (is_sleeping q.state ≡ true → is_sleeping p.state ≡ true)
      → Inv (record k { ptable = set k.ptable i q })
  stay-Inv i {p} q here f same up =
      quiet-Inv inv (set k.ptable i q)
        (All-set Fits k.ptable i inv.fit (f (All-get Fits k.ptable i inv.fit here)))
        (λ n. stay-SemQuiet n k.ptable i p q here same up)
        (λ n. stay-CondQuiet n k.ptable i p q here same up)

  pub dispatch-Inv :
      (i : ℕ) {p : Proc}
      → get_elem? k.ptable i ≡ some p
      → Inv (record k { ptable = set k.ptable i (dispatch p) })
  dispatch-Inv i {p} here =
      stay-Inv i (dispatch p) here (λ h. ground arith) (ground arith) (λ h. ground arith)

  pub yield-Inv :
      (i : ℕ) {p : Proc}
      → get_elem? k.ptable i ≡ some p
      → Inv (record k { ptable = set k.ptable i (yield p) })
  yield-Inv i {p} here = stay-Inv i (yield p) here (λ h. refl) refl (λ h. absurd (ground arith))

  pub elsewhere-Inv :
      (i : ℕ) {p : Proc} (q : Proc)
      → get_elem? k.ptable i ≡ some p
      → p.context ≡ user
      → q.context ≡ user
      → Inv (record k { ptable = set k.ptable i q })
  elsewhere-Inv i {p} q here out out' =
      quiet-Inv inv (set k.ptable i q) (All-set Fits k.ptable i inv.fit (ground arith))
        (λ n. set-SemQuiet n k.ptable i p q here (ground arith) (ground arith))
        (λ n.
          set-CondQuiet n k.ptable i p q here (ground arith) (ground arith) (ground arith)
            (ground arith))

  pub kill-Inv : (pid : ℕ) → Inv (record k { ptable = (kill pid k.ptable).0 })
  kill-Inv pid =
      quiet-Inv inv (kill pid k.ptable).0 (kill-Fits pid k.ptable inv.fit)
        (λ n. kill-SemQuiet n pid k.ptable) (λ n. kill-CondQuiet n pid k.ptable)

  -- An operation on semaphore `n` that changes process `i` and the entry.
  put_sem-Inv :
      (i n : ℕ) {p : Proc} (r : Proc × Semaphore)
      → get_elem? k.ptable i ≡ some p
      → at_sem n p.context ≡ true
      → at_sem n r.0.context ≡ true
      → Fits r.0
      → Balance.Balanced n r.1 (set k.ptable i r.0)
      → Inv (put_sem k i n r)
  put_sem-Inv i n {p} r here old new f b =
      sem-Inv inv n r.1 (set k.ptable i r.0) (All-set Fits k.ptable i inv.fit f) b
        (λ m ne. set-SemQuiet m k.ptable i p r.0 here (ground arith) (ground arith))
        (λ m.
          set-CondQuiet m k.ptable i p r.0 here (ground arith) (ground arith) (ground arith)
            (ground arith))

  pub sem_wait-Inv :
      (i n : ℕ) {p : Proc} {s : Semaphore}
      → Runs k i p user
      → get_elem? k.semaphores n ≡ some s
      → Inv (put_sem k i n (sem_wait n p s))
  unfolding sem_wait
  sem_wait-Inv i n {p} {s} r e =
      put_sem-Inv i n (sem_wait n p s) r.entry (ground (arith, r.place)) (ground arith)
        (ground arith) (Balance.sem_wait-Balanced n i (inv.sems n e) r.entry r.state r.place)

  pub sem_wait_resume-Inv :
      (i n : ℕ) {p : Proc} {s : Semaphore}
      → Runs k i p (in_sem_wait n)
      → get_elem? k.semaphores n ≡ some s
      → Inv (put_sem k i n (sem_wait_resume n p s))
  unfolding sem_wait_resume
  sem_wait_resume-Inv i n {p} {s} r e =
      put_sem-Inv i n (sem_wait_resume n p s) r.entry (ground (arith, r.place)) (ground arith)
        (ground arith) (Balance.sem_wait_resume-Balanced n i (inv.sems n e) r.entry r.state r.place)

  pub sem_post-Inv :
      (n : ℕ) {s : Semaphore}
      → get_elem? k.semaphores n ≡ some s
      → Inv (put_sem_table k n (sem_post n s k.ptable))
  unfolding sem_post
  sem_post-Inv n {s} e =
      sem-Inv inv n (sem_post n s k.ptable).0 (sem_post n s k.ptable).1
        (if-Fits _ (Chan.sem_q n) k.ptable inv.fit)
        (Balance.sem_post-Balanced n (inv.sems n e) inv.fit)
        (λ m _. if-SemQuiet m _ (Chan.sem_q n) k.ptable)
        (λ m. if-CondQuiet m _ (Chan.sem_q n) k.ptable)

  pub sem_init-Inv :
      (n : ℕ) (v : ℤ) (s : Semaphore)
      → standing (Balance.in_wait n) k.ptable ≡ 0
      → Inv (record k { semaphores = set k.semaphores n (sem_init v s) })
  sem_init-Inv n v s idle =
      sem-Inv inv n (sem_init v s) k.ptable inv.fit (Balance.sem_init-Balanced n v s idle)
        (λ m _. SemQuiet-refl m k.ptable) (λ m. CondQuiet-refl m k.ptable)

  pub sem_destroy-Inv :
      (n : ℕ) {s : Semaphore}
      → get_elem? k.semaphores n ≡ some s
      → Inv (record k { semaphores = set k.semaphores n (sem_destroy s) })
  sem_destroy-Inv n {s} e =
      sem-Inv inv n (sem_destroy s) k.ptable inv.fit
        (record { owed = (inv.sems n e).owed; drained = (inv.sems n e).drained })
        (λ m _. SemQuiet-refl m k.ptable) (λ m. CondQuiet-refl m k.ptable)

  pub sem_alloc-Inv : Inv (record k { semaphores = (sem_alloc k.semaphores).1 })
  unfolding sem_alloc
  sem_alloc-Inv = record {
    fit = inv.fit;
    conds = inv.conds;
    sems = λ n e. elim (alloc_from-entry sem_is_free sem_assign k.semaphores n e) [
      | inl (same, _) ↦ inv.sems n same
      | inr (old, here, x, _) ↦
          rw x (record { owed = (inv.sems n here).owed; drained = (inv.sems n here).drained })
    ];
  }
