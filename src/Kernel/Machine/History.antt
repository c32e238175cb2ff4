-- ===== src/Kernel/Machine/History.antt =====
-- What a run of the kernel has let through: the waits of a semaphore against its posts.
use sdp_labs.Common.{
  ℕ, ◌+◌, ◌≡◌, ◌≢◌, refl, Bool, true, false, ◌&&◌, some, arith, get_elem?, get_elem?-set, set, ◌==◌,
  inl, inr,
}
use sdp_labs.Common.Count.{one_if}
use sdp_labs.Common.Int.{pos, +ℤ_chain, ◌+ℤ◌, ◌≤ℤ◌}
use sdp_labs.Common.Slots.{alloc_from-entry}
use sdp_labs.Kernel.Proc.{
  Proc, Context, user, in_sem_wait, in_cond_wait, in_cond_relock, in_cond_lock,
}
use sdp_labs.Kernel.Semaphore.{
  Semaphore, sem_is_free, sem_assign, sem_alloc, sem_wait, sem_wait_resume, sem_post,
}
use sdp_labs.Kernel.Machine.{
  Kernel, Step, sem_alloc_step, sem_init_step, sem_destroy_step, sem_wait_step, sem_wait_again,
  sem_post_step, Reach, start, next,
}

-- The process is back in user code.
abbrev pub returned : Context → Bool
returned user = true
returned (in_sem_wait m) = false
returned (in_cond_wait m) = false
returned (in_cond_relock m) = false
returned (in_cond_lock m) = false

-- The step is a `sem_post(n)`; it lets a process return from `sem_wait(n)`; it is no `sem_init(n)`.
abbrev pub posts : ℕ → {k k' : Kernel} → Step k k' → ℕ
posts n (sem_post_step m e) = one_if (m == n)
posts n _ = 0

abbrev pub takes : ℕ → {k k' : Kernel} → Step k k' → ℕ
takes n (sem_wait_step i m {p} {s} r e) = one_if (m == n && returned (sem_wait m p s).0.context)
takes n (sem_wait_again i m {p} {s} r e) =
    one_if (m == n && returned (sem_wait_resume m p s).0.context)
takes n _ = 0

abbrev pub keeps : ℕ → {k k' : Kernel} → Step k k' → Bool
keeps n (sem_init_step m v e idle) = elim (m == n) [ true ↦ false | false ↦ true ]
keeps n _ = true

abbrev pub all_posts : ℕ → {k k' : Kernel} → Reach k k' → ℕ
all_posts n start = 0
all_posts n (next r st) = all_posts n r + posts n st

abbrev pub all_takes : ℕ → {k k' : Kernel} → Reach k k' → ℕ
all_takes n start = 0
all_takes n (next r st) = all_takes n r + takes n st

abbrev pub all_keep : ℕ → {k k' : Kernel} → Reach k k' → Bool
all_keep n start = true
all_keep n (next r st) = all_keep n r && keeps n st

-- The tokens of semaphore `n` before and after a step, where `a` posts and `b` waits have passed.
record Moved (n a b : ℕ) (k : Kernel) (s' : Semaphore) : Type 0 where
  before : Semaphore
  entry : get_elem? k.semaphores n ≡ some before
  tokens : s'.tokens +ℤ pos b ≡ before.tokens +ℤ pos a
  nonneg : pos 0 ≤ℤ before.tokens → pos 0 ≤ℤ s'.tokens

-- An operation on entry `m` makes `s'` of `s`.
put-Moved :
    (n m a b : ℕ) (k : Kernel) {s x : Semaphore} (s' : Semaphore)
    → get_elem? k.semaphores m ≡ some s
    → get_elem? (set k.semaphores m s') n ≡ some x
    → (m ≢ n → (a ≡ 0) × (b ≡ 0))
    → (m ≡ n → (s'.tokens +ℤ pos b ≡ s.tokens +ℤ pos a) × (pos 0 ≤ℤ s.tokens → pos 0 ≤ℤ s'.tokens))
    → Moved n a b k x
put-Moved n m a b k {s} {x} s' e h off on = elim (get_elem?-set k.semaphores m n s' h) [
  | inl (same, y) ↦ record {
    before = s;
    entry = rw same e;
    tokens = ground (arith, on);
    nonneg = ground (arith, on);
  }
  | inr (ne, old) ↦ record {
    before = x;
    entry = old;
    tokens = ground (arith, off);
    nonneg = λ z. z;
  }
]

-- A wait takes a token exactly if it returns.
abbrev Took : Semaphore → Proc × Semaphore → Type 0
Took s r =
    (r.1.tokens +ℤ pos (one_if (returned r.0.context)) ≡ s.tokens +ℤ pos 0)
    × (pos 0 ≤ℤ s.tokens → pos 0 ≤ℤ r.1.tokens)

sem_wait-Took : (m : ℕ) (p : Proc) (s : Semaphore) → Took s (sem_wait m p s)
unfolding sem_wait ◌+ℤ◌
sem_wait-Took m p s = ground arith

sem_wait_resume-Took : (m : ℕ) (p : Proc) (s : Semaphore) → Took s (sem_wait_resume m p s)
unfolding sem_wait_resume ◌+ℤ◌
sem_wait_resume-Took m p s = ground arith

sem_post-moves :
    (m : ℕ) (s : Semaphore) (k : Kernel)
    → let s' = (sem_post m s k.ptable).0 in
      (s'.tokens +ℤ pos 0 ≡ s.tokens +ℤ pos 1) × (pos 0 ≤ℤ s.tokens → pos 0 ≤ℤ s'.tokens)
unfolding sem_post ◌+ℤ◌
sem_post-moves m s k = ground arith

still : (n : ℕ) (k : Kernel) {x : Semaphore} → get_elem? k.semaphores n ≡ some x → Moved n 0 0 k x
still n k {x} h = record { before = x; entry = h; tokens = refl; nonneg = λ z. z }

sem_alloc-moves :
    (n : ℕ) (k : Kernel) {x : Semaphore}
    → get_elem? (sem_alloc k.semaphores).1 n ≡ some x
    → Moved n 0 0 k x
unfolding sem_alloc
sem_alloc-moves n k h = elim (alloc_from-entry sem_is_free sem_assign k.semaphores n h) [
  | inl (same, _) ↦ still n k same
  | inr (old, here, x, _) ↦ record {
    before = old;
    entry = here;
    tokens = rw x;
    nonneg = λ z. rw x z;
  }
]

Step-Moved :
    (n : ℕ) {k k' : Kernel} (st : Step k k') {x : Semaphore}
    → keeps n st ≡ true
    → get_elem? k'.semaphores n ≡ some x
    → Moved n (posts n st) (takes n st) k x
Step-Moved n {k} (sem_alloc_step) {x} keep h = sem_alloc-moves n k h
Step-Moved n {k} (sem_init_step m v {s} e idle) keep h =
    put-Moved n m 0 0 k _ e h (λ _. (refl, refl)) (λ same. absurd (ground arith))
Step-Moved n {k} (sem_destroy_step m {s} e) keep h =
    put-Moved n m 0 0 k _ e h (λ _. (refl, refl)) (λ _. (refl, λ z. z))
Step-Moved n {k} (sem_wait_step i m {p} {s} r e) keep h =
    put-Moved n m 0 _ k (sem_wait m p s).1 e h (λ ne. ground arith)
      (λ same. ground (arith, sem_wait-Took m p s))
Step-Moved n {k} (sem_wait_again i m {p} {s} r e) keep h =
    put-Moved n m 0 _ k (sem_wait_resume m p s).1 e h (λ ne. ground arith)
      (λ same. ground (arith, sem_wait_resume-Took m p s))
Step-Moved n {k} (sem_post_step m {s} e) keep h =
    put-Moved n m _ 0 k (sem_post m s k.ptable).0 e h (λ ne. ground arith)
      (λ same. ground (arith, sem_post-moves m s k))
Step-Moved n {k} _ keep h = still n k h

-- The accounts of a whole run.
run_account :
    (n : ℕ) {k k' : Kernel} (run : Reach k k') {s s' : Semaphore}
    → all_keep n run ≡ true
    → get_elem? k.semaphores n ≡ some s
    → get_elem? k'.semaphores n ≡ some s'
    → (s'.tokens +ℤ pos (all_takes n run) ≡ s.tokens +ℤ pos (all_posts n run))
      × (pos 0 ≤ℤ s.tokens → pos 0 ≤ℤ s'.tokens)
unfolding ◌+ℤ◌
run_account n start keep e e' = ground arith
run_account n (next r st) {s} {s'} keep e e' =
    let m = Step-Moved n st (ground arith) e' in
    let ih = run_account n r (ground arith) e m.entry in
    (+ℤ_chain s'.tokens m.before.tokens s.tokens _ _ _ _ m.tokens ih.0, λ z. m.nonneg (ih.1 z))

-- For any run of the kernel in which nobody calls `sem_init(n)`: the tokens at the end and the waits
-- that have returned make up the tokens at the start and the posts. So if the tokens were not negative
-- at the start, no more waits have returned than there were tokens and posts.
pub sem_history :
    (n : ℕ) {k k' : Kernel} (run : Reach k k') {s s' : Semaphore}
    → all_keep n run ≡ true
    → get_elem? k.semaphores n ≡ some s
    → get_elem? k'.semaphores n ≡ some s'
    → (s'.tokens +ℤ pos (all_takes n run) ≡ s.tokens +ℤ pos (all_posts n run))
      × (pos 0 ≤ℤ s.tokens → pos (all_takes n run) ≤ℤ s.tokens +ℤ pos (all_posts n run))
unfolding ◌+ℤ◌
sem_history n run keep e e' =
    let a = run_account n run keep e e' in (a.0, λ z. ground (arith, a.0, a.1 z))
