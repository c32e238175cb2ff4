-- ===== src/Kernel/Machine/Initial.antt =====
-- The kernel before the first system call: all tables are zeros in memory, and the processes that
-- there are have not called file.c yet.
use sdp_labs.Common.{◌≡◌, ◌∙◌, ap, refl, Bool, false, [], ◌∷◌, arith, replicate, replicate-entry}
use sdp_labs.Common.Count.{count, one_if, All}
use sdp_labs.Common.Int.{pos, ◌+ℤ◌}
use sdp_labs.Kernel.Proc.{Proc, Table, Context, user, Fits}
use sdp_labs.Kernel.Proc.Wakeup.{standing, asleep-le-standing}
use sdp_labs.Kernel.Semaphore.{Semaphore}
use sdp_labs.Kernel.Semaphore.Balance
use sdp_labs.Kernel.Condition.{Condition}
use sdp_labs.Kernel.Condition.Accounts
use sdp_labs.Kernel.Machine.{Kernel}
use sdp_labs.Kernel.Machine.Invariant.{Inv}

abbrev pub zero_sem : Semaphore
zero_sem = record { count = pos 0; tokens = pos 0; ref = 0 }

abbrev pub zero_cond : Condition
zero_cond = record {
  locked = false;
  count = pos 0;
  resurrection_token = pos 0;
  value = pos 0;
  ref = 0;
}

-- NSEM_MAX and NCOND_MAX are 20.
abbrev pub initial : Table → Kernel
initial t = record {
  ptable = t;
  semaphores = replicate 20 zero_sem;
  conditions = replicate 20 zero_cond;
}

abbrev pub InUser : Proc → Type 0
InUser p = p.context ≡ user

nobody_stands : (w : Context → Bool) (t : Table) → w user ≡ false → All InUser t → standing w t ≡ 0
unfolding count
nobody_stands w [] e h = refl
nobody_stands w (p ∷ t) e h = omega (arith, ap one_if (ap w h.0 ∙ e), nobody_stands w t e h.1)

user-Fits : (t : Table) → All InUser t → All Fits t
user-Fits [] h = tt
user-Fits (p ∷ t) h = (ground (arith, h.0), user-Fits t h.1)

-- Whatever processes there are, as long as each is in user code: the kernel with its tables of zeros has
-- the invariant.
pub initial-Inv : (t : Table) → All InUser t → Inv (initial t)
unfolding ◌+ℤ◌
initial-Inv t h = record {
  fit = user-Fits t h;
  sems = λ n e.
      let z = replicate-entry 20 n zero_sem e in
      let none_waits = nobody_stands (Balance.in_wait n) t refl h in
      record { owed = ground (arith, z, none_waits); drained = λ _. ground (arith, z) };
  conds = λ n e.
      let z = replicate-entry 20 n zero_cond e in
      let none_waits = nobody_stands (Accounts.in_wait n) t refl h in
      let none_locks = nobody_stands (Accounts.in_lock n) t refl h in
      record {
        counted = ground (arith, z, none_waits);
        nonneg = ground (arith, z);
        bounded = ground (arith, z);
        drained = λ _. ground (arith, z);
        free = λ _. ground (arith, none_locks, asleep-le-standing (Accounts.in_lock n) t);
      };
}
