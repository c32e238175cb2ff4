-- ===== src/Kernel/Machine/Invariant.antt =====
-- Every step of the kernel keeps the accounts of all semaphores and of all condition variables.
use sdp_labs.Common.{ℕ, ◌≡◌, ◌≢◌, some, get_elem?, get_elem?-set, set, inl, inr}
use sdp_labs.Common.Count.{All}
use sdp_labs.Kernel.Proc.{Table, Fits}
use sdp_labs.Kernel.Proc.Wakeup.{Quiet}
use sdp_labs.Kernel.Semaphore.{Semaphore}
use sdp_labs.Kernel.Semaphore.Balance
use sdp_labs.Kernel.Semaphore.Balance.{Balanced}
use sdp_labs.Kernel.Condition.{Condition}
use sdp_labs.Kernel.Condition.Accounts
use sdp_labs.Kernel.Condition.Accounts.{Accounts}
use sdp_labs.Kernel.Machine.{Kernel}

pub record Inv (k : Kernel) : Type 0 where
  pub fit : All Fits k.ptable
  pub sems : (n : ℕ) {s : Semaphore} → get_elem? k.semaphores n ≡ some s → Balanced n s k.ptable
  pub conds : (n : ℕ) {c : Condition} → get_elem? k.conditions n ≡ some c → Accounts n c k.ptable

-- The table changes, and nothing of it concerns semaphore `n`, or condition variable `n`.
pub record SemQuiet (n : ℕ) (t t' : Table) : Type 0 where
  pub waits : Quiet (Balance.in_wait n) t t'

pub record CondQuiet (n : ℕ) (t t' : Table) : Type 0 where
  pub waits : Quiet (Accounts.in_wait n) t t'
  pub locks : Quiet (Accounts.in_lock n) t t'

Balanced-quiet :
    (n : ℕ) {s : Semaphore} {t t' : Table} → SemQuiet n t t' → Balanced n s t → Balanced n s t'
Balanced-quiet n {s} {t} {t'} q b = Balance.Balanced-frame n t t' q.waits.same q.waits.fewer b

Accounts-quiet :
    (n : ℕ) {c : Condition} {t t' : Table} → CondQuiet n t t' → Accounts n c t → Accounts n c t'
Accounts-quiet n {c} {t} {t'} q a =
    Accounts.Accounts-frame n t t' q.waits.same q.waits.fewer q.locks.fewer a

module _ {k : Kernel} (inv : Inv k) where
  -- A step that concerns no semaphore and no condition variable.
  pub quiet-Inv :
      (t : Table)
      → All Fits t
      → ((n : ℕ) → SemQuiet n k.ptable t)
      → ((n : ℕ) → CondQuiet n k.ptable t)
      → Inv (record k { ptable = t })
  quiet-Inv t fit sq cq = record {
    fit = fit;
    sems = λ n e. Balanced-quiet n (sq n) (inv.sems n e);
    conds = λ n e. Accounts-quiet n (cq n) (inv.conds n e);
  }

  -- A step on semaphore `n` alone.
  pub sem-Inv :
      (n : ℕ) (s : Semaphore) (t : Table)
      → All Fits t
      → Balanced n s t
      → ((m : ℕ) → m ≢ n → SemQuiet m k.ptable t)
      → ((m : ℕ) → CondQuiet m k.ptable t)
      → Inv (record k { ptable = t; semaphores = set k.semaphores n s })
  sem-Inv n s t fit b sq cq = record {
    fit = fit;
    sems = λ m e. elim (get_elem?-set k.semaphores n m s e) [
      | inl (same, y) ↦ rw (y, same) b
      | inr (other, e') ↦ Balanced-quiet m (sq m other) (inv.sems m e')
    ];
    conds = λ m e. Accounts-quiet m (cq m) (inv.conds m e);
  }

  -- A step on condition variable `n` alone.
  pub cond-Inv :
      (n : ℕ) (c : Condition) (t : Table)
      → All Fits t
      → Accounts n c t
      → ((m : ℕ) → SemQuiet m k.ptable t)
      → ((m : ℕ) → m ≢ n → CondQuiet m k.ptable t)
      → Inv (record k { ptable = t; conditions = set k.conditions n c })
  cond-Inv n c t fit a sq cq = record {
    fit = fit;
    sems = λ m e. Balanced-quiet m (sq m) (inv.sems m e);
    conds = λ m e. elim (get_elem?-set k.conditions n m c e) [
      | inl (same, y) ↦ rw (y, same) a
      | inr (other, e') ↦ Accounts-quiet m (cq m other) (inv.conds m e')
    ];
  }
