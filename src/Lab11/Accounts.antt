-- ===== src/Lab11/Accounts.antt =====
-- lab11/lab11es01/lab11es01/lab11es01.cpp: threads that apply the operations of their files to a file of
-- accounts, in any interleaving. An account is its amount, a word of 32 bits; the other fields are copied.
-- The files can be opened, and what exists can be read, written and locked.
pub mod Exclusion
pub mod Reads
pub mod Amounts
pub mod Final
pub mod Ending
mod Tests
use sdp_labs.Common.{
  ℕ, zero, suc, ◌+◌, ◌%◌, ◌^◌, ◌≡◌, ◌==◌, Bool, true, false, Option, none, some, List, [], ◌∷◌,
  get_elem?, set, map,
}
use sdp_labs.Common.Count.{count}

-- `#define VERSION`: the lock is on one record, or is one for all.
pub data Version : Type 0 where
  a b c d : Version

-- The fields of an operation that the program uses.
pub record Operation : Type 0 where
  pub id : ℕ
  pub amount : ℕ

-- Where a thread is in `doOperations`: before it reads an operation; before `acquireSync`; before it reads
-- the account; before it writes it, with the amount read; before `releaseSync`, to return 4 or to go on;
-- after its return.
pub data Phase : Type 0 where
  looping : Phase
  locking holding failing releasing : Operation → Phase
  writing : Operation → ℕ → Phase
  ended : ℕ → Phase

-- `operations` are those left in the file, `none` for a record that is too short; `lost` are those that
-- the thread gave up, which the program does not keep.
pub record Thread : Type 0 where
  pub phase : Phase
  pub operations : List (Option Operation)
  pub lost : List Operation

pub record State : Type 0 where
  pub accounts : List ℕ
  pub threads : List Thread

-- The records of the file begin with id 1.
abbrev pub account_at : List ℕ → ℕ → Option ℕ
account_at l zero = none
account_at l (suc n) = get_elem? l n

abbrev pub write_account : List ℕ → ℕ → ℕ → List ℕ
write_account l zero v = l
write_account l (suc n) v = set l n v

-- What `acquireSync` locks.
abbrev pub lock_of : Version → Operation → ℕ
lock_of Version.a op = op.id
lock_of Version.b op = 0
lock_of Version.c op = 0
lock_of Version.d op = 0

abbrev pub read_operation : List (Option Operation) → Thread → Thread
read_operation [] t = record t { phase = Phase.ended 0 }
read_operation (none ∷ rest) t = record t { phase = Phase.ended 2; operations = rest }
read_operation (some op ∷ rest) t = record t { phase = Phase.locking op; operations = rest }

abbrev pub created : List (Option Operation) → Thread
created ops = record { phase = Phase.looping; operations = ops; lost = [] }

module _ (version : Version) where
  abbrev pub holds : ℕ → Phase → Bool
  holds k Phase.looping = false
  holds k (Phase.locking op) = false
  holds k (Phase.holding op) = lock_of version op == k
  holds k (Phase.failing op) = lock_of version op == k
  holds k (Phase.releasing op) = lock_of version op == k
  holds k (Phase.writing op v) = lock_of version op == k
  holds k (Phase.ended code) = false

  abbrev pub holder : ℕ → Thread → Bool
  holder k t = holds k t.phase

  -- A step of a thread in its phase; `none` while it waits for the lock, or after its return.
  unfoldable pub do_operations : Phase → Thread → State → Option (List ℕ × Thread)
  do_operations Phase.looping t s = some (s.accounts, read_operation t.operations t)
  do_operations (Phase.locking op) t s = elim (count (holder (lock_of version op)) s.threads == 0) [
    | true ↦ some (s.accounts, record t { phase = Phase.holding op })
    | false ↦ none
  ]
  do_operations (Phase.holding op) t s = elim (account_at s.accounts op.id) [
    | none ↦ some (s.accounts, record t { phase = Phase.failing op })
    | some v ↦ some (s.accounts, record t { phase = Phase.writing op v })
  ]
  do_operations (Phase.writing op v) t s = some (
    write_account s.accounts op.id ((v + op.amount) % 2 ^ 32),
    record t { phase = Phase.releasing op },
  )
  do_operations (Phase.failing op) t s =
      some (s.accounts, record t { phase = Phase.ended 4; lost = op ∷ t.lost })
  do_operations (Phase.releasing op) t s = some (s.accounts, record t { phase = Phase.looping })
  do_operations (Phase.ended code) t s = none

  pub data Step (s : State) : State → Type 0 where
    steps :
        (i : ℕ) (t t' : Thread) (l : List ℕ)
        → get_elem? s.threads i ≡ some t
        → do_operations t.phase t s ≡ some (l, t')
        → Step s (record { accounts = l; threads = set s.threads i t' })

  module _ (accounts : List ℕ) (files : List (List (Option Operation))) where
    -- `_tmain` has created the threads.
    abbrev pub started : State
    started = record { accounts = accounts; threads = map created files }

    pub data Reach : State → Type 0 where
      begins : Reach started
      later : {s t : State} → Reach s → Step s t → Reach t
