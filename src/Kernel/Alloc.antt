-- ===== src/Kernel/Alloc.antt =====
-- lab06/src/file.c: what `sem_alloc` and `cond_alloc` hand out.
use sdp_labs.Common.{ℕ, ◌≡◌, ◌⊎◌, inl, inr, refl, some, List, arith, get_elem?, set}
use sdp_labs.Common.Int.{pos, minus_one}
use sdp_labs.Common.Slots.{FirstFree, AllUsed, alloc_from_lem}
use sdp_labs.Kernel.Semaphore.{Semaphore, sem_is_free, sem_assign, sem_alloc}
use sdp_labs.Kernel.Condition.{Condition, cond_is_free, cond_assign, cond_alloc}

-- `sem_alloc` returns the number of the first entry of the table whose `ref` is 0, sets that `ref` to
-- 1 and changes nothing else; if every entry is in use it returns -1 and changes nothing.
pub sem_alloc_lem :
    (l : List Semaphore)
    → ((n : ℕ) × (s : Semaphore) × FirstFree sem_is_free n l
        × (get_elem? l n ≡ some s)
        × (sem_alloc l ≡ (pos n, set l n (record s { ref = 1 }))))
      ⊎ (AllUsed sem_is_free l × (sem_alloc l ≡ (minus_one, l)))
unfolding sem_alloc
sem_alloc_lem l = elim (alloc_from_lem sem_is_free sem_assign 0 l) [
  | inl t ↦ inl (t.number, t.old, t.first, t.entry, ground (arith, t.result, t.table))
  | inr (all, same) ↦ inr (all, ground (arith, same))
]

-- `cond_alloc` returns the number of the first entry whose `ref` is 0; that entry comes back with no
-- waiting process counted, no token and its lock free, but with the `value` that it had, and nothing
-- else changes. If every entry is in use it returns -1 and changes nothing.
pub cond_alloc_lem :
    (l : List Condition)
    → ((n : ℕ) × (c : Condition) × FirstFree cond_is_free n l
        × (get_elem? l n ≡ some c)
        × (cond_alloc l ≡ (pos n, set l n (cond_assign c)))
        × ((cond_assign c).value ≡ c.value))
      ⊎ (AllUsed cond_is_free l × (cond_alloc l ≡ (minus_one, l)))
unfolding cond_alloc
cond_alloc_lem l = elim (alloc_from_lem cond_is_free cond_assign 0 l) [
  | inl t ↦ inl (t.number, t.old, t.first, t.entry, ground (arith, t.result, t.table), refl)
  | inr (all, same) ↦ inr (all, ground (arith, same))
]
