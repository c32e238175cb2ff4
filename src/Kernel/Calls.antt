-- ===== src/Kernel/Calls.antt =====
-- lab06/src/sysfile.c and syscall.c: the system calls on semaphores and condition variables, and
-- their dispatch. A result is the value of the call, which a call that sleeps returns when it ends,
-- and the kernel at the end of its first section; -1 comes with the kernel as it was. `none` is a
-- number of a semaphore or condition variable for which the table has no entry: C leaves that access
-- undefined.
pub mod Steps
use sdp_labs.Common.{
  ℕ, Bool, true, false, Option, none, some, List, [], ◌∷◌, ◌++◌, replicate, get_elem?, set,
}
use sdp_labs.Common.Int.{ℤ, pos, negsuc, minus_one}
use sdp_labs.Kernel.Args.{User, argint}
use sdp_labs.Kernel.Proc.{Proc}
use sdp_labs.Kernel.Semaphore.{Semaphore, sem_alloc, sem_init, sem_destroy, sem_wait, sem_post}
use sdp_labs.Kernel.Condition.{
  Condition, cond_alloc, cond_set, cond_get, cond_destroy, cond_lock, cond_unlock, cond_signal,
  cond_broadcast,
}
use sdp_labs.Kernel.Machine.{Kernel, put_sem, put_sem_table, put_cond, put_cond_table, cond_wait}

abbrev pub Result : Type 0
Result = Option (ℤ × Kernel)

-- `if(argint(n, &x) < 0) return -1;`
abbrev pub with_arg : Kernel → User → ℕ → (ℤ → Result) → Result
with_arg k u n f = elim (argint u n) [ none ↦ some (minus_one, k) | some x ↦ f x ]

-- `&semaphore_table.semaphore[sn]` and `&condition_table.condition[cn]`
abbrev pub entry_at : {A : Type 0} → List A → ℤ → (ℕ → A → Result) → Result
entry_at l (negsuc n) f = none
entry_at l (pos n) f = elim (get_elem? l n) [ none ↦ none | some s ↦ f n s ]

abbrev pub on_sem : Kernel → User → (ℕ → Semaphore → Result) → Result
on_sem k u f = with_arg k u 0 (λ sn. entry_at k.semaphores sn f)

abbrev pub on_cond : Kernel → User → (ℕ → Condition → Result) → Result
on_cond k u f = with_arg k u 0 (λ cn. entry_at k.conditions cn f)

abbrev pub sys_sem_alloc : Kernel → Result
sys_sem_alloc k = let (sn, l) = sem_alloc k.semaphores in some (sn, record k { semaphores = l })

abbrev pub sys_sem_init : Kernel → User → Result
sys_sem_init k u = with_arg k u 0 (λ sn. with_arg k u 1 (λ v.
    entry_at k.semaphores sn
      (λ n s. some (pos 0, record k { semaphores = set k.semaphores n (sem_init v s) }))))

abbrev pub sys_sem_destroy : Kernel → User → Result
sys_sem_destroy k u =
    on_sem k u (λ n s. some (pos 0, record k { semaphores = set k.semaphores n (sem_destroy s) }))

-- Process `i`, which the table shows as `p`, makes the call.
abbrev pub sys_sem_wait : Kernel → User → ℕ → Proc → Result
sys_sem_wait k u i p = on_sem k u (λ n s. some (pos 0, put_sem k i n (sem_wait n p s)))

abbrev pub sys_sem_post : Kernel → User → Result
sys_sem_post k u = on_sem k u (λ n s. some (pos 0, put_sem_table k n (sem_post n s k.ptable)))

abbrev pub sys_cond_alloc : Kernel → Result
sys_cond_alloc k = let (cn, l) = cond_alloc k.conditions in some (cn, record k { conditions = l })

abbrev pub sys_cond_set : Kernel → User → Result
sys_cond_set k u = with_arg k u 0 (λ cn. with_arg k u 1 (λ v.
    entry_at k.conditions cn
      (λ n c. some (pos 0, record k { conditions = set k.conditions n (cond_set v c) }))))

abbrev pub sys_cond_get : Kernel → User → Result
sys_cond_get k u = on_cond k u (λ n c. some (cond_get c, k))

abbrev pub sys_cond_destroy : Kernel → User → Result
sys_cond_destroy k u =
    on_cond k u (λ n c. some (pos 0, record k { conditions = set k.conditions n (cond_destroy c) }))

abbrev pub sys_cond_lock : Kernel → User → ℕ → Proc → Result
sys_cond_lock k u i p = on_cond k u (λ n c. some (pos 0, put_cond k i n (cond_lock n p c)))

abbrev pub sys_cond_unlock : Kernel → User → Result
sys_cond_unlock k u =
    on_cond k u (λ n c. some (pos 0, put_cond_table k n (cond_unlock n c k.ptable)))

abbrev pub sys_cond_wait : Kernel → User → ℕ → Proc → Result
sys_cond_wait k u i p = on_cond k u (λ n c. some (pos 0, cond_wait k i n p c))

abbrev pub sys_cond_signal : Kernel → User → Result
sys_cond_signal k u =
    on_cond k u (λ n c. some (pos 0, put_cond_table k n (cond_signal n c k.ptable)))

abbrev pub sys_cond_broadcast : Kernel → User → Result
sys_cond_broadcast k u =
    on_cond k u (λ n c. some (pos 0, put_cond_table k n (cond_broadcast n c k.ptable)))

-- The entries of `syscalls`. `other` are the calls of other parts of the kernel.
pub data Call : Type 0 where
  other sem_alloc_call sem_init_call sem_destroy_call sem_wait_call sem_post_call : Call
  cond_alloc_call cond_set_call cond_get_call cond_destroy_call cond_lock_call : Call
  cond_unlock_call cond_wait_call cond_signal_call cond_broadcast_call : Call

-- The array, from index 0, which has no entry, to 35.
abbrev pub syscalls : List (Option Call)
syscalls =
    none
    ∷ some Call.other
    ∷ some Call.other
    ∷ some Call.other
    ∷ some Call.other
    ∷ some Call.sem_alloc_call
    ∷ (replicate 10 (some Call.other)
        ++ some Call.sem_init_call
          ∷ some Call.sem_destroy_call
          ∷ some Call.sem_wait_call
          ∷ some Call.sem_post_call
          ∷ (replicate 7 (some Call.other)
              ++ some Call.cond_alloc_call
                ∷ some Call.cond_set_call
                ∷ some Call.cond_get_call
                ∷ some Call.cond_destroy_call
                ∷ some Call.cond_lock_call
                ∷ some Call.cond_unlock_call
                ∷ some Call.cond_wait_call
                ∷ some Call.cond_signal_call
                ∷ some Call.cond_broadcast_call
                ∷ []))

-- `syscalls[num]()`; the calls of other parts are not modelled, and have no result here.
unfoldable pub call_entry : Call → Kernel → User → ℕ → Proc → Result
call_entry Call.other k u i p = none
call_entry Call.sem_alloc_call k u i p = sys_sem_alloc k
call_entry Call.sem_init_call k u i p = sys_sem_init k u
call_entry Call.sem_destroy_call k u i p = sys_sem_destroy k u
call_entry Call.sem_wait_call k u i p = sys_sem_wait k u i p
call_entry Call.sem_post_call k u i p = sys_sem_post k u
call_entry Call.cond_alloc_call k u i p = sys_cond_alloc k
call_entry Call.cond_set_call k u i p = sys_cond_set k u
call_entry Call.cond_get_call k u i p = sys_cond_get k u
call_entry Call.cond_destroy_call k u i p = sys_cond_destroy k u
call_entry Call.cond_lock_call k u i p = sys_cond_lock k u i p
call_entry Call.cond_unlock_call k u i p = sys_cond_unlock k u
call_entry Call.cond_wait_call k u i p = sys_cond_wait k u i p
call_entry Call.cond_signal_call k u i p = sys_cond_signal k u
call_entry Call.cond_broadcast_call k u i p = sys_cond_broadcast k u

-- `syscalls[num]`, where there is one.
abbrev pub entry_of : ℤ → Option Call
entry_of (negsuc n) = none
entry_of (pos num) = elim (get_elem? syscalls num) [ none ↦ none | some e ↦ e ]

-- `syscall`; `num` is `proc->tf->eax`, and the value goes back there.
unfoldable pub syscall : ℤ → Kernel → User → ℕ → Proc → Result
unfolding call_entry
syscall num k u i p = elim (entry_of num) [
  | none ↦ some (minus_one, k)
  | some c ↦ call_entry c k u i p
]
