-- ===== src/Matrix/Threads.antt =====
-- lab02/lab2.3thread.c: the same product by `k` threads, in any interleaving. A thread writes only its own
-- place of `v` before it counts itself out under the mutex, so these two are one step each.
pub mod Counted
pub mod Safety
use sdp_labs.Common.{
  ℕ, ◌+◌, ◌-◌, ◌≡◌, ◌==◌, Bool, true, false, some, List, [], ◌∷◌, ◌++◌, get_elem?, get_or, set,
  replicate, if◌then◌else◌,
}
use sdp_labs.Matrix.{Number, entry, dot}

-- Where a thread is in `thread_function`: before its loop, before its critical section, before the
-- last thread's loop, and at the end.
pub data Phase : Type 0 where
  fresh summed last ended : Phase

-- `v`, `n_thread_left`, and what has been printed.
pub record Pool (E : Type 0) : Type 0 where
  pub v : List E
  pub n_thread_left : ℕ
  pub phases : List Phase
  pub printed : List E

module _ {E : Type 0} (num : Number E) (v1 : List E) (mat : List (List E)) (v2 : List E)
    (k : ℕ) where
  -- `for (j = 0; j < k; j++) v[i] += mat[i][j] * v2[j];`
  unfoldable pub add_row : ℕ → Pool E → Pool E
  add_row i s = record s {
    v =
        set s.v i (
          dot num k 0 (get_or s.v i num.junk) (λ j. entry num mat i j) (λ j. get_or v2 j num.junk));
    phases = set s.phases i Phase.summed;
  }

  -- `int tmp = --n_thread_left;`
  unfoldable pub count_out : ℕ → Pool E → Pool E
  count_out i s =
      let tmp : ℕ = s.n_thread_left - 1 in
      record s {
        n_thread_left = tmp;
        phases = set s.phases i (if tmp == 0 then Phase.last else Phase.ended);
      }

  -- The last thread: `result += v1[j] * v[j]`, and the print.
  unfoldable pub print_result : ℕ → Pool E → Pool E
  print_result i s = record s {
    printed =
        s.printed
        ++ dot num k 0 num.none_yet (λ j. get_or v1 j num.junk) (λ j. get_or s.v j num.junk) ∷ [];
    phases = set s.phases i Phase.ended;
  }

  pub data Step (s : Pool E) : Pool E → Type 0 where
    adds : (i : ℕ) → get_elem? s.phases i ≡ some Phase.fresh → Step s (add_row i s)
    counts : (i : ℕ) → get_elem? s.phases i ≡ some Phase.summed → Step s (count_out i s)
    prints : (i : ℕ) → get_elem? s.phases i ≡ some Phase.last → Step s (print_result i s)

  -- `main` starts the threads; `v` is as malloc left it.
  abbrev pub started : List E → Pool E
  started v = record { v = v; n_thread_left = k; phases = replicate k Phase.fresh; printed = [] }

  pub data Reach (v : List E) : Pool E → Type 0 where
    start : Reach v (started v)
    later : {s t : Pool E} → Reach v s → Step s t → Reach v t
