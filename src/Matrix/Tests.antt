-- ===== src/Matrix/Tests.antt =====
-- The product of lab02 with natural numbers, and two threads.
use sdp_labs.Common.{
  ℕ, ◌+◌, ◌*◌, ◌≤◌, ◌<◌, ◌≡◌, refl, true, List, [], ◌∷◌, arith, length, zero, suc, get_or,
}
use sdp_labs.Common.Count.{All}
use sdp_labs.Matrix.{Number, dot, product}
use sdp_labs.Matrix.Threads.{
  Phase, Pool, add_row, count_out, print_result, Reach, start, later, adds, counts, prints,
}
use sdp_labs.Matrix.Threads.Safety.{has_ended, threads-product}

abbrev naturals : Number ℕ
naturals = record { none_yet = 0; junk = 99; add = λ a b. a + b; mul = λ a b. a * b }

abbrev v1 : List ℕ
v1 = 1 ∷ 2 ∷ []

abbrev v2 : List ℕ
v2 = 3 ∷ 4 ∷ []

abbrev mat : List (List ℕ)
mat = (1 ∷ 0 ∷ []) ∷ (5 ∷ 1 ∷ []) ∷ []

product_runs : product naturals v1 mat v2 2 ≡ 41
unfolding product
product_runs = refl

-- The second thread is the first to count itself out.
abbrev finished : Pool ℕ
finished = record {
  v = 3 ∷ 19 ∷ [];
  n_thread_left = 0;
  phases = Phase.ended ∷ Phase.ended ∷ [];
  printed = 41 ∷ [];
}

finished_run : Reach naturals v1 mat v2 2 (0 ∷ 0 ∷ []) finished
unfolding add_row count_out print_result dot
finished_run =
    later
      (later (later (later (later start (adds 0 refl)) (adds 1 refl)) (counts 1 refl))
        (counts 0 refl))
      (prints 0 refl)

abbrev no_sums : List ℕ
no_sums = 0 ∷ 0 ∷ []

zeros : (i : ℕ) → i < 2 → get_or no_sums i 99 ≡ 0
zeros zero h = refl
zeros (suc zero) h = refl
zeros (suc (suc i)) h = absurd (omega arith)

threads-product_example :
    (length finished.printed ≤ 1)
    × All (λ x. x ≡ product naturals v1 mat v2 2) finished.printed
    × (All (λ p. has_ended p ≡ true) finished.phases
        → finished.printed ≡ product naturals v1 mat v2 2 ∷ [])
threads-product_example =
    threads-product naturals v1 mat v2 2 {v = no_sums} {s = finished} (omega arith) refl zeros
      finished_run
