-- ===== src/Lab12/Doors/Jobs.antt =====
-- The jobs of the consumers of lab12es01.cpp, and what the thread of the product prints.
-- `none` is an overflow, a write behind an array, or the job on a negative number, which is not modelled.
use mathlib.Core.Path.{subst}
use mathlib.Core.List.{append_assoc, append-nil}
use sdp_labs.Common.{
  ℕ, zero, suc, ◌+◌, ◌*◌, ◌^◌, ◌≤◌, ◌<◌, ◌≡◌, ◌∙◌, ap, sym, refl, inl, Option, none, some, List, [],
  ◌∷◌, ◌++◌, ltb, arith, replicate, get_elem?, map, ℕ_discrete, ◌≢◌, true, false,
}
use sdp_labs.Lab12.BigNumber.{my_multiply, factorial}
use sdp_labs.Lab12.BigNumber.Text.{Writes}
use sdp_labs.Lab12.BigNumber.Results.{my_multiply_lem, fact, factorial_lem}
use sdp_labs.Common.Int.{ℤ, pos, negsuc}
use sdp_labs.Lab12.Doors.{Phase, Producer, State, Reach}
use sdp_labs.Lab12.Doors.Level.{run, numbers}
use sdp_labs.Lab12.Doors.Result.{served_lem}

-- What a consumer writes on a line.
pub data Line : Type 0 where
  sum_line : ℕ → Line
  product_line factorial_line hashes_line : List ℕ → Line

-- `accumulator`, `resultNumber`, and the lines written.
pub record Local : Type 0 where
  pub accumulator : ℕ
  pub result_number : List ℕ
  pub printed : List Line

-- Thread 1 starts from "1".
abbrev pub start : ℕ → Option Local
start (suc zero) = some (record { accumulator = 0; result_number = 49 ∷ []; printed = [] })
start i = some (record { accumulator = 0; result_number = []; printed = [] })

module _ (max_digits : ℕ) where
  -- `switch (param->threadNumber)`
  unfoldable pub job_of : ℕ → ℕ → Local → Option Local
  job_of zero n x =
      let sum : ℕ = x.accumulator + n in
      elim (ltb sum (2 ^ 63)) [
        | true ↦
            some (record x { accumulator = sum; printed = x.printed ++ Line.sum_line sum ∷ [] })
        | false ↦ none
      ]
  job_of (suc zero) n x = elim (my_multiply max_digits x.result_number n) [
    | none ↦ none
    | some s ↦
        some (record x { result_number = s; printed = x.printed ++ Line.product_line s ∷ [] })
  ]
  job_of (suc (suc zero)) n x = elim (factorial max_digits n) [
    | none ↦ none
    | some s ↦ some (record x { printed = x.printed ++ Line.factorial_line s ∷ [] })
  ]
  job_of (suc (suc (suc zero))) n x =
      some (record x { printed = x.printed ++ Line.hashes_line (replicate n 35) ∷ [] })
  job_of i n x = some x

  abbrev pub job : ℕ → ℤ → Option Local → Option Local
  job i n none = none
  job i (pos n) (some x) = job_of i n x
  job i (negsuc n) (some x) = none

-- The lines write the partial products of the numbers, from `k` on.
abbrev pub Products : ℕ → List ℕ → List Line → Type 0
Products k [] lines = lines ≡ []
Products k (n ∷ ns) lines =
    (s : List ℕ) × (rest : List Line) × (lines ≡ Line.product_line s ∷ rest)
    × Writes s (n * k)
    × Products (n * k) ns rest

-- What no job overflows at, with the sum `a` and the product `k` before: each number is at most 214748364, its
-- factorial and each partial product are below 10 ^ m, and each partial sum is below 2 ^ 63.
abbrev pub Moderate : ℕ → ℕ → ℕ → List ℕ → Type 0
Moderate m a k [] = Unit
Moderate m a k (n ∷ ns) =
    (n ≤ 214748364)
    × (n * k < 10 ^ m)
    × (fact n < 10 ^ m)
    × (a + n < 2 ^ 63)
    × Moderate m (a + n) (n * k) ns

abbrev Done : Option Local → Type 0
Done r = (y : Local) × (r ≡ some y)

abbrev first_local : Local
first_local = record { accumulator = 0; result_number = 49 ∷ []; printed = [] }

first_Writes : Writes first_local.result_number 1
first_Writes = (refl, ((omega arith, omega arith), tt), inl (omega arith))

module _ (m : ℕ) (room : 0 < m) where
  run-Products :
      (a k : ℕ) (ns : List ℕ) (x : Local)
      → Writes x.result_number k
      → Moderate m a k ns
      → (y : Local) × (lines : List Line) × (run (job (suc m)) 1 (some x) (map pos ns) ≡ some y)
        × (y.printed ≡ x.printed ++ lines)
        × Products k ns lines
  unfolding job_of
  run-Products a k [] x w h = (x, [], refl, sym (append-nil x.printed), refl)
  run-Products a k (n ∷ ns) x w h =
      let (s, e, ws) = my_multiply_lem m x.result_number k n w h.0 h.1 room in
      let x' : Local = record x {
        result_number = s;
        printed = x.printed ++ Line.product_line s ∷ [];
      } in
      let (y, lines, go, all, p) = run-Products (a + n) (n * k) ns x' ws h.4 in
      let step : job (suc m) 1 (pos n) (some x) ≡ some x' = ground (arith, e) in
      (
        y,
        Line.product_line s ∷ lines,
        ap (λ z. run (job (suc m)) 1 z (map pos ns)) step ∙ go,
        all ∙ append_assoc x.printed (Line.product_line s ∷ []) lines,
        (s, lines, refl, ws, p),
      )

  -- The jobs of the other threads overrun nothing either.
  job_of-Done :
      (i a k n : ℕ) (ns : List ℕ) (x : Local)
      → i ≢ 1
      → x.accumulator ≤ a
      → Moderate m a k (n ∷ ns)
      → (y : Local) × (job_of (suc m) i n x ≡ some y) × (y.accumulator ≤ a + n)
  unfolding job_of
  job_of-Done zero a k n ns x ne le h =
      let fits : ltb (x.accumulator + n) (2 ^ 63) ≡ true = ground (arith, le, h.3) in
      (
        record x {
          accumulator = x.accumulator + n;
          printed = x.printed ++ Line.sum_line (x.accumulator + n) ∷ [];
        },
        ground (arith, fits),
        omega (arith, le),
      )
  job_of-Done (suc zero) a k n ns x ne le h = absurd (ne refl)
  job_of-Done (suc (suc zero)) a k n ns x ne le h =
      let (s, e, w) = factorial_lem m n h.0 h.2 in
      (
        record x { printed = x.printed ++ Line.factorial_line s ∷ [] },
        ground (arith, e),
        omega (arith, le),
      )
  job_of-Done (suc (suc (suc zero))) a k n ns x ne le h = (
    record x { printed = x.printed ++ Line.hashes_line (replicate n 35) ∷ [] },
    refl,
    omega (arith, le),
  )
  job_of-Done (suc (suc (suc (suc i)))) a k n ns x ne le h = (x, refl, omega (arith, le))

  run-Done :
      (i a k : ℕ) (ns : List ℕ) (x : Local)
      → i ≢ 1
      → x.accumulator ≤ a
      → Moderate m a k ns
      → Done (run (job (suc m)) i (some x) (map pos ns))
  run-Done i a k [] x ne le h = (x, refl)
  run-Done i a k (n ∷ ns) x ne le h =
      let (y, e, less) = job_of-Done i a k n ns x ne le h in
      let (z, go) = run-Done i (a + n) (n * k) ns y ne less h.4 in
      (z, ap (λ t. run (job (suc m)) i t (map pos ns)) e ∙ go)

  started-Done : (i : ℕ) → i ≢ 1 → (x : Local) × (start i ≡ some x) × (x.accumulator ≤ 0)
  started-Done zero ne = (_, refl, omega arith)
  started-Done (suc zero) ne = absurd (ne refl)
  started-Done (suc (suc i)) ne = (_, refl, omega arith)

  all-Done :
      (i : ℕ) (ns : List ℕ) → Moderate m 0 1 ns → Done (run (job (suc m)) i (start i) (map pos ns))
  all-Done i ns h = elim (ℕ_discrete i 1) [
    | no other ↦
        let (x, e, le) = started-Done i other in
        let (y, go) = run-Done i 0 1 ns x other le h in
        (y, ap (λ t. run (job (suc m)) i t (map pos ns)) e ∙ go)
    | yes one ↦
        let (y, lines, go, all, prod) = run-Products 0 1 ns first_local first_Writes h in
        (y, ap (λ j. run (job (suc m)) j (start j) (map pos ns)) one ∙ go)
  ]

  -- When the program has ended, the lines of the thread of the product are the decimal texts of the partial
  -- products of the file's numbers, one line for each number and in order, and no job of any thread has
  -- overflowed or written behind an array. The conditions are that the numbers are not negative, that
  -- each is at most 214748364, that the factorial of each and each partial product are below
  -- 10 ^ (MAXDIGITS - 1), that each partial sum is below 2 ^ 63, and that MAXDIGITS is more than 1.
  pub products_lem :
      (junk : ℤ) (file : List (Option ℤ)) (ns : List ℕ) {s : State ℤ (Option Local)} (p : Phase)
      (x : Option Local)
      → Reach (job (suc m)) start junk file s
      → s.shared.producer ≡ Producer.ended
      → get_elem? s.consumers 1 ≡ some (p, x)
      → numbers file ≡ map pos ns
      → Moderate m 0 1 ns
      → ((y : Local) × (x ≡ some y) × Products 1 ns y.printed)
        × ((i : ℕ) (q : Phase) (z : Option Local)
            → get_elem? s.consumers i ≡ some (q, z)
            → (y : Local) × (z ≡ some y))
  products_lem junk file ns p x r e at same h =
      let (gone, result) = served_lem (job (suc m)) start junk file 1 p x r e at in
      let (y, lines, go, all, prod) = run-Products 0 1 ns first_local first_Writes h in
      (
        (
          y,
          result ∙ ap (run (job (suc m)) 1 (start 1)) same ∙ go,
          subst (Products 1 ns) (sym all) prod,
        ),
        λ i q z there.
            let (left, its) = served_lem (job (suc m)) start junk file i q z r e there in
            let (y', go') = all-Done i ns h in
            (y', its ∙ ap (run (job (suc m)) i (start i)) same ∙ go'),
      )
