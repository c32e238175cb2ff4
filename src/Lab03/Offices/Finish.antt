-- ===== src/Lab03/Offices/Finish.antt =====
-- How long a run of the program can be.
use sdp_labs.Common.{ℕ, suc, ◌+◌, ◌*◌, ◌≤◌, arith}
use sdp_labs.Lab03.Offices.{State, Step, opened}
use sdp_labs.Lab03.Offices.Work.{work, Step-less, opened-work}

-- `n` steps in a row.
pub data Steps : ℕ → State → State → Type 0 where
  done : {s : State} → Steps 0 s s
  then : {n : ℕ} {s t u : State} → Step s t → Steps n t u → Steps (suc n) s u

Steps-less : {n : ℕ} {s t : State} → Steps n s t → n + work t ≤ work s
Steps-less done = omega arith
Steps-less (then st r) = omega (arith, Step-less st, Steps-less r)

-- With `k` students no run of the program is longer than 19 * k steps, whatever the order of the threads
-- and the random numbers are.
pub run-length : (k n : ℕ) {t : State} → Steps n (opened k) t → n ≤ 19 * k
run-length k n r = omega (arith, Steps-less r, opened-work k)
