-- ===== src/Matrix.antt =====
-- lab02/lab2.3.c: v1 * mat * v2 by matrices, over any numbers: the doubles are given by their operations,
-- of which no law is used. What malloc leaves, and what is read out of an array, is `junk`.
pub mod Product
pub mod Threads
mod Tests
use sdp_labs.Common.{ℕ, zero, suc, ◌+◌, List, [], ◌∷◌, get_or, set, replicate}

pub record Number (E : Type 0) : Type 0 where
  pub none_yet : E
  pub junk : E
  pub add : E → E → E
  pub mul : E → E → E

module _ {A : Type 0} where
  -- `for (i = start; i < start + rounds; i++) result[i] = f(i);`
  unfoldable pub tabulate : ℕ → ℕ → (ℕ → A) → List A
  tabulate zero start f = []
  tabulate (suc rounds) start f = f start ∷ tabulate rounds (start + 1) f

module _ {E : Type 0} (num : Number E) where
  abbrev pub entry : List (List E) → ℕ → ℕ → E
  entry m i j = get_or (get_or m i []) j num.junk

  -- `curr += f(k) * g(k)` from `k` on.
  unfoldable pub dot : ℕ → ℕ → E → (ℕ → E) → (ℕ → E) → E
  dot zero k curr f g = curr
  dot (suc rounds) k curr f g = dot rounds (k + 1) (num.add curr (num.mul (f k) (g k))) f g

  unfoldable pub double_matrix_mult : List (List E) → List (List E) → ℕ → ℕ → ℕ → List (List E)
  unfolding dot tabulate
  double_matrix_mult m1 m2 p q r =
      tabulate p 0
        (λ i. tabulate r 0 (λ j. dot q 0 num.none_yet (λ k. entry m1 i k) (λ k. entry m2 k j)))

  unfoldable pub double_vett_to_vertical_matrix : List E → ℕ → List (List E)
  unfolding tabulate
  double_vett_to_vertical_matrix vett dim =
      tabulate dim 0 (λ i. set (replicate dim num.junk) 0 (get_or vett i num.junk))

  unfoldable pub double_matrix_transpone : List (List E) → ℕ → ℕ → List (List E)
  unfolding tabulate
  double_matrix_transpone mat m n = tabulate n 0 (λ i. tabulate m 0 (λ j. entry mat j i))

  -- `main`: the number that it prints.
  unfoldable pub product : List E → List (List E) → List E → ℕ → E
  unfolding double_matrix_mult double_vett_to_vertical_matrix double_matrix_transpone
  product v1 mat v2 k =
      let m1 = double_vett_to_vertical_matrix v1 k in
      let m1t = double_matrix_transpone m1 k 1 in
      let m2 = double_vett_to_vertical_matrix v2 k in
      let intermediate = double_matrix_mult mat m2 k k 1 in
      let result_mat = double_matrix_mult m1t intermediate 1 k 1 in entry result_mat 0 0
