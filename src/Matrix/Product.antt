-- ===== src/Matrix/Product.antt =====
-- What the program of lab2.3.c prints, without matrices.
use sdp_labs.Common.{
  ℕ, zero, suc, ◌+◌, ◌<◌, ◌≡◌, ◌∙◌, ap, ap₂, refl, List, [], arith, get_or, set, replicate,
}
use sdp_labs.Matrix.{
  Number, tabulate, entry, dot, double_matrix_mult, double_vett_to_vertical_matrix,
  double_matrix_transpone, product,
}

pub get_or-tabulate :
    {A : Type 0} (n s i : ℕ) (f : ℕ → A) (d : A) → i < n → get_or (tabulate n s f) i d ≡ f (s + i)
unfolding tabulate
get_or-tabulate zero s i f d h = absurd (omega arith)
get_or-tabulate (suc n) s zero f d h = ap f (omega arith)
get_or-tabulate (suc n) s (suc i) f d h =
    get_or-tabulate n (s + 1) i f d (omega arith) ∙ ap f (omega arith)

first_set : {A : Type 0} (n : ℕ) (a x d : A) → 0 < n → get_or (set (replicate n a) 0 x) 0 d ≡ x
first_set zero a x d h = absurd (omega arith)
first_set (suc n) a x d h = refl

module _ {E : Type 0} (num : Number E) where
  -- Row `i` of `mat` times `v2`.
  abbrev pub row_sum : List (List E) → List E → ℕ → ℕ → E
  row_sum mat v2 k i = dot num k 0 num.none_yet (λ j. entry num mat i j) (λ j. get_or v2 j num.junk)

  -- `v1` times such sums.
  abbrev pub total : List E → ℕ → (ℕ → E) → E
  total v1 k sums = dot num k 0 num.none_yet (λ j. get_or v1 j num.junk) sums

  pub dot-same :
      (n k : ℕ) (c : E) (f f' g g' : ℕ → E)
      → ((i : ℕ) → i < k + n → f i ≡ f' i)
      → ((i : ℕ) → i < k + n → g i ≡ g' i)
      → dot num n k c f g ≡ dot num n k c f' g'
  unfolding dot
  dot-same zero k c f f' g g' p q = refl
  dot-same (suc n) k c f f' g g' p q =
      dot-same n (k + 1) _ f f' g g' (λ i h. p i (omega arith)) (λ i h. q i (omega arith))
      ∙ ap (λ c. dot num n (k + 1) c f' g')
          (ap₂ (λ x y. num.add c (num.mul x y)) (p k (omega arith)) (q k (omega arith)))

  vertical_entry :
      (v : List E) (k i : ℕ)
      → i < k
      → entry num (double_vett_to_vertical_matrix num v k) i 0 ≡ get_or v i num.junk
  unfolding double_vett_to_vertical_matrix
  vertical_entry v k i h =
      ap (λ row. get_or row 0 num.junk)
        (get_or-tabulate k 0 i (λ i. set (replicate k num.junk) 0 (get_or v i num.junk)) [] h)
      ∙ first_set k num.junk (get_or v (0 + i) num.junk) num.junk (omega arith)
      ∙ ap (λ j. get_or v j num.junk) (omega arith)

  transpone_entry :
      (m : List (List E)) (k j : ℕ)
      → j < k
      → entry num (double_matrix_transpone num m k 1) 0 j ≡ entry num m j 0
  unfolding double_matrix_transpone
  transpone_entry m k j h =
      get_or-tabulate k 0 j (λ j. entry num m j 0) num.junk h
      ∙ ap (λ i. entry num m i 0) (omega arith)

  mult_entry :
      (m1 m2 : List (List E)) (p q i : ℕ)
      → i < p
      → entry num (double_matrix_mult num m1 m2 p q 1) i 0
        ≡ dot num q 0 num.none_yet (λ k. entry num m1 i k) (λ k. entry num m2 k 0)
  unfolding double_matrix_mult
  mult_entry m1 m2 p q i h =
      ap (λ row. get_or row 0 num.junk) (get_or-tabulate p 0 i _ [] h)
      ∙ ap (λ i. dot num q 0 num.none_yet (λ k. entry num m1 i k) (λ k. entry num m2 k 0))
          (omega arith)

  -- For a dimension that is not 0 the program prints `v1` times the vector of the row sums `mat[i] * v2`:
  -- the matrices in between, and what malloc left in them, make no difference.
  pub product_lem :
      (v1 : List E) (mat : List (List E)) (v2 : List E) (k : ℕ)
      → 0 < k
      → product num v1 mat v2 k ≡ total v1 k (row_sum mat v2 k)
  unfolding product
  product_lem v1 mat v2 k h =
      let m2 = double_vett_to_vertical_matrix num v2 k in
      mult_entry (double_matrix_transpone num (double_vett_to_vertical_matrix num v1 k) k 1)
        (double_matrix_mult num mat m2 k k 1) 1 k 0 (omega arith)
      ∙ dot-same k 0 num.none_yet _ _ _ _
          (λ i lt.
            transpone_entry (double_vett_to_vertical_matrix num v1 k) k i (omega arith)
            ∙ vertical_entry v1 k i (omega arith))
          (λ i lt.
            mult_entry mat m2 k k i (omega arith)
            ∙ dot-same k 0 num.none_yet _ _ _ _ (λ j _. refl)
                (λ j l. vertical_entry v2 k j (omega arith)))
