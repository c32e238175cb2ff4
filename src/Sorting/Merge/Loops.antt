-- ===== src/Sorting/Merge/Loops.antt =====
-- The loops of `merge` do on the array what `merge_lists` does on lists.
use mathlib.Core.List.{append_assoc}
use sdp_labs.Common.{
  ℕ, zero, suc, ◌+◌, ◌-◌, ◌≤◌, ◌<◌, ◌≡◌, ◌∙◌, sym, ap, ap₂, true, false, Option, some, List, [],
  ◌∷◌, ◌++◌, arith, length, replicate, get_elem?, Bool-cases, inl, inr, length-append,
  length-replicate, get-lt-length, Option-cases, Bool, dec_lt,
}
use sdp_labs.Common.Int.{ℤ, pos, leb_ℤ}
use sdp_labs.Sorting.Bubble.Region.{at, get_elem?-at}
use sdp_labs.Sorting.Merge.{fetch, temp_store, copy_in, store, rest_loop, merge_loops, merge}
use sdp_labs.Sorting.Merge.Places.{
  get_elem?-here, set-here, snoc, length-snoc, store-here, at-append_right, at-append_left,
}
use sdp_labs.Sorting.Merge.Lists.{merge_lists, merge_lists-le, merge_lists-gt}

module _ (spare : Bool) (behind : Option ℤ) where
  copy_step :
      (rounds i from : ℕ) (vet dst d : List ℤ) {x : ℤ}
      → fetch spare behind vet (from + i) ≡ some x
      → temp_store spare behind dst i x ≡ some d
      → copy_in spare behind (suc rounds) i from vet dst
        ≡ copy_in spare behind rounds (i + 1) from vet d
  unfolding copy_in
  copy_step rounds i from vet dst d e f = ground (arith, e, f)

-- The place behind each temporary array is free, and the one behind `vet` holds `z`.
module _ (z : ℤ) where
  fetch-lt : (vet : List ℤ) (k : ℕ) → k < length vet → fetch true (some z) vet k ≡ some (at vet k)
  unfolding fetch
  fetch-lt vet k h = let (x, e) = get-lt-length vet k h in ground (arith, e, get_elem?-at vet k e)

  fetch-le :
      (vet : List ℤ) (k : ℕ) → k ≤ length vet → (x : ℤ) × (fetch true (some z) vet k ≡ some x)
  unfolding fetch
  fetch-le vet k h = elim (Option-cases (get_elem? vet k)) [
    | inr (x, e) ↦ (x, ground (arith, e))
    | inl e ↦ elim (dec_lt k (length vet)) [
      | yes lt ↦ (at vet k, fetch-lt vet k lt)
      | no ge ↦ let last : k ≡ length vet = omega (arith, h, ge) in (z, ground (arith, e, last))
    ]
  ]

  temp_store-here :
      (p q : List ℤ) (x y : ℤ)
      → temp_store true (some z) (p ++ x ∷ q) (length p) y ≡ some (p ++ y ∷ q)
  unfolding temp_store
  temp_store-here p q x y = ground (arith, length-append p (x ∷ q), set-here p q x y)

  temp_store-behind :
      (p : List ℤ) (i : ℕ) (y : ℤ) → i ≡ length p → temp_store true (some z) p i y ≡ some p
  unfolding temp_store
  temp_store-behind p i y e = ground (arith, e)

  -- The places of `p` are filled; `d` and the extra round are left.
  copy_in_lem :
      (from : ℕ) (vet p l d : List ℤ)
      → length d ≡ length l
      → from + (length p + length l) ≤ length vet
      → ((k : ℕ) → k < length l → at vet (from + (length p + k)) ≡ at l k)
      → copy_in true (some z) (suc (length l)) (length p) from vet (p ++ d) ≡ some (p ++ l)
  unfolding copy_in
  copy_in_lem from vet p [] [] e room h =
      let (x, read) = fetch-le vet (from + length p) (omega (arith, room)) in
      copy_step true (some z) 0 (length p) from vet (p ++ []) (p ++ []) read
        (temp_store-behind (p ++ []) (length p) x (omega (arith, length-append p [])))
  copy_in_lem from vet p [] (y ∷ d) e room h = absurd (omega arith)
  copy_in_lem from vet p (x ∷ l) [] e room h = absurd (omega arith)
  copy_in_lem from vet p (x ∷ l) (y ∷ d) e room h =
      let place : from + length p ≡ from + (length p + 0) = omega arith in
      let value : at vet (from + length p) ≡ x = ap (at vet) place ∙ h 0 (omega arith) in
      let read = fetch-lt vet (from + length p) (omega (arith, room)) ∙ ap some value in
      copy_step true (some z) (suc (length l)) (length p) from vet (p ++ y ∷ d) (p ++ x ∷ d) read
        (temp_store-here p d y x)
      ∙ ap₂ (λ i ds. copy_in true (some z) (suc (length l)) i from vet ds) (sym (length-snoc p x))
          (sym (snoc p d x))
      ∙ copy_in_lem from vet (p ++ x ∷ []) l d (omega (arith, e))
          (omega (arith, room, length-snoc p x)) (λ k q. later k q)
      ∙ ap some (snoc p l x)
    where
      later : (k : ℕ) → k < length l → at vet (from + (length (p ++ x ∷ []) + k)) ≡ at l k
      later k q = ap (at vet) (omega (arith, length-snoc p x)) ∙ h (suc k) (omega arith)

rest_step :
    (l : List ℤ) (rounds i k : ℕ) (vet v : List ℤ) {x : ℤ} {r : Option (ℕ × List ℤ)}
    → get_elem? l i ≡ some x
    → store vet k x ≡ some v
    → rest_loop l rounds (i + 1) (k + 1) v ≡ r
    → rest_loop l (suc rounds) i k vet ≡ r
unfolding rest_loop
rest_step l rounds i k vet v e s h = ground (arith, e, s, h)

-- `rest` is what is still to be overwritten, by the places of `l` from `l0` on.
rest_loop_lem :
    (l0 l done rest post : List ℤ)
    → length rest ≡ length l
    → rest_loop (l0 ++ l) (length l) (length l0) (length done) (done ++ (rest ++ post))
      ≡ some (length done + length l, done ++ (l ++ post))
unfolding rest_loop
rest_loop_lem l0 [] done [] post e = ap (λ n. some (n, done ++ post)) (omega arith)
rest_loop_lem l0 [] done (y ∷ rest) post e = absurd (omega arith)
rest_loop_lem l0 (x ∷ l) done [] post e = absurd (omega arith)
rest_loop_lem l0 (x ∷ l) done (y ∷ rest) post e =
    rest_step (l0 ++ x ∷ l) (length l) (length l0) (length done) _ (done ++ x ∷ (rest ++ post))
      (get_elem?-here l0 l x) (store-here done (rest ++ post) y x)
      (sym back
        ∙ rest_loop_lem (l0 ++ x ∷ []) l (done ++ x ∷ []) rest post (omega (arith, e))
        ∙ ap₂ (λ n v. some (n, v)) (omega (arith, length-snoc done x)) (snoc done (l ++ post) x))
  where
    back :
        rest_loop
          ((l0 ++ x ∷ []) ++ l)
          (length l)
          (length (l0 ++ x ∷ []))
          (length (done ++ x ∷ []))
          ((done ++ x ∷ []) ++ (rest ++ post))
        ≡ rest_loop
            (l0 ++ x ∷ l)
            (length l)
            (length l0 + 1)
            (length done + 1)
            (done ++ x ∷ (rest ++ post))
    back i =
        rest_loop (snoc l0 l x i) (length l) (length-snoc l0 x i) (length-snoc done x i)
          (snoc done (rest ++ post) x i)

module _ (l r : List ℤ) (a b i j k : ℕ) (vet v : List ℤ) {x y : ℤ} {o : Option (List ℤ)}
    (e : get_elem? l i ≡ some x) (f : get_elem? r j ≡ some y) where
  take_left :
      leb_ℤ x y ≡ true
      → store vet k x ≡ some v
      → merge_loops l r a (suc b) (i + 1) j (k + 1) v ≡ o
      → merge_loops l r (suc a) (suc b) i j k vet ≡ o
  unfolding merge_loops
  take_left le s h = ground (arith, e, f, le, s, h)

  take_right :
      leb_ℤ x y ≡ false
      → store vet k y ≡ some v
      → merge_loops l r (suc a) b i (j + 1) (k + 1) v ≡ o
      → merge_loops l r (suc a) (suc b) i j k vet ≡ o
  unfolding merge_loops
  take_right gt s h = ground (arith, e, f, gt, s, h)

left_done :
    (l r : List ℤ) (b i j k : ℕ) (vet : List ℤ) {n : ℕ} {v : List ℤ}
    → rest_loop r b j k vet ≡ some (n, v)
    → merge_loops l r zero b i j k vet ≡ some v
unfolding merge_loops
left_done l r b i j k vet e = ground (arith, e)

right_done :
    (l r : List ℤ) (a i j k : ℕ) (vet : List ℤ) {n : ℕ} {v : List ℤ}
    → rest_loop l (suc a) i k vet ≡ some (n, v)
    → merge_loops l r (suc a) zero i j k vet ≡ some v
unfolding merge_loops
right_done l r a i j k vet e = ground (arith, e)

-- The loops from any point on: `done` is what they have written, `rest` what they will overwrite.
merge_loops_lem :
    (l0 l r0 r done rest post : List ℤ)
    → length rest ≡ length l + length r
    → merge_loops
        (l0 ++ l)
        (r0 ++ r)
        (length l)
        (length r)
        (length l0)
        (length r0)
        (length done)
        (done ++ (rest ++ post))
      ≡ some (done ++ (merge_lists l r ++ post))
unfolding merge_lists
merge_loops_lem l0 [] r0 r done rest post e =
    left_done (l0 ++ []) (r0 ++ r) (length r) (length l0) (length r0) (length done) _
      (rest_loop_lem r0 r done rest post (omega (arith, e)))
merge_loops_lem l0 (x ∷ l) r0 [] done rest post e =
    right_done (l0 ++ x ∷ l) (r0 ++ []) (length l) (length l0) (length r0) (length done) _
      (rest_loop_lem l0 (x ∷ l) done rest post (omega (arith, e)))
merge_loops_lem l0 (x ∷ l) r0 (y ∷ r) done [] post e = absurd (omega arith)
merge_loops_lem l0 (x ∷ l) r0 (y ∷ r) done (z ∷ rest) post e = elim (Bool-cases (leb_ℤ x y)) [
  | inl le ↦
      take_left (l0 ++ x ∷ l) (r0 ++ y ∷ r) (length l) (length r) (length l0) (length r0)
        (length done) _ (done ++ x ∷ (rest ++ post)) (get_elem?-here l0 l x) (get_elem?-here r0 r y)
        le (store-here done (rest ++ post) z x)
        (sym (back_left x)
          ∙ merge_loops_lem (l0 ++ x ∷ []) l r0 (y ∷ r) (done ++ x ∷ []) rest post
              (omega (arith, e))
          ∙ ap some (
              snoc done (merge_lists l (y ∷ r) ++ post) x
              ∙ ap (λ m. done ++ (m ++ post)) (sym (merge_lists-le x y l r le))))
  | inr gt ↦
      take_right (l0 ++ x ∷ l) (r0 ++ y ∷ r) (length l) (length r) (length l0) (length r0)
        (length done) _ (done ++ y ∷ (rest ++ post)) (get_elem?-here l0 l x) (get_elem?-here r0 r y)
        gt (store-here done (rest ++ post) z y)
        (sym (back_right y)
          ∙ merge_loops_lem l0 (x ∷ l) (r0 ++ y ∷ []) r (done ++ y ∷ []) rest post
              (omega (arith, e))
          ∙ ap some (
              snoc done (merge_lists (x ∷ l) r ++ post) y
              ∙ ap (λ m. done ++ (m ++ post)) (sym (merge_lists-gt x y l r gt))))
]
  where
    back_left :
        (x : ℤ)
        → merge_loops
            ((l0 ++ x ∷ []) ++ l)
            (r0 ++ y ∷ r)
            (length l)
            (suc (length r))
            (length (l0 ++ x ∷ []))
            (length r0)
            (length (done ++ x ∷ []))
            ((done ++ x ∷ []) ++ (rest ++ post))
          ≡ merge_loops
              (l0 ++ x ∷ l)
              (r0 ++ y ∷ r)
              (length l)
              (suc (length r))
              (length l0 + 1)
              (length r0)
              (length done + 1)
              (done ++ x ∷ (rest ++ post))
    back_left x i =
        merge_loops (snoc l0 l x i) (r0 ++ y ∷ r) (length l) (suc (length r)) (length-snoc l0 x i)
          (length r0) (length-snoc done x i) (snoc done (rest ++ post) x i)

    back_right :
        (y : ℤ)
        → merge_loops
            (l0 ++ x ∷ l)
            ((r0 ++ y ∷ []) ++ r)
            (suc (length l))
            (length r)
            (length l0)
            (length (r0 ++ y ∷ []))
            (length (done ++ y ∷ []))
            ((done ++ y ∷ []) ++ (rest ++ post))
          ≡ merge_loops
              (l0 ++ x ∷ l)
              (r0 ++ y ∷ r)
              (suc (length l))
              (length r)
              (length l0)
              (length r0 + 1)
              (length done + 1)
              (done ++ y ∷ (rest ++ post))
    back_right y i =
        merge_loops (l0 ++ x ∷ l) (snoc r0 r y i) (suc (length l)) (length r) (length l0)
          (length-snoc r0 y i) (length-snoc done y i) (snoc done (rest ++ post) y i)

module _ (z : ℤ) where
  -- What `copy_in` fetches: `l`, which stands in the array behind `pre`.
  fetched :
      (n from : ℕ) (vet pre l post : List ℤ)
      → vet ≡ pre ++ (l ++ post)
      → length pre ≡ from
      → length l ≡ n
      → copy_in true (some z) (n + 1) 0 from vet (replicate n (pos 0)) ≡ some l
  fetched n from vet pre l post e f m =
      ap (λ k. copy_in true (some z) k 0 from vet (replicate n (pos 0))) rounds
      ∙ copy_in_lem z from vet [] l (replicate n (pos 0)) (length-replicate n (pos 0) ∙ sym m)
          (omega (arith, f, ap length e, length-append pre (l ++ post), length-append l post)) there
    where
      rounds : n + 1 ≡ suc (length l)
      rounds = omega (arith, m)

      there : (k : ℕ) → k < length l → at vet (from + (0 + k)) ≡ at l k
      there k h =
          ap₂ at e (omega (arith, f))
          ∙ at-append_right pre (l ++ post) k
          ∙ at-append_left l post k h

  merge_steps :
      (vet l r : List ℤ) (left middle right : ℕ)
      → copy_in true
          (some z)
          (middle - left + 1 + 1)
          0
          left
          vet
          (replicate (middle - left + 1) (pos 0))
        ≡ some l
      → copy_in true
          (some z)
          (right - middle + 1)
          0
          (middle + 1)
          vet
          (replicate (right - middle) (pos 0))
        ≡ some r
      → merge true (some z) vet left middle right
        ≡ merge_loops l r (middle - left + 1) (right - middle) 0 0 left vet
  unfolding merge
  merge_steps vet l r left middle right e f = ground (arith, e, f)

  -- `merge` on an array in which `l` and then `r` stand behind `pre`.
  pub merge_parts :
      (vet pre l r post : List ℤ) (left middle right : ℕ)
      → vet ≡ pre ++ (l ++ (r ++ post))
      → length pre ≡ left
      → length l ≡ middle - left + 1
      → length r ≡ right - middle
      → left ≤ middle
      → merge true (some z) vet left middle right ≡ some (pre ++ (merge_lists l r ++ post))
  merge_parts vet pre l r post left middle right e p m n le =
      merge_steps vet l r left middle right
        (fetched (middle - left + 1) left vet pre l (r ++ post) e p m)
        (fetched (right - middle) (middle + 1) vet (pre ++ l) r post
          (e ∙ sym (append_assoc pre l (r ++ post))) (omega (arith, length-append pre l, p, m)) n)
      ∙ all_same
      ∙ merge_loops_lem [] l [] r pre (l ++ r) post (length-append l r)
    where
      all_same :
          merge_loops l r (middle - left + 1) (right - middle) 0 0 left vet
          ≡ merge_loops l r (length l) (length r) 0 0 (length pre) (pre ++ ((l ++ r) ++ post))
      all_same i =
          merge_loops l r (sym m i) (sym n i) 0 0 (sym p i)
            ((e ∙ ap (λ q. pre ++ q) (sym (append_assoc l r post))) i)
