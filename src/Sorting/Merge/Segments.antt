-- ===== src/Sorting/Merge/Segments.antt =====
-- A segment of an array, as a list and by its places.
use mathlib.Core.Path.{subst, subst₂}
use sdp_labs.Common.{
  ℕ, ◌+◌, ◌-◌, ◌≤◌, ◌<◌, ◌≡◌, ◌⊎◌, ◌∙◌, sym, ap, inl, inr, Bool, List, ◌++◌, arith, length, take,
  drop, take-append-drop, length-take, length-drop, length-append,
}
use sdp_labs.Common.Count.{count, count-append, All}
use sdp_labs.Common.Int.{ℤ, ◌≤ℤ◌, eqb_ℤ}
use sdp_labs.Sorting.Bubble.Region.{at, Bounded, Region}
use sdp_labs.Sorting.Bubble.Sorted.{SortedIn}
use sdp_labs.Sorting.Merge.Lists
use sdp_labs.Sorting.Merge.Lists.{merge_lists}
use sdp_labs.Sorting.Merge.Places.{at-append_left, at-append_right}

-- An array in three parts, the middle one from `lo` to `hi`.
pub record Parts (lo hi : ℕ) (a : List ℤ) : Type 0 where
  pub pre : List ℤ
  pub seg : List ℤ
  pub post : List ℤ
  pub whole : a ≡ pre ++ (seg ++ post)
  pub before : length pre ≡ lo
  pub size : length seg ≡ hi - lo + 1

pub parts : (lo hi : ℕ) (a : List ℤ) → lo ≤ hi → hi < length a → Parts lo hi a
parts lo hi a le h = record {
  pre = take lo a;
  seg = take (hi - lo + 1) (drop lo a);
  post = drop (hi - lo + 1) (drop lo a);
  whole = sym (
      ap (λ q. take lo a ++ q) (take-append-drop (hi - lo + 1) (drop lo a))
      ∙ take-append-drop lo a);
  before = omega (arith, length-take lo a);
  size = omega (arith, length-take (hi - lo + 1) (drop lo a), length-drop lo a);
}

-- The segment `s` by places of the array.
pub seg-at :
    (pre s post : List ℤ) (k : ℕ)
    → length pre ≤ k
    → k < length pre + length s
    → at (pre ++ (s ++ post)) k ≡ at s (k - length pre)
seg-at pre s post k le lt =
    ap (at (pre ++ (s ++ post))) (omega arith)
    ∙ at-append_right pre (s ++ post) (k - length pre)
    ∙ at-append_left s post (k - length pre) (omega arith)

-- To put `t` in the place of `s`.
module _ (pre s t post : List ℤ) {lo hi : ℕ} (before : length pre ≡ lo)
    (size : length s ≡ hi - lo + 1) (le : lo ≤ hi) (same : length t ≡ length s) where
  seg_outside :
      (k : ℕ) → (k < lo) ⊎ (hi < k) → at (pre ++ (t ++ post)) k ≡ at (pre ++ (s ++ post)) k
  seg_outside k (inl h) =
      at-append_left pre (t ++ post) k (omega arith)
      ∙ sym (at-append_left pre (s ++ post) k (omega arith))
  seg_outside k (inr h) = behind t (omega arith) ∙ sym (behind s (omega arith))
    where
      behind :
          (q : List ℤ) → length q ≡ hi - lo + 1 → at (pre ++ (q ++ post)) k ≡ at post (k - (hi + 1))
      behind q e =
          ap (at (pre ++ (q ++ post))) (omega arith)
          ∙ at-append_right pre (q ++ post) (length q + (k - (hi + 1)))
          ∙ at-append_right q post (k - (hi + 1))

-- Bounds of a segment by its places are bounds of its members.
seg-Bounded :
    (pre s t post : List ℤ) {lo hi : ℕ}
    → length pre ≡ lo
    → length s ≡ hi - lo + 1
    → length t ≡ hi - lo + 1
    → lo ≤ hi
    → ((v : ℤ) → All (λ z. z ≤ℤ v) s → All (λ z. z ≤ℤ v) t)
    → Bounded lo hi (pre ++ (s ++ post)) (pre ++ (t ++ post))
seg-Bounded pre s t post {lo} {hi} before ms mt le keep v h k p q =
    subst (λ z. z ≤ℤ v) (sym (seg-at pre t post k (omega arith) (omega arith)))
      (Lists.at-All (λ z. z ≤ℤ v) t (k - length pre) (keep v members) (omega arith))
  where
    members : All (λ z. z ≤ℤ v) s
    members =
        Lists.All-at (λ z. z ≤ℤ v) s
          (λ i lt.
            subst (λ z. z ≤ℤ v) (at-append_right pre (s ++ post) i ∙ at-append_left s post i lt)
              (h (length pre + i) (omega arith) (omega arith)))

seg_count :
    (f : ℤ → Bool) (pre s post : List ℤ)
    → count f (pre ++ (s ++ post)) ≡ count f pre + (count f s + count f post)
seg_count f pre s post = omega (arith, count-append f pre (s ++ post), count-append f s post)

pub seg-Region :
    (pre s t post : List ℤ) {lo hi : ℕ}
    → length pre ≡ lo
    → length s ≡ hi - lo + 1
    → length t ≡ hi - lo + 1
    → lo ≤ hi
    → ((f : ℤ → Bool) → count f t ≡ count f s)
    → ((v : ℤ) → All (λ z. z ≤ℤ v) s → All (λ z. z ≤ℤ v) t)
    → ((v : ℤ) → All (λ z. z ≤ℤ v) t → All (λ z. z ≤ℤ v) s)
    → Region lo hi (pre ++ (s ++ post)) (pre ++ (t ++ post))
seg-Region pre s t post before ms mt le perm keep back = record {
  size = omega (
    arith,
    length-append pre (t ++ post),
    length-append pre (s ++ post),
    length-append t post,
    length-append s post,
  );
  perm = λ v.
      omega (arith, seg_count (eqb_ℤ v) pre t post, seg_count (eqb_ℤ v) pre s post, perm (eqb_ℤ v));
  outside = seg_outside pre s t post before ms le (mt ∙ sym ms);
  bound = seg-Bounded pre s t post before ms mt le keep;
  back = seg-Bounded pre t s post before mt ms le back;
}

-- A segment whose places are in order, and back.
pub seg-IsSorted :
    (pre s post : List ℤ) {lo hi : ℕ}
    → length pre ≡ lo
    → length s ≡ hi - lo + 1
    → lo ≤ hi
    → SortedIn lo hi (pre ++ (s ++ post))
    → Lists.IsSorted s
seg-IsSorted pre s post before ms le h = Lists.IsSorted-at s (λ i j p q.
    subst₂ (λ x y. x ≤ℤ y)
      (at-append_right pre (s ++ post) i ∙ at-append_left s post i (omega arith))
      (at-append_right pre (s ++ post) j ∙ at-append_left s post j q)
      (h (length pre + i) (length pre + j) (omega arith) (omega arith) (omega arith)))

pub seg-SortedIn :
    (pre s post : List ℤ) {lo hi : ℕ}
    → length pre ≡ lo
    → length s ≡ hi - lo + 1
    → lo ≤ hi
    → Lists.IsSorted s
    → SortedIn lo hi (pre ++ (s ++ post))
seg-SortedIn pre s post before ms le h i j p q r =
    subst₂ (λ x y. x ≤ℤ y) (sym (seg-at pre s post i (omega arith) (omega arith)))
      (sym (seg-at pre s post j (omega arith) (omega arith)))
      (Lists.at-IsSorted s (i - length pre) (j - length pre) h (omega arith) (omega arith))
