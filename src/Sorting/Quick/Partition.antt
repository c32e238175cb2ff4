-- ===== src/Sorting/Quick/Partition.antt =====
-- The outer loop of `qsorter` ends, and splits the region.
use mathlib.Core.Path.{subst}
use sdp_labs.Common.{
  ℕ, zero, suc, ◌+◌, ◌≤◌, ◌<◌, ◌≡◌, ◌⊎◌, ◌∙◌, sym, ap, inl, inr, Option, some, List, arith, length,
  ℕ_discrete, dec_lt,
}
use sdp_labs.Common.Int.{ℤ, ◌≤ℤ◌}
use sdp_labs.Sorting.Bubble.Region.{at}
use sdp_labs.Sorting.Quick.{scan_down, scan_up, partition_loop, swap}
use sdp_labs.Sorting.Quick.Scans.{Down, Up, scan_down_lem, scan_up_lem}
use sdp_labs.Sorting.Quick.Shuffled.{
  Shuffled, Shuffled-refl, Shuffled-trans, Shuffled-widen, at-swap_first, at-swap_second,
  at-swap_ne, swap-Shuffled,
}

abbrev pub Below : List ℤ → ℤ → ℕ → ℕ → Type 0
Below v x lo hi = (k : ℕ) → lo ≤ k → k < hi → at v k ≤ℤ x

abbrev pub Above : List ℤ → ℤ → ℕ → ℕ → Type 0
Above v x lo hi = (k : ℕ) → lo ≤ k → k < hi → x ≤ℤ at v k

-- What holds at the head of the loop: what is left of `i` and right of `j` is on its side, and there is an
-- element at `p` that stops the first scan, and one at `q` that stops the second.
pub record Head (v : List ℤ) (x : ℤ) (left right i j : ℕ) : Type 0 where
  pub in_array : right < length v
  pub low_end : left ≤ i
  pub high_end : j ≤ right + 1
  pub low : Below v x left i
  pub high : Above v x j (right + 1)
  pub p : ℕ
  pub p_left : left ≤ p
  pub p_right : p < j
  pub p_small : at v p ≤ℤ x
  pub q : ℕ
  pub q_left : i ≤ q
  pub q_right : q ≤ right
  pub q_great : x ≤ℤ at v q
  pub gap : (q < right) ⊎ (j ≤ right)

-- The region is split behind `j`.
pub record Split (v : List ℤ) (x : ℤ) (left right : ℕ) (r : Option (ℕ × List ℤ)) : Type 0 where
  pub j : ℕ
  pub w : List ℤ
  pub result : r ≡ some (j, w)
  pub from_left : left ≤ j
  pub to_right : j < right
  pub shuffled : Shuffled left right v w
  pub low : Below w x left (j + 1)
  pub high : Above w x (j + 1) (right + 1)

loop_steps :
    (fuel : ℕ) (v : List ℤ) (x : ℤ) (i j : ℕ) {down up : ℕ}
    → scan_down v x j ≡ some down
    → scan_up (length v) v x i ≡ some up
    → (up < down
        → partition_loop (suc fuel) v x i j ≡ partition_loop fuel (swap v up down) x (up + 1) down)
      × (down ≤ up → partition_loop (suc fuel) v x i j ≡ some (down, v))
unfolding partition_loop
loop_steps fuel v x i j e f = ground (arith, e, f)

module _ (v : List ℤ) (x : ℤ) (left right i j : ℕ) (h : Head v x left right i j)
    (d : Down v x h.p j) (u : Up v x (length v) i h.q) where
  -- All that the second scan passed, and all before.
  low_so_far : Below v x left u.stop
  low_so_far k a b = elim (dec_lt k i) [
    | yes old ↦ h.low k a old
    | no new ↦ u.passed k (omega arith) b
  ]

  high_so_far : Above v x (d.stop + 1) (right + 1)
  high_so_far k a b = elim (dec_lt k j) [
    | yes new ↦ d.passed k (omega arith) new
    | no old ↦ h.high k (omega arith) b
  ]

  -- The two scans have met.
  met : d.stop ≤ u.stop → {r : Option (ℕ × List ℤ)} → r ≡ some (d.stop, v) → Split v x left right r
  met le e = record {
    j = d.stop;
    w = v;
    result = e;
    from_left = omega (arith, d.from_p, h.p_left);
    to_right = elim h.gap [
      | inl a ↦ omega (arith, a, u.to_q, le)
      | inr a ↦ omega (arith, a, d.below)
    ];
    shuffled = Shuffled-refl left right v;
    low = λ k a b. elim (ℕ_discrete k d.stop) [
      | yes last ↦ subst (λ n. at v n ≤ℤ x) (sym last) d.small
      | no nl ↦ low_so_far k a (omega arith)
    ];
    high = high_so_far;
  }

  module _ (lt : u.stop < d.stop) where
    in_region : d.stop < length v
    in_region = omega (arith, d.below, h.high_end, h.in_array)

    swapped_low : Below (swap v u.stop d.stop) x left (u.stop + 1)
    swapped_low k a b = elim (ℕ_discrete k u.stop) [
      | yes last ↦
          subst (λ z. z ≤ℤ x)
            (sym (ap (at (swap v u.stop d.stop)) last ∙ at-swap_first v u.stop d.stop lt in_region))
            d.small
      | no nl ↦
          subst (λ z. z ≤ℤ x) (sym (at-swap_ne v u.stop d.stop k (omega arith) (omega arith)))
            (low_so_far k a (omega arith))
    ]

    swapped_high : Above (swap v u.stop d.stop) x d.stop (right + 1)
    swapped_high k a b = elim (ℕ_discrete k d.stop) [
      | yes first ↦
          subst (λ z. x ≤ℤ z)
            (sym (ap (at (swap v u.stop d.stop)) first ∙ at-swap_second v u.stop d.stop in_region))
            u.great
      | no nf ↦
          subst (λ z. x ≤ℤ z) (sym (at-swap_ne v u.stop d.stop k (omega arith) (omega arith)))
            (high_so_far k (omega arith) b)
    ]

    -- After a swap the loop goes on: the two elements stop the next scans.
    next : Head (swap v u.stop d.stop) x left right (u.stop + 1) d.stop
    next = record {
      in_array = omega (arith, h.in_array, (swap-Shuffled v u.stop d.stop lt in_region).size);
      low_end = omega (arith, h.low_end, u.from_i);
      high_end = omega (arith, d.below, h.high_end);
      low = swapped_low;
      high = swapped_high;
      p = u.stop;
      p_left = omega (arith, h.low_end, u.from_i);
      p_right = lt;
      p_small = swapped_low u.stop (omega (arith, h.low_end, u.from_i)) (omega arith);
      q = d.stop;
      q_left = omega arith;
      q_right = omega (arith, d.below, h.high_end);
      q_great = swapped_high d.stop (omega arith) (omega (arith, d.below, h.high_end));
      gap = inr (omega (arith, d.below, h.high_end));
    }

    swapped_in : Shuffled left right v (swap v u.stop d.stop)
    swapped_in =
        Shuffled-widen (omega (arith, h.low_end, u.from_i)) (omega (arith, d.below, h.high_end))
          (swap-Shuffled v u.stop d.stop lt in_region)

pub partition_lem :
    (fuel : ℕ) (v : List ℤ) (x : ℤ) (left right i j : ℕ)
    → j < fuel
    → Head v x left right i j
    → Split v x left right (partition_loop fuel v x i j)
partition_lem zero v x left right i j enough h = absurd (omega arith)
partition_lem (suc fuel) v x left right i j enough h =
    let d = scan_down_lem v x j h.p h.p_right (omega (arith, h.high_end, h.in_array)) h.p_small in
    let u =
      scan_up_lem (length v) v x i h.q h.q_left (omega (arith, h.q_right, h.in_array))
        (omega (arith, h.q_right, h.in_array)) h.q_great in
    let steps = loop_steps fuel v x i j d.result u.result in
    elim (dec_lt u.stop d.stop) [
      | no n ↦ met v x left right i j h d u (omega arith) (steps.1 (omega arith))
      | yes lt ↦
          let s =
            partition_lem fuel (swap v u.stop d.stop) x left right (u.stop + 1) d.stop
              (omega (arith, d.below)) (next v x left right i j h d u lt) in
          record {
            j = s.j;
            w = s.w;
            result = steps.0 lt ∙ s.result;
            from_left = s.from_left;
            to_right = s.to_right;
            shuffled = Shuffled-trans (swapped_in v x left right i j h d u lt) s.shuffled;
            low = s.low;
            high = s.high;
          }
    ]

-- The first head of the loop: the pivot stops both scans.
pub first_head :
    (v : List ℤ) (left right : ℕ)
    → left < right
    → right < length v
    → Head v (at v left) left right left (right + 1)
first_head v left right lt h = record {
  in_array = h;
  low_end = omega arith;
  high_end = omega arith;
  low = λ k a b. absurd (omega arith);
  high = λ k a b. absurd (omega arith);
  p = left;
  p_left = omega arith;
  p_right = omega arith;
  p_small = omega arith;
  q = left;
  q_left = omega arith;
  q_right = omega arith;
  q_great = omega arith;
  gap = inl lt;
}
