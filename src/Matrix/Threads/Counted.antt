-- ===== src/Matrix/Threads/Counted.antt =====
-- The invariant of the threads: who has counted himself out, and what stands in `v`.
use sdp_labs.Common.{
  ℕ, ◌+◌, ◌-◌, ◌<◌, ◌≡◌, ◌∙◌, sym, ap, inl, inr, refl, Bool, true, false, some, List, [], ◌∷◌, ◌==◌,
  arith, length, get_elem?, get_or, set, replicate, if◌then◌else◌, Bool-cases, length-set,
  length-append, get_elem?-set, get_or-set_self, get_or-set_ne, get-lt-length, lt-length-get,
  length-replicate, replicate-entry,
}
use sdp_labs.Common.Count.{count, count-set, count-pos, count-replicate, one_if, All, All-append}
use sdp_labs.Matrix.{Number, entry, dot, product}
use sdp_labs.Matrix.Product.{row_sum, total, dot-same, product_lem}
use sdp_labs.Matrix.Threads.{
  Phase, Pool, add_row, count_out, print_result, adds, counts, prints, started, Reach, start, later,
}

-- The threads that are still counted in `n_thread_left`, those that are about to print, and those
-- that have ended.
abbrev pub counted : Phase → Bool
counted Phase.fresh = true
counted Phase.summed = true
counted Phase.last = false
counted Phase.ended = false

abbrev pub is_last : Phase → Bool
is_last Phase.last = true
is_last Phase.fresh = false
is_last Phase.summed = false
is_last Phase.ended = false

abbrev pub is_fresh : Phase → Bool
is_fresh Phase.fresh = true
is_fresh Phase.summed = false
is_fresh Phase.last = false
is_fresh Phase.ended = false

counted_fresh : (p : Phase) → counted p ≡ false → is_fresh p ≡ false
counted_fresh Phase.fresh h = absurd (ground arith)
counted_fresh _ h = refl

module _ {E : Type 0} (num : Number E) (v1 : List E) (mat : List (List E)) (v2 : List E)
    (k : ℕ) where
  -- What stands at place `i` of `v` while the thread is at `p`.
  abbrev pub cell : ℕ → Phase → E
  cell i p = if is_fresh p then num.none_yet else row_sum num mat v2 k i

  pub record Holds (s : Pool E) : Type 0 where
    pub size_v : length s.v ≡ k
    pub size_p : length s.phases ≡ k
    pub left : s.n_thread_left ≡ count counted s.phases
    pub sums :
        (i : ℕ) {p : Phase} → get_elem? s.phases i ≡ some p → get_or s.v i num.junk ≡ cell i p
    pub once : count is_last s.phases + length s.printed ≡ one_if (s.n_thread_left == 0)
    pub value : All (λ x. x ≡ product num v1 mat v2 k) s.printed

  nothing_left :
      {s : Pool E} (i : ℕ) → Holds s → get_elem? s.phases i ≡ some Phase.last → s.n_thread_left ≡ 0
  nothing_left {s} i h e = ground (arith, h.once, count-pos is_last s.phases i e refl)

  -- All rows are summed when a thread is about to print.
  rows_done :
      {s : Pool E} (i : ℕ)
      → Holds s
      → get_elem? s.phases i ≡ some Phase.last
      → (j : ℕ) → j < k
      → get_or s.v j num.junk ≡ row_sum num mat v2 k j
  rows_done {s} i h e j lt =
      let (q, here) = get-lt-length s.phases j (omega (arith, h.size_p)) in
      let out : counted q ≡ false = elim (Bool-cases (counted q)) [
        | inl yes_counted ↦ absurd (
            omega
              (arith, h.left, nothing_left i h e, count-pos counted s.phases j here yes_counted))
        | inr not_counted ↦ not_counted
      ] in
      h.sums j here
      ∙ ap (λ b. if b then num.none_yet else row_sum num mat v2 k j) (counted_fresh q out)

  add_row-Holds :
      {s : Pool E} (i : ℕ)
      → Holds s
      → get_elem? s.phases i ≡ some Phase.fresh
      → Holds (add_row num v1 mat v2 k i s)
  unfolding add_row
  add_row-Holds {s} i h e = record {
    size_v = length-set s.v i _ ∙ h.size_v;
    size_p = length-set s.phases i Phase.summed ∙ h.size_p;
    left = omega (arith, h.left, count-set counted s.phases i Phase.fresh Phase.summed e);
    sums = λ j {p} at. elim (get_elem?-set s.phases i j Phase.summed at) [
      | inl (same, is_summed) ↦
          let x : E =
            dot num k 0 (get_or s.v i num.junk) (λ j. entry num mat i j)
              (λ j. get_or v2 j num.junk) in
          ap (λ j. get_or (set s.v i x) j num.junk) same
          ∙ get_or-set_self s.v i x num.junk
              (omega (arith, lt-length-get s.phases i e, h.size_v, h.size_p))
          ∙ ap (λ x. dot num k 0 x (λ j. entry num mat i j) (λ j. get_or v2 j num.junk))
              (h.sums i e)
          ∙ ap (cell i) (sym is_summed)
          ∙ ap (λ j. cell j p) (sym same)
      | inr (ne, there) ↦ get_or-set_ne s.v i j _ num.junk (λ z. ne (sym z)) ∙ h.sums j there
    ];
    once = omega (arith, h.once, count-set is_last s.phases i Phase.fresh Phase.summed e);
    value = h.value;
  }

  -- Where `count_out` sends a thread.
  abbrev next : ℕ → Phase
  next n = if n - 1 == 0 then Phase.last else Phase.ended

  next_fresh : (n : ℕ) → is_fresh (next n) ≡ false
  next_fresh n = ground arith

  count_out-Holds :
      {s : Pool E} (i : ℕ)
      → Holds s
      → get_elem? s.phases i ≡ some Phase.summed
      → Holds (count_out num v1 mat v2 k i s)
  unfolding count_out
  count_out-Holds {s} i h e = record {
    size_v = h.size_v;
    size_p = length-set s.phases i _ ∙ h.size_p;
    left = ground (
      arith,
      h.left,
      count-set counted s.phases i Phase.summed (next s.n_thread_left) e,
      count-pos counted s.phases i e refl,
    );
    sums = λ j {p} at. elim (get_elem?-set s.phases i j (next s.n_thread_left) at) [
      | inl (same, out) ↦
          ap (λ j. get_or s.v j num.junk) same
          ∙ h.sums i e
          ∙ ap (λ b. if b then num.none_yet else row_sum num mat v2 k i)
              (sym (ap is_fresh out ∙ next_fresh s.n_thread_left))
          ∙ ap (λ j. cell j p) (sym same)
      | inr (ne, there) ↦ h.sums j there
    ];
    once = ground (
      arith,
      h.left,
      h.once,
      count-set is_last s.phases i Phase.summed (next s.n_thread_left) e,
      count-pos counted s.phases i e refl,
    );
    value = h.value;
  }

  print_result-Holds :
      {s : Pool E} (i : ℕ)
      → 0 < k
      → Holds s
      → get_elem? s.phases i ≡ some Phase.last
      → Holds (print_result num v1 mat v2 k i s)
  unfolding print_result
  print_result-Holds {s} i pos_k h e = record {
    size_v = h.size_v;
    size_p = length-set s.phases i Phase.ended ∙ h.size_p;
    left = omega (arith, h.left, count-set counted s.phases i Phase.last Phase.ended e);
    sums = λ j {p} at. elim (get_elem?-set s.phases i j Phase.ended at) [
      | inl (same, out) ↦
          ap (λ j. get_or s.v j num.junk) same
          ∙ h.sums i e
          ∙ ap (λ b. if b then num.none_yet else row_sum num mat v2 k i) (sym (ap is_fresh out))
          ∙ ap (λ j. cell j p) (sym same)
      | inr (ne, there) ↦ h.sums j there
    ];
    once = omega (
      arith,
      h.once,
      count-set is_last s.phases i Phase.last Phase.ended e,
      length-append s.printed (total num v1 k (λ j. get_or s.v j num.junk) ∷ []),
    );
    value =
        All-append (λ x. x ≡ product num v1 mat v2 k) s.printed _ h.value
          (
            dot-same num k 0 num.none_yet _ _ _ _ (λ j _. refl)
                  (λ j lt. rows_done i h e j (omega arith))
                ∙ sym (product_lem num v1 mat v2 k pos_k),
            tt,
          );
  }

  started-Holds :
      (v : List E)
      → 0 < k
      → length v ≡ k
      → ((i : ℕ) → i < k → get_or v i num.junk ≡ num.none_yet)
      → Holds (started num v1 mat v2 k v)
  started-Holds v pos_k size zeros = record {
    size_v = size;
    size_p = length-replicate k Phase.fresh;
    left = sym (count-replicate counted k Phase.fresh);
    sums = λ i {p} e.
        zeros i (
          omega
            (arith, lt-length-get (replicate k Phase.fresh) i e, length-replicate k Phase.fresh))
        ∙ ap (cell i) (sym (replicate-entry k i Phase.fresh e));
    once = ground (arith, count-replicate is_last k Phase.fresh);
    value = tt;
  }

  pub Reach-Holds :
      {v : List E} {s : Pool E}
      → 0 < k
      → length v ≡ k
      → ((i : ℕ) → i < k → get_or v i num.junk ≡ num.none_yet)
      → Reach num v1 mat v2 k v s
      → Holds s
  Reach-Holds {v} pos_k size zeros start = started-Holds v pos_k size zeros
  Reach-Holds pos_k size zeros (later r (adds i e)) =
      add_row-Holds i (Reach-Holds pos_k size zeros r) e
  Reach-Holds pos_k size zeros (later r (counts i e)) =
      count_out-Holds i (Reach-Holds pos_k size zeros r) e
  Reach-Holds pos_k size zeros (later r (prints i e)) =
      print_result-Holds i pos_k (Reach-Holds pos_k size zeros r) e
