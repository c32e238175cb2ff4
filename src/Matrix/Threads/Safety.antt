-- ===== src/Matrix/Threads/Safety.antt =====
-- What the threads print, whatever their order.
use sdp_labs.Common.{
  ℕ, ◌≤◌, ◌<◌, ◌≡◌, ap, refl, Bool, true, false, List, [], ◌∷◌, arith, length, get_or,
}
use sdp_labs.Common.Count.{count, All}
use sdp_labs.Matrix.{Number, product}
use sdp_labs.Matrix.Threads.{Phase, Pool, Reach}
use sdp_labs.Matrix.Threads.Counted.{counted, is_last, Reach-Holds}

abbrev pub has_ended : Phase → Bool
has_ended Phase.ended = true
has_ended Phase.fresh = false
has_ended Phase.summed = false
has_ended Phase.last = false

-- If all have ended, nobody is counted and nobody is about to print.
none_left :
    (l : List Phase)
    → All (λ p. has_ended p ≡ true) l
    → (count counted l ≡ 0) × (count is_last l ≡ 0)
unfolding count
none_left [] h = (refl, refl)
none_left (Phase.ended ∷ l) h = ground (arith, none_left l h.1)
none_left (Phase.fresh ∷ l) h = absurd (ground (arith, h.0))
none_left (Phase.summed ∷ l) h = absurd (ground (arith, h.0))
none_left (Phase.last ∷ l) h = absurd (ground (arith, h.0))

-- A list of one element that is `x`.
single : {E : Type 0} (x : E) (l : List E) → length l ≡ 1 → All (λ y. y ≡ x) l → l ≡ x ∷ []
single x [] e h = absurd (omega arith)
single x (y ∷ []) e h = ap (λ z. z ∷ []) h.0
single x (y ∷ z ∷ l) e h = absurd (omega arith)

-- For any dimension but 0 and any numbers, without any law of arithmetic: if `v` is all zeros at the start,
-- then in every order of the threads at most one number is printed, it is the one that the program of
-- lab2.3.c prints, and when all threads have ended it has been printed.
pub threads-product :
    {E : Type 0} (num : Number E) (v1 : List E) (mat : List (List E)) (v2 : List E) (k : ℕ)
    {v : List E} {s : Pool E}
    → 0 < k
    → length v ≡ k
    → ((i : ℕ) → i < k → get_or v i num.junk ≡ num.none_yet)
    → Reach num v1 mat v2 k v s
    → (length s.printed ≤ 1)
      × All (λ x. x ≡ product num v1 mat v2 k) s.printed
      × (All (λ p. has_ended p ≡ true) s.phases → s.printed ≡ product num v1 mat v2 k ∷ [])
threads-product num v1 mat v2 k {s = s} pos_k size zeros r =
    let h = Reach-Holds num v1 mat v2 k pos_k size zeros r in
    (
      ground (arith, h.once),
      h.value,
      λ done.
          let z = none_left s.phases done in
          single (product num v1 mat v2 k) s.printed (ground (arith, h.once, h.left, z)) h.value,
    )
