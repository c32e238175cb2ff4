-- ===== src/Lab11/Accounts/Exclusion.antt =====
-- The lock of lab11es01.cpp: at most one thread holds it.
use mathlib.Core.Path.{subst}
use sdp_labs.Common.{
  ℕ, ◌≤◌, ◌≡◌, ◌≢◌, ◌∙◌, ap, refl, ◌⊎◌, inl, inr, ◌==◌, ==_iff, true, false, Option, none, some,
  some_inj, Option-cases, Bool-cases, List, [], ◌∷◌, get_elem?, set, map, get_elem?-set_ne, arith,
}
use sdp_labs.Common.Count.{count, count-set, count-pos}
use sdp_labs.Lab11.Accounts.{
  Version, Operation, Phase, Thread, State, account_at, lock_of, holds, holder, read_operation,
  do_operations, Step, Reach, created,
}

abbrev pub Result : Type 0
Result = List ℕ × Thread

module _ (version : Version) where
  abbrev pub AtMostOne : State → Type 0
  AtMostOne s = (k : ℕ) → count (holder version k) s.threads ≤ 1

  read-holds :
      (k : ℕ) (ops : List (Option Operation)) (t : Thread)
      → holder version k (read_operation ops t) ≡ false
  read-holds k [] t = refl
  read-holds k (none ∷ rest) t = refl
  read-holds k (some op ∷ rest) t = refl

  -- A thread that holds a lock after its step held it before, or took it while nobody did.
  holds-step :
      (k : ℕ) (p : Phase) (t t' : Thread) (s : State) (l : List ℕ)
      → do_operations version p t s ≡ some (l, t')
      → holder version k t' ≡ true
      → (holds version k p ≡ true) ⊎ (count (holder version k) s.threads ≡ 0)
  unfolding do_operations
  holds-step k Phase.looping t t' s l e h =
      let same = ap (λ (r : Result). holder version k r.1) (some_inj e) in
      absurd (ground (arith, read-holds k t.operations t, same, h))
  holds-step k (Phase.locking op) t t' s l e h =
      let taken : ℕ = lock_of version op in
      elim (Bool-cases (count (holder version taken) s.threads == 0)) [
        | inl z ↦
            let same : (taken == k) ≡ true = ground (arith, e, z, h) in
            inr (
              subst (λ j. count (holder version j) s.threads ≡ 0) ((==_iff taken k).0 same)
                ((==_iff (count (holder version taken) s.threads) 0).0 z))
        | inr z ↦ absurd (ground (arith, e, z))
      ]
  holds-step k (Phase.holding op) t t' s l e h = elim (Option-cases (account_at s.accounts op.id)) [
    | inl z ↦ inl (ground (arith, e, z, h))
    | inr (v, z) ↦ inl (ground (arith, e, z, h))
  ]
  holds-step k (Phase.writing op v) t t' s l e h = inl (ground (arith, e, h))
  holds-step k _ t t' s l e h = absurd (ground (arith, e, h))

  Step-AtMostOne : {s s' : State} → AtMostOne s → Step version s s' → AtMostOne s'
  Step-AtMostOne {s} h (Step.steps i t t' l at e) = λ k.
      let moved = count-set (holder version k) s.threads i t t' at in
      elim (Bool-cases (holder version k t')) [
        | inl now ↦ elim (holds-step k t.phase t t' s l e now) [
          | inl before ↦ ground (arith, moved, now, before, h k)
          | inr free ↦ ground (arith, moved, now, free, h k)
        ]
        | inr not_now ↦ ground (arith, moved, not_now, h k)
      ]

  -- Two threads do not hold one lock.
  pub two_holders :
      (k i j : ℕ) (s : State) {t u : Thread}
      → AtMostOne s
      → i ≢ j
      → get_elem? s.threads i ≡ some t
      → get_elem? s.threads j ≡ some u
      → holder version k t ≡ true
      → holder version k u ≡ true
      → ⊥
  two_holders k i j s {t} {u} h ne at at' ht hu =
      let t' : Thread = record t { phase = Phase.looping } in
      let moved = count-set (holder version k) s.threads i t t' at in
      let left =
        count-pos (holder version k) (set s.threads i t') j {x = u}
          (get_elem?-set_ne s.threads t' ne ∙ at') hu in
      ground (arith, moved, left, ht, h k)

  module _ (accounts : List ℕ) (files : List (List (Option Operation))) where
    free_at_start :
        (k : ℕ) (l : List (List (Option Operation))) → count (holder version k) (map created l) ≡ 0
    unfolding count
    free_at_start k [] = refl
    free_at_start k (x ∷ l) = omega (arith, free_at_start k l)

    pub Reach-AtMostOne : {s : State} → Reach version accounts files s → AtMostOne s
    Reach-AtMostOne Reach.begins = λ k. omega (arith, free_at_start k files)
    Reach-AtMostOne (Reach.later r st) = Step-AtMostOne (Reach-AtMostOne r) st
