-- ===== src/Lab11/Accounts/Ending.antt =====
-- The threads of lab11es01.cpp end: none waits for ever, and there are not many steps.
use mathlib.Core.Path.{subst}
use sdp_labs.Common.{
  ℕ, zero, suc, ◌+◌, ◌*◌, ◌≤◌, ◌<◌, ◌≡◌, ◌∙◌, ap, refl, ◌⊎◌, inl, inr, ◌==◌, true, Option, none,
  some, some_inj, Option-cases, Bool-cases, List, [], ◌∷◌, get_elem?, map, arith, length, dec_lt,
}
use sdp_labs.Common.Count.{count, count-found}
use sdp_labs.Common.Sum.{sum, sum-set}
use sdp_labs.Lab11.Accounts.{
  Version, Operation, Phase, Thread, State, account_at, lock_of, holds, holder, read_operation,
  do_operations, Step, started, created,
}
use sdp_labs.Lab11.Accounts.Exclusion.{Result}

-- How many steps a thread has in its round, and in all.
abbrev round_steps : Phase → ℕ
round_steps Phase.looping = 1
round_steps (Phase.locking op) = 5
round_steps (Phase.holding op) = 4
round_steps (Phase.writing op v) = 3
round_steps (Phase.failing op) = 3
round_steps (Phase.releasing op) = 2
round_steps (Phase.ended code) = 0

abbrev steps_left : Thread → ℕ
steps_left t = round_steps t.phase + 5 * length t.operations

read-shorter :
    (ops : List (Option Operation)) (t : Thread)
    → t.phase ≡ Phase.looping
    → t.operations ≡ ops
    → steps_left (read_operation ops t) < steps_left t
read-shorter [] t e f = ground (arith, e, f)
read-shorter (none ∷ rest) t e f = ground (arith, e, f)
read-shorter (some op ∷ rest) t e f = ground (arith, e, f)

abbrev pub HasEnded : Phase → Type 0
HasEnded p = (code : ℕ) × (p ≡ Phase.ended code)

here : (n : ℕ) → (n == n) ≡ true
here n = ground arith

module _ (version : Version) where
  known_shorter :
      {l l' : List ℕ} (t u t' : Thread)
      → steps_left u < steps_left t
      → ◌≡◌ {A = Option Result} (some (l, u)) (some (l', t'))
      → steps_left t' < steps_left t
  known_shorter t u t' h e = subst (λ (r : Result). steps_left r.1 < steps_left t) (some_inj e) h

  do_operations-shorter :
      (p : Phase) (t t' : Thread) (s : State) (l : List ℕ)
      → t.phase ≡ p
      → do_operations version p t s ≡ some (l, t')
      → steps_left t' < steps_left t
  unfolding do_operations
  do_operations-shorter Phase.looping t t' s l h e =
      known_shorter t (read_operation t.operations t) t' (read-shorter t.operations t h refl) e
  do_operations-shorter (Phase.locking op) t t' s l h e =
      elim (Bool-cases (count (holder version (lock_of version op)) s.threads == 0)) [
        | inl z ↦ ground (arith, e, z, h)
        | inr z ↦ absurd (ground (arith, e, z))
      ]
  do_operations-shorter (Phase.holding op) t t' s l h e =
      elim (Option-cases (account_at s.accounts op.id)) [
        | inl z ↦ ground (arith, e, z, h)
        | inr (v, z) ↦ ground (arith, e, z, h)
      ]
  do_operations-shorter (Phase.ended code) t t' s l h e = absurd (ground (arith, e))
  do_operations-shorter _ t t' s l h e = ground (arith, e, h)

  abbrev pub CanStep : State → Type 0
  CanStep s = (s' : State) × Step version s s'

  -- A thread that holds a lock does not wait.
  holder-CanStep :
      (k : ℕ) (p : Phase) (t : Thread) (s : State)
      → holds version k p ≡ true
      → (l : List ℕ) × (t' : Thread) × (do_operations version p t s ≡ some (l, t'))
  unfolding do_operations
  holder-CanStep k (Phase.holding op) t s h = elim (Option-cases (account_at s.accounts op.id)) [
    | inl z ↦ (s.accounts, record t { phase = Phase.failing op }, ground (arith, z))
    | inr (v, z) ↦ (s.accounts, record t { phase = Phase.writing op v }, ground (arith, z))
  ]
  holder-CanStep k Phase.looping t s h = absurd (ground arith)
  holder-CanStep k (Phase.locking op) t s h = absurd (ground arith)
  holder-CanStep k (Phase.ended code) t s h = absurd (ground arith)
  holder-CanStep k _ t s h = (_, _, refl)

  goes_on :
      (p : Phase) (i : ℕ) (t : Thread) (s : State)
      → get_elem? s.threads i ≡ some t
      → t.phase ≡ p
      → HasEnded p ⊎ CanStep s
  unfolding do_operations
  goes_on Phase.looping i t s at h = inr (
    _,
    Step.steps i t (read_operation t.operations t) s.accounts at
        (ap (λ q. do_operations version q t s) h),
  )
  goes_on (Phase.locking op) i t s at h =
      elim (dec_lt 0 (count (holder version (lock_of version op)) s.threads)) [
        | yes z ↦
            let (j, u, at', holding) =
              count-found (holder version (lock_of version op)) s.threads z in
            let (l, u', e) = holder-CanStep (lock_of version op) u.phase u s holding in
            inr (_, Step.steps j u u' l at' e)
        | no z ↦
            let free : (count (holder version (lock_of version op)) s.threads == 0) ≡ true =
              ground (arith, z) in
            inr (
              _,
              Step.steps i t (record t { phase = Phase.holding op }) s.accounts at
                  (ap (λ q. do_operations version q t s) h ∙ ground (arith, free)),
            )
      ]
  goes_on (Phase.ended code) i t s at h = inl (code, refl)
  goes_on (Phase.holding op) i t s at h =
      let (l, t', e) =
        holder-CanStep (lock_of version op) (Phase.holding op) t s (here (lock_of version op)) in
      inr (_, Step.steps i t t' l at (ap (λ q. do_operations version q t s) h ∙ e))
  goes_on (Phase.failing op) i t s at h =
      let (l, t', e) =
        holder-CanStep (lock_of version op) (Phase.failing op) t s (here (lock_of version op)) in
      inr (_, Step.steps i t t' l at (ap (λ q. do_operations version q t s) h ∙ e))
  goes_on (Phase.releasing op) i t s at h =
      let (l, t', e) =
        holder-CanStep (lock_of version op) (Phase.releasing op) t s (here (lock_of version op)) in
      inr (_, Step.steps i t t' l at (ap (λ q. do_operations version q t s) h ∙ e))
  goes_on (Phase.writing op v) i t s at h =
      let (l, t', e) =
        holder-CanStep (lock_of version op) (Phase.writing op v) t s (here (lock_of version op)) in
      inr (_, Step.steps i t t' l at (ap (λ q. do_operations version q t s) h ∙ e))

  pub data Run : ℕ → State → State → Type 0 where
    none_yet : {s : State} → Run zero s s
    one_more : {n : ℕ} {s t u : State} → Run n s t → Step version t u → Run (suc n) s u

  Step-shorter :
      {s s' : State} → Step version s s' → sum steps_left s'.threads < sum steps_left s.threads
  Step-shorter {s} (Step.steps i t t' l at e) =
      omega (
        arith,
        do_operations-shorter t.phase t t' s l refl e,
        sum-set steps_left s.threads i t t' at,
      )

  module _ (accounts : List ℕ) (files : List (List (Option Operation))) where
    at_start :
        (l : List (List (Option Operation)))
        → sum steps_left (map created l) ≡ sum (λ ops. 5 * length ops + 1) l
    unfolding sum
    at_start [] = refl
    at_start (ops ∷ l) = omega (arith, at_start l)

    Run-shorter :
        {n : ℕ} {s : State}
        → Run n (started version accounts files) s
        → n + sum steps_left s.threads ≤ sum (λ ops. 5 * length ops + 1) files
    Run-shorter Run.none_yet = omega (arith, at_start files)
    Run-shorter (Run.one_more r st) = omega (arith, Step-shorter st, Run-shorter r)

    -- No run has more than 5 steps for each operation of a file and one for each file; and in any state each
    -- thread has returned, or some thread has a step: a thread that waits for its lock waits for one that has.
    pub all_return :
        {n : ℕ} {s : State} (i : ℕ) (t : Thread)
        → Run n (started version accounts files) s
        → get_elem? s.threads i ≡ some t
        → (n ≤ sum (λ ops. 5 * length ops + 1) files) × (HasEnded t.phase ⊎ CanStep s)
    all_return {s = s} i t r at = (omega (arith, Run-shorter r), goes_on t.phase i t s at refl)
