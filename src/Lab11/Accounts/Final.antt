-- ===== src/Lab11/Accounts/Final.antt =====
-- What the file of accounts of lab11es01.cpp holds when all threads have returned 0.
use mathlib.Core.Path.{subst}
use sdp_labs.Common.{
  ℕ, zero, suc, ◌+◌, ◌%◌, ◌^◌, ◌≡◌, refl, inl, inr, ◌==◌, Option, none, some, some_inj,
  Option-cases, Bool-cases, List, [], ◌∷◌, map, arith,
}
use sdp_labs.Common.Count.{count, All, All-set, All-get}
use sdp_labs.Common.Sum.{sum}
use sdp_labs.Lab11.Accounts.{
  Version, Operation, Phase, Thread, State, account_at, lock_of, holder, read_operation,
  do_operations, Step, Reach, created,
}
use sdp_labs.Lab11.Accounts.Exclusion.{Result}
use sdp_labs.Lab11.Accounts.Amounts.{amount_at, all_shares, left, Reach-total}

-- A thread that returns 0 has read its whole file; only one that returns 4 has given an operation up.
abbrev Tidy : Phase → Thread → Type 0
Tidy (Phase.ended zero) t = (t.operations ≡ []) × (t.lost ≡ [])
Tidy (Phase.ended (suc code)) t = Unit
Tidy _ t = t.lost ≡ []

read-Tidy :
    (ops : List (Option Operation)) (t : Thread)
    → t.operations ≡ ops
    → t.lost ≡ []
    → Tidy (read_operation ops t).phase (read_operation ops t)
read-Tidy [] t e h = (e, h)
read-Tidy (none ∷ rest) t e h = tt
read-Tidy (some op ∷ rest) t e h = h

known_Tidy :
    {l l' : List ℕ} (t t' : Thread)
    → Tidy t.phase t
    → ◌≡◌ {A = Option Result} (some (l, t)) (some (l', t'))
    → Tidy t'.phase t'
known_Tidy t t' h e = subst (λ (r : Result). Tidy r.1.phase r.1) (some_inj e) h

module _ (version : Version) where
  do_operations-Tidy :
      (p : Phase) (t t' : Thread) (s : State) (l : List ℕ)
      → Tidy p t
      → do_operations version p t s ≡ some (l, t')
      → Tidy t'.phase t'
  unfolding do_operations
  do_operations-Tidy Phase.looping t t' s l h e =
      known_Tidy (read_operation t.operations t) t' (read-Tidy t.operations t refl h) e
  do_operations-Tidy (Phase.locking op) t t' s l h e =
      elim (Bool-cases (count (holder version (lock_of version op)) s.threads == 0)) [
        | inl z ↦
            known_Tidy {l = s.accounts} {l' = l} (record t { phase = Phase.holding op }) t' h
              (ground (arith, e, z))
        | inr z ↦ absurd (ground (arith, e, z))
      ]
  do_operations-Tidy (Phase.holding op) t t' s l h e =
      elim (Option-cases (account_at s.accounts op.id)) [
        | inl z ↦
            known_Tidy {l = s.accounts} {l' = l} (record t { phase = Phase.failing op }) t' h
              (ground (arith, e, z))
        | inr (v, z) ↦
            known_Tidy {l = s.accounts} {l' = l} (record t { phase = Phase.writing op v }) t' h
              (ground (arith, e, z))
      ]
  do_operations-Tidy (Phase.failing op) t t' s l h e =
      known_Tidy (record t { phase = Phase.ended 4; lost = op ∷ t.lost }) t' tt e
  do_operations-Tidy (Phase.releasing op) t t' s l h e =
      known_Tidy (record t { phase = Phase.looping }) t' h e
  do_operations-Tidy (Phase.writing op v) t t' s l h e =
      known_Tidy (record t { phase = Phase.releasing op }) t' h e
  do_operations-Tidy (Phase.ended code) t t' s l h e = absurd (ground (arith, e))

  abbrev AllTidy : List Thread → Type 0
  AllTidy l = All (λ (t : Thread). Tidy t.phase t) l

  Step-Tidy : {s s' : State} → AllTidy s.threads → Step version s s' → AllTidy s'.threads
  Step-Tidy {s} h (Step.steps i t t' l at e) =
      All-set (λ (u : Thread). Tidy u.phase u) s.threads i h
        (do_operations-Tidy t.phase t t' s l
          (All-get (λ (u : Thread). Tidy u.phase u) s.threads i h at) e)

  created-Tidy : (files : List (List (Option Operation))) → AllTidy (map created files)
  created-Tidy [] = tt
  created-Tidy (ops ∷ files) = (refl, created-Tidy files)

  nothing_left :
      (k : ℕ) (l : List Thread)
      → AllTidy l
      → All (λ t. t.phase ≡ Phase.ended 0) l
      → sum (left k) l ≡ 0
  unfolding sum
  nothing_left k [] h e = refl
  nothing_left k (t ∷ l) h e =
      let tidy : Tidy (Phase.ended 0) t = subst (λ p. Tidy p t) e.0 h.0 in
      let none_here : left k t ≡ 0 = ground (arith, tidy, e.0) in
      omega (arith, none_here, nothing_left k l h.1 e.1)

  all_to_do :
      (k : ℕ) (files : List (List (Option Operation)))
      → sum (left k) (map created files) ≡ sum (all_shares k) files
  unfolding sum
  all_to_do k [] = refl
  all_to_do k (ops ∷ files) = omega (arith, all_to_do k files)

  module _ (accounts : List ℕ) (files : List (List (Option Operation))) where
    Reach-Tidy : {s : State} → Reach version accounts files s → AllTidy s.threads
    Reach-Tidy Reach.begins = created-Tidy files
    Reach-Tidy (Reach.later r st) = Step-Tidy (Reach-Tidy r) st

    -- When all threads have returned 0, in whatever order their steps were and with each of the four
    -- kinds of lock, the amount of each account is what it was and all the operations on it in all the files, as
    -- a word of 32 bits: no update is lost and none is made twice.
    pub accounts_lem :
        {s : State} (k : ℕ)
        → Reach version accounts files s
        → All (λ t. t.phase ≡ Phase.ended 0) s.threads
        → amount_at s.accounts k % 2 ^ 32
          ≡ (amount_at accounts k + sum (all_shares k) files) % 2 ^ 32
    accounts_lem {s} k r done = omega (
      arith,
      Reach-total version accounts files k r,
      nothing_left k s.threads (Reach-Tidy r) done,
      all_to_do k files,
    )
