-- ===== src/Lab11/Accounts/Reads.antt =====
-- What a thread of lab11es01.cpp has read of an account is so until it writes.
use mathlib.Core.Path.{subst}
use sdp_labs.Common.{
  ℕ, zero, suc, ◌+◌, ◌%◌, ◌^◌, ◌≡◌, ◌≢◌, ◌∙◌, ap, sym, refl, ◌⊎◌, inl, inr, ◌==◌, true, Option,
  none, some, some_inj, Option-cases, Bool-cases, List, [], ◌∷◌, get_elem?, map, get_elem?-set,
  get_elem?-set_ne, arith,
}
use sdp_labs.Common.Count.{count}
use sdp_labs.Lab11.Accounts.{
  Version, Operation, Phase, Thread, State, account_at, write_account, lock_of, holds, holder,
  read_operation, do_operations, Step, Reach, created,
}
use sdp_labs.Lab11.Accounts.Exclusion.{Result, AtMostOne, two_holders, Reach-AtMostOne}

pub account_at-write_ne :
    (l : List ℕ) (m n v : ℕ) → m ≢ n → account_at (write_account l m v) n ≡ account_at l n
account_at-write_ne l zero n v ne = refl
account_at-write_ne l (suc m) zero v ne = refl
account_at-write_ne l (suc m) (suc n) v ne = get_elem?-set_ne l v (λ e. ne (ap suc e))

same_lock :
    (version : Version) (op x : Operation)
    → op.id ≡ x.id
    → (lock_of version x == lock_of version op) ≡ true
same_lock Version.a op x e = ground (arith, e)
same_lock _ op x e = refl

writer_holds :
    (version : Version) (p : Phase) (op : Operation) (v : ℕ)
    → p ≡ Phase.writing op v
    → holds version (lock_of version op) p ≡ true
writer_holds version p op v e =
    ap (holds version (lock_of version op)) e ∙ same_lock version op op refl

module _ (version : Version) where
  -- The amount that a thread is to write is that of the account still.
  abbrev pub Current : List ℕ → Phase → Type 0
  Current l (Phase.writing op v) = account_at l op.id ≡ some v
  Current l _ = Unit

  abbrev pub AllCurrent : State → Type 0
  AllCurrent s = (j : ℕ) (u : Thread) → get_elem? s.threads j ≡ some u → Current s.accounts u.phase

  -- Only a thread that writes changes the accounts.
  pub accounts-kept :
      (p : Phase) (t t' : Thread) (s : State) (l : List ℕ)
      → do_operations version p t s ≡ some (l, t')
      → (l ≡ s.accounts)
        ⊎ ((op : Operation) × (v : ℕ) × (p ≡ Phase.writing op v)
            × (l ≡ write_account s.accounts op.id ((v + op.amount) % 2 ^ 32)))
  unfolding do_operations
  accounts-kept Phase.looping t t' s l e = inl (sym (ap (λ (r : Result). r.0) (some_inj e)))
  accounts-kept (Phase.locking op) t t' s l e =
      elim (Bool-cases (count (holder version (lock_of version op)) s.threads == 0)) [
        | inl z ↦ inl (ground (arith, e, z))
        | inr z ↦ absurd (ground (arith, e, z))
      ]
  accounts-kept (Phase.holding op) t t' s l e = elim (Option-cases (account_at s.accounts op.id)) [
    | inl z ↦ inl (ground (arith, e, z))
    | inr (v, z) ↦ inl (ground (arith, e, z))
  ]
  accounts-kept (Phase.failing op) t t' s l e = inl (ground (arith, e))
  accounts-kept (Phase.releasing op) t t' s l e = inl (ground (arith, e))
  accounts-kept (Phase.writing op v) t t' s l e = inr (op, v, refl, ground (arith, e))
  accounts-kept (Phase.ended code) t t' s l e = absurd (ground (arith, e))

  read-Current :
      (l : List ℕ) (ops : List (Option Operation)) (t : Thread)
      → Current l (read_operation ops t).phase
  read-Current l [] t = tt
  read-Current l (none ∷ rest) t = tt
  read-Current l (some op ∷ rest) t = tt

  own-Current :
      (p : Phase) (t t' : Thread) (s : State) (l : List ℕ)
      → do_operations version p t s ≡ some (l, t')
      → Current l t'.phase
  unfolding do_operations
  own-Current Phase.looping t t' s l e =
      subst (λ (r : Result). Current r.0 r.1.phase) (some_inj e)
        (read-Current s.accounts t.operations t)
  own-Current (Phase.locking op) t t' s l e =
      elim (Bool-cases (count (holder version (lock_of version op)) s.threads == 0)) [
        | inl z ↦
            let go : ◌≡◌ {A = Option Result}
                (some (s.accounts, record t { phase = Phase.holding op })) (some (l, t')) =
              ground (arith, e, z) in
            subst (λ (r : Result). Current r.0 r.1.phase) (some_inj go) tt
        | inr z ↦ absurd (ground (arith, e, z))
      ]
  own-Current (Phase.holding op) t t' s l e = elim (Option-cases (account_at s.accounts op.id)) [
    | inl z ↦
        let go : ◌≡◌ {A = Option Result} (some (s.accounts, record t { phase = Phase.failing op }))
            (some (l, t')) =
          ground (arith, e, z) in
        subst (λ (r : Result). Current r.0 r.1.phase) (some_inj go) tt
    | inr (v, z) ↦
        let go : ◌≡◌ {A = Option Result}
            (some (s.accounts, record t { phase = Phase.writing op v })) (some (l, t')) =
          ground (arith, e, z) in
        subst (λ (r : Result). Current r.0 r.1.phase) (some_inj go) z
  ]
  own-Current (Phase.ended code) t t' s l e = absurd (ground (arith, e))
  own-Current _ t t' s l e = subst (λ (r : Result). Current r.0 r.1.phase) (some_inj e) tt

  -- A write does not concern what another thread has read.
  others-Current :
      (p : Phase) (l : List ℕ) (op : Operation) (v : ℕ)
      → Current l p
      → (holds version (lock_of version op) p ≡ true → ⊥)
      → Current (write_account l op.id v) p
  others-Current (Phase.writing x w) l op v h free =
      account_at-write_ne l op.id x.id v (λ e. free (same_lock version op x e)) ∙ h
  others-Current _ l op v h free = tt

  Step-Current :
      {s s' : State} → AtMostOne version s → AllCurrent s → Step version s s' → AllCurrent s'
  Step-Current {s} one h (Step.steps i t t' l at e) j u at' =
      elim (get_elem?-set s.threads i j t' at') [
        | inl (same, is) ↦
            subst (λ (x : Thread). Current l x.phase) (sym is) (own-Current t.phase t t' s l e)
        | inr (ne, old) ↦ elim (accounts-kept t.phase t t' s l e) [
          | inl kept ↦ subst (λ m. Current m u.phase) (sym kept) (h j u old)
          | inr (op, v, w, wrote) ↦
              let free : holds version (lock_of version op) u.phase ≡ true → ⊥ = λ hu.
                two_holders version (lock_of version op) i j s one (λ q. ne (sym q)) at old
                  (writer_holds version t.phase op v w) hu in
              subst (λ m. Current m u.phase) (sym wrote)
                (others-Current u.phase s.accounts op ((v + op.amount) % 2 ^ 32) (h j u old) free)
        ]
      ]

  module _ (accounts : List ℕ) (files : List (List (Option Operation))) where
    created-Current :
        (l : List (List (Option Operation))) (j : ℕ) (u : Thread)
        → get_elem? (map created l) j ≡ some u
        → Current accounts u.phase
    created-Current [] j u at = absurd (ground arith)
    created-Current (x ∷ l) zero u at =
        subst (λ (w : Thread). Current accounts w.phase) (some_inj at) tt
    created-Current (x ∷ l) (suc j) u at = created-Current l j u at

    pub Reach-Current : {s : State} → Reach version accounts files s → AllCurrent s
    Reach-Current Reach.begins = created-Current files
    Reach-Current (Reach.later r st) =
        Step-Current (Reach-AtMostOne version accounts files r) (Reach-Current r) st
