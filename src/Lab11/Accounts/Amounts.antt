-- ===== src/Lab11/Accounts/Amounts.antt =====
-- No step of lab11es01.cpp loses an operation: what an account has and what is still to be added to it
-- stay the same together, as words of 32 bits.
use mathlib.Core.Path.{subst}
use sdp_labs.Common.{
  ℕ, zero, suc, ◌+◌, ◌-◌, ◌%◌, ◌^◌, ◌≡◌, ◌∙◌, ap, sym, refl, inl, inr, ◌==◌, ==_iff, Option, none,
  some, some_inj, Option-cases, Bool-cases, List, [], ◌∷◌, get_elem?-set_self, lt-length-get, arith,
  if◌then◌else◌,
}
use sdp_labs.Common.Count.{count}
use sdp_labs.Common.Sum.{sum, sum-set, le-sum}
use sdp_labs.Lab11.Accounts.{
  Version, Operation, Phase, Thread, State, account_at, write_account, lock_of, holder,
  read_operation, do_operations, Step, Reach, started,
}
use sdp_labs.Lab11.Accounts.Exclusion.{Result}
use sdp_labs.Lab11.Accounts.Reads.{account_at-write_ne, Current, AllCurrent, Reach-Current}

abbrev pub value_or : Option ℕ → ℕ
value_or none = 0
value_or (some v) = v

-- The amount of account `k`, 0 where there is none.
abbrev pub amount_at : List ℕ → ℕ → ℕ
amount_at l k = value_or (account_at l k)

-- What an operation adds to account `k`.
abbrev pub share : ℕ → Operation → ℕ
share k op = if op.id == k then op.amount else 0

abbrev pub all_shares : ℕ → List (Option Operation) → ℕ
all_shares k [] = 0
all_shares k (none ∷ ops) = all_shares k ops
all_shares k (some op ∷ ops) = share k op + all_shares k ops

abbrev pub lost_shares : ℕ → List Operation → ℕ
lost_shares k [] = 0
lost_shares k (op ∷ ops) = share k op + lost_shares k ops

abbrev pub in_hand : ℕ → Phase → ℕ
in_hand k Phase.looping = 0
in_hand k (Phase.locking op) = share k op
in_hand k (Phase.holding op) = share k op
in_hand k (Phase.failing op) = share k op
in_hand k (Phase.releasing op) = 0
in_hand k (Phase.writing op v) = share k op
in_hand k (Phase.ended code) = 0

-- What a thread has not added to account `k`.
abbrev pub left : ℕ → Thread → ℕ
left k t = in_hand k t.phase + all_shares k t.operations + lost_shares k t.lost

abbrev pub total : ℕ → State → ℕ
total k s = (amount_at s.accounts k + sum (left k) s.threads) % 2 ^ 32

read-left :
    (k : ℕ) (ops : List (Option Operation)) (t : Thread)
    → t.phase ≡ Phase.looping
    → t.operations ≡ ops
    → left k (read_operation ops t) ≡ left k t
read-left k [] t e f = ground (arith, e, f)
read-left k (none ∷ rest) t e f = ground (arith, e, f)
read-left k (some op ∷ rest) t e f = ground (arith, e, f)

account_at-write_self :
    (l : List ℕ) (n v : ℕ) {w : ℕ}
    → account_at l n ≡ some w
    → account_at (write_account l n v) n ≡ some v
account_at-write_self l zero v h = absurd (ground arith)
account_at-write_self l (suc n) v h = get_elem?-set_self l n v (lt-length-get l n h)

-- With what the others have left, `r`.
write-total :
    (k r : ℕ) (l : List ℕ) (op : Operation) (v : ℕ)
    → account_at l op.id ≡ some v
    → (amount_at (write_account l op.id ((v + op.amount) % 2 ^ 32)) k + r) % 2 ^ 32
      ≡ (amount_at l k + (share k op + r)) % 2 ^ 32
write-total k r l op v h = elim (Bool-cases (op.id == k)) [
  | inl t ↦
      let new : ℕ = (v + op.amount) % 2 ^ 32 in
      let same = (==_iff op.id k).0 t in
      let before = ap value_or (subst (λ j. account_at l j ≡ some v) same h) in
      let after = ap value_or (
        subst (λ j. account_at (write_account l op.id new) j ≡ some new) same
          (account_at-write_self l op.id new h)) in
      let all : share k op ≡ op.amount = ground (arith, t) in omega (arith, before, after, all)
  | inr t ↦
      let kept =
        ap value_or
          (account_at-write_ne l op.id k ((v + op.amount) % 2 ^ 32) (λ e. ground (arith, e, t))) in
      let none_of_it : share k op ≡ 0 = ground (arith, t) in omega (arith, kept, none_of_it)
]

module _ (version : Version) where
  kept_total :
      (k r : ℕ) (t u t' : Thread) (s : State) (l : List ℕ)
      → left k u ≡ left k t
      → ◌≡◌ {A = Option Result} (some (s.accounts, u)) (some (l, t'))
      → (amount_at l k + (left k t' + r)) % 2 ^ 32
        ≡ (amount_at s.accounts k + (left k t + r)) % 2 ^ 32
  kept_total k r t u t' s l same e =
      sym (ap (λ (x : Result). (amount_at x.0 k + (left k x.1 + r)) % 2 ^ 32) (some_inj e))
      ∙ ap (λ (n : ℕ). (amount_at s.accounts k + (n + r)) % 2 ^ 32) same

  thread-total :
      (k : ℕ) (p : Phase) (t t' : Thread) (s : State) (l : List ℕ) (r : ℕ)
      → t.phase ≡ p
      → Current version s.accounts p
      → do_operations version p t s ≡ some (l, t')
      → (amount_at l k + (left k t' + r)) % 2 ^ 32
        ≡ (amount_at s.accounts k + (left k t + r)) % 2 ^ 32
  unfolding do_operations
  thread-total k Phase.looping t t' s l r h c e =
      kept_total k r t (read_operation t.operations t) t' s l (read-left k t.operations t h refl) e
  thread-total k (Phase.locking op) t t' s l r h c e =
      elim (Bool-cases (count (holder version (lock_of version op)) s.threads == 0)) [
        | inl z ↦
            kept_total k r t (record t { phase = Phase.holding op }) t' s l (ground (arith, h))
              (ground (arith, e, z))
        | inr z ↦ absurd (ground (arith, e, z))
      ]
  thread-total k (Phase.holding op) t t' s l r h c e =
      elim (Option-cases (account_at s.accounts op.id)) [
        | inl z ↦
            kept_total k r t (record t { phase = Phase.failing op }) t' s l (ground (arith, h))
              (ground (arith, e, z))
        | inr (v, z) ↦
            kept_total k r t (record t { phase = Phase.writing op v }) t' s l (ground (arith, h))
              (ground (arith, e, z))
      ]
  thread-total k (Phase.failing op) t t' s l r h c e =
      kept_total k r t (record t { phase = Phase.ended 4; lost = op ∷ t.lost }) t' s l
        (ground (arith, h)) e
  thread-total k (Phase.releasing op) t t' s l r h c e =
      kept_total k r t (record t { phase = Phase.looping }) t' s l (ground (arith, h)) e
  thread-total k (Phase.writing op v) t t' s l r h c e =
      let rest : ℕ = all_shares k t.operations + lost_shares k t.lost + r in
      let go = write-total k rest s.accounts op v c in
      let had : left k t ≡ share k op + all_shares k t.operations + lost_shares k t.lost =
        ground (arith, h) in
      sym (ap (λ (x : Result). (amount_at x.0 k + (left k x.1 + r)) % 2 ^ 32) (some_inj e))
      ∙ omega (arith, go, had)
  thread-total k (Phase.ended code) t t' s l r h c e = absurd (ground (arith, e))

  Step-total :
      (k : ℕ) {s s' : State} → AllCurrent version s → Step version s s' → total k s' ≡ total k s
  Step-total k {s} h (Step.steps i t t' l at e) =
      let others : ℕ = sum (left k) s.threads - left k t in
      let go = thread-total k t.phase t t' s l others refl (h i t at) e in
      omega
        (arith, go, sum-set (left k) s.threads i t t' at, le-sum (left k) s.threads i {p = t} at)

  module _ (accounts : List ℕ) (files : List (List (Option Operation))) where
    pub Reach-total :
        {s : State} (k : ℕ)
        → Reach version accounts files s
        → total k s ≡ total k (started version accounts files)
    Reach-total k Reach.begins = refl
    Reach-total k (Reach.later r st) =
        Step-total k (Reach-Current version accounts files r) st ∙ Reach-total k r
