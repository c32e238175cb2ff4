-- ===== src/Lab11/Accounts/Tests.antt =====
-- Two threads on one account, and the theorems there.
use mathlib.Core.Path.{subst}
use sdp_labs.Common.{
  ℕ, ◌+◌, ◌*◌, ◌%◌, ◌^◌, ◌≤◌, ◌≡◌, refl, ◌⊎◌, inl, inr, Option, none, some, some_inj, Option-cases,
  List, [], ◌∷◌, get_elem?, set, arith, length,
}
use sdp_labs.Common.Count.{All, count}
use sdp_labs.Common.Sum.{sum}
use sdp_labs.Lab11.Accounts.{Version, Operation, Phase, State, do_operations, Step, Reach, started}
use sdp_labs.Lab11.Accounts.Amounts.{amount_at, all_shares}
use sdp_labs.Lab11.Accounts.Final.{accounts_lem}
use sdp_labs.Lab11.Accounts.Ending.{Run, all_return, HasEnded, CanStep}

-- A run by the numbers of the threads.
unfoldable turn : ℕ → State → Option State
turn i s = elim (get_elem? s.threads i) [
  | none ↦ none
  | some t ↦ elim (do_operations Version.d t.phase t s) [
    | none ↦ none
    | some (l, t') ↦ some (record { accounts = l; threads = set s.threads i t' })
  ]
]

unfoldable play : List ℕ → State → Option State
unfolding turn
play [] s = some s
play (i ∷ is) s = elim (turn i s) [ none ↦ none | some s' ↦ play is s' ]

turn-Step : (i : ℕ) (s s' : State) → turn i s ≡ some s' → Step Version.d s s'
unfolding turn
turn-Step i s s' e = elim (Option-cases (get_elem? s.threads i)) [
  | inl gone ↦ absurd (ground (arith, gone, e))
  | inr (t, at) ↦ elim (Option-cases (do_operations Version.d t.phase t s)) [
    | inl waits ↦ absurd (ground (arith, at, waits, e))
    | inr ((l, t'), go) ↦
        let same : record { accounts = l; threads = set s.threads i t' } ≡ s' =
          some_inj (ground (arith, at, go, e)) in
        subst (λ (x : State). Step Version.d s x) same (Step.steps i t t' l at go)
  ]
]

play-Reach :
    (accounts : List ℕ) (files : List (List (Option Operation))) (is : List ℕ) (s s' : State)
    → Reach Version.d accounts files s
    → play is s ≡ some s'
    → Reach Version.d accounts files s'
unfolding play
play-Reach accounts files [] s s' r e =
    subst (λ (x : State). Reach Version.d accounts files x) (some_inj e) r
play-Reach accounts files (i ∷ is) s s' r e = elim (Option-cases (turn i s)) [
  | inl stuck ↦ absurd (ground (arith, stuck, e))
  | inr (u, go) ↦
      play-Reach accounts files is u s' (Reach.later r (turn-Step i s u go)) (ground (arith, go, e))
]

-- 5 and 7 are added to account 1.
abbrev two_files : List (List (Option Operation))
two_files =
    (some (record { id = 1; amount = 5 }) ∷ []) ∷ (some (record { id = 1; amount = 7 }) ∷ []) ∷ []

abbrev before : State
before = started Version.d (100 ∷ []) two_files

abbrev schedule : List ℕ
schedule = 0 ∷ 1 ∷ 1 ∷ 1 ∷ 1 ∷ 1 ∷ 0 ∷ 0 ∷ 0 ∷ 0 ∷ 1 ∷ 0 ∷ []

played :
    (s : State) × (play schedule before ≡ some s)
    × All (λ t. t.phase ≡ Phase.ended 0) s.threads
    × (amount_at s.accounts 1 ≡ 112)
unfolding play turn do_operations count
played = (_, refl, (refl, (refl, tt)), refl)

accounts_lem_example :
    amount_at played.0.accounts 1 % 2 ^ 32 ≡ (100 + sum (all_shares 1) two_files) % 2 ^ 32
accounts_lem_example =
    accounts_lem Version.d (100 ∷ []) two_files 1
      (play-Reach (100 ∷ []) two_files schedule before played.0 Reach.begins played.1) played.2

all_return_example :
    (0 ≤ sum (λ ops. 5 * length ops + 1) two_files)
    × (HasEnded Phase.looping ⊎ CanStep Version.d before)
all_return_example =
    all_return Version.d (100 ∷ []) two_files 0
      (record {
        phase = Phase.looping;
        operations = some (record { id = 1; amount = 5 }) ∷ [];
        lost = [];
      })
      Run.none_yet refl
