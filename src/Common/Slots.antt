-- ===== src/Common/Slots.antt =====
-- A table of slots from which the first free one is taken: the loop that file.c and sysfile.c write
-- for semaphores, condition variables, open files and file descriptors.
use sdp_labs.Common.{
  ℕ, suc, ◌+◌, ◌≡◌, ◌≢◌, ◌⊎◌, inl, inr, refl, Bool, true, false, Option, none, some, List, [], ◌∷◌,
  arith, get_elem?, get_elem?-set, set, Bool-cases, if◌then◌else◌,
}

module _ {ℓ} {A : Type ℓ} (free : A → Bool) (take_it : A → A) where
  -- The loop from slot `k` on: the number of the slot taken, and the table.
  unfoldable pub alloc_from : ℕ → List A → Option ℕ × List A
  alloc_from k [] = (none, [])
  alloc_from k (s ∷ rest) =
      let (found, rest') = alloc_from (k + 1) rest in
      if free s then (some k, take_it s ∷ rest) else (found, s ∷ rest')

-- The slots below `n` are in use, and slot `n` is free.
pub data FirstFree {ℓ} {A : Type ℓ} (free : A → Bool) : ℕ → List A → Type ℓ where
  here : {s : A} {l : List A} → free s ≡ true → FirstFree free 0 (s ∷ l)
  there :
      {s : A} {l : List A} {n : ℕ}
      → free s ≡ false
      → FirstFree free n l
      → FirstFree free (suc n) (s ∷ l)

-- Every slot is in use.
pub data AllUsed {ℓ} {A : Type ℓ} (free : A → Bool) : List A → Type ℓ where
  none_left : AllUsed free []
  used : {s : A} {l : List A} → free s ≡ false → AllUsed free l → AllUsed free (s ∷ l)

-- Slot `number` is the first free one; it is returned, counted from `k`, and taken.
pub record Taken {ℓ} {A : Type ℓ} (free : A → Bool) (take_it : A → A) (k : ℕ) (l : List A)
    (r : Option ℕ × List A) : Type ℓ where
  pub number : ℕ
  pub first : FirstFree free number l
  pub old : A
  pub entry : get_elem? l number ≡ some old
  pub is_free : free old ≡ true
  pub result : r.0 ≡ some (k + number)
  pub table : r.1 ≡ set l number (take_it old)

module _ {A : Type 0} (free : A → Bool) (take_it : A → A) where
  pub alloc_from_lem :
      (k : ℕ) (l : List A)
      → Taken free take_it k l (alloc_from free take_it k l)
        ⊎ (AllUsed free l × (alloc_from free take_it k l ≡ (none, l)))
  unfolding alloc_from
  alloc_from_lem k [] = inr (none_left, refl)
  alloc_from_lem k (s ∷ l) = elim (Bool-cases (free s)) [
    | inl now ↦ inl (record {
      number = 0;
      first = here now;
      old = s;
      entry = refl;
      is_free = now;
      result = ground arith;
      table = ground arith;
    })
    | inr busy ↦ elim (alloc_from_lem (k + 1) l) [
      | inl t ↦ inl (record {
        number = suc t.number;
        first = there busy t.first;
        old = t.old;
        entry = t.entry;
        is_free = t.is_free;
        result = ground (arith, t.result);
        table = ground (arith, t.table);
      })
      | inr (all, same) ↦ inr (used busy all, ground (arith, same))
    ]
  ]

  -- What stands in slot `n` afterwards: what stood there, taken or as it was.
  pub alloc_from-entry :
      (l : List A) (n : ℕ) {x : A}
      → get_elem? (alloc_from free take_it 0 l).1 n ≡ some x
      → ((get_elem? l n ≡ some x) × ((alloc_from free take_it 0 l).0 ≢ some n))
        ⊎ ((old : A) × (get_elem? l n ≡ some old)
            × (x ≡ take_it old)
            × ((alloc_from free take_it 0 l).0 ≡ some n))
  alloc_from-entry l n {x} h = elim (alloc_from_lem 0 l) [
    | inl t ↦ elim (get_elem?-set l t.number n (take_it t.old) (rw t.table at h)) [
      | inl (e, y) ↦ inr (t.old, rw e t.entry, y, ground (arith, t.result))
      | inr (ne, e) ↦ inl (e, λ z. ne (ground (arith, t.result)))
    ]
    | inr (all, same) ↦ inl (ground (arith, same), λ z. ground (arith, same))
  ]
