-- ===== src/Kernel/Proc/Wakeup.antt =====
-- What wakeup and kill do to the whole process table.
use sdp_labs.Common.{
  ℕ, ◌≤◌, ◌+◌, ◌≡◌, ◌∙◌, refl, get_elem?, get_elem?-map, set, some, Bool, true, false, ◌&&◌, [],
  ◌∷◌, arith,
}
use sdp_labs.Common.Count.{
  count-le, count-set, one_if, All, All-map, count, count-map, count-map-le, count-map-zero,
}
use sdp_labs.Kernel.Proc.{
  Proc, Table, Chan, Context, is_sleeping, fits, Fits, wake, wakeup, waits_on, kill,
}

-- The processes that stand at the places `w`, and those that sleep there.
abbrev pub standing : (Context → Bool) → Table → ℕ
standing w = count (λ p. w p.context)

abbrev pub asleep : (Context → Bool) → Table → ℕ
asleep w = count (λ p. w p.context && is_sleeping p.state)

pub wakeup-Fits : (c : Chan) (t : Table) → All Fits t → All Fits (wakeup c t)
unfolding wakeup
wakeup-Fits c t = All-map Fits Fits (wake c) t (λ p h. ground arith)

pub kill-Fits : (pid : ℕ) (t : Table) → All Fits t → All Fits (kill pid t).0
unfolding kill
kill-Fits pid [] h = tt
kill-Fits pid (p ∷ t) h = ground (arith, kill-Fits pid t h.1)

module _ (w : Context → Bool) where
  -- A wakeup moves no process from its place.
  pub standing-wakeup : (c : Chan) (t : Table) → standing w (wakeup c t) ≡ standing w t
  unfolding wakeup
  standing-wakeup c t = count-map (λ p. w p.context) (wake c) t (λ p. ground arith)

  -- Nobody falls asleep in a wakeup.
  pub asleep-wakeup-le : (c : Chan) (t : Table) → asleep w (wakeup c t) ≤ asleep w t
  unfolding wakeup
  asleep-wakeup-le c t =
      count-map-le (λ p. w p.context && is_sleeping p.state) (wake c) t (λ p h. ground arith)

  -- Nobody sleeps at a place whose channel is woken.
  pub asleep-wakeup :
      (c : Chan) (t : Table)
      → ((p : Proc)
          → fits p ≡ true
          → w p.context ≡ true
          → is_sleeping p.state ≡ true
          → waits_on c p.chan ≡ true)
      → All Fits t
      → asleep w (wakeup c t) ≡ 0
  unfolding wakeup
  asleep-wakeup c t h =
      count-map-zero Fits (λ p. w p.context && is_sleeping p.state) (wake c) t
        (λ p f. ground (arith, h p f))

  pub standing-kill : (pid : ℕ) (t : Table) → standing w (kill pid t).0 ≡ standing w t
  unfolding kill count
  standing-kill pid [] = refl
  standing-kill pid (p ∷ t) = ground (arith, standing-kill pid t)

  pub asleep-kill-le : (pid : ℕ) (t : Table) → asleep w (kill pid t).0 ≤ asleep w t
  unfolding kill count
  asleep-kill-le pid [] = omega arith
  asleep-kill-le pid (p ∷ t) = ground (arith, asleep-kill-le pid t)

-- How the two counts change when process `i` goes from `p` to `q`.
module _ (w : Context → Bool) (t : Table) (i : ℕ) (p q : Proc) (here : get_elem? t i ≡ some p) where
  pub standing-set :
      standing w (set t i q) + one_if (w p.context) ≡ standing w t + one_if (w q.context)
  standing-set = count-set (λ p. w p.context) t i p q here

  pub asleep-set :
      asleep w (set t i q) + one_if (w p.context && is_sleeping p.state)
      ≡ asleep w t + one_if (w q.context && is_sleeping q.state)
  asleep-set = count-set (λ p. w p.context && is_sleeping p.state) t i p q here

pub asleep-le-standing : (w : Context → Bool) (t : Table) → asleep w t ≤ standing w t
asleep-le-standing w t =
    count-le (λ p. w p.context && is_sleeping p.state) (λ p. w p.context) t (λ p h. ground arith)

-- Nobody goes to or leaves the places `w`, and nobody falls asleep there.
pub record Quiet (w : Context → Bool) (t t' : Table) : Type 0 where
  pub same : standing w t' ≡ standing w t
  pub fewer : asleep w t' ≤ asleep w t

module _ (w : Context → Bool) where
  pub wakeup-Quiet : (c : Chan) (t : Table) → Quiet w t (wakeup c t)
  wakeup-Quiet c t = record { same = standing-wakeup w c t; fewer = asleep-wakeup-le w c t }

  pub kill-Quiet : (pid : ℕ) (t : Table) → Quiet w t (kill pid t).0
  kill-Quiet pid t = record { same = standing-kill w pid t; fewer = asleep-kill-le w pid t }

  pub Quiet-refl : (t : Table) → Quiet w t t
  Quiet-refl t = omega arith

  pub Quiet-trans : {t u v : Table} → Quiet w t u → Quiet w u v → Quiet w t v
  Quiet-trans a b = record { same = b.same ∙ a.same; fewer = omega (arith, a.fewer, b.fewer) }

  -- A process that stands elsewhere before and after.
  pub set-Quiet :
      (t : Table) (i : ℕ) (p q : Proc)
      → get_elem? t i ≡ some p
      → w p.context ≡ false
      → w q.context ≡ false
      → Quiet w t (set t i q)
  set-Quiet t i p q here out out' =
      ground (arith, standing-set w t i p q here, asleep-set w t i p q here)

  -- A process that stays where it stands and does not fall asleep.
  pub stay-Quiet :
      (t : Table) (i : ℕ) (p q : Proc)
      → get_elem? t i ≡ some p
      → q.context ≡ p.context
      → (is_sleeping q.state ≡ true → is_sleeping p.state ≡ true)
      → Quiet w t (set t i q)
  stay-Quiet t i p q here same awake =
      ground (arith, standing-set w t i p q here, asleep-set w t i p q here)

-- A process that does not sleep is left as it is.
pub wakeup-entry :
    (c : Chan) (t : Table) (i : ℕ) {p : Proc}
    → get_elem? t i ≡ some p
    → is_sleeping p.state ≡ false
    → get_elem? (wakeup c t) i ≡ some p
unfolding wakeup
wakeup-entry c t i here up = ground (arith, get_elem?-map (wake c) t i here)
