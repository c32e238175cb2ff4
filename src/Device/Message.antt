-- ===== src/Device/Message.antt =====
-- A message that is written is read once.
use sdp_labs.Common.{
  ℕ, zero, suc, ◌-◌, ◌≤◌, ◌<◌, ◌≡◌, ◌≢◌, ◌∙◌, ap, refl, some, List, [], ◌∷◌, ◌++◌, arith, take,
  drop, length, ltb, leb, if◌then◌else◌, true,
}
use sdp_labs.Device.{buf_len, zeros, strlen, Read, device_read, device_write}

-- No byte of a text is 0.
abbrev pub Text : List ℕ → Type 0
Text [] = Unit
Text (c ∷ s) = (c ≢ 0) × Text s

-- The text `s`, and zeros up to the end of the array.
abbrev pub Holds : List ℕ → List ℕ → Type 0
Holds s buf = (m : ℕ) × (buf ≡ s ++ zeros (suc m))

strlen-Text : (s : List ℕ) (m : ℕ) → Text s → strlen (s ++ zeros (suc m)) ≡ some (length s)
unfolding strlen
strlen-Text [] m t = refl
strlen-Text (c ∷ s) m t = ground (arith, t.0, strlen-Text s m t.1)

pub take-append : (n : ℕ) (s r : List ℕ) → n ≤ length s → take n (s ++ r) ≡ take n s
take-append zero s r h = refl
take-append (suc n) [] r h = absurd (omega arith)
take-append (suc n) (c ∷ s) r h = ap (λ l. c ∷ l) (take-append n s r (omega arith))

zeros_same : {m n : ℕ} → m ≡ n → zeros m ≡ zeros n
zeros_same e = ap zeros e

pub drop-zeros : (k n : ℕ) → drop k (zeros n) ≡ zeros (n - k)
drop-zeros zero n = zeros_same (omega arith)
drop-zeros (suc k) zero = zeros_same {m = 0} {n = 0 - suc k} (omega arith)
drop-zeros (suc k) (suc n) = drop-zeros k n ∙ zeros_same (omega arith)

pub take-length : (s : List ℕ) → take (length s) s ≡ s
take-length [] = refl
take-length (c ∷ s) = ap (λ l. c ∷ l) (take-length s)

-- What a text written over zeros leaves.
pub written-Holds :
    (s : List ℕ) → length s < buf_len → Holds s (s ++ drop (length s) (zeros buf_len))
written-Holds s h = (
  127 - length s,
  ap (λ l. s ++ l)
      (drop-zeros (length s) 128 ∙ zeros_same {n = suc (127 - length s)} (omega arith)),
)

-- How many bytes a read of `count` bytes gets of a text.
abbrev pub shorter : ℕ → List ℕ → ℕ
shorter count s = if ltb count (length s) then count else length s

write_steps :
    {Mem : Type 0} (copy_from_user : Mem → ℕ → ℕ → List ℕ) (mem : Mem) (from : ℕ) (s : List ℕ)
    → length s < buf_len
    → copy_from_user mem from (length s) ≡ s
    → device_write copy_from_user mem from (length s) (zeros buf_len)
      ≡ some (length s, s ++ drop (length s) (zeros buf_len))
unfolding device_write
write_steps copy_from_user mem from s h e = rw e (rw (fits_in (length s) h) refl)
  where
    fits_in : (n : ℕ) → n < 128 → leb n 128 ≡ true
    fits_in n h = ground arith

module _ {Mem : Type 0} (copy_to_user : Mem → ℕ → List ℕ → Mem) where
  -- A read of a device that holds the text `s` copies the first `count` bytes of `s`, or all of it if it is
  -- shorter, returns how many these are, and leaves the device with the empty text: what was not read is
  -- lost.
  pub device_read_lem :
      (mem : Mem) (buff count : ℕ) (s buf : List ℕ)
      → Text s
      → Holds s buf
      → (r : Read Mem) × (device_read copy_to_user mem buff count buf ≡ some r)
        × (r.count ≡ shorter count s)
        × (r.mem ≡ copy_to_user mem buff (take (shorter count s) s))
        × Holds [] r.buf
  unfolding device_read
  device_read_lem mem buff count s buf t (m, e) = (
    record {
      count = shorter count s;
      mem = copy_to_user mem buff (take (shorter count s) s);
      buf = zeros buf_len;
    },
    ground (
      arith,
      ap strlen e ∙ strlen-Text s m t,
      ap (take (shorter count s)) e
          ∙ take-append (shorter count s) s (zeros (suc m)) (ground arith),
    ),
    refl,
    refl,
    (127, refl),
  )

  -- Write and read of a text of at most 127 bytes into an empty device of 128, with room for it at the
  -- reader: the write succeeds; the read returns its length and copies exactly the text; and a second
  -- read returns 0. The condition is that copy_from_user brings the text.
  pub write_read :
      (copy_from_user : Mem → ℕ → ℕ → List ℕ)
      → (mem mem' : Mem) (from to count : ℕ) (s : List ℕ) → Text s
      → length s < buf_len
      → length s ≤ count
      → copy_from_user mem from (length s) ≡ s
      → (buf : List ℕ) × (device_write copy_from_user mem from (length s) (zeros buf_len)
          ≡ some (length s, buf))
        × ((r : Read Mem) × (device_read copy_to_user mem' to count buf ≡ some r)
            × (r.count ≡ length s)
            × (r.mem ≡ copy_to_user mem' to s)
            × ((q : Read Mem) × (device_read copy_to_user r.mem to count r.buf ≡ some q)
                × (q.count ≡ 0)))
  write_read copy_from_user mem mem' from to count s t fits room brings =
      let buf : List ℕ = s ++ drop (length s) (zeros buf_len) in
      let (r, e, n, m, left) = device_read_lem mem' to count s buf t (written-Holds s fits) in
      let (q, e', n', m', left') = device_read_lem r.mem to count [] r.buf tt left in
      let all : shorter count s ≡ length s = ground arith in
      (
        buf,
        write_steps copy_from_user mem from s fits brings,
        (
          r,
          e,
          n ∙ all,
          m ∙ ap (copy_to_user mem' to) (ap (λ k. take k s) all ∙ take-length s),
          (q, e', n' ∙ ground arith),
        ),
      )
