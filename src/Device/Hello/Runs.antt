-- ===== src/Device/Hello/Runs.antt =====
-- Opening and closing the device, in any interleaving that Linux allows.
use sdp_labs.Common.{
  ℕ, suc, ◌==◌, true, false, some_inj, if◌then◌else◌, ◌+◌, ◌≤◌, ◌<◌, ◌≡◌, ◌≢◌, ◌∙◌, sym, ap, refl,
  inl, inr, some, List, [], ◌∷◌, ◌++◌, arith, drop, length, ℕ_discrete, replicate, length-append,
  length-drop, length-replicate, ◌⊎◌,
}
use mathlib.Core.List.{append_assoc}
use mathlib.Core.Path.{subst}
use sdp_labs.Common.Int.{pos}
use sdp_labs.Device.Hello.{
  Hello, may_open, open_rest, device_open, device_release, overlay, ebusy, buf_size,
}
use sdp_labs.Device.Hello.Copies.{TextAt}
use sdp_labs.Device.Message.{Text}

-- Runs from the load of the module: `n` opens have ended with success and `m` files were closed, `w` opens stand
-- behind their test, and `c` times an open passed its test while another one stood there. Where `c` is 0,
-- what follows the test of an open meets no other open behind its test, and no open file.
pub data Run (sprintf : ℕ → List ℕ) : ℕ → ℕ → ℕ → ℕ → Hello → Type 0 where
  loaded :
      Run sprintf 0 0 0 0
        (record { opened = 0; counter = 0; msg = replicate buf_size 0; msg_ptr = 0; use_count = 0 })
  tests :
      {n m w c : ℕ} {s : Hello}
      → Run sprintf n m w c s
      → may_open s ≡ true
      → Run sprintf n m (w + 1) (if w == 0 then c else c + 1) s
  refused :
      {n m w c : ℕ} {s : Hello} → Run sprintf n m w c s → may_open s ≡ false → Run sprintf n m w c s
  opens :
      {n m w c : ℕ} {s t : Hello}
      → Run sprintf n m (suc w) c s
      → open_rest sprintf s ≡ some t
      → Run sprintf (n + 1) m w c t
  closes :
      {n m w c : ℕ} {s : Hello}
      → Run sprintf n m w c s
      → m < n
      → Run sprintf n (m + 1) w c (device_release s).1

pub record Counted (n m w c : ℕ) (s : Hello) : Type 0 where
  pub counted : s.opened + m ≡ n
  pub few : s.opened + w ≤ 1 + c
  pub used : s.use_count ≡ s.opened
  pub told : s.counter ≡ n
  pub room : length s.msg ≡ buf_size

pub overlay_fits :
    (text a : List ℕ)
    → length text ≤ length a
    → overlay text a ≡ some (text ++ drop (length text) a)
unfolding overlay
overlay_fits text a h = ground arith

-- The messages are texts that fit in the array with their 0.
module _ (sprintf text : ℕ → List ℕ) (brings : (n : ℕ) → sprintf n ≡ text n ++ 0 ∷ [])
    (texts : (n : ℕ) → Text (text n)) (fits : (n : ℕ) → length (sprintf n) ≤ buf_size) where
  -- `device_open` on a driver with its array.
  abbrev pub opened_state : Hello → Hello
  opened_state s = record s {
    opened = s.opened + 1;
    counter = s.counter + 1;
    msg = sprintf s.counter ++ drop (length (sprintf s.counter)) s.msg;
    msg_ptr = 0;
    use_count = s.use_count + 1;
  }

  rest_at : (s : Hello) → length s.msg ≡ buf_size → open_rest sprintf s ≡ some (opened_state s)
  unfolding open_rest
  rest_at s room =
      ground (arith, overlay_fits (sprintf s.counter) s.msg (omega (arith, room, fits s.counter)))

  opens_at :
      (s : Hello)
      → s.opened ≡ 0
      → length s.msg ≡ buf_size
      → device_open sprintf s ≡ some (pos 0, opened_state s)
  unfolding device_open may_open
  opens_at s e room = ground (arith, e, rest_at s room)

  refuses : (s : Hello) → s.opened ≢ 0 → device_open sprintf s ≡ some (ebusy, s)
  unfolding device_open may_open
  refuses s ne = ground (arith, ne)

  written-length : (s : Hello) → length s.msg ≡ buf_size → length (opened_state s).msg ≡ buf_size
  written-length s room = omega (
    arith,
    length-append (sprintf s.counter) (drop (length (sprintf s.counter)) s.msg),
    length-drop (length (sprintf s.counter)) s.msg,
    fits s.counter,
    room,
  )

  pub Run-Counted : {n m w c : ℕ} {s : Hello} → Run sprintf n m w c s → Counted n m w c s
  unfolding device_release may_open
  Run-Counted loaded = record {
    counted = refl;
    few = omega arith;
    used = refl;
    told = refl;
    room = length-replicate {A = ℕ} buf_size 0;
  }
  Run-Counted (tests {n} {m} {w} {c} {s} r free) =
      let x = Run-Counted r in
      record {
        counted = x.counted;
        few = ground (arith, free, x.few);
        used = x.used;
        told = x.told;
        room = x.room;
      }
  Run-Counted (refused r busy) = Run-Counted r
  Run-Counted (opens {n} {m} {w} {c} {s} {t} r e) =
      let x = Run-Counted r in
      subst (Counted (n + 1) m w c) (some_inj (sym (rest_at s x.room) ∙ e)) (record {
        counted = omega (arith, x.counted);
        few = omega (arith, x.few);
        used = omega (arith, x.used);
        told = omega (arith, x.told);
        room = written-length s x.room;
      })
  Run-Counted (closes {n} {m} {w} {c} {s} r lt) =
      let x = Run-Counted r in
      record {
        counted = omega (arith, x.counted);
        few = omega (arith, x.few);
        used = omega (arith, x.used);
        told = x.told;
        room = x.room;
      }

  -- For any run in which no open has passed its test while another one stood between its test and its end,
  -- with `n` opens that succeeded and `m` closes: at most one process has the device open. Either one
  -- open stands behind its test, and all files are closed; or all are closed, and the next open
  -- succeeds and lets the whole message of number `n` be read; or exactly one process has the device
  -- open, and an open gives -EBUSY and changes nothing. The use counter of the module is the number
  -- of processes that have the device open. The conditions on sprintf are that it gives a text with
  -- a 0 behind it that fits in 80 bytes.
  pub open_once :
      {n m w : ℕ} {s : Hello}
      → Run sprintf n m w 0 s
      → (s.use_count + m ≡ n)
        × (((w ≡ 1) × (n ≡ m))
            ⊎ (((w ≡ 0)
                  × (n ≡ m)
                  × ((t : Hello) × (device_open sprintf s ≡ some (pos 0, t))
                      × TextAt t.msg t.msg_ptr (text n)))
                ⊎ ((w ≡ 0) × (n ≡ m + 1) × (device_open sprintf s ≡ some (ebusy, s)))))
  open_once {n} {m} {w} {s} r =
      let x = Run-Counted r in
      let message : sprintf s.counter ++ drop (length (sprintf s.counter)) s.msg
          ≡ text n ++ 0 ∷ drop (length (sprintf s.counter)) s.msg =
        ap (λ l. l ++ drop (length (sprintf s.counter)) s.msg) (brings s.counter)
        ∙ append_assoc (text s.counter) (0 ∷ []) (drop (length (sprintf s.counter)) s.msg)
        ∙ ap (λ c. text c ++ 0 ∷ drop (length (sprintf s.counter)) s.msg) x.told in
      (
        omega (arith, x.counted, x.used),
        elim (ℕ_discrete s.opened 0) [
          | no busy ↦ inr (
              inr
                (omega (arith, x.few, busy), omega (arith, x.counted, x.few, busy), refuses s busy))
          | yes free ↦ elim (ℕ_discrete w 0) [
            | no waits ↦ inl (omega (arith, x.few, waits), omega (arith, x.counted, free))
            | yes nobody ↦ inr (
                inl (
                  nobody,
                  omega (arith, x.counted, free),
                  (
                    opened_state s,
                    opens_at s free x.room,
                    (texts n, (drop (length (sprintf s.counter)) s.msg, message)),
                  ),
                ))
          ]
        ],
      )
