-- ===== src/Device/Echo/Roundtrip.antt =====
-- What is written to the device is read back behind its greeting.
use mathlib.Core.List.{append_assoc}
use sdp_labs.Common.{
  ℕ, zero, suc, ◌+◌, ◌-◌, ◌≤◌, ◌≡◌, ◌∙◌, ap, refl, Option, some, List, [], ◌∷◌, ◌++◌, arith, take,
  drop, length, replicate, length-append, length-replicate,
}
use sdp_labs.Common.Int.{pos}
use sdp_labs.Device.Echo.{
  Echo, c_string, device_read, device_write, snprintf, last_message, newline,
}
use sdp_labs.Device.Hello.{Copied, overlay, copy_loop, buf_size}
use sdp_labs.Device.Hello.Copies.{TextAt, put_all, text_end, copy_loop_lem, put_all-append}
use sdp_labs.Device.Hello.Runs.{overlay_fits}
use sdp_labs.Device.Message.{Text, take-append, take-length, drop-zeros}
use sdp_labs.Device.{zeros}

pub c_string-Text : (s r : List ℕ) → Text s → c_string (s ++ 0 ∷ r) ≡ some s
unfolding c_string
c_string-Text [] r t = refl
c_string-Text (c ∷ s) r t = ground (arith, t.0, c_string-Text s r t.1)

Text-append : (s t : List ℕ) → Text s → Text t → Text (s ++ t)
Text-append [] t h g = g
Text-append (c ∷ s) t h g = (h.0, Text-append s t h.1 g)

take-all : (n : ℕ) (s : List ℕ) → length s ≤ n → take n s ≡ s
take-all zero [] h = refl
take-all zero (c ∷ s) h = absurd (omega arith)
take-all (suc n) [] h = refl
take-all (suc n) (c ∷ s) h = ap (λ l. c ∷ l) (take-all n s (omega arith))

last_message-Text : Text last_message
last_message-Text = ground arith

-- The array `new_msg` behind the copy.
new_msg-ends :
    (s : List ℕ)
    → length s ≤ 60
    → (r : List ℕ) × (s ++ drop (length s) (zeros buf_size) ≡ s ++ 0 ∷ r)
new_msg-ends s h = (
  zeros (79 - length s),
  ap (λ l. s ++ l) (drop-zeros (length s) 80 ∙ ap zeros {y = suc (79 - length s)} (omega arith)),
)

-- snprintf cuts the end of the line off.
cut_newline :
    (s : List ℕ)
    → snprintf (15 + length s) (last_message ++ s ++ newline) ≡ (last_message ++ s) ++ 0 ∷ []
cut_newline s =
    ap (λ l. l ++ 0 ∷ [])
      (ap (λ n. take n (last_message ++ s ++ newline)) {y = length (last_message ++ s)}
          (omega arith)
        ∙ take-append (length (last_message ++ s)) (last_message ++ s) newline (omega arith)
        ∙ take-length (last_message ++ s))

module _ {Mem : Type 0} (copy_from_user : Mem → ℕ → ℕ → Option (List ℕ)) where
  write_steps :
      (mem : Mem) (from len : ℕ) (e : Echo) {bytes new_msg text w : List ℕ}
      → copy_from_user mem from len ≡ some bytes
      → overlay bytes (replicate buf_size 0) ≡ some new_msg
      → c_string new_msg ≡ some text
      → len ≤ 60
      → overlay (snprintf (15 + len) (last_message ++ text ++ newline)) e.write_msg ≡ some w
      → device_write copy_from_user mem from len e
        ≡ some (pos len, record e { write_msg = w; write_msg_ptr = some 0 })
  unfolding device_write
  write_steps mem from len e a b c d f = ground (arith, a, b, c, d, f)

module _ {Mem : Type 0} (put_user : Mem → ℕ → ℕ → Mem) where
  read_steps :
      (mem : Mem) (b len p : ℕ) (e : Echo) {r q : Copied Mem}
      → e.write_msg_ptr ≡ some p
      → copy_loop put_user mem b len e.msg e.msg_ptr 0 ≡ some r
      → copy_loop put_user r.mem r.buffer r.length_left e.write_msg p r.bytes_read ≡ some q
      → device_read put_user mem b len e
        ≡ some (q.bytes_read, q.mem, record e { msg_ptr = r.ptr; write_msg_ptr = some q.ptr })
  unfolding device_read
  read_steps mem b len p e x y z = ground (arith, x, y, z)

  -- A read with room for both texts.
  read_both :
      (mem : Mem) (b len p : ℕ) (e : Echo) (g t : List ℕ)
      → e.write_msg_ptr ≡ some p
      → TextAt e.msg e.msg_ptr g
      → TextAt e.write_msg p t
      → length g + length t ≤ len
      → device_read put_user mem b len e
        ≡ some (
          length g + length t,
          put_all put_user mem b (g ++ t),
          record e { msg_ptr = e.msg_ptr + length g; write_msg_ptr = some (p + length t) },
        )
  read_both mem b len p e g t x tg tt' room =
      let all_g = take-all len g (omega arith) in
      let all_t = take-all (len - length g) t (omega arith) in
      read_steps mem b len p e x (copy_loop_lem put_user e.msg mem b len e.msg_ptr 0 g tg)
        (copy_loop_lem put_user e.write_msg _ _ _ p _ t tt')
      ∙ ground (arith, all_g, all_t, put_all-append put_user mem b g t)

  -- A text of at most 60 bytes that is written to an open device, of whose greeting `g` is still to be
  -- read: the write returns its length; then a read with room enough returns `g`, "Last Message: " and the
  -- text, without the end of the line of the format; and the read after that returns 0. The conditions
  -- are that copy_from_user brings the text, and that write_msg has its 80 bytes.
  pub write_read_back :
      (copy_from_user : Mem → ℕ → ℕ → Option (List ℕ)) (mem mem' : Mem) (from b len : ℕ) (e : Echo)
      (g s : List ℕ)
      → Text s
      → length s ≤ 60
      → length e.write_msg ≡ buf_size
      → copy_from_user mem from (length s) ≡ some s
      → TextAt e.msg e.msg_ptr g
      → length g + length (last_message ++ s) ≤ len
      → (w z : Echo) × (device_write copy_from_user mem from (length s) e
          ≡ some (pos (length s), w))
        × (device_read put_user mem' b len w
            ≡ some (
              length g + length (last_message ++ s),
              put_all put_user mem' b (g ++ (last_message ++ s)),
              z,
            ))
        × ((mem'' : Mem) (c n : ℕ)
            → (z' : Echo) × (device_read put_user mem'' c n z ≡ some (0, mem'', z')))
  unfolding put_all
  write_read_back copy_from_user mem mem' from b len e g s t short size brings tg room =
      let out : List ℕ = (last_message ++ s) ++ 0 ∷ [] in
      let kept : List ℕ = drop (length out) e.write_msg in
      let fits : overlay out e.write_msg ≡ some (out ++ kept) =
        overlay_fits out e.write_msg
          (omega (arith, length-append (last_message ++ s) (0 ∷ []), short, size)) in
      let w : Echo = record e { write_msg = out ++ kept; write_msg_ptr = some 0 } in
      let z : Echo = record w {
        msg_ptr = e.msg_ptr + length g;
        write_msg_ptr = some (0 + length (last_message ++ s));
      } in
      let (r, ends) = new_msg-ends s short in
      let written : TextAt w.write_msg 0 (last_message ++ s) = (
        Text-append last_message s last_message-Text t,
        (kept, append_assoc (last_message ++ s) (0 ∷ []) kept),
      ) in
      (
        w,
        z,
        write_steps copy_from_user mem from (length s) e brings
            (overlay_fits s (replicate buf_size 0)
              (omega (arith, short, length-replicate {A = ℕ} buf_size 0)))
            (ap c_string ends ∙ c_string-Text s r t) short
            (ap (λ l. overlay l e.write_msg) (cut_newline s) ∙ fits),
        read_both mem' b len 0 w g (last_message ++ s) refl tg written room,
        λ mem'' c n. (
          _,
          read_both mem'' c n (0 + length (last_message ++ s)) z [] [] refl
              (text_end e.msg e.msg_ptr g tg) (text_end w.write_msg 0 (last_message ++ s) written)
              (omega arith),
        ),
      )
