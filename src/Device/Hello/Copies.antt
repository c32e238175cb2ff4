-- ===== src/Device/Hello/Copies.antt =====
-- The loop that copies a message byte by byte: how much is copied, and that it can be done in parts.
use sdp_labs.Common.{
  ℕ, zero, suc, ◌+◌, ◌-◌, ◌≡◌, ◌≢◌, ◌∙◌, sym, ap, refl, Option, some, List, [], ◌∷◌, ◌++◌, arith,
  take, drop, length, get_elem?, length-append,
}
use mathlib.Core.Path.{subst}
use sdp_labs.Device.Hello.{Hello, Copied, copy_loop, device_read}
use sdp_labs.Device.Message.{Text}

-- The message from place `p` on is the text `s`, with a 0 behind it.
abbrev pub TextAt : List ℕ → ℕ → List ℕ → Type 0
TextAt msg p s = Text s × ((r : List ℕ) × (drop p msg ≡ s ++ 0 ∷ r))

-- The bytes are put one after the other.
unfoldable pub put_all : {Mem : Type 0} → (Mem → ℕ → ℕ → Mem) → Mem → ℕ → List ℕ → Mem
put_all put_user mem to [] = mem
put_all put_user mem to (c ∷ s) = put_all put_user (put_user mem to c) (to + 1) s

get-drop : (p : ℕ) (l : List ℕ) {c : ℕ} {r : List ℕ} → drop p l ≡ c ∷ r → get_elem? l p ≡ some c
get-drop zero [] e = absurd (ground arith)
get-drop zero (x ∷ l) e = ground arith
get-drop (suc p) [] e = absurd (ground arith)
get-drop (suc p) (x ∷ l) e = get-drop p l e

drop-more : (p : ℕ) (l : List ℕ) {c : ℕ} {r : List ℕ} → drop p l ≡ c ∷ r → drop (suc p) l ≡ r
drop-more zero [] e = absurd (ground arith)
drop-more zero (x ∷ l) e = ground arith
drop-more (suc p) [] e = absurd (ground arith)
drop-more (suc p) (x ∷ l) e = drop-more p l e

next_place : (p : ℕ) (l : List ℕ) {c : ℕ} {r : List ℕ} → drop p l ≡ c ∷ r → drop (p + 1) l ≡ r
next_place p l e = ap (λ n. drop n l) {y = suc p} (omega arith) ∙ drop-more p l e

-- What is left of the text behind `n` bytes.
text_later :
    (msg : List ℕ) (p n : ℕ) (s : List ℕ)
    → TextAt msg p s
    → TextAt msg (p + length (take n s)) (drop n s)
text_later msg p zero s t = subst (λ q. TextAt msg q s) (omega arith) t
text_later msg p (suc n) [] t = subst (λ q. TextAt msg q []) (omega arith) t
text_later msg p (suc n) (c ∷ s) (t, (r, e)) =
    subst (λ q. TextAt msg q (drop n s)) (omega arith)
      (text_later msg (p + 1) n s (t.1, (r, next_place p msg e)))

-- Behind the text is the empty one.
pub text_end : (msg : List ℕ) (p : ℕ) (s : List ℕ) → TextAt msg p s → TextAt msg (p + length s) []
text_end msg p [] t = subst (λ q. TextAt msg q []) (omega arith) t
text_end msg p (c ∷ s) (t, (r, e)) =
    subst (λ q. TextAt msg q []) (omega arith)
      (text_end msg (p + 1) s (t.1, (r, next_place p msg e)))

take-nil : (n : ℕ) → ◌≡◌ {A = List ℕ} (take n []) []
take-nil zero = refl
take-nil (suc n) = refl

take-sum : (n m : ℕ) (s : List ℕ) → take (n + m) s ≡ take n s ++ take m (drop n s)
take-sum zero m s = ap (λ k. take k s) {y = m} (omega arith)
take-sum (suc n) m [] = take-nil (suc n + m) ∙ sym (take-nil m)
take-sum (suc n) m (c ∷ s) =
    ap (λ k. take k (c ∷ s)) {y = suc (n + m)} (omega arith) ∙ ap (λ l. c ∷ l) (take-sum n m s)

pub put_all-append :
    {Mem : Type 0} (put_user : Mem → ℕ → ℕ → Mem) (mem : Mem) (b : ℕ) (s t : List ℕ)
    → put_all put_user mem b (s ++ t) ≡ put_all put_user (put_all put_user mem b s) (b + length s) t
unfolding put_all
put_all-append put_user mem b [] t = ap (λ k. put_all put_user mem k t) (omega arith)
put_all-append put_user mem b (c ∷ s) t =
    put_all-append put_user (put_user mem b c) (b + 1) s t
    ∙ ap (λ k. put_all put_user (put_all put_user (put_user mem b c) (b + 1) s) k t) (omega arith)

module _ {Mem : Type 0} (put_user : Mem → ℕ → ℕ → Mem) (msg : List ℕ) where
  loop_stops :
      (mem : Mem) (b left p n : ℕ)
      → get_elem? msg p ≡ some 0
      → copy_loop put_user mem b left msg p n
        ≡ some (record { mem = mem; buffer = b; length_left = left; ptr = p; bytes_read = n })
  unfolding copy_loop
  loop_stops mem b zero p n e = refl
  loop_stops mem b (suc left) p n e = ground (arith, e)

  loop_goes :
      (mem : Mem) (b left p n c : ℕ)
      → get_elem? msg p ≡ some c
      → c ≢ 0
      → copy_loop put_user mem b (suc left) msg p n
        ≡ copy_loop put_user (put_user mem b c) (b + 1) left msg (p + 1) (n + 1)
  unfolding copy_loop
  loop_goes mem b left p n c e ne = ground (arith, e, ne)

  -- What the loop leaves, of a text `s`.
  abbrev pub copied : Mem → ℕ → ℕ → ℕ → ℕ → List ℕ → Copied Mem
  copied mem b left p n s = record {
    mem = put_all put_user mem b (take left s);
    buffer = b + length (take left s);
    length_left = left - length s;
    ptr = p + length (take left s);
    bytes_read = n + length (take left s);
  }

  copied_eq :
      {x y : Copied Mem}
      → x.mem ≡ y.mem
      → x.buffer ≡ y.buffer
      → x.length_left ≡ y.length_left
      → x.ptr ≡ y.ptr
      → x.bytes_read ≡ y.bytes_read
      → ◌≡◌ {A = Option (Copied Mem)} (some x) (some y)
  copied_eq {x} {y} a b c d e = ground (arith, a, b, c, d, e)

  pub copy_loop_lem :
      (mem : Mem) (b left p n : ℕ) (s : List ℕ)
      → TextAt msg p s
      → copy_loop put_user mem b left msg p n ≡ some (copied mem b left p n s)
  unfolding copy_loop put_all
  copy_loop_lem mem b zero p n s t =
      copied_eq refl (omega arith) (omega arith) (omega arith) (omega arith)
  copy_loop_lem mem b (suc left) p n [] (t, (r, e)) =
      loop_stops mem b (suc left) p n (get-drop p msg e)
      ∙ copied_eq refl (omega arith) (omega arith) (omega arith) (omega arith)
  copy_loop_lem mem b (suc left) p n (c ∷ s) (t, (r, e)) =
      loop_goes mem b left p n c (get-drop p msg e) t.0
      ∙ copy_loop_lem (put_user mem b c) (b + 1) left (p + 1) (n + 1) s
          (t.1, (r, next_place p msg e))
      ∙ copied_eq refl (omega arith) (omega arith) (omega arith) (omega arith)

module _ {Mem : Type 0} (put_user : Mem → ℕ → ℕ → Mem) where
  read_end :
      (mem : Mem) (b n : ℕ) (s : Hello)
      → get_elem? s.msg s.msg_ptr ≡ some 0
      → device_read put_user mem b n s ≡ some (0, mem, s)
  unfolding device_read
  read_end mem b n s f = ground (arith, f)

  read_more :
      (mem : Mem) (b n : ℕ) (s : Hello) {c : ℕ} {r : Copied Mem}
      → get_elem? s.msg s.msg_ptr ≡ some c
      → c ≢ 0
      → copy_loop put_user mem b n s.msg s.msg_ptr 0 ≡ some r
      → device_read put_user mem b n s ≡ some (r.bytes_read, r.mem, record s { msg_ptr = r.ptr })
  unfolding device_read
  read_more mem b n s f ne g = ground (arith, f, g)

  -- What a read of `n` bytes gives of a text.
  read_text :
      (mem : Mem) (b n : ℕ) (s : Hello) (text : List ℕ)
      → TextAt s.msg s.msg_ptr text
      → device_read put_user mem b n s
        ≡ some (
          length (take n text),
          put_all put_user mem b (take n text),
          record s { msg_ptr = s.msg_ptr + length (take n text) },
        )
  unfolding put_all
  read_text mem b n s [] (t, (r, e)) =
      read_end mem b n s (get-drop s.msg_ptr s.msg e)
      ∙ ap (λ q. some (0, mem, record s { msg_ptr = q })) {y = s.msg_ptr + 0} (omega arith)
      ∙ ap
          (λ l.
            some (length l, put_all put_user mem b l, record s { msg_ptr = s.msg_ptr + length l }))
          (sym (take-nil n))
  read_text mem b n s (c ∷ text) (t, (r, e)) =
      read_more mem b n s (get-drop s.msg_ptr s.msg e) t.0
        (copy_loop_lem put_user s.msg mem b n s.msg_ptr 0 (c ∷ text) (t, (r, e)))
      ∙ ap
          (λ q. some (
            q,
            put_all put_user mem b (take n (c ∷ text)),
            record s { msg_ptr = s.msg_ptr + length (take n (c ∷ text)) },
          ))
          (omega arith)

  -- Two reads, of `n` and then of `m` bytes, where the device has `text` still to say: they return together
  -- as many bytes as `text` has, and n + m at most; they put these bytes of `text` one behind the other; and
  -- they leave the memory and the driver as one read of n + m bytes does.
  pub read_parts :
      (mem : Mem) (b n m : ℕ) (s : Hello) (text : List ℕ)
      → TextAt s.msg s.msg_ptr text
      → (k l : ℕ) × (mem' mem'' : Mem) × (s' s'' : Hello) × (device_read put_user mem b n s
          ≡ some (k, mem', s'))
        × (device_read put_user mem' (b + k) m s' ≡ some (l, mem'', s''))
        × (device_read put_user mem b (n + m) s ≡ some (k + l, mem'', s''))
        × (k + l ≡ length (take (n + m) text))
        × (mem'' ≡ put_all put_user mem b (take (n + m) text))
  read_parts mem b n m s text t =
      let first : List ℕ = take n text in
      let second : List ℕ = take m (drop n text) in
      let s' : Hello = record s { msg_ptr = s.msg_ptr + length first } in
      let cut = take-sum n m text in
      let bytes : length (take (n + m) text) ≡ length first + length second =
        ap length cut ∙ length-append first second in
      let put : put_all put_user mem b (take (n + m) text)
          ≡ put_all put_user (put_all put_user mem b first) (b + length first) second =
        ap (put_all put_user mem b) cut ∙ put_all-append put_user mem b first second in
      let whole = read_text mem b (n + m) s text t in
      let later =
        read_text (put_all put_user mem b first) (b + length first) m s' (drop n text)
          (text_later s.msg s.msg_ptr n text t) in
      (
        length first,
        length second,
        put_all put_user mem b first,
        put_all put_user (put_all put_user mem b first) (b + length first) second,
        s',
        record s { msg_ptr = s.msg_ptr + length first + length second },
        read_text mem b n s text t,
        later,
        ground (arith, whole, bytes, put),
        sym bytes,
        sym put,
      )
