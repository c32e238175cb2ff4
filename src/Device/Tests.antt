-- ===== src/Device/Tests.antt =====
-- The device at a concrete message; the memory of a process is the list of what was copied to it.
use sdp_labs.Common.{
  ℕ, zero, suc, ◌+◌, ◌≤◌, ◌⊎◌, min, ◌≡◌, ◌++◌, refl, some, Option, List, [], ◌∷◌, arith, take,
  length, replicate, length-append, length-replicate,
}
use sdp_labs.Common.Int.{pos}
use sdp_labs.Device.{buf_len, zeros, Read, device_read, device_write}
use sdp_labs.Device.Echo
use sdp_labs.Device.Echo.Roundtrip.{write_read_back}
use sdp_labs.Device.Hello
use sdp_labs.Device.Hello.Copies.{TextAt, put_all}
use sdp_labs.Device.Hello.Runs.{Run, loaded, tests, opens, closes, open_once}
use sdp_labs.Device.ProcFile
use sdp_labs.Device.ProcFile.Roundtrip.{write_read_again}
use sdp_labs.Device.Message.{Text, write_read}

abbrev copy_to : List ℕ → ℕ → List ℕ → List ℕ
copy_to mem a bytes = mem ++ bytes

abbrev copy_from : List ℕ → ℕ → ℕ → List ℕ
copy_from mem a n = take n mem

abbrev hello : List ℕ
hello = 104 ∷ 105 ∷ 33 ∷ []

hello-Text : Text hello
hello-Text = (omega arith, (omega arith, (omega arith, tt)))

write_read_example :
    (buf : List ℕ) × (device_write copy_from hello 0 3 (zeros buf_len) ≡ some (3, buf))
    × ((r : Read (List ℕ)) × (device_read copy_to [] 0 64 buf ≡ some r)
        × (r.count ≡ 3)
        × (r.mem ≡ hello)
        × ((q : Read (List ℕ)) × (device_read copy_to r.mem 0 64 r.buf ≡ some q) × (q.count ≡ 0)))
write_read_example =
    write_read copy_to copy_from hello [] 0 0 64 hello hello-Text (omega arith) (omega arith) refl

-- The message of number `n` is `n` times the letter `a`, up to 5; put_user appends.
abbrev message : ℕ → List ℕ
message n = replicate (min n 5) 97

abbrev sprintf : ℕ → List ℕ
sprintf n = message n ++ 0 ∷ []

message-Text : (n : ℕ) → Text (replicate n 97)
message-Text zero = tt
message-Text (suc n) = (omega arith, message-Text n)

message-fits : (n : ℕ) → length (sprintf n) ≤ 80
message-fits n =
    omega (arith, length-append (message n) (0 ∷ []), length-replicate {A = ℕ} (min n 5) 97)

abbrev append_user : List ℕ → ℕ → ℕ → List ℕ
append_user mem to c = mem ++ c ∷ []

abbrev second_open : Hello.Hello
second_open = record {
  opened = 1;
  counter = 2;
  msg = 97 ∷ 0 ∷ zeros 78;
  msg_ptr = 0;
  use_count = 1;
}

opened_twice : Run sprintf 2 1 0 0 second_open
unfolding Hello.may_open Hello.open_rest Hello.device_release Hello.overlay
opened_twice = opens (tests (closes (opens (tests loaded refl) refl) (omega arith)) refl) refl

-- Two processes pass the test before one of them increments Device_Open, and both have it open.
race : (s : Hello.Hello) × Run sprintf 2 0 0 1 s × (s.opened ≡ 2)
unfolding Hello.may_open Hello.open_rest Hello.overlay
race = (_, opens (opens (tests (tests loaded refl) refl) refl) refl, refl)

open_once_example :
    (second_open.use_count + 1 ≡ 2)
    × (((◌≡◌ {A = ℕ} 0 1) × (◌≡◌ {A = ℕ} 2 1))
        ⊎ (((◌≡◌ {A = ℕ} 0 0)
              × (◌≡◌ {A = ℕ} 2 1)
              × ((t : Hello.Hello) × (Hello.device_open sprintf second_open ≡ some (pos 0, t))
                  × TextAt t.msg t.msg_ptr (message 2)))
            ⊎ ((◌≡◌ {A = ℕ} 0 0)
                × (◌≡◌ {A = ℕ} 2 (1 + 1))
                × (Hello.device_open sprintf second_open ≡ some (Hello.ebusy, second_open)))))
open_once_example =
    open_once sprintf message (λ n. refl) (λ n. message-Text (min n 5)) message-fits opened_twice

abbrev greeting : Hello.Hello
greeting = record { opened = 1; counter = 1; msg = hello ++ zeros 77; msg_ptr = 0; use_count = 1 }

-- copy_from_user and copy_to_user that do not fail.
abbrev from_user : List ℕ → ℕ → ℕ → Option (List ℕ)
from_user mem a n = some (take n mem)

abbrev echo : Echo.Echo
echo = record {
  opened = 1;
  counter = 1;
  msg = hello ++ zeros 77;
  msg_ptr = 1;
  write_msg = zeros 80;
  write_msg_ptr = some 0;
  use_count = 1;
}

write_read_back_example :
    (w z : Echo.Echo) × (Echo.device_write from_user hello 0 3 echo ≡ some (pos 3, w))
    × (Echo.device_read append_user [] 0 64 w
        ≡ some (19, put_all append_user [] 0 ((105 ∷ 33 ∷ []) ++ (Echo.last_message ++ hello)), z))
    × ((m : List ℕ) (c n : ℕ)
        → (z' : Echo.Echo) × (Echo.device_read append_user m c n z ≡ some (0, m, z')))
write_read_back_example =
    write_read_back append_user from_user hello [] 0 0 64 echo (105 ∷ 33 ∷ []) hello hello-Text
      (omega arith) refl refl (hello-Text.1, (zeros 76, refl)) (omega arith)

abbrev from_user' : List ℕ → ℕ → ℕ → ℕ × List ℕ
from_user' mem a n = (0, take n mem)

abbrev to_user' : List ℕ → ℕ → List ℕ → ℕ × List ℕ
to_user' mem a bytes = (0, mem ++ bytes)

abbrev small_file : ProcFile.ProcFile
small_file = record { procfs_buffer = zeros 8; procfs_buffer_size = 0; finished = 0; use_count = 1 }

write_read_again_example :
    (g h : ProcFile.ProcFile) × (ProcFile.procfs_write from_user' hello 0 3 small_file ≡ (pos 3, g))
    × (ProcFile.procfs_read to_user' [] 0 64 g ≡ (pos 3, hello, h))
    × ((m : List ℕ) (c k : ℕ) → ProcFile.procfs_read to_user' m c k h ≡ (pos 0, m, g))
write_read_again_example =
    write_read_again from_user' to_user' hello [] hello 0 0 3 64 small_file hello refl refl refl
      refl
