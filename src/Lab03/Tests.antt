-- ===== src/Lab03/Tests.antt =====
-- The theorems on the buffers at concrete values.
use sdp_labs.Common.{
  ℕ, ◌≤◌, ◌<◌, ◌≡◌, ◌≢◌, ◌⊎◌, refl, true, false, none, some, List, [], ◌∷◌, arith, replicate,
}
use sdp_labs.Common.Int.{ℤ, pos}
use sdp_labs.Lab03.Ring.{Buffer, send, receive}
use sdp_labs.Lab03.Ring.Fifo.{Queue, send_lem, receive_lem}
use sdp_labs.Lab03.ProdCons.{Threads, puts, gets, Reach, start, later, initial, put, get, item}
use sdp_labs.Lab03.ProdCons.Streams.{numbers}
use sdp_labs.Lab03.ProdCons.Safety.{printed_lem, can_go_on}

-- Three slots, the queue 8, 9 round the end.
abbrev wrapped : Buffer ℕ
wrapped = record { buffer = 9 ∷ 7 ∷ 8 ∷ []; write_pos = 1; read_pos = 2; count = 2; dim = 3 }

wrapped-Queue : Queue wrapped (8 ∷ 9 ∷ [])
wrapped-Queue = record {
  room = refl;
  size = refl;
  fits = omega arith;
  read_in = omega arith;
  write_at = refl;
  held = (refl, (refl, tt));
}

send_runs :
    send wrapped 4 ≡ some (record wrapped { buffer = 9 ∷ 4 ∷ 8 ∷ []; write_pos = 2; count = 3 })
unfolding send
send_runs = refl

receive_runs : receive wrapped ≡ some (8, record wrapped { read_pos = 0; count = 1 })
unfolding receive
receive_runs = refl

send_lem_example :
    ((2 ≡ wrapped.dim) × (send wrapped 4 ≡ none))
    ⊎ ((2 < wrapped.dim)
        × ((b' : Buffer ℕ) × (send wrapped 4 ≡ some b')
            × (b'.dim ≡ wrapped.dim)
            × Queue b' (8 ∷ 9 ∷ 4 ∷ [])))
send_lem_example = send_lem wrapped (8 ∷ 9 ∷ []) 4 wrapped-Queue

receive_lem_example :
    ((◌≡◌ {A = List ℕ} (8 ∷ 9 ∷ []) []) × (receive wrapped ≡ none))
    ⊎ ((x : ℕ) × (rest : List ℕ) × (8 ∷ 9 ∷ [] ≡ x ∷ rest)
        × ((b' : Buffer ℕ) × (receive wrapped ≡ some (x, b'))
            × (b'.dim ≡ wrapped.dim)
            × Queue b' rest))
receive_lem_example = receive_lem wrapped (8 ∷ 9 ∷ []) wrapped-Queue

abbrev junk : List ℤ
junk = replicate 16 (pos 77)

-- With one number to go, the producer puts 0 and the consumer gets it.
abbrev one_put : Threads
one_put = record (initial junk) {
  buffer = record {
    buffer = pos 0 ∷ replicate 15 (pos 77);
    write_pos = 1;
    read_pos = 0;
    count = 1;
    dim = 16;
  };
  next = 1;
}

abbrev one_got : Threads
one_got = record one_put {
  buffer = record {
    buffer = pos 0 ∷ replicate 15 (pos 77);
    write_pos = 1;
    read_pos = 1;
    count = 0;
    dim = 16;
  };
  printed = pos 0 ∷ [];
}

got_run : Reach 1 junk one_got
unfolding send receive
got_run = later (later start (puts refl (omega arith) refl)) (gets refl refl refl)

printed_lem_example :
    ((m : ℕ) × (m ≤ 1) × (pos 0 ∷ [] ≡ numbers m 0)) × (false ≡ true → pos 0 ∷ [] ≡ numbers 1 0)
printed_lem_example = printed_lem {s = one_got} refl got_run

can_go_on_example :
    ((false ≡ false) × (1 ≤ 1) × (put one_got.buffer (item 1 1) ≢ none))
    ⊎ ((false ≡ false) × (get one_got.buffer ≢ none))
can_go_on_example = can_go_on {s = one_got} refl got_run refl
