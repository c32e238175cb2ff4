-- ===== src/Lab12/Doors/Modes.antt =====
-- The modes that the doors of lab12es01.cpp go through, and what holds in each.
use sdp_labs.Common.{ℕ, ◌+◌, ◌<◌, ◌≡◌, Bool, true, false, List, arith, length}
use sdp_labs.Lab12.Doors.{Phase, Producer, Shared}
use sdp_labs.Lab12.Doors.Tallies.{tally, tally-total}

-- Nobody may pass; the first door is open; the last one that came closes it; the second door is open; the
-- last one that left closes it; the producer may go on.
pub data Mode : Type 0 where
  idle arriving first_a first_b first_c leaving second_a second_b second_c over : Mode

-- Has the producer opened the first door, and has it read the whole file?
abbrev pub has_opened : Producer → Bool
has_opened Producer.reading = false
has_opened Producer.signalling = false
has_opened Producer.waiting = true
has_opened Producer.finishing = false
has_opened Producer.joining = true
has_opened Producer.ended = true

abbrev pub has_read : Producer → Bool
has_read Producer.reading = false
has_read Producer.signalling = false
has_read Producer.waiting = false
has_read Producer.finishing = true
has_read Producer.joining = true
has_read Producer.ended = true

-- The three doors, and the two counters.
abbrev pub Doors : {N : Type 0} → Bool → Bool → Bool → ℕ → ℕ → Shared N → Type 0
Doors a b c m n d =
    (d.first_door ≡ a)
    × (d.second_door ≡ b)
    × (d.producer_door ≡ c)
    × (d.in_first ≡ m)
    × (d.in_second ≡ n)

-- How many are counted in the first room.
abbrev pub room : {S : Type 0} → List (Phase × S) → ℕ
room l = tally 5 l + tally 10 l + tally 11 l + tally 12 l

module _ {N S : Type 0} where
  -- Before the end of the file nobody has left, and after it nobody works.
  abbrev pub Serves : Shared N → List (Phase × S) → Type 0
  Serves d l =
      (has_opened d.producer ≡ true)
      × (d.done ≡ false → tally 10 l ≡ 0)
      × (d.done ≡ true → tally 11 l + tally 12 l ≡ 0)

  abbrev pub Holds : Mode → Shared N → List (Phase × S) → Type 0
  Holds Mode.idle d l =
      Doors false false false 0 0 d × (tally 0 l ≡ 4) × (has_opened d.producer ≡ false)
  Holds Mode.arriving d l =
      Doors true false false (room l) 0 d
      × (tally 0 l + tally 1 l + room l ≡ 4)
      × (room l < 4)
      × Serves d l
  Holds Mode.first_a d l =
      Doors true false false 4 0 d × (tally 2 l ≡ 1) × (room l ≡ 3) × Serves d l
  Holds Mode.first_b d l =
      Doors true false false 0 0 d × (tally 3 l ≡ 1) × (room l ≡ 3) × Serves d l
  Holds Mode.first_c d l =
      Doors false false false 0 0 d × (tally 4 l ≡ 1) × (room l ≡ 3) × Serves d l
  Holds Mode.leaving d l =
      Doors false true false 0 (tally 0 l) d
      × (tally 0 l + tally 6 l + room l ≡ 4)
      × (tally 0 l < 4)
      × Serves d l
      × (d.done ≡ true → tally 0 l + tally 6 l ≡ 0)
  Holds Mode.second_a d l =
      Doors false true false 0 4 d
      × (tally 7 l ≡ 1)
      × (tally 0 l ≡ 3)
      × (d.producer ≡ Producer.waiting)
  Holds Mode.second_b d l =
      Doors false true false 0 0 d
      × (tally 8 l ≡ 1)
      × (tally 0 l ≡ 3)
      × (d.producer ≡ Producer.waiting)
  Holds Mode.second_c d l =
      Doors false false false 0 0 d
      × (tally 9 l ≡ 1)
      × (tally 0 l ≡ 3)
      × (d.producer ≡ Producer.waiting)
  Holds Mode.over d l =
      Doors false false true 0 0 d × (tally 0 l ≡ 4) × (d.producer ≡ Producer.waiting)

-- The mode that a consumer's place shows, or the producer.
module _ {N S : Type 0} (d : Shared N) (l : List (Phase × S)) (four : length l ≡ 4) where
  abbrev Shown : Mode → Type 0
  Shown m =
      (0 < tally 0 l → d.first_door ≡ true → m ≡ Mode.arriving)
      × (0 < tally 1 l → m ≡ Mode.arriving)
      × (0 < tally 2 l → m ≡ Mode.first_a)
      × (0 < tally 3 l → m ≡ Mode.first_b)
      × (0 < tally 4 l → m ≡ Mode.first_c)
      × (0 < tally 12 l → d.second_door ≡ true → m ≡ Mode.leaving)
      × (0 < tally 6 l → m ≡ Mode.leaving)
      × (0 < tally 7 l → m ≡ Mode.second_a)
      × (0 < tally 8 l → m ≡ Mode.second_b)
      × (0 < tally 9 l → m ≡ Mode.second_c)
      × (has_opened d.producer ≡ false → m ≡ Mode.idle)
      × (d.producer_door ≡ true → m ≡ Mode.over)

  shown : (m : Mode) → Holds m d l → Shown m
  shown Mode.idle h = ground (arith, tally-total l)
  shown _ h = ground (arith, tally-total l)

  pub is_arriving :
      (m : Mode) → Holds m d l → 0 < tally 0 l → d.first_door ≡ true → m ≡ Mode.arriving
  is_arriving m h = (shown m h).0

  pub was_arriving : (m : Mode) → Holds m d l → 0 < tally 1 l → m ≡ Mode.arriving
  was_arriving m h = (shown m h).1

  pub is_first_a : (m : Mode) → Holds m d l → 0 < tally 2 l → m ≡ Mode.first_a
  is_first_a m h = (shown m h).2

  pub is_first_b : (m : Mode) → Holds m d l → 0 < tally 3 l → m ≡ Mode.first_b
  is_first_b m h = (shown m h).3

  pub is_first_c : (m : Mode) → Holds m d l → 0 < tally 4 l → m ≡ Mode.first_c
  is_first_c m h = (shown m h).4

  pub is_leaving :
      (m : Mode) → Holds m d l → 0 < tally 12 l → d.second_door ≡ true → m ≡ Mode.leaving
  is_leaving m h = (shown m h).5

  pub was_leaving : (m : Mode) → Holds m d l → 0 < tally 6 l → m ≡ Mode.leaving
  was_leaving m h = (shown m h).6

  pub is_second_a : (m : Mode) → Holds m d l → 0 < tally 7 l → m ≡ Mode.second_a
  is_second_a m h = (shown m h).7

  pub is_second_b : (m : Mode) → Holds m d l → 0 < tally 8 l → m ≡ Mode.second_b
  is_second_b m h = (shown m h).8

  pub is_second_c : (m : Mode) → Holds m d l → 0 < tally 9 l → m ≡ Mode.second_c
  is_second_c m h = (shown m h).9

  pub is_idle : (m : Mode) → Holds m d l → has_opened d.producer ≡ false → m ≡ Mode.idle
  is_idle m h = (shown m h).10

  pub is_over : (m : Mode) → Holds m d l → d.producer_door ≡ true → m ≡ Mode.over
  is_over m h = (shown m h).11
