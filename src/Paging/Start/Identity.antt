-- ===== src/Paging/Start/Identity.antt =====
-- After `initialise_paging` each page of the memory in use has the frame of its number.
use sdp_labs.Common.{
  ℕ, zero, suc, ◌+◌, ◌*◌, ◌/◌, ◌%◌, ◌^◌, ◌≤◌, ◌<◌, ◌≡◌, ◌∙◌, ap, sym, refl, inl, inr, Bool-cases,
  Option-cases, Option, none, some, List, [], ◌∷◌, ltb, true, false, length, length-replicate,
  get_elem?, arith, ℕ_discrete, dec_lt,
}
use sdp_labs.Common.Bits.{bit_zero}
use sdp_labs.Paging.Frames.{index_from_bit, offset_from_bit}
use sdp_labs.Paging.Frames.Bitset.{in_use, in_use-some}
use sdp_labs.Paging.Alloc.{Page, with_frame, alloc_frame, alloc_frame_lem}
use sdp_labs.Paging.Directory.{Directory, blank, table_of, page_of, get_page, put_page}
use sdp_labs.Paging.Directory.Pages.{put_page_lem}
use sdp_labs.Paging.Directory.Swap.{get_page_lem, get_page-there}
use sdp_labs.Paging.Start.{
  nframes, clear_words, Memory, no_tables, next_placement, map_page, map_loop, initialise_paging,
}

length-clear_words : (n : ℕ) (l : List ℕ) → length (clear_words n l) ≡ length l
unfolding clear_words
length-clear_words zero l = refl
length-clear_words (suc n) [] = refl
length-clear_words (suc n) (w ∷ l) = omega (arith, length-clear_words n l)

clear_words-get :
    (n i : ℕ) (l : List ℕ) → i < n → n ≤ length l → get_elem? (clear_words n l) i ≡ some 0
unfolding clear_words
clear_words-get zero i l h g = absurd (omega arith)
clear_words-get (suc n) i [] h g = absurd (omega arith)
clear_words-get (suc n) zero (w ∷ l) h g = refl
clear_words-get (suc n) (suc i) (w ∷ l) h g = clear_words-get n i l (omega arith) (omega arith)

-- Page and frame `n` for all `n` below `k`; the others of the first table and the first 1024 are free.
record Filled (k : ℕ) (frames : List ℕ) (dir : Directory) : Type 0 where
  room : 128 ≤ length frames
  filled : (n : ℕ) → n < k → page_of dir n ≡ some (with_frame blank false false n)
  unfilled : (n : ℕ) → k ≤ n → n < 1024 → page_of dir n ≡ some blank
  used : (g : ℕ) → g < k → in_use frames g ≡ 1
  unused : (g : ℕ) → k ≤ g → g < 1024 → in_use frames g ≡ 0

-- `alloc_frame` gives frame `k` to page `k`.
record Assigned (k : ℕ) (frames : List ℕ) (dir : Directory) : Type 0 where
  frames' : List ℕ
  dir' : Directory
  page : page_of dir k ≡ some blank
  given :
      alloc_frame blank false false frames nframes ≡ some (with_frame blank false false k, frames')
  stored : put_page dir k (with_frame blank false false k) ≡ some dir'
  after : Filled (k + 1) frames' dir'

-- The free frame with the least number is `k`.
least_free :
    (k f : ℕ) (frames : List ℕ) (dir : Directory)
    → k < 1024
    → Filled k frames dir
    → in_use frames f ≡ 0
    → ((g : ℕ) → g < f → in_use frames g ≡ 1)
    → f ≡ k
least_free k f frames dir lt h free least = elim (dec_lt f k) [
  | yes below ↦ absurd (omega (arith, h.used f below, free))
  | no above ↦ elim (dec_lt k f) [
    | yes below ↦ absurd (omega (arith, least k below, h.unused k (omega arith) lt))
    | no same ↦ omega arith
  ]
]

assigned :
    (k : ℕ) (frames : List ℕ) (dir : Directory)
    → k < 1024
    → Filled k frames dir
    → Assigned k frames dir
assigned k frames dir lt h =
    elim (alloc_frame_lem blank false false frames nframes refl (omega (arith, h.room))
      (omega arith)) [
        | inr (fails, all) ↦
            absurd (omega (arith, all k (omega arith), h.unused k (omega arith) lt))
        | inl a ↦
            let it : a.f ≡ k = least_free k a.f frames dir lt h a.was_free a.least in
            let page = h.unfilled k (omega arith) lt in
            let w = put_page_lem dir k (with_frame blank false false k) page in
            record {
              frames' = a.frames';
              dir' = w.dir';
              page = page;
              given = a.result ∙ ap (λ n. some (with_frame blank false false n, a.frames')) it;
              stored = w.result;
              after = record {
                room = omega (arith, h.room, a.size);
                filled = λ n less. elim (ℕ_discrete n k) [
                  | yes same ↦
                      ap (page_of w.dir') same
                      ∙ w.it
                      ∙ ap (λ m. some (with_frame blank false false m)) (sym same)
                  | no other ↦ w.others n other ∙ h.filled n (omega arith)
                ];
                unfilled =
                    λ n more less. w.others n (omega arith) ∙ h.unfilled n (omega arith) less;
                used = λ g less. elim (ℕ_discrete g k) [
                  | yes same ↦ ap (in_use a.frames') (same ∙ sym it) ∙ a.now_used
                  | no other ↦ a.others g (omega (arith, it, other)) ∙ h.used g (omega arith)
                ];
                unused =
                    λ g more less. a.others g (omega (arith, it)) ∙ h.unused g (omega arith) less;
              };
            }
      ]

table_of-page :
    (dir : Directory) (n : ℕ) {p : Page}
    → page_of dir n ≡ some p
    → (t : List Page) × (table_of dir n ≡ some t)
unfolding page_of
table_of-page dir n e = elim (Option-cases (table_of dir n)) [
  | inl gone ↦ absurd (ground (arith, gone, e))
  | inr (t, there) ↦ (t, there)
]

placement-there :
    (o : Option (List Page)) {t : List Page} (old new : ℕ)
    → o ≡ some t
    → next_placement o old new ≡ old
unfolding next_placement
placement-there o old new e = ground (arith, e)

placement-absent :
    (o : Option (List Page)) (old new : ℕ) → o ≡ none → next_placement o old new ≡ new
unfolding next_placement
placement-absent o old new e = ground (arith, e)

module _ (kmalloc kmalloc_a kmalloc_ap : ℕ → ℕ → ℕ × ℕ) where
  map_steps :
      (i k : ℕ) (s : Memory) (dir : Directory)
      → i / 0x1000 ≡ k
      → get_page i true (kmalloc_ap 0x1000 s.placement_address).0 s.directory ≡ (true, dir)
      → (a : Assigned k s.frames dir) → (next : ℕ)
      → next_placement
          (table_of s.directory k)
          s.placement_address
          (kmalloc_ap 0x1000 s.placement_address).1
        ≡ next
      → map_page kmalloc kmalloc_a kmalloc_ap i s
        ≡ some (record { frames = a.frames'; directory = a.dir'; placement_address = next })
  unfolding map_page
  map_steps i k s dir at got a next e = rw (at, got, a.page, a.given, a.stored, e)

  -- A round of the loop where the table is there.
  map_page_lem :
      (k : ℕ) (s : Memory)
      → k < 1024
      → Filled k s.frames s.directory
      → (s' : Memory) × (map_page kmalloc kmalloc_a kmalloc_ap (k * 0x1000) s ≡ some s')
        × Filled (k + 1) s'.frames s'.directory
        × (s'.placement_address ≡ s.placement_address)
  map_page_lem k s lt h =
      let at : k * 0x1000 / 0x1000 ≡ k = omega arith in
      let a = assigned k s.frames s.directory lt h in
      let (t, there) = table_of-page s.directory k a.page in
      let got =
        get_page-there (k * 0x1000) true (kmalloc_ap 0x1000 s.placement_address).0 s.directory
          (ap (table_of s.directory) at ∙ there) in
      (
        record { frames = a.frames'; directory = a.dir'; placement_address = s.placement_address },
        map_steps (k * 0x1000) k s s.directory at got a s.placement_address (
            placement-there (table_of s.directory k) s.placement_address
              (kmalloc_ap 0x1000 s.placement_address).1 there),
        a.after,
        refl,
      )

  map_loop-goes :
      (fuel i : ℕ) (s s' : Memory)
      → ltb i s.placement_address ≡ true
      → map_page kmalloc kmalloc_a kmalloc_ap i s ≡ some s'
      → map_loop kmalloc kmalloc_a kmalloc_ap (suc fuel) i s
        ≡ map_loop kmalloc kmalloc_a kmalloc_ap fuel (i + 0x1000) s'
  unfolding map_loop
  map_loop-goes fuel i s s' less e = ground (arith, less, e)

  map_loop-ends :
      (fuel i : ℕ) (s : Memory)
      → ltb i s.placement_address ≡ false
      → map_loop kmalloc kmalloc_a kmalloc_ap (suc fuel) i s ≡ some s
  unfolding map_loop
  map_loop-ends fuel i s e = ground (arith, e)

  -- Where the loop ends: all pages below `end` are filled, and no others.
  Ends : ℕ → Option Memory → Type 0
  Ends end r =
      (s : Memory) × (k : ℕ) × (r ≡ some s)
      × (s.placement_address ≡ end)
      × Filled k s.frames s.directory
      × (end ≤ k * 0x1000)
      × (k * 0x1000 < end + 0x1000)

  map_loop_lem :
      (fuel k : ℕ) (s : Memory)
      → s.placement_address ≤ 0x400000
      → 1024 < k + fuel
      → k * 0x1000 < s.placement_address + 0x1000
      → Filled k s.frames s.directory
      → Ends s.placement_address (map_loop kmalloc kmalloc_a kmalloc_ap fuel (k * 0x1000) s)
  unfolding Ends
  map_loop_lem zero k s top enough near h = absurd (omega arith)
  map_loop_lem (suc fuel) k s top enough near h =
      elim (Bool-cases (ltb (k * 0x1000) s.placement_address)) [
        | inr no_less ↦ (
          s,
          k,
          map_loop-ends fuel (k * 0x1000) s no_less,
          refl,
          h,
          ground (arith, no_less),
          near,
        )
        | inl less ↦
            let lt : k * 0x1000 < s.placement_address = ground (arith, less) in
            let (s', e, h', same) = map_page_lem k s (omega arith) h in
            let (t, j, r, end, filled, low, high) =
              map_loop_lem fuel (k + 1) s' (omega (arith, same)) (omega arith) (omega (arith, same))
                h' in
            (
              t,
              j,
              map_loop-goes fuel (k * 0x1000) s s' less e
                  ∙ ap (λ i. map_loop kmalloc kmalloc_a kmalloc_ap fuel i s') (omega arith)
                  ∙ r,
              end ∙ same,
              filled,
              omega (arith, low, same),
              omega (arith, high, same),
            )
      ]

  -- The first round makes the first table.
  first_round :
      (s : Memory)
      → s.directory ≡ no_tables
      → 128 ≤ length s.frames
      → ((g : ℕ) → g < 1024 → in_use s.frames g ≡ 0)
      → (s' : Memory) × (map_page kmalloc kmalloc_a kmalloc_ap 0 s ≡ some s')
        × Filled 1 s'.frames s'.directory
        × (s'.placement_address ≡ (kmalloc_ap 0x1000 s.placement_address).1)
  first_round s none_made room free =
      let tmp = (kmalloc_ap 0x1000 s.placement_address).0 in
      let next = (kmalloc_ap 0x1000 s.placement_address).1 in
      let absent : table_of s.directory 0 ≡ none = ap (λ d. table_of d 0) none_made in
      let size : length s.directory.tables ≡ 1024 =
        ap (λ (d : Directory). length d.tables) none_made
        ∙ length-replicate {A = Option (List Page)} 1024 none in
      elim (get_page_lem 0 true tmp s.directory (omega (arith, size))) [
        | inl (t, there, got) ↦ absurd (ground (arith, there, absent))
        | inr (inr (gone, no_make, got)) ↦ absurd (ground (arith, no_make))
        | inr (inl (gone, make, (dir, got, blanks, others))) ↦
            let a = assigned 0 s.frames dir (omega arith) (record {
              room = room;
              filled = λ n less. absurd (omega arith);
              unfilled = λ n more less. blanks n (omega arith);
              used = λ g less. absurd (omega arith);
              unused = λ g more less. free g less;
            }) in
            (
              record { frames = a.frames'; directory = a.dir'; placement_address = next },
              map_steps 0 0 s dir (omega arith) got a next
                  (placement-absent (table_of s.directory 0) s.placement_address next absent),
              a.after,
              refl,
            )
      ]

  initialise_steps :
      (fuel : ℕ) (words : List ℕ) (start : ℕ)
      → initialise_paging kmalloc kmalloc_a kmalloc_ap fuel words start
        ≡ map_loop kmalloc kmalloc_a kmalloc_ap fuel 0 (record {
          frames = clear_words 32 words;
          directory = no_tables;
          placement_address = (kmalloc_a 8196 (kmalloc 128 start).1).1;
        })
  unfolding initialise_paging
  initialise_steps fuel words start = refl

  -- Let `first` be the `placement_address` after the bitset and the directory, and `end` the one after a
  -- table is taken too. For 0 < first <= end <= 4 MB, 128 words from `frames` on, and fuel above 1025: the loop
  -- ends at `end`; each page of which a part lies below `end` has the frame of the same number, is
  -- present, belongs to the user and cannot be written; and of the first 1024 frames those are in
  -- use of which a part lies below `end`.
  pub initialise_paging_lem :
      (fuel : ℕ) (words : List ℕ) (start first end : ℕ)
      → (kmalloc_a 8196 (kmalloc 128 start).1).1 ≡ first
      → (kmalloc_ap 0x1000 first).1 ≡ end
      → 0 < first
      → first ≤ end
      → end ≤ 0x400000
      → 128 ≤ length words
      → 1025 < fuel
      → (s : Memory) × (initialise_paging kmalloc kmalloc_a kmalloc_ap fuel words start ≡ some s)
        × (s.placement_address ≡ end)
        × ((n : ℕ)
            → n * 0x1000 < end
            → page_of s.directory n ≡ some (record blank { present = 1; user = 1; frame = n }))
        × ((g : ℕ) → g * 0x1000 < end → in_use s.frames g ≡ 1)
        × ((g : ℕ) → g < 1024 → end ≤ g * 0x1000 → in_use s.frames g ≡ 0)
  unfolding Ends
  initialise_paging_lem zero words start first end e f some_used grows top room enough =
      absurd (omega arith)
  initialise_paging_lem (suc fuel) words start first end e f some_used grows top room enough =
      let s0 : Memory = record {
        frames = clear_words 32 words;
        directory = no_tables;
        placement_address = (kmalloc_a 8196 (kmalloc 128 start).1).1;
      } in
      let (s, go, h, moved) =
        first_round s0 refl (omega (arith, length-clear_words 32 words)) (λ g less.
          in_use-some (clear_words 32 words) g
            (clear_words-get 32 (index_from_bit g) words (omega arith) (omega arith))
          ∙ bit_zero (offset_from_bit g)) in
      let there : s.placement_address ≡ end = moved ∙ ap (λ x. (kmalloc_ap 0x1000 x).1) e ∙ f in
      let (t, k, r, at_end, filled, low, high) =
        map_loop_lem fuel 1 s (omega (arith, there)) (omega arith) (omega (arith, there)) h in
      (
        t,
        initialise_steps (suc fuel) words start
            ∙ map_loop-goes fuel 0 s0 s (ground (arith, e)) go
            ∙ r,
        at_end ∙ there,
        (λ n less.
            let small : n % 2 ^ 20 ≡ n = omega arith in
            filled.filled n (omega (arith, low, there))
            ∙ ap (λ m. some (record blank { present = 1; user = 1; frame = m })) small),
        (λ g below. filled.used g (omega (arith, low, there))),
        (λ g less above. filled.unused g (omega (arith, high, there)) less),
      )
