-- ===== src/Device/ProcFile/Roundtrip.antt =====
-- What is written to the file is what is read from it.
use sdp_labs.Common.{ℕ, ◌≡◌, ◌∙◌, sym, ap, refl, min, List, ◌++◌, arith, drop, length}
use sdp_labs.Common.Int.{pos}
use sdp_labs.Device.Message.{take-append, take-length}
use sdp_labs.Device.ProcFile.{ProcFile, procfs_read, procfs_write, procfs_max_size}

module _ {Mem : Type 0} (copy_from_user : Mem → ℕ → ℕ → ℕ × List ℕ)
    (copy_to_user : Mem → ℕ → List ℕ → ℕ × Mem) where
  -- The file with the first bytes of `s`.
  abbrev pub holding : List ℕ → ProcFile → ProcFile
  holding s f = record f {
    procfs_buffer = s ++ drop (length s) f.procfs_buffer;
    procfs_buffer_size = length s;
  }

  write_steps :
      (mem : Mem) (from len : ℕ) (f : ProcFile) (s : List ℕ)
      → length s ≡ min len procfs_max_size
      → copy_from_user mem from (length s) ≡ (0, s)
      → procfs_write copy_from_user mem from len f ≡ (pos (length s), holding s f)
  unfolding procfs_write
  write_steps mem from len f s size brings = ground (arith, size, brings)

  read_steps :
      (mem mem' : Mem) (to len : ℕ) (f : ProcFile) (s : List ℕ)
      → f.finished ≡ 0
      → copy_to_user mem to s ≡ (0, mem')
      → procfs_read copy_to_user mem to len (holding s f)
        ≡ (pos (length s), mem', record (holding s f) { finished = 1 })
  unfolding procfs_read
  read_steps mem mem' to len f s first takes = ground (
    arith,
    first,
    takes,
    take-append (length s) s (drop (length s) f.procfs_buffer) (omega arith) ∙ take-length s,
  )

  end_steps :
      (mem : Mem) (to len : ℕ) (f : ProcFile)
      → f.finished ≡ 1
      → procfs_read copy_to_user mem to len f ≡ (pos 0, mem, record f { finished = 0 })
  unfolding procfs_read
  end_steps mem to len f e = ground (arith, e)

  -- A write of `len` bytes, of which `s` are the first 2048 or all, returns how many `s` has. If no read is
  -- half done, the next read copies all of `s`, whatever the length that the reader asks for, and
  -- returns how many these are; the read after that returns 0 and leaves the file as the write did, so
  -- that `s` can be read again. The conditions are that the copies do not fail.
  pub write_read_again :
      (mem mem' mem'' : Mem) (from to len n : ℕ) (f : ProcFile) (s : List ℕ)
      → f.finished ≡ 0
      → length s ≡ min len procfs_max_size
      → copy_from_user mem from (length s) ≡ (0, s)
      → copy_to_user mem' to s ≡ (0, mem'')
      → (g h : ProcFile) × (procfs_write copy_from_user mem from len f
          ≡ (pos (min len procfs_max_size), g))
        × (procfs_read copy_to_user mem' to n g ≡ (pos (min len procfs_max_size), mem'', h))
        × ((m : Mem) (c k : ℕ) → procfs_read copy_to_user m c k h ≡ (pos 0, m, g))
  write_read_again mem mem' mem'' from to len n f s first size brings takes =
      let g = holding s f in
      let h : ProcFile = record g { finished = 1 } in
      (
        g,
        h,
        write_steps mem from len f s size brings ∙ ap (λ k. (pos k, g)) size,
        read_steps mem' mem'' to n f s first takes ∙ ap (λ k. (pos k, mem'', h)) size,
        λ m c k.
            end_steps m c k h refl ∙ ap (λ z. (pos 0, m, record g { finished = z })) (sym first),
      )
