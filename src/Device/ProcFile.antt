-- ===== src/Device/ProcFile.antt =====
-- lab07/procfs-3/procfs-3.c: the file buffer2k of /proc. copy_to_user and copy_from_user are code of Linux,
-- and parameters: the first gives the number of bytes that it could not copy and the memory behind the
-- copy, the second that number and the bytes that arrive.
pub mod Roundtrip
use sdp_labs.Common.{
  ℕ, ◌+◌, ◌-◌, ◌==◌, ◌++◌, Option, none, some, List, drop, take, length, replicate, true, false,
  ltb, leb, if◌then◌else◌, Bool,
}
use sdp_labs.Common.Int.{ℤ, pos, negsuc}
use sdp_labs.Device.Echo.{efault}

-- PROCFS_MAX_SIZE and -EACCES
abbrev pub procfs_max_size : ℕ
procfs_max_size = 2048

abbrev pub eacces : ℤ
eacces = negsuc 12

-- The variables of the module, with `finished` of procfs_read, and its use counter.
pub record ProcFile : Type 0 where
  pub procfs_buffer : List ℕ
  pub procfs_buffer_size : ℕ
  pub finished : ℕ
  pub use_count : ℕ

unfoldable pub procfs_read :
    {Mem : Type 0} → (Mem → ℕ → List ℕ → ℕ × Mem) → Mem → ℕ → ℕ → ProcFile → ℤ × Mem × ProcFile
procfs_read copy_to_user mem buffer len s = elim (s.finished == 0) [
  | false ↦ (pos 0, mem, record s { finished = 0 })
  | true ↦
      let (missing, mem') = copy_to_user mem buffer (take s.procfs_buffer_size s.procfs_buffer) in
      (if missing == 0 then pos s.procfs_buffer_size else efault, mem', record s { finished = 1 })
]

unfoldable pub procfs_write :
    {Mem : Type 0} → (Mem → ℕ → ℕ → ℕ × List ℕ) → Mem → ℕ → ℕ → ProcFile → ℤ × ProcFile
procfs_write copy_from_user mem buffer len s =
    let n : ℕ = if ltb procfs_max_size len then procfs_max_size else len in
    let (missing, bytes) = copy_from_user mem buffer n in
    (
      if missing == 0 then pos n else efault,
      record s {
        procfs_buffer = bytes ++ drop (length bytes) s.procfs_buffer;
        procfs_buffer_size = n;
      },
    )

-- `op` is 36 to read and 34 to write.
abbrev pub module_permission : ℕ → ℕ → ℤ
module_permission op euid =
    if op == 36 then pos 0 else if op == 34 then if euid == 0 then pos 0 else eacces else eacces

abbrev pub procfs_open : ProcFile → ℤ × ProcFile
procfs_open s = (pos 0, record s { use_count = s.use_count + 1 })

-- Linux calls it for a file that is open.
abbrev pub procfs_close : ProcFile → ℤ × ProcFile
procfs_close s = (pos 0, record s { use_count = s.use_count - 1 })
