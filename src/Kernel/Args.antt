-- ===== src/Kernel/Args.antt =====
-- lab06/src/syscall.c: the arguments of a system call, fetched from the memory of the process.
use sdp_labs.Common.{
  ℕ, zero, suc, ◌+◌, ◌-◌, ◌*◌, ◌%◌, ◌^◌, ◌≤◌, ◌<◌, ◌≡◌, ◌≢◌, ◌⊎◌, inl, inr, refl, ◌||◌, Option,
  none, some, arith, ltb, leb, ◌==◌, if◌then◌else◌, Bool-cases, ℕ_discrete,
}
use sdp_labs.Common.Int.{ℤ, pos, negsuc}

-- What the kernel reads of the calling process: `proc->sz`, `proc->tf->esp`, and its bytes.
pub record User : Type 0 where
  pub sz : ℕ
  pub esp : ℕ
  pub byte_at : ℕ → ℕ

-- The unsigned 32-bit number of an int, and back.
abbrev pub uint_of : ℤ → ℕ
uint_of (pos n) = n % 2 ^ 32
uint_of (negsuc n) = (2 ^ 32 - 1) - n % 2 ^ 32

abbrev pub signed : ℕ → ℤ
signed w = if ltb w (2 ^ 31) then pos w else negsuc (2 ^ 32 - 1 - w)

-- `*(int*)(addr)`, on a machine that stores the low byte first.
abbrev pub word_at : User → ℕ → ℕ
word_at u a =
    (u.byte_at a
      + u.byte_at (a + 1) * 2 ^ 8
      + u.byte_at (a + 2) * 2 ^ 16
      + u.byte_at (a + 3) * 2 ^ 24)
    % 2 ^ 32

-- `none` stands for the -1 of these functions.
unfoldable pub fetchint : User → ℕ → Option ℤ
fetchint u addr =
    if leb u.sz addr || ltb u.sz ((addr + 4) % 2 ^ 32) then none else some (signed (word_at u addr))

-- The loop of `fetchstr` at `s`, with `left` rounds to go; `len` bytes are behind it.
unfoldable pub string_end : User → ℕ → ℕ → ℕ → Option ℕ
string_end u zero s len = none
string_end u (suc left) s len =
    let rest = string_end u left (s + 1) (len + 1) in if u.byte_at s == 0 then some len else rest

-- The length of the string, and its address.
unfoldable pub fetchstr : User → ℕ → Option (ℕ × ℕ)
fetchstr u addr =
    if leb u.sz addr
    then none
    else elim (string_end u (u.sz - addr) addr 0) [ none ↦ none | some len ↦ some (len, addr) ]

unfoldable pub argint : User → ℕ → Option ℤ
unfolding fetchint
argint u n = fetchint u ((u.esp + 4 + 4 * n) % 2 ^ 32)

unfoldable pub argptr : User → ℕ → ℤ → Option ℕ
argptr u n size = elim (argint u n) [
  | none ↦ none
  | some i ↦
      if leb u.sz (uint_of i) || ltb u.sz ((uint_of i + uint_of size) % 2 ^ 32)
      then none
      else some (uint_of i)
]

unfoldable pub argstr : User → ℕ → Option (ℕ × ℕ)
argstr u n = elim (argint u n) [ none ↦ none | some addr ↦ fetchstr u (uint_of addr) ]

-- No byte from `a` up to `b` is 0.
abbrev pub NoZero : User → ℕ → ℕ → Type 0
NoZero u a b = (i : ℕ) → a ≤ i → i < b → u.byte_at i ≢ 0

string_end_lem :
    (u : User) (left s len : ℕ)
    → ((k : ℕ) × (string_end u left s len ≡ some (len + k))
        × (k < left)
        × (u.byte_at (s + k) ≡ 0)
        × NoZero u s (s + k))
      ⊎ ((string_end u left s len ≡ none) × NoZero u s (s + left))
unfolding string_end
string_end_lem u zero s len = inr (refl, λ i a b. absurd (omega arith))
string_end_lem u (suc left) s len = elim (ℕ_discrete (u.byte_at s) 0) [
  | yes z ↦
      inl (0, ground (arith, z), omega arith, ground (arith, z), λ i a b. absurd (omega arith))
  | no nz ↦ elim (string_end_lem u left (s + 1) (len + 1)) [
    | inl (k, e, lt, z, nothing) ↦ inl (
      suc k,
      ground (arith, e),
      omega arith,
      ground (arith, z),
      λ i a b. elim (ℕ_discrete i s) [
        | yes same ↦ rw same nz
        | no ne ↦ nothing i (omega arith) (omega arith)
      ],
    )
    | inr (e, nothing) ↦ inr (
      ground (arith, e),
      λ i a b. elim (ℕ_discrete i s) [
        | yes same ↦ rw same nz
        | no ne ↦ nothing i (omega arith) (omega arith)
      ],
    )
  ]
]

-- `fetchstr` finds a string exactly when a byte from its address up to the end of the address space is
-- 0: the length is the number of bytes before the first such byte. Otherwise the result is -1.
pub fetchstr_lem :
    (u : User) (addr : ℕ)
    → ((k : ℕ) × (fetchstr u addr ≡ some (k, addr))
        × (addr + k < u.sz)
        × (u.byte_at (addr + k) ≡ 0)
        × NoZero u addr (addr + k))
      ⊎ ((fetchstr u addr ≡ none) × NoZero u addr u.sz)
unfolding fetchstr
fetchstr_lem u addr = elim (Bool-cases (leb u.sz addr)) [
  | inl out ↦ inr (rw out refl, λ i a b. absurd (ground arith))
  | inr in_range ↦ elim (string_end_lem u (u.sz - addr) addr 0) [
    | inl (k, e, lt, z, nothing) ↦ inl (k, ground (arith, e), omega arith, z, nothing)
    | inr (e, nothing) ↦ inr (ground (arith, e), λ i a b. nothing i a (ground arith))
  ]
]

-- In an address space of at most 2 GB (KERNBASE) and for a size that is not negative: `argptr` accepts
-- a pointer exactly when it is in the address space and the whole block is; and what it returns is
-- that pointer.
pub argptr_lem :
    (u : User) (n size : ℕ) {i : ℤ}
    → u.sz ≤ 2 ^ 31
    → size < 2 ^ 31
    → argint u n ≡ some i
    → ((uint_of i < u.sz) × (uint_of i + size ≤ u.sz)) × (argptr u n (pos size) ≡ some (uint_of i))
      ⊎ ((u.sz < uint_of i + size) ⊎ (u.sz ≤ uint_of i)) × (argptr u n (pos size) ≡ none)
unfolding argptr
argptr_lem u n size {i} small fits e = ground (arith, e)

-- In an address space of at most 2 GB a negative size passes: if the pointer is in the address space and at least as large as the size is
-- below 0, `argptr` accepts it.
pub argptr_negative :
    (u : User) (n k : ℕ) {i : ℤ}
    → u.sz ≤ 2 ^ 31
    → argint u n ≡ some i
    → uint_of i < u.sz
    → k < uint_of i
    → argptr u n (negsuc k) ≡ some (uint_of i)
unfolding argptr
argptr_negative u n k {i} small e lt le = ground (arith, e)

-- `argint` in an address space of at most 2 GB, for a place on the stack below 2^32: the argument is the signed number in the four bytes at
-- its place on the stack, if all four are in the address space, and otherwise there is none.
pub argint_lem :
    (u : User) (n : ℕ)
    → u.sz ≤ 2 ^ 31
    → u.esp + 4 + 4 * n < 2 ^ 32
    → ((u.esp + 4 * n + 8 ≤ u.sz) × (argint u n ≡ some (signed (word_at u (u.esp + 4 + 4 * n)))))
      ⊎ ((u.sz < u.esp + 4 * n + 8) × (argint u n ≡ none))
unfolding argint
argint_lem u n small here = ground arith
