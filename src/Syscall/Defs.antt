-- ===== src/Syscall/Defs.antt =====
-- syscall.c: how the kernel fetches arguments from the memory of a process. Addresses and words have
-- 32 bits. `none` is the result -1.
use os.Base.{
  ℕ, zero, suc, ◌+◌, ◌-◌, ◌*◌, ◌%◌, ◌^◌, ◌==◌, ltb, leb, ◌||◌, if◌then◌else◌, Option, none, some,
}

-- The memory of a process that makes a call: its bytes, its size and its stack pointer.
pub record User : Type 0 where
  pub bytes : ℕ → ℕ
  pub sz : ℕ
  pub esp : ℕ

abbrev pub word_at : ℕ → User → ℕ
word_at a u =
    u.bytes a + 256 * u.bytes (a + 1) + 65536 * u.bytes (a + 2) + 16777216 * u.bytes (a + 3)

unfoldable pub fetchint : ℕ → User → Option ℕ
fetchint addr u =
    if leb u.sz addr || ltb u.sz ((addr + 4) % 2 ^ 32) then none else some (word_at addr u)

-- The loop of fetchstr, with `n` bytes left: how many come before the first NUL.
unfoldable pub scan_nul : ℕ → ℕ → User → Option ℕ
scan_nul zero s u = none
scan_nul (suc n) s u =
    let rest = scan_nul n (s + 1) u in
    if u.bytes s == 0 then some 0 else (elim rest [ none ↦ none | some k ↦ some (k + 1) ])

unfoldable pub fetchstr : ℕ → User → Option ℕ
fetchstr addr u = if leb u.sz addr then none else scan_nul (u.sz - addr) addr u

unfoldable pub argint : ℕ → User → Option ℕ
argint n u = fetchint ((u.esp + 4 + 4 * n) % 2 ^ 32) u

-- The pointer, to a block of `size` bytes; `size` is an `int` as a word.
unfoldable pub argptr : ℕ → ℕ → User → Option ℕ
argptr n size u = elim (argint n u) [
  | none ↦ none
  | some i ↦ if leb u.sz i || ltb u.sz ((i + size) % 2 ^ 32) then none else some i
]

-- The pointer and the length of the string.
unfoldable pub argstr : ℕ → User → Option (ℕ × ℕ)
argstr n u = elim (argint n u) [
  | none ↦ none
  | some addr ↦ elim (fetchstr addr u) [ none ↦ none | some len ↦ some (addr, len) ]
]
