-- ===== src/Str/Copy.antt =====
-- string.c: the copies of strings stay inside their buffers and end.
use os.Base.{ℕ, zero, suc, ◌+◌, ◌≤◌, ◌<◌, ◌==◌, ◌≡◌, ◌⊎◌, inl, inr, arith, Bool-cases}
use os.Str.Defs.{Bytes, write, copy_chars, safestrcpy}

-- `m'` differs from `m` at most in the `n` bytes at `s`.
abbrev pub Only : ℕ → ℕ → Bytes → Bytes → Type 0
Only s n m m' = (a : ℕ) → (a < s) ⊎ (s + n ≤ a) → m' a ≡ m a

copy_chars-Only : (s t n : ℕ) (m : Bytes) → Only s (n + 1) m (copy_chars s t n m)
unfolding copy_chars
copy_chars-Only s t zero m a out = grind (arith, out)
copy_chars-Only s t (suc n) m a out =
    let ih : copy_chars (s + 1) (t + 1) n (write s (m t) m) a ≡ write s (m t) m a =
      copy_chars-Only (s + 1) (t + 1) n (write s (m t) m) a (grind (arith, out)) in
    grind (arith, ih, out)

copy_chars_ends : (s t n : ℕ) (m : Bytes) → (j : ℕ) × (j ≤ n) × (copy_chars s t n m (s + j) ≡ 0)
unfolding copy_chars
copy_chars_ends s t zero m = (0, omega arith, ground arith)
copy_chars_ends s t (suc n) m = elim (Bool-cases (m t == 0)) [
  | inl nul ↦ (1, omega arith, ground (arith, nul))
  | inr more ↦
      let shifted : (j : ℕ)
          → copy_chars (s + 1) (t + 1) n (write s (m t) m) (s + 1 + j) ≡ 0
          → copy_chars s t (suc n) m (s + (j + 1)) ≡ 0 =
        λ j e. let there : s + (j + 1) ≡ s + 1 + j = omega arith in rw (more, there) e in
      let (j, le, e) = copy_chars_ends (s + 1) (t + 1) n (write s (m t) m) in
      (j + 1, omega (arith, le), shifted j e)
]

-- safestrcpy with a positive `n` always leaves a NUL among the `n` bytes at `s`, and changes no
-- byte outside them, whatever the string at `t` is and wherever it stands.
safestrcpy_ends :
    (s t n : ℕ) (m : Bytes)
    → 0 < n
    → ((j : ℕ) × (j < n) × (safestrcpy s t n m (s + j) ≡ 0)) × Only s n m (safestrcpy s t n m)
unfolding safestrcpy
safestrcpy_ends s t zero m h = absurd (omega (arith, h))
safestrcpy_ends s t (suc n) m h =
    let (j, le, e) = copy_chars_ends s t n m in
    ((j, omega (arith, le), e), λ a out. copy_chars-Only s t n m a (grind (arith, out)))
