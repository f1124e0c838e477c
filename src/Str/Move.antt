-- ===== src/Str/Move.antt =====
-- string.c: memmove is right when its ranges overlap.
use os.Base.{
  ℕ, zero, suc, ◌+◌, ◌-◌, ◌≤◌, ◌==◌, ltb, leb, ◌≡◌, ap, ◌∙◌, ◌⊎◌, inl, inr, ◌&&◌, if◌then◌else◌,
  arith, Bool-cases,
}
use os.Str.Defs.{Bytes, write, copy_up, copy_down, memmove, memcpy}

-- The memory with the `n` bytes at `src` put at `dst`, all at once.
abbrev pub moved : ℕ → ℕ → ℕ → Bytes → Bytes
moved dst src n m a = if leb dst a && ltb a (dst + n) then m (src + (a - dst)) else m a

copy_up_lem :
    (d s n : ℕ) (m : Bytes) (a : ℕ) → (d ≤ s) ⊎ (s + n ≤ d) → copy_up d s n m a ≡ moved d s n m a
unfolding copy_up
copy_up_lem d s zero m a h = ground arith
copy_up_lem d s (suc n) m a h =
    let ih = copy_up_lem (d + 1) (s + 1) n (write d (m s) m) a (grind arith) in
    ih ∙ elim (Bool-cases (d == a)) [
      | inl here ↦
          let first : m (s + (a - d)) ≡ m s = ap m (ground (arith, here)) in
          ground (arith, here, first)
      | inr other ↦ elim (Bool-cases (ltb d a)) [
        | inl later ↦
            let next : m (s + 1 + (a - (d + 1))) ≡ m (s + (a - d)) = ap m (ground (arith, later)) in
            ground (arith, later, other, next, h)
        | inr earlier ↦ ground (arith, other, earlier)
      ]
    ]

copy_down_lem :
    (d s n : ℕ) (m : Bytes) (a : ℕ) → s ≤ d → copy_down (d + n) (s + n) n m a ≡ moved d s n m a
unfolding copy_down
copy_down_lem d s zero m a h = ground arith
copy_down_lem d s (suc n) m a h =
    let d_end : d + suc n - 1 ≡ d + n = omega arith in
    let s_end : s + suc n - 1 ≡ s + n = omega arith in
    rw (d_end, s_end)
      (copy_down_lem d s n (write (d + n) (m (s + n)) m) a h ∙ elim (Bool-cases (d + n == a)) [
        | inl last ↦
            let final : m (s + (a - d)) ≡ m (s + n) = ap m (ground (arith, last)) in
            ground (arith, last, final)
        | inr other ↦ ground (arith, other, h)
      ])

-- memmove puts the bytes that stood at `src` at `dst`, whether or not the two ranges overlap, and
-- changes no other byte; memcpy does the same.
pub memmove_lem :
    (dst src n : ℕ) (m : Bytes) (a : ℕ)
    → (memmove dst src n m a ≡ moved dst src n m a) × (memcpy dst src n m a ≡ moved dst src n m a)
unfolding memmove memcpy
memmove_lem dst src n m a = (move, move)
  where
    move : memmove dst src n m a ≡ moved dst src n m a
    move = elim (Bool-cases (ltb src dst && ltb dst (src + n))) [
      | inl behind ↦ rw behind (copy_down_lem dst src n m a (ground (arith, behind)))
      | inr clear ↦ rw clear (copy_up_lem dst src n m a (grind (arith, clear)))
    ]
