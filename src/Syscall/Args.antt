-- ===== src/Syscall/Args.antt =====
-- syscall.c: what fetchint, fetchstr and argptr check.
use os.Base.{
  ℕ, zero, suc, ◌+◌, ◌-◌, ◌%◌, ◌^◌, ◌<◌, ◌≤◌, ◌==◌, ltb, leb, ◌≡◌, ◌≢◌, ◌↔◌, refl, ap, sym, subst,
  ◌∙◌, true, false, ◌||◌, if◌then◌else◌, Option, none, some, arith, Bool-cases, Option-cases, inl,
  inr, ◌⊎◌,
}
use os.Syscall.Defs.{User, word_at, fetchint, scan_nul, fetchstr, argint, argptr}

-- A process lies below KERNBASE, so that the sum of a valid address and 4 does not wrap around.
-- fetchint succeeds exactly when the four bytes lie inside the process.
pub fetchint_lem :
    (addr : ℕ) (u : User)
    → u.sz ≤ 2 ^ 31
    → ((addr + 4 ≤ u.sz) × (fetchint addr u ≡ some (word_at addr u)))
      ⊎ ((u.sz < addr + 4) × (fetchint addr u ≡ none))
unfolding fetchint
fetchint_lem addr u h = elim (Bool-cases (leb u.sz addr || ltb u.sz ((addr + 4) % 2 ^ 32))) [
  | inl outside ↦ inr (ground (arith, outside, h), rw outside refl)
  | inr inside ↦ inl (ground (arith, inside, h), rw inside refl)
]

-- The first NUL at or behind `s`, among `n` bytes.
abbrev pub FirstNul : ℕ → ℕ → User → Option ℕ → Type 0
FirstNul n s u none = (k : ℕ) → k < n → u.bytes (s + k) ≢ 0
FirstNul n s u (some k) = (k < n) × (u.bytes (s + k) ≡ 0) × ((j : ℕ) → j < k → u.bytes (s + j) ≢ 0)

scan_here : (n s : ℕ) (u : User) → (u.bytes s == 0) ≡ true → scan_nul (suc n) s u ≡ some 0
unfolding scan_nul
scan_here n s u h = rw h refl

scan_on :
    (n s : ℕ) (u : User) {r : Option ℕ}
    → (u.bytes s == 0) ≡ false
    → scan_nul n (s + 1) u ≡ r
    → scan_nul (suc n) s u ≡ (elim r [ none ↦ none | some k ↦ some (k + 1) ])
unfolding scan_nul
scan_on n s u {r} h e =
    rw h (ap (λ o. elim o as (λ _. Option ℕ) [ none ↦ none | some k ↦ some (k + 1) ]) e)

-- No NUL at `s` and none among the first `k` behind it.
none_before :
    (k s : ℕ) (u : User)
    → (u.bytes s == 0) ≡ false
    → ((j : ℕ) → j < k → u.bytes (s + 1 + j) ≢ 0)
    → (j : ℕ) → j < k + 1
    → u.bytes (s + j) ≢ 0
none_before k s u h rest zero l z =
    let here : s + 0 ≡ s = omega arith in absurd (ground (arith, h, sym (ap u.bytes here) ∙ z))
none_before k s u h rest (suc j) l z =
    let step : s + 1 + j ≡ s + suc j = omega arith in
    rest j (omega (arith, l)) (ap u.bytes step ∙ z)

scan_nul-FirstNul : (n s : ℕ) (u : User) → FirstNul n s u (scan_nul n s u)
unfolding scan_nul
scan_nul-FirstNul zero s u = λ k l. absurd (omega arith)
scan_nul-FirstNul (suc n) s u = elim (Bool-cases (u.bytes s == 0)) [
  | inl here ↦
      let start : s + 0 ≡ s = omega arith in
      subst (FirstNul (suc n) s u) (sym (scan_here n s u here))
        (omega arith, ap u.bytes start ∙ ground (arith, here), λ j l. absurd (omega arith))
  | inr other ↦ elim (Option-cases (scan_nul n (s + 1) u)) [
    | inl e ↦
        let rest = subst (FirstNul n (s + 1) u) e (scan_nul-FirstNul n (s + 1) u) in
        subst (FirstNul (suc n) s u) (sym (scan_on n s u {r = none} other e))
          (λ k l. none_before n s u other rest k (omega (arith, l)))
    | inr (k, e) ↦
        let step : s + (k + 1) ≡ s + 1 + k = omega arith in
        let (lt, at, before) = subst (FirstNul n (s + 1) u) e (scan_nul-FirstNul n (s + 1) u) in
        subst (FirstNul (suc n) s u) (sym (scan_on n s u {r = some k} other e))
          (omega (arith, lt), ap u.bytes step ∙ at, none_before k s u other before)
  ]
]

at_outside : (addr : ℕ) (u : User) → leb u.sz addr ≡ true → fetchstr addr u ≡ none
unfolding fetchstr
at_outside addr u h = rw h refl

at_inside :
    (addr : ℕ) (u : User) → leb u.sz addr ≡ false → fetchstr addr u ≡ scan_nul (u.sz - addr) addr u
unfolding fetchstr
at_inside addr u h = rw h refl

-- fetchstr succeeds exactly when the string starts in the process and ends there: it returns the
-- length up to the first NUL.
fetchstr-FirstNul :
    (addr : ℕ) (u : User)
    → ((u.sz ≤ addr) × (fetchstr addr u ≡ none))
      ⊎ ((addr < u.sz) × FirstNul (u.sz - addr) addr u (fetchstr addr u))
fetchstr-FirstNul addr u = elim (Bool-cases (leb u.sz addr)) [
  | inl outside ↦ inl (ground (arith, outside), at_outside addr u outside)
  | inr inside ↦ inr (
    ground (arith, inside),
    subst (FirstNul (u.sz - addr) addr u) (sym (at_inside addr u inside))
        (scan_nul-FirstNul (u.sz - addr) addr u),
  )
]

argptr_at :
    (n size i : ℕ) (u : User)
    → argint n u ≡ some i
    → argptr n size u ≡ (if leb u.sz i || ltb u.sz ((i + size) % 2 ^ 32) then none else some i)
unfolding argptr
argptr_at n size i u e = ground (arith, e)

-- argptr lets a block pass exactly when it starts in the process and either ends there, or is so
-- long that its end, on 32 bits, wraps around. The process lies below KERNBASE, and the pointer
-- and the length are words of 32 bits.
pub argptr_iff :
    (n size i : ℕ) (u : User)
    → u.sz ≤ 2 ^ 31
    → i < 2 ^ 32
    → size < 2 ^ 32
    → argint n u ≡ some i
    → (argptr n size u ≡ some i) ↔ ((i < u.sz) × ((i + size ≤ u.sz) ⊎ (2 ^ 32 ≤ i + size)))
argptr_iff n size i u low word word_size e =
    elim (Bool-cases (leb u.sz i || ltb u.sz ((i + size) % 2 ^ 32))) [
      | inl refused ↦ (
        (λ h. absurd (ground (arith, h, argptr_at n size i u e, refused))),
        (λ (inside, ends). absurd (ground (arith, refused, inside, ends, low))),
      )
      | inr passes ↦ (
        (λ h. (
          ground (arith, passes),
          elim (Bool-cases (leb (2 ^ 32) (i + size))) [
            | inl wraps ↦ inr (ground (arith, wraps))
            | inr small ↦ inl (ground (arith, passes, small, low))
          ],
        )),
        (λ h. argptr_at n size i u e ∙ rw passes refl),
      )
    ]
