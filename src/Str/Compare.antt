-- ===== src/Str/Compare.antt =====
-- string.c: what strncmp compares.
use os.Base.{
  ℕ, zero, suc, ◌+◌, ◌<◌, ◌==◌, ◌≡◌, ◌≢◌, ◌↔◌, refl, ap, subst, sym, ◌∙◌, inl, inr, arith,
  Bool-cases, pos,
}
use os.Str.Defs.{Bytes, difference, strncmp}

-- The strings at `p` and `q` agree up to their ends, or up to `n` bytes.
abbrev pub Agree : ℕ → ℕ → ℕ → Bytes → Type 0
Agree p q n m = (j : ℕ) → j < n → ((i : ℕ) → i < j → m (p + i) ≢ 0) → m (p + j) ≡ m (q + j)

difference_zero : (x y : ℕ) → difference x y ≡ pos 0 → x ≡ y
difference_zero x y h = ground (arith, h)

first : (m : Bytes) (p : ℕ) → m (p + 0) ≡ m p
first m p = ap m (omega arith)

next : (m : Bytes) (p i : ℕ) → m (p + (i + 1)) ≡ m (p + 1 + i)
next m p i = ap m (omega arith)

head_same : (p q n : ℕ) (m : Bytes) → Agree p q (suc n) m → m p ≡ m q
head_same p q n m a =
    sym (first m p) ∙ a 0 (omega arith) (λ i l. absurd (omega (arith, l))) ∙ first m q

tail-Agree : (p q n : ℕ) (m : Bytes) → m p ≢ 0 → Agree p q (suc n) m → Agree (p + 1) (q + 1) n m
tail-Agree p q n m nz a j lt before =
    sym (next m p j) ∙ a (j + 1) (omega (arith, lt)) front ∙ next m q j
  where
    front : (i : ℕ) → i < j + 1 → m (p + i) ≢ 0
    front zero l e = nz (sym (first m p) ∙ e)
    front (suc i) l e =
        before i (omega (arith, l)) (sym (next m p i) ∙ subst (λ k. m (p + k) ≡ 0) (omega arith) e)

cons-Agree :
    (p q n : ℕ) (m : Bytes)
    → m p ≡ m q
    → (m p ≢ 0 → Agree (p + 1) (q + 1) n m)
    → Agree p q (suc n) m
cons-Agree p q n m e a zero lt before = first m p ∙ e ∙ sym (first m q)
cons-Agree p q n m e a (suc j) lt before =
    subst (λ k. m (p + k) ≡ m (q + k)) (omega arith)
      (next m p j
        ∙ a (λ z. before 0 (omega arith) (first m p ∙ z)) j (omega (arith, lt))
            (λ i l z. before (i + 1) (omega (arith, l)) (next m p i ∙ z))
        ∙ sym (next m q j))

-- strncmp is 0 exactly when the strings agree, byte for byte, as far as the NUL of the first or
-- `n` bytes, whichever comes first.
strncmp_lem : (p q n : ℕ) (m : Bytes) → (strncmp p q n m ≡ pos 0) ↔ Agree p q n m
unfolding strncmp
strncmp_lem p q zero m = (λ h j lt before. absurd (omega (arith, lt)), λ a. refl)
strncmp_lem p q (suc n) m =
    let rest = strncmp_lem (p + 1) (q + 1) n m in
    (
      λ h. cons-Agree p q n m (ground (arith, h)) (λ nz. rest.0 (ground (arith, h, nz))),
      λ a. elim (Bool-cases (m p == 0)) [
        | inl nul ↦ ground (arith, nul, head_same p q n m a)
        | inr more ↦
            let same : strncmp (p + 1) (q + 1) n m ≡ pos 0 =
              rest.1 (tail-Agree p q n m (λ e. ground (arith, more, e)) a) in
            ground (arith, more, head_same p q n m a, same)
      ],
    )
