-- ===== src/Vm/Bytes.antt =====
-- vm.c: the bytes that memmove puts into the words of the memory.
use os.Base.{
  ℕ, zero, suc, ◌+◌, ◌-◌, ◌*◌, ◌/◌, ◌%◌, ◌^◌, ◌<◌, ◌≤◌, ◌≡◌, ◌≢◌, ◌⊎◌, inl, inr, refl, sym, ap, ◌∙◌,
  List, [], ◌∷◌, length, get_or, arith, ℕ_discrete,
}
use os.Kalloc.Defs.{pgsize}
use os.Vm.Table.{byte_at, put_byte, put_bytes}
use os.Vm.View.{Off}

-- Byte `r` of a word, and the word with another byte there.
abbrev byte_in : ℕ → ℕ → ℕ
byte_in w r = w / 256 ^ r % 256

abbrev with_byte : ℕ → ℕ → ℕ → ℕ
with_byte w r x = w - byte_in w r * 256 ^ r + x * 256 ^ r

byte_new : (r w x : ℕ) → r < 4 → x < 256 → byte_in (with_byte w r x) r ≡ x
byte_new zero w x lt small = omega arith
byte_new (suc zero) w x lt small = omega arith
byte_new (suc (suc zero)) w x lt small = omega arith
byte_new (suc (suc (suc zero))) w x lt small = omega arith
byte_new (suc (suc (suc (suc r)))) w x lt small = absurd (omega arith)

byte_old :
    (r s w x : ℕ) → r < 4 → s < 4 → x < 256 → s ≢ r → byte_in (with_byte w r x) s ≡ byte_in w s
byte_old zero zero w x lt lt' small ne = absurd (ne refl)
byte_old zero (suc zero) w x lt lt' small ne = omega arith
byte_old zero (suc (suc zero)) w x lt lt' small ne = omega arith
byte_old zero (suc (suc (suc zero))) w x lt lt' small ne = omega arith
byte_old zero (suc (suc (suc (suc s)))) w x lt lt' small ne = absurd (omega arith)
byte_old (suc zero) zero w x lt lt' small ne = omega arith
byte_old (suc zero) (suc zero) w x lt lt' small ne = absurd (ne refl)
byte_old (suc zero) (suc (suc zero)) w x lt lt' small ne = omega arith
byte_old (suc zero) (suc (suc (suc zero))) w x lt lt' small ne = omega arith
byte_old (suc zero) (suc (suc (suc (suc s)))) w x lt lt' small ne = absurd (omega arith)
byte_old (suc (suc zero)) zero w x lt lt' small ne = omega arith
byte_old (suc (suc zero)) (suc zero) w x lt lt' small ne = omega arith
byte_old (suc (suc zero)) (suc (suc zero)) w x lt lt' small ne = absurd (ne refl)
byte_old (suc (suc zero)) (suc (suc (suc zero))) w x lt lt' small ne = omega arith
byte_old (suc (suc zero)) (suc (suc (suc (suc s)))) w x lt lt' small ne = absurd (omega arith)
byte_old (suc (suc (suc zero))) zero w x lt lt' small ne = omega arith
byte_old (suc (suc (suc zero))) (suc zero) w x lt lt' small ne = omega arith
byte_old (suc (suc (suc zero))) (suc (suc zero)) w x lt lt' small ne = omega arith
byte_old (suc (suc (suc zero))) (suc (suc (suc zero))) w x lt lt' small ne = absurd (ne refl)
byte_old (suc (suc (suc zero))) (suc (suc (suc (suc s)))) w x lt lt' small ne = absurd (omega arith)
byte_old (suc (suc (suc (suc r)))) s w x lt lt' small ne = absurd (omega arith)

put_byte_word :
    (a x : ℕ) (words : ℕ → ℕ)
    → put_byte a x words (a / 4 * 4) ≡ with_byte (words (a / 4 * 4)) (a % 4) x
put_byte_word a x words = ground arith

put_byte_else : (a c x : ℕ) (words : ℕ → ℕ) → c ≢ a / 4 * 4 → put_byte a x words c ≡ words c
put_byte_else a c x words ne = ground (arith, ne)

put_byte_self : (a x : ℕ) (words : ℕ → ℕ) → x < 256 → byte_at (put_byte a x words) a ≡ x
put_byte_self a x words small =
    ap (λ w. byte_in w (a % 4)) (put_byte_word a x words)
    ∙ byte_new (a % 4) (words (a / 4 * 4)) x (omega arith) small

put_byte_other :
    (a b x : ℕ) (words : ℕ → ℕ) → x < 256 → b ≢ a → byte_at (put_byte a x words) b ≡ byte_at words b
put_byte_other a b x words small ne = elim (ℕ_discrete (b / 4 * 4) (a / 4 * 4)) [
  | yes same ↦
      let there : put_byte a x words (b / 4 * 4) ≡ with_byte (words (b / 4 * 4)) (a % 4) x =
        ap (put_byte a x words) same
        ∙ put_byte_word a x words
        ∙ ap (λ c. with_byte (words c) (a % 4) x) (sym same) in
      ap (λ w. byte_in w (b % 4)) there
      ∙ byte_old (a % 4) (b % 4) (words (b / 4 * 4)) x (omega arith) (omega arith) small
          (omega (arith, ne, same))
  | no differ ↦ ap (λ w. byte_in w (b % 4)) (put_byte_else a (b / 4 * 4) x words differ)
]

-- The bytes of a buffer.
abbrev pub Small : List ℕ → Type 0
Small xs = (i : ℕ) → get_or xs i 0 < 256

pub put_bytes-outside :
    (a b : ℕ) (xs : List ℕ) (words : ℕ → ℕ)
    → Small xs
    → (b < a) ⊎ (a + length xs ≤ b)
    → byte_at (put_bytes a xs words) b ≡ byte_at words b
unfolding put_bytes
put_bytes-outside a b [] words small side = refl
put_bytes-outside a b (x ∷ xs) words small side =
    put_bytes-outside (a + 1) b xs (put_byte a x words) (λ i. small (suc i))
      (elim side [ inl lo ↦ inl (omega (arith, lo)) | inr hi ↦ inr (omega (arith, hi)) ])
    ∙ put_byte_other a b x words (small 0)
        (elim side [ inl lo ↦ omega (arith, lo) | inr hi ↦ omega (arith, hi) ])

pub put_bytes-inside :
    (a i : ℕ) (xs : List ℕ) (words : ℕ → ℕ)
    → Small xs
    → i < length xs
    → byte_at (put_bytes a xs words) (a + i) ≡ get_or xs i 0
unfolding put_bytes
put_bytes-inside a i [] words small lt = absurd (omega arith)
put_bytes-inside a zero (x ∷ xs) words small lt =
    put_bytes-outside (a + 1) (a + 0) xs (put_byte a x words) (λ i. small (suc i))
      (inl (omega arith))
    ∙ ap (byte_at (put_byte a x words)) (omega arith)
    ∙ put_byte_self a x words (small 0)
put_bytes-inside a (suc i) (x ∷ xs) words small lt =
    ap (byte_at (put_bytes (a + 1) xs (put_byte a x words))) (omega arith)
    ∙ put_bytes-inside (a + 1) i xs (put_byte a x words) (λ j. small (suc j)) (omega arith)

-- They stay within their page.
pub put_bytes-Off :
    (f a : ℕ) (xs : List ℕ) (words : ℕ → ℕ)
    → f % pgsize ≡ 0
    → f ≤ a
    → a + length xs ≤ f + pgsize
    → Off f words (put_bytes a xs words)
unfolding put_bytes
put_bytes-Off f a [] words al lo hi c side = refl
put_bytes-Off f a (x ∷ xs) words al lo hi c side =
    put_bytes-Off f (a + 1) xs (put_byte a x words) al (omega arith) (omega arith) c side
    ∙ put_byte_else a c x words (elim side [
      | inl below ↦ omega (arith, below, al, lo)
      | inr above ↦ omega (arith, above, al, lo, hi)
    ])
