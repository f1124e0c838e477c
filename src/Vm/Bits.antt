-- ===== src/Vm/Bits.antt =====
-- The flags of entries of page tables: `|` as a sum where the numbers share no digit.
use Prim.Native.Nat.{
  ℕ, zero, suc, ◌+◌, ◌*◌, ◌/◌, ◌%◌, ◌^◌, ◌≤◌, ◌<◌, max, bit_or, digits, bit_or-bitwise,
}
use native.Mathlib.Nat.{pow-succ'}
use os.Base.{ap, subst, sym, ◌≡◌, refl, arith, ◌∙◌}

abbrev or_digits : ℕ → ℕ → ℕ → ℕ
or_digits n a b = digits (λ y. y) max n a b

or_nothing : (n a : ℕ) → a ≤ n → or_digits n a 0 ≡ a
or_nothing zero a h = omega arith
or_nothing (suc n) zero h = refl
or_nothing (suc n) (suc a) h = omega (arith, or_nothing n (suc a / 2) (omega arith))

or_apart : (k n c b a : ℕ) → a ≡ c * 2 ^ k → a ≤ n → b < 2 ^ k → or_digits n a b ≡ a + b
or_apart zero n c b a e h lt =
    let none_left : b ≡ 0 = omega arith in
    subst (λ y. or_digits n a y ≡ a + y) (sym none_left) (omega (arith, or_nothing n a h))
or_apart (suc k) zero c b a e h lt = omega arith
or_apart (suc k) (suc n) c b zero e h lt = omega arith
or_apart (suc k) (suc n) c b (suc a) e h lt =
    let twice : suc a ≡ 2 * (c * 2 ^ k) = e ∙ ap (λ t. c * t) (pow-succ' 2 k) ∙ grind arith in
    let half : suc a / 2 ≡ c * 2 ^ k = omega (arith, twice) in
    omega (arith, or_apart k n c (b / 2) (suc a / 2) half (omega arith) (omega arith))

bit_or-low : (k c b : ℕ) → b < 2 ^ k → bit_or (c * 2 ^ k) b ≡ c * 2 ^ k + b
bit_or-low k c b lt =
    bit_or-bitwise (c * 2 ^ k) b ∙ or_apart k (c * 2 ^ k) c b (c * 2 ^ k) refl (omega arith) lt

-- With PTE_P, an entry is present.
pub bit_or_odd : (a : ℕ) → bit_or a 1 % 2 ≡ 1
bit_or_odd zero = refl
bit_or_odd (suc a) = omega (arith, bit_or-bitwise (suc a) 1)

-- An aligned address with flags.
pub bit_or-aligned : (v b : ℕ) → v % 4096 ≡ 0 → b < 4096 → bit_or v b ≡ v + b
bit_or-aligned v b al lt =
    let whole : v / 4096 * 4096 ≡ v = omega arith in
    subst (λ x. bit_or x b ≡ x + b) whole (bit_or-low 12 (v / 4096) b lt)

-- A word with its lowest digit 0, and PTE_P.
pub bit_or_one : (a : ℕ) → a % 2 ≡ 0 → bit_or a 1 ≡ a + 1
bit_or_one a even =
    let whole : a / 2 * 2 ≡ a = omega arith in
    subst (λ x. bit_or x 1 ≡ x + 1) whole (bit_or-low 1 (a / 2) 1 (omega arith))
