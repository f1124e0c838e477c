-- ===== src/Base/Sums.antt =====
-- Sums over an array, and what an update of one entry does to them.
use Prim.Native.Nat.{ℕ, zero, suc, ◌+◌}
use mathlib.Core.Path.{◌≡◌, refl}
use mathlib.Core.Option.{some}
use mathlib.Core.List.{List, [], ◌∷◌}
use native.Mathlib.Omega.{arith}
use os.Base.Lists.{get_elem?, set, modify, All}

module _ {ℓ} {A : Type ℓ} where
  unfoldable pub total : (A → ℕ) → List A → ℕ
  total w [] = 0
  total w (x ∷ xs) = w x + total w xs

  pub total-modify :
      (w : A → ℕ) (f : A → A) (xs : List A) (i : ℕ) {x : A}
      → get_elem? xs i ≡ some x
      → total w (modify xs i f) + w x ≡ total w xs + w (f x)
  unfolding total
  total-modify w f [] i h = absurd (ground (arith, h))
  total-modify w f (x ∷ xs) zero h = ground (arith, h)
  total-modify w f (x ∷ xs) (suc i) {x = y} h = omega (arith, total-modify w f xs i {x = y} h)

  pub total-set :
      (w : A → ℕ) (xs : List A) (i : ℕ) (y : A) {x : A}
      → get_elem? xs i ≡ some x
      → total w (set xs i y) + w x ≡ total w xs + w y
  unfolding total
  total-set w [] i y h = absurd (ground (arith, h))
  total-set w (x ∷ xs) zero y h = ground (arith, h)
  total-set w (x ∷ xs) (suc i) y {x = z} h = omega (arith, total-set w xs i y {x = z} h)

  pub total_zero : (w : A → ℕ) (xs : List A) → All (λ x. w x ≡ 0) xs → total w xs ≡ 0
  unfolding total
  total_zero w [] h = refl
  total_zero w (x ∷ xs) (h, hs) = omega (arith, h, total_zero w xs hs)
