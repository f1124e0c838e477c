-- ===== src/Base/Slices.antt =====
-- Parts of buffers.
use Prim.Native.Nat.{ℕ, zero, suc, ◌+◌, ◌-◌, ◌≤◌, ◌<◌}
use mathlib.Core.Path.{◌≡◌, refl, ap, ◌∙◌}
use mathlib.Core.List.{List, [], ◌∷◌}
use native.Mathlib.Omega.{arith}
use os.Base.Lists.{length, get_or, take, drop}

pub get_or-drop : (m i : ℕ) (xs : List ℕ) → get_or (drop m xs) i 0 ≡ get_or xs (m + i) 0
get_or-drop zero i xs = ap (λ j. get_or xs j 0) (omega arith)
get_or-drop (suc m) i [] = refl
get_or-drop (suc m) i (x ∷ xs) =
    let e : suc (m + i) ≡ suc m + i = omega arith in
    get_or-drop m i xs ∙ ap (λ j. get_or (x ∷ xs) j 0) e

pub get_or-take : (m i : ℕ) (xs : List ℕ) → i < m → get_or (take m xs) i 0 ≡ get_or xs i 0
get_or-take zero i xs lt = absurd (omega arith)
get_or-take (suc m) i [] lt = refl
get_or-take (suc m) zero (x ∷ xs) lt = refl
get_or-take (suc m) (suc i) (x ∷ xs) lt = get_or-take m i xs (omega arith)

pub length-drop : (m : ℕ) (xs : List ℕ) → length (drop m xs) ≡ length xs - m
length-drop zero xs = omega arith
length-drop (suc m) [] = omega arith
length-drop (suc m) (x ∷ xs) = omega (arith, length-drop m xs)

pub length-take_le : (m : ℕ) (xs : List ℕ) → length (take m xs) ≤ m
length-take_le zero xs = omega arith
length-take_le (suc m) [] = omega arith
length-take_le (suc m) (x ∷ xs) = omega (arith, length-take_le m xs)

pub take_has : (m i : ℕ) (xs : List ℕ) → i < m → i < length xs → i < length (take m xs)
take_has zero i xs lt lt' = absurd (omega arith)
take_has (suc m) i [] lt lt' = absurd (omega arith)
take_has (suc m) zero (x ∷ xs) lt lt' = omega arith
take_has (suc m) (suc i) (x ∷ xs) lt lt' =
    omega (arith, take_has m i xs (omega arith) (omega arith))

pub drop_all : (m : ℕ) (xs : List ℕ) → length xs ≤ m → drop m xs ≡ []
drop_all zero [] le = refl
drop_all zero (x ∷ xs) le = absurd (omega arith)
drop_all (suc m) [] le = refl
drop_all (suc m) (x ∷ xs) le = drop_all m xs (omega arith)
