-- ===== src/Base/Int.antt =====
-- The `int` values that carry an index or -1: `negsuc n` is -(n + 1).
use Prim.Native.Nat.{ℕ}
use mathlib.Core.Bool.{Bool, false}
use mathlib.Core.Option.{Option, none, some}
use os.Base.Tests.{◌==◌}

pub data ℤ : Type 0 where
  pos : ℕ → ℤ
  negsuc : ℕ → ℤ

abbrev pub minus_one : ℤ
minus_one = negsuc 0

abbrev pub eqz : ℤ → ℤ → Bool
eqz (pos a) (pos b) = a == b
eqz (negsuc a) (negsuc b) = a == b
eqz (pos a) (negsuc b) = false
eqz (negsuc a) (pos b) = false

-- An `int` used as an array index.
abbrev pub index : ℤ → Option ℕ
index (pos n) = some n
index (negsuc n) = none
