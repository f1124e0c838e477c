-- ===== src/Fs/BitLaws.antt =====
-- The bits of a byte.
use os.Base.{ℕ, zero, suc, ◌<◌, ◌==◌, ◌≡◌, not, ◌||◌, ◌&&◌, arith}
use os.Fs.Bitmap.{bit, set_bit, clear_bit}

-- A claim about the eight places of a byte.
by8 {ℓ} : (P : ℕ → Type ℓ) → P 0 → P 1 → P 2 → P 3 → P 4 → P 5 → P 6 → P 7 → (k : ℕ) → k < 8 → P k
by8 P a b c d e f g h zero lt = a
by8 P a b c d e f g h (suc zero) lt = b
by8 P a b c d e f g h (suc (suc zero)) lt = c
by8 P a b c d e f g h (suc (suc (suc zero))) lt = d
by8 P a b c d e f g h (suc (suc (suc (suc zero)))) lt = e
by8 P a b c d e f g h (suc (suc (suc (suc (suc zero))))) lt = f
by8 P a b c d e f g h (suc (suc (suc (suc (suc (suc zero)))))) lt = g
by8 P a b c d e f g h (suc (suc (suc (suc (suc (suc (suc zero))))))) lt = h
by8 P a b c d e f g h (suc (suc (suc (suc (suc (suc (suc (suc n)))))))) lt = absurd (omega arith)

-- Setting one bit of a byte changes no other bit.
pub bit-set_bit : (x k : ℕ) → k < 8 → (j : ℕ) → j < 8 → bit (set_bit x k) j ≡ (j == k || bit x j)
bit-set_bit x =
    by8 (λ k. (j : ℕ) → j < 8 → bit (set_bit x k) j ≡ (j == k || bit x j))
      (by8 _ (ground arith) (ground arith) (ground arith) (ground arith) (ground arith)
        (ground arith) (ground arith) (ground arith))
      (by8 _ (ground arith) (ground arith) (ground arith) (ground arith) (ground arith)
        (ground arith) (ground arith) (ground arith))
      (by8 _ (ground arith) (ground arith) (ground arith) (ground arith) (ground arith)
        (ground arith) (ground arith) (ground arith))
      (by8 _ (ground arith) (ground arith) (ground arith) (ground arith) (ground arith)
        (ground arith) (ground arith) (ground arith))
      (by8 _ (ground arith) (ground arith) (ground arith) (ground arith) (ground arith)
        (ground arith) (ground arith) (ground arith))
      (by8 _ (ground arith) (ground arith) (ground arith) (ground arith) (ground arith)
        (ground arith) (ground arith) (ground arith))
      (by8 _ (ground arith) (ground arith) (ground arith) (ground arith) (ground arith)
        (ground arith) (ground arith) (ground arith))
      (by8 _ (ground arith) (ground arith) (ground arith) (ground arith) (ground arith)
        (ground arith) (ground arith) (ground arith))

-- Neither does clearing one.
pub bit-clear_bit :
    (x k : ℕ) → k < 8 → (j : ℕ) → j < 8 → bit (clear_bit x k) j ≡ (not (j == k) && bit x j)
bit-clear_bit x =
    by8 (λ k. (j : ℕ) → j < 8 → bit (clear_bit x k) j ≡ (not (j == k) && bit x j))
      (by8 _ (ground arith) (ground arith) (ground arith) (ground arith) (ground arith)
        (ground arith) (ground arith) (ground arith))
      (by8 _ (ground arith) (ground arith) (ground arith) (ground arith) (ground arith)
        (ground arith) (ground arith) (ground arith))
      (by8 _ (ground arith) (ground arith) (ground arith) (ground arith) (ground arith)
        (ground arith) (ground arith) (ground arith))
      (by8 _ (ground arith) (ground arith) (ground arith) (ground arith) (ground arith)
        (ground arith) (ground arith) (ground arith))
      (by8 _ (ground arith) (ground arith) (ground arith) (ground arith) (ground arith)
        (ground arith) (ground arith) (ground arith))
      (by8 _ (ground arith) (ground arith) (ground arith) (ground arith) (ground arith)
        (ground arith) (ground arith) (ground arith))
      (by8 _ (ground arith) (ground arith) (ground arith) (ground arith) (ground arith)
        (ground arith) (ground arith) (ground arith))
      (by8 _ (ground arith) (ground arith) (ground arith) (ground arith) (ground arith)
        (ground arith) (ground arith) (ground arith))
