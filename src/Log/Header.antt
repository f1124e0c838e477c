-- ===== src/Log/Header.antt =====
-- log.c: the header block of the log is read back as it was written.
use os.Base.{ℕ, suc, ◌<◌, ◌≤◌, ◌≡◌, refl, ap, List, [], ◌∷◌, length, take, arith}
use os.Log.Disk.{Block}
use os.Log.Defs.{put_words, header_of, sectors_of}

take-put_words :
    (ws : List ℕ) (b : Block) → length ws ≤ length b → take (length ws) (put_words ws b) ≡ ws
take-put_words [] b h = refl
take-put_words (w ∷ ws) [] h = absurd (omega arith)
take-put_words (w ∷ ws) (x ∷ b) h = ap (λ l. w ∷ l) (take-put_words ws b (omega arith))

pub length-put_words : (ws : List ℕ) (b : Block) → length (put_words ws b) ≡ length b
length-put_words [] b = refl
length-put_words (w ∷ ws) [] = refl
length-put_words (w ∷ ws) (x ∷ b) = ap suc (length-put_words ws b)

-- What write_head puts into a block that is large enough, read_head finds there.
pub sectors_of-header_of :
    (sectors : List ℕ) (b : Block)
    → length sectors < length b
    → sectors_of (header_of sectors b) ≡ sectors
sectors_of-header_of sectors [] h = absurd (omega arith)
sectors_of-header_of sectors (x ∷ b) h = take-put_words sectors b (omega arith)
