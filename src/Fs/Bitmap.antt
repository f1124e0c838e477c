-- ===== src/Fs/Bitmap.antt =====
-- fs.c: the bitmap of the blocks in use.
use os.Base.{
  ℕ, zero, suc, ◌+◌, ◌-◌, ◌/◌, ◌%◌, ◌^◌, ◌==◌, ltb, not, Bool, true, false, if◌then◌else◌, Option,
  none, some, Result, ok, panic,
}
use os.Fs.Layout.{bpb, Bytes, Disk, Superblock, bblock, put_block, put_byte}

-- `x & m` and `x |= m` for `m = 1 << k`, and `x &= ~m` where the bit is set.
abbrev pub bit : ℕ → ℕ → Bool
bit x k = x / 2 ^ k % 2 == 1

abbrev pub set_bit : ℕ → ℕ → ℕ
set_bit x k = if bit x k then x else x + 2 ^ k

abbrev pub clear_bit : ℕ → ℕ → ℕ
clear_bit x k = if bit x k then x - 2 ^ k else x

unfoldable pub bzero : ℕ → Disk → Disk
bzero bno d = put_block bno (λ _. 0) d

-- The inner loop of balloc on one block of the bitmap, with `n` bits left from `bi` on.
unfoldable pub free_bit : Bytes → ℕ → ℕ → ℕ → ℕ → Option ℕ
free_bit blk size b bi zero = none
free_bit blk size b bi (suc n) =
    let rest = free_bit blk size b (bi + 1) n in
    if not (ltb (b + bi) size)
    then none
    else if not (bit (blk (bi / 8)) (bi % 8))
    then some bi
    else rest

-- The outer loop, with `n` blocks of the bitmap left.
unfoldable pub balloc_from : ℕ → ℕ → Superblock → Disk → Result (ℕ × Disk)
balloc_from zero b sb d = panic "balloc: out of blocks"
balloc_from (suc n) b sb d = elim (ltb b sb.size) [
  | false ↦ panic "balloc: out of blocks"
  | true ↦ elim (free_bit (d (bblock b sb.ninodes)) sb.size b 0 bpb) [
    | some bi ↦
        let blk : Bytes = d (bblock b sb.ninodes) in
        let blk' : Bytes = put_byte (bi / 8) (set_bit (blk (bi / 8)) (bi % 8)) blk in
        ok (b + bi, bzero (b + bi) (put_block (bblock b sb.ninodes) blk' d))
    | none ↦ balloc_from n (b + bpb) sb d
  ]
]

-- The outer loop makes at most `size / BPB + 1` rounds.
unfoldable pub balloc : Superblock → Disk → Result (ℕ × Disk)
balloc sb d = balloc_from (sb.size / bpb + 1) 0 sb d

unfoldable pub bfree : ℕ → Superblock → Disk → Result Disk
bfree b sb d =
    let n : ℕ = bblock b sb.ninodes in
    let bi : ℕ = b % bpb in
    if not (bit (d n (bi / 8)) (bi % 8))
    then panic "freeing free block"
    else ok (put_block n (put_byte (bi / 8) (clear_bit (d n (bi / 8)) (bi % 8)) (d n)) d)
