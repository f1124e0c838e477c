-- ===== src/Fs/Layout.antt =====
-- fs.h: the format of the disk. A block is its bytes by offset, and a disk its blocks by number:
-- what bread shows once the changes recorded by log_write are in.
use os.Base.{ℕ, ◌+◌, ◌-◌, ◌*◌, ◌/◌, ◌%◌, ◌^◌, ◌==◌, ltb, leb, ◌&&◌, if◌then◌else◌}

abbrev pub bsize : ℕ
bsize = 512

-- Bitmap bits per block.
abbrev pub bpb : ℕ
bpb = 4096

-- Inodes per block.
abbrev pub ipb : ℕ
ipb = 8

abbrev pub ndirect : ℕ
ndirect = 12

abbrev pub nindirect : ℕ
nindirect = 128

abbrev pub dirsiz : ℕ
dirsiz = 14

abbrev pub Bytes : Type 0
Bytes = ℕ → ℕ

abbrev pub Disk : Type 0
Disk = ℕ → Bytes

pub record Superblock : Type 0 where
  pub size : ℕ
  pub nblocks : ℕ
  pub ninodes : ℕ
  pub nlog : ℕ

abbrev pub iblock : ℕ → ℕ
iblock i = i / ipb + 2

abbrev pub bblock : ℕ → ℕ → ℕ
bblock b ninodes = b / bpb + ninodes / ipb + 3

-- The disk with the bytes of one block replaced.
abbrev pub put_block : ℕ → Bytes → Disk → Disk
put_block n blk d k = if k == n then blk else d k

abbrev pub put_byte : ℕ → ℕ → Bytes → Bytes
put_byte o x blk k = if k == o then x else blk k

-- Little-endian words at an offset.
abbrev pub get16 : ℕ → Bytes → ℕ
get16 o blk = blk o + 256 * blk (o + 1)

abbrev pub get32 : ℕ → Bytes → ℕ
get32 o blk = blk o + 256 * blk (o + 1) + 65536 * blk (o + 2) + 16777216 * blk (o + 3)

-- Byte `k` of a word.
abbrev pub byte_of : ℕ → ℕ → ℕ
byte_of x k = x / 256 ^ k % 256

abbrev pub put32 : ℕ → ℕ → Bytes → Bytes
put32 o x blk k = if leb o k && ltb k (o + 4) then byte_of x (k - o) else blk k
