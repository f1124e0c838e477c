-- ===== src/Fs/Content.antt =====
-- fs.c: the bytes of a file. A call on a device goes to the driver, which is a parameter.
use os.Base.{
  ℕ, zero, suc, ◌+◌, ◌-◌, ◌*◌, ◌/◌, ◌%◌, ◌^◌, ◌==◌, ltb, leb, min, true, false, ◌&&◌, ◌||◌,
  if◌then◌else◌, Option, none, some, List, [], ◌∷◌, ◌++◌, length, get_or, take, drop, Result, ok,
  ◌>>=◌,
}
use os.Fs.Layout.{bsize, ndirect, nindirect, Bytes, Disk, Superblock, put_block}
use os.Fs.Inode.{Inode, t_dev, iupdate, bmap}

-- `struct stat`
pub record Stat : Type 0 where
  pub dev : ℕ
  pub ino : ℕ
  pub type : ℕ
  pub nlink : ℕ
  pub size : ℕ

unfoldable pub stati : Inode → Stat
stati ip = record { dev = ip.dev; ino = ip.inum; type = ip.type; nlink = ip.nlink; size = ip.size }

-- `devsw`: what reading and writing a device returns, for a device that has a driver.
pub record Devices : Type 0 where
  pub read : ℕ → ℕ → Option (List ℕ)
  pub write : ℕ → List ℕ → Option ℕ

abbrev pub ndev : ℕ
ndev = 10

-- memmove out of a block, and into it.
unfoldable pub slice : Bytes → ℕ → ℕ → List ℕ
slice blk o zero = []
slice blk o (suc n) = blk o ∷ slice blk (o + 1) n

unfoldable pub splice : ℕ → List ℕ → Bytes → Bytes
splice o xs blk k = if leb o k && ltb k (o + length xs) then get_or xs (k - o) 0 else blk k

-- The bytes that one round moves.
abbrev pub chunk : ℕ → ℕ → ℕ
chunk off left = min left (bsize - off % bsize)

-- The loop of readi, with `left` bytes to go. Each round moves a byte or more, so that `left` rounds
-- are enough.
unfoldable pub read_loop : ℕ → Superblock → ℕ → ℕ → Inode → Disk → Result (List ℕ × Inode × Disk)
unfolding slice
read_loop zero sb off left ip d = ok ([], ip, d)
read_loop (suc f) sb off left ip d = elim (left == 0) [
  | true ↦ ok ([], ip, d)
  | false ↦ bmap sb ip (off / bsize) d >>= λ (addr, ip', d').
      let m : ℕ = chunk off left in
      read_loop f sb (off + m) (left - m) ip' d' >>= λ (rest, ip'', d'').
      ok (slice (d' addr) (off % bsize) m ++ rest, ip'', d'')
]

-- readi. `none` is the result -1.
unfoldable pub readi :
    Devices → Superblock → ℕ → ℕ → Inode → Disk → Result (Option (List ℕ) × Inode × Disk)
unfolding read_loop
readi dv sb off n ip d =
    if ip.type == t_dev
    then ok ((if leb ndev ip.major then none else dv.read ip.major n), ip, d)
    else if ltb ip.size off || ltb ((off + n) % 2 ^ 32) off
    then ok (none, ip, d)
    else (let n' : ℕ = if ltb ip.size (off + n) then ip.size - off else n in
        read_loop n' sb off n' ip d >>= λ (bs, ip', d'). ok (some bs, ip', d'))

unfoldable pub write_loop : ℕ → Superblock → ℕ → List ℕ → Inode → Disk → Result (Inode × Disk)
unfolding splice
write_loop zero sb off src ip d = ok (ip, d)
write_loop (suc f) sb off src ip d = elim (length src == 0) [
  | true ↦ ok (ip, d)
  | false ↦ bmap sb ip (off / bsize) d >>= λ (addr, ip', d').
      let m : ℕ = chunk off (length src) in
      write_loop f sb (off + m) (drop m src) ip'
        (put_block addr (splice (off % bsize) (take m src) (d' addr)) d')
]

abbrev pub maxfile : ℕ
maxfile = ndirect + nindirect

-- The end of writei: a file that has grown gets its new size.
abbrev pub grow : ℕ → ℕ → Inode → Disk → Inode × Disk
grow n end ip d =
    if ltb 0 n && ltb ip.size end
    then (let ip' : Inode = record ip { size = end } in (ip', iupdate ip' d))
    else (ip, d)

unfoldable pub writei :
    Devices → Superblock → ℕ → List ℕ → Inode → Disk → Result (Option ℕ × Inode × Disk)
unfolding write_loop
writei dv sb off src ip d =
    let n : ℕ = length src in
    if ip.type == t_dev
    then ok ((if leb ndev ip.major then none else dv.write ip.major src), ip, d)
    else if ltb ip.size off || ltb ((off + n) % 2 ^ 32) off
    then ok (none, ip, d)
    else if ltb (maxfile * bsize) (off + n)
    then ok (none, ip, d)
    else (write_loop n sb off src ip d >>= λ (ip', d').
        let (ip'', d'') = grow n (off + n) ip' d' in ok (some n, ip'', d''))
