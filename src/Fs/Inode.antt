-- ===== src/Fs/Inode.antt =====
-- fs.c and file.h: inodes on the disk and in the inode cache. All inodes are on one device, the disk
-- of the file system; `dev` only tells cache entries apart. The locks are not represented.
use os.Base.{
  ℕ, zero, suc, ◌+◌, ◌-◌, ◌*◌, ◌/◌, ◌%◌, ◌==◌, ltb, leb, not, Bool, true, false, ◌&&◌, ◌||◌,
  if◌then◌else◌, Option, none, some, List, [], ◌∷◌, get_elem?, get_or, set, modify, take, replicate,
  Result, ok, panic, deref, ◌>>=◌,
}
use os.Fs.Layout.{
  ipb, ndirect, nindirect, Bytes, Disk, Superblock, iblock, put_block, get16, get32, byte_of, put32,
}
use os.Fs.Bitmap.{balloc, bfree}

abbrev pub t_dir : ℕ
t_dir = 1

abbrev pub t_file : ℕ
t_file = 2

abbrev pub t_dev : ℕ
t_dev = 3

-- `struct inode`, with the bits of `flags` apart. The `short` fields are their 16 bits.
pub record Inode : Type 0 where
  pub dev : ℕ
  pub inum : ℕ
  pub ref : ℕ
  pub busy : Bool
  pub valid : Bool
  pub type : ℕ
  pub major : ℕ
  pub minor : ℕ
  pub nlink : ℕ
  pub size : ℕ
  pub addrs : List ℕ

-- The file system: the superblock, the disk and the inode cache.
pub record Fs : Type 0 where
  pub sb : Superblock
  pub disk : Disk
  pub icache : List Inode

-- Where an inode stands in its block: a `struct dinode` has 64 bytes.
abbrev pub dinode_at : ℕ → ℕ
dinode_at inum = inum % ipb * 64

-- Byte `k` of the `struct dinode` of an inode.
unfoldable pub dinode_byte : Inode → ℕ → ℕ
dinode_byte ip k =
    if ltb k 2
    then byte_of ip.type k
    else if ltb k 4
    then byte_of ip.major (k - 2)
    else if ltb k 6
    then byte_of ip.minor (k - 4)
    else if ltb k 8
    then byte_of ip.nlink (k - 6)
    else if ltb k 12
    then byte_of ip.size (k - 8)
    else byte_of (get_or ip.addrs ((k - 12) / 4) 0) ((k - 12) % 4)

unfoldable pub iupdate : Inode → Disk → Disk
unfolding dinode_byte
iupdate ip d =
    let n : ℕ = iblock ip.inum in
    let base : ℕ = dinode_at ip.inum in
    put_block n (λ k. if leb base k && ltb k (base + 64) then dinode_byte ip (k - base) else d n k)
      d

-- `n` words from an offset on.
unfoldable pub words_from : ℕ → Bytes → ℕ → List ℕ
words_from o blk zero = []
words_from o blk (suc n) = get32 o blk ∷ words_from (o + 4) blk n

-- The part of ilock that reads the inode from the disk.
unfoldable pub load_inode : Disk → Inode → Inode
unfolding words_from
load_inode d ip =
    let blk : Bytes = d (iblock ip.inum) in
    let base : ℕ = dinode_at ip.inum in
    record ip {
      type = get16 base blk;
      major = get16 (base + 2) blk;
      minor = get16 (base + 4) blk;
      nlink = get16 (base + 6) blk;
      size = get32 (base + 8) blk;
      addrs = words_from (base + 12) blk (ndirect + 1);
      valid = true;
    }

-- The loop of iget: the entry that has the inode, or the first one that is free, if any.
pub data Lookup : Type 0 where
  cached : ℕ → Lookup
  vacant : Option ℕ → Lookup

unfoldable pub iget_scan : ℕ → ℕ → ℕ → Option ℕ → List Inode → Lookup
iget_scan dev inum i empty [] = vacant empty
iget_scan dev inum i empty (ip ∷ ips) =
    let empty' : Option ℕ = elim empty [
      | some e ↦ some e
      | none ↦ if ip.ref == 0 then some i else none
    ] in
    let rest = iget_scan dev inum (i + 1) empty' ips in
    if ltb 0 ip.ref && ip.dev == dev && ip.inum == inum then cached i else rest

abbrev pub fresh_entry : ℕ → ℕ → Inode → Inode
fresh_entry dev inum ip = record ip { dev = dev; inum = inum; ref = 1; busy = false; valid = false }

-- iget, idup and iput name an entry by its index in the cache.
unfoldable pub iget : ℕ → ℕ → List Inode → Result (ℕ × List Inode)
unfolding iget_scan
iget dev inum ips = elim (iget_scan dev inum 0 none ips) [
  | cached i ↦ ok (i, modify ips i (λ ip. record ip { ref = ip.ref + 1 }))
  | vacant none ↦ panic "iget: no inodes"
  | vacant (some i) ↦ ok (i, modify ips i (fresh_entry dev inum))
]

unfoldable pub idup : ℕ → List Inode → List Inode
idup i ips = modify ips i (λ ip. record ip { ref = ip.ref + 1 })

-- The loop of ialloc, with `n` inodes left from `inum` on.
unfoldable pub ialloc_from : ℕ → ℕ → ℕ → ℕ → Fs → Result (ℕ × Fs)
ialloc_from zero inum dev type fs = panic "ialloc: no inodes"
ialloc_from (suc n) inum dev type fs =
    let blk : Bytes = fs.disk (iblock inum) in
    let base : ℕ = dinode_at inum in
    let blk' : Bytes = λ k.
      if leb base k && ltb k (base + 64)
      then (if ltb k (base + 2) then byte_of type (k - base) else 0)
      else blk k in
    elim (get16 base blk == 0) [
      | false ↦ ialloc_from n (inum + 1) dev type fs
      | true ↦ iget dev inum fs.icache >>= λ (i, ips).
          ok (i, record fs { disk = put_block (iblock inum) blk' fs.disk; icache = ips })
    ]

unfoldable pub ialloc : ℕ → ℕ → Fs → Result (ℕ × Fs)
unfolding ialloc_from
ialloc dev type fs = ialloc_from (fs.sb.ninodes - 1) 1 dev type fs

-- ilock: it sleeps while the inode is busy.
pub data Locking : Type 0 where
  locked : Fs → Locking
  sleeps : Locking

unfoldable pub ilock : ℕ → Fs → Result Locking
unfolding load_inode
ilock i fs = do
  ip ← deref (get_elem? fs.icache i)
  if ltb ip.ref 1
      then panic "ilock"
      else if ip.busy
      then ok sleeps
      else if ip.valid
      then ok (locked (record fs { icache = set fs.icache i (record ip { busy = true }) }))
      else (let ip' = load_inode fs.disk (record ip { busy = true }) in
          if ip'.type == 0
          then panic "ilock: no type"
          else ok (locked (record fs { icache = set fs.icache i ip' })))

-- iunlock, without its wakeup of the threads that sleep on the inode.
unfoldable pub iunlock : ℕ → Fs → Result Fs
iunlock i fs = do
  ip ← deref (get_elem? fs.icache i)
  if not ip.busy || ltb ip.ref 1
      then panic "iunlock"
      else ok (record fs { icache = set fs.icache i (record ip { busy = false }) })

-- bmap. An address of 0 means that there is no block yet.
abbrev pub bmap_direct : Superblock → Inode → ℕ → Disk → Result (ℕ × Inode × Disk)
bmap_direct sb ip bn d =
    let addr : ℕ = get_or ip.addrs bn 0 in
    if not (addr == 0)
    then ok (addr, ip, d)
    else (balloc sb d >>= λ (b, d'). ok (b, record ip { addrs = set ip.addrs bn b }, d'))

-- The word `bn` of the indirect block `addr`.
unfoldable pub bmap_indirect : Superblock → ℕ → ℕ → Disk → Result (ℕ × Disk)
bmap_indirect sb addr bn d =
    let a : ℕ = get32 (4 * bn) (d addr) in
    if not (a == 0)
    then ok (a, d)
    else (balloc sb d >>= λ (b, d'). ok (b, put_block addr (put32 (4 * bn) b (d' addr)) d'))

unfoldable pub bmap : Superblock → Inode → ℕ → Disk → Result (ℕ × Inode × Disk)
unfolding bmap_indirect
bmap sb ip bn d =
    if ltb bn ndirect
    then bmap_direct sb ip bn d
    else if ltb (bn - ndirect) nindirect
    then (bmap_direct sb ip ndirect d >>= λ (addr, ip', d').
        bmap_indirect sb addr (bn - ndirect) d' >>= λ (a, d''). ok (a, ip', d''))
    else panic "bmap: out of range"

-- itrunc: the blocks of a list, and those of an indirect block, are freed where they are not 0.
unfoldable pub free_blocks : Superblock → List ℕ → Disk → Result Disk
free_blocks sb [] d = ok d
free_blocks sb (a ∷ as') d = (if a == 0 then ok d else bfree a sb d) >>= λ d'. free_blocks sb as' d'

unfoldable pub free_indirect : Superblock → ℕ → ℕ → ℕ → Disk → Result Disk
free_indirect sb addr j zero d = ok d
free_indirect sb addr j (suc n) d =
    (let a : ℕ = get32 (4 * j) (d addr) in if a == 0 then ok d else bfree a sb d) >>= λ d'.
    free_indirect sb addr (j + 1) n d'

unfoldable pub itrunc : Superblock → Inode → Disk → Result (Inode × Disk)
unfolding free_blocks free_indirect iupdate
itrunc sb ip d = do
  d1 ← free_blocks sb (take ndirect ip.addrs) d
  let addr = get_or ip.addrs ndirect 0
  d2 ←
      (if addr == 0
        then ok d1
        else (free_indirect sb addr 0 nindirect d1 >>= λ d'. bfree addr sb d'))
  let ip' = record ip { addrs = replicate (ndirect + 1) 0; size = 0 }
  ok (ip', iupdate ip' d2)

abbrev pub gone : Inode → Inode
gone ip = record ip { type = 0; busy = false; valid = false; ref = 0 }

-- The end of iput when it has truncated the inode: the inode is free on the disk and in the cache.
abbrev pub freed : ℕ → Fs → Inode × Disk → Fs
freed i fs (ip, d) = record fs { disk = iupdate (gone ip) d; icache = set fs.icache i (gone ip) }

-- iput: the last reference to an inode without links frees the inode, then the reference goes.
-- A count of 0 is not put again: a negative count is not represented.
unfoldable pub iput : ℕ → Fs → Result Fs
unfolding itrunc
iput i fs = do
  ip ← deref (get_elem? fs.icache i)
  if ip.ref == 1 && ip.valid && ip.nlink == 0
      then (if ip.busy
          then panic "iput busy"
          else (itrunc fs.sb ip fs.disk >>= λ r. ok (freed i fs r)))
      else ok (record fs { icache = set fs.icache i (record ip { ref = ip.ref - 1 }) })

unfoldable pub iunlockput : ℕ → Fs → Result Fs
unfolding iunlock iput
iunlockput i fs = iunlock i fs >>= λ fs'. iput i fs'
