-- ===== src/Fs/Tests.antt =====
-- fs.c on a small disk: inode 1 is a directory that holds the file "ab", inode 2.
use os.Base.{
  ℕ, ◌<◌, ◌==◌, ◌≡◌, ◌≢◌, refl, true, false, ◌||◌, if◌then◌else◌, none, some, List, [], ◌∷◌, total,
  ok, arith, replicate,
}
use os.Fs.Layout.{Bytes, Disk, Superblock, bblock}
use os.Fs.Bitmap.{balloc, bfree, bzero, free_bit, balloc_from}
use os.Fs.Blocks.{in_use, marked, Allocated, balloc-Allocated, bfree-balloc}
use os.Fs.Inode.{
  iget_scan, ilock, iunlock, iunlockput, Inode, Fs, t_file, iupdate, load_inode, iget, iput,
}
use os.Fs.Cache.{refs_of, LiveAt, Unique, Got, iget-Got}
use os.Fs.Dinode.{Fits, load_inode-iupdate}
use os.Fs.Content.{Devices}
use os.Fs.Path.{namei, walk, walk_name, nowhere, skip_slashes, span_elem, skipelem, namex}
use os.Fs.Resolve.{Resolved, namex-Resolved}
use os.Fs.Calls.{finished, chdir_to, sys_chdir}
use os.Fs.Chdir.{found_busy, chdir-Undone}
use os.Fs.Names.{Ends, namex-Ends}

abbrev sb0 : Superblock
sb0 = record { size = 64; nblocks = 60; ninodes = 8; nlog = 0 }

-- The bitmap is block 4: the blocks 0 to 4 are in use.
abbrev bitmap : Bytes
bitmap k = if k == 0 then 31 else 0

abbrev disk0 : Disk
disk0 n k = if n == 4 then bitmap k else 0

balloc-Allocated_example : Allocated sb0 disk0 (balloc sb0 disk0)
balloc-Allocated_example = balloc-Allocated sb0 disk0

balloc_run : balloc sb0 disk0 ≡ ok (5, bzero 5 (marked sb0 disk0 5))
unfolding balloc balloc_from free_bit
balloc_run = refl

bitmap_apart : (c : ℕ) → c < sb0.size → 5 ≢ bblock c sb0.ninodes
bitmap_apart c l = omega arith

-- A blank inode of the cache.
abbrev entry : ℕ → ℕ → Inode
entry inum ref = record {
  dev = 1;
  inum = inum;
  ref = ref;
  busy = false;
  valid = true;
  type = t_file;
  major = 0;
  minor = 0;
  nlink = 1;
  size = 700;
  addrs = 9 ∷ 10 ∷ replicate 11 0;
}

abbrev cache0 : List Inode
cache0 = entry 1 1 ∷ entry 2 3 ∷ entry 2 0 ∷ []

cache0-Unique : Unique cache0
unfolding total
cache0-Unique d s = ground arith

iget-Got_example : Got 1 3 cache0 (iget 1 3 cache0)
iget-Got_example = iget-Got 1 3 cache0 cache0-Unique

abbrev fs0 : Fs
fs0 = record { sb = sb0; disk = disk0; icache = cache0 }

iput_run : iput 1 fs0 ≡ ok (record fs0 { icache = entry 1 1 ∷ entry 2 2 ∷ entry 2 0 ∷ [] })
unfolding iput
iput_run = refl

entry-Fits : Fits (entry 2 3)
entry-Fits = record {
  type = omega arith;
  major = omega arith;
  minor = omega arith;
  nlink = omega arith;
  size = omega arith;
  words = ground arith;
  count = refl;
}

-- A cache entry for that inode that still holds another one's fields.
abbrev recycled : Inode
recycled = record (entry 2 3) {
  ref = 5;
  valid = false;
  type = 1;
  major = 8;
  minor = 9;
  nlink = 0;
  size = 77;
  addrs = [];
}

load_inode-iupdate_example : load_inode (iupdate (entry 2 3) disk0) recycled ≡ record recycled {
  type = (entry 2 3).type;
  major = (entry 2 3).major;
  minor = (entry 2 3).minor;
  nlink = (entry 2 3).nlink;
  size = (entry 2 3).size;
  addrs = (entry 2 3).addrs;
  valid = true;
}
load_inode-iupdate_example = load_inode-iupdate (entry 2 3) disk0 entry-Fits recycled refl

-- "//ab/c"
abbrev path0 : List ℕ
path0 = b'/' ∷ b'/' ∷ b'a' ∷ b'b' ∷ b'/' ∷ b'c' ∷ []

skipelem_run : skipelem path0 ≡ some (b'a' ∷ b'b' ∷ [], b'c' ∷ [])
unfolding skipelem
skipelem_run = refl

abbrev no_devices : Devices
no_devices = record { read = λ m n. none; write = λ m bs. none }

namex-Ends_example : Ends (namex no_devices path0 true 0 fs0)
namex-Ends_example = namex-Ends no_devices path0 true 0 fs0

held0 : LiveAt 1 1 0 fs0.icache
held0 = (entry 1 1, refl, refl, omega arith)

-- Inode 1 is no directory here: the walk locks it, and gives it back.
namex_run : namex no_devices path0 true 0 fs0 ≡ ok (nowhere fs0)
unfolding namex walk iget iget_scan skipelem skip_slashes span_elem walk_name ilock iunlock
    iunlockput iput
namex_run = refl

namex-Resolved_example : Resolved cache0 (nowhere fs0)
namex-Resolved_example =
    namex-Resolved no_devices path0 true 0 1 1 fs0 (nowhere fs0) held0 cache0-Unique namex_run

-- chdir("/") where inode 1 is no directory: the walk arrives at it, and the call fails.
chdir_run : sys_chdir no_devices 0 (b'/' ∷ []) fs0 ≡ ok (finished none fs0)
unfolding sys_chdir chdir_to namei namex walk iget iget_scan skipelem skip_slashes span_elem
    walk_name ilock iunlock iunlockput iput
chdir_run = refl

chdir-Undone_example :
    (found_busy (namei no_devices (b'/' ∷ []) 0 fs0) cache0 ≡ false)
    × ((d s : ℕ) → total (refs_of d s) cache0 ≡ total (refs_of d s) cache0)
chdir-Undone_example =
    chdir-Undone no_devices 0 1 1 (b'/' ∷ []) fs0 fs0 held0 cache0-Unique chdir_run

abbrev disk5 : Disk
disk5 = bzero 5 (marked sb0 disk0 5)

bfree-balloc_example :
    (in_use sb0 disk0 5 ≡ false)
    × ((c : ℕ) → c < sb0.size → in_use sb0 disk5 c ≡ (c == 5 || in_use sb0 disk0 c))
    × ((d'' : Disk) × (bfree 5 sb0 disk5 ≡ ok d'')
        × ((c : ℕ) → c < sb0.size → in_use sb0 d'' c ≡ in_use sb0 disk0 c))
bfree-balloc_example = bfree-balloc sb0 disk0 disk5 5 balloc_run bitmap_apart
