-- ===== src/Fs/Dinode.antt =====
-- fs.c: an inode written by iupdate is the one that ilock reads.
use os.Base.{
  ℕ, zero, suc, ◌+◌, ◌-◌, ◌*◌, ◌/◌, ◌%◌, ◌<◌, ◌≡◌, ◌≢◌, refl, ap, ap₂, sym, ◌∙◌, true, List, [],
  ◌∷◌, length, get_or, All, arith,
}
use os.Fs.Layout.{Bytes, Disk, ndirect, iblock, get16, get32, byte_of}
use os.Fs.Inode.{Inode, dinode_at, dinode_byte, iupdate, words_from, load_inode}

-- The fields have the widths that they have on the disk.
pub record Fits (ip : Inode) : Type 0 where
  pub type : ip.type < 65536
  pub major : ip.major < 65536
  pub minor : ip.minor < 65536
  pub nlink : ip.nlink < 65536
  pub size : ip.size < 4294967296
  pub words : All (λ a. a < 4294967296) ip.addrs
  pub count : length ip.addrs ≡ ndirect + 1

words_from_lem :
    (blk : Bytes) (o : ℕ) (as' : List ℕ)
    → ((j : ℕ) → j < length as' → get32 (o + 4 * j) blk ≡ get_or as' j 0)
    → words_from o blk (length as') ≡ as'
unfolding words_from
words_from_lem blk o [] h = refl
words_from_lem blk o (a ∷ as') h =
    ap₂ (λ x xs. x ∷ xs) (ap (λ k. get32 k blk) (omega arith) ∙ h 0 (omega arith))
      (words_from_lem blk (o + 4) as'
        (λ j lt. ap (λ k. get32 k blk) (omega arith) ∙ h (suc j) (omega arith)))

words_from_same :
    (o : ℕ) (blk blk' : Bytes) (n : ℕ)
    → ((k : ℕ) → k < 4 * n → blk (o + k) ≡ blk' (o + k))
    → words_from o blk n ≡ words_from o blk' n
unfolding words_from
words_from_same o blk blk' zero h = refl
words_from_same o blk blk' (suc n) h =
    let first : blk o ≡ blk' o = ap blk (omega arith) ∙ h 0 (omega arith) ∙ ap blk' (omega arith) in
    ap₂ (λ x xs. x ∷ xs)
      (omega (arith, first, h 1 (omega arith), h 2 (omega arith), h 3 (omega arith)))
      (words_from_same (o + 4) blk blk' n
        (λ k l. ap blk (omega arith) ∙ h (4 + k) (omega arith) ∙ ap blk' (omega arith)))

get_or-lt : (as' : List ℕ) (j : ℕ) → All (λ a. a < 4294967296) as' → get_or as' j 0 < 4294967296
get_or-lt [] j h = omega arith
get_or-lt (a ∷ as') zero (h, hs) = h
get_or-lt (a ∷ as') (suc j) (h, hs) = get_or-lt as' j hs

base_add : (b i j : ℕ) → b + i + j ≡ b + (i + j)
base_add b i j = omega arith

module _ (ip : Inode) (d : Disk) (f : Fits ip) where
  abbrev base : ℕ
  base = dinode_at ip.inum

  abbrev now : Bytes
  now = iupdate ip d (iblock ip.inum)

  byte_at : (k : ℕ) → k < 64 → now (base + k) ≡ dinode_byte ip k
  unfolding iupdate
  byte_at k h =
      let place : base + k - base ≡ k = omega arith in ground (arith, ap (dinode_byte ip) place)

  -- Byte `t` of the address `j`.
  addr_byte :
      (j t : ℕ) → j < 13 → t < 4 → now (base + (12 + 4 * j + t)) ≡ byte_of (get_or ip.addrs j 0) t
  unfolding dinode_byte
  addr_byte j t h l =
      let index : (12 + 4 * j + t - 12) / 4 ≡ j = omega arith in
      let place : (12 + 4 * j + t - 12) % 4 ≡ t = omega arith in
      byte_at (12 + 4 * j + t) (omega arith)
      ∙ ground (arith, ap₂ (λ a b. byte_of (get_or ip.addrs a 0) b) index place)

  addr_at : (j : ℕ) → j < 13 → get32 (base + 12 + 4 * j) now ≡ get_or ip.addrs j 0
  addr_at j h =
      let move : (t : ℕ) → t < 4 → now (base + 12 + 4 * j + t) ≡ byte_of (get_or ip.addrs j 0) t =
        λ t l. ap now (omega arith) ∙ addr_byte j t h l in
      let first : now (base + 12 + 4 * j) ≡ byte_of (get_or ip.addrs j 0) 0 =
        ap now (omega arith) ∙ addr_byte j 0 h (omega arith) in
      omega (
        arith,
        first,
        move 1 (omega arith),
        move 2 (omega arith),
        move 3 (omega arith),
        get_or-lt ip.addrs j f.words,
      )

  zero_at : now base ≡ dinode_byte ip 0
  zero_at = ap now (omega arith) ∙ byte_at 0 (omega arith)

  type_at : get16 base now ≡ ip.type
  unfolding dinode_byte
  type_at = omega (arith, zero_at, byte_at 1 (omega arith), f.type)

  -- The three other short fields.
  major_at : get16 (base + 2) now ≡ ip.major
  unfolding dinode_byte
  major_at =
      omega (
        arith,
        byte_at 2 (omega arith),
        ap now (base_add base 2 1),
        byte_at 3 (omega arith),
        f.major,
      )

  minor_at : get16 (base + 4) now ≡ ip.minor
  unfolding dinode_byte
  minor_at =
      omega (
        arith,
        byte_at 4 (omega arith),
        ap now (base_add base 4 1),
        byte_at 5 (omega arith),
        f.minor,
      )

  nlink_at : get16 (base + 6) now ≡ ip.nlink
  unfolding dinode_byte
  nlink_at =
      omega (
        arith,
        byte_at 6 (omega arith),
        ap now (base_add base 6 1),
        byte_at 7 (omega arith),
        f.nlink,
      )

  size_at : get32 (base + 8) now ≡ ip.size
  unfolding dinode_byte
  size_at = omega (
    arith,
    byte_at 8 (omega arith),
    ap now (base_add base 8 1),
    byte_at 9 (omega arith),
    ap now (base_add base 8 2),
    byte_at 10 (omega arith),
    ap now (base_add base 8 3),
    byte_at 11 (omega arith),
    f.size,
  )

  addrs_at : words_from (base + 12) now (ndirect + 1) ≡ ip.addrs
  addrs_at =
      ap (words_from (base + 12) now) (sym f.count)
      ∙ words_from_lem now (base + 12) ip.addrs (λ j h. addr_at j (omega (arith, h, f.count)))

  -- An inode whose fields fit is read back from the disk as iupdate wrote it: a cache entry with its
  -- number gets its type, device numbers, link count, size and addresses, whatever the entry held,
  -- becomes valid, and otherwise stays as it was.
  pub load_inode-iupdate :
      (entry : Inode)
      → entry.inum ≡ ip.inum
      → load_inode (iupdate ip d) entry ≡ record entry {
        type = ip.type;
        major = ip.major;
        minor = ip.minor;
        nlink = ip.nlink;
        size = ip.size;
        addrs = ip.addrs;
        valid = true;
      }
  unfolding load_inode
  load_inode-iupdate entry same =
      rw (same, type_at, major_at, minor_at, nlink_at, size_at, addrs_at) refl

  -- Elsewhere the disk is as it was.
  far :
      (inum : ℕ) (k : ℕ)
      → inum ≢ ip.inum
      → k < 64
      → iupdate ip d (iblock inum) (dinode_at inum + k) ≡ d (iblock inum) (dinode_at inum + k)
  unfolding iupdate
  far inum k h l = ground arith

  -- Once an inode whose fields fit is written, another inode is read as before, also where it
  -- stands in the same block.
  load_inode-iupdate_other :
      (other : Inode) → other.inum ≢ ip.inum → load_inode (iupdate ip d) other ≡ load_inode d other
  unfolding load_inode
  load_inode-iupdate_other other h =
      let at : ℕ = dinode_at other.inum in
      let new : Bytes = iupdate ip d (iblock other.inum) in
      let old : Bytes = d (iblock other.inum) in
      let same : (k : ℕ) → k < 64 → new (at + k) ≡ old (at + k) = λ k l. far other.inum k h l in
      let at_0 : new at ≡ old at =
        ap new (omega arith) ∙ same 0 (omega arith) ∙ ap old (omega arith) in
      let at_k : (i j : ℕ) → i + j < 64 → new (at + i + j) ≡ old (at + i + j) =
        λ i j l. ap new (base_add at i j) ∙ same (i + j) l ∙ ap old (sym (base_add at i j)) in
      let words : words_from (at + 12) new 13 ≡ words_from (at + 12) old 13 =
        words_from_same (at + 12) new old 13 (λ k l. at_k 12 k (omega arith)) in
      let type : get16 at new ≡ get16 at old = omega (arith, at_0, same 1 (omega arith)) in
      let major : get16 (at + 2) new ≡ get16 (at + 2) old =
        omega (arith, same 2 (omega arith), at_k 2 1 (omega arith)) in
      let minor : get16 (at + 4) new ≡ get16 (at + 4) old =
        omega (arith, same 4 (omega arith), at_k 4 1 (omega arith)) in
      let nlink : get16 (at + 6) new ≡ get16 (at + 6) old =
        omega (arith, same 6 (omega arith), at_k 6 1 (omega arith)) in
      let size : get32 (at + 8) new ≡ get32 (at + 8) old = omega (
        arith,
        same 8 (omega arith),
        at_k 8 1 (omega arith),
        at_k 8 2 (omega arith),
        at_k 8 3 (omega arith),
      ) in
      rw (type, major, minor, nlink, size, words) refl
