-- ===== src/Fs/Path.antt =====
-- fs.c: directories and path names. A path is its characters up to the NUL.
use os.Base.{
  ℕ, zero, suc, ◌+◌, ◌*◌, ◌/◌, ◌%◌, ◌==◌, ltb, not, Bool, true, false, ◌&&◌, ◌||◌, if◌then◌else◌,
  Option, none, some, List, [], ◌∷◌, ◌++◌, length, get_elem?, get_or, set, take, drop, replicate,
  Result, ok, panic, deref, ◌>>=◌,
}
use os.Fs.Layout.{dirsiz}
use os.Fs.Inode.{Fs, t_dir, iget, idup, locked, sleeps, ilock, iunlock, iput, iunlockput}
use os.Fs.Content.{Devices, readi, writei}

abbrev pub rootdev : ℕ
rootdev = 1

abbrev pub rootino : ℕ
rootino = 1

abbrev pub slash : ℕ
slash = b'/'

-- while(*path == '/') path++;
unfoldable pub skip_slashes : List ℕ → List ℕ
skip_slashes [] = []
skip_slashes (c ∷ cs) = let rest = skip_slashes cs in if c == slash then rest else c ∷ cs

-- while(*path != '/' && *path != 0) path++; the characters passed, and the rest.
unfoldable pub span_elem : List ℕ → List ℕ × List ℕ
span_elem [] = ([], [])
span_elem (c ∷ cs) =
    let (xs, rest) = span_elem cs in if c == slash then ([], c ∷ cs) else (c ∷ xs, rest)

-- skipelem. A name is the characters that it has room for, up to a NUL or to DIRSIZ.
abbrev pub elem_of : List ℕ × List ℕ → List ℕ × List ℕ
elem_of (xs, rest) = (take dirsiz xs, skip_slashes rest)

unfoldable pub skipelem : List ℕ → Option (List ℕ × List ℕ)
unfolding skip_slashes span_elem
skipelem path = elim (skip_slashes path) [
  | [] ↦ none
  | c ∷ cs ↦ some (elem_of (span_elem (c ∷ cs)))
]

-- `struct dirent`
pub record Dirent : Type 0 where
  pub inum : ℕ
  pub name : List ℕ

unfoldable pub dirent_of : List ℕ → Dirent
dirent_of bs = record { inum = get_or bs 0 0 + 256 * get_or bs 1 0; name = drop 2 bs }

unfoldable pub bytes_of : Dirent → List ℕ
bytes_of de = de.inum % 256 ∷ (de.inum / 256 % 256 ∷ de.name)

-- namecmp(s, t) == 0, on names of at most DIRSIZ characters.
unfoldable pub same_name : List ℕ → List ℕ → Bool
same_name [] [] = true
same_name [] (d ∷ ds) = d == 0
same_name (c ∷ cs) [] = c == 0
same_name (c ∷ cs) (d ∷ ds) = let rest = same_name cs ds in c == d && (c == 0 || rest)

-- How a walk along a path ends: at an entry of the cache, with the last name if the parent was
-- asked for; at nothing; or it sleeps on an inode that is locked. `stopped` is the end of the fuel.
pub data Walk : Type 0 where
  arrived : ℕ → List ℕ → Fs → Walk
  nowhere : Fs → Walk
  waits : Walk
  stopped : Walk

module _ (dv : Devices) where
  -- readi of one entry of a directory; the inode changes in its place of the cache.
  unfoldable pub read_dirent : ℕ → ℕ → Fs → Result (Dirent × Fs)
  unfolding dirent_of
  read_dirent i off fs = do
    dp ← deref (get_elem? fs.icache i)
    (r, dp', d) ← readi dv fs.sb off 16 dp fs.disk
    elim r [
      | none ↦ panic "dirlink read"
      | some bs ↦
          if length bs == 16
          then ok (dirent_of bs, record fs { disk = d; icache = set fs.icache i dp' })
          else panic "dirlink read"
    ]

  -- The loop of dirlookup: the inode and the offset of the entry. `n` entries are left.
  unfoldable pub dir_scan : ℕ → ℕ → ℕ → ℕ → List ℕ → Fs → Result (Option (ℕ × ℕ) × Fs)
  unfolding same_name
  dir_scan zero i off size name fs = ok (none, fs)
  dir_scan (suc n) i off size name fs = elim (ltb off size) [
    | false ↦ ok (none, fs)
    | true ↦ read_dirent i off fs >>= λ (de, fs').
        elim (not (de.inum == 0) && same_name name de.name) [
          | true ↦ ok (some (de.inum, off), fs')
          | false ↦ dir_scan n i (off + 16) size name fs'
        ]
  ]

  -- dirlookup: the entry of the cache that iget returns, and the offset.
  unfoldable pub dirlookup : ℕ → List ℕ → Fs → Result (Option (ℕ × ℕ) × Fs)
  unfolding dir_scan
  dirlookup i name fs = do
    dp ← deref (get_elem? fs.icache i)
    if not (dp.type == t_dir)
        then panic "dirlookup not DIR"
        else (dir_scan (dp.size / 16 + 1) i 0 dp.size name fs >>= λ (r, fs'). elim r [
          | none ↦ ok (none, fs')
          | some (inum, off) ↦ iget dp.dev inum fs'.icache >>= λ (j, ips).
              ok (some (j, off), record fs' { icache = ips })
        ])

  -- The offset of the first entry that is free, or the end of the directory.
  unfoldable pub free_dirent : ℕ → ℕ → ℕ → ℕ → Fs → Result (ℕ × Fs)
  free_dirent zero i off size fs = ok (off, fs)
  free_dirent (suc n) i off size fs = elim (ltb off size) [
    | false ↦ ok (off, fs)
    | true ↦ read_dirent i off fs >>= λ (de, fs'). elim (de.inum == 0) [
      | true ↦ ok (off, fs')
      | false ↦ free_dirent n i (off + 16) size fs'
    ]
  ]

  -- strncpy(de.name, name, DIRSIZ) of a name that has no NUL.
  abbrev pub padded : List ℕ → List ℕ
  padded name = take dirsiz (name ++ replicate dirsiz 0)

  -- writei of one entry.
  unfoldable pub write_dirent : ℕ → ℕ → Dirent → Fs → Result Fs
  unfolding bytes_of
  write_dirent i off de fs = do
    dp ← deref (get_elem? fs.icache i)
    (r, dp', d) ← writei dv fs.sb off (bytes_of de) dp fs.disk
    elim r [
      | none ↦ panic "dirlink"
      | some n ↦
          if n == 16
          then ok (record fs { disk = d; icache = set fs.icache i dp' })
          else panic "dirlink"
    ]

  -- dirlink: whether the entry was added; it is not when the name is there already.
  unfoldable pub dirlink : ℕ → List ℕ → ℕ → Fs → Result (Bool × Fs)
  unfolding dirlookup free_dirent write_dirent
  dirlink i name inum fs = do
    (found, fs1) ← dirlookup i name fs
    elim found [
      | some (j, off) ↦ iput j fs1 >>= λ fs2. ok (false, fs2)
      | none ↦ deref (get_elem? fs1.icache i) >>= λ dp.
          free_dirent (dp.size / 16 + 1) i 0 dp.size fs1 >>= λ (off, fs2).
          write_dirent i off (record { inum = inum; name = padded name }) fs2 >>= λ fs3.
          ok (true, fs3)
    ]

  -- A round of the loop of namex, which goes on from the entry `j` of the cache by `again j`.
  unfoldable pub walk_name : (ℕ → Fs → Result Walk) → Bool → ℕ → List ℕ → List ℕ → Fs → Result Walk
  walk_name again parent i name rest fs = ilock i fs >>= λ l. elim l [
    | sleeps ↦ ok waits
    | locked fs1 ↦ deref (get_elem? fs1.icache i) >>= λ ip. elim (not (ip.type == t_dir)) [
      | true ↦ iunlockput i fs1 >>= λ fs2. ok (nowhere fs2)
      | false ↦ elim (parent && length rest == 0) [
        | true ↦ iunlock i fs1 >>= λ fs2. ok (arrived i name fs2)
        | false ↦ dirlookup i name fs1 >>= λ (next, fs2). elim next [
          | none ↦ iunlockput i fs2 >>= λ fs3. ok (nowhere fs3)
          | some (j, off) ↦ iunlockput i fs2 >>= λ fs3. again j fs3
        ]
      ]
    ]
  ]

  -- The loop of namex from the inode `i` on.
  unfoldable pub walk : ℕ → Bool → ℕ → List ℕ → List ℕ → Fs → Result Walk
  walk zero parent i path name fs = ok stopped
  walk (suc f) parent i path name fs = elim (skipelem path) [
    | none ↦ if parent then (iput i fs >>= λ fs'. ok (nowhere fs')) else ok (arrived i name fs)
    | some (name', rest) ↦
        walk_name (λ j fs'. walk f parent j rest name' fs') parent i name' rest fs
  ]

  -- namex from the root, or from the current directory `cwd`.
  unfoldable pub namex : List ℕ → Bool → ℕ → Fs → Result Walk
  namex [] parent cwd fs = walk 1 parent cwd [] [] (record fs { icache = idup cwd fs.icache })
  namex (c ∷ cs) parent cwd fs =
      if c == slash
      then (iget rootdev rootino fs.icache >>= λ (i, ips).
          walk (length (c ∷ cs) + 1) parent i (c ∷ cs) [] (record fs { icache = ips }))
      else walk (length (c ∷ cs) + 1) parent cwd (c ∷ cs) []
          (record fs { icache = idup cwd fs.icache })

  unfoldable pub namei : List ℕ → ℕ → Fs → Result Walk
  namei path cwd fs = namex path false cwd fs

  unfoldable pub nameiparent : List ℕ → ℕ → Fs → Result Walk
  nameiparent path cwd fs = namex path true cwd fs
