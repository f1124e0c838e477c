-- ===== src/Fs/Calls.antt =====
-- sysfile.c: the calls on paths, behind the fetching of their arguments and within the transaction that
-- begin_op and end_op make. The texts of panics of read_dirent and write_dirent are those of dirlink.
use os.Base.{
  ℕ, zero, suc, ◌+◌, ◌-◌, ◌/◌, ◌%◌, ◌^◌, ◌==◌, ltb, leb, Bool, true, false, ◌&&◌, ◌||◌,
  if◌then◌else◌, Option, none, some, List, [], ◌∷◌, get_elem?, set, replicate, Result, ok, panic,
  deref, ◌>>=◌,
}
use os.Fs.Layout.{dirsiz}
use os.Fs.Inode.{
  Inode, Fs, t_dir, t_file, t_dev, iupdate, ialloc, locked, sleeps, ilock, iunlock, iput,
  iunlockput,
}
use os.Fs.Content.{Devices}
use os.Fs.Path.{
  Walk, arrived, nowhere, waits, stopped, same_name, read_dirent, write_dirent, dirlookup, dirlink,
  namei, nameiparent,
}

-- A call that came to its end, or sleeps on an inode that is locked, or has used up the fuel of
-- namex.
pub data Done (A : Type 0) : Type 0 where
  finished : A → Fs → Done A
  asleep : Done A
  spent : Done A

abbrev pub next : {A B : Type 0} → (A → Fs → Result (Done B)) → Done A → Result (Done B)
next f (finished a fs) = f a fs
next f asleep = ok asleep
next f spent = ok spent

infixl 5 ◌>>-◌
abbrev pub ◌>>-◌ : {A B : Type 0} → Result (Done A) → (A → Fs → Result (Done B)) → Result (Done B)
m >>- f = m >>= λ r. next f r

abbrev pub walked : Walk → Done (Option (ℕ × List ℕ))
walked (arrived i name fs) = finished (some (i, name)) fs
walked (nowhere fs) = finished none fs
walked waits = asleep
walked stopped = spent

-- ilock(ip), and what the inode is then.
unfoldable pub lock : ℕ → Fs → Result (Done Inode)
lock i fs = ilock i fs >>= λ l. elim l [
  | sleeps ↦ ok asleep
  | locked fs1 ↦ deref (get_elem? fs1.icache i) >>= λ ip. ok (finished ip fs1)
]

-- A change of an inode, and its iupdate.
unfoldable pub change : ℕ → (Inode → Inode) → Fs → Result Fs
change i f fs = deref (get_elem? fs.icache i) >>= λ ip.
    ok (record fs { disk = iupdate (f ip) fs.disk; icache = set fs.icache i (f ip) })

-- nlink++ and nlink-- of a `short`
abbrev pub more_links : Inode → Inode
more_links ip = record ip { nlink = (ip.nlink + 1) % 2 ^ 16 }

abbrev pub less_links : Inode → Inode
less_links ip = record ip { nlink = (ip.nlink + 2 ^ 16 - 1) % 2 ^ 16 }

-- "." and ".."
abbrev pub dot : List ℕ
dot = b'.' ∷ []

abbrev pub dots : List ℕ
dots = b'.' ∷ (b'.' ∷ [])

module _ (dv : Devices) where
  -- The end of sys_link where it fails.
  unfoldable pub link_bad : ℕ → Fs → Result (Done Bool)
  link_bad ip fs = lock ip fs >>- λ _ fs1.
      change ip less_links fs1 >>= λ fs2. iunlockput ip fs2 >>= λ fs3. ok (finished false fs3)

  -- sys_link behind its iunlock: the new entry.
  unfoldable pub link_in : ℕ → ℕ → List ℕ → Fs → Result (Done Bool)
  link_in cwd ip new fs = (nameiparent dv new cwd fs >>= λ w. ok (walked w)) >>- λ found fs1.
      elim found [
        | none ↦ link_bad ip fs1
        | some (dp, name) ↦ lock dp fs1 >>- λ d fs2. deref (get_elem? fs2.icache ip) >>= λ inode.
            (if d.dev == inode.dev then dirlink dv dp name inode.inum fs2 else ok (false, fs2))
            >>= λ (added, fs3). elim added [
              | false ↦ iunlockput dp fs3 >>= λ fs4. link_bad ip fs4
              | true ↦ iunlockput dp fs3 >>= λ fs4. iput ip fs4 >>= λ fs5. ok (finished true fs5)
            ]
      ]

  unfoldable pub sys_link : ℕ → List ℕ → List ℕ → Fs → Result (Done Bool)
  unfolding link_bad link_in
  sys_link cwd old new fs = (namei dv old cwd fs >>= λ w. ok (walked w)) >>- λ found fs1.
      elim found [
        | none ↦ ok (finished false fs1)
        | some (ip, _) ↦ lock ip fs1 >>- λ inode fs2. elim (inode.type == t_dir) [
          | true ↦ iunlockput ip fs2 >>= λ fs3. ok (finished false fs3)
          | false ↦
              change ip more_links fs2 >>= λ fs3. iunlock ip fs3 >>= λ fs4. link_in cwd ip new fs4
        ]
      ]

  -- The loop of isdirempty, with fuel for the entries left.
  unfoldable pub empty_from : ℕ → ℕ → ℕ → ℕ → Fs → Result (Bool × Fs)
  empty_from zero i off size fs = ok (true, fs)
  empty_from (suc n) i off size fs = elim (ltb off size) [
    | false ↦ ok (true, fs)
    | true ↦ read_dirent dv i off fs >>= λ (de, fs1). elim (de.inum == 0) [
      | false ↦ ok (false, fs1)
      | true ↦ empty_from n i (off + 16) size fs1
    ]
  ]

  unfoldable pub isdirempty : ℕ → Fs → Result (Bool × Fs)
  unfolding empty_from
  isdirempty i fs =
      deref (get_elem? fs.icache i) >>= λ dp. empty_from (dp.size / 16) i 32 dp.size fs

  -- sys_unlink where it fails.
  unfoldable pub unlink_bad : ℕ → Fs → Result (Done Bool)
  unlink_bad dp fs = iunlockput dp fs >>= λ fs1. ok (finished false fs1)

  -- The removal of an entry of `dp`, at an offset, that names `ip`.
  unfoldable pub unlink_entry : ℕ → ℕ → ℕ → Bool → Fs → Result (Done Bool)
  unlink_entry dp ip off is_dir fs =
      write_dirent dv dp off (record { inum = 0; name = replicate dirsiz 0 }) fs >>= λ fs1.
      (if is_dir then change dp less_links fs1 else ok fs1) >>= λ fs2. iunlockput dp fs2 >>= λ fs3.
      change ip less_links fs3 >>= λ fs4. iunlockput ip fs4 >>= λ fs5. ok (finished true fs5)

  unfoldable pub sys_unlink : ℕ → List ℕ → Fs → Result (Done Bool)
  unfolding isdirempty unlink_bad unlink_entry
  sys_unlink cwd path fs = (nameiparent dv path cwd fs >>= λ w. ok (walked w)) >>- λ found fs1.
      elim found [
        | none ↦ ok (finished false fs1)
        | some (dp, name) ↦ lock dp fs1 >>- λ _ fs2.
            elim (same_name name dot || same_name name dots) [
              | true ↦ unlink_bad dp fs2
              | false ↦ dirlookup dv dp name fs2 >>= λ (entry, fs3). elim entry [
                | none ↦ unlink_bad dp fs3
                | some (ip, off) ↦ lock ip fs3 >>- λ inode fs4.
                    if inode.nlink == 0 || leb (2 ^ 15) inode.nlink
                    then panic "unlink: nlink < 1"
                    else ((if inode.type == t_dir then isdirempty ip fs4 else ok (true, fs4))
                        >>= λ (empty, fs5). elim empty [
                          | false ↦ iunlockput ip fs5 >>= λ fs6. unlink_bad dp fs6
                          | true ↦ unlink_entry dp ip off (inode.type == t_dir) fs5
                        ])
              ]
            ]
      ]

  -- create where the name is there already.
  unfoldable pub create_found : ℕ → ℕ → ℕ → Fs → Result (Done (Option ℕ))
  create_found type dp ip fs = iunlockput dp fs >>= λ fs1. lock ip fs1 >>- λ inode fs2.
      elim (type == t_file && inode.type == t_file) [
        | true ↦ ok (finished (some ip) fs2)
        | false ↦ iunlockput ip fs2 >>= λ fs3. ok (finished none fs3)
      ]

  -- The entries of a new directory.
  unfoldable pub create_dots : ℕ → ℕ → Fs → Result Fs
  create_dots dp ip fs = change dp more_links fs >>= λ fs1.
      deref (get_elem? fs1.icache ip) >>= λ inode. deref (get_elem? fs1.icache dp) >>= λ d.
      dirlink dv ip dot inode.inum fs1 >>= λ (here, fs2). elim here [
        | false ↦ panic "create dots"
        | true ↦ dirlink dv ip dots d.inum fs2 >>= λ (up, fs3). elim up [
          | false ↦ panic "create dots"
          | true ↦ ok fs3
        ]
      ]

  -- create where the name is new, with the locked directory `dp`, which is on device `dev`.
  unfoldable pub create_new : ℕ → ℕ → ℕ → ℕ → ℕ → List ℕ → Fs → Result (Done (Option ℕ))
  unfolding create_dots
  create_new type major minor dev dp name fs = ialloc dev type fs >>= λ (ip, fs1).
      lock ip fs1 >>- λ inode fs2.
      change ip (λ x. record x { major = major; minor = minor; nlink = 1 }) fs2 >>= λ fs3.
      (if type == t_dir then create_dots dp ip fs3 else ok fs3) >>= λ fs4.
      dirlink dv dp name inode.inum fs4 >>= λ (added, fs5). elim added [
        | false ↦ panic "create: dirlink"
        | true ↦ iunlockput dp fs5 >>= λ fs6. ok (finished (some ip) fs6)
      ]

  unfoldable pub create : ℕ → ℕ → ℕ → ℕ → List ℕ → Fs → Result (Done (Option ℕ))
  unfolding create_found create_new
  create type major minor cwd path fs =
      (nameiparent dv path cwd fs >>= λ w. ok (walked w)) >>- λ found fs1. elim found [
        | none ↦ ok (finished none fs1)
        | some (dp, name) ↦ lock dp fs1 >>- λ d fs2. dirlookup dv dp name fs2 >>= λ (entry, fs3).
            elim entry [
              | some (ip, _) ↦ create_found type dp ip fs3
              | none ↦ create_new type major minor d.dev dp name fs3
            ]
      ]

  -- The end of sys_mkdir and sys_mknod.
  abbrev pub made : Option ℕ → Fs → Result (Done Bool)
  made none fs = ok (finished false fs)
  made (some ip) fs = iunlockput ip fs >>= λ fs1. ok (finished true fs1)

  unfoldable pub sys_mkdir : ℕ → List ℕ → Fs → Result (Done Bool)
  sys_mkdir cwd path fs = create t_dir 0 0 cwd path fs >>- λ ip fs1. made ip fs1

  unfoldable pub sys_mknod : ℕ → List ℕ → ℕ → ℕ → Fs → Result (Done Bool)
  sys_mknod cwd path major minor fs =
      create t_dev (major % 2 ^ 16) (minor % 2 ^ 16) cwd path fs >>- λ ip fs1. made ip fs1

  -- sys_chdir behind its ilock: the new directory, whose reference takes the place of that to the
  -- old one.
  unfoldable pub chdir_locked : ℕ → ℕ → Inode → Fs → Result (Done (Option ℕ))
  chdir_locked cwd i ip fs = elim (ip.type == t_dir) [
    | false ↦ iunlockput i fs >>= λ fs1. ok (finished none fs1)
    | true ↦ iunlock i fs >>= λ fs1. iput cwd fs1 >>= λ fs2. ok (finished (some i) fs2)
  ]

  unfoldable pub chdir_to : ℕ → Option (ℕ × List ℕ) → Fs → Result (Done (Option ℕ))
  unfolding lock chdir_locked
  chdir_to cwd none fs = ok (finished none fs)
  chdir_to cwd (some (i, _)) fs = lock i fs >>- λ ip fs1. chdir_locked cwd i ip fs1

  unfoldable pub sys_chdir : ℕ → List ℕ → Fs → Result (Done (Option ℕ))
  unfolding chdir_to
  sys_chdir cwd path fs =
      (namei dv path cwd fs >>= λ w. ok (walked w)) >>- λ found fs1. chdir_to cwd found fs1
