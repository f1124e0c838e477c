-- ===== src/Fs/Chdir.antt =====
-- sysfile.c: a chdir that fails.
use os.Base.{
  not, ◌||◌, ltb, Bool, ◌-◌, ◌&&◌, refl, sym, Post-if, Post-panic, get_elem?-set_self,
  get_elem?-some_lt, ℕ, ◌==◌, ◌≡◌, ap, subst, false, Option, none, some, List, get_elem?, total,
  Result, ok, panic, fault, >>=-Returned, ◌>>=◌, arith, Post, Post-ok, Post-Bool, Post-bind,
  Post-deref,
}
use os.Fs.Inode.{Inode, Fs, t_dir, ilock, iunlock, iput, iunlockput, itrunc, gone}
use os.Fs.Content.{Devices}
use os.Fs.Cache.{refs_of, Unique, LiveAt, OneMore}
use os.Fs.Keys.{Post-Locking, Kept, KeptLocking, ilock-Kept, refs-Kept, LiveAt-Kept, Unique-Kept}
use os.Fs.Refs.{iunlockput-Put}
use os.Fs.Path.{Walk, arrived, nowhere, waits, stopped, namei}
use os.Fs.Resolve.{Resolved, namex-Resolved}
use os.Fs.Calls.{
  Done, finished, asleep, spent, next, walked, lock, chdir_locked, chdir_to, sys_chdir,
}

-- Whether the entry is held by ilock.
abbrev pub busy_at : List Inode → ℕ → Bool
busy_at ips i = elim (get_elem? ips i) [ none ↦ false | some ip ↦ ip.busy ]

-- Whether the entry that a walk arrived at is held by ilock.
abbrev pub found_busy : Result Walk → List Inode → Bool
found_busy (ok (arrived i name fs)) ips = busy_at ips i
found_busy (ok (nowhere fs)) ips = false
found_busy (ok waits) ips = false
found_busy (ok stopped) ips = false
found_busy (panic m) ips = false
found_busy fault ips = false

iput-free :
    (i : ℕ) (fs : Fs) {ip : Inode}
    → get_elem? fs.icache i ≡ some ip
    → ip.busy ≡ false
    → Post (λ fs'. busy_at fs'.icache i ≡ false) (iput i fs)
unfolding iput
iput-free i fs {ip} at free =
    let lt = get_elem?-some_lt fs.icache i at in
    rw at (
      Post-if (ip.ref == 1 && ip.valid && ip.nlink == 0)
        (λ _.
          Post-if ip.busy (λ _. Post-panic)
            (λ _.
              Post-bind (itrunc fs.sb ip fs.disk)
                (λ r e. Post-ok (rw (get_elem?-set_self fs.icache i (gone r.0) lt, busy_at) refl))))
        (λ _.
          Post-ok (
            rw (get_elem?-set_self fs.icache i (record ip { ref = ip.ref - 1 }) lt, busy_at) free)))

iunlock-free :
    (i : ℕ) (fs : Fs)
    → Post
        (λ fs'. (ip : Inode) × (get_elem? fs'.icache i ≡ some ip) × (ip.busy ≡ false))
        (iunlock i fs)
unfolding iunlock
iunlock-free i fs = Post-deref (get_elem? fs.icache i) (λ ip at.
    Post-if (not ip.busy || ltb ip.ref 1) (λ _. Post-panic)
      (λ _. Post-ok (
        record ip { busy = false },
        get_elem?-set_self fs.icache i (record ip { busy = false })
            (get_elem?-some_lt fs.icache i at),
        refl,
      )))

-- iunlockput leaves the entry unlocked.
iunlockput-free : (i : ℕ) (fs : Fs) → Post (λ fs'. busy_at fs'.icache i ≡ false) (iunlockput i fs)
unfolding iunlockput
iunlockput-free i fs = Post-bind (iunlock i fs) (λ fs1 e.
    let (ip, at, free) = (iunlock-free i fs).of fs1 e in iput-free i fs1 {ip = ip} at free)

-- A call that fails leaves what it found unlocked, and as many references to each inode as before.
abbrev pub Undone : (List Inode → Bool) → List Inode → Done (Option ℕ) → Type 0
Undone held ips (finished none fs) =
    (held fs.icache ≡ false) × ((d s : ℕ) → total (refs_of d s) fs.icache ≡ total (refs_of d s) ips)
Undone held ips (finished (some i) fs) = Unit
Undone held ips asleep = Unit
Undone held ips spent = Unit

abbrev KeptDone : List Inode → Done Inode → Type 0
KeptDone ips (finished ip fs) = Kept ips fs.icache
KeptDone ips asleep = Unit
KeptDone ips spent = Unit

lock-Kept : (i : ℕ) (fs : Fs) → Post (KeptDone fs.icache) (lock i fs)
unfolding lock
lock-Kept i fs = Post-bind (ilock i fs) (λ l e.
    Post-Locking l (λ _. Post-ok tt)
      (λ fs1 here.
        let kept : Kept fs.icache fs1.icache =
          subst (KeptLocking fs.icache) here ((ilock-Kept i fs).of l e) in
        Post-deref (get_elem? fs1.icache i) (λ ip _. Post-ok kept)))

abbrev done_or : Result (Done (Option (ℕ × List ℕ))) → Done (Option (ℕ × List ℕ))
done_or (ok o) = o
done_or (panic m) = spent
done_or fault = spent

module _ (dv : Devices) (cwd : ℕ) where
  -- The directory that was found is unlocked and put when it is none.
  locked-Undone :
      (i d' s' : ℕ) (ips : List Inode) (fs : Fs) (o : Done Inode)
      → LiveAt d' s' i fs.icache
      → Unique fs.icache
      → OneMore d' s' ips fs.icache
      → KeptDone fs.icache o
      → Post (Undone (λ now. busy_at now i) ips) (next (λ ip fs1. chdir_locked dv cwd i ip fs1) o)
  unfolding chdir_locked
  locked-Undone i d' s' ips fs (finished ip fs1) live u more kept =
      Post-Bool (ip.type == t_dir)
        (λ _. Post-bind (iunlock i fs1) (λ fs2 _. Post-bind (iput cwd fs2) (λ fs3 _. Post-ok tt)))
        (λ _. Post-bind (iunlockput i fs1) (λ fs2 e.
          let put =
            (iunlockput-Put i d' s' fs1 (LiveAt-Kept fs.icache fs1.icache i d' s' kept live).0
                (Unique-Kept fs.icache fs1.icache kept u)).of
              fs2 e in
          Post-ok (
            (iunlockput-free i fs1).of fs2 e,
            λ d s. omega (arith, put.less d s, refs-Kept d s fs.icache fs1.icache kept, more d s),
          )))
  locked-Undone i d' s' ips fs asleep live u more kept = Post-ok tt
  locked-Undone i d' s' ips fs spent live u more kept = Post-ok tt

  to-Undone :
      (ips : List Inode) (w : Walk)
      → Resolved ips w
      → Post
          (Undone (found_busy (ok w)) ips)
          (next (λ found fs1. chdir_to dv cwd found fs1) (walked w))
  unfolding chdir_to
  to-Undone ips (nowhere fs) b = Post-ok (refl, b)
  to-Undone ips (arrived i name fs) (d', s', live, u, more) =
      Post-bind (lock i fs)
        (λ o e. locked-Undone i d' s' ips fs o live u more ((lock-Kept i fs).of o e))
  to-Undone ips waits b = Post-ok tt
  to-Undone ips stopped b = Post-ok tt

-- A chdir that fails keeps no reference, and no lock on what it found. The current directory is a
-- live entry of the inode cache, in which no inode has two live entries, and sys_chdir returns -1.
-- Then the entry that namei arrived at, if it arrived at one, is unlocked, and every inode has as
-- many references as before.
pub chdir-Undone :
    (dv : Devices) (cwd dev inum : ℕ) (path : List ℕ) (fs fs' : Fs)
    → LiveAt dev inum cwd fs.icache
    → Unique fs.icache
    → sys_chdir dv cwd path fs ≡ ok (finished none fs')
    → (found_busy (namei dv path cwd fs) fs'.icache ≡ false)
      × ((d s : ℕ) → total (refs_of d s) fs'.icache ≡ total (refs_of d s) fs.icache)
unfolding sys_chdir namei
chdir-Undone dv cwd dev inum path fs fs' live u e =
    (Post-bind (namei dv path cwd fs >>= λ w. ok (walked w))
        {f = λ o. next (λ found fs1. chdir_to dv cwd found fs1) o}
        (λ o e1.
          let (w, e2, e3) = >>=-Returned (namei dv path cwd fs) (λ w. ok (walked w)) e1 in
          let resolved = namex-Resolved dv path false cwd dev inum fs w live u e2 in
          subst
            (λ q.
              Post (Undone (found_busy q) fs.icache)
                (next (λ found fs1. chdir_to dv cwd found fs1) o))
            (sym e2)
            (subst
              (λ q.
                Post (Undone (found_busy (ok w)) fs.icache)
                  (next (λ found fs1. chdir_to dv cwd found fs1) q))
              (ap done_or e3) (to-Undone dv cwd fs.icache w resolved)))).of
      (finished none fs') e
