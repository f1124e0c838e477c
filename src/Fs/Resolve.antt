-- ===== src/Fs/Resolve.antt =====
-- fs.c: namex keeps the count of references to inodes.
use os.Base.{
  total-modify, ℕ, ◌+◌, ◌==◌, ◌≡◌, subst, Bool, List, [], ◌∷◌, length, total, ok, ◌>>=◌, arith,
  Post, Post-if, Post-bind,
}
use os.Fs.Inode.{Inode, Fs, iget, idup}
use os.Fs.Content.{Devices}
use os.Fs.Cache.{
  more_refs, get_elem?-modify_self, refs_of, live_of, Unique, LiveAt, OneMore, Got, iget-Got,
  idup_lem,
}
use os.Fs.Refs.{same_inode}
use os.Fs.Path.{rootdev, rootino, slash, Walk, arrived, nowhere, waits, stopped, walk, namex}
use os.Fs.Lookups.{Got-ok}
use os.Fs.Walks.{Balanced, walk-Balanced}

-- What namex gives: nothing, and every inode has as many references as before; or a live entry of the
-- cache, in which no inode has two live entries, with one reference more to its inode and to no other.
abbrev pub Resolved : List Inode → Walk → Type 0
Resolved ips (nowhere fs) = (d s : ℕ) → total (refs_of d s) fs.icache ≡ total (refs_of d s) ips
Resolved ips (arrived j name fs) =
    (d' : ℕ) × (s' : ℕ) × LiveAt d' s' j fs.icache × Unique fs.icache × OneMore d' s' ips fs.icache
Resolved ips waits = Unit
Resolved ips stopped = Unit

Resolved-start :
    (dev inum : ℕ) (ips ips1 : List Inode) (w : Walk)
    → OneMore dev inum ips ips1
    → Balanced dev inum ips1 w
    → Resolved ips w
Resolved-start dev inum ips ips1 (nowhere fs) m b = λ d s. omega (arith, m d s, b d s)
Resolved-start dev inum ips ips1 (arrived j name fs) m (d', s', live, u, b) =
    (d', s', live, u, λ d s. omega (arith, m d s, b d s))
Resolved-start dev inum ips ips1 waits m b = tt
Resolved-start dev inum ips ips1 stopped m b = tt

-- idup of a live entry: one reference more, and the entry stays live.
idup-LiveAt :
    (i dev inum : ℕ) (ips : List Inode)
    → LiveAt dev inum i ips
    → OneMore dev inum ips (idup i ips) × LiveAt dev inum i (idup i ips)
unfolding idup
idup-LiveAt i dev inum ips (ip, at, inode, live) =
    let (same_dev, same_inum) = same_inode dev inum ip inode in
    (
      subst (λ d. OneMore d inum ips (idup i ips)) same_dev
          (subst (λ s. OneMore ip.dev s ips (idup i ips)) same_inum (idup_lem i ips at)),
      (more_refs ip, get_elem?-modify_self ips i more_refs at, inode, omega arith),
    )

idup-Unique :
    (i dev inum : ℕ) (ips : List Inode) → LiveAt dev inum i ips → Unique ips → Unique (idup i ips)
unfolding idup
idup-Unique i dev inum ips (ip, at, inode, live) u d s =
    ground (arith, live, u d s, total-modify (live_of d s) more_refs ips i at)

module _ (dv : Devices) (parent : Bool) (cwd dev inum : ℕ) (fs : Fs)
    (live : LiveAt dev inum cwd fs.icache) (u : Unique fs.icache) where
  from_here :
      (f : ℕ) (path : List ℕ)
      → Post
          (Resolved fs.icache)
          (walk dv f parent cwd path [] (record fs { icache = idup cwd fs.icache }))
  from_here f path =
      let (more, live1) = idup-LiveAt cwd dev inum fs.icache live in
      let fs1 : Fs = record fs { icache = idup cwd fs.icache } in
      record {
        of = λ w e. Resolved-start dev inum fs.icache fs1.icache w more (
            (walk-Balanced dv f parent cwd dev inum path [] fs1 live1
                (idup-Unique cwd dev inum fs.icache live u)).of
              w e);
      }

  from_root :
      (f : ℕ) (path : List ℕ)
      → Post (Resolved fs.icache) (
          iget rootdev rootino fs.icache >>= λ (i, ips).
          walk dv f parent i path [] (record fs { icache = ips }))
  from_root f path = Post-bind (iget rootdev rootino fs.icache) (λ r e.
      let (there, more, unique) =
        Got-ok rootdev rootino fs.icache r
          (subst (Got rootdev rootino fs.icache) e (iget-Got rootdev rootino fs.icache u)) in
      record {
        of = λ w e'. Resolved-start rootdev rootino fs.icache r.1 w more (
            (walk-Balanced dv f parent r.0 rootdev rootino path [] (record fs { icache = r.1 })
                there unique).of
              w e');
      })

  namex_resolves : (path : List ℕ) → Post (Resolved fs.icache) (namex dv path parent cwd fs)
  unfolding namex
  namex_resolves [] = from_here 1 []
  namex_resolves (c ∷ cs) =
      Post-if (c == slash) (λ _. from_root (length (c ∷ cs) + 1) (c ∷ cs))
        (λ _. from_here (length (c ∷ cs) + 1) (c ∷ cs))

-- namex neither loses nor makes up references to inodes. The current directory is a live entry of
-- the inode cache, in which no inode has two live entries. Where namex returns nothing, every inode
-- has as many references as before, whatever inodes the walk has passed, locked and put. Where it
-- returns an inode, this is a live entry, its inode has one reference more, every other inode as many as before,
-- and still no inode has two live entries.
pub namex-Resolved :
    (dv : Devices) (path : List ℕ) (parent : Bool) (cwd dev inum : ℕ) (fs : Fs) (w : Walk)
    → LiveAt dev inum cwd fs.icache
    → Unique fs.icache
    → namex dv path parent cwd fs ≡ ok w
    → Resolved fs.icache w
namex-Resolved dv path parent cwd dev inum fs w live u e =
    (namex_resolves dv parent cwd dev inum fs live u path).of w e
