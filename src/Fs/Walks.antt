-- ===== src/Fs/Walks.antt =====
-- fs.c: a walk along a path keeps the count of references to inodes.
use os.Base.{
  ℕ, zero, suc, ◌+◌, ◌==◌, ◌≡◌, refl, sym, ap, subst, ◌∙◌, not, Bool, ◌&&◌, Option, none, some,
  List, length, get_elem?, total, Result, ok, ◌>>=◌, arith, Option-cases, inl, inr, Post, Post-ok,
  Post-if, Post-Bool, Post-bind, Post-deref,
}
use os.Fs.Inode.{Inode, Fs, t_dir, ilock, iunlock, iput, iunlockput}
use os.Fs.Content.{Devices}
use os.Fs.Cache.{refs_of, Unique, LiveAt, OneMore}
use os.Fs.Keys.{
  Post-Locking, Kept, KeptLocking, ilock-Kept, iunlock-Kept, refs-Kept, LiveAt-Kept, Unique-Kept,
}
use os.Fs.Refs.{Put, iput-Put, iunlockput-Put}
use os.Fs.Path.{skipelem, dirlookup, Walk, arrived, nowhere, waits, stopped, walk_name, walk}
use os.Fs.Names.{walk_at_end, walk_at_name}
use os.Fs.Lookups.{one, Found, Looked, dirlookup-Looked}

-- A walk that was given a reference to an inode ends with none, or with one reference to the inode
-- where it arrived, which is live in the cache. No other reference comes or goes.
abbrev pub Balanced : ℕ → ℕ → List Inode → Walk → Type 0
Balanced dev inum ips (nowhere fs) = OneMore dev inum fs.icache ips
Balanced dev inum ips (arrived j name fs) =
    (d' : ℕ) × (s' : ℕ) × LiveAt d' s' j fs.icache
    × Unique fs.icache
    × ((d s : ℕ)
        → total (refs_of d s) fs.icache + one dev inum d s
          ≡ total (refs_of d s) ips + one d' s' d s)
Balanced dev inum ips waits = Unit
Balanced dev inum ips stopped = Unit

Balanced-Kept :
    (dev inum : ℕ) (ips ips1 : List Inode) (w : Walk)
    → Kept ips ips1
    → Balanced dev inum ips1 w
    → Balanced dev inum ips w
Balanced-Kept dev inum ips ips1 (nowhere fs) e b = λ d s. sym (refs-Kept d s ips ips1 e) ∙ b d s
Balanced-Kept dev inum ips ips1 (arrived j name fs) e (d', s', live, u, b) =
    (d', s', live, u, λ d s. b d s ∙ ap (λ n. n + one d' s' d s) (refs-Kept d s ips ips1 e))
Balanced-Kept dev inum ips ips1 waits e b = tt
Balanced-Kept dev inum ips ips1 stopped e b = tt

-- The walk goes on from the entry that was found, and the entry that it came from is put.
Balanced-Found :
    (i dev inum j : ℕ) (ips ips2 ips3 : List Inode) (w : Walk)
    → (f : Found i dev inum ips j ips2) → Put i dev inum ips2 ips3
    → Balanced f.to_dev f.to_inum ips3 w
    → Balanced dev inum ips w
Balanced-Found i dev inum j ips ips2 ips3 (nowhere fs) f p b =
    λ d s. omega (arith, f.more d s, p.less d s, b d s)
Balanced-Found i dev inum j ips ips2 ips3 (arrived k name fs) f p (d', s', live, u, b) =
    (d', s', live, u, λ d s. omega (arith, f.more d s, p.less d s, b d s))
Balanced-Found i dev inum j ips ips2 ips3 waits f p b = tt
Balanced-Found i dev inum j ips ips2 ips3 stopped f p b = tt

module _ (dv : Devices) where
  -- The end of a round, behind dirlookup.
  Looked-Balanced :
      (again : ℕ → Fs → Result Walk) (i dev inum : ℕ) (fs : Fs) (r : Option (ℕ × ℕ) × Fs)
      → ((j d s : ℕ) (fs' : Fs)
          → LiveAt d s j fs'.icache
          → Unique fs'.icache
          → Post (Balanced d s fs'.icache) (again j fs'))
      → LiveAt dev inum i fs.icache
      → Unique fs.icache
      → Looked i dev inum fs.icache r
      → Post (Balanced dev inum fs.icache) (elim r.0 [
        | none ↦ iunlockput i r.1 >>= λ fs3. ok (nowhere fs3)
        | some (j, off) ↦ iunlockput i r.1 >>= λ fs3. again j fs3
      ])
  Looked-Balanced again i dev inum fs (none, fs2) next live u kept =
      Post-bind (iunlockput i fs2) (λ fs3 e.
        let put =
          iunlockput-Put i dev inum fs2 (LiveAt-Kept fs.icache fs2.icache i dev inum kept live).0
            (Unique-Kept fs.icache fs2.icache kept u) in
        Post-ok
          (Balanced-Kept dev inum fs.icache fs2.icache (nowhere fs3) kept (put.of fs3 e).less))
  Looked-Balanced again i dev inum fs (some (j, off), fs2) next live u f =
      Post-bind (iunlockput i fs2) (λ fs3 e.
        let p = (iunlockput-Put i dev inum fs2 f.mine f.unique).of fs3 e in
        let goes =
          next j f.to_dev f.to_inum fs3 (p.keeps j f.to_dev f.to_inum f.there f.twice) p.unique in
        record {
          of = λ w e'.
              Balanced-Found i dev inum j fs.icache fs2.icache fs3.icache w f p (goes.of w e');
        })

  -- A round of the walk, when the rest of the walk is balanced.
  walk_name-Balanced :
      (again : ℕ → Fs → Result Walk) (parent : Bool) (i dev inum : ℕ) (name rest : List ℕ) (fs : Fs)
      → ((j d s : ℕ) (fs' : Fs)
          → LiveAt d s j fs'.icache
          → Unique fs'.icache
          → Post (Balanced d s fs'.icache) (again j fs'))
      → LiveAt dev inum i fs.icache
      → Unique fs.icache
      → Post (Balanced dev inum fs.icache) (walk_name dv again parent i name rest fs)
  unfolding walk_name
  walk_name-Balanced again parent i dev inum name rest fs next live u =
      Post-bind (ilock i fs) (λ l e.
        Post-Locking l (λ _. Post-ok tt)
          (λ fs1 here.
            let kept : Kept fs.icache fs1.icache =
              subst (KeptLocking fs.icache) here ((ilock-Kept i fs).of l e) in
            let live1 = (LiveAt-Kept fs.icache fs1.icache i dev inum kept live).0 in
            let u1 = Unique-Kept fs.icache fs1.icache kept u in
            Post-deref (get_elem? fs1.icache i) (λ ip at.
              Post-Bool (not (ip.type == t_dir))
                (λ _. Post-bind (iunlockput i fs1) (λ fs2 e2. Post-ok (
                  Balanced-Kept dev inum fs.icache fs1.icache (nowhere fs2) kept
                    ((iunlockput-Put i dev inum fs1 live1 u1).of fs2 e2).less)))
                (λ _.
                  Post-Bool (parent && length rest == 0)
                    (λ _. Post-bind (iunlock i fs1) (λ fs2 e2.
                      let kept2 = ((iunlock-Kept i fs1).of fs2 e2).0 in
                      Post-ok (
                        Balanced-Kept dev inum fs.icache fs1.icache (arrived i name fs2) kept (
                          dev,
                          inum,
                          (LiveAt-Kept fs1.icache fs2.icache i dev inum kept2 live1).0,
                          Unique-Kept fs1.icache fs2.icache kept2 u1,
                          λ d s.
                              ap (λ n. n + one dev inum d s)
                                (refs-Kept d s fs1.icache fs2.icache kept2),
                        ))))
                    (λ _. Post-bind (dirlookup dv i name fs1) (λ r e2.
                      let looked = (dirlookup-Looked dv i dev inum name fs1 live1 u1).of r e2 in
                      record {
                        of = λ w e3.
                            Balanced-Kept dev inum fs.icache fs1.icache w kept (
                              (Looked-Balanced again i dev inum fs1 r next live1 u1 looked).of w
                                e3);
                      }))))))

  pub walk-Balanced :
      (f : ℕ) (parent : Bool) (i dev inum : ℕ) (path name : List ℕ) (fs : Fs)
      → LiveAt dev inum i fs.icache
      → Unique fs.icache
      → Post (Balanced dev inum fs.icache) (walk dv f parent i path name fs)
  unfolding walk
  walk-Balanced zero parent i dev inum path name fs live u = Post-ok tt
  walk-Balanced (suc f) parent i dev inum path name fs live u =
      elim (Option-cases (skipelem path)) [
        | inl e ↦
            subst (Post (Balanced dev inum fs.icache))
              (sym (walk_at_end dv f parent i path name fs e))
              (Post-if parent
                (λ _.
                  Post-bind (iput i fs)
                    (λ fs' e'. Post-ok ((iput-Put i dev inum fs live u).of fs' e').less))
                (λ _. Post-ok (dev, inum, live, u, λ d s. refl)))
        | inr ((name', rest), e) ↦
            subst (Post (Balanced dev inum fs.icache))
              (sym (walk_at_name dv f parent i path name name' rest fs e))
              (walk_name-Balanced _ parent i dev inum name' rest fs
                (λ j d s fs' live' u'. walk-Balanced f parent j d s rest name' fs' live' u') live u)
      ]
