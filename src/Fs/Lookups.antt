-- ===== src/Fs/Lookups.antt =====
-- fs.c: the reference that dirlookup gives.
use os.Base.{
  ℕ, ◌+◌, ◌<◌, ◌/◌, fault, ◌==◌, ◌≡◌, sym, ap, subst, ◌∙◌, not, ◌&&◌, if◌then◌else◌, Option, none,
  some, List, [], get_elem?, Result, ok, panic, arith, inl, inr, Post, Post-ok, Post-panic, Post-if,
  Post-Option, Post-bind, Post-deref,
}
use os.Fs.Inode.{Inode, Fs, t_dir, iget}
use os.Fs.Content.{Devices}
use os.Fs.Cache.{Unique, LiveAt, OneMore, Got, iget-Got}
use os.Fs.Keys.{Kept, dir_scan-Kept, refs-Kept, LiveAt-Kept, Unique-Kept}
use os.Fs.Refs.{ref_or, iget-Keeps}
use os.Fs.Path.{dir_scan, dirlookup}

-- 1 for the inode, and 0 for another one.
abbrev pub one : ℕ → ℕ → ℕ → ℕ → ℕ
one dev inum d s = if dev == d && inum == s then 1 else 0

-- The reference that dirlookup gives, beside the one that the caller has.
pub record Found (i dev inum : ℕ) (ips : List Inode) (j : ℕ) (ips' : List Inode) : Type 0 where
  pub to_dev : ℕ
  pub to_inum : ℕ
  pub more : OneMore to_dev to_inum ips ips'
  pub unique : Unique ips'
  pub mine : LiveAt dev inum i ips'
  pub there : LiveAt to_dev to_inum j ips'
  pub twice : j ≡ i → 1 < there.0.ref

abbrev pub Looked : ℕ → ℕ → ℕ → List Inode → Option (ℕ × ℕ) × Fs → Type 0
Looked i dev inum ips (none, fs) = Kept ips fs.icache
Looked i dev inum ips (some (j, off), fs) = Found i dev inum ips j fs.icache

abbrev pair_or : Result (ℕ × List Inode) → ℕ × List Inode
pair_or (ok r) = r
pair_or (panic m) = (0, [])
pair_or fault = (0, [])

pub Got-ok :
    (d s : ℕ) (ips : List Inode) (r : ℕ × List Inode)
    → Got d s ips (ok r)
    → LiveAt d s r.0 r.1 × OneMore d s ips r.1 × Unique r.1
Got-ok d s ips r (inl (j, ips', e, live, more, u)) =
    let same : r ≡ (j, ips') = ap pair_or e in
    subst (λ (q : ℕ × List Inode). LiveAt d s q.0 q.1 × OneMore d s ips q.1 × Unique q.1) (sym same)
      (live, more, u)
Got-ok d s ips r (inr (e, _, _)) = absurd cc

iget-Found :
    (i dev inum d s : ℕ) (ips : List Inode)
    → LiveAt dev inum i ips
    → Unique ips
    → Post (λ r. Found i dev inum ips r.0 r.1) (iget d s ips)
iget-Found i dev inum d s ips (ip, at, inode, live) u = record {
  of = λ r e.
      let (there, more, unique) = Got-ok d s ips r (subst (Got d s ips) e (iget-Got d s ips u)) in
      let (ip', at', same_dev, same_inum, ref) = (iget-Keeps d s ips).of r e i ip at live in
      record {
        to_dev = d;
        to_inum = s;
        more = more;
        unique = unique;
        mine = (ip', at', rw (same_dev, same_inum) inode, omega (arith, ref, live));
        there = there;
        twice = λ same.
            let mine_there : some ip' ≡ some there.0 =
              sym at' ∙ ap (get_elem? r.1) (sym same) ∙ there.1 in
            ground (arith, live, ref, same, ap ref_or mine_there);
      };
}

Found-Kept :
    (i dev inum j : ℕ) (ips ips1 ips' : List Inode)
    → Kept ips ips1
    → Found i dev inum ips1 j ips'
    → Found i dev inum ips j ips'
Found-Kept i dev inum j ips ips1 ips' e f = record {
  to_dev = f.to_dev;
  to_inum = f.to_inum;
  more = λ d s. f.more d s ∙ ap (λ n. n + one f.to_dev f.to_inum d s) (refs-Kept d s ips ips1 e);
  unique = f.unique;
  mine = f.mine;
  there = f.there;
  twice = f.twice;
}

module _ (dv : Devices) where
  pub dirlookup-Looked :
      (i dev inum : ℕ) (name : List ℕ) (fs : Fs)
      → LiveAt dev inum i fs.icache
      → Unique fs.icache
      → Post (Looked i dev inum fs.icache) (dirlookup dv i name fs)
  unfolding dirlookup
  dirlookup-Looked i dev inum name fs live u = Post-deref (get_elem? fs.icache i) (λ dp at.
      Post-if (not (dp.type == t_dir)) (λ _. Post-panic)
        (λ _. Post-bind (dir_scan dv (dp.size / 16 + 1) i 0 dp.size name fs) (λ r e.
          let kept = (dir_scan-Kept dv (dp.size / 16 + 1) i 0 dp.size name fs).of r e in
          Post-Option r.0 (λ _. Post-ok kept)
            (λ to _. Post-bind (iget dp.dev to.0 r.1.icache) (λ q e'. Post-ok (
              Found-Kept i dev inum q.0 fs.icache r.1.icache q.1 kept (
                (iget-Found i dev inum dp.dev to.0 r.1.icache
                    (LiveAt-Kept fs.icache r.1.icache i dev inum kept live).0
                    (Unique-Kept fs.icache r.1.icache kept u)).of
                  q e')))))))
