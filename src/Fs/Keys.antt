-- ===== src/Fs/Keys.antt =====
-- fs.c: reading and writing inodes leaves the numbers and the counts of the cache's entries.
use os.Base.{
  Result, ℕ, zero, suc, ◌+◌, ◌-◌, ◌/◌, ◌%◌, ◌^◌, ◌<◌, ◌≤◌, ◌==◌, ltb, ◌≡◌, refl, sym, ap, subst,
  ◌∙◌, not, true, false, ◌&&◌, ◌||◌, if◌then◌else◌, Option, none, some, List, [], ◌∷◌, map, length,
  get_elem?, set, total, arith, get_or, Post, Post-ok, Post-panic, Post-if, Post-Bool, Post-Option,
  Post-bind, Post-deref,
}
use os.Fs.Layout.{Disk, Superblock, ndirect, nindirect, bsize}
use os.Fs.Bitmap.{balloc}
use os.Fs.Inode.{
  Inode, Fs, t_dev, load_inode, Locking, locked, sleeps, ilock, iunlock, bmap, bmap_direct,
  bmap_indirect,
}
use os.Fs.Content.{Devices, readi, read_loop, chunk}
use os.Fs.Path.{read_dirent, dir_scan, same_name}
use os.Fs.Cache.{refs_of, live_of, Unique, LiveAt}

-- What an entry of the cache counts, and for which inode.
abbrev pub key : Inode → ℕ × ℕ × ℕ
key ip = (ip.dev, ip.inum, ip.ref)

abbrev pub keys : List Inode → List (ℕ × ℕ × ℕ)
keys ips = map key ips

abbrev key_or : Option Inode → ℕ × ℕ × ℕ
key_or none = (0, 0, 0)
key_or (some ip) = key ip

pub keys-set :
    (ips : List Inode) (i : ℕ) (y : Inode) {x : Inode}
    → get_elem? ips i ≡ some x
    → key y ≡ key x
    → keys (set ips i y) ≡ keys ips
keys-set [] i y h e = refl
keys-set (x ∷ ips) zero y h e = ap (λ t. t ∷ keys ips) (e ∙ sym (ap key_or h))
keys-set (x ∷ ips) (suc i) y {x = z} h e = ap (λ t. key x ∷ t) (keys-set ips i y {x = z} h e)

-- The references to an inode are a matter of the keys.
abbrev refs_in : ℕ → ℕ → List (ℕ × ℕ × ℕ) → ℕ
refs_in d s ks = total (λ k. if k.0 == d && k.1 == s then k.2 else 0) ks

refs-keys : (d s : ℕ) (ips : List Inode) → total (refs_of d s) ips ≡ refs_in d s (keys ips)
unfolding total
refs-keys d s [] = refl
refs-keys d s (ip ∷ ips) = ap (λ n. refs_of d s ip + n) (refs-keys d s ips)

-- The caches whose keys are those of another.
abbrev pub Kept : List Inode → List Inode → Type 0
Kept ips ips' = keys ips' ≡ keys ips

abbrev pub KeptLocking : List Inode → Locking → Type 0
KeptLocking ips (locked fs) = Kept ips fs.icache
KeptLocking ips sleeps = Unit

loaded_key : (d : Disk) (ip : Inode) → key (load_inode d ip) ≡ key ip
unfolding load_inode
loaded_key d ip = refl

pub Post-Locking {ℓ κ} :
    {A : Type ℓ} {P : A → Type κ} {r : Result A} {s : Fs → Result A} (l : Locking)
    → (l ≡ sleeps → Post P r)
    → ((fs : Fs) → l ≡ locked fs → Post P (s fs))
    → Post P (elim l [ sleeps ↦ r | locked fs ↦ s fs ])
Post-Locking sleeps hr hs = hr refl
Post-Locking (locked fs) hr hs = hs fs refl

pub ilock-Kept : (i : ℕ) (fs : Fs) → Post (KeptLocking fs.icache) (ilock i fs)
unfolding ilock
ilock-Kept i fs = Post-deref (get_elem? fs.icache i) (λ ip at.
    Post-if (ltb ip.ref 1) (λ _. Post-panic)
      (λ _.
        Post-if ip.busy (λ _. Post-ok tt)
          (λ _.
            Post-if ip.valid
              (λ _. Post-ok (keys-set fs.icache i (record ip { busy = true }) at refl))
              (λ _.
                Post-if ((load_inode fs.disk (record ip { busy = true })).type == 0)
                  (λ _. Post-panic)
                  (λ _. Post-ok (
                    keys-set fs.icache i (load_inode fs.disk (record ip { busy = true })) at
                      (loaded_key fs.disk (record ip { busy = true }))))))))

-- An entry that was unlocked is held.
abbrev pub HeldAt : ℕ → List Inode → Type 0
HeldAt i ips = (ip : Inode) × (get_elem? ips i ≡ some ip) × (0 < ip.ref)

pub iunlock-Kept :
    (i : ℕ) (fs : Fs) → Post (λ fs'. Kept fs.icache fs'.icache × HeldAt i fs.icache) (iunlock i fs)
unfolding iunlock
iunlock-Kept i fs = Post-deref (get_elem? fs.icache i) (λ ip at.
    Post-if (not ip.busy || ltb ip.ref 1) (λ _. Post-panic)
      (λ good. Post-ok (
        keys-set fs.icache i (record ip { busy = false }) at refl,
        (ip, at, ground (arith, good)),
      )))

-- bmap changes the addresses of an inode, and so do the loops over the bytes of a file.
bmap_direct-key :
    (sb : Superblock) (ip : Inode) (bn : ℕ) (d : Disk)
    → Post (λ r. key r.1 ≡ key ip) (bmap_direct sb ip bn d)
bmap_direct-key sb ip bn d =
    Post-if (not (get_or ip.addrs bn 0 == 0)) (λ _. Post-ok refl)
      (λ _. Post-bind (balloc sb d) (λ r _. Post-ok refl))

bmap-key :
    (sb : Superblock) (ip : Inode) (bn : ℕ) (d : Disk)
    → Post (λ r. key r.1 ≡ key ip) (bmap sb ip bn d)
unfolding bmap
bmap-key sb ip bn d =
    Post-if (ltb bn ndirect) (λ _. bmap_direct-key sb ip bn d)
      (λ _.
        Post-if (ltb (bn - ndirect) nindirect)
          (λ _. Post-bind (bmap_direct sb ip ndirect d) (λ r e.
            Post-bind (bmap_indirect sb r.0 (bn - ndirect) r.2)
              (λ q _. Post-ok ((bmap_direct-key sb ip ndirect d).of r e))))
          (λ _. Post-panic))

read_loop-key :
    (f : ℕ) (sb : Superblock) (off left : ℕ) (ip : Inode) (d : Disk)
    → Post (λ r. key r.1 ≡ key ip) (read_loop f sb off left ip d)
unfolding read_loop
read_loop-key zero sb off left ip d = Post-ok refl
read_loop-key (suc f) sb off left ip d =
    Post-Bool (left == 0) (λ _. Post-ok refl)
      (λ _. Post-bind (bmap sb ip (off / bsize) d) (λ r e.
        Post-bind (read_loop f sb (off + chunk off left) (left - chunk off left) r.1 r.2) (λ q e'.
          Post-ok (
            (read_loop-key f sb (off + chunk off left) (left - chunk off left) r.1 r.2).of q e'
            ∙ (bmap-key sb ip (off / bsize) d).of r e))))

readi-key :
    (dv : Devices) (sb : Superblock) (off n : ℕ) (ip : Inode) (d : Disk)
    → Post (λ r. key r.1 ≡ key ip) (readi dv sb off n ip d)
unfolding readi
readi-key dv sb off n ip d =
    Post-if (ip.type == t_dev) (λ _. Post-ok refl)
      (λ _.
        Post-if (ltb ip.size off || ltb ((off + n) % 2 ^ 32) off) (λ _. Post-ok refl)
          (λ _.
            let n' : ℕ = if ltb ip.size (off + n) then ip.size - off else n in
            Post-bind (read_loop n' sb off n' ip d)
              (λ r e. Post-ok ((read_loop-key n' sb off n' ip d).of r e))))

module _ (dv : Devices) where
  read_dirent-Kept :
      (i off : ℕ) (fs : Fs) → Post (λ r. Kept fs.icache r.1.icache) (read_dirent dv i off fs)
  unfolding read_dirent
  read_dirent-Kept i off fs = Post-deref (get_elem? fs.icache i) (λ dp at.
      Post-bind (readi dv fs.sb off 16 dp fs.disk) (λ r e.
        Post-Option r.0 (λ _. Post-panic)
          (λ bs _.
            Post-if (length bs == 16)
              (λ _.
                Post-ok
                  (keys-set fs.icache i r.1 at ((readi-key dv fs.sb off 16 dp fs.disk).of r e)))
              (λ _. Post-panic))))

  pub dir_scan-Kept :
      (n i off size : ℕ) (name : List ℕ) (fs : Fs)
      → Post (λ r. Kept fs.icache r.1.icache) (dir_scan dv n i off size name fs)
  unfolding dir_scan
  dir_scan-Kept zero i off size name fs = Post-ok refl
  dir_scan-Kept (suc n) i off size name fs =
      Post-Bool (ltb off size)
        (λ _. Post-bind (read_dirent dv i off fs) (λ r e.
          let kept : Kept fs.icache r.1.icache = (read_dirent-Kept i off fs).of r e in
          Post-Bool (not (r.0.inum == 0) && same_name name r.0.name) (λ _. Post-ok kept)
            (λ _. record {
              of = λ q e'. (dir_scan-Kept n i (off + 16) size name r.1).of q e' ∙ kept;
            })))
        (λ _. Post-ok refl)

-- The keys decide the references to an inode, and which inodes are held.
pub refs-Kept :
    (d s : ℕ) (ips ips' : List Inode)
    → Kept ips ips'
    → total (refs_of d s) ips' ≡ total (refs_of d s) ips
refs-Kept d s ips ips' e = refs-keys d s ips' ∙ ap (refs_in d s) e ∙ sym (refs-keys d s ips)

abbrev first_key : List (ℕ × ℕ × ℕ) → ℕ × ℕ × ℕ
first_key [] = (0, 0, 0)
first_key (k ∷ ks) = k

abbrev rest_keys : List (ℕ × ℕ × ℕ) → List (ℕ × ℕ × ℕ)
rest_keys [] = []
rest_keys (k ∷ ks) = ks

pub entry-Kept :
    (ips ips' : List Inode) (j : ℕ) {q : Inode}
    → Kept ips ips'
    → get_elem? ips j ≡ some q
    → (q' : Inode) × (get_elem? ips' j ≡ some q') × (key q' ≡ key q)
entry-Kept [] ips' j e at = absurd cc
entry-Kept (x ∷ ips) [] j e at = absurd cc
entry-Kept (x ∷ ips) (y ∷ ips') zero e at = (y, refl, ap first_key e ∙ ap key_or at)
entry-Kept (x ∷ ips) (y ∷ ips') (suc j) {q} e at = entry-Kept ips ips' j {q = q} (ap rest_keys e) at

abbrev live_in : ℕ → ℕ → List (ℕ × ℕ × ℕ) → ℕ
live_in d s ks = total (λ k. if ltb 0 k.2 && (k.0 == d && k.1 == s) then 1 else 0) ks

live-keys : (d s : ℕ) (ips : List Inode) → total (live_of d s) ips ≡ live_in d s (keys ips)
unfolding total
live-keys d s [] = refl
live-keys d s (ip ∷ ips) = ap (λ n. live_of d s ip + n) (live-keys d s ips)

pub Unique-Kept : (ips ips' : List Inode) → Kept ips ips' → Unique ips → Unique ips'
Unique-Kept ips ips' e u d s =
    subst (λ n. n ≤ 1) (live-keys d s ips ∙ ap (live_in d s) (sym e) ∙ sym (live-keys d s ips'))
      (u d s)

-- A live entry stays one, with as many references.
pub LiveAt-Kept :
    (ips ips' : List Inode) (j d s : ℕ)
    → Kept ips ips'
    → (q : LiveAt d s j ips) → (q' : LiveAt d s j ips') × (q'.0.ref ≡ q.0.ref)
LiveAt-Kept ips ips' j d s e (q, at, inode, live) =
    let (q', at', same) = entry-Kept ips ips' j e at in
    let dev : q'.dev ≡ q.dev = ap (λ (k : ℕ × ℕ × ℕ). k.0) same in
    let inum : q'.inum ≡ q.inum = ap (λ (k : ℕ × ℕ × ℕ). k.1) same in
    let ref : q'.ref ≡ q.ref = ap (λ (k : ℕ × ℕ × ℕ). k.2) same in
    ((q', at', rw (dev, inum) inode, omega (arith, ref, live)), ref)
