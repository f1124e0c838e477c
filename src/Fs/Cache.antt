-- ===== src/Fs/Cache.antt =====
-- fs.c: the references that the inode cache counts.
use mathlib.Core.Option
use os.Base.{
  ℕ, zero, suc, ◌+◌, ◌-◌, ◌<◌, ◌≤◌, ◌==◌, ltb, ◌≡◌, refl, ap, ◌∙◌, Bool, true, false, ◌&&◌,
  if◌then◌else◌, Option, none, some, List, [], ◌∷◌, get_elem?, set, modify, All, total,
  total-modify, total-set, total_zero, Result, ok, panic, fault, ◌>>=◌, >>=-Returned, get_or, take,
  arith, Bool-cases, inl, inr, ◌⊎◌,
}
use os.Fs.Layout.{Disk, Superblock, ndirect, nindirect}
use os.Fs.Bitmap.{bfree}
use os.Fs.Inode.{
  Inode, Fs, cached, vacant, iget_scan, fresh_entry, iget, idup, free_blocks, free_indirect, itrunc,
  gone, freed, iput,
}

abbrev pub is_inode : ℕ → ℕ → Inode → Bool
is_inode dev inum ip = ip.dev == dev && ip.inum == inum

-- The references to an inode that an entry counts, and whether it is a live entry of that inode.
abbrev pub refs_of : ℕ → ℕ → Inode → ℕ
refs_of dev inum ip = if is_inode dev inum ip then ip.ref else 0

abbrev pub live_of : ℕ → ℕ → Inode → ℕ
live_of dev inum ip = if ltb 0 ip.ref && is_inode dev inum ip then 1 else 0

abbrev pub Other : ℕ → ℕ → Inode → Type 0
Other dev inum ip = live_of dev inum ip ≡ 0

abbrev pub Held : Inode → Type 0
Held ip = 0 < ip.ref

-- The scan from entry `k` on finds a live entry of the inode.
abbrev pub Hit : ℕ → ℕ → ℕ → Option ℕ → List Inode → Type 0
Hit dev inum k empty ips =
    (j : ℕ) × (ip : Inode) × (iget_scan dev inum k empty ips ≡ cached (k + j))
    × (get_elem? ips j ≡ some ip)
    × (live_of dev inum ip ≡ 1)

-- With a free entry `e` known already.
scan_known :
    (dev inum k e : ℕ) (ips : List Inode)
    → Hit dev inum k (some e) ips
      ⊎ (All (Other dev inum) ips × (iget_scan dev inum k (some e) ips ≡ vacant (some e)))
unfolding iget_scan
scan_known dev inum k e [] = inr (tt, refl)
scan_known dev inum k e (ip ∷ ips) = elim (Bool-cases (ltb 0 ip.ref && is_inode dev inum ip)) [
  | inl here ↦ inl (0, ip, ground (arith, here), refl, ground (arith, here))
  | inr other ↦ elim (scan_known dev inum (k + 1) e ips) [
    | inl (j, q, s, at, live) ↦ inl (j + 1, q, ground (arith, other, s), ground (arith, at), live)
    | inr (all, s) ↦ inr ((ground (arith, other), all), ground (arith, other, s))
  ]
]

pub scan_cases :
    (dev inum k : ℕ) (ips : List Inode)
    → Hit dev inum k none ips
      ⊎ (All (Other dev inum) ips
          × (((j : ℕ) × (ip : Inode) × (iget_scan dev inum k none ips ≡ vacant (some (k + j)))
                × (get_elem? ips j ≡ some ip)
                × (ip.ref ≡ 0))
              ⊎ ((iget_scan dev inum k none ips ≡ vacant none) × All Held ips)))
unfolding iget_scan
scan_cases dev inum k [] = inr (tt, inr (refl, tt))
scan_cases dev inum k (ip ∷ ips) = elim (Bool-cases (ltb 0 ip.ref && is_inode dev inum ip)) [
  | inl here ↦ inl (0, ip, ground (arith, here), refl, ground (arith, here))
  | inr other ↦ elim (Bool-cases (ip.ref == 0)) [
    | inl free ↦ elim (scan_known dev inum (k + 1) k ips) [
      | inl (j, q, s, at, live) ↦
          inl (j + 1, q, ground (arith, other, free, s), ground (arith, at), live)
      | inr (all, s) ↦ inr (
        (ground (arith, other), all),
        inl (0, ip, ground (arith, other, free, s), refl, ground (arith, free)),
      )
    ]
    | inr held ↦ elim (scan_cases dev inum (k + 1) ips) [
      | inl (j, q, s, at, live) ↦
          inl (j + 1, q, ground (arith, other, held, s), ground (arith, at), live)
      | inr (all, inl (j, q, s, at, free)) ↦ inr (
        (ground (arith, other), all),
        inl (j + 1, q, ground (arith, other, held, s), ground (arith, at), free),
      )
      | inr (all, inr (s, used)) ↦ inr (
        (ground (arith, other), all),
        inr (ground (arith, other, held, s), (ground (arith, held), used)),
      )
    ]
  ]
]

-- No inode has two live entries.
abbrev pub Unique : List Inode → Type 0
Unique ips = (d s : ℕ) → total (live_of d s) ips ≤ 1

-- Entry `j` of the cache is a live entry of the inode.
abbrev pub LiveAt : ℕ → ℕ → ℕ → List Inode → Type 0
LiveAt dev inum j ips =
    (ip : Inode) × (get_elem? ips j ≡ some ip) × (is_inode dev inum ip ≡ true) × (0 < ip.ref)

-- One more reference to the inode, and as many as before to every other one.
abbrev pub OneMore : ℕ → ℕ → List Inode → List Inode → Type 0
OneMore dev inum ips ips' =
    (d s : ℕ)
    → total (refs_of d s) ips' ≡ total (refs_of d s) ips + (if dev == d && inum == s then 1 else 0)

-- What iget does to a cache: entry `j` is returned, or every entry is held.
abbrev pub Got : ℕ → ℕ → List Inode → Result (ℕ × List Inode) → Type 0
Got dev inum ips out =
    ((j : ℕ) × (ips' : List Inode) × (out ≡ ok (j, ips'))
      × LiveAt dev inum j ips'
      × OneMore dev inum ips ips'
      × Unique ips')
    ⊎ ((out ≡ panic "iget: no inodes") × All Held ips × All (Other dev inum) ips)

abbrev pub more_refs : Inode → Inode
more_refs ip = record ip { ref = ip.ref + 1 }

pub get_elem?-modify_self {ℓ} :
    {A : Type ℓ} (xs : List A) (j : ℕ) (f : A → A) {x : A}
    → get_elem? xs j ≡ some x
    → get_elem? (modify xs j f) j ≡ some (f x)
get_elem?-modify_self [] j f h = absurd (ground (arith, h))
get_elem?-modify_self (x ∷ xs) zero f h = ap (λ y. Option.map f y) h
get_elem?-modify_self (x ∷ xs) (suc j) f {x = y} h = get_elem?-modify_self xs j f {x = y} h

-- iget returns a live entry of the inode and counts one reference more for it, and the same
-- number as before for every other inode; no inode gets a second live entry, if none had one. It
-- panics only when all entries are held by other inodes.
pub iget-Got : (dev inum : ℕ) (ips : List Inode) → Unique ips → Got dev inum ips (iget dev inum ips)
unfolding iget
iget-Got dev inum ips u = elim (scan_cases dev inum 0 ips) [
  | inl (j, ip, s, at, live) ↦
      let s' : iget_scan dev inum 0 none ips ≡ cached j = s ∙ ap cached (omega arith) in
      inl (
        j,
        modify ips j more_refs,
        ground (arith, s'),
        (more_refs ip, get_elem?-modify_self ips j more_refs at, ground (arith, live), omega arith),
        (λ d t. ground (arith, live, total-modify (refs_of d t) more_refs ips j at)),
        (λ d t. ground (arith, live, u d t, total-modify (live_of d t) more_refs ips j at)),
      )
  | inr (other, inl (j, ip, s, at, free)) ↦
      let s' : iget_scan dev inum 0 none ips ≡ vacant (some j) =
        s ∙ ap (λ k. vacant (some k)) (omega arith) in
      let f : Inode → Inode = fresh_entry dev inum in
      let none_live : total (live_of dev inum) ips ≡ 0 = total_zero (live_of dev inum) ips other in
      inl (
        j,
        modify ips j f,
        ground (arith, s'),
        (f ip, get_elem?-modify_self ips j f at, ground arith, omega arith),
        (λ d t. ground (arith, free, total-modify (refs_of d t) f ips j at)),
        (λ d t. elim (Bool-cases (dev == d && inum == t)) [
          | inl same ↦
              let none_here : total (live_of d t) ips ≡ 0 = ground (arith, same, none_live) in
              ground (arith, free, none_here, same, total-modify (live_of d t) f ips j at)
          | inr differ ↦ ground (arith, free, differ, u d t, total-modify (live_of d t) f ips j at)
        ]),
      )
  | inr (other, inr (s, held)) ↦ inr (ground (arith, s), held, other)
]

-- idup of a live entry counts one reference more, for the inode of the entry alone.
pub idup_lem :
    (i : ℕ) (ips : List Inode) {ip : Inode}
    → get_elem? ips i ≡ some ip
    → OneMore ip.dev ip.inum ips (idup i ips)
unfolding idup
idup_lem i ips {ip} at d s = ground (arith, total-modify (refs_of d s) more_refs ips i at)

-- itrunc leaves an inode with its number.
pub itrunc_same :
    (sb : Superblock) (ip ip' : Inode) (d d' : Disk)
    → itrunc sb ip d ≡ ok (ip', d')
    → (ip'.dev ≡ ip.dev) × (ip'.inum ≡ ip.inum)
unfolding itrunc
itrunc_same sb ip ip' d d' h =
    let (d1, _, h1) = >>=-Returned (free_blocks sb (take ndirect ip.addrs) d) _ h in
    let (d2, _, h2) =
      >>=-Returned
        (if get_or ip.addrs ndirect 0 == 0
          then ok d1
          else (free_indirect sb (get_or ip.addrs ndirect 0) 0 nindirect d1 >>= λ e.
              bfree (get_or ip.addrs ndirect 0) sb e))
        _ h1 in
    (ground (arith, h2), ground (arith, h2))

iput_last :
    (i : ℕ) (fs : Fs) {ip : Inode}
    → get_elem? fs.icache i ≡ some ip
    → (ip.ref == 1 && ip.valid && ip.nlink == 0) ≡ true
    → ip.busy ≡ false
    → (itrunc fs.sb ip fs.disk >>= λ r. ok (freed i fs r)) ≡ iput i fs
unfolding iput
iput_last i fs at last idle = ground (arith, at, last, idle)

-- The cache of a result.
abbrev icache_of : Result Fs → List Inode
icache_of (ok fs) = fs.icache
icache_of (panic m) = []
icache_of fault = []

-- iput of a held entry, where it returns, drops one reference, of the entry's inode alone, whether
-- or not it frees the inode as well.
pub iput_lem :
    (i : ℕ) (fs fs' : Fs) {ip : Inode}
    → get_elem? fs.icache i ≡ some ip
    → 0 < ip.ref
    → iput i fs ≡ ok fs'
    → OneMore ip.dev ip.inum fs'.icache fs.icache
unfolding iput
iput_lem i fs fs' {ip} at held h d s =
    elim (Bool-cases (ip.ref == 1 && ip.valid && ip.nlink == 0)) [
      | inr kept ↦ ground (
        arith,
        at,
        kept,
        h,
        total-set (refs_of d s) fs.icache i (record ip { ref = ip.ref - 1 }) at,
      )
      | inl last ↦ elim (Bool-cases ip.busy) [
        | inl busy ↦ absurd (ground (arith, at, last, busy, h))
        | inr idle ↦
            let step : (itrunc fs.sb ip fs.disk >>= λ r. ok (freed i fs r)) ≡ ok fs' =
              iput_last i fs at last idle ∙ h in
            let (r, e, out) =
              >>=-Returned (itrunc fs.sb ip fs.disk) (λ r. ok (freed i fs r)) step in
            let (same_dev, same_inum) = itrunc_same fs.sb ip r.0 fs.disk r.1 e in
            let now : set fs.icache i (gone r.0) ≡ fs'.icache = ap icache_of out in
            let sum = total-set (refs_of d s) fs.icache i (gone r.0) at in
            let after : total (refs_of d s) (set fs.icache i (gone r.0))
                ≡ total (refs_of d s) fs'.icache =
              ap (total (refs_of d s)) now in
            ground (arith, last, sum, after)
      ]
    ]
