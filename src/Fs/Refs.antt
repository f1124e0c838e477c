-- ===== src/Fs/Refs.antt =====
-- fs.c: what iget and iput do to each entry of the inode cache.
use os.Base.{
  ℕ, zero, suc, ◌+◌, ◌-◌, ◌<◌, ◌≤◌, ◌==◌, ◌≡◌, ◌≢◌, refl, sym, ap, subst, ◌∙◌, true, ◌&&◌,
  if◌then◌else◌, Option, none, some, List, [], ◌∷◌, get_elem?, set, modify, get_elem?-set_self,
  get_elem?-set_ne, get_elem?-some_lt, total, total-set, arith, inl, inr, ℕ_discrete, Post, Post-ok,
  Post-panic, Post-if, Post-bind,
}
use os.Fs.Inode.{Inode, Fs, iget, fresh_entry, iput, iunlock, iunlockput, itrunc, gone}
use os.Fs.Cache.{
  is_inode, live_of, Unique, LiveAt, OneMore, more_refs, scan_cases, get_elem?-modify_self,
  itrunc_same, iput_lem,
}
use os.Fs.Keys.{Kept, iunlock-Kept, refs-Kept, LiveAt-Kept, Unique-Kept}

get_elem?-modify_ne {ℓ} :
    {A : Type ℓ} (xs : List A) (i j : ℕ) (f : A → A)
    → j ≢ i
    → get_elem? (modify xs i f) j ≡ get_elem? xs j
get_elem?-modify_ne [] i j f ne = refl
get_elem?-modify_ne (x ∷ xs) zero zero f ne = absurd (ne refl)
get_elem?-modify_ne (x ∷ xs) zero (suc j) f ne = refl
get_elem?-modify_ne (x ∷ xs) (suc i) zero f ne = refl
get_elem?-modify_ne (x ∷ xs) (suc i) (suc j) f ne = get_elem?-modify_ne xs i j f (omega (arith, ne))

-- Every held entry keeps its inode, and only entry `j` gets one reference more.
abbrev pub Keeps : List Inode → ℕ × List Inode → Type 0
Keeps ips (j, ips') =
    (m : ℕ) (ip : Inode)
    → get_elem? ips m ≡ some ip
    → 0 < ip.ref
    → (ip' : Inode) × (get_elem? ips' m ≡ some ip')
      × (ip'.dev ≡ ip.dev)
      × (ip'.inum ≡ ip.inum)
      × (ip'.ref ≡ ip.ref + (if m == j then 1 else 0))

Keeps-modify :
    (ips : List Inode) (j : ℕ) (f : Inode → Inode)
    → ((ip : Inode) → get_elem? ips j ≡ some ip → 0 < ip.ref → f ip ≡ more_refs ip)
    → Keeps ips (j, modify ips j f)
Keeps-modify ips j f same m ip at held = elim (ℕ_discrete m j) [
  | yes here ↦
      let at' : get_elem? ips j ≡ some ip = ap (get_elem? ips) (sym here) ∙ at in
      (
        more_refs ip,
        ap (get_elem? (modify ips j f)) here
            ∙ get_elem?-modify_self ips j f at'
            ∙ ap (λ x. some x) (same ip at' held),
        refl,
        refl,
        ground (arith, here),
      )
  | no other ↦ (ip, get_elem?-modify_ne ips j m f other ∙ at, refl, refl, ground (arith, other))
]

abbrev dev_or : Option Inode → ℕ
dev_or none = 0
dev_or (some ip) = ip.dev

abbrev inum_or : Option Inode → ℕ
inum_or none = 0
inum_or (some ip) = ip.inum

abbrev pub ref_or : Option Inode → ℕ
ref_or none = 0
ref_or (some ip) = ip.ref

pub iget-Keeps : (dev inum : ℕ) (ips : List Inode) → Post (Keeps ips) (iget dev inum ips)
unfolding iget
iget-Keeps dev inum ips = elim (scan_cases dev inum 0 ips) [
  | inl (j, ip, s, at, live) ↦
      rw (iget, s) (Post-ok (Keeps-modify ips (0 + j) more_refs (λ x _ _. refl)))
  | inr (other, inl (j, ip, s, at, free)) ↦
      rw (iget, s)
        (Post-ok (
          Keeps-modify ips (0 + j) (fresh_entry dev inum) (λ x at' held.
            let here : some ip ≡ some x = sym at ∙ ap (get_elem? ips) (omega arith) ∙ at' in
            absurd (omega (arith, held, free, ap ref_or here)))))
  | inr (other, inr (s, held)) ↦ rw (iget, s) Post-panic
]

-- iput changes one entry: its inode stays, and a reference goes.
abbrev pub Dropped : ℕ → Inode → List Inode → List Inode → Type 0
Dropped i ip ips ips' =
    (y : Inode) × (ips' ≡ set ips i y)
    × (y.dev ≡ ip.dev)
    × (y.inum ≡ ip.inum)
    × (y.ref + 1 ≡ ip.ref)

pub iput-Dropped :
    (i : ℕ) (fs : Fs) {ip : Inode}
    → get_elem? fs.icache i ≡ some ip
    → 0 < ip.ref
    → Post (λ fs'. Dropped i ip fs.icache fs'.icache) (iput i fs)
unfolding iput
iput-Dropped i fs {ip} at held = rw (at) (
    Post-if (ip.ref == 1 && ip.valid && ip.nlink == 0)
      (λ last.
        Post-if ip.busy (λ _. Post-panic)
          (λ _. Post-bind (itrunc fs.sb ip fs.disk) (λ r e.
            let (same_dev, same_inum) = itrunc_same fs.sb ip r.0 fs.disk r.1 e in
            Post-ok (gone r.0, refl, same_dev, same_inum, ground (arith, last)))))
      (λ _. Post-ok (record ip { ref = ip.ref - 1 }, refl, refl, refl, omega (arith, held))))

-- No entry becomes live by it, and every other entry is as before.
Unique-Dropped :
    (i : ℕ) (ip : Inode) (ips ips' : List Inode)
    → get_elem? ips i ≡ some ip
    → Dropped i ip ips ips'
    → Unique ips
    → Unique ips'
Unique-Dropped i ip ips ips' at (y, e, same_dev, same_inum, less) u d s =
    let sum = total-set (live_of d s) ips i y at in
    let same : is_inode d s y ≡ is_inode d s ip = rw (same_dev, same_inum) refl in
    let fewer : live_of d s y ≤ live_of d s ip = ground (arith, same, less) in
    subst (λ q. total (live_of d s) q ≤ 1) (sym e) (omega (arith, sum, fewer, u d s))

LiveAt-Dropped :
    (i j d s : ℕ) (ip : Inode) (ips ips' : List Inode)
    → get_elem? ips i ≡ some ip
    → Dropped i ip ips ips'
    → (q : LiveAt d s j ips) → (j ≡ i → 1 < q.0.ref)
    → LiveAt d s j ips'
LiveAt-Dropped i j d s ip ips ips' at (y, e, same_dev, same_inum, less) (q, there, inode, live)
      more =
    elim (ℕ_discrete j i) [
      | no other ↦ (
        q,
        ap (λ l. get_elem? l j) e ∙ get_elem?-set_ne ips i j y (λ z. other (sym z)) ∙ there,
        inode,
        live,
      )
      | yes same ↦
          let one : some ip ≡ some q = sym at ∙ ap (get_elem? ips) (sym same) ∙ there in
          let dev : ip.dev ≡ q.dev = ap dev_or one in
          let inum : ip.inum ≡ q.inum = ap inum_or one in
          (
            y,
            ap (λ l. get_elem? l j) e
                ∙ ap (get_elem? (set ips i y)) same
                ∙ get_elem?-set_self ips i y (get_elem?-some_lt ips i {x = ip} at),
            (rw (same_dev, same_inum, dev, inum) inode),
            omega (arith, less, more same, ap ref_or one),
          )
    ]

-- One reference to an inode goes: to entry `i`. Each other reference to a live entry keeps it.
pub record Put (i dev inum : ℕ) (ips ips' : List Inode) : Type 0 where
  pub less : OneMore dev inum ips' ips
  pub unique : Unique ips'
  pub keeps : (j d s : ℕ) → (q : LiveAt d s j ips) → (j ≡ i → 1 < q.0.ref) → LiveAt d s j ips'

pub same_inode : (d s : ℕ) (ip : Inode) → is_inode d s ip ≡ true → (ip.dev ≡ d) × (ip.inum ≡ s)
same_inode d s ip h = ground (arith, h)

pub iput-Put :
    (i dev inum : ℕ) (fs : Fs)
    → LiveAt dev inum i fs.icache
    → Unique fs.icache
    → Post (λ fs'. Put i dev inum fs.icache fs'.icache) (iput i fs)
iput-Put i dev inum fs (ip, at, inode, live) u = record {
  of = λ fs' e.
      let (same_dev, same_inum) = same_inode dev inum ip inode in
      let dropped = (iput-Dropped i fs at live).of fs' e in
      record {
        less =
            subst (λ d. OneMore d inum fs'.icache fs.icache) same_dev
              (subst (λ s. OneMore ip.dev s fs'.icache fs.icache) same_inum
                (iput_lem i fs fs' at live e));
        unique = Unique-Dropped i ip fs.icache fs'.icache at dropped u;
        keeps = λ j d s q more. LiveAt-Dropped i j d s ip fs.icache fs'.icache at dropped q more;
      };
}

Put-Kept :
    (i dev inum : ℕ) (ips ips1 ips' : List Inode)
    → Kept ips ips1
    → Put i dev inum ips1 ips'
    → Put i dev inum ips ips'
Put-Kept i dev inum ips ips1 ips' e p = record {
  less = λ d s. sym (refs-Kept d s ips ips1 e) ∙ p.less d s;
  unique = p.unique;
  keeps = λ j d s q more.
      let (q1, same) = LiveAt-Kept ips ips1 j d s e q in
      p.keeps j d s q1 (λ here. omega (arith, same, more here));
}

pub iunlockput-Put :
    (i dev inum : ℕ) (fs : Fs)
    → LiveAt dev inum i fs.icache
    → Unique fs.icache
    → Post (λ fs'. Put i dev inum fs.icache fs'.icache) (iunlockput i fs)
unfolding iunlockput
iunlockput-Put i dev inum fs live u = Post-bind (iunlock i fs) (λ fs1 e.
    let kept = ((iunlock-Kept i fs).of fs1 e).0 in
    let put =
      iput-Put i dev inum fs1 (LiveAt-Kept fs.icache fs1.icache i dev inum kept live).0
        (Unique-Kept fs.icache fs1.icache kept u) in
    record {
      of = λ fs' e'. Put-Kept i dev inum fs.icache fs1.icache fs'.icache kept (put.of fs' e');
    })
