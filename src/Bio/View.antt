-- ===== src/Bio/View.antt =====
-- bio.c: what the cache shows of the disk.
use os.Base.{
  ℕ, ◌+◌, ◌≤◌, ◌==◌, ◌≡◌, refl, sym, ap, subst, ◌∙◌, true, false, ◌&&◌, if◌then◌else◌, inl, inr,
  some, List, [], ◌∷◌, ◌++◌, Result, ok, arith, Bool-cases, All,
}
use os.Log.Disk.{Block}
use os.Bio.Defs.{Buf, Get, is_for, recyclable, recycled, bget, at_slot?, unlink_slot, brelse}
use os.Bio.Get.{Place, hit, taken, miss, full, bget-Found}
use os.Bio.Unique.{count, count-append, Unique, mark, unlink-count}

-- The newest contents of a sector of disk 1: those of its buffer if that is valid, else the disk's.
unfoldable pub view : (ℕ → Block) → ℕ → List Buf → Block
view mem s [] = mem s
view mem s (b ∷ bs) = if is_for 1 s b && b.valid then b.contents else view mem s bs

-- A dirty buffer is valid, and one that nobody has locked and that is valid and clean holds what
-- the disk holds.
abbrev pub Clean : (ℕ → Block) → Buf → Type 0
Clean mem b =
    (b.dirty ≡ true → b.valid ≡ true)
    × (b.dev ≡ 1 → b.busy ≡ false → b.valid ≡ true → b.dirty ≡ false → b.contents ≡ mem b.sector)

All-middle {ℓ κ} :
    {A : Type ℓ} (P : A → Type κ) (xs : List A) (b : A) (ys : List A) → All P (xs ++ (b ∷ ys)) → P b
All-middle P [] b ys (h, hs) = h
All-middle P (x ∷ xs) b ys (h, hs) = All-middle P xs b ys hs

All-swap {ℓ κ} :
    {A : Type ℓ} (P : A → Type κ) (xs : List A) (b b' : A) (ys : List A)
    → All P (xs ++ (b ∷ ys))
    → P b'
    → All P (xs ++ (b' ∷ ys))
All-swap P [] b b' ys (h, hs) new = (new, hs)
All-swap P (x ∷ xs) b b' ys (h, hs) new = (h, All-swap P xs b b' ys hs new)

pub view_none :
    (mem : ℕ → Block) (s : ℕ) (bs : List Buf) → count (is_for 1 s) bs ≡ 0 → view mem s bs ≡ mem s
unfolding view count
view_none mem s [] h = refl
view_none mem s (b ∷ bs) h =
    let other : is_for 1 s b ≡ false = ground (arith, h) in
    let rest : view mem s bs ≡ mem s = view_none mem s bs (omega (arith, h)) in rw other rest

view-swap :
    (mem : ℕ → Block) (s : ℕ) (xs : List Buf) (b b' : Buf) (ys : List Buf)
    → view mem s (b' ∷ ys) ≡ view mem s (b ∷ ys)
    → view mem s (xs ++ (b' ∷ ys)) ≡ view mem s (xs ++ (b ∷ ys))
unfolding view
view-swap mem s [] b b' ys h = h
view-swap mem s (x ∷ xs) b b' ys h =
    ap (λ r. if is_for 1 s x && x.valid then x.contents else r) (view-swap mem s xs b b' ys h)

-- What `mem` and the list `bs` show, `bs'` shows too, and its clean buffers are true to the disk.
abbrev pub Same : (ℕ → Block) → List Buf → List Buf → Type 0
Same mem bs bs' = ((t : ℕ) → view mem t bs' ≡ view mem t bs) × All (Clean mem) bs'

Place-Same :
    (mem : ℕ → Block) {bs bs' : List Buf} {b b' : Buf} (p : Place bs b b' bs')
    → All (Clean mem) bs
    → Clean mem b'
    → ((t : ℕ) → view mem t (b' ∷ p.back) ≡ view mem t (b ∷ p.back))
    → Same mem bs bs'
Place-Same mem {bs} {bs'} {b} {b'} p clean new shows = (
  λ t.
      ap (view mem t) p.after
      ∙ view-swap mem t p.front b b' p.back (shows t)
      ∙ sym (ap (view mem t) p.before),
  subst (All (Clean mem)) (sym p.after)
      (All-swap (Clean mem) p.front b b' p.back (subst (All (Clean mem)) p.before clean) new),
)

pub Place-Clean :
    (mem : ℕ → Block) {bs bs' : List Buf} {b b' : Buf}
    → Place bs b b' bs'
    → All (Clean mem) bs
    → Clean mem b
Place-Clean mem {bs} {bs'} {b} p clean =
    All-middle (Clean mem) p.front b p.back (subst (All (Clean mem)) p.before clean)

-- A buffer that can be recycled shows nothing that the disk does not hold.
recycled-shows :
    (mem : ℕ → Block) (d s t : ℕ) {bs bs' : List Buf} {b : Buf}
    → Unique bs
    → All (Clean mem) bs
    → (p : Place bs b (recycled d s b) bs') → recyclable b ≡ true
    → view mem t (recycled d s b ∷ p.back) ≡ view mem t (b ∷ p.back)
unfolding view count
recycled-shows mem d s t {bs} {bs'} {b} u clean p good =
    elim (Bool-cases (is_for 1 t b && b.valid)) [
      | inr hidden ↦ ground (arith, hidden)
      | inl shown ↦
          let own : b.contents ≡ mem b.sector =
            (Place-Clean mem p clean).1 (ground (arith, shown)) (ground (arith, good))
              (ground (arith, shown)) (ground (arith, good)) in
          let at : b.sector ≡ t = ground (arith, shown) in
          let alone : count (is_for 1 t) p.back ≡ 0 = ground (
            arith,
            shown,
            u 1 t (λ e. omega (arith, e)),
            ap (count (is_for 1 t)) p.before,
            count-append (is_for 1 t) p.front (b ∷ p.back),
          ) in
          let rest : view mem t p.back ≡ mem t = view_none mem t p.back alone in
          let here : b.contents ≡ mem t = own ∙ ap mem at in ground (arith, shown, rest, here)
    ]

pub result_of :
    {r : Result (Get × List Buf)} {g g' : Get} {cs bs : List Buf}
    → r ≡ ok (g, cs)
    → r ≡ ok (g', bs)
    → cs ≡ bs
result_of e h = ground (arith, e, h)

-- bget shows every sector as before, and keeps the clean buffers true to the disk: what it
-- recycles is nowhere the only copy. The condition is that no sector has two buffers.
pub bget-view :
    (mem : ℕ → Block) (d s : ℕ) (bs bs' : List Buf) (g : Get)
    → Unique bs
    → All (Clean mem) bs
    → bget d s bs ≡ ok (g, bs')
    → Same mem bs bs'
unfolding view
bget-view mem d s bs bs' g u clean h = elim (bget-Found d s bs) [
  | hit b cs p same free e ↦
      let r : Same mem bs cs =
        Place-Same mem p clean ((Place-Clean mem p clean).0, λ d f v n. absurd (ground (arith, f)))
          (λ t. refl) in
      subst (Same mem bs) (result_of e h) r
  | taken b p same busy e ↦ subst (Same mem bs) (result_of e h) ((λ t. refl), clean)
  | miss b cs p other good used e ↦
      let r : Same mem bs cs =
        Place-Same mem p clean
          ((λ f. absurd (ground (arith, f))), λ d f v n. absurd (ground (arith, f)))
          (λ t. recycled-shows mem d s t u clean p good) in
      subst (Same mem bs) (result_of e h) r
  | full other used e ↦ absurd (ground (arith, h, e))
]

unlink-All : (P : Buf → Type 0) (i : ℕ) (bs : List Buf) → All P bs → All P (unlink_slot i bs)
unfolding unlink_slot
unlink-All P i [] h = h
unlink-All P i (c ∷ bs) (h, hs) = elim (Bool-cases (c.slot == i)) [
  | inl at ↦ rw at hs
  | inr other ↦ rw other (h, unlink-All P i bs hs)
]

unlink-view :
    (mem : ℕ → Block) (i : ℕ) (bs : List Buf) (t : ℕ) {b : Buf}
    → count (is_for 1 t) bs ≤ 1
    → at_slot? i bs ≡ some b
    → (if is_for 1 t b && b.valid then b.contents else view mem t (unlink_slot i bs))
      ≡ view mem t bs
unfolding unlink_slot at_slot? view count
unlink-view mem i [] t u h = absurd (ground (arith, h))
unlink-view mem i (c ∷ bs) t {b} u h = elim (Bool-cases (c.slot == i)) [
  | inl at ↦ ground (arith, at, h)
  | inr other ↦
      let found : at_slot? i bs ≡ some b = ground (arith, h, other) in
      let few : count (is_for 1 t) bs ≤ 1 = omega (arith, u) in
      let ih = unlink-view mem i bs t {b = b} few found in
      let once : mark (is_for 1 t b) + count (is_for 1 t) (unlink_slot i bs)
          ≡ count (is_for 1 t) bs =
        unlink-count i bs (is_for 1 t) found in
      let apart : (is_for 1 t c && is_for 1 t b) ≡ false = ground (arith, u, once) in
      ground (arith, other, apart, ih)
]

-- brelse of a locked buffer shows every sector as before, if the buffer is true to the disk
-- unless it is dirty, and no sector has two buffers.
brelse-view :
    (mem : ℕ → Block) (i : ℕ) (bs : List Buf) {b : Buf}
    → Unique bs
    → All (Clean mem) bs
    → at_slot? i bs ≡ some b
    → b.busy ≡ true
    → Clean mem (record b { busy = false })
    → (bs' : List Buf) × (brelse i bs ≡ ok bs') × Same mem bs bs'
unfolding brelse view
brelse-view mem i bs {b} u clean here busy honest = (
  record b { busy = false } ∷ unlink_slot i bs,
  ground (arith, here, busy),
  (
    λ t. unlink-view mem i bs t (u 1 t (λ e. omega (arith, e))) here,
    (honest, unlink-All (Clean mem) i bs clean),
  ),
)
