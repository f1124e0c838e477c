-- ===== src/Bio/Read.antt =====
-- bio.c: what bread reads.
use os.Base.{
  ℕ, ◌≤◌, ◌<◌, ◌==◌, ◌≡◌, refl, sym, ap, subst, ◌∙◌, Bool, true, false, if◌then◌else◌, inl, inr,
  some, List, [], ◌∷◌, ◌++◌, ok, arith, Bool-cases, All,
}
use os.Log.Disk.{Block}
use os.Bio.Defs.{
  Buf, Get, Device, is_for, recycled, gets, bget, at_slot?, put_slot, iderw, fill, bread,
}
use os.Bio.Get.{hit, taken, miss, full, bget-Found, locked}
use os.Bio.Unique.{count, count-append, count-Place, Unique, bget-Unique}
use os.Bio.View.{view, Clean, Place-Clean, view_none, result_of, bget-view}

abbrev pub is_at : ℕ → Buf → Bool
is_at i b = b.slot == i

-- No two buffers stand at one place of the array.
abbrev pub Slots : List Buf → Type 0
Slots bs = (i : ℕ) → count (is_at i) bs ≤ 1

at_slot?-append :
    (xs : List Buf) (b : Buf) (ys : List Buf)
    → count (is_at b.slot) (xs ++ (b ∷ ys)) ≤ 1
    → at_slot? b.slot (xs ++ (b ∷ ys)) ≡ some b
unfolding at_slot? count
at_slot?-append [] b ys h = ground arith
at_slot?-append (x ∷ xs) b ys h =
    let one : 1 ≤ count (is_at b.slot) (xs ++ (b ∷ ys)) =
      ground (arith, count-append (is_at b.slot) xs (b ∷ ys)) in
    let other : (x.slot == b.slot) ≡ false = ground (arith, h, one) in
    let rest : at_slot? b.slot (xs ++ (b ∷ ys)) ≡ some b =
      at_slot?-append xs b ys (omega (arith, h)) in
    ground (arith, other, rest)

put_slot-append :
    (xs : List Buf) (b c : Buf) (ys : List Buf)
    → c.slot ≡ b.slot
    → count (is_at b.slot) (xs ++ (b ∷ ys)) ≤ 1
    → put_slot c (xs ++ (b ∷ ys)) ≡ xs ++ (c ∷ ys)
unfolding put_slot count
put_slot-append [] b c ys e h = ground (arith, e)
put_slot-append (x ∷ xs) b c ys e h =
    let one : 1 ≤ count (is_at b.slot) (xs ++ (b ∷ ys)) =
      ground (arith, count-append (is_at b.slot) xs (b ∷ ys)) in
    let other : (x.slot == c.slot) ≡ false = ground (arith, h, one, e) in
    let rest : put_slot c (xs ++ (b ∷ ys)) ≡ xs ++ (c ∷ ys) =
      put_slot-append xs b c ys e (omega (arith, h)) in
    ground (arith, other, rest)

-- The list has, at one place, the buffer `b` of sector `s` of disk 1, locked by the caller.
pub record Holds (s : ℕ) (i : ℕ) (bs : List Buf) : Type 0 where
  pub buf : Buf
  pub front : List Buf
  pub back : List Buf
  pub split : bs ≡ front ++ (buf ∷ back)
  pub slot : buf.slot ≡ i
  pub busy : buf.busy ≡ true
  pub sector : is_for 1 s buf ≡ true
  pub pinned : buf.dirty ≡ true → buf.valid ≡ true

view_alone :
    (mem : ℕ → Block) (s : ℕ) (xs : List Buf) (b : Buf) (ys : List Buf)
    → is_for 1 s b ≡ true
    → count (is_for 1 s) (xs ++ (b ∷ ys)) ≤ 1
    → view mem s (xs ++ (b ∷ ys)) ≡ (if b.valid then b.contents else mem s)
unfolding view count
view_alone mem s [] b ys here few =
    let none_left : view mem s ys ≡ mem s = view_none mem s ys (ground (arith, few, here)) in
    ground (arith, here, none_left)
view_alone mem s (x ∷ xs) b ys here few =
    let one : 1 ≤ count (is_for 1 s) (xs ++ (b ∷ ys)) =
      ground (arith, here, count-append (is_for 1 s) xs (b ∷ ys)) in
    let other : is_for 1 s x ≡ false = ground (arith, few, one) in
    let rest : view mem s (xs ++ (b ∷ ys)) ≡ (if b.valid then b.contents else mem s) =
      view_alone mem s xs b ys here (omega (arith, few)) in
    rw other rest

bget-Holds :
    (mem : ℕ → Block) (s i : ℕ) (bs bs' : List Buf)
    → All (Clean mem) bs
    → bget 1 s bs ≡ ok (gets i, bs')
    → Holds s i bs'
bget-Holds mem s i bs bs' clean h = elim (bget-Found 1 s bs) [
  | hit b cs p same free e ↦ record {
    buf = locked b;
    front = p.front;
    back = p.back;
    split = sym (result_of e h) ∙ p.after;
    slot = ground (arith, e, h);
    busy = refl;
    sector = same;
    pinned = (Place-Clean mem p clean).0;
  }
  | taken b p same busy e ↦ absurd (ground (arith, e, h))
  | miss b cs p other good used e ↦ record {
    buf = recycled 1 s b;
    front = p.front;
    back = p.back;
    split = sym (result_of e h) ∙ p.after;
    slot = ground (arith, e, h);
    busy = refl;
    sector = ground arith;
    pinned = λ f. absurd (ground (arith, f));
  }
  | full other used e ↦ absurd (ground (arith, h, e))
]

bget-Slots :
    (d s : ℕ) (bs bs' : List Buf) (g : Get) → Slots bs → bget d s bs ≡ ok (g, bs') → Slots bs'
bget-Slots d s bs bs' g slots h i = elim (bget-Found d s bs) [
  | hit b cs p same free e ↦
      let n : count (is_at i) cs ≤ 1 = omega (arith, slots i, count-Place (is_at i) p) in
      subst (λ l. count (is_at i) l ≤ 1) (result_of e h) n
  | taken b p same busy e ↦ subst (λ l. count (is_at i) l ≤ 1) (result_of e h) (slots i)
  | miss b cs p other good used e ↦
      let n : count (is_at i) cs ≤ 1 = omega (arith, slots i, count-Place (is_at i) p) in
      subst (λ l. count (is_at i) l ≤ 1) (result_of e h) n
  | full other used e ↦ absurd (ground (arith, h, e))
]

-- What bread returns: the buffer at the slot is locked, valid, and holds `x`.
abbrev pub Reads : ℕ → ℕ → List Buf → Block → Type 0
Reads s i bs x =
    (c : Buf) × (at_slot? i bs ≡ some c)
    × (is_for 1 s c ≡ true)
    × (c.busy ≡ true)
    × (c.valid ≡ true)
    × (c.contents ≡ x)

fill_reads :
    (i : ℕ) (bs bs' : List Buf) (d : Device) {b c : Buf}
    → at_slot? i bs ≡ some b
    → b.valid ≡ false
    → iderw b d ≡ ok (c, d)
    → put_slot c bs ≡ bs'
    → fill i bs d ≡ ok (bs', d)
unfolding fill
fill_reads i bs bs' d at invalid read put = ground (arith, at, invalid, read, put)

fill-Reads :
    (s : ℕ) (d : Device) (xs : List Buf) (b : Buf) (ys : List Buf)
    → count (is_at b.slot) (xs ++ (b ∷ ys)) ≤ 1
    → s < d.disksize
    → b.busy ≡ true
    → is_for 1 s b ≡ true
    → (b.dirty ≡ true → b.valid ≡ true)
    → (bs' : List Buf) × (fill b.slot (xs ++ (b ∷ ys)) d ≡ ok (bs', d))
      × Reads s b.slot bs' (if b.valid then b.contents else d.memdisk s)
unfolding fill iderw count
fill-Reads s d xs b ys once lt busy here pinned = elim (Bool-cases b.valid) [
  | inl valid ↦
      let at = at_slot?-append xs b ys once in
      (xs ++ (b ∷ ys), ground (arith, at, valid), (b, at, here, busy, valid, ground (arith, valid)))
  | inr invalid ↦
      let at = at_slot?-append xs b ys once in
      let c : Buf = record b { contents = d.memdisk b.sector; valid = true } in
      let clean : b.dirty ≡ false = ground (arith, invalid, pinned) in
      let once' : count (is_at b.slot) (xs ++ (c ∷ ys)) ≤ 1 = omega (
        arith,
        once,
        count-append (is_at b.slot) xs (b ∷ ys),
        count-append (is_at b.slot) xs (c ∷ ys),
      ) in
      let read : iderw b d ≡ ok (c, d) = ground (arith, busy, invalid, here, clean, lt) in
      let at_sector : b.sector ≡ s = ground (arith, here) in
      let put : put_slot c (xs ++ (b ∷ ys)) ≡ xs ++ (c ∷ ys) =
        put_slot-append xs b c ys refl once in
      (
        xs ++ (c ∷ ys),
        fill_reads b.slot (xs ++ (b ∷ ys)) (xs ++ (c ∷ ys)) d at invalid read put,
        (c, at_slot?-append xs c ys once', here, busy, refl, rw invalid (ap d.memdisk at_sector)),
      )
]

-- bread gives what the cache shows of the sector, as the log assumes: when bget comes to a
-- buffer, bread does not panic, leaves the disk alone, and returns that buffer locked, valid and
-- with the newest contents of the sector. The conditions: the sector is on disk 1, no sector has
-- two buffers, no place of the array has two, and clean buffers are true to the disk.
pub bread-Reads :
    (s i : ℕ) (bs bs' : List Buf) (d : Device)
    → Unique bs
    → Slots bs
    → All (Clean d.memdisk) bs
    → s < d.disksize
    → bget 1 s bs ≡ ok (gets i, bs')
    → (bs'' : List Buf) × (bread 1 s bs d ≡ ok (gets i, bs'', d))
      × Reads s i bs'' (view d.memdisk s bs)
unfolding bread
bread-Reads s i bs bs' d u slots clean lt h =
    let g = bget-Holds d.memdisk s i bs bs' clean h in
    let place : List Buf = g.front ++ (g.buf ∷ g.back) in
    let once : count (is_at g.buf.slot) place ≤ 1 =
      subst (λ l. count (is_at g.buf.slot) l ≤ 1) g.split
        (bget-Slots 1 s bs bs' (gets i) slots h g.buf.slot) in
    let few : count (is_for 1 s) place ≤ 1 =
      subst (λ l. count (is_for 1 s) l ≤ 1) g.split
        (bget-Unique 1 s bs bs' (gets i) u h 1 s (λ e. omega (arith, e))) in
    let shows : (if g.buf.valid then g.buf.contents else d.memdisk s) ≡ view d.memdisk s bs =
      sym (view_alone d.memdisk s g.front g.buf g.back g.sector few)
      ∙ ap (view d.memdisk s) (sym g.split)
      ∙ (bget-view d.memdisk 1 s bs bs' (gets i) u clean h).0 s in
    let (bs'', e, r) = fill-Reads s d g.front g.buf g.back once lt g.busy g.sector g.pinned in
    let e' : fill i bs' d ≡ ok (bs'', d) =
      subst (λ j. fill j bs' d ≡ ok (bs'', d)) g.slot
        (subst (λ l. fill g.buf.slot l d ≡ ok (bs'', d)) (sym g.split) e) in
    (
      bs'',
      ground (arith, h, e'),
      subst (λ j. Reads s j bs'' (view d.memdisk s bs)) g.slot
          (subst (Reads s g.buf.slot bs'') shows r),
    )
