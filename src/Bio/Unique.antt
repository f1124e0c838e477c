-- ===== src/Bio/Unique.antt =====
-- bio.c: a sector has one buffer.
use os.Base.{
  ℕ, ◌+◌, ◌≤◌, ◌==◌, ◌≡◌, ◌≢◌, refl, ap, Bool, false, ◌&&◌, if◌then◌else◌, inl, inr, some, List, [],
  ◌∷◌, ◌++◌, ok, arith, Bool-cases, Option-cases, All,
}
use os.Bio.Defs.{Buf, Get, no_dev, is_for, recycled, bget, at_slot?, unlink_slot, brelse}
use os.Bio.Get.{Place, hit, taken, miss, full, bget-Found}

abbrev pub mark : Bool → ℕ
mark b = if b then 1 else 0

unfoldable pub count : (Buf → Bool) → List Buf → ℕ
count f [] = 0
count f (b ∷ bs) = mark (f b) + count f bs

-- No sector of a device has two buffers.
abbrev pub Unique : List Buf → Type 0
Unique bs = (dev sector : ℕ) → dev ≢ no_dev → count (is_for dev sector) bs ≤ 1

pub count-append :
    (f : Buf → Bool) (xs ys : List Buf) → count f (xs ++ ys) ≡ count f xs + count f ys
unfolding count
count-append f [] ys = omega arith
count-append f (x ∷ xs) ys = omega (arith, count-append f xs ys)

pub count_none : (f : Buf → Bool) (bs : List Buf) → All (λ b. f b ≡ false) bs → count f bs ≡ 0
unfolding count
count_none f [] h = refl
count_none f (b ∷ bs) (h, hs) = ground (arith, h, count_none f bs hs)

-- Another buffer in one place changes the count by that place alone.
pub count-Place :
    {bs bs' : List Buf} {b b' : Buf} (f : Buf → Bool)
    → Place bs b b' bs'
    → count f bs' + mark (f b) ≡ count f bs + mark (f b')
unfolding count
count-Place {bs} {bs'} {b} {b'} f p = omega (
  arith,
  ap (count f) p.before,
  ap (count f) p.after,
  count-append f p.front (b ∷ p.back),
  count-append f p.front (b' ∷ p.back),
)

-- bget keeps the cache without duplicates: if no sector has two buffers before it, none has after
-- it, whether it finds the sector, sleeps, or recycles a buffer.
pub bget-Unique :
    (d s : ℕ) (bs bs' : List Buf) (g : Get) → Unique bs → bget d s bs ≡ ok (g, bs') → Unique bs'
bget-Unique d s bs bs' g u h d1 s1 real = elim (bget-Found d s bs) [
  | hit b cs p same free e ↦
      let only : count (is_for d1 s1) cs ≤ 1 =
        omega (arith, u d1 s1 real, count-Place (is_for d1 s1) p) in
      ground (arith, h, e)
  | taken b p same busy e ↦ ground (arith, h, e, u d1 s1 real)
  | miss b cs p other good used e ↦
      let only : count (is_for d1 s1) cs ≤ 1 = elim (Bool-cases (d == d1 && s == s1)) [
        | inr differ ↦
            let m : mark (is_for d1 s1 (recycled d s b)) ≡ 0 = ground (arith, differ) in
            omega (arith, u d1 s1 real, count-Place (is_for d1 s1) p, m)
        | inl same ↦
            let z : count (is_for d1 s1) bs ≡ 0 =
              ground (arith, same, count_none (is_for d s) bs other) in
            ground (arith, count-Place (is_for d1 s1) p, z)
      ] in
      ground (arith, h, e)
  | full other used e ↦ absurd (ground (arith, h, e))
]

-- Releasing a buffer moves it to the front of the list and changes no count.
pub unlink-count :
    (i : ℕ) (bs : List Buf) (f : Buf → Bool) {b : Buf}
    → at_slot? i bs ≡ some b
    → mark (f b) + count f (unlink_slot i bs) ≡ count f bs
unfolding at_slot? unlink_slot count
unlink-count i [] f h = absurd (ground (arith, h))
unlink-count i (c ∷ bs) f {b} h = elim (Bool-cases (c.slot == i)) [
  | inl here ↦ ground (arith, h, here)
  | inr there ↦
      let found : at_slot? i bs ≡ some b = ground (arith, h, there) in
      ground (arith, there, unlink-count i bs f found)
]

-- brelse keeps the cache without duplicates.
pub brelse-Unique : (i : ℕ) (bs bs' : List Buf) → Unique bs → brelse i bs ≡ ok bs' → Unique bs'
unfolding brelse count
brelse-Unique i bs bs' u h d s real = elim (Option-cases (at_slot? i bs)) [
  | inl e ↦ absurd (ground (arith, h, e))
  | inr (b, e) ↦ elim (Bool-cases b.busy) [
    | inl busy ↦
        let n : count (is_for d s) (record b { busy = false } ∷ unlink_slot i bs) ≤ 1 =
          omega (arith, u d s real, unlink-count i bs (is_for d s) e) in
        ground (arith, h, e, busy)
    | inr free ↦ absurd (ground (arith, h, e, free))
  ]
]
