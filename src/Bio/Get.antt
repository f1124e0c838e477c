-- ===== src/Bio/Get.antt =====
-- bio.c: what bget finds.
use os.Base.{
  ℕ, ◌≡◌, refl, ap, true, false, inl, inr, ◌⊎◌, none, some, List, [], ◌∷◌, ◌++◌, ok, panic, arith,
  Bool-cases, All,
}
use os.Bio.Defs.{
  Buf, is_for, recyclable, recycled, gets, sleeps_on, cached_from, recycle_from, bget,
}

-- The sector of `b` is another one than the sector `s` of `d`.
abbrev pub Elsewhere : ℕ → ℕ → Buf → Type 0
Elsewhere d s b = is_for d s b ≡ false

abbrev pub InUse : Buf → Type 0
InUse b = recyclable b ≡ false

abbrev pub locked : Buf → Buf
locked b = record b { busy = true }

cached_cases :
    (d s : ℕ) (bs : List Buf)
    → ((cached_from d s bs ≡ none) × All (Elsewhere d s) bs)
      ⊎ ((b : Buf) × (xs : List Buf) × (ys : List Buf) × (bs ≡ xs ++ (b ∷ ys))
          × (is_for d s b ≡ true)
          × (((b.busy ≡ true) × (cached_from d s bs ≡ some (sleeps_on b.slot, bs)))
              ⊎ ((b.busy ≡ false)
                  × (cached_from d s bs ≡ some (gets b.slot, xs ++ (locked b ∷ ys))))))
unfolding cached_from
cached_cases d s [] = inl (refl, tt)
cached_cases d s (b ∷ bs) = elim (Bool-cases (is_for d s b)) [
  | inl same ↦ elim (Bool-cases b.busy) [
    | inl taken ↦ inr (b, [], bs, refl, same, inl (taken, ground (arith, same, taken)))
    | inr free ↦ inr (b, [], bs, refl, same, inr (free, ground (arith, same, free)))
  ]
  | inr other ↦ elim (cached_cases d s bs) [
    | inl (e, all) ↦ inl (ground (arith, other, e), (other, all))
    | inr (c, xs, ys, split, same, inl (taken, e)) ↦
        inr (c, b ∷ xs, ys, ap (λ l. b ∷ l) split, same, inl (taken, ground (arith, other, e)))
    | inr (c, xs, ys, split, same, inr (free, e)) ↦
        inr (c, b ∷ xs, ys, ap (λ l. b ∷ l) split, same, inr (free, ground (arith, other, e)))
  ]
]

recycle_cases :
    (d s : ℕ) (bs : List Buf)
    → ((recycle_from d s bs ≡ none) × All InUse bs)
      ⊎ ((b : Buf) × (xs : List Buf) × (ys : List Buf) × (bs ≡ xs ++ (b ∷ ys))
          × (recyclable b ≡ true)
          × All InUse ys
          × (recycle_from d s bs ≡ some (b.slot, xs ++ (recycled d s b ∷ ys))))
unfolding recycle_from
recycle_cases d s [] = inl (refl, tt)
recycle_cases d s (b ∷ bs) = elim (recycle_cases d s bs) [
  | inl (e, all) ↦ elim (Bool-cases (recyclable b)) [
    | inl good ↦ inr (b, [], bs, refl, good, all, ground (arith, e, good))
    | inr bad ↦ inl (ground (arith, e, bad), (bad, all))
  ]
  | inr (c, xs, ys, split, good, all, e) ↦
      inr (c, b ∷ xs, ys, ap (λ l. b ∷ l) split, good, all, ground (arith, e))
]

-- The buffer `b` at its place in the list, and the list with `b'` in that place.
pub record Place (bs : List Buf) (b b' : Buf) (bs' : List Buf) : Type 0 where
  pub front : List Buf
  pub back : List Buf
  pub before : bs ≡ front ++ (b ∷ back)
  pub after : bs' ≡ front ++ (b' ∷ back)

-- What a round of bget can do.
pub data Found (d s : ℕ) (bs : List Buf) : Type 0 where
  hit :
      (b : Buf) (bs' : List Buf)
      → Place bs b (locked b) bs'
      → is_for d s b ≡ true
      → b.busy ≡ false
      → bget d s bs ≡ ok (gets b.slot, bs')
      → Found d s bs
  taken :
      (b : Buf)
      → Place bs b b bs
      → is_for d s b ≡ true
      → b.busy ≡ true
      → bget d s bs ≡ ok (sleeps_on b.slot, bs)
      → Found d s bs
  miss :
      (b : Buf) (bs' : List Buf) (p : Place bs b (recycled d s b) bs')
      → All (Elsewhere d s) bs
      → recyclable b ≡ true
      → All InUse p.back
      → bget d s bs ≡ ok (gets b.slot, bs')
      → Found d s bs
  full :
      All (Elsewhere d s) bs → All InUse bs → bget d s bs ≡ panic "bget: no buffers" → Found d s bs

-- A round of bget either locks the free buffer of the sector, or sleeps on its buffer if that is
-- busy, or, when the sector has no buffer, takes the last buffer of the list that is neither busy
-- nor dirty; it panics only when the sector has no buffer and all buffers are busy or dirty.
pub bget-Found : (d s : ℕ) (bs : List Buf) → Found d s bs
unfolding bget
bget-Found d s bs = elim (cached_cases d s bs) [
  | inr (b, xs, ys, split, same, inl (busy, e)) ↦
      taken b (record { front = xs; back = ys; before = split; after = split }) same busy
        (ground (arith, e))
  | inr (b, xs, ys, split, same, inr (free, e)) ↦
      hit b (xs ++ (locked b ∷ ys)) (record { front = xs; back = ys; before = split; after = refl })
        same free (ground (arith, e))
  | inl (none_here, other) ↦ elim (recycle_cases d s bs) [
    | inl (e, all) ↦ full other all (ground (arith, none_here, e))
    | inr (b, xs, ys, split, good, all, e) ↦
        miss b (xs ++ (recycled d s b ∷ ys))
          (record { front = xs; back = ys; before = split; after = refl }) other good all
          (ground (arith, none_here, e))
  ]
]
