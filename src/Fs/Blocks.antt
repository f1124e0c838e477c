-- ===== src/Fs/Blocks.antt =====
-- fs.c: balloc and bfree on the set of the blocks in use.
use os.Base.{
  ℕ, zero, suc, ◌+◌, ◌-◌, ◌*◌, ◌/◌, ◌%◌, ◌<◌, ◌≤◌, ◌==◌, ltb, ◌≡◌, ◌≢◌, refl, ap, sym, subst,
  ltb→lt, ==_iff, ◌∙◌, not, Bool, true, false, ◌||◌, ◌&&◌, none, some, Result, ok, panic, arith,
  Bool-cases, inl, inr, ◌⊎◌,
}
use os.Fs.Layout.{bpb, Bytes, Disk, Superblock, bblock, put_block, put_byte}
use os.Fs.Bitmap.{bit, set_bit, clear_bit, bzero, free_bit, balloc_from, balloc, bfree}
use os.Fs.BitLaws.{bit-set_bit, bit-clear_bit}

-- The bit of block `b` in the bitmap.
abbrev pub in_use : Superblock → Disk → ℕ → Bool
in_use sb d b = bit (d (bblock b sb.ninodes) (b % bpb / 8)) (b % bpb % 8)

module _ (sb : Superblock) (d : Disk) (b : ℕ) where
  abbrev pub at : ℕ
  at = bblock b sb.ninodes

  abbrev pub marked : Disk
  marked =
      put_block at (put_byte (b % bpb / 8) (set_bit (d at (b % bpb / 8)) (b % bpb % 8)) (d at)) d

  abbrev pub unmarked : Disk
  unmarked =
      put_block at (put_byte (b % bpb / 8) (clear_bit (d at (b % bpb / 8)) (b % bpb % 8)) (d at)) d

  pub in_use-marked : (c : ℕ) → in_use sb marked c ≡ (c == b || in_use sb d c)
  in_use-marked c = ground (
    arith,
    bit-set_bit (d at (b % bpb / 8)) (b % bpb % 8) (omega arith) (c % bpb % 8) (omega arith),
  )

  pub in_use-unmarked : (c : ℕ) → in_use sb unmarked c ≡ (not (c == b) && in_use sb d c)
  in_use-unmarked c = ground (
    arith,
    bit-clear_bit (d at (b % bpb / 8)) (b % bpb % 8) (omega arith) (c % bpb % 8) (omega arith),
  )

-- `r` is the first free bit from `bi` on, among `n`.
record FirstFree (blk : Bytes) (size b bi n r : ℕ) : Type 0 where
  from : bi ≤ r
  to : r < bi + n
  inside : b + r < size
  free : bit (blk (r / 8)) (r % 8) ≡ false
  before : (j : ℕ) → bi ≤ j → j < r → bit (blk (j / 8)) (j % 8) ≡ true

free_bit_cases :
    (blk : Bytes) (size b bi n : ℕ)
    → ((r : ℕ) × (free_bit blk size b bi n ≡ some r) × FirstFree blk size b bi n r)
      ⊎ ((free_bit blk size b bi n ≡ none)
          × ((j : ℕ) → bi ≤ j → j < bi + n → b + j < size → bit (blk (j / 8)) (j % 8) ≡ true))
unfolding free_bit
free_bit_cases blk size b bi zero = inr (refl, λ j l h s. absurd (omega arith))
free_bit_cases blk size b bi (suc n) = elim (Bool-cases (ltb (b + bi) size)) [
  | inr out ↦ inr (ground (arith, out), λ j l h s. absurd (ground (arith, out)))
  | inl inside ↦ elim (Bool-cases (bit (blk (bi / 8)) (bi % 8))) [
    | inr free ↦ inl (
      bi,
      ground (arith, inside, free),
      record {
        from = omega arith;
        to = omega arith;
        inside = ground (arith, inside);
        free = free;
        before = λ j l h. absurd (omega arith);
      },
    )
    | inl used ↦ elim (free_bit_cases blk size b (bi + 1) n) [
      | inl (r, e, f) ↦ inl (
        r,
        ground (arith, inside, used, e),
        record {
          from = omega (arith, f.from);
          to = omega (arith, f.to);
          inside = f.inside;
          free = f.free;
          before = λ j l h. elim (Bool-cases (j == bi)) [
            | inl same ↦ ground (arith, same, used)
            | inr other ↦ f.before j (ground (arith, other)) h
          ];
        },
      )
      | inr (e, all) ↦ inr (
        ground (arith, inside, used, e),
        λ j l h s. elim (Bool-cases (j == bi)) [
          | inl same ↦ ground (arith, same, used)
          | inr other ↦ all j (ground (arith, other)) (omega arith) s
        ],
      )
    ]
  ]
]

-- `out` is what balloc does to the disk `d`: the first block that is free is marked and zeroed, or
-- all blocks are in use.
abbrev pub Allocated : Superblock → Disk → Result (ℕ × Disk) → Type 0
Allocated sb d out =
    ((b : ℕ) × (out ≡ ok (b, bzero b (marked sb d b)))
      × (b < sb.size)
      × (in_use sb d b ≡ false)
      × ((c : ℕ) → c < b → in_use sb d c ≡ true))
    ⊎ ((out ≡ panic "balloc: out of blocks") × ((c : ℕ) → c < sb.size → in_use sb d c ≡ true))

in_block :
    (sb : Superblock) (d : Disk) (q j : ℕ)
    → j < bpb
    → in_use sb d (q * bpb + j) ≡ bit (d (bblock (q * bpb) sb.ninodes) (j / 8)) (j % 8)
in_block sb d q j h =
    let same_block : (q * bpb + j) / bpb ≡ q * bpb / bpb = omega arith in
    let place : (q * bpb + j) % bpb ≡ j = omega arith in rw (same_block, place) refl

ltb→le : (a b : ℕ) → ltb a b ≡ false → b ≤ a
ltb→le a b h = ground (arith, h)

-- Entry `c` at or behind the block of bits that starts at `q * bpb`.
in_block_at :
    (sb : Superblock) (d : Disk) (q c : ℕ)
    → q * bpb ≤ c
    → c < q * bpb + bpb
    → in_use sb d c ≡ bit (d (bblock (q * bpb) sb.ninodes) ((c - q * bpb) / 8)) ((c - q * bpb) % 8)
in_block_at sb d q c l h =
    let split : q * bpb + (c - q * bpb) ≡ c = omega arith in
    ap (in_use sb d) (sym split) ∙ in_block sb d q (c - q * bpb) (omega arith)

balloc_from_hit :
    (n b r : ℕ) (sb : Superblock) (d : Disk)
    → b < sb.size
    → free_bit (d (bblock b sb.ninodes)) sb.size b 0 bpb ≡ some r
    → balloc_from (suc n) b sb d
      ≡ ok (
        b + r,
        bzero (b + r) (
            put_block
              (bblock b sb.ninodes)
              (put_byte
                (r / 8)
                (set_bit (d (bblock b sb.ninodes) (r / 8)) (r % 8))
                (d (bblock b sb.ninodes)))
              d),
      )
unfolding balloc_from
balloc_from_hit n b r sb d inside e = ground (arith, e)

balloc_from_miss :
    (n b : ℕ) (sb : Superblock) (d : Disk)
    → b < sb.size
    → free_bit (d (bblock b sb.ninodes)) sb.size b 0 bpb ≡ none
    → balloc_from (suc n) b sb d ≡ balloc_from n (b + bpb) sb d
unfolding balloc_from
balloc_from_miss n b sb d inside e = ground (arith, e)

balloc_from_end :
    (n b : ℕ) (sb : Superblock) (d : Disk)
    → ltb b sb.size ≡ false
    → balloc_from n b sb d ≡ panic "balloc: out of blocks"
unfolding balloc_from
balloc_from_end zero b sb d out = refl
balloc_from_end (suc n) b sb d out = ground (arith, out)

balloc_from-Allocated :
    (n q : ℕ) (sb : Superblock) (d : Disk)
    → sb.size < (q + n) * bpb
    → ((c : ℕ) → c < q * bpb → c < sb.size → in_use sb d c ≡ true)
    → Allocated sb d (balloc_from n (q * bpb) sb d)
unfolding balloc_from
balloc_from-Allocated zero q sb d fuel before = inr (refl, λ c h. before c (omega arith) h)
balloc_from-Allocated (suc n) q sb d fuel before = elim (Bool-cases (ltb (q * bpb) sb.size)) [
  | inr out ↦
      let past : sb.size ≤ q * bpb = ltb→le (q * bpb) sb.size out in
      inr (balloc_from_end (suc n) (q * bpb) sb d out, λ c h. before c (omega (arith, past)) h)
  | inl test ↦
      let inside : q * bpb < sb.size = ltb→lt (q * bpb) sb.size test in
      elim (free_bit_cases (d (bblock (q * bpb) sb.ninodes)) sb.size (q * bpb) 0 bpb) [
        | inl (r, e, f) ↦
            let place : (q * bpb + r) % bpb ≡ r = omega (arith, f.to) in
            let same_block : (q * bpb + r) / bpb ≡ q * bpb / bpb = omega (arith, f.to) in
            inl (
              q * bpb + r,
              balloc_from_hit n (q * bpb) r sb d inside e ∙ rw (same_block, place) refl,
              f.inside,
              in_block sb d q r (omega (arith, f.to)) ∙ f.free,
              λ c h. elim (Bool-cases (ltb c (q * bpb))) [
                | inl old ↦ before c (ltb→lt c (q * bpb) old) (omega (arith, f.inside))
                | inr new ↦
                    in_block_at sb d q c (ltb→le c (q * bpb) new) (omega (arith, f.to))
                    ∙ f.before (c - q * bpb) (omega arith) (omega (arith, ltb→le c (q * bpb) new))
              ],
            )
        | inr (e, all) ↦
            let next : q * bpb + bpb ≡ (q + 1) * bpb = omega arith in
            let rest = balloc_from-Allocated n (q + 1) sb d (omega arith) (λ c l h.
              elim (Bool-cases (ltb c (q * bpb))) [
                | inl old ↦ before c (ltb→lt c (q * bpb) old) h
                | inr new ↦
                    in_block_at sb d q c (ltb→le c (q * bpb) new) (omega arith)
                    ∙ all (c - q * bpb) (omega arith) (omega (arith, ltb→le c (q * bpb) new))
                        (omega (arith, ltb→le c (q * bpb) new))
              ]) in
            subst (Allocated sb d)
              (sym
                (balloc_from_miss n (q * bpb) sb d inside e ∙ ap (λ b. balloc_from n b sb d) next))
              rest
      ]
]

-- balloc finds the first block whose bit is clear, marks it in the bitmap and fills it with zeros;
-- it panics exactly when every block of the disk is in use.
pub balloc-Allocated : (sb : Superblock) (d : Disk) → Allocated sb d (balloc sb d)
unfolding balloc
balloc-Allocated sb d =
    let start : 0 * bpb ≡ 0 = omega arith in
    subst (λ b. Allocated sb d (balloc_from (sb.size / bpb + 1) b sb d)) start
      (balloc_from-Allocated (sb.size / bpb + 1) 0 sb d (omega arith)
        (λ c l h. absurd (omega arith)))

-- Filling a block with zeros touches no bit that stands elsewhere.
in_use-bzero :
    (sb : Superblock) (d : Disk) (b c : ℕ)
    → b ≢ bblock c sb.ninodes
    → in_use sb (bzero b d) c ≡ in_use sb d c
unfolding bzero
in_use-bzero sb d b c h =
    let other : (bblock c sb.ninodes == b) ≡ false = ground arith in rw other refl

-- bfree of a block in use clears its bit and no other; of a free block it panics.
pub bfree_lem :
    (b : ℕ) (sb : Superblock) (d : Disk)
    → ((in_use sb d b ≡ true)
        × (bfree b sb d ≡ ok (unmarked sb d b))
        × ((c : ℕ) → in_use sb (unmarked sb d b) c ≡ (not (c == b) && in_use sb d c)))
      ⊎ ((in_use sb d b ≡ false) × (bfree b sb d ≡ panic "freeing free block"))
unfolding bfree
bfree_lem b sb d = elim (Bool-cases (in_use sb d b)) [
  | inl used ↦ inl (used, rw used refl, in_use-unmarked sb d b)
  | inr free ↦ inr (free, rw free refl)
]

-- A block that balloc returns was free, and bfree gives it back: the bitmap then says of every
-- block of the disk what it said before. The condition is that the block holds no part of the
-- bitmap.
pub bfree-balloc :
    (sb : Superblock) (d d' : Disk) (b : ℕ)
    → balloc sb d ≡ ok (b, d')
    → ((c : ℕ) → c < sb.size → b ≢ bblock c sb.ninodes)
    → (in_use sb d b ≡ false)
      × ((c : ℕ) → c < sb.size → in_use sb d' c ≡ (c == b || in_use sb d c))
      × ((d'' : Disk) × (bfree b sb d' ≡ ok d'')
          × ((c : ℕ) → c < sb.size → in_use sb d'' c ≡ in_use sb d c))
bfree-balloc sb d d' b h apart = elim (balloc-Allocated sb d) [
  | inr (e, all) ↦ absurd (ground (arith, h, e))
  | inl (b1, e, inside, free, before) ↦
      let same : b1 ≡ b = ground (arith, h, e) in
      let now : bzero b1 (marked sb d b1) ≡ d' = ground (arith, h, e) in
      let was_free : in_use sb d b ≡ false = subst (λ k. in_use sb d k ≡ false) same free in
      let bits : (c : ℕ) → c < sb.size → in_use sb d' c ≡ (c == b || in_use sb d c) = λ c l.
        subst (λ k. in_use sb k c ≡ (c == b || in_use sb d c)) now
          (subst (λ k. in_use sb (bzero k (marked sb d k)) c ≡ (c == b || in_use sb d c)) (sym same)
            (in_use-bzero sb (marked sb d b) b c (apart c l) ∙ in_use-marked sb d b c)) in
      let held : in_use sb d' b ≡ true =
        bits b (subst (λ k. k < sb.size) same inside)
        ∙ ap (λ q. q || in_use sb d b) ((==_iff b b).1 refl) in
      (
        was_free,
        bits,
        elim (bfree_lem b sb d') [
          | inr (no_bit, _) ↦ absurd (ground (arith, held, no_bit))
          | inl (_, freed, after) ↦ (
            unmarked sb d' b,
            freed,
            λ c l.
                after c
                ∙ restored (c == b) (in_use sb d' c) (in_use sb d c) (bits c l)
                    (λ q. ap (in_use sb d) ((==_iff c b).0 q) ∙ was_free),
          )
        ],
      )
]
  where
    restored : (same x y : Bool) → x ≡ (same || y) → (same ≡ true → y ≡ false) → (not same && x) ≡ y
    restored true x y e free = sym (free refl)
    restored false x y e free = e
