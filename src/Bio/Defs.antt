-- ===== src/Bio/Defs.antt =====
-- bio.c, and iderw of memide.c. The circular list of the buffers is the list of them from
-- `bcache.head.next` on; a buffer's address is its place `slot` in `bcache.buf`.
use os.Base.{
  ℕ, ◌+◌, ◌*◌, ◌-◌, ◌^◌, ◌==◌, leb, not, Bool, true, false, ◌&&◌, if◌then◌else◌, List, [], ◌∷◌,
  Option, none, some, Result, ok, panic, deref, ◌>>=◌, zero, suc,
}
use os.Log.Disk.{Block}
use os.Log.Defs.{max_op_blocks}

abbrev pub nbuf : ℕ
nbuf = max_op_blocks * 3

-- `b->dev = -1` in an unsigned field: no device.
abbrev pub no_dev : ℕ
no_dev = 2 ^ 32 - 1

-- `struct buf`, with the bits of `flags` apart.
pub record Buf : Type 0 where
  pub slot : ℕ
  pub busy : Bool
  pub valid : Bool
  pub dirty : Bool
  pub dev : ℕ
  pub sector : ℕ
  pub contents : Block

-- `memdisk` and `disksize` of memide.c.
pub record Device : Type 0 where
  pub memdisk : ℕ → Block
  pub disksize : ℕ

abbrev pub is_for : ℕ → ℕ → Buf → Bool
is_for dev sector b = b.dev == dev && b.sector == sector

-- The loop of binit, with `n` buffers left: each goes to the front.
unfoldable pub binit_from : ℕ → ℕ → List Buf → List Buf
binit_from zero i bs = bs
binit_from (suc n) i bs = binit_from n (i + 1) (
    record {
      slot = i;
      busy = false;
      valid = false;
      dirty = false;
      dev = no_dev;
      sector = 0;
      contents = [];
    }
    ∷ bs)

unfoldable pub binit : List Buf
unfolding binit_from
binit = binit_from nbuf 0 []

-- One round of bget: it has a buffer, or sleeps on one and starts again.
pub data Get : Type 0 where
  gets : ℕ → Get
  sleeps_on : ℕ → Get

-- The first loop: is the sector cached?
unfoldable pub cached_from : ℕ → ℕ → List Buf → Option (Get × List Buf)
cached_from dev sector [] = none
cached_from dev sector (b ∷ bs) =
    let rest = cached_from dev sector bs in
    if is_for dev sector b
    then (if b.busy
        then some (sleeps_on b.slot, b ∷ bs)
        else some (gets b.slot, record b { busy = true } ∷ bs))
    else elim rest [ none ↦ none | some (g, bs') ↦ some (g, b ∷ bs') ]

abbrev pub recyclable : Buf → Bool
recyclable b = not b.busy && not b.dirty

abbrev pub recycled : ℕ → ℕ → Buf → Buf
recycled dev sector b = record b {
  dev = dev;
  sector = sector;
  busy = true;
  valid = false;
  dirty = false;
}

-- The second loop, from the back of the list on.
unfoldable pub recycle_from : ℕ → ℕ → List Buf → Option (ℕ × List Buf)
recycle_from dev sector [] = none
recycle_from dev sector (b ∷ bs) = elim (recycle_from dev sector bs) [
  | some (i, bs') ↦ some (i, b ∷ bs')
  | none ↦ if recyclable b then some (b.slot, recycled dev sector b ∷ bs) else none
]

unfoldable pub bget : ℕ → ℕ → List Buf → Result (Get × List Buf)
unfolding cached_from recycle_from
bget dev sector bs = elim (cached_from dev sector bs) [
  | some r ↦ ok r
  | none ↦ elim (recycle_from dev sector bs) [
    | some (i, bs') ↦ ok (gets i, bs')
    | none ↦ panic "bget: no buffers"
  ]
]

-- What a copy between the buffer and the disk leaves in the buffer, and on the disk.
unfoldable pub iderw : Buf → Device → Result (Buf × Device)
iderw b d =
    if not b.busy
    then panic "iderw: buf not busy"
    else if b.valid && not b.dirty
    then panic "iderw: nothing to do"
    else if not (b.dev == 1)
    then panic "iderw: request not for disk 1"
    else if leb d.disksize b.sector
    then panic "iderw: sector out of range"
    else if b.dirty
    then ok (
      record b { dirty = false; valid = true },
      record d { memdisk = λ s. if b.sector == s then b.contents else d.memdisk s },
    )
    else ok (record b { contents = d.memdisk b.sector; valid = true }, d)

-- The buffer at a slot, and the list with another one in its place.
unfoldable pub at_slot? : ℕ → List Buf → Option Buf
at_slot? i [] = none
at_slot? i (b ∷ bs) = let rest = at_slot? i bs in if b.slot == i then some b else rest

unfoldable pub put_slot : Buf → List Buf → List Buf
put_slot c [] = []
put_slot c (b ∷ bs) = let rest = put_slot c bs in if b.slot == c.slot then c ∷ bs else b ∷ rest

-- The rest of bread, when bget has returned the buffer at slot `i`.
unfoldable pub fill : ℕ → List Buf → Device → Result (List Buf × Device)
unfolding iderw at_slot? put_slot
fill i bs d = do
  b ← deref (at_slot? i bs)
  if b.valid then ok (bs, d) else iderw b d >>= λ (b', d'). ok (put_slot b' bs, d')

-- bread up to the sleep of bget, if it has to sleep.
unfoldable pub bread : ℕ → ℕ → List Buf → Device → Result (Get × List Buf × Device)
unfolding bget fill
bread dev sector bs d = bget dev sector bs >>= λ (g, bs'). elim g [
  | sleeps_on i ↦ ok (sleeps_on i, bs', d)
  | gets i ↦ fill i bs' d >>= λ (bs'', d'). ok (gets i, bs'', d')
]

unfoldable pub bwrite : ℕ → List Buf → Device → Result (List Buf × Device)
unfolding iderw at_slot? put_slot
bwrite i bs d = do
  b ← deref (at_slot? i bs)
  if not b.busy
      then panic "bwrite"
      else iderw (record b { dirty = true }) d >>= λ (b', d'). ok (put_slot b' bs, d')

-- The list without the buffer at a slot.
unfoldable pub unlink_slot : ℕ → List Buf → List Buf
unlink_slot i [] = []
unlink_slot i (b ∷ bs) = let rest = unlink_slot i bs in if b.slot == i then bs else b ∷ rest

-- brelse, without its wakeup of the threads that sleep on the buffer.
unfoldable pub brelse : ℕ → List Buf → Result (List Buf)
unfolding at_slot? unlink_slot
brelse i bs = do
  b ← deref (at_slot? i bs)
  if not b.busy then panic "brelse" else ok (record b { busy = false } ∷ unlink_slot i bs)
