-- ===== src/Bio/Tests.antt =====
-- bio.c on a cache of two buffers.
use os.Base.{◌≡◌, refl, true, false, List, [], ◌∷◌, ok, arith, All}
use os.Bio.Defs.{Buf, Device, no_dev, gets, recycled, bget, bread, brelse}
use os.Bio.Unique.{count, Unique}
use os.Bio.View.{view, Clean}
use os.Bio.Read.{Slots, Reads, bread-Reads}

abbrev fives : Buf
fives = record {
  slot = 0;
  busy = false;
  valid = true;
  dirty = false;
  dev = 1;
  sector = 5;
  contents = 5 ∷ [];
}

abbrev fresh : Buf
fresh = record {
  slot = 1;
  busy = false;
  valid = false;
  dirty = false;
  dev = no_dev;
  sector = 0;
  contents = [];
}

abbrev cache : List Buf
cache = fresh ∷ fives ∷ []

abbrev drive : Device
drive = record { memdisk = λ s. s ∷ []; disksize = 100 }

cache-Unique : Unique cache
unfolding count
cache-Unique d s real = ground (arith, real)

cache-Slots : Slots cache
unfolding count
cache-Slots i = ground arith

cache-Clean : All (Clean drive.memdisk) cache
cache-Clean = (
  ((λ h. absurd (ground (arith, h))), λ d f v n. absurd (ground (arith, v))),
  (((λ h. absurd (ground (arith, h))), λ d f v n. refl), tt),
)

-- Sector 9 is not cached: the last free buffer of the list is recycled.
bget_miss : bget 1 9 cache ≡ ok (gets 0, fresh ∷ recycled 1 9 fives ∷ [])
unfolding bget
bget_miss = refl

bread-Reads_example :
    (bs : List Buf) × (bread 1 9 cache drive ≡ ok (gets 0, bs, drive)) × Reads 9 0 bs (9 ∷ [])
unfolding view
bread-Reads_example =
    bread-Reads 9 0 cache (fresh ∷ recycled 1 9 fives ∷ []) drive cache-Unique cache-Slots
      cache-Clean (omega arith) bget_miss

-- Sector 5 locked, as bget leaves it.
abbrev in_use : List Buf
in_use = fresh ∷ record fives { busy = true } ∷ []

in_use-Unique : Unique in_use
unfolding count
in_use-Unique d s real = ground (arith, real)

in_use-Clean : All (Clean drive.memdisk) in_use
in_use-Clean = (
  ((λ h. absurd (ground (arith, h))), λ d f v n. absurd (ground (arith, v))),
  (((λ h. absurd (ground (arith, h))), λ d f v n. refl), tt),
)

-- The released buffer is in front.
released : brelse 0 in_use ≡ ok (fives ∷ fresh ∷ [])
unfolding brelse
released = refl
