-- ===== src/Str/Tests.antt =====
-- string.c on a memory where each byte holds its address modulo 7.
use os.Base.{◌%◌, ◌≡◌, refl, negsuc}
use os.Str.Defs.{Bytes, memmove, memcpy, strncmp, strncpy}
use os.Str.Move.{moved, memmove_lem}

abbrev sevens : Bytes
sevens a = a % 7

-- The ranges 10 to 14 and 12 to 16 overlap.
memmove_lem_example :
    (memmove 12 10 5 sevens 16 ≡ moved 12 10 5 sevens 16)
    × (memcpy 12 10 5 sevens 16 ≡ moved 12 10 5 sevens 16)
memmove_lem_example = memmove_lem 12 10 5 sevens 16

overlap : memmove 12 10 5 sevens 16 ≡ 0
unfolding memmove
overlap = refl

smaller : strncmp 1 2 20 sevens ≡ negsuc 0
unfolding strncmp
smaller = refl

-- strncpy stops at the NUL and pads with NULs.
padded : strncpy 100 5 4 sevens 103 ≡ 0
unfolding strncpy
padded = refl
