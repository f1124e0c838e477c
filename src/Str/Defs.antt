-- ===== src/Str/Defs.antt =====
-- string.c over a memory of bytes. Addresses are natural numbers, so the theorems speak of ranges
-- that do not wrap around the end of the memory. A count `int n` below 0 acts as 0.
use os.Base.{ℕ, zero, suc, ◌+◌, ◌-◌, ◌%◌, ◌==◌, ltb, not, ◌&&◌, ◌||◌, if◌then◌else◌, ℤ, pos, negsuc}

abbrev pub Bytes : Type 0
Bytes = ℕ → ℕ

abbrev pub write : ℕ → ℕ → Bytes → Bytes
write a x m b = if a == b then x else m b

-- The effect of both branches of memset: the low byte of `c` in each of `n` places.
unfoldable pub memset : ℕ → ℕ → ℕ → Bytes → Bytes
memset dst c zero m = m
memset dst c (suc n) m = memset (dst + 1) c n (write dst (c % 256) m)

-- `x - y` as an `int`
abbrev pub difference : ℕ → ℕ → ℤ
difference x y = if ltb x y then negsuc (y - x - 1) else pos (x - y)

unfoldable pub memcmp : ℕ → ℕ → ℕ → Bytes → ℤ
memcmp v1 v2 zero m = pos 0
memcmp v1 v2 (suc n) m =
    let rest = memcmp (v1 + 1) (v2 + 1) n m in
    if not (m v1 == m v2) then difference (m v1) (m v2) else rest

-- while(n-- > 0) *d++ = *s++;
unfoldable pub copy_up : ℕ → ℕ → ℕ → Bytes → Bytes
copy_up d s zero m = m
copy_up d s (suc n) m = copy_up (d + 1) (s + 1) n (write d (m s) m)

-- while(n-- > 0) *--d = *--s;
unfoldable pub copy_down : ℕ → ℕ → ℕ → Bytes → Bytes
copy_down d s zero m = m
copy_down d s (suc n) m = copy_down (d - 1) (s - 1) n (write (d - 1) (m (s - 1)) m)

unfoldable pub memmove : ℕ → ℕ → ℕ → Bytes → Bytes
unfolding copy_up copy_down
memmove dst src n m =
    if ltb src dst && ltb dst (src + n)
    then copy_down (dst + n) (src + n) n m
    else copy_up dst src n m

unfoldable pub memcpy : ℕ → ℕ → ℕ → Bytes → Bytes
unfolding memmove
memcpy dst src n m = memmove dst src n m

unfoldable pub strncmp : ℕ → ℕ → ℕ → Bytes → ℤ
strncmp p q zero m = pos 0
strncmp p q (suc n) m =
    let rest = strncmp (p + 1) (q + 1) n m in
    if m p == 0 || not (m p == m q) then difference (m p) (m q) else rest

-- while(n-- > 0) *s++ = 0;
unfoldable pub fill_zero : ℕ → ℕ → Bytes → Bytes
fill_zero s zero m = m
fill_zero s (suc n) m = fill_zero (s + 1) n (write s 0 m)

unfoldable pub strncpy : ℕ → ℕ → ℕ → Bytes → Bytes
unfolding fill_zero
strncpy s t zero m = m
strncpy s t (suc n) m =
    let rest = strncpy (s + 1) (t + 1) n (write s (m t) m) in
    if m t == 0 then fill_zero (s + 1) n (write s (m t) m) else rest

-- while(--n > 0 && (*s++ = *t++) != 0); *s = 0; with `n` bytes besides the last
unfoldable pub copy_chars : ℕ → ℕ → ℕ → Bytes → Bytes
copy_chars s t zero m = write s 0 m
copy_chars s t (suc n) m =
    let rest = copy_chars (s + 1) (t + 1) n (write s (m t) m) in
    if m t == 0 then write (s + 1) 0 (write s (m t) m) else rest

unfoldable pub safestrcpy : ℕ → ℕ → ℕ → Bytes → Bytes
unfolding copy_chars
safestrcpy s t zero m = m
safestrcpy s t (suc n) m = copy_chars s t n m
