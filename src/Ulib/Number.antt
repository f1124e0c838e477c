-- ===== src/Ulib/Number.antt =====
-- printf.c and ulib.c: printint and atoi on 32 bits.
use os.Base.{
  ℕ, zero, suc, ◌+◌, ◌-◌, ◌*◌, ◌/◌, ◌%◌, ◌^◌, ◌==◌, ltb, leb, Bool, ◌&&◌, if◌then◌else◌, List, [],
  ◌∷◌,
}

-- digits[d]
abbrev pub digit : ℕ → ℕ
digit d = if ltb d 10 then b'0' + d else b'A' + (d - 10)

-- The loop of printint, with the digits behind those that it finds. Each round divides by `base`.
unfoldable pub digits_from : ℕ → ℕ → ℕ → List ℕ → List ℕ
digits_from zero x base ds = ds
digits_from (suc f) x base ds =
    let ds' : List ℕ = digit (x % base) ∷ ds in
    let rest = digits_from f (x / base) base ds' in if x / base == 0 then ds' else rest

-- The characters that printint writes for the word `xx`, an `int` in two's complement. 32 rounds
-- are enough for a word.
unfoldable pub printint : ℕ → ℕ → Bool → List ℕ
printint xx base sgn =
    if sgn && leb (2 ^ 31) xx
    then b'-' ∷ digits_from 32 ((2 ^ 32 - xx) % 2 ^ 32) base []
    else digits_from 32 xx base []

-- atoi from the number that is read already; `n*10 + *s++ - '0'` on 32 bits.
unfoldable pub atoi_from : ℕ → List ℕ → ℕ
atoi_from n [] = n
atoi_from n (c ∷ cs) =
    let rest = atoi_from ((n * 10 + (c - b'0')) % 2 ^ 32) cs in
    if leb b'0' c && leb c b'9' then rest else n

unfoldable pub atoi : List ℕ → ℕ
atoi s = atoi_from 0 s
