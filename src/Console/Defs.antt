-- ===== src/Console/Defs.antt =====
-- console.c: the ring of the characters that were typed, with its three indices on 32 bits. What is
-- printed is not represented. consoleread is cut where it sleeps.
use os.Base.{
  ℕ, zero, suc, ◌+◌, ◌-◌, ◌%◌, ◌^◌, ◌==◌, ltb, not, Bool, true, false, ◌&&◌, ◌||◌, if◌then◌else◌,
  List, [], ◌∷◌, get_or, set,
}

abbrev pub input_buf : ℕ
input_buf = 128

-- `input`
pub record Input : Type 0 where
  pub buf : List ℕ
  pub r : ℕ
  pub w : ℕ
  pub e : ℕ

abbrev pub add32 : ℕ → ℕ → ℕ
add32 x n = (x + n) % 2 ^ 32

abbrev pub sub32 : ℕ → ℕ → ℕ
sub32 x n = (x + 2 ^ 32 - n) % 2 ^ 32

-- C('D'), the end of a file
abbrev pub ctrl_d : ℕ
ctrl_d = 4

-- input.e--
abbrev pub rub_out : Input → Input
rub_out i = record i { e = sub32 i.e 1 }

-- The loop of C('U'), which rubs out at most the whole ring.
unfoldable pub kill_line : ℕ → Input → Input
kill_line zero i = i
kill_line (suc f) i =
    let rest = kill_line f (rub_out i) in
    if i.e == i.w || get_or i.buf (sub32 i.e 1 % input_buf) 0 == b'\n' then i else rest

-- A character is stored, and the line is given to the readers when it is complete.
abbrev pub stored : ℕ → Input → Input
stored c i = record i { buf = set i.buf (i.e % input_buf) c; e = add32 i.e 1 }

abbrev pub complete : ℕ → Input → Bool
complete c i = c == b'\n' || c == ctrl_d || i.e == add32 i.r input_buf

unfoldable pub typed : ℕ → Input → Input × Bool
typed c i =
    let i' : Input = stored c i in
    if complete c i' then (record i' { w = i'.e }, true) else (i', false)

-- One round of consoleintr: the ring, and whether the readers are woken.
unfoldable pub consoleintr : ℕ → Input → Input × Bool
consoleintr c i =
    if c == 16
    then (i, false)
    else if c == 21
    then (kill_line input_buf i, false)
    else if c == 8 || c == 127
    then (if not (i.e == i.w) then (rub_out i, false) else (i, false))
    else if not (c == 0) && ltb (sub32 i.e i.r) input_buf
    then typed (if c == 13 then b'\n' else c) i
    else (i, false)

-- A section of consoleread, with `n` bytes to go; `started` says that it has copied some. The bytes
-- copied, and whether the call returns; if not, the thread sleeps or was killed.
unfoldable pub read_line : ℕ → Bool → Input → List ℕ × Bool × Input
read_line zero started i = ([], true, i)
read_line (suc n) started i =
    let c : ℕ = get_or i.buf (i.r % input_buf) 0 in
    let i' : Input = record i { r = add32 i.r 1 } in
    let (xs, done, last) = read_line n true i' in
    if i.r == i.w
    then ([], false, i)
    else if c == ctrl_d
    then ([], true, (if started then i else i'))
    else if c == b'\n'
    then (c ∷ [], true, i')
    else (c ∷ xs, done, last)
