-- ===== src/Console/Tests.antt =====
-- console.c: a line is typed, edited and read.
use os.Base.{◌≡◌, refl, true, false, [], ◌∷◌, set, replicate, arith}
use os.Console.Defs.{Input, input_buf, typed, consoleintr, read_line}
use os.Console.Ring.{IsValid, Edited, consoleintr-Edited}
use os.Console.Read.{TakenBy, read_line-Taken}

-- The indices are about to wrap around; "x" stands in the line being edited.
abbrev ring : Input
ring = record {
  buf = set (replicate input_buf 0) 127 b'x';
  r = 0xffff_ffff;
  w = 0xffff_ffff;
  e = 0;
}

ring-IsValid : IsValid ring
ring-IsValid = record {
  size = refl;
  r_fits = omega arith;
  w_fits = omega arith;
  e_fits = omega arith;
  order = omega arith;
  room = omega arith;
}

-- Backspace
rubbed : consoleintr 8 ring ≡ (record ring { e = 0xffff_ffff }, false)
unfolding consoleintr
rubbed = refl

consoleintr-Edited_example : Edited ring (consoleintr 8 ring).0
consoleintr-Edited_example = consoleintr-Edited 8 ring ring-IsValid

-- Enter
abbrev entered : Input
entered = record { buf = set ring.buf 0 b'\n'; r = 0xffff_ffff; w = 1; e = 1 }

enter_run : consoleintr 13 ring ≡ (entered, true)
unfolding consoleintr typed
enter_run = refl

entered-IsValid : IsValid entered
entered-IsValid = record {
  size = refl;
  r_fits = omega arith;
  w_fits = omega arith;
  e_fits = omega arith;
  order = omega arith;
  room = omega arith;
}

read_run : read_line 10 false entered ≡ (b'x' ∷ b'\n' ∷ [], true, record entered { r = 1 })
unfolding read_line
read_run = refl

read_line-Taken_example : TakenBy 10 entered (read_line 10 false entered)
read_line-Taken_example = read_line-Taken 10 false entered entered-IsValid
