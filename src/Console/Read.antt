-- ===== src/Console/Read.antt =====
-- console.c: what consoleread takes from the ring.
use os.Base.{
  ℕ, zero, suc, ◌+◌, ◌%◌, ◌<◌, ◌≤◌, ◌==◌, ◌≡◌, refl, ap, ◌∙◌, Bool, true, false, List, [], ◌∷◌,
  length, get_or, arith, Bool-cases, inl, inr,
}
use os.Console.Defs.{Input, input_buf, add32, ctrl_d, read_line}
use os.Console.Ring.{ready, IsValid}

-- What a section of consoleread does: it takes the characters `xs` from the front of those that are
-- ready, and the end of a file where it returns at one.
pub record Taken (n : ℕ) (i : Input) (xs : List ℕ) (j : Input) : Type 0 where
  pub valid : IsValid j
  pub at_most : length xs ≤ n
  pub from_ready : ready j + length xs ≤ ready i
  pub in_order : (k : ℕ) → k < length xs → get_or xs k 0 ≡ get_or i.buf ((i.r + k) % input_buf) 0
  pub same_w : (j.w ≡ i.w) × (j.e ≡ i.e) × (j.buf ≡ i.buf)

advance-IsValid :
    (i : Input) → IsValid i → (i.r == i.w) ≡ false → IsValid (record i { r = add32 i.r 1 })
advance-IsValid i v h = record {
  size = v.size;
  r_fits = omega arith;
  w_fits = v.w_fits;
  e_fits = v.e_fits;
  order = ground (arith, h, v.r_fits, v.w_fits, v.e_fits, v.order);
  room = ground (arith, h, v.r_fits, v.w_fits, v.e_fits, v.order, v.room);
}

chars_in_order :
    (i : Input) (xs : List ℕ)
    → ((k : ℕ) → k < length xs → get_or xs k 0 ≡ get_or i.buf ((add32 i.r 1 + k) % input_buf) 0)
    → (k : ℕ) → k < suc (length xs)
    → get_or (get_or i.buf (i.r % input_buf) 0 ∷ xs) k 0 ≡ get_or i.buf ((i.r + k) % input_buf) 0
chars_in_order i xs h zero l =
    let place : i.r % input_buf ≡ (i.r + 0) % input_buf = omega arith in
    ap (λ p. get_or i.buf p 0) place
chars_in_order i xs h (suc k) l =
    let place : (add32 i.r 1 + k) % input_buf ≡ (i.r + suc k) % input_buf = omega arith in
    h k (omega (arith, l)) ∙ ap (λ p. get_or i.buf p 0) place

-- The first character, and then what is taken behind it.
first_char :
    (n : ℕ) (i j : Input) (xs : List ℕ)
    → IsValid i
    → (i.r == i.w) ≡ false
    → Taken n (record i { r = add32 i.r 1 }) xs j
    → Taken (suc n) i (get_or i.buf (i.r % input_buf) 0 ∷ xs) j
first_char n i j xs v h t = record {
  valid = t.valid;
  at_most = omega (arith, t.at_most);
  from_ready = ground (arith, h, t.from_ready, v.r_fits, v.w_fits);
  in_order = chars_in_order i xs t.in_order;
  same_w = t.same_w;
}

no_chars : (n : ℕ) (i : Input) → IsValid i → Taken n i [] i
no_chars n i v = record {
  valid = v;
  at_most = omega arith;
  from_ready = omega arith;
  in_order = λ k h. absurd (omega arith);
  same_w = (refl, refl, refl);
}

-- What a section of consoleread returns.
abbrev pub TakenBy : ℕ → Input → List ℕ × Bool × Input → Type 0
TakenBy n i (xs, done, j) = Taken n i xs j

skip_one :
    (n : ℕ) (i : Input)
    → IsValid i
    → (i.r == i.w) ≡ false
    → Taken n i [] (record i { r = add32 i.r 1 })
skip_one n i v h = record {
  valid = advance-IsValid i v h;
  at_most = omega arith;
  from_ready = ground (arith, h, v.r_fits, v.w_fits);
  in_order = λ k l. absurd (omega arith);
  same_w = (refl, refl, refl);
}

-- consoleread takes at most as many characters as are asked for, and only from those that were given
-- to the readers, in the order in which they were typed. It leaves the indices in order, and the
-- line that is being edited as it is.
pub read_line-Taken :
    (n : ℕ) (started : Bool) (i : Input) → IsValid i → TakenBy n i (read_line n started i)
unfolding read_line
read_line-Taken zero started i v = no_chars 0 i v
read_line-Taken (suc n) started i v = elim (Bool-cases (i.r == i.w)) [
  | inl empty ↦ rw empty (no_chars (suc n) i v)
  | inr some_ready ↦
      let c : ℕ = get_or i.buf (i.r % input_buf) 0 in
      let i' : Input = record i { r = add32 i.r 1 } in
      let v' : IsValid i' = advance-IsValid i v some_ready in
      elim (Bool-cases (c == ctrl_d)) [
        | inl eof ↦ elim (Bool-cases started) [
          | inl begun ↦ rw (some_ready, eof, begun) (no_chars (suc n) i v)
          | inr first ↦ rw (some_ready, eof, first) (skip_one (suc n) i v some_ready)
        ]
        | inr no_eof ↦ elim (Bool-cases (c == b'\n')) [
          | inl end ↦
              rw (some_ready, no_eof, end) (first_char n i i' [] v some_ready (no_chars n i' v'))
          | inr more ↦
              rw (some_ready, no_eof, more)
                (first_char n i (read_line n true i').2 (read_line n true i').0 v some_ready
                  (read_line-Taken n true i' v'))
        ]
      ]
]
