-- ===== src/Console/Ring.antt =====
-- console.c: the indices stay in order, and editing does not touch what readers may take.
use os.Base.{
  ℕ, zero, suc, ◌+◌, ◌%◌, ◌^◌, ◌<◌, ◌≤◌, ◌==◌, ltb, ltb→lt, ◌≡◌, refl, subst, ◌∙◌, not, Bool, true,
  false, ◌&&◌, ◌||◌, if◌then◌else◌, length, length-set, get_or, get_or-set_ne, arith, Bool-cases,
  inl, inr,
}
use os.Console.Defs.{
  Input, input_buf, sub32, rub_out, kill_line, stored, complete, typed, consoleintr,
}

-- How many characters the readers may take, and how many there are with the line being edited.
abbrev pub ready : Input → ℕ
ready i = sub32 i.w i.r

abbrev pub count : Input → ℕ
count i = sub32 i.e i.r

pub record IsValid (i : Input) : Type 0 where
  pub size : length i.buf ≡ input_buf
  pub r_fits : i.r < 2 ^ 32
  pub w_fits : i.w < 2 ^ 32
  pub e_fits : i.e < 2 ^ 32
  pub order : ready i ≤ count i
  pub room : count i ≤ input_buf

-- The ring `j` is `i` with the line that is being edited changed, and perhaps given to the readers:
-- what they could take before stands where it stood.
pub record Edited (i j : Input) : Type 0 where
  pub valid : IsValid j
  pub same_r : j.r ≡ i.r
  pub more : ready i ≤ ready j
  pub kept :
      (k : ℕ)
      → k < ready i
      → get_or j.buf ((i.r + k) % input_buf) 0 ≡ get_or i.buf ((i.r + k) % input_buf) 0

no_change : (i : Input) → IsValid i → Edited i i
no_change i v = record { valid = v; same_r = refl; more = omega arith; kept = λ k h. refl }

rub_out-Edited : (i : Input) → IsValid i → (i.e == i.w) ≡ false → Edited i (rub_out i)
rub_out-Edited i v h = record {
  valid = record {
    size = v.size;
    r_fits = v.r_fits;
    w_fits = v.w_fits;
    e_fits = omega arith;
    order = ground (arith, h, v.r_fits, v.w_fits, v.e_fits, v.order);
    room = ground (arith, h, v.r_fits, v.w_fits, v.e_fits, v.order, v.room);
  };
  same_r = refl;
  more = omega arith;
  kept = λ k l. refl;
}

stored-Edited :
    (c : ℕ) (i : Input) → IsValid i → ltb (sub32 i.e i.r) input_buf ≡ true → Edited i (stored c i)
stored-Edited c i v h = record {
  valid = record {
    size = length-set i.buf (i.e % input_buf) c ∙ v.size;
    r_fits = v.r_fits;
    w_fits = v.w_fits;
    e_fits = omega arith;
    order = ground (arith, h, v.r_fits, v.w_fits, v.e_fits, v.order);
    room = ground (arith, h, v.r_fits, v.w_fits, v.e_fits, v.room);
  };
  same_r = refl;
  more = omega arith;
  kept = λ k l. get_or-set_ne i.buf (i.e % input_buf) ((i.r + k) % input_buf) c 0 (λ same. absurd (
      omega (
        arith,
        same,
        l,
        v.order,
        ltb→lt (sub32 i.e i.r) input_buf h,
        v.r_fits,
        v.e_fits,
        v.w_fits,
      )));
}

edits_compose : (i j k : Input) → Edited i j → Edited j k → Edited i k
edits_compose i j k a b = record {
  valid = b.valid;
  same_r = b.same_r ∙ a.same_r;
  more = omega (arith, a.more, b.more);
  kept = λ n l.
      subst (λ r. get_or k.buf ((r + n) % input_buf) 0 ≡ get_or j.buf ((r + n) % input_buf) 0)
        a.same_r (b.kept n (omega (arith, l, a.more)))
      ∙ a.kept n l;
}

kill_line-Edited : (f : ℕ) (i : Input) → IsValid i → Edited i (kill_line f i)
unfolding kill_line
kill_line-Edited zero i v = no_change i v
kill_line-Edited (suc f) i v =
    elim (Bool-cases (i.e == i.w || get_or i.buf (sub32 i.e 1 % input_buf) 0 == b'\n')) [
      | inl stop ↦ rw stop (no_change i v)
      | inr more ↦
          let first = rub_out-Edited i v (ground (arith, more)) in
          rw more (
            edits_compose i (rub_out i) (kill_line f (rub_out i)) first
              (kill_line-Edited f (rub_out i) first.valid))
    ]

Edited-if :
    (i : Input) (x y : Input × Bool) (b : Bool)
    → (b ≡ true → Edited i x.0)
    → (b ≡ false → Edited i y.0)
    → Edited i (if b then x else y).0
Edited-if i x y true hx hy = hx refl
Edited-if i x y false hx hy = hy refl

-- The line is given to the readers.
given-Edited : (i j : Input) → Edited i j → Edited i (record j { w = j.e })
given-Edited i j a = record {
  valid = record {
    size = a.valid.size;
    r_fits = a.valid.r_fits;
    w_fits = a.valid.e_fits;
    e_fits = a.valid.e_fits;
    order = omega arith;
    room = a.valid.room;
  };
  same_r = a.same_r;
  more = omega (arith, a.more, a.valid.order);
  kept = a.kept;
}

typed-Edited :
    (c : ℕ) (i : Input) → IsValid i → ltb (sub32 i.e i.r) input_buf ≡ true → Edited i (typed c i).0
unfolding typed
typed-Edited c i v h =
    let a = stored-Edited c i v h in
    Edited-if i _ _ (complete c (stored c i)) (λ _. given-Edited i (stored c i) a) (λ _. a)

-- A character that is typed leaves the indices in order, and the ring at most full. It changes only
-- the line that is being edited: what the readers could take before stands where it stood, so that
-- no backspace and no killed line takes a character back that was given to them.
pub consoleintr-Edited : (c : ℕ) (i : Input) → IsValid i → Edited i (consoleintr c i).0
unfolding consoleintr
consoleintr-Edited c i v =
    Edited-if i _ _ (c == 16) (λ _. no_change i v)
      (λ _.
        Edited-if i _ _ (c == 21) (λ _. kill_line-Edited input_buf i v)
          (λ _.
            Edited-if i _ _ (c == 8 || c == 127)
              (λ _.
                Edited-if i _ _ (not (i.e == i.w))
                  (λ some_left. rub_out-Edited i v (ground (arith, some_left)))
                  (λ _. no_change i v))
              (λ _.
                Edited-if i _ _ (not (c == 0) && ltb (sub32 i.e i.r) input_buf)
                  (λ free. typed-Edited (if c == 13 then b'\n' else c) i v (ground (arith, free)))
                  (λ _. no_change i v))))
