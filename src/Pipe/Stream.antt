-- ===== src/Pipe/Stream.antt =====
-- pipe.c: what goes in comes out, in order, whatever the interleaving of the calls' sections.
use os.Base.{
  ℕ, zero, suc, ◌+◌, ◌-◌, ◌≤◌, ◌≡◌, ◌≢◌, ◌⊎◌, inl, inr, refl, sym, ap, ap₂, ◌∙◌, Bool, true, false,
  not, ◌&&◌, ◌||◌, Bool-cases, List, [], ◌∷◌, ◌++◌, append-nil, append_assoc, length, take, min,
  arith,
}
use os.Proc.Defs.{Ptr, Ptable}
use os.Pipe.Defs.{
  Pipe, pipesize, is_full, is_empty, put, front, advance, Writing, written, broken, stalled,
  write_bytes, Reading, got, interrupted, waits, read_bytes, read_section, PipeSystem, pipewrite,
  after_write, piperead, after_read, close_end, fresh_pipe,
}
use os.Pipe.Ring.{
  count, IsValid, contents, full_iff, empty_iff, put-IsValid, contents-put, advance-IsValid,
  contents-advance, count-put, count-advance,
}

-- How a section of pipewrite ends, with `rest` not yet in the pipe `p`.
abbrev pub Ends : Bool → Writing → List ℕ → Pipe → Type 0
Ends killed written rest p = rest ≡ []
Ends killed (stalled xs) rest p =
    (xs ≡ rest) × (rest ≢ []) × (count p ≡ pipesize) × (p.readopen ≡ true) × (killed ≡ false)
Ends killed broken rest p =
    (rest ≢ []) × (count p ≡ pipesize) × ((p.readopen ≡ false) ⊎ (killed ≡ true))

-- What a section of pipewrite has done to the valid pipe `p`.
abbrev pub Wrote : Bool → List ℕ → Pipe → Writing × Pipe → Type 0
Wrote killed bytes p (o, p') =
    (now : List ℕ) × (rest : List ℕ) × (bytes ≡ now ++ rest)
    × (contents p' ≡ contents p ++ now)
    × (count p' ≡ count p + length now)
    × IsValid p'
    × Ends killed o rest p'

-- A section of pipewrite on a valid pipe puts a first part of the bytes behind the contents. It
-- ends with all of them in the pipe, or with the pipe full: then it fails if the reading end is
-- closed or the process killed, and otherwise sleeps with exactly the rest still to write.
pub write_bytes-Wrote :
    (killed : Bool) (bytes : List ℕ) (p : Pipe)
    → IsValid p
    → Wrote killed bytes p (write_bytes killed bytes p)
unfolding write_bytes
write_bytes-Wrote killed [] p v = ([], [], refl, sym (append-nil _), omega arith, v, refl)
write_bytes-Wrote killed (x ∷ xs) p v = elim (Bool-cases (is_full p)) [
  | inl full ↦
      let c : count p ≡ pipesize = ground (arith, full_iff p v) in
      elim (Bool-cases (not p.readopen || killed)) [
        | inl stop ↦
            rw (full, stop)
              ([], x ∷ xs, refl, sym (append-nil _), omega arith, v, (λ h. cc, c, ground arith))
        | inr go ↦
            rw (full, go)
              (
                [],
                x ∷ xs,
                refl,
                sym (append-nil _),
                omega arith,
                v,
                (refl, λ h. cc, c, ground arith, ground arith),
              )
      ]
  | inr space ↦
      let nf : count p ≢ pipesize = ground (arith, full_iff p v) in
      let (now, rest, e, w, c, v', ends) =
        write_bytes-Wrote killed xs (put x p) (put-IsValid x p v nf) in
      rw space (
        x ∷ now,
        rest,
        ap (λ l. x ∷ l) e,
        w ∙ ap (λ l. l ++ now) (contents-put x p v nf) ∙ append_assoc (contents p) (x ∷ []) now,
        omega (arith, c, count-put x p v nf),
        v',
        ends,
      )
]

-- The copying loop of piperead takes from the front of the contents as many bytes as are asked
-- for, or all there are.
pub read_bytes-front :
    (n : ℕ) (p : Pipe)
    → IsValid p
    → let (xs, p') = read_bytes n p in
      (contents p ≡ xs ++ contents p') × (length xs ≡ min n (count p)) × IsValid p'
unfolding read_bytes
read_bytes-front zero p v = (refl, omega arith, v)
read_bytes-front (suc n) p v = elim (Bool-cases (is_empty p)) [
  | inl none_left ↦
      let z : count p ≡ 0 = ground (arith, empty_iff p v) in rw none_left (refl, omega arith, v)
  | inr some_left ↦
      let nz : count p ≢ 0 = ground (arith, empty_iff p v) in
      let (e, l, v') = read_bytes-front n (advance p) (advance-IsValid p v nz) in
      rw some_left (
        contents-advance p v nz ∙ ap (λ l. front p ∷ l) e,
        omega (arith, l, count-advance p v nz),
        v',
      )
]

-- The bytes that a section of piperead hands to its caller.
abbrev pub handed : Reading → List ℕ
handed (got xs) = xs
handed interrupted = []
handed waits = []

read_section-front :
    (killed : Bool) (n : ℕ) (p : Pipe)
    → IsValid p
    → let (o, p') = read_section killed n p in (contents p ≡ handed o ++ contents p') × IsValid p'
unfolding read_section
read_section-front killed n p v = elim (Bool-cases (is_empty p && p.writeopen)) [
  | inl none_yet ↦ elim (Bool-cases killed) [
    | inl gone ↦ rw (none_yet, gone) (refl, v)
    | inr alive ↦ rw (none_yet, alive) (refl, v)
  ]
  | inr ready ↦ let (e, _, v') = read_bytes-front n p v in rw ready (e, v')
]

-- A pipe in use, with all that has gone into it and all that has come out of it.
pub record Stream : Type 0 where
  pub system : PipeSystem
  pub sent : List ℕ
  pub received : List ℕ

-- A section of some call: by which thread, whether its process is killed, and what it asks for.
pub data Event : Type 0 where
  writes : Ptr → Bool → List ℕ → Event
  reads : Ptr → Bool → ℕ → Event
  closes : Bool → Event

-- The bytes of a write that are in the pipe after its section.
abbrev pub put_in : List ℕ → Pipe → Pipe → List ℕ
put_in bytes p p' = take (count p' - count p) bytes

unfoldable pub event : ℕ → Event → Stream → Stream
unfolding pipewrite piperead
event addr (writes thread killed bytes) s =
    let (o, sys) = pipewrite thread killed addr bytes s.system in
    record s { system = sys; sent = s.sent ++ put_in bytes s.system.pipe sys.pipe }
event addr (reads thread killed n) s =
    let (o, sys) = piperead thread killed addr n s.system in
    record s { system = sys; received = s.received ++ handed o }
event addr (closes writable) s = record s {
  system = record (s.system) { pipe = close_end writable s.system.pipe };
}

unfoldable pub run : ℕ → List Event → Stream → Stream
unfolding event
run addr [] s = s
run addr (e ∷ es) s = run addr es (event addr e s)

abbrev pub Flows : Stream → Type 0
Flows s = (s.received ++ contents s.system.pipe ≡ s.sent) × IsValid s.system.pipe

pipe-after_write :
    (thread : Ptr) (addr : ℕ) (pt : Ptable) (r : Writing × Pipe)
    → (after_write thread addr pt r).1.pipe ≡ r.1
pipe-after_write thread addr pt (written, p) = refl
pipe-after_write thread addr pt (broken, p) = refl
pipe-after_write thread addr pt (stalled xs, p) = refl

after_read_lem :
    (thread : Ptr) (addr : ℕ) (pt : Ptable) (r : Reading × Pipe)
    → ((after_read thread addr pt r).1.pipe ≡ r.1) × ((after_read thread addr pt r).0 ≡ r.0)
after_read_lem thread addr pt (got xs, p) = (refl, refl)
after_read_lem thread addr pt (interrupted, p) = (refl, refl)
after_read_lem thread addr pt (waits, p) = (refl, refl)

take-append {ℓ} : {A : Type ℓ} (xs ys : List A) → take (length xs) (xs ++ ys) ≡ xs
take-append [] ys = refl
take-append (x ∷ xs) ys = ap (λ l. x ∷ l) (take-append xs ys)

write-Flows :
    (addr : ℕ) (thread : Ptr) (killed : Bool) (bytes : List ℕ) (s : Stream)
    → Flows s
    → Flows (event addr (writes thread killed bytes) s)
unfolding event pipewrite
write-Flows addr thread killed bytes s (f, v) =
    let p : Pipe = s.system.pipe in
    let (now, rest, e, w, c, v', _) = write_bytes-Wrote killed bytes p v in
    let same = pipe-after_write thread addr s.system.ptable (write_bytes killed bytes p) in
    let amount : count (write_bytes killed bytes p).1 - count p ≡ length now = omega (arith, c) in
    let taken : put_in bytes p (write_bytes killed bytes p).1 ≡ now =
      ap (λ k. take k bytes) amount ∙ ap (λ l. take (length now) l) e ∙ take-append now rest in
    rw same (
      ap (λ l. s.received ++ l) w
          ∙ sym (append_assoc s.received (contents p) now)
          ∙ ap₂ (λ a b. a ++ b) f (sym taken),
      v',
    )

read-Flows :
    (addr : ℕ) (thread : Ptr) (killed : Bool) (n : ℕ) (s : Stream)
    → Flows s
    → Flows (event addr (reads thread killed n) s)
unfolding event piperead
read-Flows addr thread killed n s (f, v) =
    let p : Pipe = s.system.pipe in
    let (e, v') = read_section-front killed n p v in
    let (same, out) = after_read_lem thread addr s.system.ptable (read_section killed n p) in
    rw (same, out)
      (
        append_assoc s.received (handed (read_section killed n p).0)
              (contents (read_section killed n p).1)
            ∙ ap (λ l. s.received ++ l) (sym e)
            ∙ f,
        v',
      )

event-Flows : (addr : ℕ) (e : Event) (s : Stream) → Flows s → Flows (event addr e s)
event-Flows addr (writes thread killed bytes) s f = write-Flows addr thread killed bytes s f
event-Flows addr (reads thread killed n) s f = read-Flows addr thread killed n s f
event-Flows addr (closes true) s f =
    unfold event in
    (
      f.0,
      record {
        size = f.1.size;
        nread_fits = f.1.nread_fits;
        nwrite_fits = f.1.nwrite_fits;
        room = f.1.room;
      },
    )
event-Flows addr (closes false) s f =
    unfold event in
    (
      f.0,
      record {
        size = f.1.size;
        nread_fits = f.1.nread_fits;
        nwrite_fits = f.1.nwrite_fits;
        room = f.1.room;
      },
    )

run-Flows : (addr : ℕ) (es : List Event) (s : Stream) → Flows s → Flows (run addr es s)
unfolding run
run-Flows addr [] s f = f
run-Flows addr (e ∷ es) s f = run-Flows addr es (event addr e s) (event-Flows addr e s f)

-- The stream of a pipe that pipealloc has just set up.
abbrev pub opened : Ptable → List ℕ → Stream
opened pt buf = record {
  system = record { pipe = fresh_pipe buf; ptable = pt };
  sent = [];
  received = [];
}

-- A pipe is a bounded first-in first-out stream. After any sequence of sections of pipewrite and
-- piperead, by any threads and interleaved in any way, with closes between them, what was received
-- followed by what stands in the pipe is exactly what was sent, and the pipe holds at most 512
-- bytes.
pub pipe_fifo :
    (addr : ℕ) (es : List Event) (pt : Ptable) (buf : List ℕ)
    → length buf ≡ pipesize
    → let s = run addr es (opened pt buf) in
      (s.received ++ contents s.system.pipe ≡ s.sent) × (count s.system.pipe ≤ pipesize)
pipe_fifo addr es pt buf size =
    let (e, v) = run-Flows addr es (opened pt buf) (
      refl,
      record {
        size = size;
        nread_fits = omega arith;
        nwrite_fits = omega arith;
        room = omega arith;
      },
    ) in
    (e, v.room)
