-- ===== src/Pipe/Defs.antt =====
-- pipe.c: pipeclose, pipewrite and piperead. A call is cut where it sleeps: each function is the
-- code from the start of the call, or from the return of `sleep`, to the next sleep or the return,
-- which runs under the pipe's lock.

use os.Base.{
  ℕ, zero, suc, ◌+◌, ◌%◌, ◌^◌, ◌==◌, Bool, true, false, not, ◌&&◌, ◌||◌, List, [], ◌∷◌, get_or, set,
  if◌then◌else◌, Result, ok, ◌>>=◌,
}
use os.Proc.Defs.{Ptr, Chan, at_nread, at_nwrite, Ptable}
use os.Proc.Sleep.{wakeup1, sleep_begin}
use os.Kalloc.Defs.{Kmem, kfree}

abbrev pub pipesize : ℕ
pipesize = 512

-- `struct pipe`; `buf` is its `data`, and `nread` and `nwrite` are `uint`.
pub record Pipe : Type 0 where
  pub buf : List ℕ
  pub nread : ℕ
  pub nwrite : ℕ
  pub readopen : Bool
  pub writeopen : Bool

-- x + n on `uint`
abbrev pub add32 : ℕ → ℕ → ℕ
add32 x n = (x + n) % 2 ^ 32

abbrev pub is_full : Pipe → Bool
is_full p = p.nwrite == add32 p.nread pipesize

abbrev pub is_empty : Pipe → Bool
is_empty p = p.nread == p.nwrite

-- p->data[p->nwrite++ % PIPESIZE] = x
abbrev pub put : ℕ → Pipe → Pipe
put x p = record p { buf = set p.buf (p.nwrite % pipesize) x; nwrite = add32 p.nwrite 1 }

-- The byte p->data[p->nread % PIPESIZE], and the pipe after p->nread++.
abbrev pub front : Pipe → ℕ
front p = get_or p.buf (p.nread % pipesize) 0

abbrev pub advance : Pipe → Pipe
advance p = record p { nread = add32 p.nread 1 }

-- How a section of pipewrite ends: all is written, the call fails, or the thread sleeps with these
-- bytes still to write.
pub data Writing : Type 0 where
  written : Writing
  broken : Writing
  stalled : List ℕ → Writing

-- The loop of pipewrite from the byte `x`, on the pipe alone.
unfoldable pub write_bytes : Bool → List ℕ → Pipe → Writing × Pipe
write_bytes killed [] p = (written, p)
write_bytes killed (x ∷ xs) p =
    let next = write_bytes killed xs (put x p) in
    if is_full p
    then (if not p.readopen || killed then (broken, p) else (stalled (x ∷ xs), p))
    else next

-- How a section of piperead ends: these bytes are returned, the call fails, or the thread sleeps.
pub data Reading : Type 0 where
  got : List ℕ → Reading
  interrupted : Reading
  waits : Reading

-- The copying loop: at most `n` bytes.
unfoldable pub read_bytes : ℕ → Pipe → List ℕ × Pipe
read_bytes zero p = ([], p)
read_bytes (suc n) p =
    let (xs, p') = read_bytes n (advance p) in if is_empty p then ([], p) else (front p ∷ xs, p')

unfoldable pub read_section : Bool → ℕ → Pipe → Reading × Pipe
unfolding read_bytes
read_section killed n p =
    if is_empty p && p.writeopen
    then (if killed then (interrupted, p) else (waits, p))
    else (let (xs, p') = read_bytes n p in (got xs, p'))

-- A pipe at its address, with the process table that sleep and wakeup change.
pub record PipeSystem : Type 0 where
  pub pipe : Pipe
  pub ptable : Ptable

-- The wakeups and the sleep of a section of pipewrite.
abbrev pub after_write : Ptr → ℕ → Ptable → Writing × Pipe → Writing × PipeSystem
after_write thread addr pt (written, p) =
    (written, record { pipe = p; ptable = wakeup1 (at_nread addr) pt })
after_write thread addr pt (broken, p) = (broken, record { pipe = p; ptable = pt })
after_write thread addr pt (stalled xs, p) = (
  stalled xs,
  record { pipe = p; ptable = sleep_begin thread (at_nwrite addr) (wakeup1 (at_nread addr) pt) },
)

unfoldable pub pipewrite : Ptr → Bool → ℕ → List ℕ → PipeSystem → Writing × PipeSystem
unfolding write_bytes
pipewrite thread killed addr bytes s =
    after_write thread addr s.ptable (write_bytes killed bytes s.pipe)

abbrev pub after_read : Ptr → ℕ → Ptable → Reading × Pipe → Reading × PipeSystem
after_read thread addr pt (got xs, p) =
    (got xs, record { pipe = p; ptable = wakeup1 (at_nwrite addr) pt })
after_read thread addr pt (interrupted, p) = (interrupted, record { pipe = p; ptable = pt })
after_read thread addr pt (waits, p) =
    (waits, record { pipe = p; ptable = sleep_begin thread (at_nread addr) pt })

unfoldable pub piperead : Ptr → Bool → ℕ → ℕ → PipeSystem → Reading × PipeSystem
unfolding read_section
piperead thread killed addr n s = after_read thread addr s.ptable (read_section killed n s.pipe)

-- pipeclose: the end is closed and the other side woken; the second close frees the page.
abbrev pub close_end : Bool → Pipe → Pipe
close_end true p = record p { writeopen = false }
close_end false p = record p { readopen = false }

abbrev pub other_side : Bool → ℕ → Chan
other_side true addr = at_nread addr
other_side false addr = at_nwrite addr

unfoldable pub pipeclose : ℕ → Bool → PipeSystem → Kmem → Result (PipeSystem × Kmem)
pipeclose addr writable s km =
    let p : Pipe = close_end writable s.pipe in
    let s' : PipeSystem = record {
      pipe = p;
      ptable = wakeup1 (other_side writable addr) s.ptable;
    } in
    if not p.readopen && not p.writeopen
    then (kfree addr km >>= λ km'. ok (s', km'))
    else ok (s', km)

-- The pipe that pipealloc sets up.
abbrev pub fresh_pipe : List ℕ → Pipe
fresh_pipe buf = record { buf = buf; nread = 0; nwrite = 0; readopen = true; writeopen = true }
