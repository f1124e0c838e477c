-- ===== src/File/Defs.antt =====
-- file.c and the first half of pipe.c: the table of open files. A file is named by its index in the
-- table, a pipe by its address, and an inode by its index in the inode cache. A call that sleeps
-- ends there.
use os.Base.{
  ℕ, zero, suc, ◌+◌, ◌-◌, ◌%◌, ◌^◌, ◌==◌, ltb, not, Bool, true, false, if◌then◌else◌, Option, none,
  some, List, [], ◌∷◌, length, get_elem?, set, modify, take, drop, min, Result, ok, panic, deref,
  ◌>>=◌,
}
use os.Proc.Defs.{Ptr, Ptable}
use os.Kalloc.Defs.{Kmem, kalloc}
use os.Pipe.Defs.{
  Pipe, PipeSystem, Reading, got, interrupted, waits, Writing, written, broken, stalled, pipeclose,
  piperead, pipewrite, fresh_pipe,
}
use os.Fs.Inode.{Fs, locked, sleeps, ilock, iunlock, iput}
use os.Fs.Content.{Stat, stati, Devices, readi, writei}

pub data FileType : Type 0 where
  fd_none : FileType
  fd_pipe : FileType
  fd_inode : FileType

-- `struct file`
pub record File : Type 0 where
  pub type : FileType
  pub ref : ℕ
  pub readable : Bool
  pub writable : Bool
  pub pipe : ℕ
  pub ip : ℕ
  pub off : ℕ

-- `ftable` with all that its files stand for.
pub record Io : Type 0 where
  pub ftable : List File
  pub pipes : ℕ → Pipe
  pub fs : Fs
  pub ptable : Ptable
  pub kmem : Kmem

abbrev pub put_pipe : ℕ → Pipe → (ℕ → Pipe) → ℕ → Pipe
put_pipe a p ps b = if b == a then p else ps b

abbrev pub system : ℕ → Io → PipeSystem
system a io = record { pipe = io.pipes a; ptable = io.ptable }

abbrev pub with_system : ℕ → PipeSystem → Io → Io
with_system a s io = record io { pipes = put_pipe a s.pipe io.pipes; ptable = s.ptable }

-- filealloc: the first entry that is free.
unfoldable pub filealloc : List File → Option (ℕ × List File)
filealloc [] = none
filealloc (f ∷ fs) =
    let rest = filealloc fs in
    if f.ref == 0
    then some (0, record f { ref = 1 } ∷ fs)
    else elim rest [ none ↦ none | some (i, fs') ↦ some (i + 1, f ∷ fs') ]

unfoldable pub filedup : ℕ → List File → Result (List File)
filedup i ft = do
  f ← deref (get_elem? ft i)
  if ltb f.ref 1 then panic "filedup" else ok (set ft i (record f { ref = f.ref + 1 }))

-- What is closed with the last reference to a file of a type.
unfoldable pub close_last : FileType → File → Io → Result Io
close_last fd_none f io = ok io
close_last fd_pipe f io = pipeclose f.pipe f.writable (system f.pipe io) io.kmem >>= λ (s, km).
    ok (record (with_system f.pipe s io) { kmem = km })
close_last fd_inode f io = iput f.ip io.fs >>= λ fs'. ok (record io { fs = fs' })

abbrev pub closed : File → File
closed f = record f { ref = 0; type = fd_none }

unfoldable pub fileclose : ℕ → Io → Result Io
unfolding close_last
fileclose i io = do
  f ← deref (get_elem? io.ftable i)
  if ltb f.ref 1
      then panic "fileclose"
      else if ltb 0 (f.ref - 1)
      then ok (record io { ftable = set io.ftable i (record f { ref = f.ref - 1 }) })
      else close_last f.type f (record io { ftable = set io.ftable i (closed f) })

-- A call: it returns -1 or a value, or the thread sleeps; `again` is what it has still to do.
pub data Call (A B : Type 0) : Type 0 where
  returns : Option A → Io → Call A B
  again : B → Io → Call A B

unfoldable pub filestat : ℕ → Io → Result (Call Stat (Unit {0}))
filestat i io = deref (get_elem? io.ftable i) >>= λ f. elim f.type [
  | fd_inode ↦ ilock f.ip io.fs >>= λ l. elim l [
    | sleeps ↦ ok (again tt io)
    | locked fs1 ↦ deref (get_elem? fs1.icache f.ip) >>= λ ip.
        iunlock f.ip fs1 >>= λ fs2. ok (returns (some (stati ip)) (record io { fs = fs2 }))
  ]
  | fd_none ↦ ok (returns none io)
  | fd_pipe ↦ ok (returns none io)
]

-- f->off += r
abbrev pub moved : ℕ → ℕ → List File → List File
moved i r ft = modify ft i (λ f. record f { off = (f.off + r) % 2 ^ 32 })

abbrev pub read_end : ℕ → Io → Reading × PipeSystem → Call (List ℕ) (Unit {0})
read_end a io (got xs, s) = returns (some xs) (with_system a s io)
read_end a io (interrupted, s) = returns none (with_system a s io)
read_end a io (waits, s) = again tt (with_system a s io)

abbrev pub write_end : ℕ → ℕ → Io → Writing × PipeSystem → Call ℕ (List ℕ)
write_end n a io (written, s) = returns (some n) (with_system a s io)
write_end n a io (broken, s) = returns none (with_system a s io)
write_end n a io (stalled xs, s) = again xs (with_system a s io)

-- The bytes that one transaction writes at most: ((LOGSIZE-1-1-2) / 2) * 512.
abbrev pub max_write : ℕ
max_write = 6656

module _ (dv : Devices) where
  unfoldable pub fileread : Ptr → Bool → ℕ → ℕ → Io → Result (Call (List ℕ) (Unit {0}))
  fileread thread killed i n io = deref (get_elem? io.ftable i) >>= λ f.
      if not f.readable then ok (returns none io) else (elim f.type [
        | fd_none ↦ panic "fileread"
        | fd_pipe ↦ ok (read_end f.pipe io (piperead thread killed f.pipe n (system f.pipe io)))
        | fd_inode ↦ ilock f.ip io.fs >>= λ l. elim l [
          | sleeps ↦ ok (again tt io)
          | locked fs1 ↦ deref (get_elem? fs1.icache f.ip) >>= λ ip.
              readi dv fs1.sb f.off n ip fs1.disk >>= λ (r, ip', d).
              let r_len : ℕ = elim r [ none ↦ 0 | some bs ↦ length bs ] in
              iunlock f.ip (record fs1 { disk = d; icache = set fs1.icache f.ip ip' }) >>= λ fs2.
              ok (returns r (record io { fs = fs2; ftable = moved i r_len io.ftable }))
        ]
      ])

  -- The loop of filewrite on an inode: `n` bytes in all, `src` of them left. A round writes one or
  -- more.
  unfoldable pub filewrite_loop : ℕ → ℕ → ℕ → List ℕ → Io → Result (Call ℕ (List ℕ))
  filewrite_loop zero n i src io = ok (returns (some n) io)
  filewrite_loop (suc k) n i src io = elim (length src == 0) [
    | true ↦ ok (returns (some n) io)
    | false ↦
        let n1 : ℕ = min (length src) max_write in
        deref (get_elem? io.ftable i) >>= λ f. ilock f.ip io.fs >>= λ l. elim l [
          | sleeps ↦ ok (again src io)
          | locked fs1 ↦ deref (get_elem? fs1.icache f.ip) >>= λ ip.
              writei dv fs1.sb f.off (take n1 src) ip fs1.disk >>= λ (r, ip', d).
              iunlock f.ip (record fs1 { disk = d; icache = set fs1.icache f.ip ip' }) >>= λ fs2.
              elim r [
                | none ↦ ok (returns none (record io { fs = fs2 }))
                | some r' ↦
                    let io' : Io = record io { fs = fs2; ftable = moved i r' io.ftable } in
                    elim (r' == n1) [
                      | false ↦ panic "short filewrite"
                      | true ↦ filewrite_loop k n i (drop n1 src) io'
                    ]
              ]
        ]
  ]

  unfoldable pub filewrite : Ptr → Bool → ℕ → List ℕ → Io → Result (Call ℕ (List ℕ))
  unfolding filewrite_loop
  filewrite thread killed i src io = deref (get_elem? io.ftable i) >>= λ f.
      if not f.writable then ok (returns none io) else (elim f.type [
        | fd_none ↦ panic "filewrite"
        | fd_pipe ↦ ok (
            write_end (length src) f.pipe io
              (pipewrite thread killed f.pipe src (system f.pipe io)))
        | fd_inode ↦ filewrite_loop (length src) (length src) i src io
      ])

-- pipealloc: two files and a page, or nothing.
unfoldable pub pipe_ends : ℕ → ℕ → ℕ → List File → List File
pipe_ends a i j ft =
    modify
      (modify ft i (λ f. record f { type = fd_pipe; readable = true; writable = false; pipe = a }))
      j (λ f. record f { type = fd_pipe; readable = false; writable = true; pipe = a })

unfoldable pub pipealloc : List ℕ → Io → Result (Option (ℕ × ℕ) × Io)
unfolding filealloc fileclose pipe_ends
pipealloc page io = elim (filealloc io.ftable) [
  | none ↦ ok (none, io)
  | some (i, ft1) ↦ elim (filealloc ft1) [
    | none ↦ fileclose i (record io { ftable = ft1 }) >>= λ io'. ok (none, io')
    | some (j, ft2) ↦
        let (a, km) = kalloc io.kmem in
        let io2 : Io = record io { ftable = ft2; kmem = km } in
        elim (a == 0) [
          | true ↦ fileclose i io2 >>= λ io3. fileclose j io3 >>= λ io4. ok (none, io4)
          | false ↦ ok (
            some (i, j),
            record io2 {
              ftable = pipe_ends a i j ft2;
              pipes = put_pipe a (fresh_pipe page) io.pipes;
            },
          )
        ]
  ]
]
