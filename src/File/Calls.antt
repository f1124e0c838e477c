-- ===== src/File/Calls.antt =====
-- sysfile.c: file descriptors, and the calls that change who holds a file. A process is named by its
-- index, and the arguments are those that argint and argptr have fetched.
use os.Base.{
  ℕ, ◌+◌, Bool, true, false, Option, none, some, List, [], ◌∷◌, get_elem?, get_or, set, modify,
  Result, ok, ◌>>=◌, ℤ, index,
}
use os.File.Defs.{Io, filedup, fileclose, pipealloc}

-- The descriptors of all processes, `ofile` of each, and the open files.
pub record Files : Type 0 where
  pub ofiles : List (List (Option ℕ))
  pub io : Io

abbrev pub ofile : ℕ → Files → List (Option ℕ)
ofile p s = get_or s.ofiles p []

abbrev pub put_fd : ℕ → ℕ → Option ℕ → Files → Files
put_fd p fd f s = record s { ofiles = modify s.ofiles p (λ fds. set fds fd f) }

-- argfd on the argument: the descriptor and its file. The array has NOFILE entries.
unfoldable pub argfd : ℤ → List (Option ℕ) → Option (ℕ × ℕ)
argfd n fds = elim (index n) [
  | none ↦ none
  | some fd ↦ elim (get_elem? fds fd) [
    | none ↦ none
    | some none ↦ none
    | some (some f) ↦ some (fd, f)
  ]
]

-- The descriptor that fdalloc takes: the first that is free.
unfoldable pub free_fd : List (Option ℕ) → Option ℕ
free_fd [] = none
free_fd (none ∷ fds) = some 0
free_fd (some f ∷ fds) = elim (free_fd fds) [ none ↦ none | some fd ↦ some (fd + 1) ]

unfoldable pub fdalloc : ℕ → ℕ → Files → Option (ℕ × Files)
unfolding free_fd
fdalloc p f s = elim (free_fd (ofile p s)) [
  | none ↦ none
  | some fd ↦ some (fd, put_fd p fd (some f) s)
]

-- sys_dup up to its filedup: the file and the new descriptor.
unfoldable pub dup_begin : ℕ → ℤ → Files → Option (ℕ × ℕ × Files)
unfolding argfd fdalloc
dup_begin p n s = elim (argfd n (ofile p s)) [
  | none ↦ none
  | some (_, f) ↦ elim (fdalloc p f s) [ none ↦ none | some (fd, s') ↦ some (f, fd, s') ]
]

unfoldable pub dup_end : ℕ → ℕ → Files → Result (Option ℕ × Files)
unfolding filedup
dup_end f fd s =
    filedup f s.io.ftable >>= λ ft. ok (some fd, record s { io = record s.io { ftable = ft } })

unfoldable pub sys_dup : ℕ → ℤ → Files → Result (Option ℕ × Files)
unfolding dup_begin dup_end
sys_dup p n s = elim (dup_begin p n s) [ none ↦ ok (none, s) | some (f, fd, s') ↦ dup_end f fd s' ]

-- The result says whether the call returned 0.
unfoldable pub sys_close : ℕ → ℤ → Files → Result (Bool × Files)
unfolding argfd fileclose
sys_close p n s = elim (argfd n (ofile p s)) [
  | none ↦ ok (false, s)
  | some (fd, f) ↦
      let s' : Files = put_fd p fd none s in
      fileclose f s'.io >>= λ io'. ok (true, record s' { io = io' })
]

-- sys_pipe where it fails: both files are closed.
unfoldable pub undo_pipe : ℕ → ℕ → Files → Result (Option (ℕ × ℕ) × Files)
unfolding fileclose
undo_pipe rf wf s =
    fileclose rf s.io >>= λ io1. fileclose wf io1 >>= λ io2. ok (none, record s { io = io2 })

-- sys_pipe: the two descriptors that it stores for the caller.
unfoldable pub sys_pipe : ℕ → List ℕ → Files → Result (Option (ℕ × ℕ) × Files)
unfolding pipealloc fdalloc undo_pipe
sys_pipe p page s = pipealloc page s.io >>= λ (ends, io1).
    let s1 : Files = record s { io = io1 } in
    elim ends [
      | none ↦ ok (none, s1)
      | some (rf, wf) ↦ elim (fdalloc p rf s1) [
        | none ↦ undo_pipe rf wf s1
        | some (fd0, s2) ↦ elim (fdalloc p wf s2) [
          | none ↦ undo_pipe rf wf (put_fd p fd0 none s2)
          | some (fd1, s3) ↦ ok (some (fd0, fd1), s3)
        ]
      ]
    ]
