-- ===== src/File/Close.antt =====
-- sysfile.c: when close returns, and what it does to the counts.
use os.Base.{
  ℕ, ◌-◌, ◌<◌, ltb, ◌≡◌, ◌≢◌, ap, ◌∙◌, Bool, true, false, none, some, get_elem?, set, ok, ◌>>=◌,
  Result-cases, ℤ, arith, Bool-cases, Option-cases, inl, inr, ◌⊎◌,
}
use os.File.Defs.{File, Io, close_last, closed, fileclose}
use os.File.Calls.{Files, ofile, put_fd, argfd, sys_close}
use os.File.Table.{ref_at, ref_at-pos, fileclose_lem}
use os.File.Count.{Counted, held-put_fd, argfd_lem, argfd_live, close_at, close_out}

-- The file has one reference, and closing what it stands for does not return.
abbrev pub Sticks : ℕ → Io → Type 0
Sticks i io =
    (f : File) × (get_elem? io.ftable i ≡ some f)
    × (f.ref ≡ 1)
    × ((io' : Io)
        → close_last f.type f (record io { ftable = set io.ftable i (closed f) }) ≢ ok io')

fileclose_cases :
    (i : ℕ) (io : Io)
    → 0 < ref_at io.ftable i
    → ((io' : Io) × (fileclose i io ≡ ok io')) ⊎ Sticks i io
unfolding fileclose
fileclose_cases i io live =
    let (f, at, same) = ref_at-pos io.ftable i live in
    let some_left : ltb f.ref 1 ≡ false = ground (arith, live, same) in
    elim (Bool-cases (ltb 0 (f.ref - 1))) [
      | inl shared ↦ inl (
        record io { ftable = set io.ftable i (record f { ref = f.ref - 1 }) },
        ground (arith, at, some_left, shared),
      )
      | inr last ↦
          elim (Result-cases
            (close_last f.type f (record io { ftable = set io.ftable i (closed f) }))) [
              | inl (io', e) ↦ inl (io', ground (arith, at, some_left, last, e))
              | inr stuck ↦ inr (f, at, ground (arith, last, live, same), stuck)
            ]
    ]

-- How close ends: it returns and the counts are right, or it was the last close of the file.
abbrev pub Closes : ℕ → ℤ → Files → Type 0
Closes p n s =
    ((r : Bool) × (s' : Files) × (sys_close p n s ≡ ok (r, s')) × Counted s')
    ⊎ ((fd : ℕ) × (f : ℕ) × (argfd n (ofile p s) ≡ some (fd, f)) × Sticks f s.io)

-- If the count of each file is the number of descriptors that name it, close returns and keeps it
-- so. Only the last close of a file can fail, and only where closing the pipe, or letting go of the
-- inode, does.
pub sys_close-Closes : (p : ℕ) (n : ℤ) (s : Files) → Counted s → Closes p n s
sys_close-Closes p n s c = elim (Option-cases (argfd n (ofile p s))) [
  | inl e ↦ inl (false, s, close_out p n s e, c)
  | inr ((fd, f), e) ↦
      let live : 0 < ref_at s.io.ftable f = omega (arith, argfd_live n p fd f s e, c f) in
      elim (fileclose_cases f s.io live) [
        | inr stuck ↦ inr (fd, f, e, stuck)
        | inl (io', e1) ↦
            let at = argfd_lem n (ofile p s) fd f e in
            inl (
              true,
              record (put_fd p fd none s) { io = io' },
              close_at p fd f n s e
                  ∙ ap (λ m. m >>= λ x. ok (true, record (put_fd p fd none s) { io = x })) e1,
              λ k. omega (
                arith,
                fileclose_lem f s.io io' e1 k,
                c k,
                held-put_fd k p fd none s {x = some f} at,
              ),
            )
      ]
]
