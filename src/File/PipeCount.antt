-- ===== src/File/PipeCount.antt =====
-- pipealloc and sys_pipe keep the reference counts, also where they fail half way.
use os.Base.{
  ℕ, ◌+◌, ◌==◌, ◌≡◌, ap, sym, subst, ◌∙◌, true, false, Option, none, some, List, Result, ok, ◌>>=◌,
  >>=-Returned, arith, Bool-cases, Option-cases, inl, inr,
}
use os.Kalloc.Defs.{kalloc}
use os.Pipe.Defs.{fresh_pipe}
use os.File.Defs.{File, Io, put_pipe, filealloc, fileclose, pipealloc, pipe_ends}
use os.File.Calls.{Files, put_fd, fdalloc, undo_pipe, sys_pipe}
use os.File.Table.{holds, ref_at, fileclose_lem, Allocated, filealloc-Allocated, ref_at-pipe_ends}
use os.File.Count.{held, Counted, held-put_fd, Given, fdalloc-Given}

-- The references that a new pipe gives to the file `k`.
abbrev pub by_ends : ℕ → Option (ℕ × ℕ) → ℕ
by_ends k none = 0
by_ends k (some (i, j)) = holds k (some i) + holds k (some j)

-- What pipealloc does to the counts, where it returns.
abbrev Alloced : Io → Result (Option (ℕ × ℕ) × Io) → Type 0
Alloced io out =
    (ends : Option (ℕ × ℕ)) (io' : Io)
    → out ≡ ok (ends, io')
    → (k : ℕ) → ref_at io'.ftable k ≡ ref_at io.ftable k + by_ends k ends

-- A result that is known has its counts.
at_result :
    (base : ℕ) (k : ℕ) (ends ends' : Option (ℕ × ℕ)) (io io' : Io)
    → ◌≡◌ {A = Result (Option (ℕ × ℕ) × Io)} (ok (ends, io)) (ok (ends', io'))
    → ref_at io.ftable k ≡ base + by_ends k ends
    → ref_at io'.ftable k ≡ base + by_ends k ends'
at_result base k ends ends' io io' h counts =
    let same_io : io ≡ io' = ground (arith, h) in
    let same_ends : ends ≡ ends' = ground (arith, h) in
    omega (arith, ap (λ x. ref_at x.ftable k) same_io, ap (by_ends k) same_ends, counts)

module _ (page : List ℕ) (io : Io) where
  no_file : filealloc io.ftable ≡ none → pipealloc page io ≡ ok (none, io)
  unfolding pipealloc
  no_file e = ground (arith, e)

  one_file :
      (i : ℕ) (ft1 : List File)
      → filealloc io.ftable ≡ some (i, ft1)
      → filealloc ft1 ≡ none
      → pipealloc page io ≡ (fileclose i (record io { ftable = ft1 }) >>= λ io'. ok (none, io'))
  unfolding pipealloc
  one_file i ft1 e e1 = ground (arith, e, e1)

  abbrev two_files : List File → Io
  two_files ft2 = record io { ftable = ft2; kmem = (kalloc io.kmem).1 }

  no_page :
      (i j : ℕ) (ft1 ft2 : List File)
      → filealloc io.ftable ≡ some (i, ft1)
      → filealloc ft1 ≡ some (j, ft2)
      → ((kalloc io.kmem).0 == 0) ≡ true
      → pipealloc page io
        ≡ (fileclose i (two_files ft2) >>= λ io3. fileclose j io3 >>= λ io4. ok (none, io4))
  unfolding pipealloc
  no_page i j ft1 ft2 e e1 e2 = ground (arith, e, e1, e2)

  made :
      (i j : ℕ) (ft1 ft2 : List File)
      → filealloc io.ftable ≡ some (i, ft1)
      → filealloc ft1 ≡ some (j, ft2)
      → ((kalloc io.kmem).0 == 0) ≡ false
      → pipealloc page io
        ≡ ok (
          some (i, j),
          record (two_files ft2) {
            ftable = pipe_ends (kalloc io.kmem).0 i j ft2;
            pipes = put_pipe (kalloc io.kmem).0 (fresh_pipe page) io.pipes;
          },
        )
  unfolding pipealloc
  made i j ft1 ft2 e e1 e2 = ground (arith, e, e1, e2)

  pipealloc-Alloced : Alloced io (pipealloc page io)
  pipealloc-Alloced ends io' h k = elim (Option-cases (filealloc io.ftable)) [
    | inl e ↦ at_result (ref_at io.ftable k) k none ends io io' (sym (no_file e) ∙ h) (omega arith)
    | inr ((i, ft1), e) ↦
        let first = subst (Allocated io.ftable) e (filealloc-Allocated io.ftable) in
        elim (Option-cases (filealloc ft1)) [
          | inl e1 ↦
              let (io1, c, out) =
                >>=-Returned (fileclose i (record io { ftable = ft1 })) _
                  (sym (one_file i ft1 e e1) ∙ h) in
              at_result (ref_at io.ftable k) k none ends io1 io' out
                (omega (arith, first k, fileclose_lem i _ io1 c k))
          | inr ((j, ft2), e1) ↦
              let second = subst (Allocated ft1) e1 (filealloc-Allocated ft1) in
              elim (Bool-cases ((kalloc io.kmem).0 == 0)) [
                | inl e2 ↦
                    let (io3, c, h1) =
                      >>=-Returned (fileclose i (two_files ft2)) _
                        (sym (no_page i j ft1 ft2 e e1 e2) ∙ h) in
                    let (io4, c1, out) = >>=-Returned (fileclose j io3) _ h1 in
                    at_result (ref_at io.ftable k) k none ends io4 io' out (
                      omega (
                        arith,
                        first k,
                        second k,
                        fileclose_lem i _ io3 c k,
                        fileclose_lem j io3 io4 c1 k,
                      ))
                | inr e2 ↦
                    at_result (ref_at io.ftable k) k (some (i, j)) ends _ io'
                      (sym (made i j ft1 ft2 e e1 e2) ∙ h)
                      (omega
                        (arith, first k, second k, ref_at-pipe_ends (kalloc io.kmem).0 i j ft2 k))
              ]
        ]
  ]

-- Closing both files takes their references away.
undo_pipe_lem :
    (rf wf : ℕ) (s s' : Files) (r : Option (ℕ × ℕ))
    → undo_pipe rf wf s ≡ ok (r, s')
    → (k : ℕ)
    → (held k s' ≡ held k s)
      × (ref_at s'.io.ftable k + by_ends k (some (rf, wf)) ≡ ref_at s.io.ftable k)
unfolding undo_pipe
undo_pipe_lem rf wf s s' r h k =
    let (io1, c, h1) = >>=-Returned (fileclose rf s.io) _ h in
    let (io2, c1, out) = >>=-Returned (fileclose wf io1) _ h1 in
    let same : record s { io = io2 } ≡ s' = ground (arith, out) in
    (
      ap (held k) (sym same),
      omega (
        arith,
        ap (λ x. ref_at x.io.ftable k) same,
        fileclose_lem rf s.io io1 c k,
        fileclose_lem wf io1 io2 c1 k,
      ),
    )

module _ (p : ℕ) (page : List ℕ) (s : Files) where
  abbrev with_io : Io → Files
  with_io io1 = record s { io = io1 }

  pipe_no_files :
      (io1 : Io) → pipealloc page s.io ≡ ok (none, io1) → sys_pipe p page s ≡ ok (none, with_io io1)
  unfolding sys_pipe
  pipe_no_files io1 e = ground (arith, e)

  pipe_no_fd :
      (rf wf : ℕ) (io1 : Io)
      → pipealloc page s.io ≡ ok (some (rf, wf), io1)
      → fdalloc p rf (with_io io1) ≡ none
      → sys_pipe p page s ≡ undo_pipe rf wf (with_io io1)
  unfolding sys_pipe
  pipe_no_fd rf wf io1 e e1 = ground (arith, e, e1)

  pipe_one_fd :
      (rf wf fd0 : ℕ) (io1 : Io) (s2 : Files)
      → pipealloc page s.io ≡ ok (some (rf, wf), io1)
      → fdalloc p rf (with_io io1) ≡ some (fd0, s2)
      → fdalloc p wf s2 ≡ none
      → sys_pipe p page s ≡ undo_pipe rf wf (put_fd p fd0 none s2)
  unfolding sys_pipe
  pipe_one_fd rf wf fd0 io1 s2 e e1 e2 = ground (arith, e, e1, e2)

  pipe_made :
      (rf wf fd0 fd1 : ℕ) (io1 : Io) (s2 s3 : Files)
      → pipealloc page s.io ≡ ok (some (rf, wf), io1)
      → fdalloc p rf (with_io io1) ≡ some (fd0, s2)
      → fdalloc p wf s2 ≡ some (fd1, s3)
      → sys_pipe p page s ≡ ok (some (fd0, fd1), s3)
  unfolding sys_pipe
  pipe_made rf wf fd0 fd1 io1 s2 s3 e e1 e2 = ground (arith, e, e1, e2)

  pipe_files :
      (r : Option (ℕ × ℕ)) (s' : Files)
      → sys_pipe p page s ≡ ok (r, s')
      → (ends : Option (ℕ × ℕ)) × (io1 : Io) × (pipealloc page s.io ≡ ok (ends, io1))
  unfolding sys_pipe
  pipe_files r s' h =
      let (made, e, _) = >>=-Returned (pipealloc page s.io) _ h in (made.0, made.1, e)

  -- If the count of each file is the number of descriptors that name it, then so it is after pipe,
  -- whether it gives two descriptors or closes what it had opened, because the table of files, the
  -- memory or the descriptors ran out. The condition is that the call returns.
  pub sys_pipe-Counted :
      (r : Option (ℕ × ℕ)) (s' : Files) → Counted s → sys_pipe p page s ≡ ok (r, s') → Counted s'
  sys_pipe-Counted r s' c h =
      let (ends, io1, e) = pipe_files r s' h in
      let alloced = pipealloc-Alloced page s.io ends io1 e in
      elim (Option-cases ends) [
        | inl failed ↦
            let out = sym (pipe_no_files io1 (e ∙ ap (λ x. ok (x, io1)) failed)) ∙ h in
            let same : with_io io1 ≡ s' = ground (arith, out) in
            subst Counted same (λ k. omega (arith, alloced k, ap (by_ends k) failed, c k))
        | inr ((rf, wf), yes_ends) ↦
            let e' = e ∙ ap (λ x. ok (x, io1)) yes_ends in
            elim (Option-cases (fdalloc p rf (with_io io1))) [
              | inl e1 ↦ λ k.
                  let (same_held, less) =
                    undo_pipe_lem rf wf (with_io io1) s' r (sym (pipe_no_fd rf wf io1 e' e1) ∙ h)
                      k in
                  omega (arith, same_held, less, alloced k, ap (by_ends k) yes_ends, c k)
              | inr ((fd0, s2), e1) ↦
                  let (io2, more, slot) =
                    subst (Given p rf (with_io io1)) e1 (fdalloc-Given p rf (with_io io1)) in
                  elim (Option-cases (fdalloc p wf s2)) [
                    | inl e2 ↦ λ k.
                        let (same_held, less) =
                          undo_pipe_lem rf wf (put_fd p fd0 none s2) s' r
                            (sym (pipe_one_fd rf wf fd0 io1 s2 e' e1 e2) ∙ h) k in
                        omega (
                          arith,
                          same_held,
                          less,
                          alloced k,
                          ap (by_ends k) yes_ends,
                          c k,
                          held-put_fd k p fd0 none s2 {x = some rf} slot,
                          more k,
                          ap (λ x. ref_at x.ftable k) io2,
                        )
                    | inr ((fd1, s3), e2) ↦
                        let (io3, more3, _) = subst (Given p wf s2) e2 (fdalloc-Given p wf s2) in
                        let out = sym (pipe_made rf wf fd0 fd1 io1 s2 s3 e' e1 e2) ∙ h in
                        let same : s3 ≡ s' = ground (arith, out) in
                        subst Counted same (λ k. omega (
                          arith,
                          alloced k,
                          ap (by_ends k) yes_ends,
                          c k,
                          more k,
                          more3 k,
                          ap (λ x. ref_at x.ftable k) io2,
                          ap (λ x. ref_at x.ftable k) io3,
                        ))
                  ]
            ]
      ]
