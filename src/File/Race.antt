-- ===== src/File/Race.antt =====
-- sysfile.c: a thread that closes a descriptor while another thread of the process is in dup.
use os.Base.{
  ℕ, ◌-◌, ltb, ◌≡◌, ap, sym, subst, ◌∙◌, Bool, Option, none, some, List, get_elem?,
  get_elem?-set_self, get_elem?-some_lt, set, ok, panic, deref, deref-eq-ok, >>=-Returned, ℤ, pos,
  arith, Bool-cases, inl, inr,
}
use os.File.Defs.{File, Io, filedup, close_last, closed, fileclose}
use os.File.Calls.{Files, ofile, put_fd, argfd, dup_begin, dup_end, sys_close}
use os.File.Table.{ref_at, ref_at-get, fileclose_lem, close_last-ftable}
use os.File.Count.{held, held-put_fd, Counted, DupStarted, dup_begin-DupStarted, close_at}

-- The file stays in the table.
fileclose_entry :
    (i : ℕ) (io io' : Io) → fileclose i io ≡ ok io' → (f : File) × (get_elem? io'.ftable i ≡ some f)
unfolding fileclose
fileclose_entry i io io' h =
    let (f, got, _) = >>=-Returned (deref (get_elem? io.ftable i)) _ h in
    let at : get_elem? io.ftable i ≡ some f = deref-eq-ok (get_elem? io.ftable i) got in
    let self : (g : File) → get_elem? (set io.ftable i g) i ≡ some g =
      λ g. get_elem?-set_self io.ftable i g (get_elem?-some_lt io.ftable i {x = f} at) in
    elim (Bool-cases (ltb f.ref 1)) [
      | inl none_left ↦ absurd (ground (arith, h, at, none_left))
      | inr some_left ↦ elim (Bool-cases (ltb 0 (f.ref - 1))) [
        | inl shared ↦
            let out : record io { ftable = set io.ftable i (record f { ref = f.ref - 1 }) } ≡ io' =
              ground (arith, h, at, some_left, shared) in
            (record f { ref = f.ref - 1 }, ap (λ x. get_elem? x.ftable i) (sym out) ∙ self _)
        | inr last ↦
            let step : close_last f.type f (record io { ftable = set io.ftable i (closed f) })
                ≡ ok io' =
              ground (arith, h, at, some_left, last) in
            (
              closed f,
              ap (λ t. get_elem? t i) (close_last-ftable f.type f _ io' step) ∙ self (closed f),
            )
      ]
    ]

filedup_closed :
    (i : ℕ) (ft : List File) {f : File}
    → get_elem? ft i ≡ some f
    → f.ref ≡ 0
    → filedup i ft ≡ panic "filedup"
unfolding filedup
filedup_closed i ft at free = ground (arith, at, free)

dup_end_panics :
    (f fd : ℕ) (s : Files)
    → filedup f s.io.ftable ≡ panic "filedup"
    → dup_end f fd s ≡ panic "filedup"
unfolding dup_end
dup_end_panics f fd s e = ground (arith, e)

argfd_at :
    (fd f : ℕ) (fds : List (Option ℕ))
    → get_elem? fds fd ≡ some (some f)
    → argfd (pos fd) fds ≡ some (fd, f)
unfolding argfd
argfd_at fd f fds at = ground (arith, at)

-- dup gives the new descriptor out before it counts it. If the file has one reference, and another
-- thread of the process closes the new descriptor in between, then the file is closed under the
-- descriptor that still names it, and dup panics. The counts are assumed right at the start.
pub dup_closed :
    (p f fd' : ℕ) (n : ℤ) (s s' s'' : Files) (r : Bool)
    → Counted s
    → held f s ≡ 1
    → dup_begin p n s ≡ some (f, fd', s')
    → sys_close p (pos fd') s' ≡ ok (r, s'')
    → (held f s'' ≡ 1) × (ref_at s''.io.ftable f ≡ 0) × (dup_end f fd' s'' ≡ panic "filedup")
dup_closed p f fd' n s s' s'' r c one start h =
    let (same, more, _, slot) = subst (DupStarted p s) start (dup_begin-DupStarted p n s) in
    let (io', e, out) =
      >>=-Returned (fileclose f s'.io) _
        (sym (close_at p fd' f (pos fd') s' (argfd_at fd' f (ofile p s') slot)) ∙ h) in
    let now : record (put_fd p fd' none s') { io = io' } ≡ s'' = ground (arith, out) in
    let (g, at) = fileclose_entry f s'.io io' e in
    let gone : ref_at io'.ftable f ≡ 0 =
      ground (arith, fileclose_lem f s'.io io' e f, ap (λ x. ref_at x.ftable f) same, c f, one) in
    let held_now : held f s'' ≡ 1 =
      ground (
        arith,
        sym (ap (held f) now),
        held-put_fd f p fd' none s' {x = some f} slot,
        more f,
        one,
      ) in
    let free : ref_at s''.io.ftable f ≡ 0 = sym (ap (λ x. ref_at x.io.ftable f) now) ∙ gone in
    let at' : get_elem? s''.io.ftable f ≡ some g =
      sym (ap (λ x. get_elem? x.io.ftable f) now) ∙ at in
    (
      held_now,
      free,
      dup_end_panics f fd' s'' (
          filedup_closed f s''.io.ftable {f = g} at'
            (sym (ref_at-get s''.io.ftable f {f = g} at') ∙ free)),
    )
