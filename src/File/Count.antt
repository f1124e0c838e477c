-- ===== src/File/Count.antt =====
-- sysfile.c: the reference count of an open file is the number of descriptors that name it.
use os.Base.{
  ℕ, zero, suc, ◌+◌, ◌<◌, ◌≡◌, refl, ap, sym, subst, ◌∙◌, true, false, Option, none, some, List, [],
  ◌∷◌, get_elem?, get_elem?-set_self, get_elem?-some_lt, get_or, modify, set, total, total-modify,
  total-set, ok, ◌>>=◌, ℤ, index, arith, Option-cases, inl, inr,
}
use os.File.Defs.{File, filedup, fileclose}
use os.File.Table.{holds, ref_at, filedup_lem}
use os.File.Calls.{Files, ofile, put_fd, argfd, free_fd, fdalloc, dup_begin, sys_dup, sys_close}

-- How many descriptors name the file `k`.
abbrev pub held : ℕ → Files → ℕ
held k s = total (total (holds k)) s.ofiles

-- The count of each file is the number of descriptors that name it.
abbrev pub Counted : Files → Type 0
Counted s = (k : ℕ) → ref_at s.io.ftable k ≡ held k s

pub get_or-some {ℓ} :
    {A : Type ℓ} (xs : List (List A)) (i j : ℕ) {x : A}
    → get_elem? (get_or xs i []) j ≡ some x
    → get_elem? xs i ≡ some (get_or xs i [])
get_or-some [] i j h = absurd (ground (arith, h))
get_or-some (x ∷ xs) zero j h = refl
get_or-some (x ∷ xs) (suc i) j {x = y} h = get_or-some xs i j {x = y} h

pub held-put_fd :
    (k p fd : ℕ) (v : Option ℕ) (s : Files) {x : Option ℕ}
    → get_elem? (ofile p s) fd ≡ some x
    → held k (put_fd p fd v s) + holds k x ≡ held k s + holds k v
held-put_fd k p fd v s {x} h = omega (
  arith,
  total-modify (total (holds k)) (λ fds. set fds fd v) s.ofiles p
      (get_or-some s.ofiles p fd {x = x} h),
  total-set (holds k) (ofile p s) fd v {x = x} h,
)

-- fdalloc gives the file to a descriptor that was free.
free_fd_lem :
    (fds : List (Option ℕ)) (fd : ℕ) → free_fd fds ≡ some fd → get_elem? fds fd ≡ some none
unfolding free_fd
free_fd_lem [] fd h = absurd (ground (arith, h))
free_fd_lem (none ∷ fds) fd h = ground (arith, h)
free_fd_lem (some f ∷ fds) fd h = elim (Option-cases (free_fd fds)) [
  | inl e ↦ absurd (ground (arith, h, e))
  | inr (fd', e) ↦
      let next : fd' + 1 ≡ fd = ground (arith, h, e) in
      let place : suc fd' ≡ fd = omega (arith, next) in
      subst (λ j. get_elem? (some f ∷ fds) j ≡ some none) place (free_fd_lem fds fd' e)
]

get_or-modify {ℓ} :
    {A : Type ℓ} (xs : List (List A)) (i : ℕ) (g : List A → List A) (j : ℕ) {x : A}
    → get_elem? (get_or xs i []) j ≡ some x
    → get_or (modify xs i g) i [] ≡ g (get_or xs i [])
get_or-modify [] i g j h = absurd (ground (arith, h))
get_or-modify (x ∷ xs) zero g j h = refl
get_or-modify (x ∷ xs) (suc i) g j {x = y} h = get_or-modify xs i g j {x = y} h

get_elem?-put_fd :
    (p fd : ℕ) (v : Option ℕ) (s : Files) {x : Option ℕ}
    → get_elem? (ofile p s) fd ≡ some x
    → get_elem? (ofile p (put_fd p fd v s)) fd ≡ some v
get_elem?-put_fd p fd v s {x} h =
    ap (λ fds. get_elem? fds fd) (get_or-modify s.ofiles p (λ fds. set fds fd v) fd {x = x} h)
    ∙ get_elem?-set_self (ofile p s) fd v (get_elem?-some_lt (ofile p s) fd {x = x} h)

-- The call takes a descriptor for the file, and leaves the files as they are.
abbrev pub Given : ℕ → ℕ → Files → Option (ℕ × Files) → Type 0
Given p f s none = Unit {0}
Given p f s (some (fd, s')) =
    (s'.io ≡ s.io)
    × ((k : ℕ) → held k s' ≡ held k s + holds k (some f))
    × (get_elem? (ofile p s') fd ≡ some (some f))

fdalloc_full : (p f : ℕ) (s : Files) → free_fd (ofile p s) ≡ none → fdalloc p f s ≡ none
unfolding fdalloc
fdalloc_full p f s e = ground (arith, e)

fdalloc_at :
    (p f fd : ℕ) (s : Files)
    → free_fd (ofile p s) ≡ some fd
    → fdalloc p f s ≡ some (fd, put_fd p fd (some f) s)
unfolding fdalloc
fdalloc_at p f fd s e = ground (arith, e)

pub fdalloc-Given : (p f : ℕ) (s : Files) → Given p f s (fdalloc p f s)
fdalloc-Given p f s = elim (Option-cases (free_fd (ofile p s))) [
  | inl e ↦ subst (Given p f s) (sym (fdalloc_full p f s e)) tt
  | inr (fd, e) ↦
      let slot = free_fd_lem (ofile p s) fd e in
      subst (Given p f s) (sym (fdalloc_at p f fd s e)) (
        refl,
        (λ k. omega (arith, held-put_fd k p fd (some f) s {x = none} slot)),
        get_elem?-put_fd p fd (some f) s {x = none} slot,
      )
]

-- argfd finds a file that a descriptor names.
pub argfd_lem :
    (n : ℤ) (fds : List (Option ℕ)) (fd f : ℕ)
    → argfd n fds ≡ some (fd, f)
    → get_elem? fds fd ≡ some (some f)
unfolding argfd
argfd_lem n fds fd f h = elim (Option-cases (index n)) [
  | inl e ↦ absurd (ground (arith, h, e))
  | inr (i, e) ↦ elim (Option-cases (get_elem? fds i)) [
    | inl out ↦ absurd (ground (arith, h, e, out))
    | inr (slot, at) ↦ elim (Option-cases slot) [
      | inl empty ↦ absurd (ground (arith, h, e, at, empty))
      | inr (g, full) ↦ ground (arith, h, e, at, full)
    ]
  ]
]

pub argfd_live :
    (n : ℤ) (p fd f : ℕ) (s : Files) → argfd n (ofile p s) ≡ some (fd, f) → 0 < held f s
argfd_live n p fd f s h =
    let at = argfd_lem n (ofile p s) fd f h in
    ground (arith, held-put_fd f p fd none s {x = some f} at)

-- sys_dup up to its filedup: the new descriptor is not counted yet.
abbrev pub DupStarted : ℕ → Files → Option (ℕ × ℕ × Files) → Type 0
DupStarted p s none = Unit {0}
DupStarted p s (some (f, fd, s')) =
    (s'.io ≡ s.io)
    × ((k : ℕ) → held k s' ≡ held k s + holds k (some f))
    × (0 < held f s)
    × (get_elem? (ofile p s') fd ≡ some (some f))

dup_begin_out : (p : ℕ) (n : ℤ) (s : Files) → argfd n (ofile p s) ≡ none → dup_begin p n s ≡ none
unfolding dup_begin
dup_begin_out p n s e = ground (arith, e)

dup_begin_full :
    (p fd f : ℕ) (n : ℤ) (s : Files)
    → argfd n (ofile p s) ≡ some (fd, f)
    → fdalloc p f s ≡ none
    → dup_begin p n s ≡ none
unfolding dup_begin
dup_begin_full p fd f n s e e1 = ground (arith, e, e1)

dup_begin_at :
    (p fd f fd' : ℕ) (n : ℤ) (s s' : Files)
    → argfd n (ofile p s) ≡ some (fd, f)
    → fdalloc p f s ≡ some (fd', s')
    → dup_begin p n s ≡ some (f, fd', s')
unfolding dup_begin
dup_begin_at p fd f fd' n s s' e e1 = ground (arith, e, e1)

pub dup_begin-DupStarted : (p : ℕ) (n : ℤ) (s : Files) → DupStarted p s (dup_begin p n s)
dup_begin-DupStarted p n s = elim (Option-cases (argfd n (ofile p s))) [
  | inl e ↦ subst (DupStarted p s) (sym (dup_begin_out p n s e)) tt
  | inr ((fd, f), e) ↦ elim (Option-cases (fdalloc p f s)) [
    | inl e1 ↦ subst (DupStarted p s) (sym (dup_begin_full p fd f n s e e1)) tt
    | inr ((fd', s'), e1) ↦
        let (same, more, slot) = subst (Given p f s) e1 (fdalloc-Given p f s) in
        subst (DupStarted p s) (sym (dup_begin_at p fd f fd' n s s' e e1))
          (same, more, argfd_live n p fd f s e, slot)
  ]
]

dup_fails : (p : ℕ) (n : ℤ) (s : Files) → dup_begin p n s ≡ none → sys_dup p n s ≡ ok (none, s)
unfolding sys_dup
dup_fails p n s e = ground (arith, e)

dup_succeeds :
    (p f fd : ℕ) (n : ℤ) (s s' : Files) (ft : List File)
    → dup_begin p n s ≡ some (f, fd, s')
    → filedup f s'.io.ftable ≡ ok ft
    → sys_dup p n s ≡ ok (some fd, record s' { io = record s'.io { ftable = ft } })
unfolding sys_dup
dup_succeeds p f fd n s s' ft e e1 = ground (arith, e, e1)

-- If the count of each file is the number of descriptors that name it, dup returns and keeps it
-- so: it never panics, as the file that it finds is open.
pub sys_dup-Counted :
    (p : ℕ) (n : ℤ) (s : Files)
    → Counted s
    → (r : Option ℕ) × (s' : Files) × (sys_dup p n s ≡ ok (r, s')) × Counted s'
sys_dup-Counted p n s c = elim (Option-cases (dup_begin p n s)) [
  | inl e ↦ (none, s, dup_fails p n s e, c)
  | inr ((f, fd, s'), e) ↦
      let (same, more, live, _) = subst (DupStarted p s) e (dup_begin-DupStarted p n s) in
      let same_table : s'.io.ftable ≡ s.io.ftable = ap (λ io. io.ftable) same in
      let open' : 0 < ref_at s'.io.ftable f = rw same_table (omega (arith, live, c f)) in
      let (ft, e1, counts) = filedup_lem f s'.io.ftable open' in
      (
        some fd,
        record s' { io = record s'.io { ftable = ft } },
        dup_succeeds p f fd n s s' ft e e1,
        λ k. omega (arith, counts k, ap (λ t. ref_at t k) same_table, c k, more k),
      )
]

pub close_at :
    (p fd f : ℕ) (n : ℤ) (s : Files)
    → argfd n (ofile p s) ≡ some (fd, f)
    → sys_close p n s
      ≡ (fileclose f s.io >>= λ io'. ok (true, record (put_fd p fd none s) { io = io' }))
unfolding sys_close
close_at p fd f n s e = ground (arith, e)

pub close_out :
    (p : ℕ) (n : ℤ) (s : Files) → argfd n (ofile p s) ≡ none → sys_close p n s ≡ ok (false, s)
unfolding sys_close
close_out p n s e = ground (arith, e)
