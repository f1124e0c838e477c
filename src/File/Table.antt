-- ===== src/File/Table.antt =====
-- file.c: the reference counts of the file table.
use os.Base.{
  ℕ, zero, suc, ◌+◌, ◌-◌, ◌<◌, ◌==◌, ltb, ◌≡◌, refl, sym, subst, ◌∙◌, true, false, if◌then◌else◌,
  Option, none, some, List, [], ◌∷◌, get_elem?, set, modify, ok, deref, deref-eq-ok, >>=-Returned,
  arith, Bool-cases, Option-cases, inl, inr,
}
use os.Fs.Inode.{iput}
use os.Pipe.Defs.{pipeclose}
use os.File.Defs.{
  system, FileType, fd_none, fd_pipe, fd_inode, File, Io, filealloc, filedup, close_last, closed,
  fileclose, pipe_ends,
}

-- Whether a descriptor names the file `k`.
abbrev pub holds : ℕ → Option ℕ → ℕ
holds k none = 0
holds k (some f) = if k == f then 1 else 0

-- The count of the file `k`.
abbrev pub ref_at : List File → ℕ → ℕ
ref_at [] k = 0
ref_at (f ∷ fs) zero = f.ref
ref_at (f ∷ fs) (suc k) = ref_at fs k

ref_at-set :
    (ft : List File) (i k : ℕ) (f' : File) {f : File}
    → get_elem? ft i ≡ some f
    → ref_at (set ft i f') k ≡ (if k == i then f'.ref else ref_at ft k)
ref_at-set [] i k f' h = absurd (ground (arith, h))
ref_at-set (g ∷ ft) zero zero f' h = refl
ref_at-set (g ∷ ft) zero (suc k) f' h = ground arith
ref_at-set (g ∷ ft) (suc i) zero f' h = ground arith
ref_at-set (g ∷ ft) (suc i) (suc k) f' {f} h = ground (arith, ref_at-set ft i k f' {f = f} h)

pub ref_at-get : (ft : List File) (i : ℕ) {f : File} → get_elem? ft i ≡ some f → ref_at ft i ≡ f.ref
ref_at-get [] i h = absurd (ground (arith, h))
ref_at-get (g ∷ ft) zero h = ground (arith, h)
ref_at-get (g ∷ ft) (suc i) {f} h = ref_at-get ft i {f = f} h

pub ref_at-pos :
    (ft : List File) (i : ℕ)
    → 0 < ref_at ft i
    → (f : File) × (get_elem? ft i ≡ some f) × (ref_at ft i ≡ f.ref)
ref_at-pos [] i h = absurd (omega arith)
ref_at-pos (f ∷ ft) zero h = (f, refl, refl)
ref_at-pos (f ∷ ft) (suc i) h = ref_at-pos ft i h

-- filedup of a file that is open counts one more.
pub filedup_lem :
    (i : ℕ) (ft : List File)
    → 0 < ref_at ft i
    → (ft' : List File) × (filedup i ft ≡ ok ft')
      × ((k : ℕ) → ref_at ft' k ≡ ref_at ft k + holds k (some i))
unfolding filedup
filedup_lem i ft h =
    let (f, at, r) = ref_at-pos ft i h in
    let more : File = record f { ref = f.ref + 1 } in
    (
      set ft i more,
      ground (arith, at, h, r),
      λ k. ground (arith, r, ref_at-set ft i k more {f = f} at),
    )

pub close_last-ftable :
    (t : FileType) (f : File) (io io' : Io) → close_last t f io ≡ ok io' → io'.ftable ≡ io.ftable
unfolding close_last
close_last-ftable fd_none f io io' h = ground (arith, h)
close_last-ftable fd_pipe f io io' h =
    let (r, _, e) = >>=-Returned (pipeclose f.pipe f.writable (system f.pipe io) io.kmem) _ h in
    ground (arith, e)
close_last-ftable fd_inode f io io' h =
    let (r, _, e) = >>=-Returned (iput f.ip io.fs) _ h in ground (arith, e)

-- fileclose that returns counts one less.
pub fileclose_lem :
    (i : ℕ) (io io' : Io)
    → fileclose i io ≡ ok io'
    → (k : ℕ) → ref_at io'.ftable k + holds k (some i) ≡ ref_at io.ftable k
unfolding fileclose
fileclose_lem i io io' h k =
    let (f, got, _) = >>=-Returned (deref (get_elem? io.ftable i)) _ h in
    let at : get_elem? io.ftable i ≡ some f = deref-eq-ok (get_elem? io.ftable i) got in
    elim (Bool-cases (ltb f.ref 1)) [
      | inl none_left ↦ absurd (ground (arith, h, at, none_left))
      | inr some_left ↦ elim (Bool-cases (ltb 0 (f.ref - 1))) [
        | inl shared ↦ ground (
          arith,
          h,
          at,
          some_left,
          shared,
          ref_at-get io.ftable i {f = f} at,
          ref_at-set io.ftable i k (record f { ref = f.ref - 1 }) {f = f} at,
        )
        | inr last ↦
            let step : close_last f.type f (record io { ftable = set io.ftable i (closed f) })
                ≡ ok io' =
              ground (arith, h, at, some_left, last) in
            ground (
              arith,
              some_left,
              last,
              ref_at-get io.ftable i {f = f} at,
              ref_at-set io.ftable i k (closed f) {f = f} at,
              close_last-ftable f.type f _ io' step,
            )
      ]
    ]

-- What filealloc does: the file `i` gets its first reference.
abbrev pub Allocated : List File → Option (ℕ × List File) → Type 0
Allocated ft none = Unit {0}
Allocated ft (some (i, ft')) = (k : ℕ) → ref_at ft' k ≡ ref_at ft k + holds k (some i)

filealloc_first :
    (f : File) (ft : List File)
    → (f.ref == 0) ≡ true
    → filealloc (f ∷ ft) ≡ some (0, record f { ref = 1 } ∷ ft)
unfolding filealloc
filealloc_first f ft h = ground (arith, h)

filealloc_full :
    (f : File) (ft : List File)
    → (f.ref == 0) ≡ false
    → filealloc ft ≡ none
    → filealloc (f ∷ ft) ≡ none
unfolding filealloc
filealloc_full f ft h e = ground (arith, h, e)

filealloc_later :
    (f : File) (ft ft' : List File) (i : ℕ)
    → (f.ref == 0) ≡ false
    → filealloc ft ≡ some (i, ft')
    → filealloc (f ∷ ft) ≡ some (i + 1, f ∷ ft')
unfolding filealloc
filealloc_later f ft ft' i h e = ground (arith, h, e)

first_ref :
    (f : File) (ft : List File)
    → (f.ref == 0) ≡ true
    → Allocated (f ∷ ft) (some (0, record f { ref = 1 } ∷ ft))
first_ref f ft h zero = ground (arith, h)
first_ref f ft h (suc k) = ground arith

later_ref :
    (f : File) (ft ft' : List File) (i : ℕ)
    → Allocated ft (some (i, ft'))
    → Allocated (f ∷ ft) (some (i + 1, f ∷ ft'))
later_ref f ft ft' i h zero = ground arith
later_ref f ft ft' i h (suc k) = ground (arith, h k)

pub filealloc-Allocated : (ft : List File) → Allocated ft (filealloc ft)
unfolding filealloc
filealloc-Allocated [] = tt
filealloc-Allocated (f ∷ ft) = elim (Bool-cases (f.ref == 0)) [
  | inl free ↦ subst (Allocated (f ∷ ft)) (sym (filealloc_first f ft free)) (first_ref f ft free)
  | inr used ↦ elim (Option-cases (filealloc ft)) [
    | inl out ↦ subst (Allocated (f ∷ ft)) (sym (filealloc_full f ft used out)) tt
    | inr ((i, ft'), e) ↦
        subst (Allocated (f ∷ ft)) (sym (filealloc_later f ft ft' i used e))
          (later_ref f ft ft' i (subst (Allocated ft) e (filealloc-Allocated ft)))
  ]
]

ref_at-modify :
    (ft : List File) (i k : ℕ) (g : File → File)
    → ((f : File) → (g f).ref ≡ f.ref)
    → ref_at (modify ft i g) k ≡ ref_at ft k
ref_at-modify [] i k g h = refl
ref_at-modify (f ∷ ft) zero zero g h = h f
ref_at-modify (f ∷ ft) zero (suc k) g h = refl
ref_at-modify (f ∷ ft) (suc i) zero g h = refl
ref_at-modify (f ∷ ft) (suc i) (suc k) g h = ref_at-modify ft i k g h

-- The ends of a new pipe have the counts that the files had.
pub ref_at-pipe_ends :
    (a i j : ℕ) (ft : List File) (k : ℕ) → ref_at (pipe_ends a i j ft) k ≡ ref_at ft k
unfolding pipe_ends
ref_at-pipe_ends a i j ft k =
    ref_at-modify _ j k
      (λ f. record f { type = fd_pipe; readable = false; writable = true; pipe = a }) (λ f. refl)
    ∙ ref_at-modify ft i k
        (λ f. record f { type = fd_pipe; readable = true; writable = false; pipe = a }) (λ f. refl)
