-- ===== src/Fs/Names.antt =====
-- fs.c: what skipelem takes from a path, and that a walk along a path ends.
use os.Base.{
  ℕ, zero, suc, ◌+◌, ◌<◌, ◌==◌, ◌≡◌, ◌≢◌, refl, ap, sym, subst, ◌∙◌, not, Bool, true, false, ◌&&◌,
  if◌then◌else◌, Option, none, some, List, [], ◌∷◌, ◌++◌, length, length-append, take, All, Result,
  ok, ◌>>=◌, >>=-Returned, deref, get_elem?, arith, Bool-cases, List-cases, Option-cases, inl, inr,
  append-nil,
}
use os.Fs.Layout.{dirsiz}
use os.Fs.Inode.{Fs, t_dir, iget, Locking, locked, sleeps, ilock, iunlock, iput, iunlockput}
use os.Fs.Content.{Devices}
use os.Fs.Path.{
  slash, skip_slashes, span_elem, elem_of, skipelem, Walk, arrived, nowhere, stopped, walk_name,
  walk, dirlookup, rootdev, rootino, namex,
}

abbrev pub IsSlash : ℕ → Type 0
IsSlash c = (c == slash) ≡ true

abbrev pub NoSlash : ℕ → Type 0
NoSlash c = (c == slash) ≡ false

-- A path that does not start with a slash.
abbrev pub Trimmed : List ℕ → Type 0
Trimmed [] = Unit {0}
Trimmed (c ∷ cs) = NoSlash c

skip_slash : (c : ℕ) (cs : List ℕ) → IsSlash c → skip_slashes (c ∷ cs) ≡ skip_slashes cs
unfolding skip_slashes
skip_slash c cs h = rw h refl

skip_stop : (c : ℕ) (cs : List ℕ) → NoSlash c → skip_slashes (c ∷ cs) ≡ c ∷ cs
unfolding skip_slashes
skip_stop c cs h = rw h refl

span_slash : (c : ℕ) (cs : List ℕ) → IsSlash c → span_elem (c ∷ cs) ≡ ([], c ∷ cs)
unfolding span_elem
span_slash c cs h = rw h refl

span_next :
    (c : ℕ) (cs : List ℕ)
    → NoSlash c
    → span_elem (c ∷ cs) ≡ (c ∷ (span_elem cs).0, (span_elem cs).1)
unfolding span_elem
span_next c cs h = rw h refl

nil_lem : skip_slashes [] ≡ []
unfolding skip_slashes
nil_lem = refl

-- `rest` is `path` without the slashes at its front.
abbrev pub Skipped : List ℕ → List ℕ → Type 0
Skipped path rest = (xs : List ℕ) × (path ≡ xs ++ rest) × All IsSlash xs × Trimmed rest

skip_slashes-Skipped : (path : List ℕ) → Skipped path (skip_slashes path)
skip_slashes-Skipped [] = subst (Skipped []) (sym nil_lem) ([], refl, tt, tt)
skip_slashes-Skipped (c ∷ cs) = elim (Bool-cases (c == slash)) [
  | inl is_slash ↦
      let (xs, e, all, trim) = skip_slashes-Skipped cs in
      subst (Skipped (c ∷ cs)) (sym (skip_slash c cs is_slash))
        (c ∷ xs, ap (λ l. c ∷ l) e, (is_slash, all), trim)
  | inr other ↦ subst (Skipped (c ∷ cs)) (sym (skip_stop c cs other)) ([], refl, tt, other)
]

-- Behind a name stands nothing, or a slash.
abbrev pub AtEnd : List ℕ → Type 0
AtEnd [] = Unit {0}
AtEnd (c ∷ cs) = IsSlash c

abbrev pub Spanned : List ℕ → List ℕ × List ℕ → Type 0
Spanned path (xs, rest) = (path ≡ xs ++ rest) × All NoSlash xs × AtEnd rest

span_elem-Spanned : (path : List ℕ) → Spanned path (span_elem path)
unfolding span_elem
span_elem-Spanned [] = (refl, tt, tt)
span_elem-Spanned (c ∷ cs) = elim (Bool-cases (c == slash)) [
  | inl is_slash ↦ subst (Spanned (c ∷ cs)) (sym (span_slash c cs is_slash)) (refl, tt, is_slash)
  | inr other ↦
      let (e, all, end) = span_elem-Spanned cs in
      subst (Spanned (c ∷ cs)) (sym (span_next c cs other)) (ap (λ l. c ∷ l) e, (other, all), end)
]

-- What skipelem makes of a path: it finds nothing but slashes, or it finds a name that is not
-- empty, with slashes around it and the rest of the path behind.
abbrev pub Skip : List ℕ → Option (List ℕ × List ℕ) → Type 0
Skip path none = All IsSlash path
Skip path (some (name, rest)) =
    (front : List ℕ) × (elem : List ℕ) × (gap : List ℕ) × (path ≡ front ++ (elem ++ (gap ++ rest)))
    × All IsSlash front
    × All NoSlash elem
    × (elem ≢ [])
    × All IsSlash gap
    × Trimmed rest
    × (name ≡ take dirsiz elem)

skipelem_blank : (path : List ℕ) → skip_slashes path ≡ [] → skipelem path ≡ none
unfolding skipelem
skipelem_blank path e = ground (arith, e)

skipelem_split :
    (path : List ℕ) (c : ℕ) (cs : List ℕ)
    → skip_slashes path ≡ c ∷ cs
    → skipelem path ≡ some (elem_of (span_elem (c ∷ cs)))
unfolding skipelem
skipelem_split path c cs e = ground (arith, e)

span_some : (c : ℕ) (cs : List ℕ) → NoSlash c → (span_elem (c ∷ cs)).0 ≢ []
span_some c cs h z = ground (arith, span_next c cs h, z)

-- skipelem splits a path: slashes, the first name in it, slashes, and a rest that starts with no
-- slash. The name is cut to DIRSIZ characters. It returns 0 exactly on a path of slashes alone.
skipelem-Skip : (path : List ℕ) → Skip path (skipelem path)
skipelem-Skip path = elim (List-cases (skip_slashes path)) [
  | inl empty ↦
      let (xs, split, all, _) = skip_slashes-Skipped path in
      subst (Skip path) (sym (skipelem_blank path empty))
        (subst (All IsSlash) (sym (split ∙ ap (λ r. xs ++ r) empty ∙ append-nil xs)) all)
  | inr (c, cs, e) ↦
      let (xs, split, all, trim) = skip_slashes-Skipped path in
      let (split1, letters, end) = span_elem-Spanned (c ∷ cs) in
      let (gap, split2, all2, trim2) = skip_slashes-Skipped (span_elem (c ∷ cs)).1 in
      subst (Skip path) (sym (skipelem_split path c cs e)) (
        xs,
        (span_elem (c ∷ cs)).0,
        gap,
        split ∙ ap (λ r. xs ++ r) (e ∙ split1 ∙ ap (λ r. (span_elem (c ∷ cs)).0 ++ r) split2),
        all,
        letters,
        (λ z. span_some c cs (subst Trimmed e trim) z),
        all2,
        trim2,
        refl,
      )
]

-- Each name that is taken makes the path shorter.
skipelem-lt :
    (path name rest : List ℕ) → skipelem path ≡ some (name, rest) → length rest < length path
skipelem-lt path name rest h =
    let (front, elem, gap, split, _, _, some_elem, _, _, _) =
      subst (Skip path) h (skipelem-Skip path) in
    let long : 0 < length elem = elim (List-cases elem) [
      | inl nil ↦ absurd (some_elem nil)
      | inr (x, xs, e) ↦ rw e (omega arith)
    ] in
    omega (
      arith,
      long,
      ap length split,
      length-append {0} front (elem ++ (gap ++ rest)),
      length-append {0} elem (gap ++ rest),
      length-append {0} gap rest,
    )

-- The walk comes to an end.
abbrev pub Ends : Result Walk → Type 0
Ends r = r ≢ ok stopped

Ends-bind {ℓ} :
    {A : Type ℓ} (m : Result A) (f : A → Result Walk)
    → ((a : A) → m ≡ ok a → Ends (f a))
    → Ends (m >>= f)
Ends-bind m f h e = let (a, e1, e2) = >>=-Returned m f e in h a e1 e2

Ends-Bool :
    {r s : Result Walk} (b : Bool) → Ends r → Ends s → Ends (elim b [ true ↦ r | false ↦ s ])
Ends-Bool true hr hs = hr
Ends-Bool false hr hs = hs

Ends-if : {r s : Result Walk} (b : Bool) → Ends r → Ends s → Ends (if b then r else s)
Ends-if true hr hs = hr
Ends-if false hr hs = hs

Ends-Option {ℓ} :
    {A : Type ℓ} {r : Result Walk} {s : A → Result Walk} (o : Option A)
    → Ends r
    → ((a : A) → Ends (s a))
    → Ends (elim o [ none ↦ r | some a ↦ s a ])
Ends-Option none hr hs = hr
Ends-Option (some a) hr hs = hs a

Ends-Locking :
    {r : Result Walk} {s : Fs → Result Walk} (l : Locking)
    → Ends r
    → ((fs : Fs) → Ends (s fs))
    → Ends (elim l [ sleeps ↦ r | locked fs ↦ s fs ])
Ends-Locking sleeps hr hs = hr
Ends-Locking (locked fs) hr hs = hs fs

module _ (dv : Devices) where
  walk_name-Ends :
      (again : ℕ → Fs → Result Walk) (parent : Bool) (i : ℕ) (name rest : List ℕ) (fs : Fs)
      → ((j : ℕ) (fs' : Fs) → Ends (again j fs'))
      → Ends (walk_name dv again parent i name rest fs)
  unfolding walk_name
  walk_name-Ends again parent i name rest fs h = Ends-bind (ilock i fs) _ (λ l _.
      Ends-Locking l (λ e. cc)
        (λ fs1. Ends-bind (deref (get_elem? fs1.icache i)) _ (λ ip _.
          Ends-Bool (not (ip.type == t_dir)) (Ends-bind (iunlockput i fs1) _ (λ fs2 _ e. cc)) (
            Ends-Bool (parent && length rest == 0) (Ends-bind (iunlock i fs1) _ (λ fs2 _ e. cc)) (
              Ends-bind (dirlookup dv i name fs1) _ (λ next _.
                Ends-Option next.0 (Ends-bind (iunlockput i next.1) _ (λ fs3 _ e. cc))
                  (λ to. Ends-bind (iunlockput i next.1) _ (λ fs3 _. h to.0 fs3))))))))

  pub walk_at_end :
      (f : ℕ) (parent : Bool) (i : ℕ) (path name : List ℕ) (fs : Fs)
      → skipelem path ≡ none
      → walk dv (suc f) parent i path name fs
        ≡ (if parent then (iput i fs >>= λ fs'. ok (nowhere fs')) else ok (arrived i name fs))
  unfolding walk
  walk_at_end f parent i path name fs e = rw (e, walk) refl

  pub walk_at_name :
      (f : ℕ) (parent : Bool) (i : ℕ) (path name name' rest : List ℕ) (fs : Fs)
      → skipelem path ≡ some (name', rest)
      → walk dv (suc f) parent i path name fs
        ≡ walk_name dv (λ j fs'. walk dv f parent j rest name' fs') parent i name' rest fs
  unfolding walk
  walk_at_name f parent i path name name' rest fs e = rw (e, walk) refl

  walk-Ends :
      (f : ℕ) (parent : Bool) (i : ℕ) (path name : List ℕ) (fs : Fs)
      → length path < f
      → Ends (walk dv f parent i path name fs)
  walk-Ends zero parent i path name fs h = absurd (omega arith)
  walk-Ends (suc f) parent i path name fs h = elim (Option-cases (skipelem path)) [
    | inl e ↦
        subst Ends (sym (walk_at_end f parent i path name fs e))
          (Ends-if parent (Ends-bind (iput i fs) _ (λ fs' _ e1. cc)) (λ e1. cc))
    | inr ((name', rest), e) ↦
        subst Ends (sym (walk_at_name f parent i path name name' rest fs e)) (
          walk_name-Ends _ parent i name' rest fs (λ j fs'.
            walk-Ends f parent j rest name' fs' (omega (arith, skipelem-lt path name' rest e))))
  ]

  -- A walk along a path comes to an end: the loop of namex takes at most as many names from the
  -- path as it has characters, so namex finds the inode, finds nothing, sleeps on an inode that is
  -- locked, panics, or reads outside an array. It never runs on.
  pub namex-Ends :
      (path : List ℕ) (parent : Bool) (cwd : ℕ) (fs : Fs) → Ends (namex dv path parent cwd fs)
  unfolding namex
  namex-Ends [] parent cwd fs = walk-Ends 1 parent cwd [] [] _ (omega arith)
  namex-Ends (c ∷ cs) parent cwd fs =
      Ends-if (c == slash)
        (Ends-bind (iget rootdev rootino fs.icache) _
          (λ got _. walk-Ends (length (c ∷ cs) + 1) parent got.0 (c ∷ cs) [] _ (omega arith)))
        (walk-Ends (length (c ∷ cs) + 1) parent cwd (c ∷ cs) [] _ (omega arith))
