-- ===== src/Sh/Terminate.antt =====
-- sh.c: what nulterminate does to the line.
use os.Base.{
  ℕ, ◌+◌, ◌-◌, ◌<◌, ◌==◌, ◌≡◌, refl, subst, ◌∙◌, some, List, [], ◌∷◌, length, get_elem?,
  get_elem?-set_self, get_elem?-set_ne, length-set, set, All, arith, Bool-cases, ==_iff, inl, inr,
  ◌⊎◌,
}
use os.Sh.Parser.{Span, Cmd, exec, redir, pipe, list, back, cut, nulterminate}

abbrev ZeroAt : List ℕ → ℕ → Type 0
ZeroAt line p = get_elem? line p ≡ some 0

-- A line that is `line` but for NULs at places with `P`.
abbrev pub Cut : (ℕ → Type 0) → List ℕ → List ℕ → Type 0
Cut P line line' =
    (length line' ≡ length line)
    × ((j : ℕ) → (get_elem? line' j ≡ get_elem? line j) ⊎ ((get_elem? line' j ≡ some 0) × P j))

set-Cut :
    {P : ℕ → Type 0} (line : List ℕ) (q : ℕ) → P q → q < length line → Cut P line (set line q 0)
set-Cut {P} line q p h = (
  length-set line q 0,
  λ j. elim (Bool-cases (q == j)) [
    | inl same ↦ inr (
        subst (λ i. ZeroAt (set line q 0) i × P i) ((==_iff q j).0 same)
          (get_elem?-set_self line q 0 h, p))
    | inr other ↦ inl (get_elem?-set_ne line q j 0 (ground (arith, other)))
  ],
)

cuts_compose :
    {P Q R : ℕ → Type 0} (l1 l2 l3 : List ℕ)
    → ((j : ℕ) → P j → R j)
    → ((j : ℕ) → Q j → R j)
    → Cut P l1 l2
    → Cut Q l2 l3
    → Cut R l1 l3
cuts_compose l1 l2 l3 p q (e, h) (e', h') = (
  e' ∙ e,
  λ j. elim (h' j) [
    | inr (z, b) ↦ inr (z, q j b)
    | inl s ↦ elim (h j) [ inl s' ↦ inl (s ∙ s') | inr (z, a) ↦ inr (s ∙ z, p j a) ]
  ],
)

zero_stays :
    {P : ℕ → Type 0} (line line' : List ℕ) (p : ℕ)
    → Cut P line line'
    → ZeroAt line p
    → ZeroAt line' p
zero_stays line line' p (_, h) z = elim (h p) [ inl same ↦ same ∙ z | inr (z', _) ↦ z' ]

-- Place `j` is right behind one of the spans.
abbrev pub BehindOne : ℕ → List Span → ℕ → Type 0
BehindOne n [] j = ⊥
BehindOne n (a ∷ as') j = (j ≡ n - a.stop) ⊎ BehindOne n as' j

-- Place `j` is right behind an argument or a file name of the command.
abbrev pub Behind : ℕ → Cmd → ℕ → Type 0
Behind n (exec as') j = BehindOne n as' j
Behind n (redir c file mode fd) j = (j ≡ n - file.stop) ⊎ Behind n c j
Behind n (pipe c d) j = Behind n c j ⊎ Behind n d j
Behind n (list c d) j = Behind n c j ⊎ Behind n d j
Behind n (back c) j = Behind n c j

-- The NULs behind the arguments and the file names of a command.
abbrev EndsCut : ℕ → List ℕ → Span → Type 0
EndsCut n line a = ZeroAt line (n - a.stop)

abbrev pub AllCut : ℕ → List ℕ → Cmd → Type 0
AllCut n line (exec as') = All (EndsCut n line) as'
AllCut n line (redir c file mode fd) = EndsCut n line file × AllCut n line c
AllCut n line (pipe c d) = AllCut n line c × AllCut n line d
AllCut n line (list c d) = AllCut n line c × AllCut n line d
AllCut n line (back c) = AllCut n line c

each_stays :
    {P : ℕ → Type 0} (n : ℕ) (line line' : List ℕ) (as' : List Span)
    → Cut P line line'
    → All (EndsCut n line) as'
    → All (EndsCut n line') as'
each_stays n line line' [] k h = tt
each_stays n line line' (a ∷ as') k (h, hs) =
    (zero_stays line line' (n - a.stop) k h, each_stays n line line' as' k hs)

ends_stay :
    {P : ℕ → Type 0} (n : ℕ) (line line' : List ℕ) (c : Cmd)
    → Cut P line line'
    → AllCut n line c
    → AllCut n line' c
ends_stay n line line' (exec as') k h = each_stays n line line' as' k h
ends_stay n line line' (redir c file mode fd) k (h, hs) =
    (zero_stays line line' (n - file.stop) k h, ends_stay n line line' c k hs)
ends_stay n line line' (pipe c d) k (h, hs) =
    (ends_stay n line line' c k h, ends_stay n line line' d k hs)
ends_stay n line line' (list c d) k (h, hs) =
    (ends_stay n line line' c k h, ends_stay n line line' d k hs)
ends_stay n line line' (back c) k h = ends_stay n line line' c k h

cut_lem :
    (n : ℕ) (as' : List Span) (line : List ℕ)
    → length line ≡ n + 1
    → Cut (BehindOne n as') line (cut n as' line) × All (EndsCut n (cut n as' line)) as'
unfolding cut
cut_lem n [] line h = ((refl, λ j. inl refl), tt)
cut_lem n (a ∷ as') line h =
    let place : n - a.stop < length line = omega (arith, h) in
    let first : Cut (λ j. j ≡ n - a.stop) line (set line (n - a.stop) 0) =
      set-Cut line (n - a.stop) refl place in
    let (more, ends) =
      cut_lem n as' (set line (n - a.stop) 0) (length-set line (n - a.stop) 0 ∙ h) in
    (
      cuts_compose line (set line (n - a.stop) 0) _ (λ j. inl) (λ j. inr) first more,
      (
        zero_stays (set line (n - a.stop) 0) _ (n - a.stop) more
            (get_elem?-set_self line (n - a.stop) 0 place),
        ends,
      ),
    )

-- On a line of `n` characters and its NUL, nulterminate stores a NUL right behind each argument and
-- each file name of the command, inside that buffer, and every other place keeps its character.
pub nulterminate-AllCut :
    (n : ℕ) (c : Cmd) (line : List ℕ)
    → length line ≡ n + 1
    → Cut (Behind n c) line (nulterminate n c line) × AllCut n (nulterminate n c line) c
unfolding nulterminate
nulterminate-AllCut n (exec as') line h = cut_lem n as' line h
nulterminate-AllCut n (redir c file mode fd) line h =
    let (k, ends) = nulterminate-AllCut n c line h in
    let line1 : List ℕ = nulterminate n c line in
    let place : n - file.stop < length line1 = omega (arith, h, k.0) in
    let now : Cut (λ j. j ≡ n - file.stop) line1 (set line1 (n - file.stop) 0) =
      set-Cut line1 (n - file.stop) refl place in
    (
      cuts_compose line line1 _ (λ j. inr) (λ j. inl) k now,
      (get_elem?-set_self line1 (n - file.stop) 0 place, ends_stay n line1 _ c now ends),
    )
nulterminate-AllCut n (pipe c d) line h =
    let (k, ends) = nulterminate-AllCut n c line h in
    let (k1, ends1) = nulterminate-AllCut n d (nulterminate n c line) (k.0 ∙ h) in
    (
      cuts_compose line (nulterminate n c line) _ (λ j. inl) (λ j. inr) k k1,
      (ends_stay n (nulterminate n c line) _ c k1 ends, ends1),
    )
nulterminate-AllCut n (list c d) line h =
    let (k, ends) = nulterminate-AllCut n c line h in
    let (k1, ends1) = nulterminate-AllCut n d (nulterminate n c line) (k.0 ∙ h) in
    (
      cuts_compose line (nulterminate n c line) _ (λ j. inl) (λ j. inr) k k1,
      (ends_stay n (nulterminate n c line) _ c k1 ends, ends1),
    )
nulterminate-AllCut n (back c) line h = nulterminate-AllCut n c line h
