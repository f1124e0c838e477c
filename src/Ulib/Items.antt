-- ===== src/Ulib/Items.antt =====
-- grep.c: what a pattern describes, and the tests of matchstar and matchhere for one item.
use os.Base.{
  ℕ, ◌==◌, ◌≡◌, ◌↔◌, refl, ap, ◌∙◌, Bool, true, false, ◌||◌, if◌then◌else◌, List, [], ◌∷◌, ◌++◌,
  All, arith, Bool-cases, inl, inr,
}
use os.Ulib.Match.{matchstar, match_char}

-- The items of a pattern: a character once, or any number of times.
pub data Item : Type 0 where
  one : ℕ → Item
  many : ℕ → Item

-- The items, and whether the pattern ends in `$`.
unfoldable pub items : List ℕ → List Item × Bool
items [] = ([], false)
items (c ∷ []) = if c == b'$' then ([], true) else (one c ∷ [], false)
items (c ∷ d ∷ re) =
    let (is', to_end) = items re in
    let (js, to_end') = items (d ∷ re) in
    if d == b'*' then (many c ∷ is', to_end) else (one c ∷ js, to_end')

-- The character `c` of a pattern describes the character `t`.
abbrev pub Fits : ℕ → ℕ → Type 0
Fits c t = (c == b'.' || c == t) ≡ true

-- The items describe a prefix of the text, or all of it if the pattern ends in `$`.
abbrev pub Describes : List Item → Bool → List ℕ → Type 0
Describes [] to_end text = to_end ≡ true → text ≡ []
Describes (one c ∷ is') to_end text =
    (t : ℕ) × (ts : List ℕ) × (text ≡ t ∷ ts) × Fits c t × Describes is' to_end ts
Describes (many c ∷ is') to_end text =
    (xs : List ℕ) × (ys : List ℕ) × (text ≡ xs ++ ys) × All (Fits c) xs × Describes is' to_end ys

abbrev pub Here : List ℕ → List ℕ → Type 0
Here re text = Describes (items re).0 (items re).1 text

module _ (here : List ℕ → Bool) (P : List ℕ → Type 0)
    (h : (t : List ℕ) → (here t ≡ true) ↔ P t) where
  -- The part that the star takes, and the rest.
  abbrev pub Star : ℕ → List ℕ → Type 0
  Star c text = (xs : List ℕ) × (ys : List ℕ) × (text ≡ xs ++ ys) × All (Fits c) xs × P ys

  first_part : (c : ℕ) (text : List ℕ) → matchstar here c text ≡ true → Star c text
  unfolding matchstar
  first_part c [] e = ([], [], refl, tt, (h []).0 e)
  first_part c (t ∷ ts) e = elim (Bool-cases (here (t ∷ ts))) [
    | inl now ↦ ([], t ∷ ts, refl, tt, (h (t ∷ ts)).0 now)
    | inr later ↦
        let fits : Fits c t = ground (arith, e, later) in
        let rest : matchstar here c ts ≡ true = ground (arith, e, later) in
        let (xs, ys, split, all, p) = first_part c ts rest in
        (t ∷ xs, ys, ap (λ l. t ∷ l) split, (fits, all), p)
  ]

  matched_now : (c : ℕ) (text : List ℕ) → here text ≡ true → matchstar here c text ≡ true
  unfolding matchstar
  matched_now c [] e = e
  matched_now c (t ∷ ts) e = ground (arith, e)

  matched_next :
      (c t : ℕ) (ts : List ℕ)
      → Fits c t
      → matchstar here c ts ≡ true
      → matchstar here c (t ∷ ts) ≡ true
  unfolding matchstar
  matched_next c t ts f e = ground (arith, f, e)

  parts_match :
      (c : ℕ) (xs ys : List ℕ) → All (Fits c) xs → P ys → matchstar here c (xs ++ ys) ≡ true
  parts_match c [] ys all p = matched_now c ys ((h ys).1 p)
  parts_match c (t ∷ xs) ys (f, all) p = matched_next c t (xs ++ ys) f (parts_match c xs ys all p)

  abbrev pub Char : ℕ → List ℕ → Type 0
  Char c text = (t : ℕ) × (ts : List ℕ) × (text ≡ t ∷ ts) × Fits c t × P ts

  pub matchstar-Star : (c : ℕ) (text : List ℕ) → (matchstar here c text ≡ true) ↔ Star c text
  matchstar-Star c text = (
    first_part c text,
    λ (xs, ys, split, all, p). ap (matchstar here c) split ∙ parts_match c xs ys all p,
  )

  pub match_char-Char : (c : ℕ) (text : List ℕ) → (match_char here c text ≡ true) ↔ Char c text
  match_char-Char c [] =
      ((λ e. absurd (ground (arith, e))), λ (t, ts, e, f, p). absurd (ground (arith, e)))
  match_char-Char c (t ∷ ts) = (
    (λ e. (t, ts, refl, ground (arith, e), (h ts).0 (ground (arith, e)))),
    (λ (u, us, e, f, p).
        let head : t ≡ u = ground (arith, e) in
        let tail : ts ≡ us = ground (arith, e) in
        ground (arith, f, head, ap here tail, (h us).1 p)),
  )
