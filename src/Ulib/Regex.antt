-- ===== src/Ulib/Regex.antt =====
-- grep.c: match decides whether the text has a part that the pattern describes.
use os.Base.{
  ℕ, ◌==◌, ◌≡◌, ◌↔◌, refl, ap, sym, subst, ◌∙◌, Bool, true, false, if◌then◌else◌, List, [], ◌∷◌,
  ◌++◌, arith, Bool-cases, inl, inr,
}
use os.Ulib.Match.{matchstar, match_char, at_end, matchhere, anywhere, match}
use os.Ulib.Items.{Item, one, many, items, Describes, Here, matchstar-Star, match_char-Char}

items_star :
    (c d : ℕ) (re : List ℕ)
    → (d == b'*') ≡ true
    → items (c ∷ d ∷ re) ≡ (many c ∷ (items re).0, (items re).1)
unfolding items
items_star c d re h = ground (arith, h)

items_char :
    (c d : ℕ) (re : List ℕ)
    → (d == b'*') ≡ false
    → items (c ∷ d ∷ re) ≡ (one c ∷ (items (d ∷ re)).0, (items (d ∷ re)).1)
unfolding items
items_char c d re h = ground (arith, h)

here_star :
    (c d : ℕ) (re text : List ℕ)
    → (d == b'*') ≡ true
    → matchhere (c ∷ d ∷ re) text ≡ matchstar (λ t. matchhere re t) c text
unfolding matchhere
here_star c d re text h = rw h refl

here_char :
    (c d : ℕ) (re text : List ℕ)
    → (d == b'*') ≡ false
    → matchhere (c ∷ d ∷ re) text ≡ match_char (λ t. matchhere (d ∷ re) t) c text
unfolding matchhere
here_char c d re text h = rw h refl

-- A pattern and its items, both rewritten.
retype :
    (text : List ℕ) {b b' : Bool} {p p' : List Item × Bool}
    → b ≡ b'
    → p ≡ p'
    → (b' ≡ true) ↔ Describes p'.0 p'.1 text
    → (b ≡ true) ↔ Describes p.0 p.1 text
retype text {b} {b'} {p} {p'} e e' (f, g) = (
  (λ h. subst (λ q. Describes q.0 q.1 text) (sym e') (f (sym e ∙ h))),
  (λ d. e ∙ g (subst (λ q. Describes q.0 q.1 text) e' d)),
)

here_end : (text : List ℕ) → (at_end text ≡ true) ↔ Describes [] true text
here_end [] = ((λ e z. refl), λ d. refl)
here_end (t ∷ ts) = ((λ e. absurd (ground (arith, e))), λ d. absurd (ground (arith, d refl)))

empty_pattern : (text : List ℕ) → (matchhere [] text ≡ true) ↔ Here [] text
unfolding matchhere items
empty_pattern text = ((λ e z. absurd (ground (arith, z))), λ d. refl)

last_item : (c : ℕ) (text : List ℕ) → (matchhere (c ∷ []) text ≡ true) ↔ Here (c ∷ []) text
unfolding matchhere items
last_item c text = elim (Bool-cases (c == b'$')) [
  | inl dollar ↦
      retype text {b' = at_end text} {p' = ([], true)} (rw dollar refl) (rw dollar refl)
        (here_end text)
  | inr other ↦
      retype text {b' = match_char (λ t. true) c text} {p' = (one c ∷ [], false)} (rw other refl)
        (rw other refl)
        (match_char-Char (λ t. true) (λ t. Describes [] false t)
          (λ t. ((λ e z. absurd (ground (arith, z))), λ d. refl)) c text)
]

-- matchhere decides whether the pattern describes the text from its start on: `.` stands for any
-- character, a character with `*` behind it for any number of such characters, and `$` at the end
-- for the end of the text.
pub matchhere_iff : (re text : List ℕ) → (matchhere re text ≡ true) ↔ Here re text
matchhere_iff [] text = empty_pattern text
matchhere_iff (c ∷ []) text = last_item c text
matchhere_iff (c ∷ d ∷ re) text = elim (Bool-cases (d == b'*')) [
  | inl star ↦
      retype text (here_star c d re text star) (items_star c d re star)
        (matchstar-Star (λ t. matchhere re t) (λ t. Here re t) (λ t. matchhere_iff re t) c text)
  | inr other ↦ retype text (here_char c d re text other) (items_char c d re other) (
      match_char-Char (λ t. matchhere (d ∷ re) t) (λ t. Here (d ∷ re) t)
        (λ t. matchhere_iff (d ∷ re) t) c text)
]

-- The pattern describes some part of the text.
abbrev pub Somewhere : List ℕ → List ℕ → Type 0
Somewhere re text = (front : List ℕ) × (rest : List ℕ) × (text ≡ front ++ rest) × Here re rest

anywhere_sound : (re text : List ℕ) → anywhere re text ≡ true → Somewhere re text
unfolding anywhere
anywhere_sound re [] e = ([], [], refl, (matchhere_iff re []).0 e)
anywhere_sound re (t ∷ ts) e = elim (Bool-cases (matchhere re (t ∷ ts))) [
  | inl now ↦ ([], t ∷ ts, refl, (matchhere_iff re (t ∷ ts)).0 now)
  | inr later ↦
      let (front, rest, split, h) = anywhere_sound re ts (ground (arith, e, later)) in
      (t ∷ front, rest, ap (λ l. t ∷ l) split, h)
]

anywhere_here : (re text : List ℕ) → matchhere re text ≡ true → anywhere re text ≡ true
unfolding anywhere
anywhere_here re [] e = e
anywhere_here re (t ∷ ts) e = ground (arith, e)

anywhere_next :
    (re : List ℕ) (t : ℕ) (ts : List ℕ) → anywhere re ts ≡ true → anywhere re (t ∷ ts) ≡ true
unfolding anywhere
anywhere_next re t ts e = ground (arith, e)

anywhere_complete : (re front rest : List ℕ) → Here re rest → anywhere re (front ++ rest) ≡ true
anywhere_complete re [] rest h = anywhere_here re rest ((matchhere_iff re rest).1 h)
anywhere_complete re (t ∷ front) rest h =
    anywhere_next re t (front ++ rest) (anywhere_complete re front rest h)

anywhere_iff : (re text : List ℕ) → (anywhere re text ≡ true) ↔ Somewhere re text
anywhere_iff re text = (
  anywhere_sound re text,
  λ (front, rest, split, h). ap (anywhere re) split ∙ anywhere_complete re front rest h,
)

-- What a pattern says of a text: with `^` in front it describes the text from its start on,
-- otherwise it describes some part of it.
abbrev pub Says : List ℕ → List ℕ → Type 0
Says [] text = Somewhere [] text
Says (c ∷ re) text = if c == b'^' then Here re text else Somewhere (c ∷ re) text

-- match finds out whether a text is as the pattern says.
pub match_iff : (re text : List ℕ) → (match re text ≡ true) ↔ Says re text
unfolding match
match_iff [] text = anywhere_iff [] text
match_iff (c ∷ re) text = by_caret (c == b'^')
  where
    by_caret :
        (b : Bool)
        → ((if b then matchhere re text else anywhere (c ∷ re) text) ≡ true)
          ↔ (if b then Here re text else Somewhere (c ∷ re) text)
    by_caret true = matchhere_iff re text
    by_caret false = anywhere_iff (c ∷ re) text
