-- ===== src/Sh/LexerLaws.antt =====
-- sh.c: what gettoken and peek take from a line.
use os.Base.{
  ℕ, ◌<◌, ◌≤◌, ◌==◌, ◌≡◌, ◌≢◌, refl, ap, sym, subst, ◌∙◌, not, Bool, true, false, ◌&&◌,
  if◌then◌else◌, List, [], ◌∷◌, length, arith, Bool-cases, inl, inr, ◌⊎◌,
}
use os.Sh.Lexer.{
  strchr, whitespace, symbols, singles, skip_space, skip_word, Token, token, after_gt, token_at,
  gettoken, next_in, peek,
}

skip_space_lem :
    (s : List ℕ) → (length (skip_space s) ≤ length s) × (skip_space (skip_space s) ≡ skip_space s)
unfolding skip_space
skip_space_lem [] = (omega arith, refl)
skip_space_lem (c ∷ cs) = elim (Bool-cases (strchr whitespace c)) [
  | inl space ↦ let (le, idem) = skip_space_lem cs in (rw space (omega (arith, le)), rw space idem)
  | inr letter ↦ (rw letter (omega arith), rw letter (rw letter refl))
]

skip_word-le : (s : List ℕ) → length (skip_word s) ≤ length s
unfolding skip_word
skip_word-le [] = omega arith
skip_word-le (c ∷ cs) = elim (Bool-cases (not (strchr whitespace c) && not (strchr symbols c))) [
  | inl letter ↦ rw letter (omega (arith, skip_word-le cs))
  | inr other ↦ rw other (omega arith)
]

-- A token of the line `s`: the rest of the line lies behind it, and it is not empty unless the line
-- has come to its end.
pub record IsToken (s : List ℕ) (t : Token) : Type 0 where
  pub inside : length t.start ≤ length s
  pub behind : length t.rest ≤ length t.stop
  pub some_text : (t.start ≡ []) × (t.kind ≡ 0) × (t.stop ≡ []) ⊎ (length t.stop < length t.start)

token-IsToken :
    (kind c : ℕ) (cs stop : List ℕ)
    → length stop ≤ length cs
    → IsToken (c ∷ cs) (token kind (c ∷ cs) stop)
token-IsToken kind c cs stop h = record {
  inside = omega arith;
  behind = (skip_space_lem stop).0;
  some_text = inr (omega (arith, h));
}

Token-if :
    (s : List ℕ) (b : Bool) {x y : Token}
    → (b ≡ true → IsToken s x)
    → (b ≡ false → IsToken s y)
    → IsToken s (if b then x else y)
Token-if s true hx hy = hx refl
Token-if s false hx hy = hy refl

after_gt-IsToken : (c : ℕ) (cs : List ℕ) → IsToken (c ∷ cs) (after_gt (c ∷ cs) cs)
after_gt-IsToken c [] = token-IsToken b'>' c [] [] (omega arith)
after_gt-IsToken c (d ∷ ds) =
    Token-if (c ∷ d ∷ ds) (d == b'>') (λ _. token-IsToken b'+' c (d ∷ ds) ds (omega arith))
      (λ _. token-IsToken b'>' c (d ∷ ds) (d ∷ ds) (omega arith))

no_symbol : (c : ℕ) → strchr singles c ≡ false → (c == b'>') ≡ false → strchr symbols c ≡ false
unfolding strchr
no_symbol c single gt = ground (arith, single, gt)

-- A character that is no space and no symbol is a part of the word.
word_char :
    (c : ℕ) (cs : List ℕ)
    → strchr whitespace c ≡ false
    → strchr symbols c ≡ false
    → skip_word (c ∷ cs) ≡ skip_word cs
unfolding skip_word
word_char c cs space letter = ground (arith, space, letter)

-- A line that starts with a character that skip_space passes over is changed by it.
no_space : (c : ℕ) (cs : List ℕ) → skip_space (c ∷ cs) ≡ c ∷ cs → strchr whitespace c ≡ false
unfolding skip_space
no_space c cs h = elim (Bool-cases (strchr whitespace c)) [
  | inr letter ↦ letter
  | inl space ↦
      let passed : skip_space cs ≡ c ∷ cs = sym (rw space refl) ∙ h in
      absurd (omega (arith, (skip_space_lem cs).0, ap length passed))
]

token_at-IsToken : (s : List ℕ) → skip_space s ≡ s → IsToken s (token_at s)
unfolding token_at
token_at-IsToken [] h = record {
  inside = omega arith;
  behind = (skip_space_lem []).0;
  some_text = inl (refl, refl, refl);
}
token_at-IsToken (c ∷ cs) h =
    Token-if (c ∷ cs) (strchr singles c) (λ _. token-IsToken c c cs cs (omega arith))
      (λ single.
        Token-if (c ∷ cs) (c == b'>') (λ _. after_gt-IsToken c cs)
          (λ gt. token-IsToken b'a' c cs (skip_word (c ∷ cs)) (
            subst (λ w. length w ≤ length cs)
              (sym (word_char c cs (no_space c cs h) (no_symbol c single gt))) (skip_word-le cs))))

start_gt : (start cs : List ℕ) → (after_gt start cs).start ≡ start
start_gt start [] = refl
start_gt start (c ∷ cs) = ground arith

token_at_start : (s : List ℕ) → (token_at s).start ≡ s
unfolding token_at
token_at_start [] = refl
token_at_start (c ∷ cs) = ground (arith, start_gt (c ∷ cs) cs)

-- gettoken finds a token of the line, which starts behind the space.
pub gettoken-IsToken : (s : List ℕ) → IsToken s (gettoken s)
unfolding gettoken
gettoken-IsToken s =
    let (le, idem) = skip_space_lem s in
    let t = token_at-IsToken (skip_space s) idem in
    record { inside = omega (arith, le, t.inside); behind = t.behind; some_text = t.some_text }

pub gettoken_start : (s : List ℕ) → (gettoken s).start ≡ skip_space s
unfolding gettoken
gettoken_start s = token_at_start (skip_space s)

-- A word is not empty.
pub word_text :
    (s : List ℕ) {t : Token} → IsToken s t → (t.kind == 0) ≡ false → length t.stop < length t.start
word_text s {t} i h = elim i.some_text [
  | inl (_, none_left, _) ↦ absurd (ground (arith, h, none_left))
  | inr some_left ↦ some_left
]

pub peek-le : (toks s : List ℕ) → length (peek toks s).1 ≤ length s
unfolding peek
peek-le toks s = (skip_space_lem s).0

some_next : (toks s : List ℕ) → next_in toks s ≡ true → s ≢ []
some_next toks [] h z = absurd (ground (arith, h))
some_next toks (c ∷ cs) h z = absurd (ground (arith, z))

-- Behind a peek that finds one of its characters, gettoken takes a character or more.
pub peek-gettoken :
    (toks s : List ℕ) → (peek toks s).0 ≡ true → length (gettoken (peek toks s).1).rest < length s
unfolding peek
peek-gettoken toks s h =
    let (le, idem) = skip_space_lem s in
    let t = gettoken-IsToken (skip_space s) in
    elim t.some_text [
      | inl (empty, _, _) ↦
          absurd (
            some_next toks (skip_space s) h
              (sym idem ∙ sym (gettoken_start (skip_space s)) ∙ empty))
      | inr some_left ↦ omega (arith, le, t.inside, t.behind, some_left)
    ]
