-- ===== src/Sh/Lexer.antt =====
-- sh.c: the tokens of a line. A pointer into the line is the part of the line from there to its end,
-- `es`, and a line is its characters up to the NUL.
use os.Base.{ℕ, ◌==◌, Bool, false, not, ◌&&◌, ◌||◌, if◌then◌else◌, List, [], ◌∷◌}

-- strchr(s, c) != 0 for a character that is not NUL.
unfoldable pub strchr : List ℕ → ℕ → Bool
strchr [] c = false
strchr (d ∷ ds) c = let rest = strchr ds c in d == c || rest

-- " \t\r\n\v"
abbrev pub whitespace : List ℕ
whitespace = b' ' ∷ 9 ∷ 13 ∷ 10 ∷ 11 ∷ []

-- "<|>&;()"
abbrev pub symbols : List ℕ
symbols = b'<' ∷ b'|' ∷ b'>' ∷ b'&' ∷ b';' ∷ b'(' ∷ b')' ∷ []

-- The symbols of one character that gettoken returns as they are.
abbrev pub singles : List ℕ
singles = b'|' ∷ b'(' ∷ b')' ∷ b';' ∷ b'&' ∷ b'<' ∷ []

-- while(s < es && strchr(whitespace, *s)) s++;
unfoldable pub skip_space : List ℕ → List ℕ
skip_space [] = []
skip_space (c ∷ cs) = let rest = skip_space cs in if strchr whitespace c then rest else c ∷ cs

-- while(s < es && !strchr(whitespace, *s) && !strchr(symbols, *s)) s++;
unfoldable pub skip_word : List ℕ → List ℕ
skip_word [] = []
skip_word (c ∷ cs) =
    let rest = skip_word cs in
    if not (strchr whitespace c) && not (strchr symbols c) then rest else c ∷ cs

-- What gettoken finds: its result, `*q`, `*eq` and the new `*ps`.
pub record Token : Type 0 where
  pub kind : ℕ
  pub start : List ℕ
  pub stop : List ℕ
  pub rest : List ℕ

abbrev pub token : ℕ → List ℕ → List ℕ → Token
token kind start stop = record { kind = kind; start = start; stop = stop; rest = skip_space stop }

-- gettoken behind a '>'.
abbrev pub after_gt : List ℕ → List ℕ → Token
after_gt start [] = token b'>' start []
after_gt start (c ∷ cs) = if c == b'>' then token b'+' start cs else token b'>' start (c ∷ cs)

-- gettoken where the space before the token is skipped.
unfoldable pub token_at : List ℕ → Token
token_at [] = token 0 [] []
token_at (c ∷ cs) =
    if strchr singles c
    then token c (c ∷ cs) cs
    else if c == b'>'
    then after_gt (c ∷ cs) cs
    else token b'a' (c ∷ cs) (skip_word (c ∷ cs))

unfoldable pub gettoken : List ℕ → Token
gettoken s = token_at (skip_space s)

-- peek: whether one of the characters `toks` comes next, and the new `*ps`.
abbrev pub next_in : List ℕ → List ℕ → Bool
next_in toks [] = false
next_in toks (c ∷ cs) = strchr toks c

unfoldable pub peek : List ℕ → List ℕ → Bool × List ℕ
peek toks s = (next_in toks (skip_space s), skip_space s)
