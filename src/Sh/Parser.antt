-- ===== src/Sh/Parser.antt =====
-- sh.c: the recursive descent. The loops and the recursion run on fuel, which bounds the characters
-- left.
use os.Base.{
  ℕ, zero, suc, ◌+◌, ◌-◌, ◌==◌, leb, not, if◌then◌else◌, String, List, [], ◌∷◌, ◌++◌, length, set,
}
use os.Sh.Lexer.{Token, gettoken, peek, skip_space}

-- A pointer that a command keeps, as the number of characters from it to the end of the line.
pub record Span : Type 0 where
  pub start : ℕ
  pub stop : ℕ

abbrev pub span : Token → Span
span t = record { start = length t.start; stop = length t.stop }

-- `struct cmd` with its five types.
pub data Cmd : Type 0 where
  exec : List Span → Cmd
  redir : Cmd → Span → ℕ → ℕ → Cmd
  pipe : Cmd → Cmd → Cmd
  list : Cmd → Cmd → Cmd
  back : Cmd → Cmd

-- How a parser ends: with a result and the rest of the line, by a call of `panic`, or without fuel.
pub data Parse {ℓ} (A : Type ℓ) : Type ℓ where
  parsed : A → List ℕ → Parse A
  syntax : String → Parse A
  starved : Parse A

infixl 5 ◌>>=◌
abbrev pub ◌>>=◌ {ℓ κ} : {A : Type ℓ} {B : Type κ} → Parse A → (A → List ℕ → Parse B) → Parse B
parsed a s >>= k = k a s
syntax why >>= k = syntax why
starved >>= k = starved

abbrev pub max_args : ℕ
max_args = 10

-- What redircmd gets besides the command.
pub record Redir : Type 0 where
  pub file : Span
  pub mode : ℕ
  pub fd : ℕ

abbrev pub o_wronly_create : ℕ
o_wronly_create = 0x201

abbrev pub redir_of : ℕ → Span → Redir
redir_of tok file =
    if tok == b'<'
    then record { file = file; mode = 0; fd = 0 }
    else record { file = file; mode = o_wronly_create; fd = 1 }

-- The loop of parseredirs, as the redirections that it puts around the command.
unfoldable pub redirs : ℕ → List ℕ → Parse (List Redir)
redirs zero s = starved
redirs (suc f) s =
    let (more, s1) = peek (b'<' ∷ b'>' ∷ []) s in
    let tok : Token = gettoken s1 in
    let file : Token = gettoken tok.rest in
    let rest = redirs f file.rest >>= λ rs s2. parsed (redir_of tok.kind (span file) ∷ rs) s2 in
    if not more
    then parsed [] s1
    else if not (file.kind == b'a')
    then syntax "missing file for redirection"
    else rest

unfoldable pub wrap : List Redir → Cmd → Cmd
wrap [] c = c
wrap (r ∷ rs) c = wrap rs (redir c r.file r.mode r.fd)

unfoldable pub parseredirs : Cmd → List ℕ → Parse Cmd
parseredirs c s = redirs (length s + 1) s >>= λ rs s1. parsed (wrap rs c) s1

-- The loop of parseexec: the arguments, and the redirections between them. The command that the
-- redirections stand around is the one that the arguments go to.
unfoldable pub args : ℕ → ℕ → List ℕ → Parse (List Span × List Redir)
args zero argc s = starved
args (suc f) argc s =
    let (at_end, s1) = peek (b'|' ∷ b')' ∷ b'&' ∷ b';' ∷ []) s in
    let tok : Token = gettoken s1 in
    let rest = redirs (length tok.rest + 1) tok.rest >>= λ rs s2.
    args f (argc + 1) s2 >>= λ (as', rs') s3. parsed (span tok ∷ as', rs ++ rs') s3 in
    if at_end
    then parsed ([], []) s1
    else if tok.kind == 0
    then parsed ([], []) tok.rest
    else if not (tok.kind == b'a')
    then syntax "syntax"
    else if leb max_args (argc + 1)
    then syntax "too many args"
    else rest

-- parseblock calls parseline, which calls it back: `line` is parseline on a shorter line.
unfoldable pub parseblock : (List ℕ → Parse Cmd) → List ℕ → Parse Cmd
parseblock line s =
    let (open', s1) = peek (b'(' ∷ []) s in
    if not open'
    then syntax "parseblock"
    else (line (gettoken s1).rest >>= λ c s2.
        let (close, s3) = peek (b')' ∷ []) s2 in
        if not close then syntax "syntax - missing )" else parseredirs c (gettoken s3).rest)

unfoldable pub parseexec : (List ℕ → Parse Cmd) → List ℕ → Parse Cmd
parseexec line s =
    let (block, s1) = peek (b'(' ∷ []) s in
    if block
    then parseblock line s1
    else (redirs (length s1 + 1) s1 >>= λ rs s2.
        args (length s2 + 1) 0 s2 >>= λ (as', rs') s3. parsed (wrap (rs ++ rs') (exec as')) s3)

unfoldable pub parsepipe : ℕ → (List ℕ → Parse Cmd) → List ℕ → Parse Cmd
parsepipe zero line s = starved
parsepipe (suc f) line s = parseexec line s >>= λ c s1.
    let (more, s2) = peek (b'|' ∷ []) s1 in
    let rest = parsepipe f line (gettoken s2).rest >>= λ c' s3. parsed (pipe c c') s3 in
    if more then rest else parsed c s2

-- while(peek(ps, es, "&"))
unfoldable pub backs : ℕ → Cmd → List ℕ → Parse Cmd
backs zero c s = starved
backs (suc f) c s =
    let (more, s1) = peek (b'&' ∷ []) s in
    let rest = backs f (back c) (gettoken s1).rest in if more then rest else parsed c s1

unfoldable pub parseline : ℕ → List ℕ → Parse Cmd
parseline zero s = starved
parseline (suc f) s = parsepipe (length s + 1) (λ t. parseline f t) s >>= λ c s1.
    backs (length s1 + 1) c s1 >>= λ c1 s2.
    let (more, s3) = peek (b';' ∷ []) s2 in
    let rest = parseline f (gettoken s3).rest >>= λ c2 s4. parsed (list c1 c2) s4 in
    if more then rest else parsed c1 s3

-- A NUL at each of the ends, in a line of `n` characters.
unfoldable pub cut : ℕ → List Span → List ℕ → List ℕ
cut n [] line = line
cut n (a ∷ as') line = cut n as' (set line (n - a.stop) 0)

-- nulterminate on the characters of the line and its NUL.
unfoldable pub nulterminate : ℕ → Cmd → List ℕ → List ℕ
nulterminate n (exec as') line = cut n as' line
nulterminate n (redir c file mode fd) line = set (nulterminate n c line) (n - file.stop) 0
nulterminate n (pipe c d) line = nulterminate n d (nulterminate n c line)
nulterminate n (list c d) line = nulterminate n d (nulterminate n c line)
nulterminate n (back c) line = nulterminate n c line

-- parsecmd: the command, and the line with its NULs.
unfoldable pub parsecmd : List ℕ → Parse (Cmd × List ℕ)
parsecmd s = parseline (length s + 1) s >>= λ c s1.
    let s2 : List ℕ = skip_space s1 in
    if length s2 == 0
    then parsed (c, nulterminate (length s) c (s ++ (0 ∷ []))) s2
    else syntax "syntax"
