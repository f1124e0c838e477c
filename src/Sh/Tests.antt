-- ===== src/Sh/Tests.antt =====
-- sh.c on a line with a redirection and a pipe.
use os.Base.{ℕ, ◌≡◌, refl, List, [], ◌∷◌, ◌++◌}
use os.Sh.Lexer.{strchr, skip_space, skip_word, token_at, gettoken, peek}
use os.Sh.Parser.{
  Span, Cmd, exec, redir, pipe, parsed, redirs, wrap, args, parseexec, parsepipe, backs, parseline,
  cut, nulterminate, parsecmd,
}
use os.Sh.Rules.{Ends}
use os.Sh.Bounds.{Parsed, parsecmd-Ends}
use os.Sh.Terminate.{Cut, AllCut, Behind, nulterminate-AllCut}

-- "a b >f|c"
abbrev line : List ℕ
line = b'a' ∷ b' ' ∷ b'b' ∷ b' ' ∷ b'>' ∷ b'f' ∷ b'|' ∷ b'c' ∷ []

abbrev at : ℕ → ℕ → Span
at start stop = record { start = start; stop = stop }

abbrev command : Cmd
command = pipe (redir (exec (at 8 7 ∷ at 6 5 ∷ [])) (at 3 2) 0x201 1) (exec (at 1 0 ∷ []))

abbrev cut_line : List ℕ
cut_line = b'a' ∷ 0 ∷ b'b' ∷ 0 ∷ b'>' ∷ b'f' ∷ 0 ∷ b'c' ∷ 0 ∷ []

parse_run : parsecmd line ≡ parsed (command, cut_line) []
unfolding parsecmd parseline parsepipe parseexec args redirs wrap backs peek gettoken token_at
    skip_space skip_word strchr nulterminate cut
parse_run = refl

parsecmd-Ends_example : Ends (Parsed line) (parsecmd line)
parsecmd-Ends_example = parsecmd-Ends line

nulterminate-AllCut_example :
    Cut (Behind 8 command) (line ++ (0 ∷ [])) (nulterminate 8 command (line ++ (0 ∷ [])))
    × AllCut 8 (nulterminate 8 command (line ++ (0 ∷ []))) command
nulterminate-AllCut_example = nulterminate-AllCut 8 command (line ++ (0 ∷ [])) refl
