-- ===== src/Sh/Bounds.antt =====
-- sh.c: parsecmd ends on every line, and what it keeps of a line lies inside the line.
use os.Base.{
  ℕ, zero, suc, ◌+◌, ◌<◌, ◌≤◌, ◌==◌, leb, ◌≡◌, refl, sym, subst, not, true, List, [], ◌∷◌, ◌++◌,
  length, All, arith,
}
use os.Sh.Lexer.{gettoken, peek, skip_space}
use os.Sh.LexerLaws.{peek-le, peek-gettoken}
use os.Sh.Rules.{
  Ends, result, panics, Ends-bind, Ends-weaken, Ends-if, Inside, AllInside, RedirInside, All-append,
  wrap-AllInside, redir_file, span-Inside, rest-le, word-lt, is_word,
}
use os.Sh.Parser.{
  Span, span, Cmd, exec, back, Parse, Redir, redirs, parseredirs, max_args, args, parseblock,
  parseexec, parsepipe, backs, parseline, parsecmd, nulterminate,
}

-- What a parser promises of its result: it lies in the line, and no more is left than there was.
abbrev pub Kept : ℕ → ℕ → Cmd → List ℕ → Type 0
Kept n l c rest = AllInside n c × (length rest ≤ l)

abbrev KeptRedirs : ℕ → ℕ → List Redir → List ℕ → Type 0
KeptRedirs n l rs rest = All (RedirInside n) rs × (length rest ≤ l)

abbrev KeptArgs : ℕ → ℕ → List Span × List Redir → List ℕ → Type 0
KeptArgs n l (as', rs) rest = All (Inside n) as' × All (RedirInside n) rs × (length rest ≤ l)

module _ (n : ℕ) where
  redirs-Ends :
      (f : ℕ) (s : List ℕ)
      → length s < f
      → length s ≤ n
      → Ends (KeptRedirs n (length s)) (redirs f s)
  unfolding redirs
  redirs-Ends zero s h fits = absurd (omega arith)
  redirs-Ends (suc f) s h fits =
      let s1 : List ℕ = (peek (b'<' ∷ b'>' ∷ []) s).1 in
      let le : length s1 ≤ length s = peek-le (b'<' ∷ b'>' ∷ []) s in
      Ends-if (not (peek (b'<' ∷ b'>' ∷ []) s).0) (λ _. result (tt, le))
        (λ more.
          let shorter : length (gettoken s1).rest < length s =
            peek-gettoken (b'<' ∷ b'>' ∷ []) s (ground (arith, more)) in
          let after : length (gettoken (gettoken s1).rest).rest ≤ length (gettoken s1).rest =
            rest-le (gettoken s1).rest in
          Ends-if (not ((gettoken (gettoken s1).rest).kind == b'a')) (λ _. panics)
            (λ word.
              Ends-bind
                (redirs-Ends f (gettoken (gettoken s1).rest).rest (omega (arith, shorter, after))
                  (omega (arith, shorter, after, fits)))
                (λ rs s2 (all, le2). result (
                  (
                    subst (Inside n)
                        (sym (redir_file (gettoken s1).kind (span (gettoken (gettoken s1).rest))))
                        (span-Inside n (gettoken s1).rest (omega (arith, shorter, fits))
                          (is_word (gettoken (gettoken s1).rest).kind word)),
                    all,
                  ),
                  omega (arith, shorter, after, le2),
                ))))

  args-Ends :
      (f argc : ℕ) (s : List ℕ)
      → length s < f
      → length s ≤ n
      → Ends (KeptArgs n (length s)) (args f argc s)
  unfolding args
  args-Ends zero argc s h fits = absurd (omega arith)
  args-Ends (suc f) argc s h fits =
      let toks : List ℕ = b'|' ∷ b')' ∷ b'&' ∷ b';' ∷ [] in
      let s1 : List ℕ = (peek toks s).1 in
      let le : length s1 ≤ length s = peek-le toks s in
      let after : length (gettoken s1).rest ≤ length s1 = rest-le s1 in
      Ends-if (peek toks s).0 (λ _. result (tt, tt, le))
        (λ _.
          Ends-if ((gettoken s1).kind == 0) (λ _. result (tt, tt, omega (arith, after, le)))
            (λ text.
              Ends-if (not ((gettoken s1).kind == b'a')) (λ _. panics)
                (λ _.
                  Ends-if (leb max_args (argc + 1)) (λ _. panics)
                    (λ _.
                      let arg : Inside n (span (gettoken s1)) =
                        span-Inside n s1 (omega (arith, le, fits)) text in
                      let shorter : length (gettoken s1).rest < length s =
                        omega (arith, le, word-lt s1 text) in
                      Ends-bind
                        (redirs-Ends (length (gettoken s1).rest + 1) (gettoken s1).rest
                          (omega arith) (omega (arith, shorter, fits)))
                        (λ rs s2 (all, le2).
                          Ends-bind
                            (args-Ends f (argc + 1) s2 (omega (arith, h, shorter, le2))
                              (omega (arith, fits, shorter, le2)))
                            (λ (as', rs') s3 (all_args, all_redirs, le3). result (
                              (arg, all_args),
                              All-append (RedirInside n) rs rs' all all_redirs,
                              omega (arith, shorter, le2, le3),
                            )))))))

  parseredirs-Ends :
      (c : Cmd) (s : List ℕ)
      → length s ≤ n
      → AllInside n c
      → Ends (Kept n (length s)) (parseredirs c s)
  unfolding parseredirs
  parseredirs-Ends c s fits inside =
      Ends-bind (redirs-Ends (length s + 1) s (omega arith) fits)
        (λ rs s1 (all, le). result (wrap-AllInside n rs c all inside, le))

  -- parseline on every line that is shorter.
  abbrev LineEnds : ℕ → (List ℕ → Parse Cmd) → Type 0
  LineEnds l line = (t : List ℕ) → length t < l → Ends (Kept n (length t)) (line t)

  parseblock-Ends :
      (line : List ℕ → Parse Cmd) (s : List ℕ)
      → LineEnds (length s) line
      → length s ≤ n
      → Ends (Kept n (length s)) (parseblock line s)
  unfolding parseblock
  parseblock-Ends line s again fits =
      Ends-if (not (peek (b'(' ∷ []) s).0) (λ _. panics)
        (λ open'.
          let shorter : length (gettoken (peek (b'(' ∷ []) s).1).rest < length s =
            peek-gettoken (b'(' ∷ []) s (ground (arith, open')) in
          Ends-bind (again (gettoken (peek (b'(' ∷ []) s).1).rest shorter) (λ c s2 (inside, le).
            let s3 : List ℕ = (peek (b')' ∷ []) s2).1 in
            Ends-if (not (peek (b')' ∷ []) s2).0) (λ _. panics)
              (λ _.
                let less : length (gettoken s3).rest ≤ length s2 =
                  omega (arith, rest-le s3, peek-le (b')' ∷ []) s2) in
                Ends-weaken
                  (parseredirs-Ends c (gettoken s3).rest (omega (arith, fits, shorter, le, less))
                    inside)
                  (λ c' s4 (inside', le'). (inside', omega (arith, shorter, le, less, le'))))))

  parseexec-Ends :
      (line : List ℕ → Parse Cmd) (s : List ℕ)
      → LineEnds (length s) line
      → length s ≤ n
      → Ends (Kept n (length s)) (parseexec line s)
  unfolding parseexec
  parseexec-Ends line s again fits =
      let s1 : List ℕ = (peek (b'(' ∷ []) s).1 in
      let le : length s1 ≤ length s = peek-le (b'(' ∷ []) s in
      Ends-if (peek (b'(' ∷ []) s).0
        (λ _.
          Ends-weaken
            (parseblock-Ends line s1 (λ t h. again t (omega (arith, h, le)))
              (omega (arith, fits, le)))
            (λ c rest (inside, le'). (inside, omega (arith, le, le'))))
        (λ _.
          Ends-bind (redirs-Ends (length s1 + 1) s1 (omega arith) (omega (arith, fits, le)))
            (λ rs s2 (all, le2).
              Ends-bind
                (args-Ends (length s2 + 1) 0 s2 (omega arith) (omega (arith, fits, le, le2)))
                (λ (as', rs') s3 (all_args, all_redirs, le3). result (
                  wrap-AllInside n (rs ++ rs') (exec as')
                      (All-append (RedirInside n) rs rs' all all_redirs) all_args,
                  omega (arith, le, le2, le3),
                ))))

  parsepipe-Ends :
      (f : ℕ) (line : List ℕ → Parse Cmd) (s : List ℕ)
      → length s < f
      → LineEnds (length s) line
      → length s ≤ n
      → Ends (Kept n (length s)) (parsepipe f line s)
  unfolding parsepipe
  parsepipe-Ends zero line s h again fits = absurd (omega arith)
  parsepipe-Ends (suc f) line s h again fits =
      Ends-bind (parseexec-Ends line s again fits) (λ c s1 (inside, le).
        Ends-if (peek (b'|' ∷ []) s1).0
          (λ more.
            let t : List ℕ = (gettoken (peek (b'|' ∷ []) s1).1).rest in
            let less : length t < length s1 = peek-gettoken (b'|' ∷ []) s1 more in
            Ends-bind
              (parsepipe-Ends f line t (omega (arith, h, le, less))
                (λ u hu. again u (omega (arith, hu, le, less))) (omega (arith, fits, le, less)))
              (λ c' s3 (inside', le'). result ((inside, inside'), omega (arith, le, less, le'))))
          (λ _. result (inside, omega (arith, le, peek-le (b'|' ∷ []) s1))))

  backs-Ends :
      (f : ℕ) (c : Cmd) (s : List ℕ)
      → length s < f
      → AllInside n c
      → Ends (Kept n (length s)) (backs f c s)
  unfolding backs
  backs-Ends zero c s h inside = absurd (omega arith)
  backs-Ends (suc f) c s h inside =
      Ends-if (peek (b'&' ∷ []) s).0
        (λ more.
          let t : List ℕ = (gettoken (peek (b'&' ∷ []) s).1).rest in
          let less : length t < length s = peek-gettoken (b'&' ∷ []) s more in
          Ends-weaken (backs-Ends f (back c) t (omega (arith, h, less)) inside)
            (λ c' s2 (inside', le'). (inside', omega (arith, less, le'))))
        (λ _. result (inside, peek-le (b'&' ∷ []) s))

  parseline-Ends :
      (f : ℕ) (s : List ℕ) → length s < f → length s ≤ n → Ends (Kept n (length s)) (parseline f s)
  unfolding parseline
  parseline-Ends zero s h fits = absurd (omega arith)
  parseline-Ends (suc f) s h fits =
      Ends-bind
        (parsepipe-Ends (length s + 1) (λ t. parseline f t) s (omega arith)
          (λ t ht. parseline-Ends f t (omega (arith, h, ht)) (omega (arith, fits, ht))) fits)
        (λ c s1 (inside, le).
          Ends-bind (backs-Ends (length s1 + 1) c s1 (omega arith) inside) (λ c1 s2 (inside1, le1).
            Ends-if (peek (b';' ∷ []) s2).0
              (λ more.
                let t : List ℕ = (gettoken (peek (b';' ∷ []) s2).1).rest in
                let less : length t < length s2 = peek-gettoken (b';' ∷ []) s2 more in
                Ends-bind
                  (parseline-Ends f t (omega (arith, h, le, le1, less))
                    (omega (arith, fits, le, le1, less)))
                  (λ c2 s4 (inside2, le2).
                    result ((inside1, inside2), omega (arith, le, le1, less, le2))))
              (λ _. result (inside1, omega (arith, le, le1, peek-le (b';' ∷ []) s2)))))

-- The command that parsecmd returns, with the line that nulterminate has cut.
abbrev pub Parsed : List ℕ → Cmd × List ℕ → List ℕ → Type 0
Parsed s (c, line) rest =
    AllInside (length s) c × (line ≡ nulterminate (length s) c (s ++ (0 ∷ []))) × (rest ≡ [])

nil_of : (l : List ℕ) → (length l == 0) ≡ true → l ≡ []
nil_of [] h = refl
nil_of (c ∷ cs) h = absurd (ground (arith, h))

-- The parser of the shell ends on every line: it calls panic, or it has read the whole line, and
-- every argument and every file name of the command is a part of the line that is not empty.
pub parsecmd-Ends : (s : List ℕ) → Ends (Parsed s) (parsecmd s)
unfolding parsecmd
parsecmd-Ends s =
    Ends-bind (parseline-Ends (length s) (length s + 1) s (omega arith) (omega arith))
      (λ c s1 (inside, le).
        Ends-if (length (skip_space s1) == 0)
          (λ empty. result (inside, refl, nil_of (skip_space s1) empty)) (λ _. panics))
