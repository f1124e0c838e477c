-- ===== src/Ulib/Match.antt =====
-- grep.c: match, matchhere and matchstar. Patterns and texts are their characters up to the NUL.
use os.Base.{ℕ, ◌==◌, Bool, true, false, ◌&&◌, ◌||◌, if◌then◌else◌, List, [], ◌∷◌}

-- matchstar, where `here` is matchhere on the rest of the pattern.
unfoldable pub matchstar : (List ℕ → Bool) → ℕ → List ℕ → Bool
matchstar here c [] = here []
matchstar here c (t ∷ ts) =
    let rest = matchstar here c ts in here (t ∷ ts) || ((t == c || c == b'.') && rest)

-- The last test of matchhere: the next character fits, and `here` takes the rest.
abbrev pub match_char : (List ℕ → Bool) → ℕ → List ℕ → Bool
match_char here c [] = false
match_char here c (t ∷ ts) = (c == b'.' || c == t) && here ts

abbrev pub at_end : List ℕ → Bool
at_end [] = true
at_end (t ∷ ts) = false

unfoldable pub matchhere : List ℕ → List ℕ → Bool
matchhere [] text = true
matchhere (c ∷ []) text = if c == b'$' then at_end text else match_char (λ t. true) c text
matchhere (c ∷ d ∷ re) text =
    let star = matchstar (λ t. matchhere re t) c text in
    let char = match_char (λ t. matchhere (d ∷ re) t) c text in if d == b'*' then star else char

-- The loop of match.
unfoldable pub anywhere : List ℕ → List ℕ → Bool
anywhere re [] = matchhere re []
anywhere re (t ∷ ts) = let rest = anywhere re ts in matchhere re (t ∷ ts) || rest

unfoldable pub match : List ℕ → List ℕ → Bool
match [] text = anywhere [] text
match (c ∷ re) text = if c == b'^' then matchhere re text else anywhere (c ∷ re) text
