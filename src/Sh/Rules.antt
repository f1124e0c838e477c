-- ===== src/Sh/Rules.antt =====
-- sh.c: how a parser ends, and the parts of a line that a command keeps.
use os.Base.{
  String, ℕ, ◌<◌, ◌≤◌, ◌==◌, ◌≡◌, refl, ap, not, Bool, true, false, if◌then◌else◌, List, [], ◌∷◌,
  ◌++◌, length, All, arith, inl, inr,
}
use os.Sh.Lexer.{gettoken}
use os.Sh.LexerLaws.{gettoken-IsToken, word_text}
use os.Sh.Parser.{
  Span, span, Cmd, exec, redir, pipe, list, back, Parse, parsed, syntax, ◌>>=◌, Redir, redir_of,
  wrap,
}

-- A parser ends: it panics, or its result has the property.
pub data Ends {ℓ} {A : Type ℓ} (P : A → List ℕ → Type 0) : Parse A → Type ℓ where
  result : {a : A} {s : List ℕ} → P a s → Ends P (parsed a s)
  panics : {why : String} → Ends P (syntax why)

pub Ends-bind {ℓ κ} :
    {A : Type ℓ} {B : Type κ} {P : A → List ℕ → Type 0} {Q : B → List ℕ → Type 0} {m : Parse A}
    {k : A → List ℕ → Parse B}
    → Ends P m
    → ((a : A) (s : List ℕ) → P a s → Ends Q (k a s))
    → Ends Q (m >>= k)
Ends-bind (result h) hk = hk _ _ h
Ends-bind panics hk = panics

pub Ends-weaken {ℓ} :
    {A : Type ℓ} {P Q : A → List ℕ → Type 0} {m : Parse A}
    → Ends P m
    → ((a : A) (s : List ℕ) → P a s → Q a s)
    → Ends Q m
Ends-weaken (result h) w = result (w _ _ h)
Ends-weaken panics w = panics

pub Ends-if {ℓ} :
    {A : Type ℓ} {P : A → List ℕ → Type 0} {x y : Parse A} (b : Bool)
    → (b ≡ true → Ends P x)
    → (b ≡ false → Ends P y)
    → Ends P (if b then x else y)
Ends-if true hx hy = hx refl
Ends-if false hx hy = hy refl

-- A span that is not empty, in a line of `n` characters.
abbrev pub Inside : ℕ → Span → Type 0
Inside n a = (a.stop < a.start) × (a.start ≤ n)

abbrev pub AllInside : ℕ → Cmd → Type 0
AllInside n (exec as') = All (Inside n) as'
AllInside n (redir c file mode fd) = Inside n file × AllInside n c
AllInside n (pipe c d) = AllInside n c × AllInside n d
AllInside n (list c d) = AllInside n c × AllInside n d
AllInside n (back c) = AllInside n c

abbrev pub RedirInside : ℕ → Redir → Type 0
RedirInside n r = Inside n r.file

pub All-append {ℓ κ} :
    {A : Type ℓ} (P : A → Type κ) (xs ys : List A) → All P xs → All P ys → All P (xs ++ ys)
All-append P [] ys h hs = hs
All-append P (x ∷ xs) ys (h, h1) hs = (h, All-append P xs ys h1 hs)

pub wrap-AllInside :
    (n : ℕ) (rs : List Redir) (c : Cmd)
    → All (RedirInside n) rs
    → AllInside n c
    → AllInside n (wrap rs c)
unfolding wrap
wrap-AllInside n [] c h hc = hc
wrap-AllInside n (r ∷ rs) c (h, hs) hc = wrap-AllInside n rs (redir c r.file r.mode r.fd) hs (h, hc)

pub redir_file : (tok : ℕ) (a : Span) → (redir_of tok a).file ≡ a
redir_file tok a = ground arith

-- The span of a token that is not the end of the line.
pub span-Inside :
    (n : ℕ) (s : List ℕ)
    → length s ≤ n
    → ((gettoken s).kind == 0) ≡ false
    → Inside n (span (gettoken s))
span-Inside n s h k = let t = gettoken-IsToken s in (word_text s t k, omega (arith, h, t.inside))

pub rest-le : (s : List ℕ) → length (gettoken s).rest ≤ length s
rest-le s =
    let t = gettoken-IsToken s in
    elim t.some_text [
      | inl (_, _, none_left) ↦ omega (arith, t.behind, ap length none_left)
      | inr some_left ↦ omega (arith, t.inside, t.behind, some_left)
    ]

-- A token that is not the end of the line makes the line shorter.
pub word-lt : (s : List ℕ) → ((gettoken s).kind == 0) ≡ false → length (gettoken s).rest < length s
word-lt s k = let t = gettoken-IsToken s in omega (arith, t.inside, t.behind, word_text s t k)

pub is_word : (k : ℕ) → not (k == b'a') ≡ false → (k == 0) ≡ false
is_word k h = ground (arith, h)
