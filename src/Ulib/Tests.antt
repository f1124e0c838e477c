-- ===== src/Ulib/Tests.antt =====
-- grep.c, printf.c and ulib.c on a few characters.
use os.Base.{ℕ, ◌≡◌, ◌↔◌, refl, true, List, [], ◌∷◌, arith}
use os.Ulib.Number.{digits_from, printint, atoi}
use os.Ulib.Decimal.{atoi-printint}
use os.Ulib.Match.{matchstar, matchhere, anywhere, match}
use os.Ulib.Regex.{Says, match_iff}

-- -2 as a word
print_negative : printint 0xffff_fffe 10 true ≡ b'-' ∷ b'2' ∷ []
unfolding printint digits_from
print_negative = refl

print_hex : printint 0x1f 16 true ≡ b'1' ∷ b'F' ∷ []
unfolding printint digits_from
print_hex = refl

atoi-printint_example : atoi (printint 2024 10 true) ≡ 2024
atoi-printint_example = atoi-printint 2024 (omega arith)

-- "a*.$" and "xaab"
abbrev pattern_text : List ℕ
pattern_text = b'a' ∷ b'*' ∷ b'.' ∷ b'$' ∷ []

abbrev text : List ℕ
text = b'x' ∷ b'a' ∷ b'a' ∷ b'b' ∷ []

match_run : match pattern_text text ≡ true
unfolding match anywhere matchhere matchstar
match_run = refl

match_iff_example : (match pattern_text text ≡ true) ↔ Says pattern_text text
match_iff_example = match_iff pattern_text text
