-- ===== src/Ulib/Decimal.antt =====
-- atoi reads what printint writes.
use os.Base.{
  ℕ, zero, suc, ◌+◌, ◌-◌, ◌*◌, ◌/◌, ◌%◌, ◌^◌, ◌<◌, ◌==◌, leb, ◌≡◌, refl, ap, ◌∙◌, true, false, List,
  [], ◌∷◌, arith, Bool-cases, inl, inr,
}
use os.Ulib.Number.{digit, digits_from, printint, atoi_from, atoi}

abbrev pow10 : ℕ → ℕ
pow10 zero = 1
pow10 (suc f) = 10 * pow10 f

read_digit :
    (n d : ℕ) (cs : List ℕ)
    → d < 10
    → atoi_from n (digit d ∷ cs) ≡ atoi_from ((n * 10 + d) % 2 ^ 32) cs
unfolding atoi_from
read_digit n d cs h =
    let back : 48 + d - 48 ≡ d = omega arith in
    ground (arith, h, ap (λ k. atoi_from ((n * 10 + k) % 2 ^ 32) cs) back)

-- Reading the digits of a number from the left gives the number.
atoi-digits :
    (f x : ℕ) (ds : List ℕ)
    → x < pow10 f
    → x < 2 ^ 32
    → atoi_from 0 (digits_from f x 10 ds) ≡ atoi_from x ds
unfolding digits_from
atoi-digits zero x ds h fits = ap (λ k. atoi_from k ds) (omega (arith, h))
atoi-digits (suc f) x ds h fits = elim (Bool-cases (x / 10 == 0)) [
  | inl last ↦
      let small : x / 10 ≡ 0 = ground (arith, last) in
      rw last
        (read_digit 0 (x % 10) ds (omega arith) ∙ ap (λ k. atoi_from k ds) (omega (arith, small)))
  | inr more ↦ rw more (
      atoi-digits f (x / 10) (digit (x % 10) ∷ ds) (omega (arith, h)) (omega (arith, fits))
      ∙ read_digit (x / 10) (x % 10) ds (omega arith)
      ∙ ap (λ k. atoi_from k ds) (omega (arith, fits)))
]

print_plain : (x : ℕ) → leb (2 ^ 31) x ≡ false → printint x 10 true ≡ digits_from 32 x 10 []
unfolding printint
print_plain x h = rw h refl

atoi_start : (s : List ℕ) → atoi s ≡ atoi_from 0 s
unfolding atoi
atoi_start s = refl

atoi_stop : (n : ℕ) → atoi_from n [] ≡ n
unfolding atoi_from
atoi_stop n = refl

-- atoi gives back every number that printint writes in base ten and that is not negative as an
-- `int`.
pub atoi-printint : (x : ℕ) → x < 2 ^ 31 → atoi (printint x 10 true) ≡ x
atoi-printint x h =
    let plain : leb (2 ^ 31) x ≡ false = ground (arith, h) in
    ap atoi (print_plain x plain)
    ∙ atoi_start (digits_from 32 x 10 [])
    ∙ atoi-digits 32 x [] (omega (arith, h)) (omega (arith, h))
    ∙ atoi_stop x
