-- ===== src/Base/After.antt =====
-- What holds of the value that a kernel function returns, where it returns.
use mathlib.Core.Path.{◌≡◌, refl, ap, subst}
use mathlib.Core.Bool.{Bool, true, false}
use mathlib.Core.Option.{Option, none, some}
use os.Base.Tests.{if◌then◌else◌}
use os.Base.Results.{Result, ok, panic, fault, deref, ◌>>=◌, >>=-Returned}
use Prim.Native.String.{String}

pub record Post {ℓ κ} {A : Type ℓ} (P : A → Type κ) (r : Result A) : Type (ℓ ⊔ κ) where
  pub of : (a : A) → r ≡ ok a → P a

abbrev value {ℓ} : {A : Type ℓ} → A → Result A → A
value a (ok b) = b
value a (panic m) = a
value a fault = a

module _ {ℓ κ} {A : Type ℓ} {P : A → Type κ} where
  pub Post-ok : {a : A} → P a → Post P (ok a)
  Post-ok {a} p = record { of = λ b e. subst P (ap (value a) e) p }

  pub Post-panic : {m : String} → Post P (panic m)
  Post-panic = record { of = λ a e. absurd cc }

  Post-fault : Post P fault
  Post-fault = record { of = λ a e. absurd cc }

  pub Post-if :
      {r s : Result A} (b : Bool)
      → (b ≡ true → Post P r)
      → (b ≡ false → Post P s)
      → Post P (if b then r else s)
  Post-if true hr hs = hr refl
  Post-if false hr hs = hs refl

  pub Post-Bool :
      {r s : Result A} (b : Bool)
      → (b ≡ true → Post P r)
      → (b ≡ false → Post P s)
      → Post P (elim b [ true ↦ r | false ↦ s ])
  Post-Bool true hr hs = hr refl
  Post-Bool false hr hs = hs refl

  pub Post-Option {μ} :
      {B : Type μ} {r : Result A} {s : B → Result A} (o : Option B)
      → (o ≡ none → Post P r)
      → ((b : B) → o ≡ some b → Post P (s b))
      → Post P (elim o [ none ↦ r | some b ↦ s b ])
  Post-Option none hr hs = hr refl
  Post-Option (some b) hr hs = hs b refl

  pub Post-bind {μ} :
      {B : Type μ} (m : Result B) {f : B → Result A}
      → ((b : B) → m ≡ ok b → Post P (f b))
      → Post P (m >>= f)
  Post-bind m {f} h = record {
    of = λ a e. let (b, e1, e2) = >>=-Returned m f e in (h b e1).of a e2;
  }

  pub Post-deref {μ} :
      {B : Type μ} (o : Option B) {f : B → Result A}
      → ((b : B) → o ≡ some b → Post P (f b))
      → Post P (deref o >>= f)
  Post-deref none h = Post-fault
  Post-deref (some b) h = h b refl
