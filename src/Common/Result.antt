-- ===== src/Common/Result.antt =====
-- Outcomes of code that may raise: a value, or the exception of the component.
use mathlib.Core.Path.{◌≡◌, refl}

pub data Result {ℓ κ} (E : Type κ) (A : Type ℓ) : Type (ℓ ⊔ κ) where
  ok : A → Result E A
  raised : E → Result E A

infixl 5 ◌>>=◌
abbrev pub ◌>>=◌ {ℓ κ μ} :
    {E : Type κ} {A : Type ℓ} {B : Type μ} → Result E A → (A → Result E B) → Result E B
ok a >>= f = f a
raised e >>= f = raised e

-- What a chain that returns has gone through.
pub first_ok {ℓ κ μ} :
    {E : Type μ} {B : Type κ} {A : Type ℓ} (step : A → Result E B) (m : Result E A) (r : B)
    → (m >>= step) ≡ ok r
    → (value : A) × (m ≡ ok value) × (step value ≡ ok r)
first_ok step (raised why) r chain = cc
first_ok step (ok value) r chain = (value, refl, chain)

pub ok_injective {ℓ κ} :
    {E : Type κ} {A : Type ℓ} (a b : A) → ◌≡◌ {A = Result E A} (ok a) (ok b) → a ≡ b
ok_injective a b e = cc
