-- ===== src/Base/Results.antt =====
-- The result of code that may throw, and its sequencing.
use mathlib.Core.Logic.{◌⊎◌, inl, inr}
use mathlib.Core.Path.{◌≡◌, refl}

-- A returned value, or what was thrown in its place.
pub data Outcome {ℓ} (E : Type 0) (A : Type ℓ) : Type ℓ where
  thrown : E → Outcome E A
  ok : A → Outcome E A

-- Whether the code threw, with the equation.
pub Outcome-cases {ℓ} :
    {E : Type 0} {A : Type ℓ} (m : Outcome E A)
    → ((e : E) × (m ≡ thrown e)) ⊎ ((a : A) × (m ≡ ok a))
Outcome-cases (thrown e) = inl (e, refl)
Outcome-cases (ok a) = inr (a, refl)

module _ {ℓ κ} {E : Type 0} {A : Type ℓ} {B : Type κ} where
  infixl 5 ◌>>=◌
  -- `await`: a throw ends the rest.
  abbrev pub ◌>>=◌ : Outcome E A → (A → Outcome E B) → Outcome E B
  m >>= rest = elim m [ thrown e ↦ thrown e | ok a ↦ rest a ]
