-- ===== src/Common/Results.antt =====
-- A result that is a value or an error, as `Result<A, E>`.
use mathlib.Core.Path.{◌≡◌, refl}
use mathlib.Core.Logic.{◌⊎◌, inl, inr}

pub data Result {ℓ} (E : Type 0) (A : Type ℓ) : Type ℓ where
  ok : A → Result E A
  err : E → Result E A

pub Result-cases {ℓ} :
    {E : Type 0} {A : Type ℓ} (r : Result E A) → ((a : A) × (r ≡ ok a)) ⊎ ((e : E) × (r ≡ err e))
Result-cases (ok a) = inl (a, refl)
Result-cases (err e) = inr (e, refl)

pub eq_of_ok {ℓ} : {E : Type 0} {A : Type ℓ} (a b : A) → ◌≡◌ {A = Result E A} (ok a) (ok b) → a ≡ b
eq_of_ok a b h = cc

pub err-ne-ok {ℓ κ} :
    {E : Type 0} {A : Type ℓ} {C : Type κ} (e : E) (a : A) → ◌≡◌ {A = Result E A} (err e) (ok a) → C
err-ne-ok e a h = cc
