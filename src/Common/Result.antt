-- ===== src/Common/Result.antt =====
-- A value or a raised exception.
use mathlib.Core.Path.{◌≡◌, refl}
use Prim.Native.Nat.{zero, suc}
use native.Mathlib.Omega.{arith}
use mathlib.Core.Logic.{◌⊎◌, inl, inr}

pub data Result {ℓ κ} (E : Type ℓ) (A : Type κ) : Type (ℓ ⊔ κ) where
  ok : A → Result E A
  err : E → Result E A

module _ {ℓ κ} {E : Type ℓ} {A : Type κ} where
  pub Result-cases : (r : Result E A) → ((a : A) × (r ≡ ok a)) ⊎ ((e : E) × (r ≡ err e))
  Result-cases (ok a) = inl (a, refl)
  Result-cases (err e) = inr (e, refl)

pub same_ok : {A E : Type 0} (a b : A) → Path (Result E A) (ok a) (ok b) → a ≡ b
same_ok a b e = ground arith

-- An exception is not a value.
pub no_ok : {A E : Type 0} (a : A) (x : E) → Path (Result E A) (err x) (ok a) → zero ≡ suc zero
no_ok a x e = ground arith

module _ {ℓ κ μ} {E : Type ℓ} {A : Type κ} {B : Type μ} where
  infixl 5 ◌>>=◌ ◌>>◌
  abbrev pub ◌>>=◌ : Result E A → (A → Result E B) → Result E B
  ok a >>= f = f a
  err e >>= f = err e

  abbrev pub ◌>>◌ : Result E A → Result E B → Result E B
  m >> k = m >>= λ _. k
