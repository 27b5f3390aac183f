-- ===== src/Common/Results.antt =====
-- Python calls that raise: a value, or the error that leaves the call.
use mathlib.Core.Path.{◌≡◌, refl}
use mathlib.Core.Bool.{Bool, true, false}

pub data Result {ℓ κ} (E : Type ℓ) (A : Type κ) : Type (ℓ ⊔ κ) where
  ok : A → Result E A
  err : E → Result E A

module _ {ℓ} {E : Type ℓ} where
  -- if not test: raise reason
  abbrev pub guard : Bool → E → Result E (Unit {0})
  guard false reason = err reason
  guard true reason = ok tt

  infixl 10 ◌>>=◌ ◌>>◌
  abbrev pub ◌>>=◌ {κ μ} : {A : Type κ} {B : Type μ} → Result E A → (A → Result E B) → Result E B
  err raised >>= after = err raised
  ok value >>= after = after value

  abbrev pub ◌>>◌ {κ} : {B : Type κ} → Result E (Unit {0}) → Result E B → Result E B
  err raised >> after = err raised
  ok done >> after = after

  pub >>=-eq-ok {κ μ} :
      {A : Type κ} {B : Type μ} (m : Result E A) (f : A → Result E B) {b : B}
      → (m >>= f) ≡ ok b
      → (a : A) × (m ≡ ok a) × (f a ≡ ok b)
  >>=-eq-ok (err raised) f h = cc
  >>=-eq-ok (ok value) f h = (value, refl, h)
