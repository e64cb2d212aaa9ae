-- ===== src/Prelude/Results.antt =====
-- The outcome of code that may raise: the value, or the error that propagates.
use mathlib.Core.Path.{◌≡◌, refl}
use mathlib.Core.Bool.{Bool, true, false}

pub data Result {ℓ κ} (E : Type ℓ) (A : Type κ) : Type (ℓ ⊔ κ) where
  raised : E → Result E A
  returned : A → Result E A

module _ {ℓ κ} {E : Type ℓ} {A : Type κ} where
  -- `if test: raise error`
  abbrev pub raise_if : Bool → E → Result E A → Result E A
  raise_if true e r = raised e
  raise_if false e r = r

  abbrev pub and_then {μ} : {B : Type μ} → Result E A → (A → Result E B) → Result E B
  and_then (raised e) f = raised e
  and_then (returned a) f = f a

  pub raise_if-returned :
      (test : Bool) (e : E) (r : Result E A) (a : A)
      → raise_if test e r ≡ returned a
      → (test ≡ false) × (r ≡ returned a)
  raise_if-returned true e r a h = cc
  raise_if-returned false e r a h = (refl, h)

  pub and_then-returned {μ} :
      {B : Type μ} (r : Result E A) (f : A → Result E B) (b : B)
      → and_then r f ≡ returned b
      → (a : A) × (r ≡ returned a) × (f a ≡ returned b)
  and_then-returned (raised e) f b h = cc
  and_then-returned (returned a) f b h = (a, refl, h)
