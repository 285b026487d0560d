-- ===== src/Prelude/Results.antt =====
-- A Go function's `(T, error)`, with the errors of a component as a data type.
use mathlib.Core.Path.{◌≡◌, refl}
use mathlib.Core.Bool.{Bool, true, false}

pub data Result {ℓ} (E : Type 0) (A : Type ℓ) : Type ℓ where
  ok : A → Result E A
  err : E → Result E A

infixl 5 ◌>>=◌ ◌>>◌
abbrev pub ◌>>=◌ {ℓ κ} :
    {E : Type 0} {A : Type ℓ} {B : Type κ} → Result E A → (A → Result E B) → Result E B
ok a >>= f = f a
err e >>= f = err e

abbrev pub ◌>>◌ {ℓ} : {E : Type 0} {B : Type ℓ} → Result E (Unit {0}) → Result E B → Result E B
m >> k = m >>= λ _. k

-- `if b { return e }`
abbrev pub fail_if : {E : Type 0} → Bool → E → Result E (Unit {0})
fail_if true e = err e
fail_if false e = ok tt

abbrev pub map_err {ℓ} : {E F : Type 0} {A : Type ℓ} → (E → F) → Result E A → Result F A
map_err f (ok a) = ok a
map_err f (err e) = err (f e)

abbrev pub is_ok {ℓ} : {E : Type 0} {A : Type ℓ} → Result E A → Bool
is_ok (ok _) = true
is_ok (err _) = false

-- What holds of the value, if there is one.
abbrev pub OkThen {ℓ κ} : {E : Type 0} {A : Type ℓ} → (A → Type κ) → Result E A → Type κ
OkThen P (ok a) = P a
OkThen P (err e) = Unit

module _ {ℓ κ} {E : Type 0} {A : Type ℓ} (P : A → Type κ) where
  pub OkThen-bind {ι μ} :
      {B : Type ι} (Q : B → Type μ) (r : Result E A) (f : A → Result E B)
      → OkThen P r
      → ((a : A) → P a → OkThen Q (f a))
      → OkThen Q (r >>= f)
  OkThen-bind Q (ok a) f p q = q a p
  OkThen-bind Q (err e) f p q = tt

  -- Behind a check, its condition does not hold.
  pub OkThen-fail_if :
      (b : Bool) (e : E) (r : Result E A) → (b ≡ false → OkThen P r) → OkThen P (fail_if b e >> r)
  OkThen-fail_if true e r q = tt
  OkThen-fail_if false e r q = q refl

pub OkThen-self {ℓ} :
    {E : Type 0} {A : Type ℓ} (r : Result E A) → OkThen (λ (a : A). is_ok r ≡ true) r
OkThen-self (ok a) = refl
OkThen-self (err e) = tt
