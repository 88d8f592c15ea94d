-- ===== src/Base/Result.antt =====
-- What an operation that may throw returns.
use mathlib.Core.Path.{◌≡◌, refl}

pub data Result {ℓ κ} (Thrown : Type ℓ) (Value : Type κ) : Type (ℓ ⊔ κ) where
  ok : Value → Result Thrown Value
  err : Thrown → Result Thrown Value

pub ok-injective : {E V : Type 0} {v w : V} → ◌≡◌ {A = Result E V} (ok v) (ok w) → v ≡ w
ok-injective same = cc

module _ {ℓ κ ι} {Thrown : Type ℓ} {Value : Type κ} {After : Type ι} where
  infixl 5 ◌>>=◌
  abbrev pub ◌>>=◌ : Result Thrown Value → (Value → Result Thrown After) → Result Thrown After
  err thrown >>= later = err thrown
  ok value >>= later = later value

  -- The value that the second step went on from, when both steps succeed.
  pub >>=_inv :
      (first : Result Thrown Value) (later : Value → Result Thrown After) {w : After}
      → first >>= later ≡ ok w
      → (v : Value) × (later v ≡ ok w) × (first ≡ ok v)
  >>=_inv (err thrown) later both = cc
  >>=_inv (ok v) later both = (v, both, refl)
