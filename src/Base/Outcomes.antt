-- ===== src/Base/Outcomes.antt =====
-- How a call ends: it returns, or it does what C++ leaves undefined (an access outside the
-- storage of a vector, a division by zero).
use mathlib.Core.Path.{◌≡◌, refl}
use mathlib.Core.Bool.{Bool, true, false}
use zbluenet.Base.Tests.{if◌then◌else◌}

pub data Outcome {ℓ} (A : Type ℓ) : Type ℓ where
  done : A → Outcome A
  fault : Outcome A

infixl 5 ◌>>=◌
abbrev pub ◌>>=◌ {ℓ κ} : {A : Type ℓ} {B : Type κ} → Outcome A → (A → Outcome B) → Outcome B
done a >>= f = f a
fault >>= f = fault

-- The call returns, with a value that satisfies `P`.
pub data Ends {ℓ κ} {A : Type ℓ} (P : A → Type κ) : Outcome A → Type (ℓ ⊔ κ) where
  ends : {a : A} → P a → Ends P (done a)

module _ {ℓ κ} {A : Type ℓ} {P : A → Type κ} where
  pub Ends-bind {ℓ' κ'} :
      {B : Type ℓ'} {Q : B → Type κ'} {o : Outcome A} {f : A → Outcome B}
      → Ends P o
      → ((a : A) → P a → Ends Q (f a))
      → Ends Q (o >>= f)
  Ends-bind (ends p) k = k _ p

  pub Ends-map {κ'} :
      {Q : A → Type κ'} {o : Outcome A} → Ends P o → ((a : A) → P a → Q a) → Ends Q o
  Ends-map (ends p) k = ends (k _ p)

  pub Ends-if :
      {x y : Outcome A} (b : Bool)
      → (b ≡ true → Ends P x)
      → (b ≡ false → Ends P y)
      → Ends P (if b then x else y)
  Ends-if true p q = p refl
  Ends-if false p q = q refl

  -- The value of a call that returns.
  pub Ends-inv : {o : Outcome A} → Ends P o → (a : A) × (o ≡ done a) × P a
  Ends-inv (ends p) = (_, refl, p)
