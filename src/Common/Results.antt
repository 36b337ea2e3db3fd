-- ===== src/Common/Results.antt =====
-- Code that may throw. The handlers modelled here throw nothing but the engine's TypeError, when a
-- property of `null` or `undefined` is read.
use mathlib.Core.Path.{◌≡◌, refl}

pub data Result {ℓ} (Outcome : Type ℓ) : Type ℓ where
  type_error : Result Outcome
  ok : Outcome → Result Outcome

-- What follows is not run once something was thrown.
infixl 5 ◌>>=◌
abbrev pub ◌>>=◌ {ℓ κ} :
    {Outcome : Type ℓ} {Last : Type κ} → Result Outcome → (Outcome → Result Last) → Result Last
type_error >>= continue = type_error
ok outcome >>= continue = continue outcome

pub ok-injective {ℓ} : {A : Type ℓ} {a b : A} → ok a ≡ ok b → a ≡ b
ok-injective h = cc

-- A chain that was not cut short went through both of its steps.
pub >>=-steps {ℓ κ} :
    {Outcome : Type ℓ} {Last : Type κ} (first : Result Outcome) (continue : Outcome → Result Last)
    {last : Last}
    → (first >>= continue) ≡ ok last
    → (middle : Outcome) × (first ≡ ok middle) × (continue middle ≡ ok last)
>>=-steps type_error continue went = cc
>>=-steps (ok outcome) continue went = (outcome, refl, went)
