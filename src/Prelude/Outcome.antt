-- ===== src/Prelude/Outcome.antt =====
-- What a call can do: return, panic, or go out of bounds through an unchecked access.
use mathlib.Core.Bool.{Bool, true, false}

pub data Outcome {ℓ} (A : Type ℓ) : Type ℓ where
  ok : A → Outcome A
  panic : Outcome A
  -- undefined behaviour: the source reads or writes memory that is not the buffer's
  fault : Outcome A

infixl 5 ◌>>=◌
abbrev pub ◌>>=◌ {ℓ κ} : {A : Type ℓ} {B : Type κ} → Outcome A → (A → Outcome B) → Outcome B
ok a >>= f = f a
panic >>= f = panic
fault >>= f = fault

-- `assert!`
abbrev pub assert {ℓ} : {A : Type ℓ} → Bool → Outcome A → Outcome A
assert true m = m
assert false m = panic

-- What an unchecked access relies on.
abbrev pub in_bounds {ℓ} : {A : Type ℓ} → Bool → Outcome A → Outcome A
in_bounds true m = m
in_bounds false m = fault
