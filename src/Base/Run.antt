-- ===== src/Base/Run.antt =====
-- What a C function does: it returns, it faults (a NULL pointer is dereferenced, a division by
-- zero, an array index out of range), or the fuel of a loop runs out.
use mathlib.Core.Path.{◌≡◌, refl}
use mathlib.Core.Option.{Option, none, some}

pub data Outcome {ℓ} (A : Type ℓ) : Type ℓ where
  ok : A → Outcome A
  fault : Outcome A
  out_of_fuel : Outcome A

infixl 5 ◌>>=◌
abbrev pub ◌>>=◌ {ℓ κ} : {A : Type ℓ} {B : Type κ} → Outcome A → (A → Outcome B) → Outcome B
ok a >>= f = f a
fault >>= f = fault
out_of_fuel >>= f = out_of_fuel

-- `*p` for a pointer that may be NULL.
abbrev pub deref {ℓ} : {A : Type ℓ} → Option A → Outcome A
deref none = fault
deref (some a) = ok a

-- A run of two steps that returns: the first returned, and the second from its value.
pub >>=-eq-ok {ℓ κ} :
    {A : Type ℓ} {B : Type κ} {y : B} (run : Outcome A) (next : A → Outcome B)
    → (run >>= next) ≡ ok y
    → (x : A) × (run ≡ ok x) × (next x ≡ ok y)
>>=-eq-ok fault next returns = cc
>>=-eq-ok out_of_fuel next returns = cc
>>=-eq-ok (ok x) next returns = (x, refl, returns)

pub ok-injective {ℓ} : {A : Type ℓ} {a b : A} → ok a ≡ ok b → a ≡ b
ok-injective h = cc
