-- ===== src/Prelude/Faults.antt =====
-- Results of code that can panic. `panic` is an index out of range, a failed `debug_assert!` or an
-- `unreachable!` that is reached; `stuck` is a loop of the model that ran out of fuel.
use mathlib.Core.Path.{◌≡◌, refl, ap}
use mathlib.Core.Option.{Option, none, some}

pub data Fault : Type 0 where
  panic stuck : Fault

pub data Outcome {ℓ} (A : Type ℓ) : Type ℓ where
  ok : A → Outcome A
  fault : Fault → Outcome A

infixl 5 ◌>>=◌
abbrev pub ◌>>=◌ {ℓ κ} : {A : Type ℓ} {B : Type κ} → Outcome A → (A → Outcome B) → Outcome B
ok a >>= f = f a
fault e >>= f = fault e

abbrev pub or_panic {ℓ} : {A : Type ℓ} → Option A → Outcome A
or_panic (some a) = ok a
or_panic none = fault panic

-- Inversion of a successful bind.
pub bind-ok {ℓ κ} :
    {B : Type κ} {A : Type ℓ} (first : Outcome A) (next : A → Outcome B) {result : B}
    → first >>= next ≡ ok result
    → (value : A) × (first ≡ ok value) × (next value ≡ ok result)
bind-ok (fault e) next h = absurd (cc)
bind-ok (ok value) next h = (value, refl, h)

abbrev value_or {ℓ} : {A : Type ℓ} → A → Outcome A → A
value_or a (ok b) = b
value_or a (fault e) = a

pub ok-injective {ℓ} : {A : Type ℓ} {a b : A} → ok a ≡ ok b → a ≡ b
ok-injective {a} {b} e = ap (value_or a) e

pub or_panic-some {ℓ} : {A : Type ℓ} {o : Option A} {a : A} → or_panic o ≡ ok a → o ≡ some a
or_panic-some {o = some b} e = ap some (ok-injective e)
or_panic-some {o = none} e = absurd (cc)
