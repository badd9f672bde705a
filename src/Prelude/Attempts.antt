-- ===== src/Prelude/Attempts.antt =====
-- Code that returns a result, fails with an error of its own, or panics.
use mathlib.Core.Path.{◌≡◌, refl, ap}
use mathlib.Core.Bool.{Bool, true, false}
use reprocut.Prelude.Faults.{Fault, Outcome, ok, fault}

pub data Attempt {ℓ} (E : Type 0) (A : Type ℓ) : Type ℓ where
  done : A → Attempt E A
  failed : E → Attempt E A
  crashed : Fault → Attempt E A

-- `first?`, with what comes after it.
infixl 5 ◌>>=◌
abbrev pub ◌>>=◌ {ℓ κ} :
    {E : Type 0} {B : Type κ} {A : Type ℓ} → Attempt E A → (A → Attempt E B) → Attempt E B
crashed e >>= next = crashed e
failed e >>= next = failed e
done value >>= next = next value

infixl 5 ◌>>◌
abbrev pub ◌>>◌ {κ} : {E : Type 0} {B : Type κ} → Attempt E (Unit {0}) → Attempt E B → Attempt E B
check >> later = check >>= λ passed. later

-- `if test { return Err(..) }`
abbrev pub fail_if : {E : Type 0} → Bool → E → Attempt E (Unit {0})
fail_if true e = failed e
fail_if false e = done tt

abbrev pub of_outcome {ℓ} : {E : Type 0} {A : Type ℓ} → Outcome A → Attempt E A
of_outcome (ok a) = done a
of_outcome (fault e) = crashed e

abbrev done_or {ℓ} : {E : Type 0} {A : Type ℓ} → A → Attempt E A → A
done_or a (done b) = b
done_or a _ = a

-- A result or an error, no panic.
abbrev pub Answers {ℓ} : {E : Type 0} {A : Type ℓ} → Attempt E A → Type 0
Answers (done a) = Unit
Answers (failed e) = Unit
Answers (crashed e) = ⊥

module _ {E : Type 0} where
  pub bind-done {ℓ κ} :
      {B : Type κ} {A : Type ℓ} (first : Attempt E A) (next : A → Attempt E B) {result : B}
      → first >>= next ≡ done result
      → (value : A) × (first ≡ done value) × (next value ≡ done result)
  bind-done (failed e) next h = absurd (cc)
  bind-done (crashed e) next h = absurd (cc)
  bind-done (done value) next h = (value, refl, h)

  pub bind-Answers {ℓ κ} :
      {B : Type κ} {A : Type ℓ} (first : Attempt E A) (next : A → Attempt E B)
      → Answers first
      → ((value : A) → first ≡ done value → Answers (next value))
      → Answers (first >>= next)
  bind-Answers (failed e) next h k = tt
  bind-Answers (crashed e) next h k = absurd h
  bind-Answers (done value) next h k = k value refl

  pub done-injective {ℓ} : {A : Type ℓ} {a b : A} → ◌≡◌ {A = Attempt E A} (done a) (done b) → a ≡ b
  done-injective {a} {b} e = ap (done_or a) e

  pub fail_if-done {ℓ} :
      {B : Type ℓ} (test : Bool) (e : E) (later : Attempt E B) {b : B}
      → (fail_if test e >> later) ≡ done b
      → (test ≡ false) × (later ≡ done b)
  fail_if-done true e later h = absurd (cc)
  fail_if-done false e later h = (refl, h)

  pub of_outcome-done {ℓ} :
      {A : Type ℓ} (o : Outcome A) {a : A} → of_outcome {E = E} o ≡ done a → o ≡ ok a
  of_outcome-done (ok b) e = ap ok (done-injective e)
  of_outcome-done (fault x) e = absurd (cc)
