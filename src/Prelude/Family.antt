-- ===== src/Prelude/Family.antt =====
-- Families indexed by a thread: a change at one index, and the number of threads with a mark.
use reprocut.Prelude.Tests.{◌==◌, if◌then◌else◌}
use Prim.Native.Nat.{ℕ, zero, suc, ◌+◌, ◌≤◌, ◌<◌}
use mathlib.Core.Path.{◌≡◌, refl}
use mathlib.Core.Logic.{◌≢◌}
use mathlib.Core.Bool.{Bool, true}
use native.Mathlib.Decide.{dec_lt}
use native.Mathlib.Omega.{arith}

-- The family with `a` at `i`.
abbrev pub replace_at {ℓ} : {A : Type ℓ} → (ℕ → A) → ℕ → A → ℕ → A
replace_at f i a j = if j == i then a else f j

pub replace_at_self {ℓ} : {A : Type ℓ} (f : ℕ → A) (i : ℕ) (a : A) → replace_at f i a i ≡ a
replace_at_self f i a = let e : (i == i) ≡ true = ground arith in rw e

-- How many of the threads below `n` are marked.
pub marked : (ℕ → Bool) → ℕ → ℕ
marked mark zero = 0
marked mark (suc n) = (if mark n then 1 else 0) + marked mark n

pub marked_le : (mark : ℕ → Bool) (n : ℕ) → marked mark n ≤ n
unfolding marked
marked_le mark zero = omega arith
marked_le mark (suc n) = ground (arith, marked_le mark n)

marked_same :
    (before after : ℕ → Bool) (n : ℕ)
    → ((j : ℕ) → j < n → after j ≡ before j)
    → marked after n ≡ marked before n
unfolding marked
marked_same before after zero same = refl
marked_same before after (suc n) same =
    let rest = marked_same before after n (λ j lt. same j (omega arith)) in
    rw (same n (omega arith), rest)

-- A change at one thread changes the number by that thread's marks.
pub marked_change :
    (before after : ℕ → Bool) (i n : ℕ)
    → ((j : ℕ) → j ≢ i → after j ≡ before j)
    → i < n
    → marked after n + (if before i then 1 else 0) ≡ marked before n + (if after i then 1 else 0)
unfolding marked
marked_change before after i zero same lt = absurd (omega arith)
marked_change before after i (suc n) same lt = elim (dec_lt i n) [
  | yes below ↦
      let other = same n (λ e. omega arith) in
      let rest = marked_change before after i n same below in rw other (omega arith)
  | no last ↦
      let e : n ≡ i = omega arith in
      let rest = marked_same before after n (λ j lt. same j (λ q. omega arith)) in
      rw (← e, rest) (omega arith)
]
