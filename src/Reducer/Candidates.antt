-- ===== src/Reducer/Candidates.antt =====
-- The candidates of a plan: which positions they keep, and that filling them does not panic.
use reprocut.Prelude.{ℕ, zero, suc, ◌+◌, ◌≤◌, ◌<◌, ◌≡◌, refl, inl, inr, arith}
use reprocut.Prelude.{Bool, false, if◌then◌else◌, Bool-cases, ap}
use reprocut.Prelude.{some, List, [], ◌∷◌, length, get_elem?}
use mathlib.Core.List.{Sublistᴰ}
use native.Mathlib.Nat.{add-zero}
use reprocut.Prelude.Faults.{ok}
use reprocut.Reducer.{ReductionUnit, FrontierPartition, keeps_position}
use reprocut.Reducer.{fill_partition, units_at}

-- The elements at the positions that `keep` admits, `position` being that of the first.
abbrev pub select {ℓ} : {A : Type ℓ} → (ℕ → Bool) → ℕ → List A → List A
select keep position [] = []
select keep position (x ∷ xs) =
    if keep position then x ∷ select keep (position + 1) xs else select keep (position + 1) xs

-- `indices` are in range, and `us` are the units that they name.
abbrev pub Reads : List ReductionUnit → List ℕ → List ReductionUnit → Type 0
Reads units [] [] = Unit
Reads units [] (u ∷ us) = ⊥
Reads units (i ∷ is) [] = ⊥
Reads units (i ∷ is) (u ∷ us) = (get_elem? units i ≡ some u) × Reads units is us

pub Reads-length :
    (units : List ReductionUnit) (is : List ℕ) (us : List ReductionUnit)
    → Reads units is us
    → length is ≡ length us
Reads-length units [] [] r = refl
Reads-length units [] (u ∷ us) r = absurd r
Reads-length units (i ∷ is) [] r = absurd r
Reads-length units (i ∷ is) (u ∷ us) (e, r) = ap suc (Reads-length units is us r)

pub Reads-units_at :
    (units : List ReductionUnit) (is : List ℕ) (us : List ReductionUnit)
    → Reads units is us
    → units_at units is ≡ ok us
unfolding units_at
Reads-units_at units [] [] r = refl
Reads-units_at units [] (u ∷ us) r = absurd r
Reads-units_at units (i ∷ is) [] r = absurd r
Reads-units_at units (i ∷ is) (u ∷ us) (e, r) = rw (e, Reads-units_at units is us r)

pub select-sublist {ℓ} :
    {A : Type ℓ} (keep : ℕ → Bool) (position : ℕ) (xs : List A)
    → Sublistᴰ (select keep position xs) xs
select-sublist keep position [] = Sublistᴰ.slnil
select-sublist keep position (x ∷ xs) = elim (Bool-cases (keep position)) [
  | inl e ↦ rw e (Sublistᴰ.cons-cons refl (select-sublist keep (position + 1) xs))
  | inr e ↦ rw e (Sublistᴰ.cons (select-sublist keep (position + 1) xs))
]

pub select-Reads :
    (units : List ReductionUnit) (keep : ℕ → Bool) (position : ℕ) (is : List ℕ)
    (us : List ReductionUnit)
    → Reads units is us
    → Reads units (select keep position is) (select keep position us)
select-Reads units keep position [] [] r = tt
select-Reads units keep position [] (u ∷ us) r = absurd r
select-Reads units keep position (i ∷ is) [] r = absurd r
select-Reads units keep position (i ∷ is) (u ∷ us) (e, r) = elim (Bool-cases (keep position)) [
  | inl k ↦ rw k (e, select-Reads units keep (position + 1) is us r)
  | inr k ↦ rw k (select-Reads units keep (position + 1) is us r)
]

-- Filling a plan's buffers does not panic, and selects the plan's positions.
pub fill_partition_lem :
    (units : List ReductionUnit) (plan : FrontierPartition) (position : ℕ) (is : List ℕ)
    (us : List ReductionUnit)
    → Reads units is us
    → fill_partition units plan position is
      ≡ ok (record {
        indices = select (keeps_position plan) position is;
        units = select (keeps_position plan) position us;
      })
unfolding fill_partition
fill_partition_lem units plan position [] [] r = refl
fill_partition_lem units plan position [] (u ∷ us) r = absurd r
fill_partition_lem units plan position (i ∷ is) [] r = absurd r
fill_partition_lem units plan position (i ∷ is) (u ∷ us) (e, r) =
    elim (Bool-cases (keeps_position plan position)) [
      | inl k ↦ rw (fill_partition_lem units plan (position + 1) is us r, k, e)
      | inr k ↦ rw (fill_partition_lem units plan (position + 1) is us r, k)
    ]

select-length-le {ℓ} :
    {A : Type ℓ} (keep : ℕ → Bool) (position : ℕ) (xs : List A)
    → length (select keep position xs) ≤ length xs
select-length-le keep position [] = omega arith
select-length-le keep position (x ∷ xs) = ground (arith, select-length-le keep (position + 1) xs)

-- A position that is left out makes the selection shorter.
pub select-length-lt {ℓ} :
    {A : Type ℓ} (keep : ℕ → Bool) (position k : ℕ) (xs : List A)
    → k < length xs
    → keep (position + k) ≡ false
    → length (select keep position xs) < length xs
select-length-lt keep position k [] h out = absurd (omega arith)
select-length-lt keep position zero (x ∷ xs) h out =
    rw (rw add-zero at out) (omega (arith, select-length-le keep (position + 1) xs))
select-length-lt keep position (suc k) (x ∷ xs) h out =
    let e : position + suc k ≡ position + 1 + k = omega arith in
    ground (arith, select-length-lt keep (position + 1) k xs (omega arith) (rw e at out))
