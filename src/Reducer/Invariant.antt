-- ===== src/Reducer/Invariant.antt =====
-- What every phase of the search keeps: the active units are read from the project in order, were
-- reported as preserved, and shrink with every accepted transition.
use reprocut.Prelude.{ℕ, zero, suc, ◌+◌, ◌-◌, ◌*◌, ◌≤◌, ◌<◌, ◌≡◌, refl, sym, arith}
use reprocut.Prelude.{◌⊎◌, inl, inr, Bool, true, false, Bool-cases}
use reprocut.Prelude.{Option, none, some, List, [], ◌∷◌, ◌++◌, length, get_elem?}
use mathlib.Core.List.{Sublistᴰ}
use mathlib.Core.List.Sublistᴰ as Sub
use mathlib.Core.Path.{subst}
use native.Mathlib.Nat.{mul-le-mul}
use reprocut.Model.{preserved}
use reprocut.Reducer.{ReductionUnit, Candidate, earliest_preserved}
use reprocut.Reducer.Search.{Evaluator, Search, accept, call, is_first}
use reprocut.Reducer.Search.{attempt_single}
use reprocut.Reducer.Earliest.{earliest_preserved_iff}
use reprocut.Reducer.Candidates.{Reads, Reads-length}
use reprocut.Reducer.Fill.{Fits}

-- Sizes that fall strictly from `n` to `m`.
abbrev pub Descends : ℕ → List ℕ → ℕ → Type 0
Descends n [] m = n ≡ m
Descends n (k ∷ ks) m = (k < n) × Descends k ks m

pub Descends-snoc :
    (n : ℕ) (ks : List ℕ) (m k : ℕ) → Descends n ks m → k < m → Descends n (ks ++ k ∷ []) k
Descends-snoc n [] m k d lt = (omega arith, refl)
Descends-snoc n (j ∷ ks) m k (l, d) lt = (l, Descends-snoc j ks m k d lt)

-- Whatever the evaluator reports as preserved has the property `P`.
abbrev pub Sound {ℓ κ} : {S : Type ℓ} → (List ReductionUnit → Type κ) → Evaluator S → Type (ℓ ⊔ κ)
Sound {S = S} P evaluate =
    (state : S) (frontier : List (List ReductionUnit)) (i : ℕ) (c : List ReductionUnit)
    → get_elem? (evaluate state frontier).0 i ≡ some (some preserved)
    → get_elem? frontier i ≡ some c
    → P c

pub record Inv {ℓ κ} {S : Type ℓ} (P : List ReductionUnit → Type κ) (units : List ReductionUnit)
    (s : Search S) : Type κ where
  pub held : List ReductionUnit
  pub reads : Reads units s.active held
  pub sublist : Sublistᴰ held units
  pub good : P held
  pub sizes : Descends (length units) s.accepted_sizes (length held)

-- A bound on the rounds that ddmin has left.
abbrev pub measure : ℕ → ℕ → ℕ
measure len granularity = len * len + (len - granularity)

pub measure-accept : (len len' g g' : ℕ) → len' < len → measure len' g' < measure len g
measure-accept len len' g g' lt =
    let up : len' + 1 ≤ len = omega arith in let square = mul-le-mul up up in omega arith

is_first-eq : (o : Option ℕ) → is_first o ≡ true → o ≡ some 0
is_first-eq none h = absurd (cc)
is_first-eq (some zero) h = refl
is_first-eq (some (suc i)) h = absurd (cc)

module _ {ℓ κ} {S : Type ℓ} {P : List ReductionUnit → Type κ} {units : List ReductionUnit} where
  pub Inv-accept :
      {s : Search S} {c : Candidate} (inv : Inv P units s)
      → Fits units inv.held c
      → length c.units < length inv.held
      → P c.units
      → Inv P units (accept c s)
  Inv-accept {s} {c} inv fits shorter good = record {
    held = c.units;
    reads = fits.reads;
    sublist = Sub.trans fits.sublist inv.sublist;
    good = good;
    sizes =
        subst (λ n. Descends (length units) (s.accepted_sizes ++ n ∷ []) (length c.units))
          (sym (Reads-length units c.indices c.units fits.reads))
          (Descends-snoc (length units) s.accepted_sizes (length inv.held) (length c.units)
            inv.sizes shorter);
  }

-- A frontier of one candidate: it becomes the active universe, or nothing changes.
pub record Attempt {ℓ κ} {S : Type ℓ} (P : List ReductionUnit → Type κ) (units : List ReductionUnit)
    (c : Candidate) (s : Search S) (r : Bool × Search S) : Type κ where
  pub inv : Inv P units r.1
  pub active : (r.0 ≡ true) × (r.1.active ≡ c.indices) ⊎ (r.0 ≡ false) × (r.1.active ≡ s.active)

module _ {ℓ κ} {S : Type ℓ} {P : List ReductionUnit → Type κ} (evaluate : Evaluator S)
    {units : List ReductionUnit} (sound : Sound P evaluate) where
  pub attempt_single-Attempt :
      {s : Search S} {c : Candidate} (inv : Inv P units s)
      → Fits units inv.held c
      → length c.units < length inv.held
      → Attempt P units c s (attempt_single evaluate c s)
  unfolding attempt_single
  attempt_single-Attempt {s} {c} inv fits shorter =
      let verdicts = (evaluate s.state (c.units ∷ [])).0 in
      elim (Bool-cases (is_first (earliest_preserved verdicts 1))) [
        | inl won ↦
            let (lt, first) =
              (earliest_preserved_iff verdicts 1 0).0
                (is_first-eq (earliest_preserved verdicts 1) won) in
            rw won (record {
              inv =
                  Inv-accept {s = (call evaluate (c.units ∷ []) s).1}
                    (record {
                      held = inv.held;
                      reads = inv.reads;
                      sublist = inv.sublist;
                      good = inv.good;
                      sizes = inv.sizes;
                    })
                    fits shorter (sound s.state (c.units ∷ []) 0 c.units first.hit refl);
              active = inl (refl, refl);
            })
        | inr lost ↦ rw lost (record {
          inv = record {
            held = inv.held;
            reads = inv.reads;
            sublist = inv.sublist;
            good = inv.good;
            sizes = inv.sizes;
          };
          active = inr (refl, refl);
        })
      ]
