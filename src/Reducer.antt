-- ===== src/Reducer.antt =====
-- crates/reprocut-core/src/reducer.rs: directory groups, subset/complement ddmin and the final
-- sweep over an ordered universe of removable units. The evaluator is an `FnMut`: a function of its
-- own state `S`, which it passes on.
pub mod Search
pub mod Frontier
pub mod Earliest
pub mod Candidates
pub mod Fill
pub mod Invariant
pub mod Rounds
pub mod Phases
pub mod Result
pub mod Minimal
pub mod Deterministic
mod Tests
use package.reprocut.Prelude.{ℕ, zero, suc, ◌+◌, ◌-◌, ◌<◌, min, max, Bool, true, false, not, ◌&&◌}
use package.reprocut.Prelude.{
  ltb, leb, ◌==◌, if◌then◌else◌, Option, none, some, List, [], ◌∷◌, ◌++◌,
}
use package.reprocut.Prelude.{length, get_elem?}
use package.reprocut.Prelude.Faults.{Outcome, ok, fault, panic, stuck, ◌>>=◌, or_panic}
use package.reprocut.Prelude.Words.{saturating_add, saturating_mul, div_ceil, u64_max}
use package.reprocut.Model.{CandidateVerdict, preserved}

-- A unit of the project; its path is text that the reducer only carries.
pub record ReductionUnit : Type 0 where
  pub id : ℕ
  pub path : List ℕ

-- `FrontierClass` of transformation.rs
pub data FrontierClass : Type 0 where
  directory subset complement singleton structured : FrontierClass

-- The positions are the half-open range from `start` to `end`.
pub record FrontierPartition : Type 0 where
  pub class : FrontierClass
  pub start : ℕ
  pub end : ℕ

pub record ReductionResult : Type 0 where
  pub kept : List ReductionUnit
  pub attempts : ℕ
  pub accepted_sizes : List ℕ

-- The `while` of `ordered_frontier` for one class. A chunk advances by at least one position, so
-- the number of positions is enough fuel (`chunks-Tiles`).
unfoldable pub chunks : ℕ → FrontierClass → ℕ → ℕ → ℕ → List FrontierPartition
chunks zero class chunk_size start active_len = []
chunks (suc fuel) class chunk_size start active_len =
    let end = min (saturating_add start chunk_size) active_len in
    let rest = chunks fuel class chunk_size end active_len in
    if ltb start active_len then record { class = class; start = start; end = end } ∷ rest else []

-- The capacity that the source reserves is left out.
unfoldable pub ordered_frontier : ℕ → ℕ → List FrontierPartition
ordered_frontier active_len granularity =
    let chunk_size = div_ceil active_len (min (max granularity 1) active_len) in
    if active_len == 0
    then []
    else chunks active_len FrontierClass.subset chunk_size 0 active_len
      ++ chunks active_len FrontierClass.complement chunk_size 0 active_len

-- The number of `Some` slots (the conversion to u64 cannot fail).
unfoldable pub count_terminal : List (Option CandidateVerdict) → ℕ
count_terminal [] = 0
count_terminal (none ∷ vs) = count_terminal vs
count_terminal (some v ∷ vs) = suc (count_terminal vs)

-- The loop of `earliest_preserved` at slot `index`, with `available` slots left.
unfoldable pub scan_preserved : ℕ → ℕ → List (Option CandidateVerdict) → Option ℕ
scan_preserved zero index vs = none
scan_preserved (suc available) index [] = none
scan_preserved (suc available) index (none ∷ vs) = none
scan_preserved (suc available) index (some CandidateVerdict.preserved ∷ vs) = some index
scan_preserved (suc available) index (some CandidateVerdict.rejected ∷ vs) =
    scan_preserved available (index + 1) vs
scan_preserved (suc available) index (some CandidateVerdict.inconclusive ∷ vs) =
    scan_preserved available (index + 1) vs

unfoldable pub earliest_preserved : List (Option CandidateVerdict) → ℕ → Option ℕ
earliest_preserved verdicts frontier_len =
    scan_preserved (min (length verdicts) frontier_len) 0 verdicts

-- The two buffers `candidate_indices` and `candidate_units`.
pub record Candidate : Type 0 where
  pub indices : List ℕ
  pub units : List ReductionUnit

abbrev pub keeps_position : FrontierPartition → ℕ → Bool
keeps_position plan position =
    let inside = leb plan.start position && ltb position plan.end in
    elim plan.class [
      | FrontierClass.subset ↦ inside
      | FrontierClass.complement ↦ not inside
      | _ ↦ false
    ]

-- Whether a strictly ascending list holds `x`: what `binary_search` answers there.
abbrev pub contains : List ℕ → ℕ → Bool
contains [] x = false
contains (y ∷ ys) x = if y == x then true else contains ys x

-- The `debug_assert!` of `fill_without_ids`.
abbrev pub is_ascending : List ℕ → Bool
is_ascending [] = true
is_ascending (x ∷ []) = true
is_ascending (x ∷ y ∷ ys) = ltb x y && is_ascending (y ∷ ys)

module _ (units : List ReductionUnit) where
  -- The loop of `fill_partition` from `position` on.
  unfoldable pub fill_partition : FrontierPartition → ℕ → List ℕ → Outcome Candidate
  fill_partition plan position [] = ok (record { indices = []; units = [] })
  fill_partition plan position (index ∷ active) = do
    rest ← fill_partition plan (position + 1) active
    if keeps_position plan position
        then (or_panic (get_elem? units index) >>= λ u.
            ok (record { indices = index ∷ rest.indices; units = u ∷ rest.units }))
        else ok rest

  -- The loop of `fill_without_ids`: every active index is looked up.
  unfoldable pub fill_kept_ids : List ℕ → List ℕ → Outcome Candidate
  fill_kept_ids removed_ids [] = ok (record { indices = []; units = [] })
  fill_kept_ids removed_ids (index ∷ active) = do
    rest ← fill_kept_ids removed_ids active
    u ← or_panic (get_elem? units index)
    if contains removed_ids u.id
        then ok rest
        else ok (record { indices = index ∷ rest.indices; units = u ∷ rest.units })

  unfoldable pub fill_without_ids : List ℕ → List ℕ → Outcome Candidate
  fill_without_ids active removed_ids =
      if is_ascending removed_ids then fill_kept_ids removed_ids active else fault panic

  -- The candidates of all plans, in their order.
  unfoldable pub fill_plans : List ℕ → List FrontierPartition → Outcome (List Candidate)
  fill_plans active [] = ok []
  fill_plans active (plan ∷ plans) = do
    c ← fill_partition plan 0 active
    rest ← fill_plans active plans
    ok (c ∷ rest)

  -- `units[index].clone()` for each index.
  unfoldable pub units_at : List ℕ → Outcome (List ReductionUnit)
  units_at [] = ok []
  units_at (index ∷ active) = do
    u ← or_panic (get_elem? units index)
    rest ← units_at active
    ok (u ∷ rest)
