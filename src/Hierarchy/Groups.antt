-- ===== src/Hierarchy/Groups.antt =====
-- The groups are what the reducer relies on: ascending identifiers.
use reprocut.Prelude.{
  ℕ, ◌≤◌, ◌≡◌, refl, ◌⊎◌, arith, true, List, [], ◌∷◌, map, All, All-append, length, ltb,
}
use Prim.Native.Nat.{compare}
use reprocut.Prelude.Faults.{ok}
use reprocut.Prelude.Words.{u64_max}
use reprocut.Prelude.Orders.{compare-IsOrder}
use reprocut.Prelude.Sorting.{
  All-sort_by, sort_by, dedup, IsAscending, dedup-IsAscending, sort_by-IsSorted,
}
use reprocut.Model.{CandidateVerdict, preserved}
use reprocut.Reducer.{ReductionUnit, ReductionResult, is_ascending}
use reprocut.Reducer.Search.{Judge, reduce_hierarchical}
use reprocut.Reducer.Minimal.{IsMinimal, Decides}
use reprocut.Reducer.Deterministic.{reduce_hierarchical-IsMinimal}
use reprocut.Hierarchy.{HierarchyGroup, HierarchyGroupKind, directory, file, Directories, collect}
use reprocut.Hierarchy.{
  directory_group, group_order, file_group, from_units, directory_unit_ids, take_group,
}

-- A group as the reducer wants it.
abbrev IsOrdered : HierarchyGroup → Type 0
IsOrdered group = is_ascending group.unit_ids ≡ true

IsAscending-is_ascending : (ids : List ℕ) → IsAscending compare ids → is_ascending ids ≡ true
IsAscending-is_ascending [] h = refl
IsAscending-is_ascending (a ∷ []) h = refl
IsAscending-is_ascending (a ∷ b ∷ ids) ((less, _), rest) =
    let e : ltb a b ≡ true = ground arith in rw e (IsAscending-is_ascending (b ∷ ids) rest)

directory_group-IsOrdered : (entries : Directories) → All IsOrdered (map directory_group entries)
directory_group-IsOrdered [] = tt
directory_group-IsOrdered ((path, ids) ∷ rest) = (
  IsAscending-is_ascending (dedup compare (sort_by compare ids)) (
      dedup-IsAscending compare-IsOrder (sort_by compare ids)
        (sort_by-IsSorted compare-IsOrder ids)),
  directory_group-IsOrdered rest,
)

file_group-IsOrdered : (units : List ReductionUnit) → All IsOrdered (map file_group units)
file_group-IsOrdered [] = tt
file_group-IsOrdered (unit ∷ units) = (refl, file_group-IsOrdered units)

from_units-IsOrdered : (units : List ReductionUnit) → All IsOrdered (from_units units)
unfolding from_units
from_units-IsOrdered units =
    All-append IsOrdered (sort_by group_order (map directory_group (collect units [])))
      (map file_group units)
      (All-sort_by IsOrdered group_order (map directory_group (collect units []))
        (directory_group-IsOrdered (collect units [])))
      (file_group-IsOrdered units)

take_group-All :
    (P : List ℕ → Type 0) (kind : HierarchyGroupKind) (ids : List ℕ) (rest : List (List ℕ))
    → P ids
    → All P rest
    → All P (take_group kind ids rest)
take_group-All P directory ids rest h hs = (h, hs)
take_group-All P file ids rest h hs = tt

directory_unit_ids-All :
    (groups : List HierarchyGroup)
    → All IsOrdered groups
    → All (λ ids. is_ascending ids ≡ true) (directory_unit_ids groups)
unfolding directory_unit_ids
directory_unit_ids-All [] h = tt
directory_unit_ids-All (group ∷ groups) (h, hs) =
    take_group-All (λ ids. is_ascending ids ≡ true) group.kind group.unit_ids
      (directory_unit_ids groups) h (directory_unit_ids-All groups hs)

-- With the groups of the project's own directories the search meets no failed assertion: for a
-- verdict that depends on the candidate alone it returns the project or a preserved candidate, from
-- which no single unit can be removed.
pub directory_unit_ids-IsMinimal {ℓ} :
    {S : Type ℓ} (judge : Judge S) {keeps : List ReductionUnit → CandidateVerdict}
    (units : List ReductionUnit) (state : S)
    → Decides judge keeps
    → length units ≤ u64_max
    → (result : ReductionResult) × (reduce_hierarchical judge units
          (directory_unit_ids (from_units units))
          state
        ≡ ok result)
      × ((result.kept ≡ units) ⊎ (keeps result.kept ≡ preserved))
      × IsMinimal keeps result.kept
directory_unit_ids-IsMinimal judge units state decides fits =
    reduce_hierarchical-IsMinimal judge units (directory_unit_ids (from_units units)) state decides
      fits (directory_unit_ids-All (from_units units) (from_units-IsOrdered units))
