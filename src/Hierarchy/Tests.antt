-- ===== src/Hierarchy/Tests.antt =====
-- Three files in two directories, `s/a`, `s/t/b` and `c`.
use reprocut.Prelude.{ℕ, ◌+◌, ◌≡◌, refl, ◌⊎◌, arith, List, [], ◌∷◌, map, if◌then◌else◌}
use reprocut.Prelude.Faults.{ok}
use reprocut.Prelude.Sorting.{sort_by, insert_by, dedup_after}
use reprocut.Model.{CandidateVerdict, preserved, rejected}
use reprocut.Transformation.{split_from}
use reprocut.Reducer.{ReductionUnit, ReductionResult, contains}
use reprocut.Reducer.Search.{Judge, reduce_hierarchical}
use reprocut.Reducer.Minimal.{IsMinimal}
use reprocut.Hierarchy.{from_units, directory_unit_ids, collect, push_prefixes, push_id, path_depth}
use reprocut.Hierarchy.Groups.{directory_unit_ids-IsMinimal}

abbrev project : List ReductionUnit
project =
    record { id = 0; path = 115 ∷ 47 ∷ 97 ∷ [] }
    ∷ record { id = 1; path = 115 ∷ 47 ∷ 116 ∷ 47 ∷ 98 ∷ [] }
    ∷ record { id = 2; path = 99 ∷ [] }
    ∷ []

project_groups : directory_unit_ids (from_units project) ≡ (0 ∷ 1 ∷ []) ∷ (1 ∷ []) ∷ []
unfolding directory_unit_ids from_units collect push_prefixes push_id path_depth split_from sort_by
    insert_by dedup_after
project_groups = refl

abbrev needs : List ReductionUnit → CandidateVerdict
needs us = if contains (map (λ (u : ReductionUnit). u.id) us) 2 then preserved else rejected

abbrev judge : Judge ℕ
judge calls us = (needs us, calls + 1)

directory_unit_ids-IsMinimal_example :
    (result : ReductionResult) × (reduce_hierarchical judge project
        (directory_unit_ids (from_units project))
        0
      ≡ ok result)
    × ((result.kept ≡ project) ⊎ (needs result.kept ≡ preserved))
    × IsMinimal needs result.kept
directory_unit_ids-IsMinimal_example =
    directory_unit_ids-IsMinimal judge project 0 (λ calls us. refl) (omega arith)
