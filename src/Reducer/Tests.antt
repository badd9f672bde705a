-- ===== src/Reducer/Tests.antt =====
-- Runs of the reducer on four units, and the theorems at these inputs.
use reprocut.Prelude.{ℕ, ◌+◌, ◌<◌, ◌≡◌, refl, ◌⊎◌, ◌↔◌, ◌&&◌, arith}
use reprocut.Prelude.{Option, some, none, List, [], ◌∷◌, ◌++◌, map, if◌then◌else◌}
use reprocut.Prelude.Faults.{ok}
use reprocut.Model.{CandidateVerdict, preserved, rejected}
use reprocut.Reducer.{
  ReductionUnit, ReductionResult, FrontierPartition, subset, complement, contains,
}
use reprocut.Reducer.{ordered_frontier, earliest_preserved, scan_preserved, chunks}
use reprocut.Reducer.{fill_partition, fill_kept_ids, fill_without_ids, fill_plans, units_at}
use reprocut.Reducer.{count_terminal}
use reprocut.Reducer.Search.{Judge, Evaluator, each, reduce_hierarchical, reduce, sweep, ddmin}
use reprocut.Reducer.Search.{reduce_hierarchical_frontiers, run_groups, ddmin_round, attempt_single}
use reprocut.Reducer.Search.{settle, next_granularity}
use reprocut.Reducer.Frontier.{Tiles, chunk_of, ordered_frontier-Tiles}
use reprocut.Reducer.Earliest.{IsEarliest, earliest_preserved_iff}
use reprocut.Reducer.Invariant.{Sound}
use reprocut.Reducer.Result.{Reduced, reduce_hierarchical_frontiers-Reduced}
use reprocut.Reducer.Minimal.{IsMinimal}
use reprocut.Reducer.Deterministic.{reduce_hierarchical-IsMinimal}

abbrev unit : ℕ → ReductionUnit
unit n = record { id = n; path = [] }

abbrev project : List ReductionUnit
project = unit 0 ∷ unit 1 ∷ unit 2 ∷ unit 3 ∷ []

-- The failure needs units 1 and 3.
abbrev needs : List ReductionUnit → CandidateVerdict
needs us =
    let ids = map (λ (u : ReductionUnit). u.id) us in
    if contains ids 1 && contains ids 3 then preserved else rejected

-- The state counts the calls.
abbrev judge : Judge ℕ
judge calls us = (needs us, calls + 1)

reduce_runs :
    reduce judge project 0
    ≡ ok (record { kept = unit 1 ∷ unit 3 ∷ []; attempts = 24; accepted_sizes = 3 ∷ 2 ∷ [] })
unfolding reduce reduce_hierarchical reduce_hierarchical_frontiers run_groups ddmin ddmin_round
    settle next_granularity sweep attempt_single each ordered_frontier chunks fill_plans
    fill_partition fill_without_ids fill_kept_ids units_at earliest_preserved scan_preserved
    count_terminal
reduce_runs = refl

ordered_frontier-Tiles_example :
    (subsets : List FrontierPartition) × (complements : List FrontierPartition) × (ordered_frontier
        5 2
      ≡ subsets ++ complements)
    × Tiles subset (chunk_of 5 2) 0 5 subsets
    × Tiles complement (chunk_of 5 2) 0 5 complements
ordered_frontier-Tiles_example = ordered_frontier-Tiles 5 2 (omega arith) (omega arith)

abbrev slots : List (Option CandidateVerdict)
slots = some rejected ∷ some preserved ∷ none ∷ []

earliest_preserved_iff_example :
    (earliest_preserved slots 3 ≡ some 1) ↔ ((1 < 3) × IsEarliest slots 1)
earliest_preserved_iff_example = earliest_preserved_iff slots 3 1

-- A callback that leaves all slots open accepts nothing.
abbrev silent : Evaluator ℕ
silent calls frontier = ([], calls + 1)

silent-Sound : Sound (λ us. us ≡ project) silent
silent-Sound calls frontier i c hit at = absurd (cc)

reduce_hierarchical_frontiers-Reduced_example :
    Reduced
      (λ us. us ≡ project)
      project
      (reduce_hierarchical_frontiers silent project ((0 ∷ 2 ∷ []) ∷ []) 0)
reduce_hierarchical_frontiers-Reduced_example =
    reduce_hierarchical_frontiers-Reduced (λ us. us ≡ project) silent project ((0 ∷ 2 ∷ []) ∷ []) 0
      silent-Sound refl (omega arith) (refl, tt)

reduce_hierarchical-IsMinimal_example :
    (result : ReductionResult) × (reduce_hierarchical judge project ((0 ∷ 2 ∷ []) ∷ []) 0
      ≡ ok result)
    × ((result.kept ≡ project) ⊎ (needs result.kept ≡ preserved))
    × IsMinimal needs result.kept
reduce_hierarchical-IsMinimal_example =
    reduce_hierarchical-IsMinimal judge project ((0 ∷ 2 ∷ []) ∷ []) 0 (λ calls us. refl)
      (omega arith) (refl, tt)
