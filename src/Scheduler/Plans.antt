-- ===== src/Scheduler/Plans.antt =====
-- `FrontierScheduler::evaluate` as a whole: the plans are sorted by rank, checked, and handed to the
-- threads. The order of the ranks is the derived one of `CandidateRank`, a parameter here.
use reprocut.Prelude.{
  ℕ, ◌<◌, ◌≡◌, Bool, true, false, ◌||◌, Option, none, some, List, [], ◌∷◌, length, get_elem?,
}
use Prim.Native.Nat.{Ordering}
use reprocut.Prelude.Faults.{Outcome, ok, or_panic}
use reprocut.Prelude.Attempts.{Attempt, done, ◌>>◌, fail_if}
use reprocut.Prelude.Sorting.{sort_by}
use reprocut.Model.{CandidateVerdict, inconclusive}
use reprocut.Scheduler.Worker.{System, Reach, IsOver}
use reprocut.Scheduler.Outcome.{worker_count, capacity_of, final_winner}

pub data SchedulerError : Type 0 where
  duplicate_rank : SchedulerError

pub record CandidatePlan (R T : Type 0) : Type 0 where
  pub rank : R
  pub payload : T

pub record FrontierOutcome (R T : Type 0) : Type 0 where
  pub plans : List (CandidatePlan R T)
  pub verdicts : List (Option CandidateVerdict)
  pub winner : Option ℕ

abbrev pub is_eq : Ordering → Bool
is_eq Ordering.eq = true
is_eq _ = false

-- `FrontierOutcome::winner`, whose index panics out of range.
abbrev pub winner_plan : {R T : Type 0} → FrontierOutcome R T → Outcome (Option (CandidatePlan R T))
winner_plan outcome = elim outcome.winner [
  | none ↦ ok none
  | some index ↦ elim (get_elem? outcome.plans index) [
    | none ↦ or_panic none
    | some plan ↦ ok (some plan)
  ]
]

module _ {R T : Type 0} (cmp : R → R → Ordering) where
  abbrev pub rank_order : CandidatePlan R T → CandidatePlan R T → Ordering
  rank_order left right = cmp left.rank right.rank

  -- `.windows(2).any(..)`
  unfoldable pub has_duplicate : List (CandidatePlan R T) → Bool
  has_duplicate [] = false
  has_duplicate (plan ∷ []) = false
  has_duplicate (plan ∷ next ∷ rest) =
      is_eq (cmp plan.rank next.rank) || has_duplicate (next ∷ rest)

  unfoldable pub prepare :
      List (CandidatePlan R T) → Attempt SchedulerError (List (CandidatePlan R T))
  prepare plans = do
    let sorted = sort_by rank_order plans
    fail_if (has_duplicate sorted) duplicate_rank
    done sorted

module _ {R T : Type 0} (evaluator : T → CandidateVerdict) where
  -- The verdict on a position of the frontier. No worker evaluates beyond the last plan.
  abbrev pub judge_of : List (CandidatePlan R T) → ℕ → CandidateVerdict
  judge_of plans index = elim (get_elem? plans index) [
    | none ↦ inconclusive
    | some plan ↦ evaluator plan.payload
  ]

  -- What a call can return: the empty outcome, or what the threads leave when they are over.
  module _ (cmp : R → R → Ordering) (jobs : ℕ) (parallelism : Option ℕ)
      (plans : List (CandidatePlan R T)) where
    pub data Evaluates : FrontierOutcome R T → Type 0 where
      no_plans :
          prepare cmp plans ≡ done []
          → Evaluates (record { plans = []; verdicts = []; winner = none })
      threads :
          {sorted : List (CandidatePlan R T)} {s : System}
          → prepare cmp plans ≡ done sorted
          → 0 < length sorted
          → Reach
              (worker_count (length sorted) jobs parallelism)
              (length sorted)
              (capacity_of (worker_count (length sorted) jobs parallelism))
              (judge_of sorted)
              s
          → IsOver
              (worker_count (length sorted) jobs parallelism)
              (length sorted)
              (capacity_of (worker_count (length sorted) jobs parallelism))
              (judge_of sorted)
              s
          → Evaluates (record {
            plans = sorted;
            verdicts = s.mem.verdicts;
            winner = final_winner s.mem.lowest s.mem.verdicts;
          })
