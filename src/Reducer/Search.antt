-- ===== src/Reducer/Search.antt =====
-- crates/reprocut-core/src/reducer.rs: the three phases of `reduce_hierarchical_frontiers`, and the
-- wrappers that evaluate one candidate at a time.
use reprocut.Prelude.{ℕ, zero, suc, ◌+◌, ◌-◌, ◌*◌, min, max, Bool, true, false, ltb, leb, ◌==◌}
use reprocut.Prelude.{
  if◌then◌else◌, Option, none, some, List, [], ◌∷◌, ◌++◌, map, length, get_elem?,
}
use reprocut.Prelude.Faults.{Outcome, ok, fault, panic, stuck, ◌>>=◌, or_panic}
use reprocut.Prelude.Words.{saturating_add, saturating_mul}
use reprocut.Model.{CandidateVerdict}
use reprocut.Reducer.{ReductionUnit, FrontierClass, FrontierPartition, ReductionResult, Candidate}
use reprocut.Reducer.{ordered_frontier, count_terminal, earliest_preserved, fill_partition}
use reprocut.Reducer.{fill_without_ids, fill_plans, units_at}

-- The batch callback, and the callback of `reduce`, with their state.
abbrev pub Evaluator {ℓ} : Type ℓ → Type ℓ
Evaluator S = S → List (List ReductionUnit) → List (Option CandidateVerdict) × S

abbrev pub Judge {ℓ} : Type ℓ → Type ℓ
Judge S = S → List ReductionUnit → CandidateVerdict × S

-- The variables of the search that outlive a round.
pub record Search {ℓ} (S : Type ℓ) : Type ℓ where
  pub active : List ℕ
  pub attempts : ℕ
  pub accepted_sizes : List ℕ
  pub state : S

-- `start..start + count`
abbrev pub range : ℕ → ℕ → List ℕ
range start zero = []
range start (suc count) = start ∷ range (suc start) count

-- Whether the winner is the first candidate.
abbrev pub is_first : Option ℕ → Bool
is_first none = false
is_first (some zero) = true
is_first (some (suc i)) = false

unfoldable pub next_granularity : FrontierClass → ℕ → Outcome ℕ
next_granularity FrontierClass.subset granularity = ok 2
next_granularity FrontierClass.complement granularity = ok (max (granularity - 1) 2)
next_granularity _ granularity = fault panic

-- How one round of ddmin ends: at the end of the loop, or with the variables of the next round.
pub data Round {ℓ} (S : Type ℓ) : Type ℓ where
  done : Search S → Round S
  again : ℕ → Search S → Round S

module _ {ℓ} {S : Type ℓ} where
  -- `active` becomes the candidate, and its size is recorded.
  abbrev pub accept : Candidate → Search S → Search S
  accept c s = record s {
    active = c.indices;
    accepted_sizes = s.accepted_sizes ++ length c.indices ∷ [];
  }

  -- What a round of ddmin makes of the winner of its frontier.
  unfoldable pub settle :
      ℕ → List FrontierPartition → List Candidate → Search S → Option ℕ → Outcome (Round S)
  settle granularity plans candidates s (some winner) = do
    c ← or_panic (get_elem? candidates winner)
    plan ← or_panic (get_elem? plans winner)
    granularity' ← next_granularity plan.class granularity
    ok (again granularity' (accept c s))
  settle granularity plans candidates s none =
      if leb (length s.active) granularity
      then ok (done s)
      else ok (again (min (saturating_mul granularity 2) (length s.active)) s)

  -- `break`, or the loop on.
  abbrev pub next_round : (ℕ → Search S → Outcome (Search S)) → Round S → Outcome (Search S)
  next_round loop (done s) = ok s
  next_round loop (again granularity s) = loop granularity s

  module _ (evaluate : Evaluator S) where
    -- The callback on a frontier, with its effect on `attempts`.
    abbrev pub call :
        List (List ReductionUnit) → Search S → List (Option CandidateVerdict) × Search S
    call frontier s =
        let (verdicts, state) = evaluate s.state frontier in
        (
          verdicts,
          record s {
            attempts = saturating_add s.attempts (count_terminal verdicts);
            state = state;
          },
        )

    -- A frontier of one candidate, as in the directory phase and in the sweep.
    unfoldable pub attempt_single : Candidate → Search S → Bool × Search S
    attempt_single c s =
        let (verdicts, s') = call (c.units ∷ []) s in
        if is_first (earliest_preserved verdicts 1) then (true, accept c s') else (false, s')

    module _ (units : List ReductionUnit) where
      unfoldable pub run_groups : List (List ℕ) → Search S → Outcome (Search S)
      run_groups [] s = ok s
      run_groups (group ∷ groups) s = do
        c ← fill_without_ids units s.active group
        run_groups groups
            (if length c.indices == length s.active then s else (attempt_single c s).1)

      -- The body of the ddmin loop, for an active universe of at least two.
      unfoldable pub ddmin_round : ℕ → Search S → Outcome (Round S)
      ddmin_round granularity s = do
        let plans = ordered_frontier (length s.active) granularity
        candidates ← fill_plans units s.active plans
        let (verdicts, s') = call (map (λ (c : Candidate). c.units) candidates) s
        settle granularity plans candidates s' (earliest_preserved verdicts (length candidates))

      unfoldable pub ddmin : ℕ → ℕ → Search S → Outcome (Search S)
      ddmin zero granularity s = fault stuck
      ddmin (suc fuel) granularity s =
          let rounds = (ddmin_round granularity s >>= next_round (ddmin fuel)) in
          if ltb (length s.active) 2 then ok s else rounds

      unfoldable pub sweep : ℕ → ℕ → Search S → Outcome (Search S)
      sweep zero position s = if ltb position (length s.active) then fault stuck else ok s
      sweep (suc fuel) position s =
          let rounds =
            (fill_partition units
                (record {
                  class = FrontierClass.complement;
                  start = position;
                  end = saturating_add position 1;
                })
                0 s.active
              >>= λ c.
                  let (won, s') = attempt_single c s in
                  sweep fuel (if won then position else position + 1) s') in
          if ltb position (length s.active) then rounds else ok s

      unfoldable pub reduce_hierarchical_frontiers : List (List ℕ) → S → Outcome ReductionResult
      reduce_hierarchical_frontiers directory_groups state = do
        let n = length units
        grouped ←
            run_groups directory_groups
              (record { active = range 0 n; attempts = 0; accepted_sizes = []; state = state })
        minimal ← ddmin (n * n + n + 1) 2 grouped
        swept ← sweep (length minimal.active) 0 minimal
        kept ← units_at units swept.active
        ok (record {
          kept = kept;
          attempts = swept.attempts;
          accepted_sizes = swept.accepted_sizes;
        })

  -- The callback of `reduce_hierarchical`: every candidate gets a verdict, in order.
  unfoldable pub each : Judge S → Evaluator S
  each judge state [] = ([], state)
  each judge state (candidate ∷ frontier) =
      let (verdict, state') = judge state candidate in
      let (verdicts, state'') = each judge state' frontier in (some verdict ∷ verdicts, state'')

  unfoldable pub reduce_hierarchical :
      Judge S → List ReductionUnit → List (List ℕ) → S → Outcome ReductionResult
  reduce_hierarchical judge units directory_groups state =
      reduce_hierarchical_frontiers (each judge) units directory_groups state

  unfoldable pub reduce : Judge S → List ReductionUnit → S → Outcome ReductionResult
  reduce judge units state = reduce_hierarchical judge units [] state
