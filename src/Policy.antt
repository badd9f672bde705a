-- ===== src/Policy.antt =====
-- crates/reprocut-core/src/policy.rs: rules that aggregate repeated executions of one candidate.
-- Display statistics (`observed_rate`, `wilson_95`, `wilson_interval`) are floating point and are
-- left out. The verdicts arrive lazily from an iterator, which is the list of what it would yield.
pub mod Counts
pub mod Aggregate
pub mod Decision
mod Tests
use package.reprocut.Prelude.{ℕ, zero, suc, ◌-◌, ◌*◌, ◌%◌, Bool, ◌||◌, ltb, leb, ◌==◌}
use package.reprocut.Prelude.{if◌then◌else◌, Option, none, some, List, [], ◌∷◌}
use package.reprocut.Prelude.Words.{add_u16}
use package.reprocut.Model.{CandidateVerdict}
use mathlib.Core.Option

abbrev pub strict_runs : ℕ
strict_runs = 3

abbrev pub min_flaky_runs : ℕ
min_flaky_runs = 5

abbrev pub max_flaky_runs : ℕ
max_flaky_runs = 101

pub data EvaluationPolicy : Type 0 where
  strict : EvaluationPolicy
  flaky : (runs required : ℕ) → EvaluationPolicy

pub data PolicyError : Type 0 where
  runs_out_of_range runs_must_be_odd required_out_of_range required_not_supermajority : PolicyError

pub data PolicyResult : Type 0 where
  ok : EvaluationPolicy → PolicyResult
  err : PolicyError → PolicyResult

-- `EvaluationPolicy::flaky`. Both products fit in u32, since runs and required are u16.
pub validated_flaky : ℕ → ℕ → PolicyResult
validated_flaky runs required =
    if ltb runs min_flaky_runs || ltb max_flaky_runs runs
    then err runs_out_of_range
    else if runs % 2 == 0
    then err runs_must_be_odd
    else if required == 0 || ltb runs required
    then err required_out_of_range
    else if ltb (required * 3) (runs * 2)
    then err required_not_supermajority
    else ok (flaky runs required)

abbrev pub default_flaky : EvaluationPolicy
default_flaky = flaky 11 9

abbrev pub runs : EvaluationPolicy → ℕ
runs strict = strict_runs
runs (flaky n _) = n

abbrev pub required : EvaluationPolicy → ℕ
required strict = strict_runs
required (flaky _ n) = n

pub data AggregateDecision : Type 0 where
  preserved rejected inconclusive : AggregateDecision

pub record AggregateEvidence : Type 0 where
  pub max_runs : ℕ
  pub required : ℕ
  pub observed : ℕ
  pub preserved : ℕ
  pub rejected : ℕ
  pub inconclusive : ℕ
  pub decision : Option AggregateDecision

abbrev pub new : ℕ → ℕ → AggregateEvidence
new max_runs required = record {
  max_runs = max_runs;
  required = required;
  observed = 0;
  preserved = 0;
  rejected = 0;
  inconclusive = 0;
  decision = none;
}

pub terminal_decision : AggregateEvidence → Option AggregateDecision
terminal_decision e =
    if leb e.required e.preserved
    then some AggregateDecision.preserved
    else if ltb (add_u16 e.preserved (e.max_runs - e.observed)) e.required
    then (if e.inconclusive == 0
        then some AggregateDecision.rejected
        else some AggregateDecision.inconclusive)
    else none

-- The counters of `record`, before it sets `decision`.
abbrev pub tally : CandidateVerdict → AggregateEvidence → AggregateEvidence
tally CandidateVerdict.preserved e = record e {
  observed = add_u16 e.observed 1;
  preserved = add_u16 e.preserved 1;
}
tally CandidateVerdict.rejected e = record e {
  observed = add_u16 e.observed 1;
  rejected = add_u16 e.rejected 1;
}
tally CandidateVerdict.inconclusive e = record e {
  observed = add_u16 e.observed 1;
  inconclusive = add_u16 e.inconclusive 1;
}

-- `AggregateEvidence::record`
pub record_verdict : CandidateVerdict → AggregateEvidence → AggregateEvidence
record_verdict v e = let e' = tally v e in record e' { decision = terminal_decision e' }

pub finish : AggregateEvidence → AggregateEvidence
finish e = elim e.decision [
  | none ↦ record e { decision = some AggregateDecision.inconclusive }
  | some _ ↦ e
]

-- The accessor `decision`.
pub final_decision : AggregateEvidence → AggregateDecision
final_decision e = Option.get_or e.decision AggregateDecision.inconclusive

-- The loop of `aggregate` over at most `n` more verdicts, with its `break`.
pub consume : ℕ → List CandidateVerdict → AggregateEvidence → AggregateEvidence
consume zero vs e = e
consume (suc n) [] e = e
consume (suc n) (v ∷ vs) e =
    let e' = record_verdict v e in
    let rest = consume n vs e' in elim (terminal_decision e') [ some _ ↦ e' | none ↦ rest ]

pub aggregate : EvaluationPolicy → List CandidateVerdict → AggregateEvidence
aggregate p vs = finish (consume (runs p) vs (new (runs p) (required p)))
