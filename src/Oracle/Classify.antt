-- ===== src/Oracle/Classify.antt =====
-- crates/reprocut-core/src/oracle.rs: `FailureOracle::classify`.
use reprocut.Prelude.{◌==◌, Bool, true, false, not, if◌then◌else◌, List}
use reprocut.Model.{
  OracleMode, DiagnosticChannel, CandidateVerdict, preserved, rejected, inconclusive,
}
use reprocut.Observation.{TerminationReason, ExecutionObservation, same_termination}
use reprocut.Observation.{exit_code, timed_out, runner_failure}
use reprocut.Transformation.{Bytes}
use reprocut.Diagnostic.Texts.{Text, Library, lines, same_text}
use reprocut.Diagnostic.Normalize.{normalize_bytes}
use reprocut.Diagnostic.Select.{DiagnosticAnchor}
use reprocut.Oracle.{any}
use reprocut.Oracle.Baselines.{FailureOracle, all, diagnostic_view, matches}

-- The verdict of the mode that reads the exit code alone.
abbrev pub zero_verdict : TerminationReason → CandidateVerdict
zero_verdict (exit_code code) = if code == 0 then preserved else rejected
zero_verdict _ = inconclusive

abbrev pub preserved_if : Bool → CandidateVerdict
preserved_if test = if test then preserved else rejected

abbrev pub shows : List Text → Text → Bool
shows texts text = any (λ line. same_text line text) texts

abbrev pub is_unfinished : TerminationReason → Bool
is_unfinished timed_out = true
is_unfinished runner_failure = true
is_unfinished _ = false

module _ (lib : Library) (is_match : Bytes → Text → Bool) where
  abbrev pub shows_anchor : ExecutionObservation → DiagnosticAnchor → Bool
  shows_anchor observation anchor = elim anchor.channel [
    | DiagnosticChannel.stdout ↦ shows (lines (normalize_bytes lib observation.stdout)) anchor.text
    | DiagnosticChannel.stderr ↦ shows (lines (normalize_bytes lib observation.stderr)) anchor.text
    | _ ↦ false
  ]

  module _ {D : Type 0} where
    abbrev pub text_verdict : OracleMode → FailureOracle D → ExecutionObservation → CandidateVerdict
    text_verdict OracleMode.regex oracle observation = preserved_if (
        all (matches is_match (diagnostic_view lib oracle.spec.channel observation))
          oracle.required)
    text_verdict OracleMode.automatic oracle observation =
        preserved_if (all (shows_anchor observation) oracle.fingerprint.anchors)
    text_verdict OracleMode.exit_zero oracle observation = inconclusive

    unfoldable pub classify_text : FailureOracle D → ExecutionObservation → CandidateVerdict
    classify_text oracle observation =
        if observation.streams_truncated
        then inconclusive
        else if not (same_termination observation.termination oracle.fingerprint.termination)
        then rejected
        else if any (matches is_match (diagnostic_view lib oracle.spec.channel observation))
            oracle.reject
        then rejected
        else text_verdict oracle.spec.mode oracle observation

    abbrev pub mode_verdict : OracleMode → FailureOracle D → ExecutionObservation → CandidateVerdict
    mode_verdict OracleMode.exit_zero oracle observation = zero_verdict observation.termination
    mode_verdict OracleMode.automatic oracle observation = classify_text oracle observation
    mode_verdict OracleMode.regex oracle observation = classify_text oracle observation

    unfoldable pub classify : FailureOracle D → ExecutionObservation → CandidateVerdict
    classify oracle observation =
        if is_unfinished observation.termination
        then inconclusive
        else mode_verdict oracle.spec.mode oracle observation
