-- ===== src/Oracle/Baselines.antt =====
-- crates/reprocut-core/src/oracle.rs: a failure oracle is built from a specification and repeated
-- observations of the original failure. `compiles` is whether `Regex::new` accepts a pattern, and
-- `is_match` is `Regex::is_match` of the compiled pattern. A compiled pattern is its source.
use reprocut.Prelude.{Bool, true, false, not, ◌&&◌, ◌||◌, ltb, if◌then◌else◌}
use reprocut.Prelude.{Option, some, List, [], ◌∷◌, ◌++◌, length}
use reprocut.Prelude.Faults.{panic}
use reprocut.Prelude.Texts.{codes}
use reprocut.Prelude.Attempts.{Attempt, done, crashed, ◌>>=◌, ◌>>◌, fail_if, of_outcome}
use reprocut.Model.{OracleMode, DiagnosticChannel}
use reprocut.Observation.{TerminationReason, ExecutionObservation, same_termination}
use reprocut.Observation.{exit_code, runner_failure}
use reprocut.Transformation.{Bytes}
use reprocut.Diagnostic.Texts.{Text, Library, drop, replace_cr, replace_crlf}
use reprocut.Diagnostic.Select.{DiagnosticAnchor}
use reprocut.Diagnostic.Stable.{stable_discriminators}
use reprocut.Oracle.{OracleSpec, OracleError, accepted, refused, any, new_spec}
use reprocut.Oracle.{too_few_baselines, incomplete_baseline, unstable_exit_state, empty_anchor}
use reprocut.Oracle.{baseline_pattern_mismatch, baseline_unexpected_reject}
use reprocut.Oracle.{exit_zero_baseline_required}
use reprocut.Oracle.Fingerprint.{FailureFingerprint, from_oracle}

-- `.iter().all(..)`
unfoldable pub all : {A : Type 0} → (A → Bool) → List A → Bool
all test [] = true
all test (x ∷ xs) = test x && all test xs

pub record FailureOracle (D : Type 0) : Type 0 where
  pub spec : OracleSpec D
  pub fingerprint : FailureFingerprint D
  pub required : List Bytes
  pub reject : List Bytes

-- `COMBINED_DELIMITER`
abbrev pub combined_delimiter : Text
combined_delimiter = codes "\n--- REPROCUT STREAM ---\n"

abbrev pub validate_baseline_count : List ExecutionObservation → Attempt OracleError (Unit {0})
validate_baseline_count baselines = fail_if (ltb (length baselines) 2) too_few_baselines

abbrev pub is_incomplete : ExecutionObservation → Bool
is_incomplete observation =
    observation.expired
    || observation.streams_truncated
    || same_termination observation.termination runner_failure

abbrev pub validate_complete_text_baselines :
    List ExecutionObservation → Attempt OracleError (Unit {0})
validate_complete_text_baselines baselines =
    fail_if (any is_incomplete baselines) incomplete_baseline

-- `observation.termination() != termination`
abbrev pub ends_otherwise : TerminationReason → ExecutionObservation → Bool
ends_otherwise termination observation = not (same_termination observation.termination termination)

-- `baselines[0].termination()`
abbrev pub first_termination : List ExecutionObservation → Attempt OracleError TerminationReason
first_termination [] = crashed panic
first_termination (baseline ∷ rest) = done (baseline.termination)

-- The termination that the baselines agree on, in a mode that reads the text.
unfoldable pub common_termination :
    List ExecutionObservation → Attempt OracleError (Option TerminationReason)
common_termination baselines = do
  validate_complete_text_baselines baselines
  first ← first_termination baselines
  fail_if (any (ends_otherwise first) (drop 1 baselines)) unstable_exit_state
  done (some first)

unfoldable pub expected_termination :
    OracleMode → List ExecutionObservation → Attempt OracleError (Option TerminationReason)
expected_termination OracleMode.exit_zero baselines = do
  fail_if (any (ends_otherwise (exit_code 0)) baselines) exit_zero_baseline_required
  done (some (exit_code 0))
expected_termination OracleMode.automatic baselines = common_termination baselines
expected_termination OracleMode.regex baselines = common_termination baselines

abbrev pub none_left : List DiagnosticAnchor → Bool
none_left [] = true
none_left (anchor ∷ rest) = false

-- One text against one pattern.
abbrev pub matches : (Bytes → Text → Bool) → Text → Bytes → Bool
matches is_match raw pattern = is_match pattern raw

module _ (lib : Library) where
  open lib use {from_utf8_lossy}

  abbrev pub canonical_raw : Bytes → Text
  canonical_raw bytes = replace_cr (replace_crlf (from_utf8_lossy bytes))

  abbrev pub diagnostic_view : DiagnosticChannel → ExecutionObservation → Text
  diagnostic_view DiagnosticChannel.stdout observation = canonical_raw observation.stdout
  diagnostic_view DiagnosticChannel.stderr observation = canonical_raw observation.stderr
  diagnostic_view DiagnosticChannel.auto observation =
      canonical_raw observation.stdout ++ combined_delimiter ++ canonical_raw observation.stderr
  diagnostic_view DiagnosticChannel.combined observation =
      canonical_raw observation.stdout ++ combined_delimiter ++ canonical_raw observation.stderr

module _ (lib : Library) (compiles : Bytes → Bool) (is_match : Bytes → Text → Bool) where
  -- A pattern that does not compile is a panic of `expect`.
  unfoldable pub compile_patterns : List Bytes → Attempt OracleError (List Bytes)
  compile_patterns [] = done []
  compile_patterns (pattern ∷ rest) = do
    compiled ← if compiles pattern then done pattern else crashed panic
    later ← compile_patterns rest
    done (compiled ∷ later)

  -- The loop over the baselines in automatic mode.
  unfoldable pub check_rejects :
      DiagnosticChannel → List Bytes → List ExecutionObservation → Attempt OracleError (Unit {0})
  check_rejects channel reject [] = done tt
  check_rejects channel reject (baseline ∷ rest) = do
    fail_if (any (matches is_match (diagnostic_view lib channel baseline)) reject)
        baseline_unexpected_reject
    check_rejects channel reject rest

  -- The loop over the baselines in regex mode.
  unfoldable pub check_patterns :
      DiagnosticChannel
      → List Bytes
      → List Bytes
      → List ExecutionObservation
      → Attempt OracleError (Unit {0})
  check_patterns channel required reject [] = done tt
  check_patterns channel required reject (baseline ∷ rest) = do
    fail_if (any (matches is_match (diagnostic_view lib channel baseline)) reject)
        baseline_unexpected_reject
    fail_if (not (all (matches is_match (diagnostic_view lib channel baseline)) required))
        baseline_pattern_mismatch
    check_patterns channel required reject rest

  unfoldable pub baseline_anchors :
      OracleMode
      → DiagnosticChannel
      → List Bytes
      → List Bytes
      → List ExecutionObservation
      → Attempt OracleError (List DiagnosticAnchor)
  baseline_anchors OracleMode.automatic channel required reject baselines = do
    check_rejects channel reject baselines
    anchors ← of_outcome (stable_discriminators lib channel baselines)
    fail_if (none_left anchors) empty_anchor
    done anchors
  baseline_anchors OracleMode.regex channel required reject baselines = do
    check_patterns channel required reject baselines
    done []
  baseline_anchors OracleMode.exit_zero channel required reject baselines = done []

  module _ {D : Type 0} where
    unfoldable pub from_spec_and_baselines :
        OracleSpec D → List ExecutionObservation → Attempt OracleError (FailureOracle D)
    from_spec_and_baselines spec baselines = do
      validate_baseline_count baselines
      required ← compile_patterns spec.failure_patterns
      reject ← compile_patterns spec.reject_patterns
      termination ← expected_termination spec.mode baselines
      anchors ← baseline_anchors spec.mode spec.channel required reject baselines
      done (record {
        spec = spec;
        fingerprint =
            from_oracle spec.mode termination anchors spec.failure_patterns spec.reject_patterns
              spec.digest;
        required = required;
        reject = reject;
      })

    -- `OracleSpec::automatic`, whose `expect` panics on an error.
    unfoldable pub automatic_spec :
        (Bytes → D) → DiagnosticChannel → Attempt OracleError (OracleSpec D)
    automatic_spec digest_of channel =
        elim (new_spec digest_of compiles OracleMode.automatic channel [] []) [
          | accepted spec ↦ done spec
          | refused e ↦ crashed panic
        ]

    unfoldable pub from_baselines_with_channel :
        (Bytes → D)
        → DiagnosticChannel
        → List ExecutionObservation
        → Attempt OracleError (FailureOracle D)
    from_baselines_with_channel digest_of channel baselines = do
      spec ← automatic_spec digest_of channel
      from_spec_and_baselines spec baselines

    abbrev pub from_baselines :
        (Bytes → D) → List ExecutionObservation → Attempt OracleError (FailureOracle D)
    from_baselines digest_of baselines =
        from_baselines_with_channel digest_of DiagnosticChannel.auto baselines
