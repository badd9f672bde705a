-- ===== src/Oracle/Verdict.antt =====
-- What the verdicts of `FailureOracle::classify` mean.
use reprocut.Prelude.{◌≡◌, refl, sym, ◌∙◌, inl, inr, ◌↔◌, Bool, true, false}
use mathlib.Core.Path.{subst}
use reprocut.Prelude.{List, [], ◌∷◌, All}
use reprocut.Model.{OracleMode, DiagnosticChannel, preserved}
use reprocut.Observation.{ExecutionObservation, same_termination}
use reprocut.Observation.{exit_code}
use reprocut.Transformation.{Bytes}
use reprocut.Diagnostic.Texts.{Text, Library, lines}
use reprocut.Diagnostic.Normalize.{normalize_bytes}
use reprocut.Diagnostic.Select.{DiagnosticAnchor}
use reprocut.Diagnostic.Present.{IsStream, IsLine}
use reprocut.Oracle.{any}
use reprocut.Oracle.Baselines.{FailureOracle, all, diagnostic_view, matches}
use reprocut.Oracle.Classify.{shows_anchor, is_unfinished, text_verdict}
use reprocut.Oracle.Classify.{classify_text, classify, mode_verdict}
use reprocut.Oracle.Facts.{shows_iff, preserved_if_iff}
use reprocut.Oracle.Facts.{and_iff, is_unfinished_iff, zero_verdict_iff, exit_not_timed_out}
use reprocut.Oracle.Facts.{exit_not_failure, same_termination_iff, tests_iff, finished_iff}
use reprocut.Oracle.Facts.{IsFinished, any-false_iff, all-true_iff}

module _ (lib : Library) (is_match : Bytes → Text → Bool) where
  -- The anchor names a stream, and its text is a line of that normalized stream.
  abbrev pub Shows : ExecutionObservation → DiagnosticAnchor → Type 0
  Shows observation anchor =
      IsStream anchor.channel × IsLine lib anchor.channel anchor.text observation

  shows_anchor_iff :
      (observation : ExecutionObservation) (channel : DiagnosticChannel) (text : Text)
      → (shows_anchor lib is_match observation (record { channel = channel; text = text }) ≡ true)
        ↔ (IsStream channel × IsLine lib channel text observation)
  shows_anchor_iff observation DiagnosticChannel.stdout text =
      let same = shows_iff (lines (normalize_bytes lib observation.stdout)) text in
      ((λ h. (inl refl, same.0 h)), (λ (_, h). same.1 h))
  shows_anchor_iff observation DiagnosticChannel.stderr text =
      let same = shows_iff (lines (normalize_bytes lib observation.stderr)) text in
      ((λ h. (inr refl, same.0 h)), (λ (_, h). same.1 h))
  shows_anchor_iff observation DiagnosticChannel.auto text =
      ((λ h. absurd (cc)), (λ (h, _). elim h [ inl e ↦ absurd (cc) | inr e ↦ absurd (cc) ]))
  shows_anchor_iff observation DiagnosticChannel.combined text =
      ((λ h. absurd (cc)), (λ (h, _). elim h [ inl e ↦ absurd (cc) | inr e ↦ absurd (cc) ]))

  Shows-anchors_iff :
      (observation : ExecutionObservation) (anchors : List DiagnosticAnchor)
      → (all (shows_anchor lib is_match observation) anchors ≡ true)
        ↔ All (Shows observation) anchors
  unfolding all
  Shows-anchors_iff observation [] = (λ h. tt, λ h. refl)
  Shows-anchors_iff observation (anchor ∷ rest) =
      let both =
        and_iff (shows_anchor lib is_match observation anchor)
          (all (shows_anchor lib is_match observation) rest) in
      let here = shows_anchor_iff observation anchor.channel anchor.text in
      let later = Shows-anchors_iff observation rest in
      (λ h. (here.0 (both.0 h).0, later.0 (both.0 h).1), λ (h, hs). both.1 (here.1 h, later.1 hs))

  module _ {D : Type 0} where
    -- The text of the run shows the failure: nothing vetoes it, and what the mode asks for is there.
    abbrev pub ShowsFailure : OracleMode → FailureOracle D → ExecutionObservation → Type 0
    ShowsFailure OracleMode.regex oracle observation =
        All (λ p. is_match p (diagnostic_view lib oracle.spec.channel observation) ≡ true)
          oracle.required
    ShowsFailure OracleMode.automatic oracle observation =
        All (Shows observation) oracle.fingerprint.anchors
    ShowsFailure OracleMode.exit_zero oracle observation = ⊥

    abbrev pub IsSameText : OracleMode → FailureOracle D → ExecutionObservation → Type 0
    IsSameText mode oracle observation =
        IsFinished observation.termination
        × (observation.streams_truncated ≡ false)
        × (observation.termination ≡ oracle.fingerprint.termination)
        × All (λ p. is_match p (diagnostic_view lib oracle.spec.channel observation) ≡ false)
            oracle.reject
        × ShowsFailure mode oracle observation

    -- The run shows the failure that the oracle was built for.
    abbrev pub IsSameFailure : OracleMode → FailureOracle D → ExecutionObservation → Type 0
    IsSameFailure OracleMode.exit_zero oracle observation = observation.termination ≡ exit_code 0
    IsSameFailure OracleMode.automatic oracle observation =
        IsSameText OracleMode.automatic oracle observation
    IsSameFailure OracleMode.regex oracle observation =
        IsSameText OracleMode.regex oracle observation

    text_verdict_iff :
        (mode : OracleMode) (oracle : FailureOracle D) (observation : ExecutionObservation)
        → (text_verdict lib is_match mode oracle observation ≡ preserved)
          ↔ ShowsFailure mode oracle observation
    text_verdict_iff OracleMode.regex oracle observation =
        let raw = diagnostic_view lib oracle.spec.channel observation in
        let test = preserved_if_iff (all (matches is_match raw) oracle.required) in
        let found = all-true_iff (matches is_match raw) oracle.required in
        (λ h. found.0 (test.0 h), λ h. test.1 (found.1 h))
    text_verdict_iff OracleMode.automatic oracle observation =
        let test =
          preserved_if_iff
            (all (shows_anchor lib is_match observation) oracle.fingerprint.anchors) in
        let found = Shows-anchors_iff observation oracle.fingerprint.anchors in
        (λ h. found.0 (test.0 h), λ h. test.1 (found.1 h))
    text_verdict_iff OracleMode.exit_zero oracle observation = (λ h. absurd (cc), λ h. absurd h)

    classify_text_iff :
        (oracle : FailureOracle D) (observation : ExecutionObservation)
        → IsFinished observation.termination
        → (classify_text lib is_match oracle observation ≡ preserved)
          ↔ IsSameText oracle.spec.mode oracle observation
    unfolding classify_text
    classify_text_iff oracle observation finished =
        let raw = diagnostic_view lib oracle.spec.channel observation in
        let verdict = text_verdict_iff oracle.spec.mode oracle observation in
        let vetoes = any-false_iff (matches is_match raw) oracle.reject in
        let same = same_termination_iff observation.termination oracle.fingerprint.termination in
        let tests =
          tests_iff (observation.streams_truncated)
            (same_termination observation.termination oracle.fingerprint.termination)
            (any (matches is_match raw) oracle.reject)
            (text_verdict lib is_match oracle.spec.mode oracle observation) in
        (
          λ h.
              let (whole, e, clear, v) = tests.0 h in
              (finished, whole, same.0 e, vetoes.0 clear, verdict.0 v),
          λ (_, whole, e, clear, v). tests.1 (whole, same.1 e, vetoes.1 clear, verdict.1 v),
        )

    mode_verdict_iff :
        (mode : OracleMode) (oracle : FailureOracle D) (observation : ExecutionObservation)
        → oracle.spec.mode ≡ mode
        → IsFinished observation.termination
        → (mode_verdict lib is_match mode oracle observation ≡ preserved)
          ↔ IsSameFailure mode oracle observation
    mode_verdict_iff OracleMode.exit_zero oracle observation e finished =
        zero_verdict_iff observation.termination
    mode_verdict_iff OracleMode.automatic oracle observation e finished =
        subst
          (λ mode.
            (classify_text lib is_match oracle observation ≡ preserved)
            ↔ IsSameText mode oracle observation)
          e (classify_text_iff oracle observation finished)
    mode_verdict_iff OracleMode.regex oracle observation e finished =
        subst
          (λ mode.
            (classify_text lib is_match oracle observation ≡ preserved)
            ↔ IsSameText mode oracle observation)
          e (classify_text_iff oracle observation finished)

    same_failure-IsFinished :
        (mode : OracleMode) (oracle : FailureOracle D) (observation : ExecutionObservation)
        → IsSameFailure mode oracle observation
        → IsFinished observation.termination
    same_failure-IsFinished OracleMode.exit_zero oracle observation e = (
      (λ h. absurd (exit_not_timed_out (sym e ∙ h))),
      (λ h. absurd (exit_not_failure (sym e ∙ h))),
    )
    same_failure-IsFinished OracleMode.automatic oracle observation h = h.0
    same_failure-IsFinished OracleMode.regex oracle observation h = h.0

    -- `classify` answers that the failure is preserved exactly when the run shows it. In the mode that
    -- reads the exit code: the run exited with 0, whether its streams are complete or not. In the others: the run ended by itself and as the
    -- baselines did, its streams are complete, no reject pattern matches the raw text, and every
    -- required pattern matches it or every anchor is a line of its normalized stream.
    pub classify-preserved_iff :
        (oracle : FailureOracle D) (observation : ExecutionObservation)
        → (classify lib is_match oracle observation ≡ preserved)
          ↔ IsSameFailure oracle.spec.mode oracle observation
    unfolding classify
    classify-preserved_iff oracle observation =
        let tests =
          finished_iff (is_unfinished observation.termination)
            (mode_verdict lib is_match oracle.spec.mode oracle observation) in
        let ended = is_unfinished_iff observation.termination in
        let verdict = mode_verdict_iff oracle.spec.mode oracle observation refl in
        (
          λ h. let (e, v) = tests.0 h in (verdict (ended.0 e)).0 v,
          λ h.
              let finished = same_failure-IsFinished oracle.spec.mode oracle observation h in
              tests.1 (ended.1 finished, (verdict finished).1 h),
        )
