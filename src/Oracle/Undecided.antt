-- ===== src/Oracle/Undecided.antt =====
-- When `FailureOracle::classify` leaves a run undecided.
use reprocut.Prelude.{
  ℕ, ◌≡◌, ◌≢◌, refl, sym, ◌∙◌, ap, ◌⊎◌, inl, inr, ◌↔◌, ◌==◌, Bool, true, false, not, if◌then◌else◌,
}
use reprocut.Model.{OracleMode, CandidateVerdict, rejected, inconclusive}
use reprocut.Observation.{TerminationReason, ExecutionObservation, same_termination}
use reprocut.Observation.{exit_code, unix_signal, timed_out, runner_failure}
use reprocut.Transformation.{Bytes}
use reprocut.Diagnostic.Texts.{Text, Library}
use reprocut.Oracle.{any}
use reprocut.Oracle.Baselines.{FailureOracle, diagnostic_view, matches}
use reprocut.Oracle.Classify.{is_unfinished, zero_verdict, text_verdict, preserved_if}
use reprocut.Oracle.Classify.{classify_text, mode_verdict, classify}

preserved_if-decides : (test : Bool) → preserved_if test ≢ inconclusive
preserved_if-decides true e = cc
preserved_if-decides false e = cc

-- The chains of tests of the two functions.
undecided_chain :
    (cut same vetoed : Bool) (verdict : CandidateVerdict)
    → verdict ≢ inconclusive
    → ((if cut
          then inconclusive
          else if not same
          then rejected
          else if vetoed
          then rejected
          else verdict)
        ≡ inconclusive)
      ↔ (cut ≡ true)
undecided_chain true same vetoed verdict h = (λ e. refl, λ e. refl)
undecided_chain false false vetoed verdict h = (λ e. absurd (cc), λ e. absurd (cc))
undecided_chain false true true verdict h = (λ e. absurd (cc), λ e. absurd (cc))
undecided_chain false true false verdict h = (λ e. absurd (h e), λ e. absurd (cc))

undecided_first :
    (unfinished : Bool) (verdict : CandidateVerdict)
    → ((if unfinished then inconclusive else verdict) ≡ inconclusive)
      ↔ ((unfinished ≡ true) ⊎ (verdict ≡ inconclusive))
undecided_first true verdict = (λ e. inl refl, λ e. refl)
undecided_first false verdict = (λ e. inr e, λ e. elim e [ inl q ↦ absurd (cc) | inr q ↦ q ])

is_unfinished-true_iff :
    (termination : TerminationReason)
    → (is_unfinished termination ≡ true)
      ↔ ((termination ≡ timed_out) ⊎ (termination ≡ runner_failure))
is_unfinished-true_iff (exit_code code) =
    (λ e. absurd (cc), λ e. elim e [ inl q ↦ absurd (cc) | inr q ↦ absurd (cc) ])
is_unfinished-true_iff (unix_signal value) =
    (λ e. absurd (cc), λ e. elim e [ inl q ↦ absurd (cc) | inr q ↦ absurd (cc) ])
is_unfinished-true_iff timed_out = (λ e. inl refl, λ e. refl)
is_unfinished-true_iff runner_failure = (λ e. inr refl, λ e. refl)

abbrev IsSignal : TerminationReason → Type 0
IsSignal termination = (value : ℕ) × (termination ≡ unix_signal value)

-- What the mode itself leaves undecided.
abbrev pub IsUnreadable : OracleMode → ExecutionObservation → Type 0
IsUnreadable OracleMode.exit_zero observation = IsSignal observation.termination
IsUnreadable OracleMode.automatic observation = observation.streams_truncated ≡ true
IsUnreadable OracleMode.regex observation = observation.streams_truncated ≡ true

abbrev pub IsUndecided : OracleMode → ExecutionObservation → Type 0
IsUndecided mode observation =
    ((observation.termination ≡ timed_out) ⊎ (observation.termination ≡ runner_failure))
    ⊎ IsUnreadable mode observation

zero_verdict-undecided :
    (termination : TerminationReason)
    → zero_verdict termination ≡ inconclusive
    → ((termination ≡ timed_out) ⊎ (termination ≡ runner_failure)) ⊎ IsSignal termination
zero_verdict-undecided (exit_code code) e = absurd (preserved_if-decides (code == 0) e)
zero_verdict-undecided (unix_signal value) e = inr (value, refl)
zero_verdict-undecided timed_out e = inl (inl refl)
zero_verdict-undecided runner_failure e = inl (inr refl)

module _ (lib : Library) (is_match : Bytes → Text → Bool) {D : Type 0} where
  text_verdict-decides :
      (mode : OracleMode) (oracle : FailureOracle D) (observation : ExecutionObservation)
      → mode ≢ OracleMode.exit_zero
      → text_verdict lib is_match mode oracle observation ≢ inconclusive
  text_verdict-decides OracleMode.regex oracle observation h = preserved_if-decides _
  text_verdict-decides OracleMode.automatic oracle observation h = preserved_if-decides _
  text_verdict-decides OracleMode.exit_zero oracle observation h = absurd (h refl)

  classify_text-undecided :
      (oracle : FailureOracle D) (observation : ExecutionObservation)
      → oracle.spec.mode ≢ OracleMode.exit_zero
      → (classify_text lib is_match oracle observation ≡ inconclusive)
        ↔ (observation.streams_truncated ≡ true)
  unfolding classify_text
  classify_text-undecided oracle observation h =
      undecided_chain (observation.streams_truncated)
        (same_termination observation.termination oracle.fingerprint.termination)
        (any (matches is_match (diagnostic_view lib oracle.spec.channel observation)) oracle.reject)
        (text_verdict lib is_match oracle.spec.mode oracle observation)
        (text_verdict-decides oracle.spec.mode oracle observation h)

  mode_verdict-IsUndecided :
      (mode : OracleMode) (oracle : FailureOracle D) (observation : ExecutionObservation)
      → oracle.spec.mode ≡ mode
      → ((mode_verdict lib is_match mode oracle observation ≡ inconclusive)
          → IsUndecided mode observation)
        × (IsUnreadable mode observation
            → mode_verdict lib is_match mode oracle observation ≡ inconclusive)
  mode_verdict-IsUndecided OracleMode.exit_zero oracle observation e =
      (zero_verdict-undecided (observation.termination), λ (value, signal). ap zero_verdict signal)
  mode_verdict-IsUndecided OracleMode.automatic oracle observation e =
      let chain = classify_text-undecided oracle observation (λ q. apart (sym e ∙ q)) in
      (λ h. inr (chain.0 h), chain.1)
    where
      apart : OracleMode.automatic ≡ OracleMode.exit_zero → ⊥
      apart q = cc
  mode_verdict-IsUndecided OracleMode.regex oracle observation e =
      let chain = classify_text-undecided oracle observation (λ q. apart (sym e ∙ q)) in
      (λ h. inr (chain.0 h), chain.1)
    where
      apart : OracleMode.regex ≡ OracleMode.exit_zero → ⊥
      apart q = cc

  -- `classify` leaves a run undecided exactly when it timed out or the runner failed, or, in the mode
  -- that reads the exit code, where a cut-off stream does not count, when a signal ended it, or, in
  -- the others, when a stream is cut off.
  pub classify-inconclusive_iff :
      (oracle : FailureOracle D) (observation : ExecutionObservation)
      → (classify lib is_match oracle observation ≡ inconclusive)
        ↔ IsUndecided oracle.spec.mode observation
  unfolding classify
  classify-inconclusive_iff oracle observation =
      let tests =
        undecided_first (is_unfinished observation.termination)
          (mode_verdict lib is_match oracle.spec.mode oracle observation) in
      let ended = is_unfinished-true_iff observation.termination in
      let verdict = mode_verdict-IsUndecided oracle.spec.mode oracle observation refl in
      (
        λ h. elim (tests.0 h) [ inl e ↦ inl (ended.0 e) | inr e ↦ verdict.0 e ],
        λ h. tests.1 (elim h [ inl e ↦ inl (ended.1 e) | inr e ↦ inr (verdict.1 e) ]),
      )
