-- ===== src/Oracle/Kept.antt =====
-- What a failure oracle has seen of its baselines, and that it recognizes each of them.
use reprocut.Prelude.{◌≡◌, refl, sym, ◌∙◌, ap, Bool, true, false, not, ◌||◌}
use mathlib.Core.Path.{subst}
use reprocut.Prelude.{Option, some, List, [], ◌∷◌, All}
use reprocut.Prelude.Attempts.{bind-done, done-injective, fail_if-done, of_outcome-done}
use reprocut.Prelude.Faults.{ok, panic}
use reprocut.Prelude.Members.{Has, All-Has, Has-All}
use reprocut.Model.{OracleMode, DiagnosticChannel, preserved}
use reprocut.Observation.{TerminationReason, ExecutionObservation, same_termination, expired_of}
use reprocut.Observation.{exit_code, runner_failure, IsCoherent}
use reprocut.Transformation.{Bytes}
use reprocut.Diagnostic.Texts.{Text, Library}
use reprocut.Diagnostic.Select.{DiagnosticAnchor}
use reprocut.Diagnostic.Stable.{stable_discriminators}
use reprocut.Diagnostic.Present.{All-imp, IsPresent, stable_discriminators-IsPresent}
use reprocut.Oracle.{OracleSpec, OracleError, any}
use reprocut.Oracle.Fingerprint.{from_oracle, or_runner_failure}
use reprocut.Prelude.Attempts.{Attempt, done, crashed, of_outcome}
use reprocut.Oracle.Baselines.{all}
use reprocut.Oracle.Baselines.{FailureOracle, is_incomplete, ends_otherwise, common_termination}
use reprocut.Oracle.Baselines.{expected_termination, diagnostic_view, compile_patterns, matches}
use reprocut.Oracle.Baselines.{check_rejects, check_patterns, baseline_anchors, none_left}
use reprocut.Oracle.Baselines.{from_spec_and_baselines}
use reprocut.Oracle.Classify.{classify}
use reprocut.Oracle.Facts.{same_termination→≡, same_termination_iff, any-false_iff, all-true_iff}
use reprocut.Oracle.Facts.{IsFinished}
use reprocut.Oracle.Verdict.{Shows, IsSameFailure, classify-preserved_iff}

pub same_of_not : (a b : TerminationReason) → not (same_termination a b) ≡ false → a ≡ b
same_of_not a b h = same_termination→≡ a b (flipped (same_termination a b) h)
  where
    flipped : (test : Bool) → not test ≡ false → test ≡ true
    flipped true h = refl
    flipped false h = absurd (cc)

abbrev pub EndsAs : TerminationReason → ExecutionObservation → Type 0
EndsAs termination observation = observation.termination ≡ termination

-- The baselines that pass the test of `ends_otherwise` end alike.
pub ends_alike :
    (termination : TerminationReason) (baselines : List ExecutionObservation)
    → any (ends_otherwise termination) baselines ≡ false
    → All (EndsAs termination) baselines
ends_alike termination baselines h =
    All-imp (λ o. ends_otherwise termination o ≡ false) (EndsAs termination) baselines
      (λ o k. same_of_not o.termination termination k)
      ((any-false_iff (ends_otherwise termination) baselines).0 h)

-- What the text modes ask of the baselines.
abbrev pub AreAlike : List ExecutionObservation → Option TerminationReason → Type 0
AreAlike baselines termination =
    (first : TerminationReason) × (termination ≡ some first)
    × All (λ o. is_incomplete o ≡ false) baselines
    × All (EndsAs first) baselines

pub common_termination-AreAlike :
    (baselines : List ExecutionObservation) (termination : Option TerminationReason)
    → common_termination baselines ≡ done termination
    → AreAlike baselines termination
unfolding common_termination
common_termination-AreAlike [] termination h =
    let (whole, h') = fail_if-done _ _ _ h in absurd (apart h')
  where
    apart :
        ◌≡◌ {A = Attempt OracleError (Option TerminationReason)} (crashed panic) (done termination)
        → ⊥
    apart e = cc
common_termination-AreAlike (baseline ∷ rest) termination h =
    let (whole, h1) = fail_if-done (any is_incomplete (baseline ∷ rest)) _ _ h in
    let (alike, h2) = fail_if-done (any (ends_otherwise baseline.termination) rest) _ _ h1 in
    (
      baseline.termination,
      sym (done-injective h2),
      (any-false_iff is_incomplete (baseline ∷ rest)).0 whole,
      (refl, ends_alike baseline.termination rest alike),
    )

module _ (lib : Library) (compiles : Bytes → Bool) (is_match : Bytes → Text → Bool)
    (channel : DiagnosticChannel) where
  -- None, or all, of the patterns match the raw text.
  abbrev pub IsClear : List Bytes → ExecutionObservation → Type 0
  IsClear reject observation =
      All (λ p. is_match p (diagnostic_view lib channel observation) ≡ false) reject

  abbrev pub IsFull : List Bytes → ExecutionObservation → Type 0
  IsFull required observation =
      All (λ p. is_match p (diagnostic_view lib channel observation) ≡ true) required

  pub check_rejects-All :
      (reject : List Bytes) (baselines : List ExecutionObservation)
      → check_rejects lib compiles is_match channel reject baselines ≡ done tt
      → All (IsClear reject) baselines
  unfolding check_rejects
  check_rejects-All reject [] h = tt
  check_rejects-All reject (baseline ∷ rest) h =
      let raw = diagnostic_view lib channel baseline in
      let (clear, h') = fail_if-done (any (matches is_match raw) reject) _ _ h in
      ((any-false_iff (matches is_match raw) reject).0 clear, check_rejects-All reject rest h')

  pub check_patterns-All :
      (required reject : List Bytes) (baselines : List ExecutionObservation)
      → check_patterns lib compiles is_match channel required reject baselines ≡ done tt
      → All (λ o. IsClear reject o × IsFull required o) baselines
  unfolding check_patterns
  check_patterns-All required reject [] h = tt
  check_patterns-All required reject (baseline ∷ rest) h =
      let raw = diagnostic_view lib channel baseline in
      let (clear, h1) = fail_if-done (any (matches is_match raw) reject) _ _ h in
      let (full, h2) = fail_if-done (not (all (matches is_match raw) required)) _ _ h1 in
      (
        (
          (any-false_iff (matches is_match raw) reject).0 clear,
          (all-true_iff (matches is_match raw) required).0
              (flipped (all (matches is_match raw) required) full),
        ),
        check_patterns-All required reject rest h2,
      )
    where
      flipped : (test : Bool) → not test ≡ false → test ≡ true
      flipped true h = refl
      flipped false h = absurd (cc)

-- A baseline that is complete and coherent ended by itself.
coherent_ended :
    (observation : ExecutionObservation)
    → IsCoherent observation
    → is_incomplete observation ≡ false
    → IsFinished observation.termination × (observation.streams_truncated ≡ false)
coherent_ended observation coherent h =
    let (h1, failure) =
      or_false (observation.expired || observation.streams_truncated)
        (same_termination observation.termination runner_failure) h in
    let (early, cut) = or_false (observation.expired) (observation.streams_truncated) h1 in
    (
      (
        λ e. apart (sym (ap expired_of e) ∙ (sym coherent ∙ early)),
        λ e.
            apart
              (sym ((same_termination_iff observation.termination runner_failure).1 e) ∙ failure),
      ),
      cut,
    )
  where
    apart : true ≡ false → ⊥
    apart e = cc

    or_false : (a b : Bool) → (a || b) ≡ false → (a ≡ false) × (b ≡ false)
    or_false true b h = absurd (cc)
    or_false false b h = (refl, h)

module _ (lib : Library) (compiles : Bytes → Bool) (is_match : Bytes → Text → Bool) {D : Type 0}
    (spec : OracleSpec D) (baselines : List ExecutionObservation) where
  -- The oracle that is returned.
  abbrev pub built :
      List Bytes → List Bytes → Option TerminationReason → List DiagnosticAnchor → FailureOracle D
  built required reject termination anchors = record {
    spec = spec;
    fingerprint =
        from_oracle spec.mode termination anchors spec.failure_patterns spec.reject_patterns
          spec.digest;
    required = required;
    reject = reject;
  }

  anchors_shown :
      (anchors : List DiagnosticAnchor) (observation : ExecutionObservation)
      → Has observation baselines
      → All (IsPresent lib baselines) anchors
      → All (Shows lib is_match observation) anchors
  anchors_shown anchors observation member h =
      All-imp (IsPresent lib baselines) (Shows lib is_match observation) anchors
        (λ anchor (stream, lines). (stream, All-Has _ baselines lines observation member)) h

  module _ (required reject : List Bytes) (termination : Option TerminationReason)
      (anchors : List DiagnosticAnchor) (observation : ExecutionObservation)
      (coherent : IsCoherent observation) (member : Has observation baselines) where
    baseline_same :
        (mode : OracleMode)
        → expected_termination mode baselines ≡ done termination
        → baseline_anchors lib compiles is_match mode spec.channel required reject baselines
          ≡ done anchors
        → IsSameFailure lib is_match mode (built required reject termination anchors) observation
    unfolding expected_termination baseline_anchors
    baseline_same OracleMode.exit_zero h k =
        let (zero, _) = fail_if-done (any (ends_otherwise (exit_code 0)) baselines) _ _ h in
        All-Has (EndsAs (exit_code 0)) baselines (ends_alike (exit_code 0) baselines zero)
          observation member
    baseline_same OracleMode.automatic h k =
        let (first, e, whole, alike) = common_termination-AreAlike baselines termination h in
        let (u, clear, k1) =
          bind-done (check_rejects lib compiles is_match spec.channel reject baselines) _ k in
        let (found, some_found, k2) =
          bind-done (of_outcome (stable_discriminators lib spec.channel baselines)) _ k1 in
        let (left, k3) = fail_if-done (none_left found) _ _ k2 in
        let present =
          stable_discriminators-IsPresent lib spec.channel baselines anchors
            (of_outcome-done _ some_found ∙ ap ok (done-injective k3)) in
        let (finished, cut) =
          coherent_ended observation coherent (All-Has _ baselines whole observation member) in
        (
          finished,
          cut,
          All-Has (EndsAs first) baselines alike observation member ∙ sym (ap or_runner_failure e),
          All-Has _ baselines
              (check_rejects-All lib compiles is_match spec.channel reject baselines clear)
              observation member,
          anchors_shown anchors observation member present,
        )
    baseline_same OracleMode.regex h k =
        let (first, e, whole, alike) = common_termination-AreAlike baselines termination h in
        let (u, passed, k1) =
          bind-done (check_patterns lib compiles is_match spec.channel required reject baselines) _
            k in
        let (clear, full) =
          All-Has _ baselines
            (check_patterns-All lib compiles is_match spec.channel required reject baselines passed)
            observation member in
        let (finished, cut) =
          coherent_ended observation coherent (All-Has _ baselines whole observation member) in
        (
          finished,
          cut,
          All-Has (EndsAs first) baselines alike observation member ∙ sym (ap or_runner_failure e),
          clear,
          full,
        )

  -- An oracle that is built from coherent baselines recognizes its failure in every one of them:
  -- `classify` answers that each baseline preserves it, in every mode.
  pub from_spec_and_baselines-preserved :
      (oracle : FailureOracle D)
      → All IsCoherent baselines
      → from_spec_and_baselines lib compiles is_match spec baselines ≡ done oracle
      → All (λ o. classify lib is_match oracle o ≡ preserved) baselines
  unfolding from_spec_and_baselines
  from_spec_and_baselines-preserved oracle coherent h =
      let (enough, h1) = fail_if-done _ _ _ h in
      let (required, e1, h2) =
        bind-done (compile_patterns lib compiles is_match spec.failure_patterns) _ h1 in
      let (reject, e2, h3) =
        bind-done (compile_patterns lib compiles is_match spec.reject_patterns) _ h2 in
      let (termination, e3, h4) = bind-done (expected_termination spec.mode baselines) _ h3 in
      let (anchors, e4, h5) =
        bind-done
          (baseline_anchors lib compiles is_match spec.mode spec.channel required reject baselines)
          _ h4 in
      Has-All _ baselines (λ o member.
        subst (λ (built_one : FailureOracle D). classify lib is_match built_one o ≡ preserved)
          (done-injective h5)
          ((classify-preserved_iff lib is_match (built required reject termination anchors) o).1 (
            baseline_same required reject termination anchors o
              (All-Has IsCoherent baselines coherent o member) member spec.mode e3 e4)))
