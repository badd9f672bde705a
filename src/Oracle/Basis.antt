-- ===== src/Oracle/Basis.antt =====
-- From which baselines `from_spec_and_baselines` builds an oracle.
use mathlib.Core.Path.{subst}
use reprocut.Prelude.{◌≤◌, ◌≡◌, ◌≢◌, refl, sym, ◌∙◌, ap, ◌↔◌, arith, Bool, false, not}
use reprocut.Prelude.{ltb, Option, some, List, [], ◌∷◌, length, All}
use reprocut.Prelude.Faults.{ok, ok-injective}
use reprocut.Model.{OracleMode, DiagnosticChannel}
use reprocut.Observation.{TerminationReason, ExecutionObservation}
use reprocut.Observation.{exit_code}
use reprocut.Transformation.{Bytes}
use reprocut.Diagnostic.Texts.{Text, Library}
use reprocut.Diagnostic.Select.{DiagnosticAnchor}
use reprocut.Diagnostic.Stable.{stable_discriminators}
use reprocut.Diagnostic.Present.{All-imp}
use reprocut.Diagnostic.Anchors.{stable_discriminators_total}
use reprocut.Oracle.{OracleSpec, any, empty_anchor}
use reprocut.Prelude.Attempts.{done, ◌>>◌, fail_if, of_outcome}
use reprocut.Oracle.Baselines.{FailureOracle, is_incomplete, ends_otherwise, common_termination}
use reprocut.Oracle.Baselines.{expected_termination, diagnostic_view, matches}
use reprocut.Oracle.Baselines.{check_rejects, check_patterns, baseline_anchors, none_left}
use reprocut.Oracle.Baselines.{from_spec_and_baselines}
use reprocut.Oracle.Facts.{same_termination_iff, any-false_iff, all-true_iff}
use reprocut.Prelude.Attempts.{bind-done, fail_if-done, of_outcome-done}
use reprocut.Oracle.Kept.{EndsAs}
use reprocut.Oracle.Kept.{ends_alike, AreAlike, common_termination-AreAlike, IsClear, IsFull}
use reprocut.Oracle.Kept.{check_rejects-All, check_patterns-All, built}
use reprocut.Oracle.Accepted.{Compile, compile_patterns_all}

EndsAs-tested :
    (termination : TerminationReason) (baselines : List ExecutionObservation)
    → All (EndsAs termination) baselines
    → any (ends_otherwise termination) baselines ≡ false
EndsAs-tested termination baselines h = (any-false_iff (ends_otherwise termination) baselines).1 (
    All-imp (EndsAs termination) (λ o. ends_otherwise termination o ≡ false) baselines
      (λ o e. ap not ((same_termination_iff o.termination termination).1 e)) h)

-- The baselines are complete and end alike.
abbrev pub AreStable : List ExecutionObservation → Type 0
AreStable baselines =
    All (λ o. is_incomplete o ≡ false) baselines
    × (termination : TerminationReason) × All (EndsAs termination) baselines

common_termination_of :
    (baseline : ExecutionObservation) (rest : List ExecutionObservation)
    → AreStable (baseline ∷ rest)
    → common_termination (baseline ∷ rest) ≡ done (some baseline.termination)
unfolding common_termination
common_termination_of baseline rest (whole, termination, (e, alike)) =
    rw
      (
        (any-false_iff is_incomplete (baseline ∷ rest)).1 whole,
        EndsAs-tested baseline.termination rest (subst (λ t. All (EndsAs t) rest) (sym e) alike),
      )
      refl

module _ (lib : Library) (compiles : Bytes → Bool) (is_match : Bytes → Text → Bool)
    (channel : DiagnosticChannel) (required reject : List Bytes) where
  -- What a mode asks of the baselines.
  abbrev pub Suits : OracleMode → List ExecutionObservation → Type 0
  Suits OracleMode.exit_zero baselines = All (EndsAs (exit_code 0)) baselines
  Suits OracleMode.regex baselines =
      AreStable baselines
      × All
          (λ o.
            IsClear lib compiles is_match channel reject o
            × IsFull lib compiles is_match channel required o)
          baselines
  Suits OracleMode.automatic baselines =
      AreStable baselines
      × All (IsClear lib compiles is_match channel reject) baselines
      × (stable_discriminators lib channel baselines ≢ ok [])

  check_rejects_of :
      (baselines : List ExecutionObservation)
      → All (IsClear lib compiles is_match channel reject) baselines
      → check_rejects lib compiles is_match channel reject baselines ≡ done tt
  unfolding check_rejects
  check_rejects_of [] h = refl
  check_rejects_of (baseline ∷ rest) (h, hs) =
      rw
        (
          (any-false_iff (matches is_match (diagnostic_view lib channel baseline)) reject).1 h,
          check_rejects_of rest hs,
        )
        refl

  check_patterns_of :
      (baselines : List ExecutionObservation)
      → All
          (λ o.
            IsClear lib compiles is_match channel reject o
            × IsFull lib compiles is_match channel required o)
          baselines
      → check_patterns lib compiles is_match channel required reject baselines ≡ done tt
  unfolding check_patterns
  check_patterns_of [] h = refl
  check_patterns_of (baseline ∷ rest) ((h, k), hs) =
      rw
        (
          (any-false_iff (matches is_match (diagnostic_view lib channel baseline)) reject).1 h,
          (all-true_iff (matches is_match (diagnostic_view lib channel baseline)) required).1 k,
          check_patterns_of rest hs,
        )
        refl

  abbrev Ready : OracleMode → List ExecutionObservation → Type 0
  Ready mode baselines =
      (termination : Option TerminationReason) × (anchors : List DiagnosticAnchor)
      × (expected_termination mode baselines ≡ done termination)
      × (baseline_anchors lib compiles is_match mode channel required reject baselines
          ≡ done anchors)

  kept_anchors :
      (anchors : List DiagnosticAnchor)
      → anchors ≢ []
      → (fail_if (none_left anchors) empty_anchor >> done anchors) ≡ done anchors
  kept_anchors [] h = absurd (h refl)
  kept_anchors (anchor ∷ rest) h = refl

  some_anchors : (anchors : List DiagnosticAnchor) → none_left anchors ≡ false → anchors ≢ []
  some_anchors [] h e = absurd (cc)
  some_anchors (anchor ∷ rest) h e = cc

  anchors_of :
      (baseline : ExecutionObservation) (rest : List ExecutionObservation)
      → Suits OracleMode.automatic (baseline ∷ rest)
      → (anchors : List DiagnosticAnchor) × (baseline_anchors lib compiles is_match
            OracleMode.automatic channel required reject
            (baseline ∷ rest)
          ≡ done anchors)
  unfolding baseline_anchors
  anchors_of baseline rest (_, clear, found) =
      let (anchors, e, _, _) = stable_discriminators_total lib channel baseline rest in
      (
        anchors,
        rw (check_rejects_of (baseline ∷ rest) clear, e)
            (kept_anchors anchors (λ none_found. found (e ∙ ap ok none_found))),
      )

  Suits-Ready :
      (mode : OracleMode) (baseline : ExecutionObservation) (rest : List ExecutionObservation)
      → Suits mode (baseline ∷ rest)
      → Ready mode (baseline ∷ rest)
  unfolding expected_termination baseline_anchors
  Suits-Ready OracleMode.exit_zero baseline rest h =
      (some (exit_code 0), [], rw (EndsAs-tested (exit_code 0) (baseline ∷ rest) h) refl, refl)
  Suits-Ready OracleMode.regex baseline rest (stable, h) = (
    some (baseline.termination),
    [],
    common_termination_of baseline rest stable,
    rw (check_patterns_of (baseline ∷ rest) h) refl,
  )
  Suits-Ready OracleMode.automatic baseline rest h =
      let (anchors, e) = anchors_of baseline rest h in
      (some (baseline.termination), anchors, common_termination_of baseline rest h.0, e)

  alike_stable :
      (baselines : List ExecutionObservation) (termination : Option TerminationReason)
      → AreAlike baselines termination
      → AreStable baselines
  alike_stable baselines termination (first, _, whole, alike) = (whole, first, alike)

  Ready-Suits :
      (mode : OracleMode) (baselines : List ExecutionObservation)
      → Ready mode baselines
      → Suits mode baselines
  unfolding expected_termination baseline_anchors
  Ready-Suits OracleMode.exit_zero baselines (termination, anchors, h, k) =
      ends_alike (exit_code 0) baselines
        (fail_if-done (any (ends_otherwise (exit_code 0)) baselines) _ _ h).0
  Ready-Suits OracleMode.regex baselines (termination, anchors, h, k) =
      let (u, passed, _) =
        bind-done (check_patterns lib compiles is_match channel required reject baselines) _ k in
      (
        alike_stable baselines termination (common_termination-AreAlike baselines termination h),
        check_patterns-All lib compiles is_match channel required reject baselines passed,
      )
  Ready-Suits OracleMode.automatic baselines (termination, anchors, h, k) =
      let (u, clear, k1) =
        bind-done (check_rejects lib compiles is_match channel reject baselines) _ k in
      let (found, e, k2) =
        bind-done (of_outcome (stable_discriminators lib channel baselines)) _ k1 in
      let (left, _) = fail_if-done (none_left found) _ _ k2 in
      (
        alike_stable baselines termination (common_termination-AreAlike baselines termination h),
        check_rejects-All lib compiles is_match channel reject baselines clear,
        λ none_found.
            some_anchors found left (ok-injective (sym (of_outcome-done _ e) ∙ none_found)),
      )

module _ (lib : Library) (compiles : Bytes → Bool) (is_match : Bytes → Text → Bool) {D : Type 0}
    (spec : OracleSpec D) where
  -- At least two baselines, which the mode of the specification suits.
  abbrev pub IsBasis : List ExecutionObservation → Type 0
  IsBasis baselines =
      (2 ≤ length baselines)
      × Suits lib compiles is_match spec.channel spec.failure_patterns spec.reject_patterns
          spec.mode baselines

  -- With patterns that compile, `from_spec_and_baselines` builds an oracle exactly from at least two
  -- baselines that suit the mode. The mode that reads the exit code wants them all to exit with 0.
  -- The others want them complete, ending alike and free of reject patterns; besides, the automatic
  -- mode wants a stable anchor, and the mode of the patterns that all of them match each baseline.
  pub from_spec_and_baselines-done_iff :
      (baselines : List ExecutionObservation)
      → Compile lib compiles is_match spec.failure_patterns
      → Compile lib compiles is_match spec.reject_patterns
      → ((oracle : FailureOracle D) × (from_spec_and_baselines lib compiles is_match spec baselines
            ≡ done oracle))
        ↔ IsBasis baselines
  unfolding from_spec_and_baselines
  from_spec_and_baselines-done_iff baselines h k = (into baselines, back baselines)
    where
      into :
          (baselines : List ExecutionObservation)
          → (oracle : FailureOracle D) × (from_spec_and_baselines lib compiles is_match spec
                baselines
              ≡ done oracle)
          → IsBasis baselines
      into baselines (oracle, e) =
          let (enough, e1) = fail_if-done (ltb (length baselines) 2) _ _ e in
          let e2 =
            rw
              (
                compile_patterns_all lib compiles is_match spec.failure_patterns h,
                compile_patterns_all lib compiles is_match spec.reject_patterns k,
              )
              at e1 in
          let (termination, t, e3) = bind-done (expected_termination spec.mode baselines) _ e2 in
          let (anchors, a, e4) =
            bind-done
              (baseline_anchors lib compiles is_match spec.mode spec.channel spec.failure_patterns
                spec.reject_patterns baselines)
              _ e3 in
          (
            ground arith,
            Ready-Suits lib compiles is_match spec.channel spec.failure_patterns
                spec.reject_patterns spec.mode baselines (termination, anchors, t, a),
          )

      back :
          (baselines : List ExecutionObservation)
          → IsBasis baselines
          → (oracle : FailureOracle D) × (from_spec_and_baselines lib compiles is_match spec
                baselines
              ≡ done oracle)
      back [] (enough, suits) = absurd (omega arith)
      back (baseline ∷ rest) (enough, suits) =
          let (termination, anchors, t, a) =
            Suits-Ready lib compiles is_match spec.channel spec.failure_patterns
              spec.reject_patterns spec.mode baseline rest suits in
          let many : ltb (length (baseline ∷ rest)) 2 ≡ false = ground arith in
          (
            built lib compiles is_match spec (baseline ∷ rest) spec.failure_patterns
                spec.reject_patterns termination anchors,
            rw
                (
                  many,
                  compile_patterns_all lib compiles is_match spec.failure_patterns h,
                  compile_patterns_all lib compiles is_match spec.reject_patterns k,
                  t,
                  a,
                )
                refl,
          )
