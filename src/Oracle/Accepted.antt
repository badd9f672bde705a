-- ===== src/Oracle/Accepted.antt =====
-- From which baselines `from_spec_and_baselines` builds an oracle.
use reprocut.Prelude.{◌≡◌, refl, sym, inl, inr, Bool, true, not}
use reprocut.Prelude.{ltb, Bool-cases, List, [], ◌∷◌, length, All}
use reprocut.Model.{OracleMode, DiagnosticChannel}
use reprocut.Observation.{ExecutionObservation}
use reprocut.Observation.{exit_code}
use reprocut.Transformation.{Bytes}
use reprocut.Diagnostic.Texts.{Text, Library}
use reprocut.Diagnostic.Select.{DiagnosticAnchor}
use reprocut.Diagnostic.Anchors.{stable_discriminators_total}
use reprocut.Prelude.{◌++◌}
use reprocut.Prelude.Members.{Has, All-Has, Has-All, canonical-Has}
use reprocut.Transformation.Order.{path-IsOrder}
use mathlib.Core.Path.{subst}
use reprocut.Oracle.{OracleSpec, any, new_spec, accepted, canonical_patterns, empty_anchor}
use reprocut.Oracle.Spec.{IsPattern, new_spec_passed, canonical_spec}
use reprocut.Prelude.Attempts.{done, ◌>>◌, fail_if, Answers, bind-Answers}
use reprocut.Oracle.Baselines.{all}
use reprocut.Oracle.Baselines.{is_incomplete, ends_otherwise, common_termination}
use reprocut.Oracle.Baselines.{expected_termination, diagnostic_view, compile_patterns, matches}
use reprocut.Oracle.Baselines.{check_rejects, check_patterns, baseline_anchors, none_left}
use reprocut.Oracle.Baselines.{from_spec_and_baselines}

Has-left : (p : Bytes) (ps qs : List Bytes) → Has p ps → Has p (ps ++ qs)
Has-left p [] qs h = absurd h
Has-left p (x ∷ ps) qs (inl e) = inl e
Has-left p (x ∷ ps) qs (inr h) = inr (Has-left p ps qs h)

Has-right : (p : Bytes) (ps qs : List Bytes) → Has p qs → Has p (ps ++ qs)
Has-right p [] qs h = h
Has-right p (x ∷ ps) qs h = inr (Has-right p ps qs h)

module _ (lib : Library) (compiles : Bytes → Bool) (is_match : Bytes → Text → Bool) where
  abbrev pub Compile : List Bytes → Type 0
  Compile = All (λ p. compiles p ≡ true)

  pub compile_patterns_all :
      (patterns : List Bytes)
      → Compile patterns
      → compile_patterns lib compiles is_match patterns ≡ done patterns
  unfolding compile_patterns
  compile_patterns_all [] h = refl
  compile_patterns_all (p ∷ rest) (h, hs) = rw (h, compile_patterns_all rest hs) refl

  check_rejects-Answers :
      (channel : DiagnosticChannel) (reject : List Bytes) (baselines : List ExecutionObservation)
      → Answers (check_rejects lib compiles is_match channel reject baselines)
  unfolding check_rejects
  check_rejects-Answers channel reject [] = tt
  check_rejects-Answers channel reject (baseline ∷ rest) =
      elim (Bool-cases (any (matches is_match (diagnostic_view lib channel baseline)) reject)) [
        | inl vetoed ↦ rw vetoed tt
        | inr clear ↦ rw clear (check_rejects-Answers channel reject rest)
      ]

  check_patterns-Answers :
      (channel : DiagnosticChannel) (required reject : List Bytes)
      (baselines : List ExecutionObservation)
      → Answers (check_patterns lib compiles is_match channel required reject baselines)
  unfolding check_patterns
  check_patterns-Answers channel required reject [] = tt
  check_patterns-Answers channel required reject (baseline ∷ rest) =
      elim (Bool-cases (any (matches is_match (diagnostic_view lib channel baseline)) reject)) [
        | inl vetoed ↦ rw vetoed tt
        | inr clear ↦
            elim (Bool-cases
              (not (all (matches is_match (diagnostic_view lib channel baseline)) required))) [
                | inl missing ↦ rw (clear, missing) tt
                | inr full ↦ rw (clear, full) (check_patterns-Answers channel required reject rest)
              ]
      ]

  common_termination-Answers :
      (baseline : ExecutionObservation) (rest : List ExecutionObservation)
      → Answers (common_termination (baseline ∷ rest))
  unfolding common_termination
  common_termination-Answers baseline rest =
      elim (Bool-cases (any is_incomplete (baseline ∷ rest))) [
        | inl cut ↦ rw cut tt
        | inr whole ↦ elim (Bool-cases (any (ends_otherwise baseline.termination) rest)) [
          | inl unstable ↦ rw (whole, unstable) tt
          | inr stable ↦ rw (whole, stable) tt
        ]
      ]

  expected_termination-Answers :
      (mode : OracleMode) (baseline : ExecutionObservation) (rest : List ExecutionObservation)
      → Answers (expected_termination mode (baseline ∷ rest))
  unfolding expected_termination
  expected_termination-Answers OracleMode.exit_zero baseline rest =
      elim (Bool-cases (any (ends_otherwise (exit_code 0)) (baseline ∷ rest))) [
        | inl other ↦ rw other tt
        | inr zero_all ↦ rw zero_all tt
      ]
  expected_termination-Answers OracleMode.automatic baseline rest =
      common_termination-Answers baseline rest
  expected_termination-Answers OracleMode.regex baseline rest =
      common_termination-Answers baseline rest

  left_or_none :
      (anchors : List DiagnosticAnchor)
      → Answers (fail_if (none_left anchors) empty_anchor >> done anchors)
  left_or_none [] = tt
  left_or_none (anchor ∷ rest) = tt

  baseline_anchors-Answers :
      (mode : OracleMode) (channel : DiagnosticChannel) (required reject : List Bytes)
      (baseline : ExecutionObservation) (rest : List ExecutionObservation)
      → Answers
          (baseline_anchors lib compiles is_match mode channel required reject (baseline ∷ rest))
  unfolding baseline_anchors
  baseline_anchors-Answers OracleMode.automatic channel required reject baseline rest =
      let (anchors, e, _, _) = stable_discriminators_total lib channel baseline rest in
      bind-Answers (check_rejects lib compiles is_match channel reject (baseline ∷ rest)) _
        (check_rejects-Answers channel reject (baseline ∷ rest))
        (λ u h. rw e (left_or_none anchors))
  baseline_anchors-Answers OracleMode.regex channel required reject baseline rest =
      bind-Answers (check_patterns lib compiles is_match channel required reject (baseline ∷ rest))
        _ (check_patterns-Answers channel required reject (baseline ∷ rest)) (λ u h. tt)
  baseline_anchors-Answers OracleMode.exit_zero channel required reject baseline rest = tt

  canonical-Compile :
      (patterns others : List Bytes)
      → ((p : Bytes) → Has p patterns → Has p others)
      → All (IsPattern compiles) others
      → Compile (canonical_patterns patterns)
  canonical-Compile patterns others into h =
      Has-All (λ p. compiles p ≡ true) (canonical_patterns patterns)
        (λ p member.
          (All-Has (IsPattern compiles) others h p
            (into p ((canonical-Has path-IsOrder patterns p).0 member))).1)

  module _ {D : Type 0} where
    compiled-Answers :
        (spec : OracleSpec D) (baselines : List ExecutionObservation)
        → Compile spec.failure_patterns
        → Compile spec.reject_patterns
        → Answers (from_spec_and_baselines lib compiles is_match spec baselines)
    unfolding from_spec_and_baselines
    compiled-Answers spec [] h k = tt
    compiled-Answers spec (baseline ∷ rest) h k =
        elim (Bool-cases (ltb (length (baseline ∷ rest)) 2)) [
          | inl few ↦ rw few tt
          | inr enough ↦
              rw
                (
                  enough,
                  compile_patterns_all spec.failure_patterns h,
                  compile_patterns_all spec.reject_patterns k,
                )
                (bind-Answers (expected_termination spec.mode (baseline ∷ rest)) _
                  (expected_termination-Answers spec.mode baseline rest)
                  (λ termination e.
                    bind-Answers
                      (baseline_anchors lib compiles is_match spec.mode spec.channel
                        spec.failure_patterns spec.reject_patterns (baseline ∷ rest))
                      _
                      (baseline_anchors-Answers spec.mode spec.channel spec.failure_patterns
                        spec.reject_patterns baseline rest)
                      (λ anchors e'. tt)))
        ]

    -- From a specification that `OracleSpec::new` accepted, `from_spec_and_baselines` returns an oracle
    -- or an error, whatever the baselines are: no index operation and no `expect` panics.
    pub from_spec_and_baselines-Answers :
        (digest_of : Bytes → D) (mode : OracleMode) (channel : DiagnosticChannel)
        (failure reject : List Bytes) (spec : OracleSpec D) (baselines : List ExecutionObservation)
        → new_spec digest_of compiles mode channel failure reject ≡ accepted spec
        → Answers (from_spec_and_baselines lib compiles is_match spec baselines)
    from_spec_and_baselines-Answers digest_of mode channel failure reject spec baselines h =
        let ((_, _, patterns, _), e) =
          new_spec_passed digest_of compiles mode channel failure reject spec h in
        subst
          (λ (s : OracleSpec D).
            Answers (from_spec_and_baselines lib compiles is_match s baselines))
          (sym e)
          (compiled-Answers (canonical_spec digest_of compiles mode channel failure reject)
            baselines
            (canonical-Compile failure (failure ++ reject) (λ p. Has-left p failure reject)
              patterns)
            (canonical-Compile reject (failure ++ reject) (λ p. Has-right p failure reject)
              patterns))
