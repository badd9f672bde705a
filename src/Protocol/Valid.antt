-- ===== src/Protocol/Valid.antt =====
-- Which requests pass the check.
use reprocut.Prelude.{◌≡◌, ◌≢◌, refl, sym, ◌∙◌, inl, inr, ◌⊎◌, ◌↔◌, arith, Bool, true, false}
use reprocut.Prelude.{◌&&◌, ◌||◌, ◌==◌, Option, none, some, List, [], ◌∷◌, Bool-cases}
use mathlib.Core.Path.{subst}
use reprocut.Model.{OracleMode, DiagnosticChannel}
use reprocut.Transformation.{Bytes, same_path}
use reprocut.Transformation.Pairs.{same_path→≡, same_path_self}
use reprocut.Oracle.{SpecResult, accepted, refused, new_spec}
use reprocut.Oracle.Spec.{IsAcceptable, new_spec_iff, new_spec_passed}
use reprocut.Protocol.{ReductionRequest, ProtocolAction, valid, invalid, validate, resume}
use reprocut.Protocol.{
  mode_name, channel_name, parse_mode, parse_channel, isolated_python, minimize,
}
use reprocut.Protocol.{after_mode, after_spec, check_isolation, is_resume, is_given}
use reprocut.Protocol.{isolation_selected, isolation_complete, isolation_fields_present}
use reprocut.Protocol.{ProtocolError, has_items}
use reprocut.Protocol.Names.{
  parse_mode_name, parse_channel_name, name_parse_mode, name_parse_channel,
}

invalid-≢ : {e : ProtocolError} → invalid e ≢ valid
invalid-≢ e = cc

-- The isolation fields go with the preparation: both paths with isolated Python, none of the fields
-- without it.
abbrev pub IsIsolated : ReductionRequest → Type 0
IsIsolated r =
    (r.preparation ≡ isolated_python) × (r.python_executable ≢ none) × (r.python_wheelhouse ≢ none)
    ⊎ (r.preparation ≢ isolated_python)
      × (r.python_executable ≡ none)
      × (r.python_wheelhouse ≡ none)
      × (r.python_extras ≡ [])
      × (r.prepare_spec ≡ none)

-- What a request must be to pass.
abbrev pub IsRunnable : (Bytes → Bool) → ReductionRequest → Type 0
IsRunnable compiles r =
    (r.version ≡ 1)
    × ((r.action ≡ resume) → r.restart ≡ false)
    × ((mode : OracleMode) × (r.oracle_mode ≡ mode_name mode)
        × IsAcceptable compiles mode r.failure_patterns r.reject_patterns)
    × ((channel : DiagnosticChannel) × (r.oracle_stream ≡ channel_name channel))
    × IsIsolated r

some-≢ : {x : Bytes} → some x ≢ none
some-≢ e = cc

items-≢ : {x : Bytes} {xs : List Bytes} → x ∷ xs ≢ []
items-≢ e = cc

both_given :
    (exe wheel : Option Bytes)
    → (is_given exe && is_given wheel) ≡ true
    → (exe ≢ none) × (wheel ≢ none)
both_given none wheel h = absurd (cc)
both_given (some x) none h = absurd (cc)
both_given (some x) (some y) h = (some-≢, some-≢)

given_both :
    (exe wheel : Option Bytes) → exe ≢ none → wheel ≢ none → (is_given exe && is_given wheel) ≡ true
given_both none wheel h k = absurd (h refl)
given_both (some x) none h k = absurd (k refl)
given_both (some x) (some y) h k = refl

absent :
    (exe wheel : Option Bytes) (extras : List Bytes) (spec : Option Bytes)
    → (is_given exe || (is_given wheel || (has_items extras || is_given spec))) ≡ false
    → (exe ≡ none) × (wheel ≡ none) × (extras ≡ []) × (spec ≡ none)
absent none none [] none h = (refl, refl, refl, refl)
absent none none [] (some x) h = absurd (cc)
absent none none (x ∷ xs) spec h = absurd (cc)
absent none (some x) extras spec h = absurd (cc)
absent (some x) wheel extras spec h = absurd (cc)

check_isolation_sound : (r : ReductionRequest) → check_isolation r ≡ valid → IsIsolated r
check_isolation_sound r h = elim (Bool-cases (isolation_selected r)) [
  | inl sel ↦ elim (Bool-cases (isolation_complete r)) [
    | inl full ↦
        let (exe, wheel) = both_given r.python_executable r.python_wheelhouse full in
        inl (same_path→≡ r.preparation isolated_python sel, exe, wheel)
    | inr part ↦ absurd (invalid-≢ (rw (check_isolation, sel, part) at h))
  ]
  | inr other ↦ elim (Bool-cases (isolation_complete r)) [
    | inl full ↦ absurd (invalid-≢ (rw (check_isolation, other, full) at h))
    | inr part ↦ elim (Bool-cases (isolation_fields_present r)) [
      | inl here ↦ absurd (invalid-≢ (rw (check_isolation, other, part, here) at h))
      | inr gone ↦
          let (exe, wheel, extras, spec) =
            absent r.python_executable r.python_wheelhouse r.python_extras r.prepare_spec gone in
          inr (different r.preparation other, exe, wheel, extras, spec)
    ]
  ]
]
  where
    different : (p : Bytes) → same_path p isolated_python ≡ false → p ≢ isolated_python
    different p other e = apart (
        sym (same_path_self isolated_python)
        ∙ subst (λ x. same_path x isolated_python ≡ false) e other)
      where
        apart : true ≡ false → ⊥
        apart e = cc

check_isolation_complete : (r : ReductionRequest) → IsIsolated r → check_isolation r ≡ valid
check_isolation_complete r (inl (here, exe, wheel)) =
    let sel : isolation_selected r ≡ true =
      subst (λ x. same_path x isolated_python ≡ true) (sym here) (same_path_self isolated_python) in
    let full = given_both r.python_executable r.python_wheelhouse exe wheel in
    rw (check_isolation, sel, full) refl
check_isolation_complete r (inr (other, exe, wheel, extras, spec)) =
    let sel : isolation_selected r ≡ false = elim (Bool-cases (isolation_selected r)) [
      | inl hit ↦ absurd (other (same_path→≡ r.preparation isolated_python hit))
      | inr miss ↦ miss
    ] in
    rw (check_isolation, sel, exe, wheel, extras, spec) refl

abbrev Settings : (Bytes → Bool) → ReductionRequest → Type 0
Settings compiles r =
    ((mode : OracleMode) × (r.oracle_mode ≡ mode_name mode)
      × IsAcceptable compiles mode r.failure_patterns r.reject_patterns)
    × ((channel : DiagnosticChannel) × (r.oracle_stream ≡ channel_name channel))
    × IsIsolated r

resume_free :
    (action : ProtocolAction) (restart : Bool)
    → ((is_resume action && restart) ≡ false) ↔ ((action ≡ resume) → restart ≡ false)
resume_free minimize restart = (λ h e. absurd (apart e), λ h. refl)
  where
    apart : minimize ≢ resume
    apart e = cc
resume_free resume restart = (λ h e. h, λ h. h refl)

module _ {D : Type 0} (digest_of : Bytes → D) (compiles : Bytes → Bool) where
  spec-Settings :
      (r : ReductionRequest) (mode : OracleMode) (channel : DiagnosticChannel)
      → r.oracle_mode ≡ mode_name mode
      → r.oracle_stream ≡ channel_name channel
      → (result : SpecResult D)
      → new_spec digest_of compiles mode channel r.failure_patterns r.reject_patterns ≡ result
      → after_spec digest_of compiles result r ≡ valid
      → Settings compiles r
  spec-Settings r mode channel named stream (refused e) made h = absurd (invalid-≢ h)
  spec-Settings r mode channel named stream (accepted spec) made h =
      let ok =
        new_spec_passed digest_of compiles mode channel r.failure_patterns r.reject_patterns spec
          made in
      ((mode, named, ok.0), (channel, stream), check_isolation_sound r h)

  mode-Settings :
      (r : ReductionRequest) (mode : Option OracleMode) (channel : Option DiagnosticChannel)
      → parse_mode r.oracle_mode ≡ mode
      → parse_channel r.oracle_stream ≡ channel
      → after_mode digest_of compiles mode r ≡ valid
      → Settings compiles r
  mode-Settings r none channel em ec h = absurd (invalid-≢ h)
  mode-Settings r (some mode) none em ec h = absurd (invalid-≢ (rw ec at h))
  mode-Settings r (some mode) (some channel) em ec h =
      spec-Settings r mode channel (name_parse_mode r.oracle_mode mode em)
        (name_parse_channel r.oracle_stream channel ec) _ refl (rw ec at h)

  validate_sound :
      (r : ReductionRequest) → validate digest_of compiles r ≡ valid → IsRunnable compiles r
  unfolding validate
  validate_sound r h = elim (Bool-cases (r.version == 1)) [
    | inr other ↦ absurd (invalid-≢ (rw other at h))
    | inl version ↦ elim (Bool-cases (is_resume r.action && r.restart)) [
      | inl clash ↦ absurd (invalid-≢ (rw (version, clash) at h))
      | inr free ↦
          let (mode, channel, isolated) = mode-Settings r _ _ refl refl (rw (version, free) at h) in
          (ground arith, (resume_free r.action r.restart).0 free, mode, channel, isolated)
    ]
  ]

  validate_complete :
      (r : ReductionRequest) → IsRunnable compiles r → validate digest_of compiles r ≡ valid
  unfolding validate
  validate_complete r (version, free, (mode, named, good), (channel, stream), isolated) =
      let here : (r.version == 1) ≡ true = ground arith in
      let em : parse_mode r.oracle_mode ≡ some mode =
        subst (λ t. parse_mode t ≡ some mode) (sym named) (parse_mode_name mode) in
      let ec : parse_channel r.oracle_stream ≡ some channel =
        subst (λ t. parse_channel t ≡ some channel) (sym stream) (parse_channel_name channel) in
      let made =
        (new_spec_iff digest_of compiles mode channel r.failure_patterns r.reject_patterns).1
          good in
      rw (here, (resume_free r.action r.restart).1 free, em, ec, made)
        (check_isolation_complete r isolated)

  -- A request passes `validate` exactly when it has version 1, does not resume with `restart`, names a
  -- mode and a stream, has patterns that the mode accepts, and has both Python paths when its
  -- preparation is isolated Python, and no isolation field otherwise.
  pub validate_iff :
      (r : ReductionRequest) → (validate digest_of compiles r ≡ valid) ↔ IsRunnable compiles r
  validate_iff r = (validate_sound r, validate_complete r)
