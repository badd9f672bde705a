-- ===== src/Oracle/Tests.antt =====
-- Specifications with the patterns `b` and `a`; every pattern of the tests compiles.
use reprocut.Prelude.{◌≡◌, refl, inl, inr, ◌↔◌, Bool, true, [], ◌∷◌}
use reprocut.Prelude.Members.{Has}
use reprocut.Prelude.Sorting.{sort_by, insert_by, dedup_after}
use reprocut.Prelude.{some, All, List}
use reprocut.Model.{regex, automatic, exit_zero, auto, stderr, preserved}
use reprocut.Observation.{ExecutionObservation, exit_code}
use reprocut.Diagnostic.Texts.{starts_with, replace_cr, replace_crlf}
use reprocut.Diagnostic.Sample.{sample_library, sample_run}
use reprocut.Prelude.Attempts.{done, Answers}
use reprocut.Oracle.Baselines.{FailureOracle, from_spec_and_baselines, compile_patterns}
use reprocut.Oracle.Baselines.{expected_termination, common_termination, baseline_anchors}
use reprocut.Oracle.Baselines.{check_patterns, all}
use reprocut.Prelude.{sym, ap, ◌∙◌, false, ◌==◌, length, replicate, arith}
use reprocut.Prelude.Texts.{codes}
use reprocut.Oracle.Fingerprint.{FailureFingerprint, from_oracle, utf8}
use reprocut.Oracle.Identity.{IsEncodable, fingerprint_bytes-injective}
use reprocut.Oracle.Classify.{classify}
use reprocut.Model.{inconclusive}
use reprocut.Oracle.Undecided.{IsUndecided, classify-inconclusive_iff}
use reprocut.Oracle.Verdict.{IsSameFailure, classify-preserved_iff}
use reprocut.Oracle.Kept.{built, from_spec_and_baselines-preserved}
use reprocut.Oracle.Accepted.{from_spec_and_baselines-Answers}
use reprocut.Oracle.Basis.{IsBasis, from_spec_and_baselines-done_iff}
use reprocut.Transformation.{Bytes}
use reprocut.Oracle.{OracleSpec, new_spec, accepted, refused, invalid_configuration, any}
use reprocut.Oracle.{encode_pattern_list}
use reprocut.Oracle.Spec.{canonical_spec, IsAcceptable, new_spec_iff, new_spec_unique}

abbrev digest_of : Bytes → Bytes
digest_of bytes = bytes

abbrev compiles : Bytes → Bool
compiles pattern = true

abbrev pattern_a : Bytes
pattern_a = 97 ∷ []

abbrev pattern_b : Bytes
pattern_b = 98 ∷ []

abbrev spec : OracleSpec Bytes
spec = canonical_spec digest_of compiles regex auto (pattern_a ∷ pattern_b ∷ []) []

given-spec :
    new_spec digest_of compiles regex auto (pattern_b ∷ pattern_a ∷ pattern_b ∷ []) []
    ≡ accepted spec
unfolding new_spec any sort_by insert_by dedup_after encode_pattern_list
given-spec = refl

sorted-spec : new_spec digest_of compiles regex auto (pattern_a ∷ pattern_b ∷ []) [] ≡ accepted spec
unfolding new_spec any sort_by insert_by dedup_after encode_pattern_list
sorted-spec = refl

automatic_refused :
    new_spec digest_of compiles automatic auto (pattern_a ∷ []) [] ≡ refused invalid_configuration
unfolding new_spec any
automatic_refused = refl

new_spec_iff_example :
    (new_spec digest_of compiles regex auto (pattern_b ∷ pattern_a ∷ []) []
      ≡ accepted (canonical_spec digest_of compiles regex auto (pattern_b ∷ pattern_a ∷ []) []))
    ↔ IsAcceptable compiles regex (pattern_b ∷ pattern_a ∷ []) []
new_spec_iff_example = new_spec_iff digest_of compiles regex auto (pattern_b ∷ pattern_a ∷ []) []

same_patterns :
    (p : Bytes)
    → Has p (pattern_b ∷ pattern_a ∷ pattern_b ∷ []) ↔ Has p (pattern_a ∷ pattern_b ∷ [])
same_patterns p = (into, back)
  where
    into : Has p (pattern_b ∷ pattern_a ∷ pattern_b ∷ []) → Has p (pattern_a ∷ pattern_b ∷ [])
    into (inl e) = inr (inl e)
    into (inr (inl e)) = inl e
    into (inr (inr (inl e))) = inr (inl e)
    into (inr (inr (inr h))) = absurd h

    back : Has p (pattern_a ∷ pattern_b ∷ []) → Has p (pattern_b ∷ pattern_a ∷ pattern_b ∷ [])
    back (inl e) = inr (inl e)
    back (inr (inl e)) = inl e
    back (inr (inr h)) = absurd h

new_spec_unique_example : spec ≡ spec
new_spec_unique_example =
    new_spec_unique digest_of compiles regex auto (pattern_b ∷ pattern_a ∷ pattern_b ∷ []) []
      (pattern_a ∷ pattern_b ∷ []) [] spec spec same_patterns (λ p. ((λ h. h), (λ h. h))) given-spec
      sorted-spec

-- Two runs that write `boom` to the standard error, for an oracle of the pattern `b`, which a text
-- matches that starts with it.
abbrev boom_spec : OracleSpec Bytes
boom_spec = canonical_spec digest_of compiles regex stderr (pattern_b ∷ []) []

abbrev booms : List ExecutionObservation
booms = sample_run ∷ sample_run ∷ []

abbrev boom_oracle : FailureOracle Bytes
boom_oracle =
    built sample_library compiles starts_with boom_spec booms (pattern_b ∷ []) []
      (some (exit_code 1)) []

accepted-boom : new_spec digest_of compiles regex stderr (pattern_b ∷ []) [] ≡ accepted boom_spec
unfolding new_spec any sort_by insert_by dedup_after encode_pattern_list
accepted-boom = refl

built-boom :
    from_spec_and_baselines sample_library compiles starts_with boom_spec booms ≡ done boom_oracle
unfolding from_spec_and_baselines compile_patterns expected_termination common_termination
    baseline_anchors check_patterns any all starts_with replace_cr replace_crlf sort_by insert_by
    dedup_after
built-boom = refl

classify-preserved_iff_example :
    (classify sample_library starts_with boom_oracle sample_run ≡ preserved)
    ↔ IsSameFailure sample_library starts_with regex boom_oracle sample_run
classify-preserved_iff_example =
    classify-preserved_iff sample_library starts_with boom_oracle sample_run

classify-inconclusive_iff_example :
    (classify sample_library starts_with boom_oracle sample_run ≡ inconclusive)
    ↔ IsUndecided regex sample_run
classify-inconclusive_iff_example =
    classify-inconclusive_iff sample_library starts_with boom_oracle sample_run

from_spec_and_baselines-preserved_example :
    All (λ o. classify sample_library starts_with boom_oracle o ≡ preserved) booms
from_spec_and_baselines-preserved_example =
    from_spec_and_baselines-preserved sample_library compiles starts_with boom_spec booms
      boom_oracle (refl, (refl, tt)) built-boom

from_spec_and_baselines-Answers_example :
    Answers (from_spec_and_baselines sample_library compiles starts_with boom_spec booms)
from_spec_and_baselines-Answers_example =
    from_spec_and_baselines-Answers sample_library compiles starts_with digest_of regex stderr
      (pattern_b ∷ []) [] boom_spec booms accepted-boom

from_spec_and_baselines-done_iff_example :
    ((oracle : FailureOracle Bytes) × (from_spec_and_baselines sample_library compiles starts_with
          boom_spec booms
        ≡ done oracle))
    ↔ IsBasis sample_library compiles starts_with boom_spec booms
unfolding sort_by insert_by dedup_after
from_spec_and_baselines-done_iff_example =
    from_spec_and_baselines-done_iff sample_library compiles starts_with boom_spec booms (refl, tt)
      tt

-- Two digests.
abbrev two_digests : Bool → Bytes
two_digests true = replicate 32 1
two_digests false = replicate 32 0

two_digests_sized : (d : Bool) → length (two_digests d) ≡ 32
two_digests_sized true = refl
two_digests_sized false = refl

abbrev starts_one : Bytes → Bool
starts_one [] = false
starts_one (b ∷ rest) = b == 1

starts_one-two_digests : (d : Bool) → starts_one (two_digests d) ≡ d
starts_one-two_digests true = refl
starts_one-two_digests false = refl

two_digests-injective : (c d : Bool) → two_digests c ≡ two_digests d → c ≡ d
two_digests-injective c d e =
    sym (starts_one-two_digests c) ∙ ap starts_one e ∙ starts_one-two_digests d

abbrev boom_fingerprint : FailureFingerprint Bool
boom_fingerprint =
    from_oracle automatic (some (exit_code 1)) (record { channel = stderr; text = codes "b" } ∷ [])
      [] (pattern_a ∷ []) true

boom-IsEncodable : IsEncodable boom_fingerprint
unfolding utf8
boom-IsEncodable = (
  omega arith,
  omega arith,
  omega arith,
  (omega arith, tt),
  (omega arith, tt),
  (omega arith, (omega arith, tt)),
)

fingerprint_bytes-injective_example :
    (automatic ≡ automatic)
    × (exit_code 1 ≡ exit_code 1)
    × (boom_fingerprint.schema ≡ 5)
    × (boom_fingerprint.oracle_spec_digest ≡ true)
    × (boom_fingerprint.anchors ≡ boom_fingerprint.anchors)
    × (boom_fingerprint.failure_patterns ≡ [])
    × (boom_fingerprint.reject_patterns ≡ pattern_a ∷ [])
fingerprint_bytes-injective_example =
    fingerprint_bytes-injective two_digests boom_fingerprint boom_fingerprint two_digests_sized
      two_digests-injective boom-IsEncodable boom-IsEncodable refl

-- A run that exits with 0 and whose streams are cut off, under an oracle that reads the exit code.
abbrev cut_off_run : ExecutionObservation
cut_off_run = record sample_run { streams_truncated = true; termination = exit_code 0 }

abbrev zero_oracle : FailureOracle Bytes
zero_oracle = record boom_oracle { spec = record boom_spec { mode = exit_zero } }

cut_off_run-preserved : classify sample_library (λ p t. false) zero_oracle cut_off_run ≡ preserved
unfolding classify
cut_off_run-preserved = refl
