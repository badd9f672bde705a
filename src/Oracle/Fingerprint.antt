-- ===== src/Oracle/Fingerprint.antt =====
-- crates/reprocut-core/src/model.rs: `FailureFingerprint`, the identity of a failure, and the bytes
-- that its digest is of. An anchor's text is written in UTF-8.
use reprocut.Prelude.{
  ℕ, false, ◌+◌, ◌/◌, ◌%◌, ltb, if◌then◌else◌, Option, none, some, List, [], ◌∷◌, ◌++◌, length,
}
use reprocut.Prelude.Texts.{codes}
use reprocut.Model.{OracleMode, DiagnosticChannel}
use reprocut.Observation.{TerminationReason, exit_code, unix_signal, timed_out, runner_failure}
use reprocut.Observation.{exit_of, signal_of, from_legacy}
use reprocut.Transformation.{Bytes, to_le_bytes}
use reprocut.Diagnostic.Texts.{Text}
use reprocut.Diagnostic.Select.{DiagnosticAnchor}
use reprocut.Oracle.{mode_tag, channel_tag, encode_count}

-- `NORMALIZATION_SCHEMA` of crates/reprocut-core/src/schema.rs
abbrev pub normalization_schema : ℕ
normalization_schema = 5

pub record FailureFingerprint (D : Type 0) : Type 0 where
  pub mode : OracleMode
  pub exit : Option ℕ
  pub signal : Option ℕ
  pub termination : TerminationReason
  pub anchor : Text
  pub anchors : List DiagnosticAnchor
  pub failure_patterns : List Bytes
  pub reject_patterns : List Bytes
  pub schema : ℕ
  pub oracle_spec_digest : D

-- `.unwrap_or(TerminationReason::RunnerFailure)`
abbrev pub or_runner_failure : Option TerminationReason → TerminationReason
or_runner_failure (some termination) = termination
or_runner_failure none = runner_failure

-- `.first().map(text).unwrap_or_default()`
abbrev pub first_text : List DiagnosticAnchor → Text
first_text [] = []
first_text (anchor ∷ rest) = anchor.text

-- `FailureFingerprint::from_oracle`
abbrev pub from_oracle :
    {D : Type 0}
    → OracleMode
    → Option TerminationReason
    → List DiagnosticAnchor
    → List Bytes
    → List Bytes
    → D
    → FailureFingerprint D
from_oracle mode termination anchors failure reject digest = record {
  mode = mode;
  exit = exit_of (or_runner_failure termination);
  signal = signal_of (or_runner_failure termination);
  termination = or_runner_failure termination;
  anchor = first_text anchors;
  anchors = anchors;
  failure_patterns = failure;
  reject_patterns = reject;
  schema = normalization_schema;
  oracle_spec_digest = digest;
}

-- `FailureFingerprint::new`
abbrev pub new_fingerprint :
    {D : Type 0} → (Bytes → D) → Option ℕ → Option ℕ → Text → FailureFingerprint D
new_fingerprint digest_of exit signal anchor = record {
  mode = OracleMode.automatic;
  exit = exit;
  signal = signal;
  termination = from_legacy exit signal false;
  anchor = anchor;
  anchors = record { channel = DiagnosticChannel.stderr; text = anchor } ∷ [];
  failure_patterns = [];
  reject_patterns = [];
  schema = normalization_schema;
  oracle_spec_digest = digest_of (codes "REPROCUT-LEGACY-AUTOMATIC-SPEC\0");
}

-- A character in UTF-8.
abbrev pub utf8_char : ℕ → Bytes
utf8_char c =
    if ltb c 128
    then c ∷ []
    else if ltb c 2048
    then (192 + c / 64) ∷ (128 + c % 64) ∷ []
    else if ltb c 65536
    then (224 + c / 4096) ∷ (128 + (c / 64) % 64) ∷ (128 + c % 64) ∷ []
    else (240 + c / 262144) ∷ (128 + (c / 4096) % 64) ∷ (128 + (c / 64) % 64) ∷ (128 + c % 64) ∷ []

-- `str::as_bytes`
unfoldable pub utf8 : Text → Bytes
utf8 [] = []
utf8 (c ∷ rest) = utf8_char c ++ utf8 rest

abbrev pub encode_termination : TerminationReason → Bytes
encode_termination (exit_code code) = 0 ∷ to_le_bytes 4 code
encode_termination (unix_signal signal) = 1 ∷ to_le_bytes 4 signal
encode_termination timed_out = 2 ∷ []
encode_termination runner_failure = 3 ∷ []

abbrev pub encode_text : Bytes → Bytes
encode_text value = encode_count (length value) ++ value

unfoldable pub encode_texts : List Bytes → Bytes
encode_texts [] = []
encode_texts (value ∷ rest) = encode_text value ++ encode_texts rest

abbrev pub encode_strings : List Bytes → Bytes
encode_strings values = encode_count (length values) ++ encode_texts values

unfoldable pub encode_anchors : List DiagnosticAnchor → Bytes
encode_anchors [] = []
encode_anchors (anchor ∷ rest) =
    channel_tag anchor.channel ∷ (encode_text (utf8 anchor.text) ++ encode_anchors rest)

-- `b"REPROCUT-FINGERPRINT-V2\0"`
abbrev pub fingerprint_header : Bytes
fingerprint_header = codes "REPROCUT-FINGERPRINT-V2\0"

module _ {D : Type 0} (as_bytes : D → Bytes) where
  -- What `FailureFingerprint::digest` is the digest of.
  unfoldable pub fingerprint_bytes : FailureFingerprint D → Bytes
  fingerprint_bytes fingerprint =
      fingerprint_header
      ++ (mode_tag fingerprint.mode
          ∷ (encode_termination fingerprint.termination
              ++ (to_le_bytes 2 fingerprint.schema
                  ++ (as_bytes fingerprint.oracle_spec_digest
                      ++ (encode_count (length fingerprint.anchors)
                          ++ (encode_anchors fingerprint.anchors
                              ++ (encode_strings fingerprint.failure_patterns
                                  ++ encode_strings fingerprint.reject_patterns)))))))
