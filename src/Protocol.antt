-- ===== src/Protocol.antt =====
-- crates/reprocut-core/src/protocol.rs: the check of a machine request before it is run. Texts and
-- paths are their bytes. `compiles` and `digest_of` are those of the oracle's specification.
use reprocut.Prelude.{ℕ, ◌≡◌, Bool, true, false, not, ◌&&◌, ◌||◌, ◌==◌, if◌then◌else◌}
use reprocut.Prelude.{Option, none, some, List, [], ◌∷◌}
use reprocut.Model.{OracleMode, DiagnosticChannel}
use reprocut.Transformation.{Bytes, same_path}
use reprocut.Oracle.{SpecResult, accepted, refused, new_spec}
pub mod Names
pub mod Valid
mod Tests

abbrev pub protocol_version : ℕ
protocol_version = 1

pub data ProtocolAction : Type 0 where
  minimize resume : ProtocolAction

pub record ReductionRequest : Type 0 where
  pub version : ℕ
  pub action : ProtocolAction
  pub root : Bytes
  pub output : Bytes
  pub ecosystem : Bytes
  pub preparation : Bytes
  pub command : List Bytes
  pub timeout_ms : ℕ
  pub max_output_bytes : ℕ
  pub oracle_stream : Bytes
  pub oracle_mode : Bytes
  pub failure_patterns : List Bytes
  pub reject_patterns : List Bytes
  pub python_executable : Option Bytes
  pub python_wheelhouse : Option Bytes
  pub python_extras : List Bytes
  pub prepare_spec : Option Bytes
  pub flaky_runs : Option ℕ
  pub flaky_required : Option ℕ
  pub jobs : ℕ
  pub state : Option Bytes
  pub restart : Bool

-- Why a configuration is invalid: the four messages of the source.
pub data Complaint : Type 0 where
  oracle_mode_complaint oracle_stream_complaint oracle_complaint isolation_complaint : Complaint

pub data ProtocolError : Type 0 where
  unsupported_version : (found supported : ℕ) → ProtocolError
  resume_restart_conflict : ProtocolError
  invalid_configuration : Complaint → ProtocolError

pub data Validation : Type 0 where
  valid : Validation
  invalid : ProtocolError → Validation

abbrev pub mode_name : OracleMode → Bytes
mode_name OracleMode.automatic = 97 ∷ 117 ∷ 116 ∷ 111 ∷ 109 ∷ 97 ∷ 116 ∷ 105 ∷ 99 ∷ []
mode_name OracleMode.regex = 114 ∷ 101 ∷ 103 ∷ 101 ∷ 120 ∷ []
mode_name OracleMode.exit_zero = 101 ∷ 120 ∷ 105 ∷ 116 ∷ 95 ∷ 122 ∷ 101 ∷ 114 ∷ 111 ∷ []

abbrev pub channel_name : DiagnosticChannel → Bytes
channel_name DiagnosticChannel.auto = 97 ∷ 117 ∷ 116 ∷ 111 ∷ []
channel_name DiagnosticChannel.stderr = 115 ∷ 116 ∷ 100 ∷ 101 ∷ 114 ∷ 114 ∷ []
channel_name DiagnosticChannel.stdout = 115 ∷ 116 ∷ 100 ∷ 111 ∷ 117 ∷ 116 ∷ []
channel_name DiagnosticChannel.combined = 99 ∷ 111 ∷ 109 ∷ 98 ∷ 105 ∷ 110 ∷ 101 ∷ 100 ∷ []

-- `"isolated_python"`
abbrev pub isolated_python : Bytes
isolated_python =
    105 ∷ 115 ∷ 111 ∷ 108 ∷ 97 ∷ 116 ∷ 101 ∷ 100 ∷ 95 ∷ 112 ∷ 121 ∷ 116 ∷ 104 ∷ 111 ∷ 110 ∷ []

-- The `match` on the text of the mode.
unfoldable pub parse_mode : Bytes → Option OracleMode
parse_mode text =
    if same_path text (mode_name OracleMode.automatic)
    then some OracleMode.automatic
    else if same_path text (mode_name OracleMode.regex)
    then some OracleMode.regex
    else if same_path text (mode_name OracleMode.exit_zero)
    then some OracleMode.exit_zero
    else none

-- The `match` on the text of the stream.
unfoldable pub parse_channel : Bytes → Option DiagnosticChannel
parse_channel text =
    if same_path text (channel_name DiagnosticChannel.auto)
    then some DiagnosticChannel.auto
    else if same_path text (channel_name DiagnosticChannel.stderr)
    then some DiagnosticChannel.stderr
    else if same_path text (channel_name DiagnosticChannel.stdout)
    then some DiagnosticChannel.stdout
    else if same_path text (channel_name DiagnosticChannel.combined)
    then some DiagnosticChannel.combined
    else none

abbrev pub is_resume : ProtocolAction → Bool
is_resume minimize = false
is_resume resume = true

abbrev pub is_given : Option Bytes → Bool
is_given none = false
is_given (some x) = true

abbrev pub has_items : List Bytes → Bool
has_items [] = false
has_items (x ∷ xs) = true

abbrev pub isolation_selected : ReductionRequest → Bool
isolation_selected r = same_path r.preparation isolated_python

abbrev pub isolation_complete : ReductionRequest → Bool
isolation_complete r = is_given r.python_executable && is_given r.python_wheelhouse

abbrev pub isolation_fields_present : ReductionRequest → Bool
isolation_fields_present r =
    is_given r.python_executable
    || (is_given r.python_wheelhouse || (has_items r.python_extras || is_given r.prepare_spec))

-- `!=` on booleans.
abbrev pub differs : Bool → Bool → Bool
differs true b = not b
differs false b = b

-- The checks of the isolation fields.
abbrev pub check_isolation : ReductionRequest → Validation
check_isolation r =
    if differs (isolation_selected r) (isolation_complete r)
      || (not (isolation_selected r) && isolation_fields_present r)
    then invalid (invalid_configuration isolation_complaint)
    else valid

module _ {D : Type 0} (digest_of : Bytes → D) (compiles : Bytes → Bool) where
  abbrev pub after_spec : SpecResult D → ReductionRequest → Validation
  after_spec (accepted spec) r = check_isolation r
  after_spec (refused e) r = invalid (invalid_configuration oracle_complaint)

  abbrev pub after_channel : OracleMode → Option DiagnosticChannel → ReductionRequest → Validation
  after_channel mode none r = invalid (invalid_configuration oracle_stream_complaint)
  after_channel mode (some channel) r =
      after_spec (new_spec digest_of compiles mode channel r.failure_patterns r.reject_patterns) r

  abbrev pub after_mode : Option OracleMode → ReductionRequest → Validation
  after_mode none r = invalid (invalid_configuration oracle_mode_complaint)
  after_mode (some mode) r = after_channel mode (parse_channel r.oracle_stream) r

  -- `ReductionRequestV1::validate`
  unfoldable pub validate : ReductionRequest → Validation
  validate r =
      if not (r.version == protocol_version)
      then invalid (unsupported_version r.version protocol_version)
      else if is_resume r.action && r.restart
      then invalid resume_restart_conflict
      else after_mode (parse_mode r.oracle_mode) r
