-- ===== src/Oracle.antt =====
-- crates/reprocut-core/src/oracle.rs: the specification of an oracle, validated and brought into a
-- canonical form. Patterns are their UTF-8 bytes. Whether a pattern compiles is the answer of the
-- regular-expression library, `compiles`; `digest_of` is `ContentDigest::of`.
use reprocut.Prelude.{ℕ, ◌^◌, ◌≡◌, Bool, true, false, not, ◌&&◌, ◌||◌, ltb, if◌then◌else◌}
use reprocut.Prelude.{List, [], ◌∷◌, ◌++◌, length, min}
use reprocut.Prelude.Words.{u64_max}
use Prim.Native.Nat.{compare}
use reprocut.Prelude.Orders.{compare_list}
use reprocut.Prelude.Sorting.{sort_by, dedup}
use reprocut.Model.{OracleMode, DiagnosticChannel}
use reprocut.Transformation.{Bytes, to_le_bytes}
pub mod Spec
pub mod Fingerprint
pub mod Utf8
pub mod Prefixes
pub mod Identity
pub mod Baselines
pub mod Classify
pub mod Kept
pub mod Accepted
pub mod Basis
pub mod Facts
pub mod Verdict
pub mod Undecided
mod Tests

abbrev pub max_patterns : ℕ
max_patterns = 16

abbrev pub max_pattern_bytes : ℕ
max_pattern_bytes = 4096

pub data OracleError : Type 0 where
  too_few_baselines incomplete_baseline unstable_exit_state unstable_diagnostic : OracleError
  empty_anchor invalid_configuration invalid_pattern pattern_too_long : OracleError
  too_many_patterns baseline_pattern_mismatch baseline_unexpected_reject : OracleError
  exit_zero_baseline_required : OracleError

pub record OracleSpec (D : Type 0) : Type 0 where
  pub mode : OracleMode
  pub channel : DiagnosticChannel
  pub failure_patterns : List Bytes
  pub reject_patterns : List Bytes
  pub digest : D

pub data SpecResult (D : Type 0) : Type 0 where
  accepted : OracleSpec D → SpecResult D
  refused : OracleError → SpecResult D

-- `.iter().any(..)`
unfoldable pub any : {A : Type 0} → (A → Bool) → List A → Bool
any test [] = false
any test (x ∷ xs) = test x || any test xs

abbrev pub is_empty : List Bytes → Bool
is_empty [] = true
is_empty (x ∷ xs) = false

-- Whether the `match` on the mode returns the error.
abbrev pub misfits : OracleMode → List Bytes → List Bytes → Bool
misfits OracleMode.automatic failure reject = not (is_empty failure)
misfits OracleMode.regex failure reject = is_empty failure
misfits OracleMode.exit_zero failure reject = not (is_empty failure) || not (is_empty reject)

abbrev pub mode_tag : OracleMode → ℕ
mode_tag OracleMode.automatic = 0
mode_tag OracleMode.regex = 1
mode_tag OracleMode.exit_zero = 2

abbrev pub channel_tag : DiagnosticChannel → ℕ
channel_tag DiagnosticChannel.auto = 0
channel_tag DiagnosticChannel.stderr = 1
channel_tag DiagnosticChannel.stdout = 2
channel_tag DiagnosticChannel.combined = 3

-- The length as u64, or `u64::MAX` when it does not fit, in eight bytes.
abbrev pub encode_count : ℕ → Bytes
encode_count n = to_le_bytes 8 (min n u64_max)

unfoldable pub encode_pattern_list : List Bytes → Bytes
encode_pattern_list [] = []
encode_pattern_list (pattern ∷ rest) =
    encode_count (length pattern) ++ pattern ++ encode_pattern_list rest

abbrev pub encode_patterns : List Bytes → Bytes
encode_patterns patterns = encode_count (length patterns) ++ encode_pattern_list patterns

-- `b"REPROCUT-ORACLE-SPEC-V2\0"`
abbrev pub spec_header : Bytes
spec_header =
    82 ∷ 69 ∷ 80 ∷ 82 ∷ 79 ∷ 67 ∷ 85 ∷ 84 ∷ 45 ∷ 79 ∷ 82 ∷ 65 ∷ 67 ∷ 76 ∷ 69 ∷ 45 ∷ 83 ∷ 80 ∷ 69
    ∷ 67 ∷ 45 ∷ 86 ∷ 50 ∷ 0 ∷ []

-- `sort_unstable` and `dedup`, of strings.
abbrev pub canonical_patterns : List Bytes → List Bytes
canonical_patterns patterns = dedup (compare_list compare) (sort_by (compare_list compare) patterns)

module _ {D : Type 0} (digest_of : Bytes → D) where
  abbrev pub spec_digest : OracleMode → DiagnosticChannel → List Bytes → List Bytes → D
  spec_digest mode channel required reject = digest_of (
      spec_header
      ++ (mode_tag mode ∷ channel_tag channel ∷ [])
      ++ encode_patterns required
      ++ encode_patterns reject)

  -- `OracleSpec::new`
  unfoldable pub new_spec :
      (Bytes → Bool) → OracleMode → DiagnosticChannel → List Bytes → List Bytes → SpecResult D
  new_spec compiles mode channel failure reject =
      if ltb max_patterns (length failure) || ltb max_patterns (length reject)
      then refused too_many_patterns
      else if any (λ pattern. ltb max_pattern_bytes (length pattern)) (failure ++ reject)
      then refused pattern_too_long
      else if misfits mode failure reject
      then refused invalid_configuration
      else if any (λ pattern. not (compiles pattern)) (failure ++ reject)
      then refused invalid_pattern
      else accepted (record {
        mode = mode;
        channel = channel;
        failure_patterns = canonical_patterns failure;
        reject_patterns = canonical_patterns reject;
        digest = spec_digest mode channel (canonical_patterns failure) (canonical_patterns reject);
      })
