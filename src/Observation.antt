-- ===== src/Observation.antt =====
-- crates/reprocut-core/src/model.rs: what the runner observed of one execution. An i32 is its bit
-- pattern, below 2 ^ 32.
use reprocut.Prelude.{ℕ, ◌≡◌, ◌==◌, Bool, true, false, if◌then◌else◌, Option, none, some, refl, ◌↔◌}
use reprocut.Transformation.{Bytes}
mod Tests

pub data TerminationReason : Type 0 where
  exit_code unix_signal : (value : ℕ) → TerminationReason
  timed_out runner_failure : TerminationReason

-- The derived equality.
abbrev pub same_termination : TerminationReason → TerminationReason → Bool
same_termination (exit_code a) (exit_code b) = a == b
same_termination (unix_signal a) (unix_signal b) = a == b
same_termination timed_out timed_out = true
same_termination runner_failure runner_failure = true
same_termination _ _ = false

abbrev pub from_legacy : Option ℕ → Option ℕ → Bool → TerminationReason
from_legacy exit signal true = timed_out
from_legacy exit (some value) false = unix_signal value
from_legacy (some code) none false = exit_code code
from_legacy none none false = runner_failure

pub data ContainmentMechanism : Type 0 where
  direct_child posix_process_group windows_job_object : ContainmentMechanism

pub record ExecutionObservation : Type 0 where
  pub exit : Option ℕ
  pub signal : Option ℕ
  pub stdout : Bytes
  pub stderr : Bytes
  pub expired : Bool
  pub streams_truncated : Bool
  pub termination : TerminationReason
  pub containment : ContainmentMechanism

-- `ExecutionObservation::new`
unfoldable pub new_observation :
    Option ℕ → Option ℕ → Bytes → Bytes → Bool → Bool → ExecutionObservation
new_observation exit signal stdout stderr expired streams_truncated = record {
  exit = exit;
  signal = signal;
  stdout = stdout;
  stderr = stderr;
  expired = expired;
  streams_truncated = streams_truncated;
  termination = from_legacy exit signal expired;
  containment = direct_child;
}

abbrev pub exit_of : TerminationReason → Option ℕ
exit_of (exit_code code) = some code
exit_of _ = none

abbrev pub signal_of : TerminationReason → Option ℕ
signal_of (unix_signal value) = some value
signal_of _ = none

abbrev pub expired_of : TerminationReason → Bool
expired_of timed_out = true
expired_of _ = false

-- `ExecutionObservation::new_contained`
unfoldable pub new_contained :
    TerminationReason → Bytes → Bytes → Bool → ContainmentMechanism → ExecutionObservation
new_contained termination stdout stderr streams_truncated containment = record {
  exit = exit_of termination;
  signal = signal_of termination;
  stdout = stdout;
  stderr = stderr;
  expired = expired_of termination;
  streams_truncated = streams_truncated;
  termination = termination;
  containment = containment;
}

-- The flag and the reason agree on whether the deadline passed.
abbrev pub IsCoherent : ExecutionObservation → Type 0
IsCoherent o = o.expired ≡ expired_of o.termination

from_legacy-expired_of :
    (exit signal : Option ℕ) (expired : Bool)
    → expired ≡ expired_of (from_legacy exit signal expired)
from_legacy-expired_of exit signal true = refl
from_legacy-expired_of exit (some value) false = refl
from_legacy-expired_of (some code) none false = refl
from_legacy-expired_of none none false = refl

-- Both constructors of an observation build coherent ones.
pub new_observation-IsCoherent :
    (exit signal : Option ℕ) (stdout stderr : Bytes) (expired truncated : Bool)
    → IsCoherent (new_observation exit signal stdout stderr expired truncated)
unfolding new_observation
new_observation-IsCoherent exit signal stdout stderr expired truncated =
    from_legacy-expired_of exit signal expired

pub new_contained-IsCoherent :
    (termination : TerminationReason) (stdout stderr : Bytes) (truncated : Bool)
    (containment : ContainmentMechanism)
    → IsCoherent (new_contained termination stdout stderr truncated containment)
unfolding new_contained
new_contained-IsCoherent termination stdout stderr truncated containment = refl
