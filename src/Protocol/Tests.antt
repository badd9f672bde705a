-- ===== src/Protocol/Tests.antt =====
-- A request for isolated Python that passes, and one that resumes with `restart`.
use reprocut.Prelude.{◌≡◌, refl, ◌↔◌, Bool, true, false, none, some, [], ◌∷◌}
use reprocut.Model.{automatic, auto}
use reprocut.Transformation.{Bytes}
use reprocut.Oracle.{new_spec, any}
use reprocut.Protocol.{
  ReductionRequest, validate, valid, invalid, resume_restart_conflict, minimize,
}
use reprocut.Protocol.{resume, mode_name, channel_name, isolated_python, parse_mode, parse_channel}
use reprocut.Protocol.Valid.{validate_iff, IsRunnable}

abbrev digest_of : Bytes → Bytes
digest_of bytes = bytes

abbrev compiles : Bytes → Bool
compiles pattern = true

abbrev request : ReductionRequest
request = record {
  version = 1;
  action = minimize;
  root = 46 ∷ [];
  output = 111 ∷ [];
  ecosystem = channel_name auto;
  preparation = isolated_python;
  command = [];
  timeout_ms = 5000;
  max_output_bytes = 1048576;
  oracle_stream = channel_name auto;
  oracle_mode = mode_name automatic;
  failure_patterns = [];
  reject_patterns = [];
  python_executable = some (112 ∷ []);
  python_wheelhouse = some (119 ∷ []);
  python_extras = [];
  prepare_spec = none;
  flaky_runs = none;
  flaky_required = none;
  jobs = 0;
  state = none;
  restart = false;
}

request-valid : validate digest_of compiles request ≡ valid
unfolding validate parse_mode parse_channel new_spec any
request-valid = refl

restart_conflict :
    validate digest_of compiles (record request { action = resume; restart = true })
    ≡ invalid resume_restart_conflict
unfolding validate
restart_conflict = refl

validate_iff_example : (validate digest_of compiles request ≡ valid) ↔ IsRunnable compiles request
validate_iff_example = validate_iff digest_of compiles request
