-- ===== src/Observation/Tests.antt =====
-- Observations of an exit and of a passed deadline.
use reprocut.Prelude.{◌≡◌, refl, true, false, some, none}
use reprocut.Observation.{from_legacy, timed_out, unix_signal, runner_failure}

deadline_first : from_legacy (some 0) (some 9) true ≡ timed_out
deadline_first = refl

signal_before_code : from_legacy (some 0) (some 9) false ≡ unix_signal 9
signal_before_code = refl

nothing_known : from_legacy none none false ≡ runner_failure
nothing_known = refl
