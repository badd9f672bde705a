-- ===== src/Diagnostic/Sample.antt =====
-- A library and observations for the tests. Of the patterns only the one of the messages matches, and
-- it matches every text.
use reprocut.Prelude.{ℕ, Bool, false, ◌&&◌, leb, ◌==◌, none, some, []}
use reprocut.Observation.{ExecutionObservation, exit_code, direct_child}
use reprocut.Prelude.Texts.{codes}
use reprocut.Diagnostic.Texts.{Library, same_text}
use reprocut.Diagnostic.Constants.{message_words}

abbrev is_letter : ℕ → Bool
is_letter c = leb 97 c && leb c 122

abbrev pub sample_library : Library
sample_library = record {
  is_match = λ pattern text. same_text pattern message_words;
  captures = λ pattern text. [];
  expand = λ template found. [];
  from_utf8_lossy = λ bytes. bytes;
  is_alphabetic = is_letter;
  is_alphanumeric = is_letter;
  is_whitespace = λ c. c == 32;
}

-- Runs that exit with 1 and write `boom` to the standard error, the second with a line before it.
abbrev pub sample_run : ExecutionObservation
sample_run = record {
  exit = some 1;
  signal = none;
  stdout = [];
  stderr = codes "boom";
  expired = false;
  streams_truncated = false;
  termination = exit_code 1;
  containment = direct_child;
}

abbrev pub other_run : ExecutionObservation
other_run = record {
  exit = some 1;
  signal = none;
  stdout = [];
  stderr = codes "ok\nboom";
  expired = false;
  streams_truncated = false;
  termination = exit_code 1;
  containment = direct_child;
}
