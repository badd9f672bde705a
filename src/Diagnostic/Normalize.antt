-- ===== src/Diagnostic/Normalize.antt =====
-- `normalize_diagnostic`: addresses, times, identifiers and locations become placeholders, in a fixed
-- order, and blank lines go. The slices stop at the end of the text; `Slices` has them with their
-- panics.
use reprocut.Prelude.{ℕ, ◌-◌, Bool, true, false, not, ◌&&◌, ◌||◌, ◌==◌, if◌then◌else◌}
use reprocut.Prelude.{Option, none, some, List, [], ◌∷◌, ◌++◌, take}
use reprocut.Prelude.Texts.{codes}
use reprocut.Transformation.{Bytes}
use reprocut.Diagnostic.Texts.{Text, Match, Library, drop, same_text, member, is_blank, any_char}
use reprocut.Diagnostic.Texts.{
  to_ascii_lowercase, replace_crlf, replace_cr, lines, trim_end, join_lines,
}
use reprocut.Diagnostic.Texts.{starts_with, ends_with, last_part, first_part}
use reprocut.Diagnostic.Constants.{
  uuid, timestamp, uuid_field, timestamp_field, log_level, unix_temp, windows_temp, address,
  process_id, loopback_port, named_port, telemetry_duration, path_location, named_location,
  horizontal_space,
}
use reprocut.Diagnostic.Lines.{trim}

-- `&input[from..to]`
abbrev pub slice : ℕ → ℕ → Text → Text
slice from to input = take (to - from) (drop from input)

-- The loop of a replacement: the text between the matches, and for each match what becomes of it.
unfoldable pub replace_matches : (Match → Text) → Text → ℕ → List Match → Text
replace_matches replace input copied_until [] = drop copied_until input
replace_matches replace input copied_until (matched ∷ rest) =
    slice copied_until matched.start input
    ++ (replace matched ++ replace_matches replace input matched.stop rest)

unfoldable pub current_line_prefix : Text → ℕ → Text
current_line_prefix input start = last_part (λ c. c == 10) [] (take start input)

abbrev pub last_char : Text → Option ℕ
last_char [] = none
last_char (c ∷ []) = some c
last_char (c ∷ d ∷ rest) = last_char (d ∷ rest)

abbrev pub first_char : Text → Option ℕ
first_char [] = none
first_char (c ∷ rest) = some c

abbrev pub is_none_or : (ℕ → Bool) → Option ℕ → Bool
is_none_or test none = true
is_none_or test (some c) = test c

unfoldable pub has_compiler_source_context : Text → Bool
has_compiler_source_context prefix =
    ends_with (codes "-->")
      (trim_end (λ c. (c == 32) || (c == 9)) (last_part (λ c. c == 10) [] prefix))

unfoldable pub has_url_source_context : Text → Bool
has_url_source_context prefix =
    let line = last_part (λ c. c == 10) [] prefix in
    ends_with (codes "http:") line || ends_with (codes "https:") line

abbrev pub is_separator : ℕ → Bool
is_separator c = (c == 47) || (c == 92)

abbrev pub source_extensions : List Text
source_extensions =
    codes "bash"
    ∷ codes "c"
    ∷ codes "cc"
    ∷ codes "cjs"
    ∷ codes "cpp"
    ∷ codes "cs"
    ∷ codes "cts"
    ∷ codes "cxx"
    ∷ codes "fish"
    ∷ codes "go"
    ∷ codes "h"
    ∷ codes "hh"
    ∷ codes "hpp"
    ∷ codes "hxx"
    ∷ codes "java"
    ∷ codes "js"
    ∷ codes "jsx"
    ∷ codes "kt"
    ∷ codes "kts"
    ∷ codes "mjs"
    ∷ codes "mts"
    ∷ codes "php"
    ∷ codes "py"
    ∷ codes "pyi"
    ∷ codes "rb"
    ∷ codes "rs"
    ∷ codes "scala"
    ∷ codes "sh"
    ∷ codes "swift"
    ∷ codes "ts"
    ∷ codes "tsx"
    ∷ codes "zsh"
    ∷ []

abbrev pub data_extensions : List Text
data_extensions = codes "json" ∷ codes "toml" ∷ codes "yaml" ∷ codes "yml" ∷ []

abbrev pub extensionless_source_files : List Text
extensionless_source_files =
    codes "BUILD" ∷ codes "Dockerfile" ∷ codes "Makefile" ∷ codes "WORKSPACE" ∷ []

abbrev pub source_tree_roots : List Text
source_tree_roots =
    codes "app"
    ∷ codes "apps"
    ∷ codes "benches"
    ∷ codes "crates"
    ∷ codes "examples"
    ∷ codes "lib"
    ∷ codes "packages"
    ∷ codes "src"
    ∷ codes "test"
    ∷ codes "tests"
    ∷ []

-- `strip_prefix("./").or_else(strip_prefix(".\\")).unwrap_or(token)`
abbrev pub relative_part : Text → Text
relative_part token =
    if starts_with (codes "./") token || starts_with (codes ".\\") token
    then drop 2 token
    else token

unfoldable pub has_source_tree_root : Text → Bool
has_source_tree_root token =
    let relative = relative_part token in
    if starts_with (codes "/") relative || starts_with (codes "\\") relative
    then false
    else member (first_part is_separator relative) source_tree_roots

-- `rsplit_once('.')`, of which the second part.
abbrev pub extension_of : Text → Option Text
extension_of token =
    if any_char (λ c. c == 46) token then some (last_part (λ c. c == 46) [] token) else none

-- `is_some_and` of an extension that is known but for the case.
abbrev pub has_extension : List Text → Option Text → Bool
has_extension known none = false
has_extension known (some extension) = member (to_ascii_lowercase extension) known

unfoldable pub is_source_location_token : Text → Bool → Bool → Bool
is_source_location_token token compiler_context url_context =
    if url_context || (not compiler_context && starts_with (codes "/") token)
    then false
    else if has_extension data_extensions (extension_of token)
    then compiler_context
    else same_text token (codes "<temp>")
      || (compiler_context
          || (has_source_tree_root token
              || (member (last_part is_separator [] token) extensionless_source_files
                  || has_extension source_extensions (extension_of token))))

module _ (lib : Library) where
  open lib use {is_match, captures, expand, is_alphanumeric, from_utf8_lossy}

  -- `replace_all` with a template.
  abbrev pub replace_all : Text → Text → Text → Text
  replace_all pattern template input =
      replace_matches (expand template) input 0 (captures pattern input)

  abbrev pub is_lexical_character : ℕ → Bool
  is_lexical_character c = is_alphanumeric c || (c == 95)

  unfoldable pub has_lexical_boundaries : Text → ℕ → ℕ → Bool
  has_lexical_boundaries input start stop =
      is_none_or (λ c. not (is_lexical_character c)) (last_char (take start input))
      && is_none_or (λ c. not (is_lexical_character c)) (first_char (drop stop input))

  unfoldable pub replace_lexically_bounded : Text → Text → Text → Text
  replace_lexically_bounded pattern input template =
      replace_matches
        (λ (matched : Match).
          if has_lexical_boundaries input matched.start matched.stop
          then expand template matched
          else slice matched.start matched.stop input)
        input 0 (captures pattern input)

  unfoldable pub replace_contextual_matches : Text → Text → Text → (Text → ℕ → ℕ → Bool) → Text
  replace_contextual_matches pattern input replacement predicate =
      replace_matches
        (λ (matched : Match).
          if predicate input matched.start matched.stop
          then replacement
          else slice matched.start matched.stop input)
        input 0 (captures pattern input)

  unfoldable pub is_log_envelope_timestamp : Text → ℕ → ℕ → Bool
  is_log_envelope_timestamp input start stop =
      if any_char (λ c. not ((c == 32) || ((c == 9) || (c == 91))))
        (current_line_prefix input start)
      then false
      else is_match log_level (first_part (λ c. c == 10) (drop stop input))

  -- The closure of the path locations.
  unfoldable pub replace_location : Text → Match → Text
  replace_location text matched =
      let prefix = take matched.start text in
      if is_source_location_token matched.token (has_compiler_source_context prefix)
        (has_url_source_context prefix)
      then matched.token ++ codes ":<location>"
      else slice matched.start matched.stop text

  -- The lines of the result.
  unfoldable pub kept_lines : List Text → List Text
  kept_lines [] = []
  kept_lines (line ∷ rest) =
      let line' = replace_all horizontal_space (codes " ") (trim lib line) in
      let later = kept_lines rest in if is_blank line' then later else line' ∷ later

  -- The replacements that need the context of a match.
  unfoldable pub replace_identities : Text → Text
  replace_identities text =
      let dated =
        replace_contextual_matches uuid text (codes "<uuid>")
          (λ input start _. is_match uuid_field (current_line_prefix input start)) in
      replace_contextual_matches timestamp dated (codes "<timestamp>") (λ input start stop.
        is_match timestamp_field (current_line_prefix input start)
        || is_log_envelope_timestamp input start stop)

  unfoldable pub replace_resources : Text → Text
  replace_resources text =
      let windows = replace_all windows_temp (codes "<temp>") text in
      let unix = replace_all unix_temp (codes "<temp>") windows in
      let addresses = replace_all address (codes "address <address>") unix in
      let processes = replace_lexically_bounded process_id addresses (codes "$1 <id>") in
      let loopback = replace_all loopback_port (codes "$1:<port>") processes in
      let ports = replace_lexically_bounded named_port loopback (codes "port <port>") in
      replace_lexically_bounded telemetry_duration ports (codes "$1$2<duration>")

  unfoldable pub replace_locations : Text → Text
  replace_locations text =
      let paths = replace_matches (replace_location text) text 0 (captures path_location text) in
      replace_lexically_bounded named_location paths (codes "$1 <location>")

  unfoldable pub normalize_diagnostic : Text → Text
  normalize_diagnostic input = join_lines (
      kept_lines (
        lines (
          replace_locations
            (replace_resources (replace_identities (replace_cr (replace_crlf input)))))))

  unfoldable pub normalize_bytes : Bytes → Text
  normalize_bytes bytes = normalize_diagnostic (from_utf8_lossy bytes)
