-- ===== src/Diagnostic/Slices.antt =====
-- crates/reprocut-core/src/diagnostic.rs: the slices of the normalisation, each with its panic.
-- `Normalize` has the same functions with slices that stop at the end of the text. A position counts
-- characters, so a slice panics when its bounds are out of order or beyond the end, and never within
-- a character. The texts of the matches themselves are taken by the regular-expression library.
use reprocut.Prelude.{ℕ, Bool, true, false, not, ◌&&◌, ◌||◌, leb, ◌==◌, if◌then◌else◌}
use reprocut.Prelude.{List, [], ◌∷◌, ◌++◌, length, take}
use reprocut.Prelude.Faults.{Outcome, ok, fault, panic, ◌>>=◌}
use reprocut.Prelude.Texts.{codes}
use reprocut.Diagnostic.Texts.{Text, Match, Library, drop, any_char, last_part, first_part}
use reprocut.Diagnostic.Texts.{replace_crlf, replace_cr, lines, join_lines}
use reprocut.Diagnostic.Constants.{
  uuid, timestamp, uuid_field, timestamp_field, log_level, unix_temp, windows_temp, address,
  process_id, loopback_port, named_port, telemetry_duration, path_location, named_location,
}
use reprocut.Diagnostic.Normalize.{
  slice, is_none_or, last_char, first_char, has_compiler_source_context, has_url_source_context,
  is_source_location_token, is_lexical_character, replace_all, kept_lines,
}

-- `&input[from..to]`, `&input[..to]` and `&input[from..]`
unfoldable pub checked_slice : ℕ → ℕ → Text → Outcome Text
checked_slice from to input =
    if leb from to && leb to (length input) then ok (slice from to input) else fault panic

unfoldable pub checked_prefix : Text → ℕ → Outcome Text
checked_prefix input to = if leb to (length input) then ok (take to input) else fault panic

unfoldable pub checked_suffix : Text → ℕ → Outcome Text
checked_suffix input from = if leb from (length input) then ok (drop from input) else fault panic

-- The loop over the matches.
unfoldable pub checked_matches : (Match → Outcome Text) → Text → ℕ → List Match → Outcome Text
checked_matches replace input copied_until [] = checked_suffix input copied_until
checked_matches replace input copied_until (matched ∷ rest) = do
  kept ← checked_slice copied_until matched.start input
  new ← replace matched
  later ← checked_matches replace input matched.stop rest
  ok (kept ++ (new ++ later))

unfoldable pub checked_line_prefix : Text → ℕ → Outcome Text
checked_line_prefix input start = do
  prefix ← checked_prefix input start
  ok (last_part (λ c. c == 10) [] prefix)

module _ (lib : Library) where
  open lib use {is_match, captures, expand}

  unfoldable pub checked_boundaries : Text → ℕ → ℕ → Outcome Bool
  checked_boundaries input start stop = do
    prefix ← checked_prefix input start
    if is_none_or (λ c. not (is_lexical_character lib c)) (last_char prefix)
        then (do
          suffix ← checked_suffix input stop
          ok (is_none_or (λ c. not (is_lexical_character lib c)) (first_char suffix)))
        else ok false

  unfoldable pub checked_lexically_bounded : Text → Text → Text → Outcome Text
  checked_lexically_bounded pattern input template =
      checked_matches
        (λ (matched : Match). do
          bounded ← checked_boundaries input matched.start matched.stop
          ok (if bounded then expand template matched else slice matched.start matched.stop input))
        input 0 (captures pattern input)

  unfoldable pub checked_contextual :
      Text → Text → Text → (Text → ℕ → ℕ → Outcome Bool) → Outcome Text
  checked_contextual pattern input replacement predicate =
      checked_matches
        (λ (matched : Match). do
          replaced ← predicate input matched.start matched.stop
          ok (if replaced then replacement else slice matched.start matched.stop input))
        input 0 (captures pattern input)

  unfoldable pub checked_log_envelope : Text → ℕ → ℕ → Outcome Bool
  checked_log_envelope input start stop = do
    prefix ← checked_line_prefix input start
    if any_char (λ c. not ((c == 32) || ((c == 9) || (c == 91)))) prefix then ok false else (do
      suffix ← checked_suffix input stop
      ok (is_match log_level (first_part (λ c. c == 10) suffix)))

  -- The predicates of the two replacements with a context.
  unfoldable pub checked_uuid_field : Text → ℕ → ℕ → Outcome Bool
  checked_uuid_field input start stop = do
    prefix ← checked_line_prefix input start
    ok (is_match uuid_field prefix)

  unfoldable pub checked_timestamp_field : Text → ℕ → ℕ → Outcome Bool
  checked_timestamp_field input start stop = do
    prefix ← checked_line_prefix input start
    if is_match timestamp_field prefix then ok true else checked_log_envelope input start stop

  unfoldable pub checked_location : Text → Match → Outcome Text
  checked_location text matched = do
    prefix ← checked_prefix text matched.start
    ok (
        if is_source_location_token matched.token (has_compiler_source_context prefix)
          (has_url_source_context prefix)
        then matched.token ++ codes ":<location>"
        else slice matched.start matched.stop text)

  unfoldable pub checked_identities : Text → Outcome Text
  checked_identities text = do
    dated ← checked_contextual uuid text (codes "<uuid>") checked_uuid_field
    checked_contextual timestamp dated (codes "<timestamp>") checked_timestamp_field

  unfoldable pub checked_resources : Text → Outcome Text
  checked_resources text =
      let windows = replace_all lib windows_temp (codes "<temp>") text in
      let unix = replace_all lib unix_temp (codes "<temp>") windows in
      let addresses = replace_all lib address (codes "address <address>") unix in
      checked_lexically_bounded process_id addresses (codes "$1 <id>") >>= λ processes.
      checked_lexically_bounded named_port
        (replace_all lib loopback_port (codes "$1:<port>") processes) (codes "port <port>")
      >>= λ ports. checked_lexically_bounded telemetry_duration ports (codes "$1$2<duration>")

  unfoldable pub checked_locations : Text → Outcome Text
  checked_locations text = do
    paths ← checked_matches (checked_location text) text 0 (captures path_location text)
    checked_lexically_bounded named_location paths (codes "$1 <location>")

  unfoldable pub checked_normalize : Text → Outcome Text
  checked_normalize input = do
    identities ← checked_identities (replace_cr (replace_crlf input))
    resources ← checked_resources identities
    located ← checked_locations resources
    ok (join_lines (kept_lines lib (lines located)))
