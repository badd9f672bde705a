-- ===== src/Diagnostic/InBounds.antt =====
-- The normalisation of a diagnostic slices within bounds.
use reprocut.Prelude.{ℕ, ◌≤◌, ◌≡◌, refl, inl, inr, arith, Bool, true, not, ◌||◌}
use reprocut.Prelude.{leb, ◌==◌, Bool-cases, List, [], ◌∷◌, length, take}
use reprocut.Prelude.Faults.{Outcome, ok}
use reprocut.Prelude.Texts.{codes}
use reprocut.Diagnostic.Texts.{Text, Match, Library, drop, any_char, replace_crlf, replace_cr}
use reprocut.Diagnostic.Constants.{
  uuid, timestamp, uuid_field, timestamp_field, process_id, named_port, telemetry_duration,
  path_location, named_location,
}
use reprocut.Diagnostic.Normalize.{
  slice, is_none_or, last_char, is_lexical_character, replace_matches, current_line_prefix,
  has_lexical_boundaries, replace_lexically_bounded, replace_contextual_matches,
  is_log_envelope_timestamp, replace_location, replace_identities, replace_resources,
  replace_locations, normalize_diagnostic,
}
use reprocut.Diagnostic.Slices.{
  checked_slice, checked_prefix, checked_suffix, checked_matches, checked_line_prefix,
  checked_boundaries, checked_lexically_bounded, checked_contextual, checked_log_envelope,
  checked_uuid_field, checked_timestamp_field, checked_location, checked_identities,
  checked_resources, checked_locations, checked_normalize,
}

-- What the library documents of the matches that `find_iter` and `captures_iter` give: they stand one
-- behind the other, within the text.
abbrev pub AreMatches : ℕ → Text → List Match → Type 0
AreMatches from input [] = from ≤ length input
AreMatches from input (matched ∷ rest) =
    (from ≤ matched.start) × (matched.start ≤ matched.stop) × AreMatches matched.stop input rest

AreMatches-bound :
    (from : ℕ) (input : Text) (matches : List Match)
    → AreMatches from input matches
    → from ≤ length input
AreMatches-bound from input [] h = h
AreMatches-bound from input (matched ∷ rest) (h, k, hs) =
    omega (arith, AreMatches-bound matched.stop input rest hs)

checked_prefix-ok :
    (input : Text) (to : ℕ) → to ≤ length input → checked_prefix input to ≡ ok (take to input)
unfolding checked_prefix
checked_prefix-ok input to h =
    let inside : leb to (length input) ≡ true = ground arith in rw inside refl

checked_suffix-ok :
    (input : Text) (from : ℕ)
    → from ≤ length input
    → checked_suffix input from ≡ ok (drop from input)
unfolding checked_suffix
checked_suffix-ok input from h =
    let inside : leb from (length input) ≡ true = ground arith in rw inside refl

checked_slice-ok :
    (from to : ℕ) (input : Text)
    → from ≤ to
    → to ≤ length input
    → checked_slice from to input ≡ ok (slice from to input)
unfolding checked_slice
checked_slice-ok from to input h k =
    let ordered : leb from to ≡ true = ground arith in
    let inside : leb to (length input) ≡ true = ground arith in rw (ordered, inside) refl

checked_line_prefix-ok :
    (input : Text) (start : ℕ)
    → start ≤ length input
    → checked_line_prefix input start ≡ ok (current_line_prefix input start)
unfolding checked_line_prefix current_line_prefix
checked_line_prefix-ok input start h = rw (checked_prefix-ok input start h) refl

-- The loop makes what the loop without panics makes, when the replacements of its matches do.
checked_matches-ok :
    (replace : Match → Text) (replace' : Match → Outcome Text) (input : Text) (from : ℕ)
    (matches : List Match)
    → ((matched : Match)
        → matched.start ≤ matched.stop
        → matched.stop ≤ length input
        → replace' matched ≡ ok (replace matched))
    → AreMatches from input matches
    → checked_matches replace' input from matches ≡ ok (replace_matches replace input from matches)
unfolding checked_matches replace_matches
checked_matches-ok replace replace' input from [] each h = checked_suffix-ok input from h
checked_matches-ok replace replace' input from (matched ∷ rest) each (h, k, hs) =
    let stop = AreMatches-bound matched.stop input rest hs in
    rw
      (
        checked_slice-ok from matched.start input h (omega arith),
        each matched k stop,
        checked_matches-ok replace replace' input matched.stop rest each hs,
      )
      refl

module _ (lib : Library) where
  open lib use {is_match, captures, expand}

  checked_boundaries-ok :
      (input : Text) (start stop : ℕ)
      → start ≤ stop
      → stop ≤ length input
      → checked_boundaries lib input start stop ≡ ok (has_lexical_boundaries lib input start stop)
  unfolding checked_boundaries has_lexical_boundaries
  checked_boundaries-ok input start stop h k =
      let before =
        is_none_or (λ c. not (is_lexical_character lib c)) (last_char (take start input)) in
      rw (checked_prefix-ok input start (omega arith)) (elim (Bool-cases before) [
        | inl open_left ↦ rw (open_left, checked_suffix-ok input stop k) refl
        | inr closed ↦ rw closed refl
      ])

  checked_log_envelope-ok :
      (input : Text) (start stop : ℕ)
      → start ≤ stop
      → stop ≤ length input
      → checked_log_envelope lib input start stop
        ≡ ok (is_log_envelope_timestamp lib input start stop)
  unfolding checked_log_envelope is_log_envelope_timestamp
  checked_log_envelope-ok input start stop h k =
      let other =
        any_char (λ c. not ((c == 32) || ((c == 9) || (c == 91))))
          (current_line_prefix input start) in
      rw (checked_line_prefix-ok input start (omega arith)) (elim (Bool-cases other) [
        | inl text ↦ rw text refl
        | inr blank ↦ rw (blank, checked_suffix-ok input stop k) refl
      ])

  checked_timestamp_field-ok :
      (input : Text) (start stop : ℕ)
      → start ≤ stop
      → stop ≤ length input
      → checked_timestamp_field lib input start stop
        ≡ ok (
            is_match timestamp_field (current_line_prefix input start)
            || is_log_envelope_timestamp lib input start stop)
  unfolding checked_timestamp_field
  checked_timestamp_field-ok input start stop h k =
      rw (checked_line_prefix-ok input start (omega arith))
        (elim (Bool-cases (is_match timestamp_field (current_line_prefix input start))) [
          | inl field ↦ rw field refl
          | inr other ↦ rw other (checked_log_envelope-ok input start stop h k)
        ])

  checked_location-ok :
      (input : Text) (matched : Match)
      → matched.start ≤ matched.stop
      → matched.stop ≤ length input
      → checked_location lib input matched ≡ ok (replace_location lib input matched)
  unfolding checked_location replace_location
  checked_location-ok input matched h k =
      rw (checked_prefix-ok input matched.start (omega arith)) refl

  module _ (in_bounds : (pattern input : Text) → AreMatches 0 input (captures pattern input)) where
    checked_lexically_bounded-ok :
        (pattern input template : Text)
        → checked_lexically_bounded lib pattern input template
          ≡ ok (replace_lexically_bounded lib pattern input template)
    unfolding checked_lexically_bounded replace_lexically_bounded
    checked_lexically_bounded-ok pattern input template =
        checked_matches-ok _ _ input 0 (captures pattern input)
          (λ matched h k. rw (checked_boundaries-ok input matched.start matched.stop h k) refl)
          (in_bounds pattern input)

    checked_contextual-ok :
        (pattern input replacement : Text) (predicate : Text → ℕ → ℕ → Bool)
        (predicate' : Text → ℕ → ℕ → Outcome Bool)
        → ((start stop : ℕ)
            → start ≤ stop
            → stop ≤ length input
            → predicate' input start stop ≡ ok (predicate input start stop))
        → checked_contextual lib pattern input replacement predicate'
          ≡ ok (replace_contextual_matches lib pattern input replacement predicate)
    unfolding checked_contextual replace_contextual_matches
    checked_contextual-ok pattern input replacement predicate predicate' each =
        checked_matches-ok _ _ input 0 (captures pattern input)
          (λ matched h k. rw (each matched.start matched.stop h k) refl) (in_bounds pattern input)

    checked_identities-ok :
        (text : Text) → checked_identities lib text ≡ ok (replace_identities lib text)
    unfolding checked_identities replace_identities checked_uuid_field
    checked_identities-ok text =
        let dated =
          checked_contextual-ok uuid text (codes "<uuid>")
            (λ input start _. is_match uuid_field (current_line_prefix input start))
            (checked_uuid_field lib)
            (λ start stop h k. rw (checked_line_prefix-ok text start (omega arith)) refl) in
        rw dated (
          checked_contextual-ok timestamp _ (codes "<timestamp>") _ (checked_timestamp_field lib)
            (λ start stop h k. checked_timestamp_field-ok _ start stop h k))

    checked_resources-ok :
        (text : Text) → checked_resources lib text ≡ ok (replace_resources lib text)
    unfolding checked_resources replace_resources
    checked_resources-ok text =
        rw
          (
            checked_lexically_bounded-ok process_id _ (codes "$1 <id>"),
            checked_lexically_bounded-ok named_port _ (codes "port <port>"),
          )
          (checked_lexically_bounded-ok telemetry_duration _ (codes "$1$2<duration>"))

    checked_locations-ok :
        (text : Text) → checked_locations lib text ≡ ok (replace_locations lib text)
    unfolding checked_locations replace_locations
    checked_locations-ok text =
        let paths =
          checked_matches-ok (replace_location lib text) (checked_location lib text) text 0
            (captures path_location text) (checked_location-ok text)
            (in_bounds path_location text) in
        rw paths (checked_lexically_bounded-ok named_location _ (codes "$1 <location>"))

    -- When the matches that the regular-expression library gives stand one behind the other within
    -- the text, no slice of the normalisation panics, and its result is that of
    -- `normalize_diagnostic`, whose slices have no panic.
    pub checked_normalize-normalize_diagnostic :
        (input : Text) → checked_normalize lib input ≡ ok (normalize_diagnostic lib input)
    unfolding checked_normalize normalize_diagnostic
    checked_normalize-normalize_diagnostic input =
        rw
          (
            checked_identities-ok (replace_cr (replace_crlf input)),
            checked_resources-ok _,
            checked_locations-ok _,
          )
          refl
