-- ===== src/Diagnostic/Tests.antt =====
-- The anchors of two runs that share a line.
use reprocut.Prelude.{false, ◌==◌, arith}
use reprocut.Diagnostic.Texts.{Text, Library}
use reprocut.Diagnostic.Slices.{checked_normalize, checked_slice}
use reprocut.Diagnostic.InBounds.{AreMatches, checked_normalize-normalize_diagnostic}
use reprocut.Prelude.{◌≡◌, ◌≤◌, refl, List, [], ◌∷◌, length, All}
use reprocut.Prelude.Faults.{ok, fault, panic}
use reprocut.Prelude.Texts.{codes}
use reprocut.Model.{stderr, auto}
use reprocut.Diagnostic.Select.{DiagnosticAnchor}
use reprocut.Diagnostic.Stable.{stable_discriminators, stream_discriminators, in_all, keep_common}
use reprocut.Diagnostic.Lines.{
  eligible_lines, eligible_from, discriminator_kind, discriminator_score, is_boilerplate,
  score_tokens,
}
use reprocut.Diagnostic.Texts.{
  lines_from, join_lines, replace_cr, replace_crlf, trim_end, any_char, count_chars, member,
  same_text, split_where, to_ascii_lowercase, trim_start,
}
use reprocut.Diagnostic.Normalize.{
  normalize_bytes, normalize_diagnostic, kept_lines, replace_locations, replace_lexically_bounded,
  replace_matches, replace_resources, replace_identities, replace_contextual_matches,
}
use reprocut.Diagnostic.Select.{
  fill_categories, fill_categories_from, fill_ranked, fill_ranked_from, has_kind, is_selected,
  keep_specific, rank_lines, select_lines,
}
use reprocut.Prelude.Sorting.{dedup_after, insert_by, sort_by}
use reprocut.Diagnostic.Present.{IsPresent, stable_discriminators-IsPresent}
use reprocut.Diagnostic.Anchors.{AreDistinct, stable_discriminators_total}
use reprocut.Diagnostic.Sample.{sample_library, sample_run, other_run}

abbrev boom_anchors : List DiagnosticAnchor
boom_anchors = record { channel = stderr; text = codes "boom" } ∷ []

sample_anchors :
    stable_discriminators sample_library stderr (sample_run ∷ other_run ∷ []) ≡ ok boom_anchors
unfolding stable_discriminators stream_discriminators in_all keep_common eligible_lines
    eligible_from discriminator_kind discriminator_score is_boilerplate score_tokens lines_from
    join_lines replace_cr replace_crlf trim_end any_char count_chars member same_text split_where
    to_ascii_lowercase trim_start normalize_bytes normalize_diagnostic kept_lines replace_locations
    replace_lexically_bounded replace_matches replace_resources replace_identities
    replace_contextual_matches fill_categories fill_categories_from fill_ranked fill_ranked_from
    has_kind is_selected keep_specific rank_lines select_lines dedup_after insert_by sort_by
sample_anchors = refl

no_baselines : stable_discriminators sample_library auto [] ≡ fault panic
unfolding stable_discriminators stream_discriminators
no_baselines = refl

stable_discriminators-IsPresent_example :
    All (IsPresent sample_library (sample_run ∷ other_run ∷ [])) boom_anchors
stable_discriminators-IsPresent_example =
    stable_discriminators-IsPresent sample_library stderr (sample_run ∷ other_run ∷ []) boom_anchors
      sample_anchors

stable_discriminators_total_example :
    (anchors : List DiagnosticAnchor) × (stable_discriminators sample_library stderr
        (sample_run ∷ other_run ∷ [])
      ≡ ok anchors)
    × (length anchors ≤ 4)
    × AreDistinct anchors
stable_discriminators_total_example =
    stable_discriminators_total sample_library stderr sample_run (other_run ∷ [])

-- Every pattern matches the whole text.
abbrev whole_library : Library
whole_library = record {
  is_match = λ pattern text. false;
  captures = λ pattern text. record { start = 0; stop = length text; token = text } ∷ [];
  expand = λ template found. template;
  from_utf8_lossy = λ bytes. bytes;
  is_alphabetic = λ c. false;
  is_alphanumeric = λ c. false;
  is_whitespace = λ c. c == 32;
}

whole_in_bounds : (pattern input : Text) → AreMatches 0 input (whole_library.captures pattern input)
whole_in_bounds pattern input = omega arith

checked_normalize-normalize_diagnostic_example :
    checked_normalize whole_library (codes "line 7")
    ≡ ok (normalize_diagnostic whole_library (codes "line 7"))
checked_normalize-normalize_diagnostic_example =
    checked_normalize-normalize_diagnostic whole_library whole_in_bounds (codes "line 7")

slice_beyond : checked_slice 2 9 (codes "line 7") ≡ fault panic
unfolding checked_slice
slice_beyond = refl
