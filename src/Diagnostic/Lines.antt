-- ===== src/Diagnostic/Lines.antt =====
-- Which lines of a diagnostic are eligible as anchors: their kind and their score.
use reprocut.Prelude.{ℕ, suc, Bool, true, not, ◌&&◌, ◌||◌, ◌==◌, if◌then◌else◌}
use reprocut.Prelude.{Option, none, some, List, [], ◌∷◌, length}
use Prim.Native.Nat.{compare}
use reprocut.Prelude.Words.{saturating_add, saturating_mul}
use reprocut.Prelude.Orders.{compare_list}
use reprocut.Prelude.Sorting.{sort_by, dedup}
use reprocut.Prelude.Texts.{codes}
use reprocut.Model.{DiagnosticChannel}
use reprocut.Diagnostic.Texts.{Text, Library, member, is_blank, any_char, count_chars}
use reprocut.Diagnostic.Texts.{to_ascii_lowercase, split_where, lines, trim_start, trim_end}
use reprocut.Diagnostic.Constants.{pytest, compiler, root_failure, assertion_words, message_words}
use reprocut.Diagnostic.Constants.{summary, location, lifecycle}

pub data DiscriminatorKind : Type 0 where
  failing_test compiler_diagnostic root_cause assertion message : DiscriminatorKind

-- The derived order of the kinds.
abbrev pub kind_rank : DiscriminatorKind → ℕ
kind_rank failing_test = 0
kind_rank compiler_diagnostic = 1
kind_rank root_cause = 2
kind_rank assertion = 3
kind_rank message = 4

pub record EligibleLine : Type 0 where
  pub channel : DiagnosticChannel
  pub text : Text
  pub kind : DiscriminatorKind
  pub score : ℕ
  pub position : ℕ

-- The lines that are never an anchor, by their lowercase text.
abbrev pub fixed_boilerplate : List Text
fixed_boilerplate =
    codes "traceback (most recent call last):"
    ∷ codes "stack backtrace:"
    ∷ codes "backtrace:"
    ∷ codes "short test summary info"
    ∷ codes "failures"
    ∷ []

module _ (lib : Library) where
  open lib use {is_match, is_alphabetic, is_alphanumeric, is_whitespace}

  abbrev pub trim : Text → Text
  trim text = trim_end is_whitespace (trim_start is_whitespace text)

  unfoldable pub is_boilerplate : Text → Bool
  is_boilerplate line =
      let trimmed = trim line in
      let lowercase = to_ascii_lowercase trimmed in
      if is_blank trimmed || not (any_char is_alphanumeric trimmed)
      then true
      else if member lowercase fixed_boilerplate
      then true
      else if is_match summary lowercase
      then true
      else if is_match location lowercase
      then true
      else is_match lifecycle lowercase

  unfoldable pub discriminator_kind : Text → Option DiscriminatorKind
  discriminator_kind line =
      let lowercase = to_ascii_lowercase line in
      if is_boilerplate line
      then none
      else if is_match pytest lowercase
      then some failing_test
      else if is_match compiler lowercase
      then some compiler_diagnostic
      else if is_match root_failure lowercase
      then some root_cause
      else if is_match assertion_words lowercase
      then some assertion
      else if is_match message_words lowercase
      then some message
      else none

  -- The tokens with a letter, in lowercase.
  unfoldable pub score_tokens : List Text → List Text
  score_tokens [] = []
  score_tokens (token ∷ rest) =
      let later = score_tokens rest in
      if any_char is_alphabetic token then to_ascii_lowercase token ∷ later else later

  unfoldable pub discriminator_score : Text → ℕ
  discriminator_score line =
      let tokens =
        score_tokens (split_where (λ c. not (is_alphanumeric c) && not (c == 95)) [] line) in
      let distinct =
        length (dedup (compare_list compare) (sort_by (compare_list compare) tokens)) in
      saturating_add (saturating_mul distinct 16) (count_chars is_alphabetic line)

  -- The lines from `position` on that have a kind.
  unfoldable pub eligible_from : DiagnosticChannel → ℕ → List Text → List EligibleLine
  eligible_from channel position [] = []
  eligible_from channel position (text ∷ rest) =
      let later = eligible_from channel (suc position) rest in
      elim (discriminator_kind text) [
        | none ↦ later
        | some kind ↦
            record {
              channel = channel;
              text = text;
              kind = kind;
              score = discriminator_score text;
              position = position;
            }
            ∷ later
      ]

  unfoldable pub eligible_lines : DiagnosticChannel → Text → List EligibleLine
  eligible_lines channel diagnostic = eligible_from channel 0 (lines diagnostic)
