-- ===== src/Diagnostic/Texts.antt =====
-- Texts as lists of characters, a character its code point; what the diagnostics use of the standard
-- library's `str`. The tables of Unicode, the decoder of UTF-8 and the regular expressions belong to
-- libraries: they are the fields of `Library`. Positions of a match count characters.
use reprocut.Prelude.{ℕ, zero, suc, ◌+◌, Bool, true, false, ◌&&◌, ◌||◌, leb, ◌==◌}
use reprocut.Prelude.{if◌then◌else◌, List, [], ◌∷◌, ◌++◌, map}
use mathlib.Core.List.{reverse}
use reprocut.Transformation.{Bytes}

abbrev pub Text : Type 0
Text = List ℕ

-- `regex::Captures`: the whole match and the group named `token`.
pub record Match : Type 0 where
  pub start : ℕ
  pub stop : ℕ
  pub token : Text

pub record Library : Type 0 where
  -- `Regex::is_match`; a pattern is its source.
  pub is_match : Text → Text → Bool
  -- `Regex::captures_iter`
  pub captures : Text → Text → List Match
  -- `Captures::expand`, of a template
  pub expand : Text → Match → Text
  pub from_utf8_lossy : Bytes → Text
  pub is_alphabetic : ℕ → Bool
  pub is_alphanumeric : ℕ → Bool
  pub is_whitespace : ℕ → Bool

abbrev pub drop {ℓ} : {A : Type ℓ} → ℕ → List A → List A
drop zero xs = xs
drop (suc n) [] = []
drop (suc n) (x ∷ xs) = drop n xs

-- Equality of texts.
unfoldable pub same_text : Text → Text → Bool
same_text [] [] = true
same_text [] (b ∷ ys) = false
same_text (a ∷ xs) [] = false
same_text (a ∷ xs) (b ∷ ys) = (a == b) && same_text xs ys

unfoldable pub member : Text → List Text → Bool
member text [] = false
member text (other ∷ rest) = same_text text other || member text rest

abbrev pub is_blank : Text → Bool
is_blank [] = true
is_blank (c ∷ rest) = false

-- `.chars().any(..)`
unfoldable pub any_char : (ℕ → Bool) → Text → Bool
any_char test [] = false
any_char test (c ∷ rest) = test c || any_char test rest

-- `.chars().filter(..).count()`
unfoldable pub count_chars : (ℕ → Bool) → Text → ℕ
count_chars test [] = 0
count_chars test (c ∷ rest) = (if test c then 1 else 0) + count_chars test rest

unfoldable pub to_ascii_lowercase : Text → Text
to_ascii_lowercase = map (λ c. if leb 65 c && leb c 90 then c + 32 else c)

-- `replace("\r\n", "\n")`
unfoldable pub replace_crlf : Text → Text
replace_crlf [] = []
replace_crlf (c ∷ []) = c ∷ []
replace_crlf (c ∷ d ∷ rest) =
    let later = replace_crlf (d ∷ rest) in if (c == 13) && (d == 10) then later else c ∷ later

-- `replace('\r', "\n")`
unfoldable pub replace_cr : Text → Text
replace_cr = map (λ c. if c == 13 then 10 else c)

-- `.split(..)` at the characters with a property.
unfoldable pub split_where : (ℕ → Bool) → Text → Text → List Text
split_where test part [] = part ∷ []
split_where test part (c ∷ rest) =
    let here = split_where test [] rest in
    let there = split_where test (part ++ c ∷ []) rest in if test c then part ∷ here else there

abbrev pub strip_cr : Text → Text
strip_cr [] = []
strip_cr (c ∷ []) = if c == 13 then [] else c ∷ []
strip_cr (c ∷ d ∷ rest) = c ∷ strip_cr (d ∷ rest)

-- `str::lines`, with the line read so far: a line ends at a newline, of which a carriage return
-- before it is a part, and an empty last line is left out.
unfoldable pub lines_from : Text → Text → List Text
lines_from part [] = if is_blank part then [] else part ∷ []
lines_from part (c ∷ rest) =
    let here = strip_cr part ∷ lines_from [] rest in
    let there = lines_from (part ++ c ∷ []) rest in if c == 10 then here else there

abbrev pub lines : Text → List Text
lines text = lines_from [] text

unfoldable pub trim_start : (ℕ → Bool) → Text → Text
trim_start test [] = []
trim_start test (c ∷ rest) = let rest' = trim_start test rest in if test c then rest' else c ∷ rest

-- `trim_end_matches` of the characters with a property.
unfoldable pub trim_end : (ℕ → Bool) → Text → Text
trim_end test text = reverse (trim_start test (reverse text))

-- `.join("\n")`
unfoldable pub join_lines : List Text → Text
join_lines [] = []
join_lines (line ∷ []) = line
join_lines (line ∷ next ∷ rest) = line ++ 10 ∷ join_lines (next ∷ rest)

unfoldable pub starts_with : Text → Text → Bool
starts_with [] text = true
starts_with (c ∷ prefix) [] = false
starts_with (c ∷ prefix) (d ∷ text) = (c == d) && starts_with prefix text

unfoldable pub ends_with : Text → Text → Bool
ends_with suffix text = starts_with (reverse suffix) (reverse text)

-- `rsplit(..).next()`: what follows the last character with a property.
unfoldable pub last_part : (ℕ → Bool) → Text → Text → Text
last_part test part [] = part
last_part test part (c ∷ rest) = last_part test (if test c then [] else part ++ c ∷ []) rest

-- `split(..).next()`: what stands before the first one.
unfoldable pub first_part : (ℕ → Bool) → Text → Text
first_part test [] = []
first_part test (c ∷ rest) = let later = first_part test rest in if test c then [] else c ∷ later
