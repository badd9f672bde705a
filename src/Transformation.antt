-- ===== src/Transformation.antt =====
-- crates/reprocut-core/src/transformation.rs: validated paths and ranges, and canonical operation sets.
-- A path and a replacement are their bytes, which the derived order compares byte by byte; the tests of a path are on ASCII bytes, which occur in
-- UTF-8 only as themselves.
use reprocut.Prelude.{
  ℕ, zero, suc, ◌+◌, ◌*◌, ◌/◌, ◌%◌, ◌^◌, ◌≡◌, Bool, true, false, not, ◌&&◌, ◌||◌,
}
use reprocut.Prelude.{
  ltb, leb, ◌==◌, if◌then◌else◌, Option, none, some, List, [], ◌∷◌, ◌++◌, length,
}
use reprocut.Prelude.{get_elem?}
use Prim.Native.Nat.{compare, Ordering}
use reprocut.Prelude.Orders.{compare_list, compare_option, then_with}
use reprocut.Prelude.Sorting.{sort_by, dedup}
pub mod Order
pub mod Pairs
pub mod Conflicts
pub mod Accepted
pub mod Injective
mod Tests

abbrev pub Bytes : Type 0
Bytes = List ℕ

pub data TransformationError : Type 0 where
  unsafe_project_path invalid_byte_range overlapping_ranges : TransformationError
  delete_replace_conflict encoding_too_large : TransformationError

-- `Result` of the module.
pub data Result {ℓ} (A : Type ℓ) : Type ℓ where
  ok : A → Result A
  err : TransformationError → Result A

-- `str::contains` of one byte.
unfoldable pub contains_byte : ℕ → Bytes → Bool
contains_byte c [] = false
contains_byte c (b ∷ rest) = (b == c) || contains_byte c rest

-- `str::split`, of one byte.
unfoldable pub split_from : ℕ → Bytes → Bytes → List Bytes
split_from c part [] = part ∷ []
split_from c part (b ∷ rest) =
    let here = split_from c [] rest in
    let there = split_from c (part ++ b ∷ []) rest in if b == c then part ∷ here else there

abbrev pub split : ℕ → Bytes → List Bytes
split c path = split_from c [] path

abbrev pub ends_with : ℕ → Bytes → Bool
ends_with c [] = false
ends_with c (b ∷ []) = b == c
ends_with c (b ∷ d ∷ rest) = ends_with c (d ∷ rest)

abbrev pub starts_with : ℕ → Bytes → Bool
starts_with c [] = false
starts_with c (b ∷ rest) = b == c

-- `!component.is_empty() && component != "." && component != ".."`
abbrev pub is_plain_component : Bytes → Bool
is_plain_component [] = false
is_plain_component (b ∷ []) = not (b == 46)
is_plain_component (b ∷ d ∷ []) = not ((b == 46) && (d == 46))
is_plain_component (b ∷ d ∷ e ∷ rest) = true

unfoldable pub all_plain : List Bytes → Bool
all_plain [] = true
all_plain (part ∷ rest) = is_plain_component part && all_plain rest

abbrev pub has_drive_prefix : Bytes → Bool
has_drive_prefix path = elim (get_elem? path 1) [ none ↦ false | some character ↦ character == 58 ]

abbrev pub is_empty : Bytes → Bool
is_empty [] = true
is_empty (b ∷ rest) = false

unfoldable pub is_safe : Bytes → Bool
is_safe path =
    not (is_empty path)
    && (not (starts_with 47 path)
        && (not (ends_with 47 path)
            && (not (contains_byte 92 path || contains_byte 0 path)
                && (not (has_drive_prefix path) && all_plain (split 47 path)))))

-- `ProjectPath::new`; the path it wraps is its text.
unfoldable pub project_path : Bytes → Result Bytes
project_path path = if is_safe path then ok path else err unsafe_project_path

pub record ByteRange : Type 0 where
  pub start : ℕ
  pub end : ℕ

-- `ByteRange::new`
unfoldable pub byte_range : ℕ → ℕ → Result ByteRange
byte_range start end =
    if leb end start then err invalid_byte_range else ok (record { start = start; end = end })

abbrev pub overlaps : ByteRange → ByteRange → Bool
overlaps a b = ltb a.start b.end && ltb b.start a.end

pub data Operation : Type 0 where
  delete_file : (path : Bytes) → Operation
  replace_range : (path : Bytes) (range : ByteRange) (replacement : Bytes) → Operation

abbrev pub path_of : Operation → Bytes
path_of (delete_file path) = path
path_of (replace_range path _ _) = path

abbrev pub range_of : Operation → Option ByteRange
range_of (delete_file _) = none
range_of (replace_range _ range _) = some range

abbrev pub replacement_of : Operation → Option Bytes
replacement_of (delete_file _) = none
replacement_of (replace_range _ _ replacement) = some replacement

abbrev pub operation_tag : Operation → ℕ
operation_tag (delete_file _) = 0
operation_tag (replace_range _ _ _) = 1

-- The derived order of `ByteRange`.
abbrev pub compare_range : ByteRange → ByteRange → Ordering
compare_range a b = then_with (compare a.start b.start) (compare a.end b.end)

abbrev pub canonical_operation_order : Operation → Operation → Ordering
canonical_operation_order left right =
    then_with (compare_list compare (path_of left) (path_of right)) (
      then_with (compare (operation_tag left) (operation_tag right)) (
        then_with (compare_option compare_range (range_of left) (range_of right))
          (compare_option (compare_list compare) (replacement_of left) (replacement_of right))))

abbrev pub same_path : Bytes → Bytes → Bool
same_path a b = elim (compare_list compare a b) [ Ordering.eq ↦ true | _ ↦ false ]

-- `previous_range.is_some_and(|previous| previous.overlaps(range))`
abbrev pub overlaps_previous : Option ByteRange → ByteRange → Bool
overlaps_previous none range = false
overlaps_previous (some previous) range = overlaps previous range

-- One round of the inner loop for two operations of one path, with what the later rounds return.
abbrev pub scan_pair :
    Option ByteRange
    → Option ByteRange
    → Option ByteRange
    → (ByteRange → Result (Unit {0}))
    → Result (Unit {0})
scan_pair (some own) (some range) previous rest =
    if overlaps_previous previous range then err overlapping_ranges else rest range
scan_pair _ _ previous rest = err delete_replace_conflict

-- The inner loop of `validate_conflicts` for `operation`.
unfoldable pub scan_conflicts : Operation → Option ByteRange → List Operation → Result (Unit {0})
scan_conflicts operation previous [] = ok tt
scan_conflicts operation previous (next ∷ rest) =
    if not (same_path (path_of next) (path_of operation))
    then ok tt
    else scan_pair (range_of operation) (range_of next) previous
        (λ range. scan_conflicts operation (some range) rest)

abbrev pub and_then {ℓ κ} : {A : Type ℓ} {B : Type κ} → Result A → (A → Result B) → Result B
and_then (ok a) f = f a
and_then (err e) f = err e

unfoldable pub validate_conflicts : List Operation → Result (Unit {0})
validate_conflicts [] = ok tt
validate_conflicts (operation ∷ rest) =
    let later = validate_conflicts rest in
    and_then (scan_conflicts operation (range_of operation) rest) (λ _. later)

-- `to_le_bytes` of an integer of `width` bytes.
abbrev pub to_le_bytes : (width : ℕ) → ℕ → Bytes
to_le_bytes zero n = []
to_le_bytes (suc width) n = (n % 256) ∷ to_le_bytes width (n / 256)

-- `encode_len`: a `usize` of 64 bits always fits.
abbrev pub encode_len : ℕ → Result Bytes
encode_len length =
    if ltb length (2 ^ 64) then ok (to_le_bytes 8 length) else err encoding_too_large

abbrev pub encode_bytes : Bytes → Result Bytes
encode_bytes bytes = and_then (encode_len (length bytes)) (λ prefix. ok (prefix ++ bytes))

abbrev pub encode_operation : Operation → Result Bytes
encode_operation (delete_file path) =
    and_then (encode_bytes path) (λ target. ok (operation_tag (delete_file path) ∷ target))
encode_operation (replace_range path range replacement) = and_then (encode_bytes path) (λ target.
    and_then (encode_bytes replacement) (λ bytes. ok (
      operation_tag (replace_range path range replacement) ∷ target
      ++ to_le_bytes 8 range.start
      ++ to_le_bytes 8 range.end
      ++ bytes)))

unfoldable pub encode_each : List Operation → Result Bytes
encode_each [] = ok []
encode_each (operation ∷ rest) =
    let later = encode_each rest in
    and_then (encode_operation operation) (λ bytes. and_then later (λ tail. ok (bytes ++ tail)))

-- `b"REPROCUT-TRANSFORM\0"`
abbrev pub header : Bytes
header =
    82 ∷ 69 ∷ 80 ∷ 82 ∷ 79 ∷ 67 ∷ 85 ∷ 84 ∷ 45 ∷ 84 ∷ 82 ∷ 65 ∷ 78 ∷ 83 ∷ 70 ∷ 79 ∷ 82 ∷ 77 ∷ 0 ∷ []

unfoldable pub encode_operations : List Operation → Result Bytes
encode_operations operations = and_then (encode_len (length operations)) (λ count.
    and_then (encode_each operations) (λ body. ok (header ++ to_le_bytes 2 1 ++ count ++ body)))

-- `Transformation`, its digest a `D`.
pub record Transformation (D : Type 0) : Type 0 where
  pub operations : List Operation
  pub stable_encoding : Bytes
  pub digest : D

-- `Transformation::new`; `digest_of` is `ContentDigest::of`.
unfoldable pub new_transformation :
    {D : Type 0} → (Bytes → D) → List Operation → Result (Transformation D)
new_transformation digest_of operations =
    let canonical =
      dedup canonical_operation_order (sort_by canonical_operation_order operations) in
    and_then (validate_conflicts canonical) (λ _.
      and_then (encode_operations canonical) (λ encoding. ok (record {
        operations = canonical;
        stable_encoding = encoding;
        digest = digest_of encoding;
      })))
