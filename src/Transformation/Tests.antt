-- ===== src/Transformation/Tests.antt =====
-- Three operations on two files, given out of order; the digest stands in as the bytes themselves.
use reprocut.Prelude.{◌≡◌, refl, List, [], ◌∷◌, ◌↔◌, arith}
use reprocut.Prelude.{inl, inr}
use reprocut.Prelude.Members.{Has}
use reprocut.Prelude.Sorting.{sort_by, insert_by, dedup_after}
use reprocut.Transformation.{
  scan_conflicts, encode_each, is_safe, contains_byte, all_plain, split_from,
}
use reprocut.Transformation.{
  Bytes, Operation, delete_file, replace_range, Transformation, ok, Result, err,
}
use reprocut.Transformation.{
  new_transformation, encode_operations, validate_conflicts, overlapping_ranges,
}
use reprocut.Transformation.{project_path, unsafe_project_path}
use reprocut.Transformation.Injective.{encode_operations-injective}
use reprocut.Transformation.Order.{new_transformation_unique}
use reprocut.Transformation.Pairs.{IsConflictFree}
use reprocut.Transformation.Conflicts.{validate_conflicts_iff}
use reprocut.Transformation.Accepted.{
  new_transformation_iff, IsCompatible, new_transformation-IsCanonical,
}
use reprocut.Transformation.Accepted.{IsCanonical}

abbrev later_cut : Operation
later_cut = replace_range (98 ∷ []) (record { start = 5; end = 7 }) (120 ∷ [])

abbrev early_cut : Operation
early_cut = replace_range (98 ∷ []) (record { start = 0; end = 5 }) []

abbrev removal : Operation
removal = delete_file (97 ∷ [])

abbrev given : List Operation
given = later_cut ∷ removal ∷ early_cut ∷ []

abbrev expected : List Operation
expected = removal ∷ early_cut ∷ later_cut ∷ []

abbrev digest_of : Bytes → Bytes
digest_of bytes = bytes

abbrev encoding_of : Result Bytes → Bytes
encoding_of (ok bytes) = bytes
encoding_of (err e) = []

abbrev built : Transformation Bytes
built = record {
  operations = expected;
  stable_encoding = encoding_of (encode_operations expected);
  digest = encoding_of (encode_operations expected);
}

given-built : new_transformation digest_of given ≡ ok built
unfolding new_transformation validate_conflicts sort_by insert_by dedup_after scan_conflicts
    encode_operations encode_each
given-built = refl

overlap_found :
    validate_conflicts (early_cut ∷ replace_range (98 ∷ []) (record { start = 4; end = 6 }) [] ∷ [])
    ≡ err overlapping_ranges
unfolding validate_conflicts scan_conflicts
overlap_found = refl

-- `a/../b` is refused and `a/b` is kept.
parent_refused : project_path (97 ∷ 47 ∷ 46 ∷ 46 ∷ 47 ∷ 98 ∷ []) ≡ err unsafe_project_path
unfolding project_path is_safe contains_byte all_plain split_from
parent_refused = refl

child_kept : project_path (97 ∷ 47 ∷ 98 ∷ []) ≡ ok (97 ∷ 47 ∷ 98 ∷ [])
unfolding project_path is_safe contains_byte all_plain split_from
child_kept = refl

same_operations :
    (op : Operation) → Has op given ↔ Has op (removal ∷ later_cut ∷ later_cut ∷ early_cut ∷ [])
same_operations op = (into, back)
  where
    into : Has op given → Has op (removal ∷ later_cut ∷ later_cut ∷ early_cut ∷ [])
    into (inl e) = inr (inl e)
    into (inr (inl e)) = inl e
    into (inr (inr (inl e))) = inr (inr (inr (inl e)))
    into (inr (inr (inr h))) = absurd h

    back : Has op (removal ∷ later_cut ∷ later_cut ∷ early_cut ∷ []) → Has op given
    back (inl e) = inr (inl e)
    back (inr (inl e)) = inl e
    back (inr (inr (inl e))) = inl e
    back (inr (inr (inr (inl e)))) = inr (inr (inl e))
    back (inr (inr (inr (inr h)))) = absurd h

new_transformation_unique_example :
    new_transformation digest_of given
    ≡ new_transformation digest_of (removal ∷ later_cut ∷ later_cut ∷ early_cut ∷ [])
new_transformation_unique_example =
    new_transformation_unique digest_of given (removal ∷ later_cut ∷ later_cut ∷ early_cut ∷ [])
      same_operations

new_transformation_iff_example :
    ((t : Transformation Bytes) × (new_transformation digest_of given ≡ ok t)) ↔ IsCompatible given
new_transformation_iff_example =
    new_transformation_iff digest_of given (omega arith, (tt, (omega arith, tt)))
      ((omega arith, omega arith), (omega arith, ((omega arith, omega arith), tt))) (omega arith)

new_transformation-IsCanonical_example : IsCanonical digest_of given built
new_transformation-IsCanonical_example =
    new_transformation-IsCanonical digest_of given built (omega arith, (tt, (omega arith, tt)))
      given-built

validate_conflicts_iff_example : (validate_conflicts expected ≡ ok tt) ↔ IsConflictFree expected
validate_conflicts_iff_example =
    validate_conflicts_iff expected ((refl, (refl, tt)), ((refl, tt), (tt, tt)))
      (tt, (omega arith, (omega arith, tt)))

expected-encoding : encode_operations expected ≡ ok (encoding_of (encode_operations expected))
unfolding encode_operations encode_each
expected-encoding = refl

encode_operations-injective_example : expected ≡ expected
encode_operations-injective_example =
    encode_operations-injective expected expected (encoding_of (encode_operations expected))
      (tt, ((omega arith, omega arith), ((omega arith, omega arith), tt)))
      (tt, ((omega arith, omega arith), ((omega arith, omega arith), tt))) expected-encoding
      expected-encoding
