-- ===== src/Snapshot/Tests.antt =====
-- Replacements in the five bytes of `abcde`, and a transformation of a project of two files. The digest
-- stands in as the bytes themselves.
use reprocut.Prelude.{◌≡◌, refl, List, [], ◌∷◌, arith}
use reprocut.Prelude.Sorting.{sort_by, insert_by, dedup_after}
use reprocut.Prelude.Texts.{codes}
use reprocut.Prelude.Attempts.{done, failed, Answers}
use reprocut.Transformation.{Bytes, Operation, delete_file, replace_range, Transformation, ok}
use reprocut.Transformation.{new_transformation, validate_conflicts, scan_conflicts}
use reprocut.Transformation.{encode_operations, encode_each, Result, err}
use reprocut.Snapshot.{ProjectSnapshot, from_files, snapshot_file, with_transformation}
use reprocut.Snapshot.{apply_replacements_to_bytes, measure_ranges}
use reprocut.Snapshot.{range_out_of_bounds, snapshot_measurements, measure_files, count_newlines}
use reprocut.Snapshot.{ends_partial}
use reprocut.Snapshot.Splice.{splice_all, apply_replacements_to_bytes-splice_all}
use reprocut.Snapshot.{
  copy_ranges, apply_groups, apply_group, span_path, file_index, narrow, remove_at,
}
use reprocut.Snapshot.Search.{AreOrdered, scan_index, file_index-scan_index}
use reprocut.Snapshot.Contents.{file_at, operations_on}
use reprocut.Prelude.{ℕ, ◌≢◌, ap, some}
use reprocut.Prelude.Faults.{Outcome}
use reprocut.Snapshot.{with_file_contents, file_contents}
use reprocut.Snapshot.Written.{with_file_contents-file_contents}
use reprocut.Snapshot.Result.{edited, with_transformation-edited}
use reprocut.Snapshot.Applied.{with_transformation-Answers}

abbrev letters : Bytes
letters = codes "abcde"

abbrev name : Bytes
name = codes "m"

abbrev first_cut : Operation
first_cut = replace_range name (record { start = 1; end = 2 }) (codes "XY")

abbrev last_cut : Operation
last_cut = replace_range name (record { start = 4; end = 5 }) []

abbrev cuts : List Operation
cuts = first_cut ∷ last_cut ∷ []

spliced_letters : splice_all cuts letters ≡ codes "aXYcd"
unfolding splice_all
spliced_letters = refl

beyond_letters :
    apply_replacements_to_bytes letters
      (replace_range name (record { start = 4; end = 6 }) [] ∷ [])
      name
    ≡ failed (range_out_of_bounds name)
unfolding apply_replacements_to_bytes measure_ranges
beyond_letters = refl

apply_replacements_to_bytes-splice_all_example :
    apply_replacements_to_bytes letters cuts name ≡ done (splice_all cuts letters)
apply_replacements_to_bytes-splice_all_example =
    apply_replacements_to_bytes-splice_all letters cuts name
      (omega arith, omega arith, omega arith, (omega arith, omega arith, omega arith, omega arith))
      (omega arith)

abbrev digest_of : Bytes → Bytes
digest_of bytes = bytes

abbrev project : ProjectSnapshot Bytes
project = from_files digest_of digest_of (
    snapshot_file digest_of digest_of (codes "a") (codes "x\ny") 0
    ∷ snapshot_file digest_of digest_of name letters 0
    ∷ [])

two_files_measured :
    snapshot_measurements project.files ≡ record { files = 2; bytes = 8; lines = 3 }
unfolding measure_files count_newlines ends_partial
two_files_measured = refl

abbrev given : List Operation
given = last_cut ∷ delete_file (codes "a") ∷ first_cut ∷ []

abbrev sorted_operations : List Operation
sorted_operations = delete_file (codes "a") ∷ first_cut ∷ last_cut ∷ []

abbrev bytes_of : Result Bytes → Bytes
bytes_of (ok bytes) = bytes
bytes_of (err e) = []

abbrev change : Transformation Bytes
change = record {
  operations = sorted_operations;
  stable_encoding = bytes_of (encode_operations sorted_operations);
  digest = bytes_of (encode_operations sorted_operations);
}

change-built : new_transformation digest_of given ≡ ok change
unfolding new_transformation validate_conflicts sort_by insert_by dedup_after scan_conflicts
    encode_operations encode_each
change-built = refl

project_files : AreOrdered project.files
project_files = ((refl, tt), (tt, tt))

name-found : file_index project.files name ≡ some 1
unfolding file_index narrow
name-found = refl

file_index-scan_index_example :
    file_index project.files (codes "b") ≡ scan_index project.files (codes "b")
file_index-scan_index_example = file_index-scan_index project.files (codes "b") project_files

with_transformation-Answers_example :
    Answers (with_transformation digest_of digest_of project change)
with_transformation-Answers_example =
    with_transformation-Answers digest_of digest_of project given change
      (omega arith, (tt, (omega arith, tt))) change-built

abbrev changed_project : ProjectSnapshot Bytes
changed_project =
    from_files digest_of digest_of (snapshot_file digest_of digest_of name (codes "aXYcd") 0 ∷ [])

project-changed : with_transformation digest_of digest_of project change ≡ done changed_project
unfolding with_transformation apply_groups apply_group span_path file_index narrow remove_at
    apply_replacements_to_bytes measure_ranges copy_ranges
project-changed = refl

with_transformation-edited_example :
    (file_at changed_project.files name
      ≡ edited digest_of digest_of
          (file_at project.files name)
          (operations_on name change.operations))
    × AreOrdered changed_project.files
with_transformation-edited_example =
    with_transformation-edited digest_of digest_of project changed_project given change name
      project_files (omega arith, (tt, (omega arith, tt))) change-built project-changed

abbrev written_project : ProjectSnapshot Bytes
written_project = from_files digest_of digest_of (
    snapshot_file digest_of digest_of (codes "a") (codes "x\ny") 0
    ∷ snapshot_file digest_of digest_of name (codes "new") 0
    ∷ [])

project-written :
    with_file_contents digest_of digest_of project name (codes "new") ≡ done written_project
unfolding with_file_contents file_index narrow
project-written = refl

abbrev first_of : Bytes → ℕ
first_of [] = 0
first_of (b ∷ rest) = b

other_name : name ≢ codes "a"
other_name e = let heads = ap first_of e in omega arith

with_file_contents-file_contents_example :
    (file_contents written_project name ≡ Outcome.ok (some (codes "new")))
    × (file_contents written_project (codes "a") ≡ file_contents project (codes "a"))
    × AreOrdered written_project.files
with_file_contents-file_contents_example =
    with_file_contents-file_contents digest_of digest_of project written_project name (codes "new")
      (codes "a") project_files other_name project-written
