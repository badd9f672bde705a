-- ===== src/Snapshot.antt =====
-- crates/reprocut-workspace/src/lib.rs: the immutable snapshot of a project and the snapshots derived
-- from it. A path is its bytes; `digest_of` is `ContentDigest::of`, and `as_bytes` the 32 bytes of a
-- digest. Reading and writing files is left out.
use reprocut.Prelude.{ℕ, zero, suc, ◌+◌, ◌-◌, ◌/◌, ◌^◌, Bool, false, not, ◌&&◌, ltb, leb, ◌==◌}
use reprocut.Prelude.{
  if◌then◌else◌, Option, none, some, List, [], ◌∷◌, ◌++◌, length, take, set, min,
}
use reprocut.Prelude.{get_elem?}
use Prim.Native.Nat.{compare, Ordering}
use reprocut.Prelude.Words.{u64_max, saturating_add}
use reprocut.Prelude.Faults.{Outcome, ok, fault, panic, stuck, or_panic}
use reprocut.Prelude.Attempts.{Attempt, done, failed, crashed, ◌>>=◌, ◌>>◌, fail_if, of_outcome}
use reprocut.Prelude.Orders.{compare_list}
use reprocut.Prelude.Sorting.{sort_by, dedup, by_ordering}
use reprocut.Prelude.Texts.{codes}
use reprocut.Transformation.{Bytes, ByteRange, Operation, delete_file, replace_range, path_of}
use reprocut.Transformation.{same_path, to_le_bytes, Transformation}
use reprocut.Diagnostic.Texts.{drop}
pub mod Search
pub mod Splice
pub mod Applied
pub mod Contents
pub mod Edited
pub mod Result
pub mod Written
mod Tests

-- The errors of the operations on frozen bytes.
pub data WorkspaceError : Type 0 where
  missing_transformation_target range_out_of_bounds : (path : Bytes) → WorkspaceError

pub record SnapshotFile (D : Type 0) : Type 0 where
  pub path : Bytes
  pub contents : Bytes
  pub digest : D
  pub executable_mask : ℕ

pub record SnapshotMeasurements : Type 0 where
  pub files : ℕ
  pub bytes : ℕ
  pub lines : ℕ

pub record ProjectSnapshot (D : Type 0) : Type 0 where
  pub files : List (SnapshotFile D)
  pub digest : D
  pub measurements : SnapshotMeasurements

-- `u64::try_from(n).unwrap_or(u64::MAX)`
abbrev pub to_u64 : ℕ → ℕ
to_u64 n = min n u64_max

unfoldable pub count_newlines : Bytes → ℕ
count_newlines [] = 0
count_newlines (b ∷ rest) = (if b == 10 then 1 else 0) + count_newlines rest

-- Not empty, and the last byte is no newline.
unfoldable pub ends_partial : Bytes → Bool
ends_partial [] = false
ends_partial (b ∷ []) = not (b == 10)
ends_partial (b ∷ c ∷ rest) = ends_partial (c ∷ rest)

-- `source[start..end]`
abbrev pub slice : Bytes → ℕ → ℕ → Outcome Bytes
slice source start end =
    if leb start end && leb end (length source)
    then ok (take (end - start) (drop start source))
    else fault panic

-- The first loop of `apply_replacements_to_bytes`, from the length so far. The difference of the
-- bounds of a range is an overflow if they are out of order, which counts as a panic.
unfoldable pub measure_ranges : Bytes → Bytes → ℕ → List Operation → Attempt WorkspaceError ℕ
measure_ranges source path final_length [] = done final_length
measure_ranges source path final_length (delete_file _ ∷ rest) = crashed panic
measure_ranges source path final_length (replace_range _ range replacement ∷ rest) = do
  fail_if (ltb (length source) range.end) (range_out_of_bounds path)
  size ← if ltb range.end range.start then crashed panic else done (range.end - range.start)
  fail_if (ltb final_length size) (range_out_of_bounds path)
  let longer = (final_length - size) + length replacement
  fail_if (not (ltb longer (2 ^ 64))) (range_out_of_bounds path)
  measure_ranges source path longer rest

-- The second loop, from the cursor and the bytes so far.
unfoldable pub copy_ranges : Bytes → ℕ → Bytes → List Operation → Attempt WorkspaceError Bytes
copy_ranges source cursor transformed [] = do
  last ← of_outcome (slice source cursor (length source))
  done (transformed ++ last)
copy_ranges source cursor transformed (delete_file _ ∷ rest) = crashed panic
copy_ranges source cursor transformed (replace_range _ range replacement ∷ rest) = do
  kept ← of_outcome (slice source cursor range.start)
  copy_ranges source range.end (transformed ++ kept ++ replacement) rest

unfoldable pub apply_replacements_to_bytes :
    Bytes → List Operation → Bytes → Attempt WorkspaceError Bytes
apply_replacements_to_bytes source operations path = do
  final_length ← measure_ranges source path (length source) operations
  transformed ← copy_ranges source 0 [] operations
  if length transformed == final_length then done transformed else crashed panic

-- The operations at the front that change the path, and the others.
unfoldable pub span_path : Bytes → List Operation → List Operation × List Operation
span_path path [] = ([], [])
span_path path (operation ∷ rest) =
    let later = span_path path rest in
    if same_path (path_of operation) path
    then (operation ∷ later.0, later.1)
    else ([], operation ∷ rest)

module _ {D : Type 0} where
  abbrev pub path_order : SnapshotFile D → SnapshotFile D → Ordering
  path_order left right = compare_list compare left.path right.path

  -- How the path of a file compares with `path`. The search looks at indices of files alone.
  abbrev pub compare_at : List (SnapshotFile D) → Bytes → ℕ → Ordering
  compare_at files path index = elim (get_elem? files index) [
    | none ↦ Ordering.gt
    | some file ↦ compare_list compare file.path path
  ]

  -- `slice::binary_search_by` halves the part of `size` files from `base` on until one is left.
  unfoldable pub narrow : (fuel : ℕ) → List (SnapshotFile D) → Bytes → (base size : ℕ) → ℕ
  narrow zero files path base size = base
  narrow (suc fuel) files path base size =
      let half = size / 2 in
      let mid = base + half in
      let base' = by_ordering (compare_at files path mid) mid mid base in
      let rest = narrow fuel files path base' (size - half) in if ltb 1 size then rest else base

  -- `ProjectSnapshot::file_index`; the part gets shorter with each step, so the length is enough
  -- fuel.
  unfoldable pub file_index : List (SnapshotFile D) → Bytes → Option ℕ
  file_index files path =
      let base = narrow (length files) files path 0 (length files) in
      by_ordering (compare_at files path base) none (some base) none

  unfoldable pub remove_at : ℕ → List (SnapshotFile D) → List (SnapshotFile D)
  remove_at index [] = []
  remove_at zero (file ∷ rest) = rest
  remove_at (suc index) (file ∷ rest) = file ∷ remove_at index rest

  abbrev pub measure_file : SnapshotMeasurements → SnapshotFile D → SnapshotMeasurements
  measure_file m file = record {
    files = m.files;
    bytes = saturating_add m.bytes (to_u64 (length file.contents));
    lines =
        let lines = saturating_add m.lines (to_u64 (count_newlines file.contents)) in
        if ends_partial file.contents then saturating_add lines 1 else lines;
  }

  unfoldable pub measure_files : SnapshotMeasurements → List (SnapshotFile D) → SnapshotMeasurements
  measure_files m [] = m
  measure_files m (file ∷ rest) = measure_files (measure_file m file) rest

  abbrev pub snapshot_measurements : List (SnapshotFile D) → SnapshotMeasurements
  snapshot_measurements files =
      measure_files (record { files = length files; bytes = 0; lines = 0 }) files

  -- `ProjectSnapshot::total_bytes`
  unfoldable pub total_from : ℕ → List (SnapshotFile D) → ℕ
  total_from total [] = total
  total_from total (file ∷ rest) =
      total_from (saturating_add total (to_u64 (length file.contents))) rest

  abbrev pub total_bytes : ProjectSnapshot D → ℕ
  total_bytes snapshot = total_from 0 snapshot.files

  -- `ProjectSnapshot::file`
  unfoldable pub file_contents : ProjectSnapshot D → Bytes → Outcome (Option Bytes)
  file_contents snapshot path = elim (file_index snapshot.files path) [
    | none ↦ ok none
    | some index ↦ elim (get_elem? snapshot.files index) [
      | none ↦ fault panic
      | some file ↦ ok (some file.contents)
    ]
  ]

  -- `files[index]` of the index that was found.
  abbrev pub found_file :
      List (SnapshotFile D) → Bytes → Attempt WorkspaceError (ℕ × SnapshotFile D)
  found_file files path = elim (file_index files path) [
    | none ↦ failed (missing_transformation_target path)
    | some index ↦ elim (get_elem? files index) [
      | none ↦ crashed panic
      | some file ↦ done (index, file)
    ]
  ]

  -- The files of the requested paths.
  unfoldable pub select_files :
      List (SnapshotFile D) → List Bytes → Attempt WorkspaceError (List (SnapshotFile D))
  select_files files [] = done []
  select_files files (path ∷ paths) = do
    (index, file) ← found_file files path
    later ← select_files files paths
    done (file ∷ later)

module _ {D : Type 0} (digest_of : Bytes → D) (as_bytes : D → Bytes) where
  abbrev pub snapshot_file : Bytes → Bytes → ℕ → SnapshotFile D
  snapshot_file path contents executable_mask = record {
    path = path;
    contents = contents;
    digest = digest_of contents;
    executable_mask = executable_mask;
  }

  -- `SnapshotFile::with_contents`
  abbrev pub with_contents : SnapshotFile D → Bytes → SnapshotFile D
  with_contents file contents = snapshot_file file.path contents file.executable_mask

  unfoldable pub encode_files : List (SnapshotFile D) → Bytes
  encode_files [] = []
  encode_files (file ∷ rest) =
      to_le_bytes 8 (to_u64 (length file.path))
      ++ (file.path
          ++ (to_le_bytes 8 (to_u64 (length file.contents))
              ++ (as_bytes file.digest ++ (file.executable_mask ∷ encode_files rest))))

  unfoldable pub snapshot_digest : List (SnapshotFile D) → D
  snapshot_digest files = digest_of (
      codes "REPROCUT-SNAPSHOT-V2\0"
      ++ (to_le_bytes 8 (to_u64 (length files)) ++ encode_files files))

  abbrev pub from_files : List (SnapshotFile D) → ProjectSnapshot D
  from_files files = record {
    files = files;
    digest = snapshot_digest files;
    measurements = snapshot_measurements files;
  }

  unfoldable pub with_file_contents :
      ProjectSnapshot D → Bytes → Bytes → Attempt WorkspaceError (ProjectSnapshot D)
  with_file_contents snapshot path contents = do
    (index, file) ← found_file snapshot.files path
    done (from_files (set snapshot.files index (with_contents file contents)))

  -- `ProjectSnapshot::subset`; a unit is its path.
  unfoldable pub subset :
      ProjectSnapshot D → List Bytes → Attempt WorkspaceError (ProjectSnapshot D)
  subset snapshot paths = do
    files ← select_files snapshot.files paths
    done (from_files (dedup path_order (sort_by path_order files)))

  -- The `match` on the first operation of a group.
  unfoldable pub apply_group :
      List (SnapshotFile D)
      → ℕ × SnapshotFile D
      → Operation
      → List Operation
      → Attempt WorkspaceError (List (SnapshotFile D))
  apply_group files (index, file) (delete_file path) group = done (remove_at index files)
  apply_group files (index, file) (replace_range path range replacement) group = do
    contents ←
        apply_replacements_to_bytes file.contents (replace_range path range replacement ∷ group)
          path
    done (set files index (with_contents file contents))

  -- The loop of `with_transformation`; one group of operations takes one unit of fuel.
  unfoldable pub apply_groups :
      (fuel : ℕ)
      → List (SnapshotFile D)
      → List Operation
      → Attempt WorkspaceError (List (SnapshotFile D))
  apply_groups fuel files [] = done files
  apply_groups zero files (operation ∷ rest) = crashed stuck
  apply_groups (suc fuel) files (operation ∷ rest) = do
    target ← found_file files (path_of operation)
    let parts = span_path (path_of operation) rest
    files' ← apply_group files target operation parts.0
    apply_groups fuel files' parts.1

  unfoldable pub with_transformation :
      ProjectSnapshot D → Transformation D → Attempt WorkspaceError (ProjectSnapshot D)
  with_transformation snapshot transformation = do
    files ← apply_groups (length transformation.operations) snapshot.files transformation.operations
    done (from_files files)
