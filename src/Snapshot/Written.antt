-- ===== src/Snapshot/Written.antt =====
-- A file that is written into a snapshot is read back, and the others stay.
use reprocut.Prelude.{ℕ, ◌≡◌, ◌≢◌, refl, sym, ◌∙◌, ap, inl, inr, Bool-cases, Option-cases}
use reprocut.Prelude.{Option, none, some, List, [], ◌∷◌, set}
use reprocut.Prelude.Faults.{ok}
use reprocut.Prelude.Attempts.{done, bind-done, done-injective}
use mathlib.Core.Path.{subst}
use reprocut.Transformation.{Bytes, same_path}
use reprocut.Snapshot.{
  SnapshotFile, ProjectSnapshot, file_index, file_contents, found_file, from_files,
}
use reprocut.Snapshot.{with_contents, with_file_contents}
use reprocut.Snapshot.Contents.{file_at, set-file_at, set-file_at_ne}
use reprocut.Snapshot.Edited.{scan_index-file_at, set-AreOrdered, found_file-done}
use reprocut.Snapshot.Search.{AreOrdered, scan_index, file_index-found, file_index-scan_index}

module _ {D : Type 0} where
  abbrev contents_of : Option (SnapshotFile D) → Option Bytes
  contents_of none = none
  contents_of (some file) = some (file.contents)

  scan_index-missing :
      (files : List (SnapshotFile D)) (path : Bytes)
      → scan_index files path ≡ none
      → file_at files path ≡ none
  unfolding scan_index file_at
  scan_index-missing [] path h = refl
  scan_index-missing (file ∷ rest) path h = elim (Bool-cases (same_path file.path path)) [
    | inl same ↦ absurd (apart (rw same at h))
    | inr other ↦ elim (Option-cases (scan_index rest path)) [
      | inl nothing ↦ rw other (scan_index-missing rest path nothing)
      | inr (later, found) ↦ absurd (apart (rw (other, found) at h))
    ]
  ]
    where
      apart : {index : ℕ} → some index ≡ none → ⊥
      apart q = cc

  file_contents-file_at :
      (snapshot : ProjectSnapshot D) (path : Bytes)
      → AreOrdered snapshot.files
      → file_contents snapshot path ≡ ok (contents_of (file_at snapshot.files path))
  unfolding file_contents
  file_contents-file_at snapshot path ordered =
      let scanned = sym (file_index-scan_index snapshot.files path ordered) in
      elim (Option-cases (file_index snapshot.files path)) [
        | inl nothing ↦
            rw (file_contents, nothing, scan_index-missing snapshot.files path (scanned ∙ nothing))
              refl
        | inr (index, e) ↦
            let (file, at, _) = file_index-found snapshot.files path index e in
            rw
              (
                file_contents,
                e,
                at,
                scan_index-file_at snapshot.files path index file (scanned ∙ e) at,
              )
              refl
      ]

module _ {D : Type 0} (digest_of : Bytes → D) (as_bytes : D → Bytes) where
  -- In a snapshot with ascending paths, after `with_file_contents` the file under the path has the
  -- new contents, under every other path the snapshot has what it had, and the paths still ascend.
  pub with_file_contents-file_contents :
      (snapshot result : ProjectSnapshot D) (path contents other : Bytes)
      → AreOrdered snapshot.files
      → path ≢ other
      → with_file_contents digest_of as_bytes snapshot path contents ≡ done result
      → (file_contents result path ≡ ok (some contents))
        × (file_contents result other ≡ file_contents snapshot other)
        × AreOrdered result.files
  unfolding with_file_contents
  with_file_contents-file_contents snapshot result path contents other ordered differ h =
      let (target, found, made) = bind-done (found_file snapshot.files path) _ h in
      let (at, held, here, same) = found_file-done snapshot.files path target ordered found in
      let file' = with_contents digest_of as_bytes target.1 contents in
      let files' = set snapshot.files target.0 file' in
      let ordered' = set-AreOrdered snapshot.files target.0 (target.1) file' ordered held refl in
      subst
        (λ (built : ProjectSnapshot D).
          (file_contents built path ≡ ok (some contents))
          × (file_contents built other ≡ file_contents snapshot other)
          × AreOrdered built.files)
        (done-injective made)
        (
          file_contents-file_at (from_files digest_of as_bytes files') path ordered'
              ∙ ap (λ file. ok (contents_of file))
                  (set-file_at file' snapshot.files path target.0 at same),
          file_contents-file_at (from_files digest_of as_bytes files') other ordered'
              ∙ ap (λ file. ok (contents_of file))
                  (set-file_at_ne file' snapshot.files path other target.0 at same differ)
              ∙ sym (file_contents-file_at snapshot other ordered),
          ordered',
        )
