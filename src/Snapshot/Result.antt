-- ===== src/Snapshot/Result.antt =====
-- `with_transformation` against its description: each path by itself.
use mathlib.Core.Path.{subst}
use reprocut.Prelude.{ℕ, zero, suc, ◌≡◌, ◌≢◌, refl, sym, ◌∙◌, ap, inl, inr, arith, true, false}
use reprocut.Prelude.{Bool-cases, Option, some, none, List, [], ◌∷◌, length, All}
use reprocut.Prelude.Faults.{stuck}
use reprocut.Prelude.Attempts.{Attempt, done, failed, crashed, bind-done, done-injective}
use reprocut.Prelude.Members.{All-Has, Has-All}
use reprocut.Transformation.{Bytes, Operation, delete_file, replace_range, path_of}
use reprocut.Transformation.{same_path, Transformation, new_transformation, ok}
use reprocut.Transformation.Pairs.{IsValid, same_path→≡, same_path_self}
use reprocut.Transformation.Accepted.{new_transformation-IsCanonical}
use reprocut.Snapshot.{WorkspaceError, SnapshotFile, ProjectSnapshot, found_file, span_path}
use reprocut.Snapshot.{with_contents, apply_group, apply_groups}
use reprocut.Snapshot.{with_transformation}
use reprocut.Snapshot.Splice.{splice_all}
use reprocut.Snapshot.Applied.{AreCanonical, tail-AreCanonical, group-IsOrdered}
use reprocut.Snapshot.Applied.{span_path-AreCanonical, apply_replacements_to_bytes-outcome}
use reprocut.Snapshot.Search.{AreOrdered}
use reprocut.Snapshot.Contents.{operations_on, file_at, span_path-apart}
use reprocut.Snapshot.Contents.{span_path-same, span_path-other, set-file_at, set-file_at_ne}
use reprocut.Snapshot.Contents.{remove_at-file_at, remove_at-file_at_ne}
use reprocut.Snapshot.Edited.{
  ordered-AreFiles, set-AreOrdered, remove_at-AreOrdered, found_file-done,
}

module _ {D : Type 0} (digest_of : Bytes → D) (as_bytes : D → Bytes) where
  -- What the operations on its path make of a file: it stays, it goes, or its bytes are spliced.
  abbrev pub edited : Option (SnapshotFile D) → List Operation → Option (SnapshotFile D)
  edited file [] = file
  edited file (delete_file path ∷ rest) = none
  edited none (replace_range path range t ∷ rest) = none
  edited (some file) (replace_range path range t ∷ rest) = some (
      with_contents digest_of as_bytes file
        (splice_all (replace_range path range t ∷ rest) file.contents))

  -- Each path has what the operations on it make of the file that it had.
  abbrev pub IsEdited : List (SnapshotFile D) → List Operation → List (SnapshotFile D) → Type 0
  IsEdited files operations files' =
      (path : Bytes)
      → file_at files' path ≡ edited (file_at files path) (operations_on path operations)

  -- The step on one group.
  abbrev IsStep : List (SnapshotFile D) → Bytes → List Operation → List (SnapshotFile D) → Type 0
  IsStep files path group files' =
      (file_at files' path ≡ edited (file_at files path) group)
      × ((other : Bytes) → path ≢ other → file_at files' other ≡ file_at files other)
      × AreOrdered files'

  apply_group-IsStep :
      (files files' : List (SnapshotFile D)) (target : ℕ × SnapshotFile D) (operation : Operation)
      (rest : List Operation)
      → AreOrdered files
      → AreCanonical (operation ∷ rest)
      → found_file files (path_of operation) ≡ done target
      → apply_group digest_of as_bytes files target operation (span_path (path_of operation) rest).0
        ≡ done files'
      → IsStep files (path_of operation) (operation ∷ (span_path (path_of operation) rest).0) files'
  unfolding apply_group
  apply_group-IsStep files files' target (delete_file path) rest d h found made =
      let (at, held, here, same) = found_file-done files path target d found in
      subst (IsStep files path (delete_file path ∷ (span_path path rest).0)) (done-injective made) (
        remove_at-file_at files path target.0 (ordered-AreFiles files d) at,
        (λ other differ. remove_at-file_at_ne files path other target.0 at differ),
        remove_at-AreOrdered files target.0 d,
      )
  apply_group-IsStep files files' target (replace_range path range t) rest d h found made =
      let (at, held, here, same) = found_file-done files path target d found in
      let group = replace_range path range t ∷ (span_path path rest).0 in
      elim (apply_replacements_to_bytes-outcome (target.1.contents) group path
        (omega arith, h.2.0, group-IsOrdered path range t rest h)) [
          | inl (e, wrong) ↦ absurd (not_done e (rw wrong at made))
          | inr spliced ↦
              let file' =
                with_contents digest_of as_bytes target.1 (splice_all group target.1.contents) in
              subst (IsStep files path group) (done-injective (rw spliced at made)) (
                set-file_at file' files path target.0 at same
                    ∙ sym (ap (λ file. edited file group) here),
                (λ other differ. set-file_at_ne file' files path other target.0 at same differ),
                set-AreOrdered files target.0 (target.1) file' d held refl,
              )
        ]
    where
      not_done :
          (e : WorkspaceError)
          → ◌≡◌ {A = Attempt WorkspaceError (List (SnapshotFile D))} (failed e) (done files')
          → ⊥
      not_done e q = cc

  apply_groups-IsEdited :
      (fuel : ℕ) (files files' : List (SnapshotFile D)) (operations : List Operation)
      → AreOrdered files
      → AreCanonical operations
      → apply_groups digest_of as_bytes fuel files operations ≡ done files'
      → IsEdited files operations files' × AreOrdered files'
  unfolding apply_groups operations_on
  apply_groups-IsEdited fuel files files' [] d h made =
      subst (λ made_files. IsEdited files [] made_files × AreOrdered made_files)
        (done-injective made) ((λ path. refl), d)
  apply_groups-IsEdited zero files files' (operation ∷ rest) d h made = absurd (not_done made)
    where
      not_done :
          ◌≡◌ {A = Attempt WorkspaceError (List (SnapshotFile D))} (crashed stuck) (done files') → ⊥
      not_done q = cc
  apply_groups-IsEdited (suc fuel) files files' (operation ∷ rest) d h made =
      let path = path_of operation in
      let later = (span_path path rest).1 in
      let (target, found, made1) = bind-done (found_file files path) _ made in
      let (files1, grouped, made2) =
        bind-done (apply_group digest_of as_bytes files target operation (span_path path rest).0) _
          made1 in
      let (here, elsewhere, d1) =
        apply_group-IsStep files files1 target operation rest d h found grouped in
      let (canonical, _) = span_path-AreCanonical path rest (tail-AreCanonical operation rest h) in
      let (after, d') = apply_groups-IsEdited fuel files1 files' later d1 canonical made2 in
      let none_left = span_path-apart path operation rest refl h.0 in
      (
        (λ p. elim (Bool-cases (same_path path p)) [
          | inl same ↦
              let e = same_path→≡ path p same in
              rw same (
                subst
                  (λ q.
                    file_at files' q ≡ edited (file_at files q) (operation ∷ operations_on q rest))
                  e
                  (after path
                    ∙ ap (edited (file_at files1 path)) none_left
                    ∙ here
                    ∙ ap (λ group. edited (file_at files path) (operation ∷ group))
                        (sym (span_path-same path rest none_left))))
          | inr other ↦
              let differ = λ (e : path ≡ p). differs p e other in
              rw other (
                after p
                ∙ ap (λ file. edited file (operations_on p later)) (elsewhere p differ)
                ∙ ap (edited (file_at files p)) (sym (span_path-other path p rest differ)))
        ]),
        d',
      )
    where
      differs : (p : Bytes) → path_of operation ≡ p → same_path (path_of operation) p ≡ false → ⊥
      differs p e other =
          apart (sym (same_path_self p) ∙ subst (λ q. same_path q p ≡ false) e other)
        where
          apart : true ≡ false → ⊥
          apart q = cc

  -- A transformation that `Transformation::new` built from non-empty ranges, applied to a snapshot
  -- with ascending paths, gives such a snapshot, in which each path has what the operations on it
  -- make of the file: no operation leaves it, a deletion removes it, and replacements splice
  -- its bytes, from the last to the first.
  pub with_transformation-edited :
      (snapshot result : ProjectSnapshot D) (operations : List Operation) (t : Transformation D)
      (path : Bytes)
      → AreOrdered snapshot.files
      → All IsValid operations
      → new_transformation digest_of operations ≡ ok t
      → with_transformation digest_of as_bytes snapshot t ≡ done result
      → (file_at result.files path
          ≡ edited (file_at snapshot.files path) (operations_on path t.operations))
        × AreOrdered result.files
  unfolding with_transformation
  with_transformation-edited snapshot result operations t path d valid h made =
      let (members, ascending, free, _, _) =
        new_transformation-IsCanonical digest_of operations t valid h in
      let valid' =
        Has-All IsValid t.operations
          (λ x member. All-Has IsValid operations valid x ((members x).0 member)) in
      let (files', applied, e) =
        bind-done
          (apply_groups digest_of as_bytes (length t.operations) snapshot.files t.operations) _
          made in
      let each =
        apply_groups-IsEdited (length t.operations) snapshot.files files' t.operations d
          (ascending, free, valid') applied in
      subst
        (λ (built : ProjectSnapshot D).
          (file_at built.files path
            ≡ edited (file_at snapshot.files path) (operations_on path t.operations))
          × AreOrdered built.files)
        (done-injective e) (each.0 path, each.1)
