-- ===== src/Snapshot/Edited.antt =====
-- What `with_transformation` makes of a snapshot, path by path.
use Prim.Native.Nat.{compare, Ordering}
use mathlib.Core.Path.{subst}
use mathlib.Core.Option.{some-injective}
use reprocut.Prelude.{ℕ, zero, suc, ◌≡◌, ◌≢◌, refl, sym, ◌∙◌, inl, inr}
use reprocut.Prelude.{Bool-cases, Option-cases, some, none, List, [], ◌∷◌, All, set, get_elem?}
use reprocut.Prelude.Attempts.{Attempt, done, failed, done-injective}
use reprocut.Prelude.Orders.{compare_list}
use reprocut.Transformation.{Bytes}
use reprocut.Transformation.{same_path}
use reprocut.Snapshot.{missing_transformation_target}
use reprocut.Snapshot.{WorkspaceError, SnapshotFile, file_index, found_file, path_order}
use reprocut.Snapshot.{remove_at}
use reprocut.Snapshot.Search.{
  AreOrdered, All-at, paths-IsOrder, scan_index, file_index-found, file_index-scan_index,
}
use reprocut.Snapshot.Contents.{file_at, AreFiles, same_path-false}

-- A path is not below itself.
lt-≢ : (a b : Bytes) → compare_list compare a b ≡ Ordering.lt → a ≢ b
lt-≢ a b less e = apart (
    sym (paths-IsOrder.self b)
    ∙ subst (λ (p : Bytes). compare_list compare p b ≡ Ordering.lt) e less)
  where
    apart : Ordering.eq ≡ Ordering.lt → ⊥
    apart q = cc

module _ {D : Type 0} where
  none_above :
      (file : SnapshotFile D) (rest : List (SnapshotFile D))
      → All (λ b. path_order file b ≡ Ordering.lt) rest
      → file_at rest file.path ≡ none
  unfolding file_at
  none_above file [] hs = refl
  none_above file (next ∷ rest) (less, hs) =
      let other =
        same_path-false next.path file.path (λ e. lt-≢ (file.path) (next.path) less (sym e)) in
      rw other (none_above file rest hs)

  -- In ascending order no two files have the same path.
  pub ordered-AreFiles : (files : List (SnapshotFile D)) → AreOrdered files → AreFiles files
  ordered-AreFiles [] h = tt
  ordered-AreFiles (file ∷ rest) (below, h) = (none_above file rest below, ordered-AreFiles rest h)

  All-set :
      (P : SnapshotFile D → Type 0) (files : List (SnapshotFile D)) (index : ℕ)
      (file : SnapshotFile D)
      → All P files
      → P file
      → All P (set files index file)
  All-set P [] index file hs h = tt
  All-set P (first ∷ rest) zero file (k, ks) h = (h, ks)
  All-set P (first ∷ rest) (suc index) file (k, ks) h = (k, All-set P rest index file ks h)

  All-remove_at :
      (P : SnapshotFile D → Type 0) (files : List (SnapshotFile D)) (index : ℕ)
      → All P files
      → All P (remove_at index files)
  unfolding remove_at
  All-remove_at P [] index hs = tt
  All-remove_at P (first ∷ rest) zero (k, ks) = ks
  All-remove_at P (first ∷ rest) (suc index) (k, ks) = (k, All-remove_at P rest index ks)

  -- A file that is replaced by one of the same path, or removed, leaves the others in order.
  pub set-AreOrdered :
      (files : List (SnapshotFile D)) (index : ℕ) (old file' : SnapshotFile D)
      → AreOrdered files
      → get_elem? files index ≡ some old
      → file'.path ≡ old.path
      → AreOrdered (set files index file')
  set-AreOrdered [] index old file' h at e = tt
  set-AreOrdered (first ∷ rest) zero old file' (below, h) at e =
      let own = some-injective first old at in
      let same : first.path ≡ file'.path = rw (own, e) refl in
      (
        subst
            (λ (p : Bytes).
              All (λ (b : SnapshotFile D). compare_list compare p b.path ≡ Ordering.lt) rest)
            same below,
        h,
      )
  set-AreOrdered (first ∷ rest) (suc index) old file' (below, h) at e =
      let above =
        subst (λ (p : Bytes). compare_list compare first.path p ≡ Ordering.lt) (sym e)
          (All-at (λ b. path_order first b ≡ Ordering.lt) rest index old below at) in
      (
        All-set (λ b. path_order first b ≡ Ordering.lt) rest index file' below above,
        set-AreOrdered rest index old file' h at e,
      )

  pub remove_at-AreOrdered :
      (files : List (SnapshotFile D)) (index : ℕ)
      → AreOrdered files
      → AreOrdered (remove_at index files)
  unfolding remove_at
  remove_at-AreOrdered [] index h = tt
  remove_at-AreOrdered (first ∷ rest) zero (below, h) = h
  remove_at-AreOrdered (first ∷ rest) (suc index) (below, h) = (
    All-remove_at (λ b. path_order first b ≡ Ordering.lt) rest index below,
    remove_at-AreOrdered rest index h,
  )

  -- The file of an index that was found is the one with the path.
  pub scan_index-file_at :
      (files : List (SnapshotFile D)) (path : Bytes) (index : ℕ) (file : SnapshotFile D)
      → scan_index files path ≡ some index
      → get_elem? files index ≡ some file
      → file_at files path ≡ some file
  unfolding scan_index file_at
  scan_index-file_at [] path index file h e = absurd (cc)
  scan_index-file_at (first ∷ rest) path index file h e =
      elim (Bool-cases (same_path first.path path)) [
        | inl same ↦ let at = some-injective 0 index (rw same at h) in rw same (rw (← at) at e)
        | inr other ↦ elim (Option-cases (scan_index rest path)) [
          | inl nothing ↦ absurd (apart (rw (other, nothing) at h))
          | inr (later, found) ↦
              let at = some-injective (suc later) index (rw (other, found) at h) in
              rw other (scan_index-file_at rest path later file found (rw (← at) at e))
        ]
      ]
    where
      apart : none ≡ some index → ⊥
      apart q = cc

  pub found_file-done :
      (files : List (SnapshotFile D)) (path : Bytes) (target : ℕ × SnapshotFile D)
      → AreOrdered files
      → found_file files path ≡ done target
      → (scan_index files path ≡ some target.0)
        × (get_elem? files target.0 ≡ some target.1)
        × (file_at files path ≡ some target.1)
        × (target.1.path ≡ path)
  found_file-done files path target ordered h = elim (Option-cases (file_index files path)) [
    | inl nothing ↦ absurd (not_done (rw (found_file, nothing) at h))
    | inr (index, e) ↦
        let (file, at, same) = file_index-found files path index e in
        let scanned = sym (file_index-scan_index files path ordered) ∙ e in
        let made = done-injective (rw (found_file, e, at) at h) in
        subst
          (λ (pair : ℕ × SnapshotFile D).
            (scan_index files path ≡ some pair.0)
            × (get_elem? files pair.0 ≡ some pair.1)
            × (file_at files path ≡ some pair.1)
            × (pair.1.path ≡ path))
          made (scanned, at, scan_index-file_at files path index file scanned at, same)
  ]
    where
      not_done :
          ◌≡◌ {A = Attempt WorkspaceError (ℕ × SnapshotFile D)}
            (failed (missing_transformation_target path))
            (done target)
          → ⊥
      not_done q = cc
