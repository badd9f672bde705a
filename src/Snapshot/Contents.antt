-- ===== src/Snapshot/Contents.antt =====
-- What a snapshot holds under each path after a transformation.
use mathlib.Core.Path.{subst}
use mathlib.Core.Option.{some-injective}
use reprocut.Prelude.{ℕ, suc, ◌≡◌, ◌≢◌, refl, sym, ◌∙◌, ap, inl, inr, true, false}
use reprocut.Prelude.{Bool-cases, Option-cases, Option, some, none, List, [], ◌∷◌, All, set}
use reprocut.Prelude.{if◌then◌else◌}
use Prim.Native.Nat.{Ordering}
use reprocut.Prelude.Sorting.{IsAscending}
use reprocut.Transformation.{Bytes, Operation, path_of}
use reprocut.Transformation.{same_path, canonical_operation_order}
use reprocut.Transformation.Pairs.{same_path→≡, same_path_self, same_path-≢, path_gap}
use reprocut.Snapshot.{SnapshotFile, span_path, remove_at}
use reprocut.Snapshot.Search.{scan_index}

-- The operations on one path.
unfoldable pub operations_on : Bytes → List Operation → List Operation
operations_on path [] = []
operations_on path (operation ∷ rest) =
    let later = operations_on path rest in
    if same_path (path_of operation) path then operation ∷ later else later

module _ {D : Type 0} where
  -- The file with the path.
  unfoldable pub file_at : List (SnapshotFile D) → Bytes → Option (SnapshotFile D)
  file_at [] path = none
  file_at (file ∷ rest) path =
      let later = file_at rest path in if same_path file.path path then some file else later

  -- No two files have the same path.
  abbrev pub AreFiles : List (SnapshotFile D) → Type 0
  AreFiles [] = Unit
  AreFiles (file ∷ rest) = (file_at rest file.path ≡ none) × AreFiles rest

pub same_path-false : (a b : Bytes) → a ≢ b → same_path a b ≡ false
same_path-false a b differ = elim (Bool-cases (same_path a b)) [
  | inl same ↦ absurd (differ (same_path→≡ a b same))
  | inr other ↦ other
]

-- Behind the group of a path there is no operation on it.
pub span_path-apart :
    (path : Bytes) (before : Operation) (rest : List Operation)
    → path_of before ≡ path
    → IsAscending canonical_operation_order (before ∷ rest)
    → operations_on path (span_path path rest).1 ≡ []
unfolding span_path operations_on
span_path-apart path before [] e h = refl
span_path-apart path before (next ∷ rest) e ((less, _), h) =
    elim (Bool-cases (same_path (path_of next) path)) [
      | inl same ↦ rw same (span_path-apart path next rest (same_path→≡ (path_of next) path same) h)
      | inr other ↦ rw other (
          rw other (
            none_behind before next rest e
              (λ same. same_path-≢ path (path_of next) other (sym e ∙ same)) less h.0))
    ]
  where
    none_behind :
        (before next : Operation) (rest : List Operation)
        → path_of before ≡ path
        → path_of before ≢ path_of next
        → canonical_operation_order before next ≡ Ordering.lt
        → All (λ c. canonical_operation_order next c ≡ Ordering.lt) rest
        → operations_on path rest ≡ []
    none_behind before next [] e differ less k = refl
    none_behind before next (c ∷ rest) e differ less (k, ks) =
        let gap = path_gap before next c differ less k in
        let other = same_path-false (path_of c) path (λ same. gap (e ∙ sym same)) in
        rw other (none_behind before next rest e differ less ks)

-- The operations on a path are the group at the front, and those on another path stand behind it.
pub span_path-same :
    (path : Bytes) (rest : List Operation)
    → operations_on path (span_path path rest).1 ≡ []
    → operations_on path rest ≡ (span_path path rest).0
unfolding span_path operations_on
span_path-same path [] h = refl
span_path-same path (next ∷ rest) h = elim (Bool-cases (same_path (path_of next) path)) [
  | inl same ↦ rw same (ap (λ group. next ∷ group) (span_path-same path rest (rw same at h)))
  | inr other ↦ let h' = rw other at h in rw other (rw other at h')
]

pub span_path-other :
    (path other : Bytes) (rest : List Operation)
    → path ≢ other
    → operations_on other rest ≡ operations_on other (span_path path rest).1
unfolding span_path operations_on
span_path-other path other [] differ = refl
span_path-other path other (next ∷ rest) differ =
    elim (Bool-cases (same_path (path_of next) path)) [
      | inl same ↦
          let apart =
            same_path-false (path_of next) other
              (λ e. differ (sym (same_path→≡ (path_of next) path same) ∙ e)) in
          rw (same, apart) (span_path-other path other rest differ)
      | inr outside ↦ rw outside refl
    ]

module _ {D : Type 0} (file' : SnapshotFile D) where
  -- Writing the file that was found, or removing it, changes what is under its path alone.
  pub set-file_at :
      (files : List (SnapshotFile D)) (path : Bytes) (index : ℕ)
      → scan_index files path ≡ some index
      → file'.path ≡ path
      → file_at (set files index file') path ≡ some file'
  unfolding scan_index file_at
  set-file_at [] path index h e = absurd (cc)
  set-file_at (file ∷ rest) path index h e = elim (Bool-cases (same_path file.path path)) [
    | inl same ↦
        let at = some-injective 0 index (rw same at h) in
        let own : same_path file'.path path ≡ true = rw e (same_path_self path) in
        rw (← at, own) refl
    | inr other ↦ elim (Option-cases (scan_index rest path)) [
      | inl nothing ↦ absurd (apart (rw (other, nothing) at h))
      | inr (later, found) ↦
          let at = some-injective (suc later) index (rw (other, found) at h) in
          rw (← at, other) (set-file_at rest path later found e)
    ]
  ]
    where
      apart : none ≡ some index → ⊥
      apart q = cc

  pub set-file_at_ne :
      (files : List (SnapshotFile D)) (path other : Bytes) (index : ℕ)
      → scan_index files path ≡ some index
      → file'.path ≡ path
      → path ≢ other
      → file_at (set files index file') other ≡ file_at files other
  unfolding scan_index file_at
  set-file_at_ne [] path other index h e differ = refl
  set-file_at_ne (file ∷ rest) path other index h e differ =
      elim (Bool-cases (same_path file.path path)) [
        | inl same ↦
            let at = some-injective 0 index (rw same at h) in
            let own : same_path file'.path other ≡ false =
              same_path-false file'.path other (λ q. differ (sym e ∙ q)) in
            let old : same_path file.path other ≡ false =
              same_path-false file.path other
                (λ q. differ (sym (same_path→≡ file.path path same) ∙ q)) in
            rw (← at, own, old) refl
        | inr outside ↦ elim (Option-cases (scan_index rest path)) [
          | inl nothing ↦ absurd (apart (rw (outside, nothing) at h))
          | inr (later, found) ↦
              let at = some-injective (suc later) index (rw (outside, found) at h) in
              rw (← at, set-file_at_ne rest path other later found e differ) refl
        ]
      ]
    where
      apart : none ≡ some index → ⊥
      apart q = cc

module _ {D : Type 0} where
  pub remove_at-file_at :
      (files : List (SnapshotFile D)) (path : Bytes) (index : ℕ)
      → AreFiles files
      → scan_index files path ≡ some index
      → file_at (remove_at index files) path ≡ none
  unfolding scan_index file_at remove_at
  remove_at-file_at [] path index d h = absurd (cc)
  remove_at-file_at (file ∷ rest) path index (d, ds) h =
      elim (Bool-cases (same_path file.path path)) [
        | inl same ↦
            let at = some-injective 0 index (rw same at h) in
            rw (← at) (subst (λ p. file_at rest p ≡ none) (same_path→≡ file.path path same) d)
        | inr other ↦ elim (Option-cases (scan_index rest path)) [
          | inl nothing ↦ absurd (apart (rw (other, nothing) at h))
          | inr (later, found) ↦
              let at = some-injective (suc later) index (rw (other, found) at h) in
              rw (← at, other) (remove_at-file_at rest path later ds found)
        ]
      ]
    where
      apart : none ≡ some index → ⊥
      apart q = cc

  pub remove_at-file_at_ne :
      (files : List (SnapshotFile D)) (path other : Bytes) (index : ℕ)
      → scan_index files path ≡ some index
      → path ≢ other
      → file_at (remove_at index files) other ≡ file_at files other
  unfolding scan_index file_at remove_at
  remove_at-file_at_ne [] path other index h differ = refl
  remove_at-file_at_ne (file ∷ rest) path other index h differ =
      elim (Bool-cases (same_path file.path path)) [
        | inl same ↦
            let at = some-injective 0 index (rw same at h) in
            let old : same_path file.path other ≡ false =
              same_path-false file.path other
                (λ q. differ (sym (same_path→≡ file.path path same) ∙ q)) in
            rw (← at, old) refl
        | inr outside ↦ elim (Option-cases (scan_index rest path)) [
          | inl nothing ↦ absurd (apart (rw (outside, nothing) at h))
          | inr (later, found) ↦
              let at = some-injective (suc later) index (rw (outside, found) at h) in
              rw (← at, remove_at-file_at_ne rest path other later found differ) refl
        ]
      ]
    where
      apart : none ≡ some index → ⊥
      apart q = cc
