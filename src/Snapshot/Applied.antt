-- ===== src/Snapshot/Applied.antt =====
-- A canonical transformation applied to a snapshot: the groups of operations on one file are in order
-- and apart, so no step panics.
use mathlib.Core.Path.{subst}
use mathlib.Core.Option.{some-injective}
use reprocut.Prelude.{
  ℕ, zero, suc, ◌+◌, ◌-◌, ◌^◌, ◌≤◌, ◌<◌, ◌≡◌, refl, sym, ◌∙◌, ap, ◌⊎◌, inl, inr, arith, true, false,
}
use reprocut.Prelude.{
  not, ltb, ◌==◌, Bool-cases, Option-cases, some, none, List, [], ◌∷◌, length, All,
}
use Prim.Native.Nat.{Ordering}
use reprocut.Prelude.Attempts.{done, failed, Answers, bind-Answers}
use reprocut.Prelude.Sorting.{IsAscending}
use reprocut.Prelude.Members.{All-Has, Has-All}
use reprocut.Transformation.{Bytes, ByteRange, Operation, delete_file, replace_range, path_of}
use reprocut.Transformation.{
  same_path, canonical_operation_order, Transformation, new_transformation, ok,
}
use reprocut.Transformation.Pairs.{IsValid, IsConflictFree, NoConflict, start_below, same_path→≡}
use reprocut.Transformation.Accepted.{new_transformation-IsCanonical}
use reprocut.Diagnostic.Texts.{drop}
use reprocut.Snapshot.{
  WorkspaceError, range_out_of_bounds, SnapshotFile, ProjectSnapshot, file_index, found_file,
  span_path,
}
use reprocut.Snapshot.{measure_ranges, apply_replacements_to_bytes, apply_group}
use reprocut.Snapshot.{apply_groups, with_transformation}
use reprocut.Snapshot.Search.{file_index-found}
use reprocut.Snapshot.Splice.{Fits, splice_all, grown, copy_ranges-splice_all, length-drop}

-- Replacements of ranges that are not empty, in order from the cursor on.
abbrev pub IsOrdered : ℕ → List Operation → Type 0
IsOrdered cursor [] = Unit
IsOrdered cursor (delete_file _ ∷ rest) = ⊥
IsOrdered cursor (replace_range _ range _ ∷ rest) =
    (cursor ≤ range.start) × (range.start < range.end) × IsOrdered range.end rest

abbrev pub AreCanonical : List Operation → Type 0
AreCanonical operations =
    IsAscending canonical_operation_order operations
    × IsConflictFree operations
    × All IsValid operations

pub tail-AreCanonical :
    (operation : Operation) (rest : List Operation)
    → AreCanonical (operation ∷ rest)
    → AreCanonical rest
tail-AreCanonical operation rest ((_, asc), (_, free), (_, valid)) = (asc, free, valid)

no_range : {r : ByteRange} → none ≡ some r → ⊥
no_range e = cc

-- Behind a replacement, the next operation on its path replaces a range behind its own.
next_range :
    (path : Bytes) (range : ByteRange) (t : Bytes) (next : Operation)
    → range.start < range.end
    → IsValid next
    → canonical_operation_order (replace_range path range t) next ≡ Ordering.lt
    → NoConflict (replace_range path range t) next
    → path ≡ path_of next
    → (range' : ByteRange) × (t' : Bytes) × (next ≡ replace_range path range' t')
      × (range.end ≤ range'.start)
      × (range'.start < range'.end)
next_range path range t (delete_file target) lt valid less free e =
    let (r, r', _, h, _) = free e in absurd (no_range h)
next_range path range t (replace_range target range' t') lt valid less free e =
    let (r, r', h, h', apart) = free e in
    let same = some-injective range r h in
    let same' = some-injective range' r' h' in
    let below = start_below path range range' t t' (
      subst
        (λ p.
          canonical_operation_order (replace_range path range t) (replace_range p range' t')
          ≡ Ordering.lt)
        (sym e) less) in
    (
      range',
      t',
      ap (λ p. replace_range p range' t') (sym e),
      elim apart [
        | inl before ↦ rw (same, same') before
        | inr after ↦ absurd (
            behind r r' after (ap (λ x. x.start) same) (ap (λ x. x.start) same')
              (ap (λ x. x.end) same') below valid)
      ],
      valid,
    )
  where
    behind :
        (r r' : ByteRange)
        → r'.end ≤ r.start
        → range.start ≡ r.start
        → range'.start ≡ r'.start
        → range'.end ≡ r'.end
        → range.start ≤ range'.start
        → range'.start < range'.end
        → ⊥
    behind r r' after a b c below valid = omega arith

pub group-IsOrdered :
    (path : Bytes) (range : ByteRange) (t : Bytes) (rest : List Operation)
    → AreCanonical (replace_range path range t ∷ rest)
    → IsOrdered range.end (span_path path rest).0
unfolding span_path
group-IsOrdered path range t [] h = tt
group-IsOrdered path range t (next ∷ rest) h = elim (Bool-cases (same_path (path_of next) path)) [
  | inr other ↦ rw other tt
  | inl same ↦
      let ((less, _), _) = h.0 in
      let ((free, _), _) = h.1 in
      let (lt, (valid, _)) = h.2 in
      let (range', t', e, behind, lt') =
        next_range path range t next lt valid less free
          (sym (same_path→≡ (path_of next) path same)) in
      rw same (
        subst (λ (op : Operation). IsOrdered range.end (op ∷ (span_path path rest).0)) (sym e)
          (
            behind,
            lt',
            group-IsOrdered path range' t' rest (
                subst (λ (op : Operation). AreCanonical (op ∷ rest)) e
                  (tail-AreCanonical (replace_range path range t) (next ∷ rest) h)),
          ))
]

pub span_path-AreCanonical :
    (path : Bytes) (rest : List Operation)
    → AreCanonical rest
    → AreCanonical (span_path path rest).1 × (length (span_path path rest).1 ≤ length rest)
unfolding span_path
span_path-AreCanonical path [] h = (h, omega arith)
span_path-AreCanonical path (next ∷ rest) h = elim (Bool-cases (same_path (path_of next) path)) [
  | inr other ↦ rw other (h, omega arith)
  | inl same ↦
      let (later, le) = span_path-AreCanonical path rest (tail-AreCanonical next rest h) in
      rw same (later, omega arith)
]

-- The first loop fails, or the ranges are within the source and it returns the length of the result.
measure_ranges-outcome :
    (source path : Bytes) (made cursor final_length : ℕ) (operations : List Operation)
    → IsOrdered cursor operations
    → cursor ≤ length source
    → final_length ≡ made + (length source - cursor)
    → ((e : WorkspaceError) × (measure_ranges source path final_length operations ≡ failed e))
      ⊎ (Fits cursor (length source) operations
          × (measure_ranges source path final_length operations
              ≡ done (made + length (drop cursor (splice_all operations source)))))
unfolding measure_ranges splice_all
measure_ranges-outcome source path made cursor final_length [] o le e =
    inr (le, ap done (omega (arith, length-drop cursor source)))
measure_ranges-outcome source path made cursor final_length (delete_file _ ∷ rest) o le e = absurd o
measure_ranges-outcome source path made cursor final_length (replace_range target range t ∷ rest)
      (behind, lt, o) le e =
    let in_order : ltb range.end range.start ≡ false = ground arith in
    elim (Bool-cases (ltb (length source) range.end)) [
      | inl outside ↦ inl (range_out_of_bounds path, rw outside refl)
      | inr inside ↦
          let bound : range.end ≤ length source = ground arith in
          let enough : ltb final_length (range.end - range.start) ≡ false = ground arith in
          elim (Bool-cases
            (not (ltb ((final_length - (range.end - range.start)) + length t) (2 ^ 64)))) [
              | inl large ↦
                  inl (range_out_of_bounds path, rw (inside, in_order, enough, large) refl)
              | inr small ↦
                  rw (inside, in_order, enough, small)
                    (elim (measure_ranges-outcome source path
                      (made + (range.start - cursor) + length t) range.end
                      ((final_length - (range.end - range.start)) + length t) rest o bound
                      (omega arith)) [
                        | inl wrong ↦ inl wrong
                        | inr (fits, later) ↦ inr (
                          (behind, lt, bound, fits),
                          later
                              ∙ ap done (
                                  grown made cursor target range t rest source behind lt bound
                                    fits),
                        )
                      ])
            ]
    ]

-- Ordered replacements fail, or give what splicing them gives.
pub apply_replacements_to_bytes-outcome :
    (source : Bytes) (operations : List Operation) (path : Bytes)
    → IsOrdered 0 operations
    → ((e : WorkspaceError) × (apply_replacements_to_bytes source operations path ≡ failed e))
      ⊎ (apply_replacements_to_bytes source operations path ≡ done (splice_all operations source))
unfolding apply_replacements_to_bytes
apply_replacements_to_bytes-outcome source operations path o =
    elim (measure_ranges-outcome source path 0 0 (length source) operations o (omega arith)
      (omega arith)) [
        | inl (e, wrong) ↦ inl (e, rw wrong refl)
        | inr (fits, measured) ↦
            let same : (length (splice_all operations source)
                  == 0 + length (splice_all operations source))
                ≡ true =
              ground arith in
            inr (rw (measured, copy_ranges-splice_all source 0 [] operations fits, same) refl)
      ]

module _ {D : Type 0} where
  pub found_file-Answers :
      (files : List (SnapshotFile D)) (path : Bytes) → Answers (found_file files path)
  found_file-Answers files path = elim (Option-cases (file_index files path)) [
    | inl nothing ↦ rw (Answers, nothing) tt
    | inr (index, e) ↦
        let (file, at, _) = file_index-found files path index e in rw (Answers, e, at) tt
  ]

module _ {D : Type 0} (digest_of : Bytes → D) (as_bytes : D → Bytes) where
  apply_group-Answers :
      (files : List (SnapshotFile D)) (target : ℕ × SnapshotFile D) (operation : Operation)
      (rest : List Operation)
      → AreCanonical (operation ∷ rest)
      → Answers (
          apply_group digest_of as_bytes files target operation
            (span_path (path_of operation) rest).0)
  unfolding apply_group
  apply_group-Answers files target (delete_file path) rest h = tt
  apply_group-Answers files target (replace_range path range t) rest h =
      elim (apply_replacements_to_bytes-outcome (target.1.contents)
        (replace_range path range t ∷ (span_path path rest).0) path
        (omega arith, h.2.0, group-IsOrdered path range t rest h)) [
          | inl (e, wrong) ↦ rw wrong tt
          | inr made ↦ rw made tt
        ]

  apply_groups-Answers :
      (fuel : ℕ) (files : List (SnapshotFile D)) (operations : List Operation)
      → length operations ≤ fuel
      → AreCanonical operations
      → Answers (apply_groups digest_of as_bytes fuel files operations)
  unfolding apply_groups
  apply_groups-Answers fuel files [] le h = tt
  apply_groups-Answers zero files (operation ∷ rest) le h = absurd (omega arith)
  apply_groups-Answers (suc fuel) files (operation ∷ rest) le h =
      let (later, shorter) =
        span_path-AreCanonical (path_of operation) rest (tail-AreCanonical operation rest h) in
      bind-Answers (found_file files (path_of operation)) _
        (found_file-Answers files (path_of operation))
        (λ target found.
          bind-Answers
            (apply_group digest_of as_bytes files target operation
              (span_path (path_of operation) rest).0)
            _ (apply_group-Answers files target operation rest h)
            (λ files' made.
              apply_groups-Answers fuel files' (span_path (path_of operation) rest).1 (omega arith)
                later))

  -- A transformation that `Transformation::new` built from non-empty ranges is applied to any snapshot
  -- without a panic: no `unreachable!` is reached, every slice and index is within bounds, the
  -- announced length is right, and the fuel is enough.
  pub with_transformation-Answers :
      (snapshot : ProjectSnapshot D) (operations : List Operation) (t : Transformation D)
      → All IsValid operations
      → new_transformation digest_of operations ≡ ok t
      → Answers (with_transformation digest_of as_bytes snapshot t)
  unfolding with_transformation
  with_transformation-Answers snapshot operations t valid h =
      let (members, ascending, free, _, _) =
        new_transformation-IsCanonical digest_of operations t valid h in
      bind-Answers
        (apply_groups digest_of as_bytes (length t.operations) snapshot.files t.operations) _
        (apply_groups-Answers (length t.operations) snapshot.files t.operations (omega arith) (
          ascending,
          free,
          Has-All IsValid t.operations
              (λ x member. All-Has IsValid operations valid x ((members x).0 member)),
        ))
        (λ files made. tt)
