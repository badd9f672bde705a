-- ===== src/Transformation/Conflicts.antt =====
-- `validate_conflicts` compares each range with the one before it only; on operations in canonical
-- order this decides whether any two operations conflict.
use reprocut.Prelude.{◌≤◌, ◌≡◌, refl, sym, ◌∙◌, inl, inr, ◌↔◌}
use reprocut.Prelude.{arith, Bool-cases, none, some, List, [], ◌∷◌, All}
use Prim.Native.Nat.{Ordering}
use mathlib.Core.Option.{some-injective}
use mathlib.Core.Path.{subst}
use reprocut.Prelude.Sorting.{IsAscending}
use reprocut.Transformation.{
  Bytes, ByteRange, Operation, delete_file, replace_range, path_of, range_of,
}
use reprocut.Transformation.{canonical_operation_order}
use reprocut.Transformation.{same_path, overlaps, scan_conflicts, Result, ok, err}
use reprocut.Transformation.{validate_conflicts, and_then}
use reprocut.Transformation.Pairs.{
  IsValid, NoConflict, IsConflictFree, IsOk, err-IsOk, no_range, same_path→≡,
}
use reprocut.Transformation.Pairs.{
  break-NoConflict, start_below, overlaps-behind, overlaps-IsApart, IsApart,
}

-- The scan of a replacement: `q` is the last range seen on its path, its own at first.
scan_sound :
    (p pq : Bytes) (r q : ByteRange) (t u : Bytes) (rest : List Operation)
    → pq ≡ p
    → r.end ≤ q.end
    → IsAscending canonical_operation_order (replace_range pq q u ∷ rest)
    → All IsValid rest
    → IsOk (scan_conflicts (replace_range p r t) (some q) rest)
    → All (NoConflict (replace_range p r t)) rest
unfolding scan_conflicts
scan_sound p pq r q t u [] here le asc vs h = tt
scan_sound p pq r q t u (delete_file p' ∷ rest) here le ((less, _), (above, asc)) (v, vs) h =
    elim (Bool-cases (same_path p' p)) [
      | inl same ↦ absurd (err-IsOk (rw same at h))
      | inr other ↦
          break-NoConflict (replace_range p r t) (replace_range pq q u) (delete_file p') rest here
            other less above
    ]
scan_sound p pq r q t u (replace_range p' r' t' ∷ rest) here le ((less, _), (above, asc)) (v, vs)
      h =
    elim (Bool-cases (same_path p' p)) [
      | inr other ↦
          break-NoConflict (replace_range p r t) (replace_range pq q u) (replace_range p' r' t')
            rest here other less above
      | inl same ↦ elim (Bool-cases (overlaps q r')) [
        | inl hit ↦ absurd (err-IsOk (rw (same, hit) at h))
        | inr free ↦
            let there = same_path→≡ p' p same in
            let below = start_below pq q r' u t' (
              subst
                (λ x.
                  canonical_operation_order (replace_range pq q u) (replace_range x r' t')
                  ≡ Ordering.lt)
                (there ∙ sym here) less) in
            let gap = overlaps-behind q r' below v free in
            (
              λ e. (r, r', refl, refl, inl (omega arith)),
              scan_sound p p' r r' t t' rest there (omega arith) (above, asc) vs
                  (rw (same, free) at h),
            )
      ]
    ]

scan_delete_sound :
    (p : Bytes) (rest : List Operation)
    → IsAscending canonical_operation_order (delete_file p ∷ rest)
    → IsOk (scan_conflicts (delete_file p) none rest)
    → All (NoConflict (delete_file p)) rest
unfolding scan_conflicts
scan_delete_sound p [] asc h = tt
scan_delete_sound p (next ∷ rest) ((less, _), (above, asc)) h =
    elim (Bool-cases (same_path (path_of next) p)) [
      | inl same ↦ absurd (err-IsOk (rw same at h))
      | inr other ↦ break-NoConflict (delete_file p) (delete_file p) next rest refl other less above
    ]

-- The scan of an operation passes when nothing conflicts.
scan_complete :
    (p pq : Bytes) (r q : ByteRange) (t u : Bytes) (rest : List Operation)
    → pq ≡ p
    → All (NoConflict (replace_range p r t)) rest
    → IsConflictFree (replace_range pq q u ∷ rest)
    → IsOk (scan_conflicts (replace_range p r t) (some q) rest)
unfolding scan_conflicts
scan_complete p pq r q t u [] here nc free = refl
scan_complete p pq r q t u (delete_file p' ∷ rest) here (n, nc) ((m, ms), free) =
    elim (Bool-cases (same_path p' p)) [
      | inr other ↦ rw other refl
      | inl same ↦
          let (_, _, _, none_some, _) = m (here ∙ sym (same_path→≡ p' p same)) in
          absurd (no_range none_some)
    ]
scan_complete p pq r q t u (replace_range p' r' t' ∷ rest) here (n, nc) ((m, ms), free) =
    elim (Bool-cases (same_path p' p)) [
      | inr other ↦ rw other refl
      | inl same ↦
          let there = same_path→≡ p' p same in
          let (s, s', es, es', miss) = m (here ∙ sym there) in
          let free' : IsApart q r' =
            subst (IsApart q) (sym (some-injective r' s' es'))
              (subst (λ x. IsApart x s') (sym (some-injective q s es)) miss) in
          let apart = overlaps-IsApart q r' free' in
          rw (same, apart) (scan_complete p p' r r' t t' rest there nc free)
    ]

scan_delete_complete :
    (p : Bytes) (rest : List Operation)
    → All (NoConflict (delete_file p)) rest
    → IsOk (scan_conflicts (delete_file p) none rest)
unfolding scan_conflicts
scan_delete_complete p [] nc = refl
scan_delete_complete p (next ∷ rest) (n, nc) = elim (Bool-cases (same_path (path_of next) p)) [
  | inr other ↦ rw other refl
  | inl same ↦
      let (_, _, none_some, _, _) = n (sym (same_path→≡ (path_of next) p same)) in
      absurd (no_range none_some)
]

scan-NoConflict :
    (op : Operation) (rest : List Operation)
    → IsAscending canonical_operation_order (op ∷ rest)
    → All IsValid rest
    → IsOk (scan_conflicts op (range_of op) rest)
    → All (NoConflict op) rest
scan-NoConflict (delete_file p) rest asc vs h = scan_delete_sound p rest asc h
scan-NoConflict (replace_range p r t) rest asc vs h =
    scan_sound p p r r t t rest refl (omega arith) asc vs h

scan-IsOk :
    (op : Operation) (rest : List Operation)
    → IsConflictFree (op ∷ rest)
    → IsOk (scan_conflicts op (range_of op) rest)
scan-IsOk (delete_file p) rest free = scan_delete_complete p rest free.0
scan-IsOk (replace_range p r t) rest free = scan_complete p p r r t t rest refl free.0 free

pub and_then-ok :
    {A B : Type 0} (a : Result A) (f : A → Result B) {b : B}
    → and_then a f ≡ ok b
    → (x : A) × (a ≡ ok x) × (f x ≡ ok b)
and_then-ok (ok x) f h = (x, refl, h)
and_then-ok (err e) f h = absurd (cc)

validate_sound :
    (ops : List Operation)
    → IsAscending canonical_operation_order ops
    → All IsValid ops
    → validate_conflicts ops ≡ ok tt
    → IsConflictFree ops
unfolding validate_conflicts
validate_sound [] asc vs h = tt
validate_sound (op ∷ rest) asc (v, vs) h =
    let (x, e, later) = and_then-ok (scan_conflicts op (range_of op) rest) _ h in
    (scan-NoConflict op rest asc vs e, validate_sound rest asc.1 vs later)

validate_complete : (ops : List Operation) → IsConflictFree ops → validate_conflicts ops ≡ ok tt
unfolding validate_conflicts
validate_complete [] free = refl
validate_complete (op ∷ rest) free = rw (scan-IsOk op rest free) (validate_complete rest free.1)

-- On operations in canonical order with non-empty ranges, `validate_conflicts` passes exactly when
-- no two operations conflict: two on one file are both replacements, of ranges that do not overlap.
pub validate_conflicts_iff :
    (ops : List Operation)
    → IsAscending canonical_operation_order ops
    → All IsValid ops
    → (validate_conflicts ops ≡ ok tt) ↔ IsConflictFree ops
validate_conflicts_iff ops asc vs = (validate_sound ops asc vs, validate_complete ops)
