-- ===== src/Transformation/Pairs.antt =====
-- Conflicts of operations, and what the canonical order says of paths and of range starts.
use reprocut.Prelude.{◌≤◌, ◌<◌, ◌≡◌, ◌≢◌, refl, sym, ◌∙◌, ◌⊎◌, inl, inr}
use reprocut.Prelude.{arith, true, false, none, some, List, [], ◌∷◌, All}
use Prim.Native.Nat.{compare, Ordering}
use mathlib.Core.Path.{subst}
use reprocut.Prelude.Orders.{Ordering-cases, compare_list, then_with-lt}
use reprocut.Transformation.{
  Bytes, ByteRange, Operation, delete_file, replace_range, path_of, range_of,
}
use reprocut.Transformation.{compare_range, canonical_operation_order}
use reprocut.Transformation.{same_path, overlaps, Result, ok, err}
use reprocut.Transformation.Order.{path-IsOrder}
use reprocut.Transformation.{TransformationError}

-- What `ByteRange::new` promises of the ranges of an operation.
abbrev pub IsValid : Operation → Type 0
IsValid (delete_file path) = Unit
IsValid (replace_range path range replacement) = range.start < range.end

-- No byte is in both ranges.
abbrev pub IsApart : ByteRange → ByteRange → Type 0
IsApart r r' = (r.end ≤ r'.start) ⊎ (r'.end ≤ r.start)

-- Two operations on one file replace ranges that have no byte in common.
abbrev pub NoConflict : Operation → Operation → Type 0
NoConflict a b =
    path_of a ≡ path_of b
    → (r : ByteRange) × (r' : ByteRange) × (range_of a ≡ some r)
      × (range_of b ≡ some r')
      × IsApart r r'

abbrev pub IsConflictFree : List Operation → Type 0
IsConflictFree [] = Unit
IsConflictFree (operation ∷ rest) = All (NoConflict operation) rest × IsConflictFree rest

abbrev pub IsOk : Result (Unit {0}) → Type 0
IsOk result = result ≡ ok tt

pub err-IsOk : {e : TransformationError} → IsOk (err e) → ⊥
err-IsOk e = cc

pub no_range : {r : ByteRange} → none ≢ some r
no_range e = cc

pub same_path→≡ : (a b : Bytes) → same_path a b ≡ true → a ≡ b
same_path→≡ a b h = elim (Ordering-cases (compare_list compare a b)) [
  | inl less ↦ absurd (apart (rw (same_path, less) at h))
  | inr (inl e) ↦ path-IsOrder.same a b e
  | inr (inr more) ↦ absurd (apart (rw (same_path, more) at h))
]
  where
    apart : false ≢ true
    apart e = cc

pub same_path_self : (a : Bytes) → same_path a a ≡ true
same_path_self a = rw (same_path, path-IsOrder.self a) refl

-- Canonically earlier operations have earlier or equal paths.
path_below :
    (a b : Operation)
    → canonical_operation_order a b ≡ Ordering.lt
    → (compare_list compare (path_of a) (path_of b) ≡ Ordering.lt) ⊎ (path_of a ≡ path_of b)
path_below a b h = elim (then_with-lt (compare_list compare (path_of a) (path_of b)) _ h) [
  | inl less ↦ inl less
  | inr (e, _) ↦ inr (path-IsOrder.same (path_of a) (path_of b) e)
]

-- Behind an operation on another path there is none on the first path.
pub path_gap :
    (a b c : Operation)
    → path_of a ≢ path_of b
    → canonical_operation_order a b ≡ Ordering.lt
    → canonical_operation_order b c ≡ Ordering.lt
    → path_of a ≢ path_of c
path_gap a b c differ h k = elim (path_below a b h) [
  | inr same ↦ absurd (differ same)
  | inl less ↦ elim (path_below b c k) [
    | inr same ↦ λ e. differ (e ∙ sym same)
    | inl less' ↦ λ e.
        let chain = path-IsOrder.trans (path_of a) (path_of b) (path_of c) less less' in
        apart (
          sym (path-IsOrder.self (path_of c))
          ∙ subst (λ p. compare_list compare p (path_of c) ≡ Ordering.lt) e chain)
  ]
]
  where
    apart : Ordering.eq ≢ Ordering.lt
    apart e = cc

All-path_gap :
    (op a b : Operation) (rest : List Operation)
    → path_of a ≡ path_of op
    → path_of a ≢ path_of b
    → canonical_operation_order a b ≡ Ordering.lt
    → All (λ c. canonical_operation_order b c ≡ Ordering.lt) rest
    → All (NoConflict op) rest
All-path_gap op a b [] same differ h k = tt
All-path_gap op a b (c ∷ rest) same differ h (k, ks) =
    (λ e. absurd (path_gap a b c differ h k (same ∙ e)), All-path_gap op a b rest same differ h ks)

pub start_below :
    (p : Bytes) (q r : ByteRange) (u t : Bytes)
    → canonical_operation_order (replace_range p q u) (replace_range p r t) ≡ Ordering.lt
    → q.start ≤ r.start
start_below p q r u t h =
    let inner = rw (path-IsOrder.self p) at h in
    elim (then_with-lt (compare_range q r) _ inner) [
      | inr (e, _) ↦ elim (Ordering-cases (compare q.start r.start)) [
        | inl less ↦ ground arith
        | inr (inl same) ↦ ground arith
        | inr (inr more) ↦ absurd (above (sym (rw more refl) ∙ e))
      ]
      | inl less ↦ elim (then_with-lt (compare q.start r.start) (compare q.end r.end) less) [
        | inl below ↦ ground arith
        | inr (same, _) ↦ ground arith
      ]
    ]
  where
    above : Ordering.gt ≢ Ordering.eq
    above e = cc

pub same_path-≢ : (a b : Bytes) → same_path b a ≡ false → a ≢ b
same_path-≢ a b other e =
    apart (sym (same_path_self a) ∙ subst (λ x. same_path x a ≡ false) (sym e) other)
  where
    apart : true ≢ false
    apart e = cc

-- Where the scan of `op` breaks off, nothing can conflict with `op` any more.
pub break-NoConflict :
    (op a b : Operation) (rest : List Operation)
    → path_of a ≡ path_of op
    → same_path (path_of b) (path_of op) ≡ false
    → canonical_operation_order a b ≡ Ordering.lt
    → All (λ c. canonical_operation_order b c ≡ Ordering.lt) rest
    → All (NoConflict op) (b ∷ rest)
break-NoConflict op a b rest same other h ks =
    let differ : path_of op ≢ path_of b = same_path-≢ (path_of op) (path_of b) other in
    (λ e. absurd (differ e), All-path_gap op a b rest same (λ e. differ (sym same ∙ e)) h ks)

pub overlaps-behind :
    (a b : ByteRange) → a.start ≤ b.start → b.start < b.end → overlaps a b ≡ false → a.end ≤ b.start
overlaps-behind a b le valid h = ground arith

pub overlaps-IsApart : (a b : ByteRange) → IsApart a b → overlaps a b ≡ false
overlaps-IsApart a b (inl le) = ground arith
overlaps-IsApart a b (inr le) = ground arith
