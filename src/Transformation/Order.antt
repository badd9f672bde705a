-- ===== src/Transformation/Order.antt =====
-- The canonical order of operations is a total order that tells operations apart, so the canonical
-- form of an operation set does not depend on the order or the repetitions of the input.
use reprocut.Prelude.{ℕ, ◌≡◌, refl, ap, Option, List, arith}
use Prim.Native.Nat.{compare}
use reprocut.Prelude.{◌↔◌}
use reprocut.Prelude.Members.{Has, canonical_unique}
use reprocut.Prelude.Orders.{
  IsOrder, compare-IsOrder, on-IsOrder, pair-IsOrder, list-IsOrder, compare_pair,
}
use reprocut.Prelude.Orders.{option-IsOrder, compare_list}
use reprocut.Prelude.Sorting.{sort_by, dedup, sort_by-IsSorted, dedup-IsAscending}
use reprocut.Prelude.Sorting.{IsAscending}
use reprocut.Transformation.{
  Bytes, ByteRange, Operation, delete_file, replace_range, path_of, range_of,
}
use reprocut.Transformation.{
  replacement_of, operation_tag, compare_range, canonical_operation_order,
}
use reprocut.Transformation.{new_transformation}
use mathlib.Core.Option.{some-injective}

pub path-IsOrder : IsOrder (compare_list compare)
path-IsOrder = list-IsOrder compare-IsOrder

pub range-IsOrder : IsOrder compare_range
range-IsOrder =
    on-IsOrder {cmp = compare_pair compare-IsOrder compare-IsOrder}
      (λ range. (range.start, range.end)) (λ a b e. rw (ap (λ k. k.0) e, ap (λ k. k.1) e) refl)
      (pair-IsOrder compare-IsOrder compare-IsOrder)

-- The four things that the order compares.
abbrev Key : Type 0
Key = Bytes × (ℕ × (Option ByteRange × Option Bytes))

abbrev key_of : Operation → Key
key_of op = (path_of op, (operation_tag op, (range_of op, replacement_of op)))

key_apart : (a b : Operation) → key_of a ≡ key_of b → a ≡ b
key_apart (delete_file p) (delete_file q) e = ap delete_file (ap (λ k. k.0) e)
key_apart (delete_file p) (replace_range q r t) e = absurd (omega (arith, ap (λ k. k.1.0) e))
key_apart (replace_range p r t) (delete_file q) e = absurd (omega (arith, ap (λ k. k.1.0) e))
key_apart (replace_range p r t) (replace_range q r' t') e =
    rw
      (
        ap (λ k. k.0) e,
        some-injective r r' (ap (λ k. k.1.1.0) e),
        some-injective t t' (ap (λ k. k.1.1.1) e),
      )
      refl

pub canonical-IsOrder : IsOrder canonical_operation_order
canonical-IsOrder =
    let ranges = pair-IsOrder (option-IsOrder range-IsOrder) (option-IsOrder path-IsOrder) in
    let tags = pair-IsOrder compare-IsOrder ranges in
    on-IsOrder {cmp = compare_pair path-IsOrder tags} key_of key_apart
      (pair-IsOrder path-IsOrder tags)

-- `Transformation::new` gives the same operations, encoding and digest, or the same error, for any
-- two lists with the same operations, whatever their order and repetitions.
pub new_transformation_unique :
    {D : Type 0} (digest_of : Bytes → D) (xs ys : List Operation)
    → ((op : Operation) → Has op xs ↔ Has op ys)
    → new_transformation digest_of xs ≡ new_transformation digest_of ys
unfolding new_transformation
new_transformation_unique digest_of xs ys same =
    rw (canonical_unique canonical-IsOrder xs ys same) refl

-- The canonical operations are strictly ascending.
pub canonical-IsAscending :
    (xs : List Operation)
    → IsAscending canonical_operation_order
        (dedup canonical_operation_order (sort_by canonical_operation_order xs))
canonical-IsAscending xs =
    dedup-IsAscending canonical-IsOrder (sort_by canonical_operation_order xs)
      (sort_by-IsSorted canonical-IsOrder xs)
