-- ===== src/Transformation/Accepted.antt =====
-- When `Transformation::new` accepts an operation set, and what it then returns.
use reprocut.Prelude.{ℕ, ◌^◌, ◌<◌, ◌≡◌, ◌≢◌, refl, sym, ◌∙◌, ap, inl, inr, ◌↔◌}
use reprocut.Prelude.{arith, true, List, [], ◌∷◌, ◌++◌, All, length}
use Prim.Native.Nat.{Ordering}
use reprocut.Prelude.Sorting.{sort_by, dedup, IsAscending}
use reprocut.Prelude.Members.{Has, All-Has, Has-All, canonical-Has, canonical-length}
use reprocut.Transformation.{Bytes, ByteRange, Operation, delete_file, replace_range}
use reprocut.Transformation.{canonical_operation_order, Transformation, new_transformation}
use reprocut.Transformation.{Result, ok, err, encode_operations, validate_conflicts}
use reprocut.Transformation.{
  encode_len, encode_bytes, encode_operation, encode_each, to_le_bytes, header,
}
use mathlib.Core.Path.{subst}
use reprocut.Prelude.{ltb}
use reprocut.Transformation.Order.{canonical-IsOrder, canonical-IsAscending}
use reprocut.Transformation.Pairs.{IsApart, IsValid, NoConflict, IsConflictFree}
use reprocut.Transformation.Conflicts.{validate_conflicts_iff, and_then-ok}

-- Distinct operations of the set never conflict.
abbrev pub IsCompatible : List Operation → Type 0
IsCompatible ops = (a b : Operation) → Has a ops → Has b ops → a ≢ b → NoConflict a b

NoConflict-sym : (a b : Operation) → NoConflict a b → NoConflict b a
NoConflict-sym a b free e = let (r, r', er, er', miss) = free (sym e) in (r', r, er', er, flip miss)
  where
    flip : {r r' : ByteRange} → IsApart r r' → IsApart r' r
    flip (inl le) = inr le
    flip (inr le) = inl le

IsConflictFree-IsCompatible : (ops : List Operation) → IsConflictFree ops → IsCompatible ops
IsConflictFree-IsCompatible [] free a b h k ne = absurd h
IsConflictFree-IsCompatible (x ∷ rest) (nc, free) a b (inl e) (inl f) ne = absurd (ne (e ∙ sym f))
IsConflictFree-IsCompatible (x ∷ rest) (nc, free) a b (inl e) (inr k) ne =
    rw e (All-Has (NoConflict x) rest nc b k)
IsConflictFree-IsCompatible (x ∷ rest) (nc, free) a b (inr h) (inl f) ne =
    rw f (NoConflict-sym x a (All-Has (NoConflict x) rest nc a h))
IsConflictFree-IsCompatible (x ∷ rest) (nc, free) a b (inr h) (inr k) ne =
    IsConflictFree-IsCompatible rest free a b h k ne

below-≢ : (a b : Operation) → canonical_operation_order a b ≡ Ordering.lt → a ≢ b
below-≢ a b less e = apart (sym (canonical-IsOrder.self b) ∙ (rw e at less))
  where
    apart : Ordering.eq ≢ Ordering.lt
    apart e = cc

IsCompatible-IsConflictFree :
    (ops : List Operation)
    → IsAscending canonical_operation_order ops
    → IsCompatible ops
    → IsConflictFree ops
IsCompatible-IsConflictFree [] asc free = tt
IsCompatible-IsConflictFree (x ∷ rest) (above, asc) free = (
  Has-All (NoConflict x) rest (λ b h.
      free x b (inl refl) (inr h)
        (below-≢ x b (All-Has (λ c. canonical_operation_order x c ≡ Ordering.lt) rest above b h))),
  IsCompatible-IsConflictFree rest asc (λ a b h k ne. free a b (inr h) (inr k) ne),
)

-- The lengths that the encoding stores in eight bytes.
abbrev pub IsSized : Operation → Type 0
IsSized (delete_file path) = length path < 2 ^ 64
IsSized (replace_range path range replacement) =
    (length path < 2 ^ 64) × (length replacement < 2 ^ 64)

encode_len-ok : (n : ℕ) → n < 2 ^ 64 → (bytes : Bytes) × (encode_len n ≡ ok bytes)
encode_len-ok n lt =
    let fits : ltb n (2 ^ 64) ≡ true = ground arith in (to_le_bytes 8 n, rw fits refl)

encode_bytes-ok :
    (bytes : Bytes) → length bytes < 2 ^ 64 → (e : Bytes) × (encode_bytes bytes ≡ ok e)
encode_bytes-ok bytes lt =
    let (prefix, e) = encode_len-ok (length bytes) lt in
    (prefix ++ bytes, rw (encode_bytes, e) refl)

encode_operation-ok : (op : Operation) → IsSized op → (e : Bytes) × (encode_operation op ≡ ok e)
encode_operation-ok (delete_file path) lt =
    let (target, e) = encode_bytes-ok path lt in (0 ∷ target, rw (encode_operation, e) refl)
encode_operation-ok (replace_range path range replacement) (lt, lt') =
    let (target, e) = encode_bytes-ok path lt in
    let (bytes, f) = encode_bytes-ok replacement lt' in
    (
      1 ∷ target ++ to_le_bytes 8 range.start ++ to_le_bytes 8 range.end ++ bytes,
      rw (encode_operation, e, f) refl,
    )

encode_each-ok : (ops : List Operation) → All IsSized ops → (e : Bytes) × (encode_each ops ≡ ok e)
unfolding encode_each
encode_each-ok [] h = ([], refl)
encode_each-ok (op ∷ rest) (h, hs) =
    let (bytes, e) = encode_operation-ok op h in
    let (tail, f) = encode_each-ok rest hs in (bytes ++ tail, rw (e, f) refl)

encode_operations-ok :
    (ops : List Operation)
    → All IsSized ops
    → length ops < 2 ^ 64
    → (e : Bytes) × (encode_operations ops ≡ ok e)
unfolding encode_operations
encode_operations-ok ops hs lt =
    let (count, e) = encode_len-ok (length ops) lt in
    let (body, f) = encode_each-ok ops hs in
    (header ++ to_le_bytes 2 1 ++ count ++ body, rw (e, f) refl)

abbrev canonical : List Operation → List Operation
canonical xs = dedup canonical_operation_order (sort_by canonical_operation_order xs)

All-canonical : (P : Operation → Type 0) (xs : List Operation) → All P xs → All P (canonical xs)
All-canonical P xs hs =
    Has-All P (canonical xs) (λ x h. All-Has P xs hs x ((canonical-Has canonical-IsOrder xs x).0 h))

abbrev pub IsCanonical : {D : Type 0} → (Bytes → D) → List Operation → Transformation D → Type 0
IsCanonical digest_of xs t =
    ((x : Operation) → Has x t.operations ↔ Has x xs)
    × IsAscending canonical_operation_order t.operations
    × IsConflictFree t.operations
    × (encode_operations t.operations ≡ ok t.stable_encoding)
    × (t.digest ≡ digest_of t.stable_encoding)

pub ok_injective : {A : Type 0} {a b : A} → ok a ≡ ok b → a ≡ b
ok_injective {A} {a} {b} e = ap (value_or a) e
  where
    value_or : A → Result A → A
    value_or d (ok x) = x
    value_or d (err _) = d

-- What `Transformation::new` returns is canonical: it has the operations of the input, strictly
-- ascending and without conflicts, with their encoding and the digest of that.
pub new_transformation-IsCanonical :
    {D : Type 0} (digest_of : Bytes → D) (xs : List Operation) (t : Transformation D)
    → All IsValid xs
    → new_transformation digest_of xs ≡ ok t
    → IsCanonical digest_of xs t
unfolding new_transformation
new_transformation-IsCanonical digest_of xs t valid h =
    let (u, checked, rest) = and_then-ok (validate_conflicts (canonical xs)) _ h in
    let (bytes, encoded, made) = and_then-ok (encode_operations (canonical xs)) _ rest in
    let free =
      (validate_conflicts_iff (canonical xs) (canonical-IsAscending xs)
          (All-canonical IsValid xs valid)).0
        checked in
    subst (IsCanonical digest_of xs) (ok_injective made)
      (canonical-Has canonical-IsOrder xs, canonical-IsAscending xs, free, encoded, refl)

-- `Transformation::new` accepts operations with non-empty ranges and encodable lengths exactly when
-- distinct ones never conflict.
pub new_transformation_iff :
    {D : Type 0} (digest_of : Bytes → D) (xs : List Operation)
    → All IsValid xs
    → All IsSized xs
    → length xs < 2 ^ 64
    → ((t : Transformation D) × (new_transformation digest_of xs ≡ ok t)) ↔ IsCompatible xs
unfolding new_transformation
new_transformation_iff digest_of xs valid sized lt =
    let asc = canonical-IsAscending xs in
    let checks = validate_conflicts_iff (canonical xs) asc (All-canonical IsValid xs valid) in
    let members = canonical-Has canonical-IsOrder xs in
    let short = canonical-length canonical-IsOrder xs in
    let (bytes, encoded) =
      encode_operations-ok (canonical xs) (All-canonical IsSized xs sized) (omega arith) in
    (
      λ (t, h).
          let (u, checked, rest) = and_then-ok (validate_conflicts (canonical xs)) _ h in
          let free = IsConflictFree-IsCompatible (canonical xs) (checks.0 checked) in
          λ a b ha hb ne. free a b ((members a).1 ha) ((members b).1 hb) ne,
      λ compatible.
          let free =
            IsCompatible-IsConflictFree (canonical xs) asc
              (λ a b ha hb ne. compatible a b ((members a).0 ha) ((members b).0 hb) ne) in
          (
            record { operations = canonical xs; stable_encoding = bytes; digest = digest_of bytes },
            rw (checks.1 free, encoded) refl,
          ),
    )
