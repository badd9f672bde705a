-- ===== src/Transformation/Injective.antt =====
-- The encoding tells operation sets apart, so that the digest identifies the set and not the bytes
-- of some other one.
use reprocut.Prelude.{ℕ, zero, suc, ◌/◌, ◌^◌, ◌<◌, ◌≡◌, refl, sym, ◌∙◌, ap, inl, inr}
use reprocut.Prelude.{arith, ltb, List, [], ◌∷◌, ◌++◌, All, length, Bool-cases}
use mathlib.Core.List.{append_assoc}
use reprocut.Transformation.{Bytes, ByteRange, Operation, delete_file, replace_range, ok, err}
use reprocut.Transformation.{to_le_bytes, encode_len, encode_bytes, encode_operation, encode_each}
use reprocut.Transformation.{encode_operations, header}
use reprocut.Transformation.Conflicts.{and_then-ok}
use reprocut.Transformation.Accepted.{ok_injective}

-- The offsets are u64.
abbrev pub IsMachine : Operation → Type 0
IsMachine (delete_file path) = Unit
IsMachine (replace_range path range replacement) = (range.start < 2 ^ 64) × (range.end < 2 ^ 64)

head_or : ℕ → Bytes → ℕ
head_or d [] = d
head_or d (b ∷ rest) = b

tail_of : Bytes → Bytes
tail_of [] = []
tail_of (b ∷ rest) = rest

pub cons-injective : {a b : ℕ} {xs ys : Bytes} → a ∷ xs ≡ b ∷ ys → (a ≡ b) × (xs ≡ ys)
unfolding head_or tail_of
cons-injective {a} e = (ap (head_or a) e, ap tail_of e)

-- Numbers of a fixed width are read back from the front of the bytes.
pub to_le_bytes-prefix :
    (w n m : ℕ) (xs ys : Bytes)
    → n < 256 ^ w
    → m < 256 ^ w
    → to_le_bytes w n ++ xs ≡ to_le_bytes w m ++ ys
    → (n ≡ m) × (xs ≡ ys)
to_le_bytes-prefix zero n m xs ys h k e = (omega arith, e)
to_le_bytes-prefix (suc w) n m xs ys h k e =
    let (low, rest) = cons-injective e in
    let (high, tails) =
      to_le_bytes-prefix w (n / 256) (m / 256) xs ys (omega arith) (omega arith) rest in
    (omega arith, tails)

-- Bytes of equal length at the front are equal.
pub append-prefix :
    (bs cs xs ys : Bytes) → length bs ≡ length cs → bs ++ xs ≡ cs ++ ys → (bs ≡ cs) × (xs ≡ ys)
append-prefix [] [] xs ys h e = (refl, e)
append-prefix [] (c ∷ cs) xs ys h e = absurd (omega arith)
append-prefix (b ∷ bs) [] xs ys h e = absurd (omega arith)
append-prefix (b ∷ bs) (c ∷ cs) xs ys h e =
    let (heads, rest) = cons-injective e in
    let (tails, others) = append-prefix bs cs xs ys (omega arith) rest in
    (rw (heads, tails) refl, others)

encode_len-ok : (n : ℕ) {e : Bytes} → encode_len n ≡ ok e → (n < 2 ^ 64) × (e ≡ to_le_bytes 8 n)
encode_len-ok n {e} h = elim (Bool-cases (ltb n (2 ^ 64))) [
  | inl fits ↦ (ground arith, sym (ok_injective (rw (encode_len, fits) at h)))
  | inr over ↦ absurd (no_bytes (rw (encode_len, over) at h))
]
  where
    no_bytes : {x : _} → err x ≡ ok e → ⊥
    no_bytes q = cc

encode_bytes-ok :
    (bs : Bytes) {e : Bytes}
    → encode_bytes bs ≡ ok e
    → (length bs < 2 ^ 64) × (e ≡ to_le_bytes 8 (length bs) ++ bs)
encode_bytes-ok bs h =
    let (prefix, sized, made) = and_then-ok (encode_len (length bs)) _ h in
    let (lt, p) = encode_len-ok (length bs) sized in
    (lt, sym (ok_injective made) ∙ ap (λ x. x ++ bs) p)

-- Encoded bytes are read back from the front.
encode_bytes-prefix :
    (bs cs xs ys : Bytes) {e f : Bytes}
    → encode_bytes bs ≡ ok e
    → encode_bytes cs ≡ ok f
    → e ++ xs ≡ f ++ ys
    → (bs ≡ cs) × (xs ≡ ys)
encode_bytes-prefix bs cs xs ys {e} {f} h k same =
    let (lt, p) = encode_bytes-ok bs h in
    let (lt', q) = encode_bytes-ok cs k in
    let flat : to_le_bytes 8 (length bs) ++ (bs ++ xs) ≡ to_le_bytes 8 (length cs) ++ (cs ++ ys) =
      sym (append_assoc (to_le_bytes 8 (length bs)) bs xs)
      ∙ (ap (λ z. z ++ xs) (sym p) ∙ same ∙ ap (λ z. z ++ ys) q)
      ∙ append_assoc (to_le_bytes 8 (length cs)) cs ys in
    let (sizes, rest) =
      to_le_bytes-prefix 8 (length bs) (length cs) (bs ++ xs) (cs ++ ys) (omega arith) (omega arith)
        flat in
    append-prefix bs cs xs ys sizes rest

-- An operation is read back from the front, its tag first.
encode_operation-prefix :
    (a b : Operation) (xs ys : Bytes) {e f : Bytes}
    → IsMachine a
    → IsMachine b
    → encode_operation a ≡ ok e
    → encode_operation b ≡ ok f
    → e ++ xs ≡ f ++ ys
    → (a ≡ b) × (xs ≡ ys)
encode_operation-prefix (delete_file p) (delete_file q) xs ys {e} {f} m n h k same =
    let (s, hs, he) = and_then-ok (encode_bytes p) _ h in
    let (t, ks, kf) = and_then-ok (encode_bytes q) _ k in
    let all =
      ap (λ z. z ++ xs) (ok_injective he) ∙ same ∙ ap (λ z. z ++ ys) (sym (ok_injective kf)) in
    let (paths, rest) = encode_bytes-prefix p q xs ys hs ks (cons-injective all).1 in
    (ap delete_file paths, rest)
encode_operation-prefix (delete_file p) (replace_range q r u) xs ys {e} {f} m n h k same =
    let (s, hs, he) = and_then-ok (encode_bytes p) _ h in
    let (t, ks, later) = and_then-ok (encode_bytes q) _ k in
    let (v, kv, kf) = and_then-ok (encode_bytes u) _ later in
    let all =
      ap (λ z. z ++ xs) (ok_injective he) ∙ same ∙ ap (λ z. z ++ ys) (sym (ok_injective kf)) in
    let tags = (cons-injective all).0 in absurd (omega arith)
encode_operation-prefix (replace_range q r u) (delete_file p) xs ys {e} {f} m n h k same =
    let (s, hs, he) = and_then-ok (encode_bytes p) _ k in
    let (t, ks, later) = and_then-ok (encode_bytes q) _ h in
    let (v, kv, kf) = and_then-ok (encode_bytes u) _ later in
    let all =
      ap (λ z. z ++ xs) (ok_injective kf) ∙ same ∙ ap (λ z. z ++ ys) (sym (ok_injective he)) in
    let tags = (cons-injective all).0 in absurd (omega arith)
encode_operation-prefix (replace_range p r u) (replace_range q r' u') xs ys {e} {f} (m1, m2)
      (n1, n2) h k same =
    let (s, hs, later) = and_then-ok (encode_bytes p) _ h in
    let (v, hv, he) = and_then-ok (encode_bytes u) _ later in
    let (t, ks, later') = and_then-ok (encode_bytes q) _ k in
    let (v', kv, kf) = and_then-ok (encode_bytes u') _ later' in
    let all =
      ap (λ z. z ++ xs) (ok_injective he) ∙ same ∙ ap (λ z. z ++ ys) (sym (ok_injective kf)) in
    let body = (cons-injective all).1 in
    let flat =
      sym (regroup s (to_le_bytes 8 r.start) (to_le_bytes 8 r.end) v xs)
      ∙ body
      ∙ regroup t (to_le_bytes 8 r'.start) (to_le_bytes 8 r'.end) v' ys in
    let (paths, rest) = encode_bytes-prefix p q _ _ hs ks flat in
    let (starts, rest') =
      to_le_bytes-prefix 8 r.start r'.start _ _ (omega arith) (omega arith) rest in
    let (ends, rest'') = to_le_bytes-prefix 8 r.end r'.end _ _ (omega arith) (omega arith) rest' in
    let (texts, tails) = encode_bytes-prefix u u' xs ys hv kv rest'' in
    (rw (paths, same_range r r' starts ends, texts) refl, tails)
  where
    regroup : (a b c d x : Bytes) → (a ++ b ++ c ++ d) ++ x ≡ a ++ (b ++ (c ++ (d ++ x)))
    regroup a b c d x =
        append_assoc (a ++ b ++ c) d x
        ∙ append_assoc (a ++ b) c (d ++ x)
        ∙ append_assoc a b (c ++ (d ++ x))

    same_range : (r r' : ByteRange) → r.start ≡ r'.start → r.end ≡ r'.end → r ≡ r'
    same_range r r' a b = rw (a, b) refl

encode_each-injective :
    (xs ys : List Operation) {e : Bytes}
    → All IsMachine xs
    → All IsMachine ys
    → length xs ≡ length ys
    → encode_each xs ≡ ok e
    → encode_each ys ≡ ok e
    → xs ≡ ys
unfolding encode_each
encode_each-injective [] [] m n sizes h k = refl
encode_each-injective [] (y ∷ ys) m n sizes h k = absurd (omega arith)
encode_each-injective (x ∷ xs) [] m n sizes h k = absurd (omega arith)
encode_each-injective (x ∷ xs) (y ∷ ys) (m, ms) (n, ns) sizes h k =
    let (a, ha, later) = and_then-ok (encode_operation x) _ h in
    let (s, hs, he) = and_then-ok (encode_each xs) _ later in
    let (b, kb, later') = and_then-ok (encode_operation y) _ k in
    let (t, kt, kf) = and_then-ok (encode_each ys) _ later' in
    let (heads, tails) =
      encode_operation-prefix x y s t m n ha kb (ok_injective he ∙ sym (ok_injective kf)) in
    let rest = encode_each-injective xs ys ms ns (omega arith) (hs ∙ ap ok tails) kt in
    rw (heads, rest) refl

-- Two lists of operations with u64 offsets that have the same encoding are the same list.
pub encode_operations-injective :
    (xs ys : List Operation) (encoding : Bytes)
    → All IsMachine xs
    → All IsMachine ys
    → encode_operations xs ≡ ok encoding
    → encode_operations ys ≡ ok encoding
    → xs ≡ ys
unfolding encode_operations
encode_operations-injective xs ys encoding m n h k =
    let (count, hc, later) = and_then-ok (encode_len (length xs)) _ h in
    let (body, hb, he) = and_then-ok (encode_each xs) _ later in
    let (count', kc, later') = and_then-ok (encode_len (length ys)) _ k in
    let (body', kb, kf) = and_then-ok (encode_each ys) _ later' in
    let (lt, p) = encode_len-ok (length xs) hc in
    let (lt', q) = encode_len-ok (length ys) kc in
    let all = ok_injective he ∙ sym (ok_injective kf) in
    let front : Bytes = header ++ to_le_bytes 2 1 in
    let flat : count ++ body ≡ count' ++ body' =
      (append-prefix front front (count ++ body) (count' ++ body') refl
        (sym (append_assoc front count body) ∙ all ∙ append_assoc front count' body')).1 in
    let (sizes, bodies) =
      to_le_bytes-prefix 8 (length xs) (length ys) body body' (omega arith) (omega arith)
        (ap (λ z. z ++ body) (sym p) ∙ flat ∙ ap (λ z. z ++ body') q) in
    encode_each-injective xs ys m n sizes (hb ∙ ap ok bodies) kb
