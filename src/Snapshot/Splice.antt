-- ===== src/Snapshot/Splice.antt =====
-- The replacements of `apply_replacements_to_bytes`, made in one pass, are those of splicing one range
-- after the other into the bytes, from the last to the first.
use reprocut.Prelude.{
  ℕ, zero, suc, ◌+◌, ◌-◌, ◌^◌, ◌≤◌, ◌<◌, ◌≡◌, refl, sym, ◌∙◌, ap, arith, true, false,
}
use reprocut.Prelude.{ltb, leb, ◌==◌, List, [], ◌∷◌, ◌++◌, length, take}
use reprocut.Prelude.{length-append}
use mathlib.Core.List.{append_assoc}
use reprocut.Prelude.Faults.{ok}
use reprocut.Prelude.Attempts.{done}
use reprocut.Transformation.{Bytes, ByteRange, Operation, delete_file, replace_range}
use reprocut.Diagnostic.Texts.{drop}
use reprocut.Snapshot.{slice, measure_ranges, copy_ranges, apply_replacements_to_bytes}

-- One replacement.
abbrev pub splice : Bytes → ByteRange → Bytes → Bytes
splice source range replacement = take range.start source ++ (replacement ++ drop range.end source)

unfoldable pub splice_all : List Operation → Bytes → Bytes
splice_all [] source = source
splice_all (delete_file _ ∷ rest) source = splice_all rest source
splice_all (replace_range _ range replacement ∷ rest) source =
    splice (splice_all rest source) range replacement

-- Replacements of ranges that are not empty, in order from the cursor on, within the length.
abbrev pub Fits : (cursor size : ℕ) → List Operation → Type 0
Fits cursor size [] = cursor ≤ size
Fits cursor size (delete_file _ ∷ rest) = ⊥
Fits cursor size (replace_range _ range _ ∷ rest) =
    (cursor ≤ range.start)
    × (range.start < range.end)
    × (range.end ≤ size)
    × Fits range.end size rest

-- How many bytes the replacements bring.
abbrev pub brought : List Operation → ℕ
brought [] = 0
brought (delete_file _ ∷ rest) = brought rest
brought (replace_range _ _ replacement ∷ rest) = length replacement + brought rest

pub length-drop : (n : ℕ) (xs : Bytes) → length (drop n xs) ≡ length xs - n
length-drop zero xs = omega arith
length-drop (suc n) [] = omega arith
length-drop (suc n) (x ∷ xs) = omega (arith, length-drop n xs)

length-take : (n : ℕ) (xs : Bytes) → n ≤ length xs → length (take n xs) ≡ n
length-take zero xs h = refl
length-take (suc n) [] h = absurd (omega arith)
length-take (suc n) (x ∷ xs) h = ap suc (length-take n xs (omega arith))

take-length : (n : ℕ) (xs : Bytes) → length xs ≤ n → take n xs ≡ xs
take-length zero [] h = refl
take-length zero (x ∷ xs) h = absurd (omega arith)
take-length (suc n) [] h = refl
take-length (suc n) (x ∷ xs) h = ap (λ ys. x ∷ ys) (take-length n xs (omega arith))

drop-append : (n : ℕ) (xs ys : Bytes) → n ≤ length xs → drop n (xs ++ ys) ≡ drop n xs ++ ys
drop-append zero xs ys h = refl
drop-append (suc n) [] ys h = absurd (omega arith)
drop-append (suc n) (x ∷ xs) ys h = drop-append n xs ys (omega arith)

take-append : (n : ℕ) (xs ys : Bytes) → n ≤ length xs → take n (xs ++ ys) ≡ take n xs
take-append zero xs ys h = refl
take-append (suc n) [] ys h = absurd (omega arith)
take-append (suc n) (x ∷ xs) ys h = ap (λ zs. x ∷ zs) (take-append n xs ys (omega arith))

take-take : (n m : ℕ) (xs : Bytes) → n ≤ m → take n (take m xs) ≡ take n xs
take-take zero m xs h = refl
take-take (suc n) zero xs h = absurd (omega arith)
take-take (suc n) (suc m) [] h = refl
take-take (suc n) (suc m) (x ∷ xs) h = ap (λ ys. x ∷ ys) (take-take n m xs (omega arith))

zero_plus : (k : ℕ) → 0 + k ≡ k
zero_plus k = omega arith

suc_plus : (n k : ℕ) → suc n + k ≡ suc (n + k)
suc_plus n k = omega arith

take_nil : (k : ℕ) → take {A = ℕ} k [] ≡ []
take_nil zero = refl
take_nil (suc k) = refl

drop-take : (n k : ℕ) (xs : Bytes) → drop n (take (n + k) xs) ≡ take k (drop n xs)
drop-take zero k xs = rw (zero_plus k) refl
drop-take (suc n) k [] = rw (suc_plus n k) (sym (take_nil k))
drop-take (suc n) k (x ∷ xs) = rw (suc_plus n k) (drop-take n k xs)

splice_all-length :
    (cursor : ℕ) (operations : List Operation) (source : Bytes)
    → Fits cursor (length source) operations
    → cursor ≤ length (splice_all operations source)
unfolding splice_all
splice_all-length cursor [] source h = h
splice_all-length cursor (delete_file _ ∷ rest) source h = absurd h
splice_all-length cursor (replace_range _ range t ∷ rest) source (le, lt, inside, h) =
    let later = splice_all-length range.end rest source h in
    let front = length-take range.start (splice_all rest source) (omega arith) in
    let whole =
      length-append (take range.start (splice_all rest source))
        (t ++ drop range.end (splice_all rest source)) in
    omega arith

-- What stands before the first range stays.
splice_all-take :
    (n cursor : ℕ) (operations : List Operation) (source : Bytes)
    → n ≤ cursor
    → Fits cursor (length source) operations
    → take n (splice_all operations source) ≡ take n source
unfolding splice_all
splice_all-take n cursor [] source le h = refl
splice_all-take n cursor (delete_file _ ∷ rest) source le h = absurd h
splice_all-take n cursor (replace_range _ range t ∷ rest) source le (le', lt, inside, h) =
    let later = splice_all-length range.end rest source h in
    let front = length-take range.start (splice_all rest source) (omega arith) in
    take-append n (take range.start (splice_all rest source)) _ (omega arith)
    ∙ take-take n range.start (splice_all rest source) (omega arith)
    ∙ splice_all-take n range.end rest source (omega arith) h

-- What stands from the cursor on, one replacement unfolded.
splice_all-drop :
    (cursor : ℕ) (path : Bytes) (range : ByteRange) (t : Bytes) (rest : List Operation)
    (source : Bytes)
    → cursor ≤ range.start
    → range.start < range.end
    → Fits range.end (length source) rest
    → drop cursor (splice_all (replace_range path range t ∷ rest) source)
      ≡ take (range.start - cursor) (drop cursor source)
        ++ (t ++ drop range.end (splice_all rest source))
unfolding splice_all
splice_all-drop cursor path range t rest source le lt h =
    let later = splice_all-length range.end rest source h in
    let front = length-take range.start (splice_all rest source) (omega arith) in
    let kept = splice_all-take range.start range.end rest source (omega arith) h in
    let start : range.start ≡ cursor + (range.start - cursor) = omega arith in
    drop-append cursor (take range.start (splice_all rest source)) _ (omega arith)
    ∙ ap (λ front. front ++ (t ++ drop range.end (splice_all rest source)))
        (ap (drop cursor) kept
          ∙ ap (λ n. drop cursor (take n source)) start
          ∙ drop-take cursor (range.start - cursor) source)

slice-ok :
    (source : Bytes) (start end : ℕ)
    → start ≤ end
    → end ≤ length source
    → slice source start end ≡ ok (take (end - start) (drop start source))
slice-ok source start end h k =
    let low : leb start end ≡ true = ground arith in
    let high : leb end (length source) ≡ true = ground arith in rw (slice, low, high) refl

pub copy_ranges-splice_all :
    (source : Bytes) (cursor : ℕ) (acc : Bytes) (operations : List Operation)
    → Fits cursor (length source) operations
    → copy_ranges source cursor acc operations
      ≡ done (acc ++ drop cursor (splice_all operations source))
unfolding copy_ranges splice_all
copy_ranges-splice_all source cursor acc [] h =
    rw
      (
        slice-ok source cursor (length source) h (omega arith),
        take-length (length source - cursor) (drop cursor source)
            (omega (arith, length-drop cursor source)),
      )
      refl
copy_ranges-splice_all source cursor acc (delete_file _ ∷ rest) h = absurd h
copy_ranges-splice_all source cursor acc (replace_range path range t ∷ rest) (le, lt, inside, h) =
    let kept = take (range.start - cursor) (drop cursor source) in
    let tail = drop range.end (splice_all rest source) in
    rw (slice-ok source cursor range.start le (omega arith)) (
      copy_ranges-splice_all source range.end (acc ++ kept ++ t) rest h
      ∙ ap done (
          append_assoc (acc ++ kept) t tail
          ∙ append_assoc acc kept (t ++ tail)
          ∙ ap (λ zs. acc ++ zs) (sym (splice_all-drop cursor path range t rest source le lt h))))

-- The length of the result, one replacement unfolded.
pub grown :
    (made cursor : ℕ) (target : Bytes) (range : ByteRange) (t : Bytes) (rest : List Operation)
    (source : Bytes)
    → cursor ≤ range.start
    → range.start < range.end
    → range.end ≤ length source
    → Fits range.end (length source) rest
    → (made + (range.start - cursor) + length t) + length (drop range.end (splice_all rest source))
      ≡ made + length (drop cursor (splice_all (replace_range target range t ∷ rest) source))
grown made cursor target range t rest source le lt inside h =
    let kept = take (range.start - cursor) (drop cursor source) in
    let tail = drop range.end (splice_all rest source) in
    let whole = ap length (splice_all-drop cursor target range t rest source le lt h) in
    let one = length-append kept (t ++ tail) in
    let two = length-append t tail in
    let sized =
      length-take (range.start - cursor) (drop cursor source)
        (omega (arith, length-drop cursor source)) in
    omega arith

measure_ranges-splice_all :
    (source path : Bytes) (made cursor final_length : ℕ) (operations : List Operation)
    → Fits cursor (length source) operations
    → final_length ≡ made + (length source - cursor)
    → final_length + brought operations < 2 ^ 64
    → measure_ranges source path final_length operations
      ≡ done (made + length (drop cursor (splice_all operations source)))
unfolding measure_ranges splice_all
measure_ranges-splice_all source path made cursor final_length [] h e small =
    ap done (omega (arith, length-drop cursor source))
measure_ranges-splice_all source path made cursor final_length (delete_file _ ∷ rest) h e small =
    absurd h
measure_ranges-splice_all source path made cursor final_length (replace_range target range t ∷ rest)
      (le, lt, inside, h) e small =
    let in_bounds : ltb (length source) range.end ≡ false = ground arith in
    let in_order : ltb range.end range.start ≡ false = ground arith in
    let enough : ltb final_length (range.end - range.start) ≡ false = ground arith in
    let fits : ltb ((final_length - (range.end - range.start)) + length t) (2 ^ 64) ≡ true =
      ground arith in
    let later =
      measure_ranges-splice_all source path (made + (range.start - cursor) + length t) range.end
        ((final_length - (range.end - range.start)) + length t) rest h (omega arith)
        (omega arith) in
    rw (in_bounds, in_order, enough, fits)
      (later ∙ ap done (grown made cursor target range t rest source le lt inside h))

-- On ranges that are in order, apart, and within the source, and for a result of machine size,
-- `apply_replacements_to_bytes` meets no panic and no error, and returns what splicing the
-- replacements into the source one after the other gives, from the last to the first.
pub apply_replacements_to_bytes-splice_all :
    (source : Bytes) (operations : List Operation) (path : Bytes)
    → Fits 0 (length source) operations
    → length source + brought operations < 2 ^ 64
    → apply_replacements_to_bytes source operations path ≡ done (splice_all operations source)
unfolding apply_replacements_to_bytes
apply_replacements_to_bytes-splice_all source operations path h small =
    let same : (length (splice_all operations source) == 0 + length (splice_all operations source))
        ≡ true =
      ground arith in
    rw
      (
        measure_ranges-splice_all source path 0 0 (length source) operations h (omega arith) small,
        copy_ranges-splice_all source 0 [] operations h,
        same,
      )
      refl
