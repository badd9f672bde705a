-- ===== src/Oracle/Utf8.antt =====
-- UTF-8, in which `str::as_bytes` of the standard library gives the text of an anchor to the digest
-- of a fingerprint.
use mathlib.Core.Option.{some-injective}
use reprocut.Prelude.{ℕ, ◌+◌, ◌-◌, ◌*◌, ◌/◌, ◌%◌, ◌≡◌, refl, sym, ◌∙◌, ap, inl, inr, arith}
use reprocut.Prelude.{
  true, false, ltb, if◌then◌else◌, Bool-cases, Option, none, some, [], ◌∷◌, ◌++◌,
}
use reprocut.Transformation.{Bytes}
use reprocut.Diagnostic.Texts.{Text}
use reprocut.Oracle.Fingerprint.{utf8_char, utf8}

-- The reader: the first byte says how many follow.
abbrev second : ℕ → Bytes → Option (ℕ × Bytes)
second high (c ∷ rest) = some (high * 64 + (c - 128), rest)
second high [] = none

abbrev third : ℕ → Bytes → Option (ℕ × Bytes)
third high (b ∷ rest) = second (high * 64 + (b - 128)) rest
third high [] = none

abbrev fourth : ℕ → Bytes → Option (ℕ × Bytes)
fourth high (a ∷ rest) = third (high * 64 + (a - 128)) rest
fourth high [] = none

abbrev read_char : Bytes → Option (ℕ × Bytes)
read_char [] = none
read_char (b ∷ rest) =
    if ltb b 128
    then some (b, rest)
    else if ltb b 224
    then second (b - 192) rest
    else if ltb b 240
    then third (b - 224) rest
    else fourth (b - 240) rest

read_char-utf8_char : (c : ℕ) (rest : Bytes) → read_char (utf8_char c ++ rest) ≡ some (c, rest)
read_char-utf8_char c rest = elim (Bool-cases (ltb c 128)) [
  | inl one ↦ rw (one, one) refl
  | inr more ↦ elim (Bool-cases (ltb c 2048)) [
    | inl two ↦
        let high : ltb (192 + c / 64) 128 ≡ false = ground arith in
        let low : ltb (192 + c / 64) 224 ≡ true = ground arith in
        let value : ((192 + c / 64) - 192) * 64 + ((128 + c % 64) - 128) ≡ c = omega arith in
        rw (more, two, high, low, value) refl
    | inr more' ↦ elim (Bool-cases (ltb c 65536)) [
      | inl three ↦
          let high : ltb (224 + c / 4096) 128 ≡ false = ground arith in
          let high' : ltb (224 + c / 4096) 224 ≡ false = ground arith in
          let low : ltb (224 + c / 4096) 240 ≡ true = ground arith in
          let value : (((224 + c / 4096) - 224) * 64 + ((128 + (c / 64) % 64) - 128)) * 64
                + ((128 + c % 64) - 128)
              ≡ c =
            omega arith in
          rw (more, more', three, high, high', low, value) refl
      | inr four ↦
          let high : ltb (240 + c / 262144) 128 ≡ false = ground arith in
          let high' : ltb (240 + c / 262144) 224 ≡ false = ground arith in
          let high'' : ltb (240 + c / 262144) 240 ≡ false = ground arith in
          let value : ((((240 + c / 262144) - 240) * 64 + ((128 + (c / 4096) % 64) - 128)) * 64
                    + ((128 + (c / 64) % 64) - 128))
                  * 64
                + ((128 + c % 64) - 128)
              ≡ c =
            omega arith in
          rw (more, more', four, high, high', high'', value) refl
    ]
  ]
]

pub utf8-injective : (a b : Text) → utf8 a ≡ utf8 b → a ≡ b
unfolding utf8
utf8-injective [] [] e = refl
utf8-injective [] (d ∷ b) e = absurd (apart (ap read_char e ∙ read_char-utf8_char d (utf8 b)))
  where
    apart : {pair : ℕ × Bytes} → none ≡ some pair → ⊥
    apart q = cc
utf8-injective (c ∷ a) [] e = absurd (apart (sym (ap read_char e) ∙ read_char-utf8_char c (utf8 a)))
  where
    apart : {pair : ℕ × Bytes} → none ≡ some pair → ⊥
    apart q = cc
utf8-injective (c ∷ a) (d ∷ b) e =
    let both =
      some-injective (c, utf8 a) (d, utf8 b)
        (sym (read_char-utf8_char c (utf8 a)) ∙ ap read_char e ∙ read_char-utf8_char d (utf8 b)) in
    rw (ap (λ pair. pair.0) both, utf8-injective a b (ap (λ pair. pair.1) both)) refl
