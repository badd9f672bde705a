-- ===== src/Oracle/Prefixes.antt =====
-- What the bytes of a fingerprint begin with is read back from the front.
use mathlib.Core.List.{append_assoc}
use reprocut.Prelude.{ℕ, ◌^◌, ◌<◌, ◌≡◌, refl, sym, ◌∙◌, ap, arith}
use reprocut.Prelude.{ltb, if◌then◌else◌, List, [], ◌∷◌, ◌++◌, length, All, min}
use reprocut.Prelude.Words.{u64_max}
use reprocut.Model.{OracleMode, DiagnosticChannel}
use reprocut.Observation.{TerminationReason, exit_code, unix_signal, timed_out, runner_failure}
use reprocut.Transformation.{Bytes}
use reprocut.Transformation.Injective.{cons-injective, to_le_bytes-prefix, append-prefix}
use reprocut.Diagnostic.Select.{DiagnosticAnchor}
use reprocut.Oracle.{mode_tag, channel_tag, encode_count}
use reprocut.Oracle.Fingerprint.{utf8, encode_termination, encode_text}
use reprocut.Oracle.Fingerprint.{encode_texts, encode_strings, encode_anchors}
use reprocut.Oracle.Utf8.{utf8-injective}

-- A tag is read back.
abbrev pub mode_of : ℕ → OracleMode
mode_of tag =
    if ltb tag 1
    then OracleMode.automatic
    else if ltb tag 2
    then OracleMode.regex
    else OracleMode.exit_zero

pub mode_of-mode_tag : (mode : OracleMode) → mode_of (mode_tag mode) ≡ mode
mode_of-mode_tag OracleMode.automatic = refl
mode_of-mode_tag OracleMode.regex = refl
mode_of-mode_tag OracleMode.exit_zero = refl

abbrev channel_of : ℕ → DiagnosticChannel
channel_of tag =
    if ltb tag 1
    then DiagnosticChannel.auto
    else if ltb tag 2
    then DiagnosticChannel.stderr
    else if ltb tag 3
    then DiagnosticChannel.stdout
    else DiagnosticChannel.combined

channel_of-channel_tag : (channel : DiagnosticChannel) → channel_of (channel_tag channel) ≡ channel
channel_of-channel_tag DiagnosticChannel.auto = refl
channel_of-channel_tag DiagnosticChannel.stderr = refl
channel_of-channel_tag DiagnosticChannel.stdout = refl
channel_of-channel_tag DiagnosticChannel.combined = refl

-- The codes are i32.
abbrev pub IsWord : TerminationReason → Type 0
IsWord (exit_code code) = code < 2 ^ 32
IsWord (unix_signal value) = value < 2 ^ 32
IsWord timed_out = Unit
IsWord runner_failure = Unit

pub encode_termination-prefix :
    (s t : TerminationReason) (xs ys : Bytes)
    → IsWord s
    → IsWord t
    → encode_termination s ++ xs ≡ encode_termination t ++ ys
    → (s ≡ t) × (xs ≡ ys)
encode_termination-prefix (exit_code a) (exit_code b) xs ys h k e =
    let (codes, rest) =
      to_le_bytes-prefix 4 a b xs ys (omega arith) (omega arith) (cons-injective e).1 in
    (ap exit_code codes, rest)
encode_termination-prefix (exit_code a) (unix_signal b) xs ys h k e =
    let heads = (cons-injective e).0 in absurd (omega arith)
encode_termination-prefix (exit_code a) timed_out xs ys h k e =
    let heads = (cons-injective e).0 in absurd (omega arith)
encode_termination-prefix (exit_code a) runner_failure xs ys h k e =
    let heads = (cons-injective e).0 in absurd (omega arith)
encode_termination-prefix (unix_signal a) (exit_code b) xs ys h k e =
    let heads = (cons-injective e).0 in absurd (omega arith)
encode_termination-prefix (unix_signal a) (unix_signal b) xs ys h k e =
    let (codes, rest) =
      to_le_bytes-prefix 4 a b xs ys (omega arith) (omega arith) (cons-injective e).1 in
    (ap unix_signal codes, rest)
encode_termination-prefix (unix_signal a) timed_out xs ys h k e =
    let heads = (cons-injective e).0 in absurd (omega arith)
encode_termination-prefix (unix_signal a) runner_failure xs ys h k e =
    let heads = (cons-injective e).0 in absurd (omega arith)
encode_termination-prefix timed_out (exit_code b) xs ys h k e =
    let heads = (cons-injective e).0 in absurd (omega arith)
encode_termination-prefix timed_out (unix_signal b) xs ys h k e =
    let heads = (cons-injective e).0 in absurd (omega arith)
encode_termination-prefix timed_out timed_out xs ys h k e = (refl, (cons-injective e).1)
encode_termination-prefix timed_out runner_failure xs ys h k e =
    let heads = (cons-injective e).0 in absurd (omega arith)
encode_termination-prefix runner_failure (exit_code b) xs ys h k e =
    let heads = (cons-injective e).0 in absurd (omega arith)
encode_termination-prefix runner_failure (unix_signal b) xs ys h k e =
    let heads = (cons-injective e).0 in absurd (omega arith)
encode_termination-prefix runner_failure timed_out xs ys h k e =
    let heads = (cons-injective e).0 in absurd (omega arith)
encode_termination-prefix runner_failure runner_failure xs ys h k e = (refl, (cons-injective e).1)

pub encode_count-prefix :
    (n m : ℕ) (xs ys : Bytes)
    → n < 2 ^ 64
    → m < 2 ^ 64
    → encode_count n ++ xs ≡ encode_count m ++ ys
    → (n ≡ m) × (xs ≡ ys)
encode_count-prefix n m xs ys h k e =
    let low : min n u64_max ≡ n = omega arith in
    let low' : min m u64_max ≡ m = omega arith in
    let (same, rest) =
      to_le_bytes-prefix 8 (min n u64_max) (min m u64_max) xs ys (omega arith) (omega arith) e in
    (sym low ∙ same ∙ low', rest)

encode_text-prefix :
    (a b xs ys : Bytes)
    → length a < 2 ^ 64
    → length b < 2 ^ 64
    → encode_text a ++ xs ≡ encode_text b ++ ys
    → (a ≡ b) × (xs ≡ ys)
encode_text-prefix a b xs ys h k e =
    let (sizes, rest) = encode_count-prefix (length a) (length b) (a ++ xs) (b ++ ys) h k (
      sym (append_assoc (encode_count (length a)) a xs)
      ∙ e
      ∙ append_assoc (encode_count (length b)) b ys) in
    append-prefix a b xs ys sizes rest

abbrev pub AreSized : List Bytes → Type 0
AreSized = All (λ (value : Bytes). length value < 2 ^ 64)

encode_texts-prefix :
    (values others : List Bytes) (xs ys : Bytes)
    → AreSized values
    → AreSized others
    → length values ≡ length others
    → encode_texts values ++ xs ≡ encode_texts others ++ ys
    → (values ≡ others) × (xs ≡ ys)
unfolding encode_texts
encode_texts-prefix [] [] xs ys h k sizes e = (refl, e)
encode_texts-prefix [] (b ∷ others) xs ys h k sizes e = absurd (omega arith)
encode_texts-prefix (a ∷ values) [] xs ys h k sizes e = absurd (omega arith)
encode_texts-prefix (a ∷ values) (b ∷ others) xs ys (h, hs) (k, ks) sizes e =
    let (heads, rest) =
      encode_text-prefix a b (encode_texts values ++ xs) (encode_texts others ++ ys) h k (
        sym (append_assoc (encode_text a) (encode_texts values) xs)
        ∙ e
        ∙ append_assoc (encode_text b) (encode_texts others) ys) in
    let (tails, last) = encode_texts-prefix values others xs ys hs ks (omega arith) rest in
    (rw (heads, tails) refl, last)

-- A list of strings of machine size.
abbrev pub AreStrings : List Bytes → Type 0
AreStrings values = (length values < 2 ^ 64) × AreSized values

pub encode_strings-prefix :
    (values others : List Bytes) (xs ys : Bytes)
    → AreStrings values
    → AreStrings others
    → encode_strings values ++ xs ≡ encode_strings others ++ ys
    → (values ≡ others) × (xs ≡ ys)
encode_strings-prefix values others xs ys (n, h) (m, k) e =
    let (sizes, rest) =
      encode_count-prefix (length values) (length others) (encode_texts values ++ xs)
        (encode_texts others ++ ys) n m
        (sym (append_assoc (encode_count (length values)) (encode_texts values) xs)
          ∙ e
          ∙ append_assoc (encode_count (length others)) (encode_texts others) ys) in
    encode_texts-prefix values others xs ys h k sizes rest

abbrev pub AreAnchors : List DiagnosticAnchor → Type 0
AreAnchors = All (λ (anchor : DiagnosticAnchor). length (utf8 anchor.text) < 2 ^ 64)

same_anchor :
    (a b : DiagnosticAnchor)
    → channel_tag a.channel ≡ channel_tag b.channel
    → utf8 a.text ≡ utf8 b.text
    → a ≡ b
same_anchor a b tags texts =
    let channels =
      sym (channel_of-channel_tag a.channel)
      ∙ ap channel_of tags
      ∙ channel_of-channel_tag b.channel in
    rw (channels, utf8-injective a.text b.text texts) refl

pub encode_anchors-prefix :
    (anchors others : List DiagnosticAnchor) (xs ys : Bytes)
    → AreAnchors anchors
    → AreAnchors others
    → length anchors ≡ length others
    → encode_anchors anchors ++ xs ≡ encode_anchors others ++ ys
    → (anchors ≡ others) × (xs ≡ ys)
unfolding encode_anchors
encode_anchors-prefix [] [] xs ys h k sizes e = (refl, e)
encode_anchors-prefix [] (b ∷ others) xs ys h k sizes e = absurd (omega arith)
encode_anchors-prefix (a ∷ anchors) [] xs ys h k sizes e = absurd (omega arith)
encode_anchors-prefix (a ∷ anchors) (b ∷ others) xs ys (h, hs) (k, ks) sizes e =
    let (tags, rest) = cons-injective e in
    let (texts, rest') =
      encode_text-prefix (utf8 a.text) (utf8 b.text) (encode_anchors anchors ++ xs)
        (encode_anchors others ++ ys) h k
        (sym (append_assoc (encode_text (utf8 a.text)) (encode_anchors anchors) xs)
          ∙ rest
          ∙ append_assoc (encode_text (utf8 b.text)) (encode_anchors others) ys) in
    let (tails, last) = encode_anchors-prefix anchors others xs ys hs ks (omega arith) rest' in
    (ap2_cons (same_anchor a b tags texts) tails, last)
  where
    ap2_cons :
        {c d : DiagnosticAnchor} {cs ds : List DiagnosticAnchor}
        → c ≡ d
        → cs ≡ ds
        → ◌≡◌ {A = List DiagnosticAnchor} (c ∷ cs) (d ∷ ds)
    ap2_cons p q = rw (p, q) refl
