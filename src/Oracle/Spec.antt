-- ===== src/Oracle/Spec.antt =====
-- Which specifications `OracleSpec::new` accepts, and that the accepted one is canonical.
use reprocut.Prelude.{◌≤◌, ◌≡◌, ◌≢◌, refl, sym, ◌∙◌, ap, inl, inr, ◌↔◌, arith, Bool, true, false}
use reprocut.Prelude.{not, ◌||◌, ltb, if◌then◌else◌, List, [], ◌∷◌, ◌++◌, length, All, Bool-cases}
use reprocut.Prelude.Members.{Has, canonical_unique}
use reprocut.Model.{OracleMode, DiagnosticChannel}
use reprocut.Transformation.{Bytes}
use reprocut.Transformation.Order.{path-IsOrder}
use reprocut.Oracle.{OracleSpec, SpecResult, OracleError, accepted, refused, any, misfits, new_spec}
use reprocut.Oracle.{max_patterns, max_pattern_bytes, canonical_patterns, spec_digest}

-- What each mode asks of the two lists of patterns.
abbrev pub Fits : OracleMode → List Bytes → List Bytes → Type 0
Fits OracleMode.automatic failure reject = failure ≡ []
Fits OracleMode.regex failure reject = failure ≢ []
Fits OracleMode.exit_zero failure reject = (failure ≡ []) × (reject ≡ [])

abbrev pub IsPattern : (Bytes → Bool) → Bytes → Type 0
IsPattern compiles pattern = (length pattern ≤ 4096) × (compiles pattern ≡ true)

abbrev pub IsAcceptable : (Bytes → Bool) → OracleMode → List Bytes → List Bytes → Type 0
IsAcceptable compiles mode failure reject =
    (length failure ≤ 16)
    × (length reject ≤ 16)
    × All (IsPattern compiles) (failure ++ reject)
    × Fits mode failure reject

cons-≢ : {p : Bytes} {ps : List Bytes} → p ∷ ps ≢ []
cons-≢ e = cc

misfits_iff :
    (mode : OracleMode) (failure reject : List Bytes)
    → (misfits mode failure reject ≡ false) ↔ Fits mode failure reject
misfits_iff OracleMode.automatic [] reject = (λ h. refl, λ h. refl)
misfits_iff OracleMode.automatic (p ∷ ps) reject = (λ h. absurd (cc), λ h. absurd (cons-≢ h))
misfits_iff OracleMode.regex [] reject = (λ h. absurd (cc), λ h. absurd (h refl))
misfits_iff OracleMode.regex (p ∷ ps) reject = (λ h. cons-≢, λ h. refl)
misfits_iff OracleMode.exit_zero [] [] = (λ h. (refl, refl), λ h. refl)
misfits_iff OracleMode.exit_zero [] (q ∷ qs) = (λ h. absurd (cc), λ (_, h). absurd (cons-≢ h))
misfits_iff OracleMode.exit_zero (p ∷ ps) reject = (λ h. absurd (cc), λ (h, _). absurd (cons-≢ h))

or_false : (a b : Bool) → (a || b) ≡ false → (a ≡ false) × (b ≡ false)
or_false true b h = absurd (cc)
or_false false b h = (refl, h)

any_tests :
    (compiles : Bytes → Bool) (ps : List Bytes)
    → any (λ pattern. ltb max_pattern_bytes (length pattern)) ps ≡ false
    → any (λ pattern. not (compiles pattern)) ps ≡ false
    → All (IsPattern compiles) ps
unfolding any
any_tests compiles [] h k = tt
any_tests compiles (p ∷ ps) h k =
    let (long, hs) = or_false (ltb max_pattern_bytes (length p)) _ h in
    let (wrong, ks) = or_false (not (compiles p)) _ k in
    (
      (
        ground arith,
        elim (Bool-cases (compiles p)) [
          | inl good ↦ good
          | inr bad ↦ absurd (apart (rw bad at wrong))
        ],
      ),
      any_tests compiles ps hs ks,
    )
  where
    apart : true ≡ false → ⊥
    apart e = cc

any_long :
    (compiles : Bytes → Bool) (ps : List Bytes)
    → All (IsPattern compiles) ps
    → any (λ pattern. ltb max_pattern_bytes (length pattern)) ps ≡ false
unfolding any
any_long compiles [] h = refl
any_long compiles (p ∷ ps) ((short, _), hs) =
    let e : ltb max_pattern_bytes (length p) ≡ false = ground arith in
    rw e (any_long compiles ps hs)

any_wrong :
    (compiles : Bytes → Bool) (ps : List Bytes)
    → All (IsPattern compiles) ps
    → any (λ pattern. not (compiles pattern)) ps ≡ false
unfolding any
any_wrong compiles [] h = refl
any_wrong compiles (p ∷ ps) ((_, good), hs) = rw good (any_wrong compiles ps hs)

accepted_injective : {D : Type 0} {a b : OracleSpec D} → accepted a ≡ accepted b → a ≡ b
accepted_injective {D} {a} {b} e = ap spec_or e
  where
    spec_or : SpecResult D → OracleSpec D
    spec_or (accepted spec) = spec
    spec_or (refused _) = a

passed :
    {D : Type 0} (test : Bool) (e : OracleError) (later : SpecResult D) {spec : OracleSpec D}
    → (if test then refused e else later) ≡ accepted spec
    → (test ≡ false) × (later ≡ accepted spec)
passed true e later h = absurd (cc)
passed false e later h = (refl, h)

module _ {D : Type 0} (digest_of : Bytes → D) (compiles : Bytes → Bool) (mode : OracleMode)
    (channel : DiagnosticChannel) where
  -- The specification that `OracleSpec::new` accepts.
  abbrev pub canonical_spec : List Bytes → List Bytes → OracleSpec D
  canonical_spec failure reject = record {
    mode = mode;
    channel = channel;
    failure_patterns = canonical_patterns failure;
    reject_patterns = canonical_patterns reject;
    digest =
        spec_digest digest_of mode channel (canonical_patterns failure) (canonical_patterns reject);
  }

  -- What every accepted specification has passed.
  pub new_spec_passed :
      (failure reject : List Bytes) (spec : OracleSpec D)
      → new_spec digest_of compiles mode channel failure reject ≡ accepted spec
      → IsAcceptable compiles mode failure reject × (spec ≡ canonical_spec failure reject)
  unfolding new_spec
  new_spec_passed failure reject spec h =
      let (few, h1) =
        passed (ltb max_patterns (length failure) || ltb max_patterns (length reject)) _ _ h in
      let (short, h2) =
        passed (any (λ pattern. ltb max_pattern_bytes (length pattern)) (failure ++ reject)) _ _
          h1 in
      let (fits, h3) = passed (misfits mode failure reject) _ _ h2 in
      let (good, h4) =
        passed (any (λ pattern. not (compiles pattern)) (failure ++ reject)) _ _ h3 in
      let (a, b) =
        or_false (ltb max_patterns (length failure)) (ltb max_patterns (length reject)) few in
      (
        (
          ground arith,
          ground arith,
          any_tests compiles (failure ++ reject) short good,
          (misfits_iff mode failure reject).0 fits,
        ),
        sym (accepted_injective h4),
      )

  -- `OracleSpec::new` accepts, and then returns the canonical specification, exactly when both lists
  -- are short enough, every pattern is short enough and compiles, and the lists fit the mode.
  pub new_spec_iff :
      (failure reject : List Bytes)
      → (new_spec digest_of compiles mode channel failure reject
          ≡ accepted (canonical_spec failure reject))
        ↔ IsAcceptable compiles mode failure reject
  unfolding new_spec
  new_spec_iff failure reject = (
    λ h. (new_spec_passed failure reject (canonical_spec failure reject) h).0,
    λ (a, b, patterns, fits).
        let few : ltb max_patterns (length failure) ≡ false = ground arith in
        let few' : ltb max_patterns (length reject) ≡ false = ground arith in
        rw
          (
            few,
            few',
            any_long compiles (failure ++ reject) patterns,
            (misfits_iff mode failure reject).1 fits,
            any_wrong compiles (failure ++ reject) patterns,
          )
          refl,
  )

  -- Two accepted specifications of one mode and channel with the same sets of patterns are the same,
  -- digest included, whatever the order and the repetitions in which the patterns are given.
  pub new_spec_unique :
      (failure reject failure' reject' : List Bytes) (spec spec' : OracleSpec D)
      → ((p : Bytes) → Has p failure ↔ Has p failure')
      → ((p : Bytes) → Has p reject ↔ Has p reject')
      → new_spec digest_of compiles mode channel failure reject ≡ accepted spec
      → new_spec digest_of compiles mode channel failure' reject' ≡ accepted spec'
      → spec ≡ spec'
  new_spec_unique failure reject failure' reject' spec spec' same same' h h' =
      let canonical : canonical_spec failure reject ≡ canonical_spec failure' reject' =
        rw
          (
            canonical_unique path-IsOrder failure failure' same,
            canonical_unique path-IsOrder reject reject' same',
          )
          refl in
      (new_spec_passed failure reject spec h).1
      ∙ canonical
      ∙ sym (new_spec_passed failure' reject' spec' h').1
