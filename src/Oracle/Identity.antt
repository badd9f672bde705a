-- ===== src/Oracle/Identity.antt =====
-- The bytes of a fingerprint tell fingerprints apart, so that its digest identifies the failure.
use mathlib.Core.List.{append-nil}
use reprocut.Prelude.{◌^◌, ◌<◌, ◌≡◌, refl, sym, ◌∙◌, ap, arith}
use reprocut.Prelude.{[], length}
use reprocut.Transformation.{Bytes}
use reprocut.Transformation.Injective.{cons-injective, to_le_bytes-prefix, append-prefix}
use reprocut.Oracle.Fingerprint.{FailureFingerprint}
use reprocut.Oracle.Fingerprint.{fingerprint_header}
use reprocut.Oracle.Fingerprint.{fingerprint_bytes}
use reprocut.Oracle.Prefixes.{mode_of, mode_of-mode_tag, IsWord, AreStrings, AreAnchors}
use reprocut.Oracle.Prefixes.{encode_termination-prefix, encode_count-prefix, encode_strings-prefix}
use reprocut.Oracle.Prefixes.{encode_anchors-prefix}

module _ {D : Type 0} where
  -- What the types of the source promise of the sizes in a fingerprint.
  abbrev pub IsEncodable : FailureFingerprint D → Type 0
  IsEncodable f =
      IsWord f.termination
      × (f.schema < 2 ^ 16)
      × (length f.anchors < 2 ^ 64)
      × AreAnchors f.anchors
      × AreStrings f.failure_patterns
      × AreStrings f.reject_patterns

module _ {D : Type 0} (as_bytes : D → Bytes) where
  -- Fingerprints of machine size that have the same bytes agree in every field that is evidence:
  -- mode, termination, normalization schema, specification digest, anchors and both lists of
  -- patterns. The bytes of a digest are 32 and tell digests apart.
  pub fingerprint_bytes-injective :
      (f g : FailureFingerprint D)
      → ((d : D) → length (as_bytes d) ≡ 32)
      → ((c d : D) → as_bytes c ≡ as_bytes d → c ≡ d)
      → IsEncodable f
      → IsEncodable g
      → fingerprint_bytes as_bytes f ≡ fingerprint_bytes as_bytes g
      → (f.mode ≡ g.mode)
        × (f.termination ≡ g.termination)
        × (f.schema ≡ g.schema)
        × (f.oracle_spec_digest ≡ g.oracle_spec_digest)
        × (f.anchors ≡ g.anchors)
        × (f.failure_patterns ≡ g.failure_patterns)
        × (f.reject_patterns ≡ g.reject_patterns)
  unfolding fingerprint_bytes
  fingerprint_bytes-injective f g sized apart (ft, fs, fn, fa, ff, fr) (gt, gs, gn, ga, gf, gr) e =
      let (tags, e1) =
        cons-injective (append-prefix fingerprint_header fingerprint_header _ _ refl e).1 in
      let (terminations, e2) = encode_termination-prefix f.termination g.termination _ _ ft gt e1 in
      let (schemas, e3) =
        to_le_bytes-prefix 2 f.schema g.schema _ _ (omega arith) (omega arith) e2 in
      let (digests, e4) =
        append-prefix (as_bytes f.oracle_spec_digest) (as_bytes g.oracle_spec_digest) _ _
          (sized f.oracle_spec_digest ∙ sym (sized g.oracle_spec_digest)) e3 in
      let (sizes, e5) = encode_count-prefix (length f.anchors) (length g.anchors) _ _ fn gn e4 in
      let (anchors, e6) = encode_anchors-prefix f.anchors g.anchors _ _ fa ga sizes e5 in
      let (failures, e7) =
        encode_strings-prefix f.failure_patterns g.failure_patterns _ _ ff gf e6 in
      let (rejects, _) =
        encode_strings-prefix f.reject_patterns g.reject_patterns [] [] fr gr
          (append-nil _ ∙ e7 ∙ sym (append-nil _)) in
      (
        sym (mode_of-mode_tag f.mode) ∙ ap mode_of tags ∙ mode_of-mode_tag g.mode,
        terminations,
        schemas,
        apart f.oracle_spec_digest g.oracle_spec_digest digests,
        anchors,
        failures,
        rejects,
      )
