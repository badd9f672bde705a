-- ===== src/Protocol/Names.antt =====
-- The texts of the modes and the streams, and what they are read as.
use reprocut.Prelude.{◌≡◌, refl, ◌∙◌, ap, inl, inr}
use reprocut.Prelude.{none, some, Bool-cases}
use mathlib.Core.Option.{some-injective}
use reprocut.Model.{OracleMode, DiagnosticChannel}
use reprocut.Transformation.{Bytes, same_path}
use reprocut.Transformation.Pairs.{same_path→≡}
use reprocut.Protocol.{mode_name, channel_name, parse_mode, parse_channel}

pub parse_mode_name : (mode : OracleMode) → parse_mode (mode_name mode) ≡ some mode
unfolding parse_mode
parse_mode_name OracleMode.automatic = refl
parse_mode_name OracleMode.regex = refl
parse_mode_name OracleMode.exit_zero = refl

pub parse_channel_name :
    (channel : DiagnosticChannel) → parse_channel (channel_name channel) ≡ some channel
unfolding parse_channel
parse_channel_name DiagnosticChannel.auto = refl
parse_channel_name DiagnosticChannel.stderr = refl
parse_channel_name DiagnosticChannel.stdout = refl
parse_channel_name DiagnosticChannel.combined = refl

pub name_parse_mode :
    (text : Bytes) (mode : OracleMode) → parse_mode text ≡ some mode → text ≡ mode_name mode
unfolding parse_mode
name_parse_mode text mode h = elim (Bool-cases (same_path text (mode_name OracleMode.automatic))) [
  | inl e ↦
      same_path→≡ text _ e ∙ ap mode_name (some-injective OracleMode.automatic mode (rw e at h))
  | inr e ↦ elim (Bool-cases (same_path text (mode_name OracleMode.regex))) [
    | inl f ↦
        same_path→≡ text _ f ∙ ap mode_name (some-injective OracleMode.regex mode (rw (e, f) at h))
    | inr f ↦ elim (Bool-cases (same_path text (mode_name OracleMode.exit_zero))) [
      | inl g ↦
          same_path→≡ text _ g
          ∙ ap mode_name (some-injective OracleMode.exit_zero mode (rw (e, f, g) at h))
      | inr g ↦ absurd (no_mode (rw (e, f, g) at h))
    ]
  ]
]
  where
    no_mode : none ≡ some mode → ⊥
    no_mode e = cc

pub name_parse_channel :
    (text : Bytes) (channel : DiagnosticChannel)
    → parse_channel text ≡ some channel
    → text ≡ channel_name channel
unfolding parse_channel
name_parse_channel text channel h =
    elim (Bool-cases (same_path text (channel_name DiagnosticChannel.auto))) [
      | inl e ↦
          same_path→≡ text _ e
          ∙ ap channel_name (some-injective DiagnosticChannel.auto channel (rw e at h))
      | inr e ↦ elim (Bool-cases (same_path text (channel_name DiagnosticChannel.stderr))) [
        | inl f ↦
            same_path→≡ text _ f
            ∙ ap channel_name (some-injective DiagnosticChannel.stderr channel (rw (e, f) at h))
        | inr f ↦ elim (Bool-cases (same_path text (channel_name DiagnosticChannel.stdout))) [
          | inl g ↦
              same_path→≡ text _ g
              ∙ ap channel_name
                  (some-injective DiagnosticChannel.stdout channel (rw (e, f, g) at h))
          | inr g ↦ elim (Bool-cases (same_path text (channel_name DiagnosticChannel.combined))) [
            | inl k ↦
                same_path→≡ text _ k
                ∙ ap channel_name
                    (some-injective DiagnosticChannel.combined channel (rw (e, f, g, k) at h))
            | inr k ↦ absurd (no_channel (rw (e, f, g, k) at h))
          ]
        ]
      ]
    ]
  where
    no_channel : none ≡ some channel → ⊥
    no_channel e = cc
