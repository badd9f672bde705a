-- ===== src/Diagnostic/Stable.antt =====
-- `stable_discriminators`: the anchors among the lines that every baseline has.
use reprocut.Prelude.{Bool, true, false, not, ◌&&◌, ◌||◌, if◌then◌else◌}
use reprocut.Prelude.{List, [], ◌∷◌, map}
use reprocut.Prelude.Faults.{Outcome, ok, fault, panic, ◌>>=◌}
use reprocut.Model.{DiagnosticChannel}
use reprocut.Observation.{ExecutionObservation}
use reprocut.Transformation.{Bytes}
use reprocut.Diagnostic.Texts.{Text, Library, member}
use reprocut.Diagnostic.Lines.{EligibleLine, eligible_lines}
use reprocut.Diagnostic.Normalize.{normalize_bytes}
use reprocut.Diagnostic.Select.{DiagnosticAnchor, same_channel, select_anchors, select_auto_anchors}
use reprocut.Diagnostic.Select.{select_combined_anchors}

abbrev pub selected_bytes : ExecutionObservation → DiagnosticChannel → Bytes
selected_bytes observation DiagnosticChannel.stdout = observation.stdout
selected_bytes observation DiagnosticChannel.stderr = observation.stderr
selected_bytes observation DiagnosticChannel.auto = []
selected_bytes observation DiagnosticChannel.combined = []

-- Whether both streams are asked for.
abbrev pub takes_both : DiagnosticChannel → Bool
takes_both DiagnosticChannel.auto = true
takes_both DiagnosticChannel.combined = true
takes_both _ = false

-- `intersections.iter().all(|lines| lines.contains(..))`
unfoldable pub in_all : List (List Text) → Text → Bool
in_all [] text = true
in_all (texts ∷ rest) text = member text texts && in_all rest text

unfoldable pub keep_common : List (List Text) → List EligibleLine → List EligibleLine
keep_common intersections [] = []
keep_common intersections (line ∷ lines) =
    let later = keep_common intersections lines in
    if in_all intersections line.text then line ∷ later else later

abbrev pub no_lines : List EligibleLine → Bool
no_lines [] = true
no_lines (line ∷ lines) = false

abbrev pub select_for :
    DiagnosticChannel → List EligibleLine → List EligibleLine → Outcome (List DiagnosticAnchor)
select_for DiagnosticChannel.auto out err = ok (select_auto_anchors out err)
select_for DiagnosticChannel.stdout out err = ok (select_anchors out true)
select_for DiagnosticChannel.stderr out err = ok (select_anchors err true)
select_for DiagnosticChannel.combined out err =
    if no_lines out || no_lines err then ok [] else select_combined_anchors out err

module _ (lib : Library) where
  abbrev pub eligible_of : DiagnosticChannel → ExecutionObservation → List EligibleLine
  eligible_of stream observation =
      eligible_lines lib stream (normalize_bytes lib (selected_bytes observation stream))

  -- The index `baselines[0]` panics without a baseline, where it is reached.
  unfoldable pub stream_discriminators :
      DiagnosticChannel
      → DiagnosticChannel
      → List ExecutionObservation
      → Outcome (List EligibleLine)
  stream_discriminators requested stream [] =
      if not (takes_both requested) && not (same_channel requested stream)
      then ok []
      else fault panic
  stream_discriminators requested stream (baseline ∷ baselines) =
      let first = eligible_of stream baseline in
      let intersections =
        map
          (λ (observation : ExecutionObservation).
            map (λ (line : EligibleLine). line.text) (eligible_of stream observation))
          baselines in
      if not (takes_both requested) && not (same_channel requested stream)
      then ok []
      else if no_lines first
      then ok []
      else ok (keep_common intersections first)

  unfoldable pub stable_discriminators :
      DiagnosticChannel → List ExecutionObservation → Outcome (List DiagnosticAnchor)
  stable_discriminators channel baselines = do
    out ← stream_discriminators channel DiagnosticChannel.stdout baselines
    err ← stream_discriminators channel DiagnosticChannel.stderr baselines
    select_for channel out err
