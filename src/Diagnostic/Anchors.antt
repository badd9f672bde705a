-- ===== src/Diagnostic/Anchors.antt =====
-- The anchors of `stable_discriminators`: how many there are, that they differ, and that there is a
-- result.
use reprocut.Prelude.{◌≤◌, ◌≡◌, ◌≢◌, refl, sym, ap, ◌∙◌, inl, inr, arith, Bool, true, false}
use reprocut.Prelude.{◌&&◌, ◌||◌, ◌==◌, not, Bool-cases, List, [], ◌∷◌, ◌++◌, map, All}
use reprocut.Prelude.{get_elem?, All-get_elem?, length, length-map}
use reprocut.Prelude.Faults.{ok, or_panic, bind-ok, ok-injective, or_panic-some}
use reprocut.Model.{DiagnosticChannel, auto, stdout, stderr, combined}
use reprocut.Observation.{ExecutionObservation}
use reprocut.Diagnostic.Texts.{Text, Library, same_text}
use reprocut.Diagnostic.Lines.{EligibleLine}
use reprocut.Diagnostic.Select.{DiagnosticAnchor, same_channel, into_anchors, rank_lines}
use reprocut.Diagnostic.Select.{select_lines, select_auto_lines, select_combined_lines, fill_ranked}
use reprocut.Diagnostic.Stable.{
  takes_both, keep_common, no_lines, eligible_of, stream_discriminators,
}
use reprocut.Diagnostic.Stable.{select_for, stable_discriminators}
use reprocut.Diagnostic.Kept.{rank_lines-All, rank_lines-first}
use reprocut.Diagnostic.Present.{All-imp, eligible_of-All, keep_common-All}
use reprocut.Diagnostic.Distinct.{
  IsApart, IsDistinct, IsSelection, FromStream, select_lines-IsSelection,
}
use reprocut.Diagnostic.Distinct.{fill_ranked-IsSelection, fill_categories-IsSelection}
use reprocut.Diagnostic.Distinct.{firsts-IsSelection, apart_streams}

abbrev pub AreDistinct : List DiagnosticAnchor → Type 0
AreDistinct [] = Unit
AreDistinct (anchor ∷ rest) = All (λ other. anchor ≢ other) rest × AreDistinct rest

pub same_text_self : (text : Text) → same_text text text ≡ true
unfolding same_text
same_text_self [] = refl
same_text_self (c ∷ text) =
    let e : (c == c) ≡ true = ground arith in rw (e, same_text_self text) refl

same_channel_self : (channel : DiagnosticChannel) → same_channel channel channel ≡ true
same_channel_self auto = refl
same_channel_self stdout = refl
same_channel_self stderr = refl
same_channel_self combined = refl

abbrev anchor_of : EligibleLine → DiagnosticAnchor
anchor_of line = record { channel = line.channel; text = line.text }

abbrev agree : DiagnosticAnchor → DiagnosticAnchor → Bool
agree a b = same_channel a.channel b.channel && same_text a.text b.text

agree_self : (a : DiagnosticAnchor) → agree a a ≡ true
agree_self a = rw (same_channel_self a.channel, same_text_self a.text) refl

apart_anchors : (a b : EligibleLine) → IsApart a b → anchor_of a ≢ anchor_of b
apart_anchors a b h e = apart (sym (agree_self (anchor_of a)) ∙ ap (agree (anchor_of a)) e ∙ h)
  where
    apart : true ≡ false → ⊥
    apart q = cc

into_anchors-distinct_from :
    (line : EligibleLine) (rest : List EligibleLine)
    → All (IsApart line) rest
    → All (λ other. anchor_of line ≢ other) (into_anchors rest)
into_anchors-distinct_from line [] h = tt
into_anchors-distinct_from line (other ∷ rest) (h, hs) =
    (apart_anchors line other h, into_anchors-distinct_from line rest hs)

into_anchors-AreDistinct :
    (selected : List EligibleLine) → IsDistinct selected → AreDistinct (into_anchors selected)
into_anchors-AreDistinct [] d = tt
into_anchors-AreDistinct (line ∷ rest) (d, ds) =
    (into_anchors-distinct_from line rest d, into_anchors-AreDistinct rest ds)

abbrev pub AreSelected : List DiagnosticAnchor → Type 0
AreSelected anchors = (length anchors ≤ 4) × AreDistinct anchors

into_anchors-AreSelected :
    (selected : List EligibleLine) → IsSelection selected → AreSelected (into_anchors selected)
into_anchors-AreSelected selected (few, d) =
    let e = length-map anchor_of selected in (omega arith, into_anchors-AreDistinct selected d)

select_auto_lines-IsSelection :
    (out err : List EligibleLine)
    → FromStream stdout out
    → FromStream stderr err
    → IsSelection (select_auto_lines out err)
unfolding select_auto_lines
select_auto_lines-IsSelection out err h k = fill_ranked-IsSelection _ _ (
    fill_categories-IsSelection _ _ (
      firsts-IsSelection (rank_lines out false) (rank_lines err false)
        (rank_lines-All (λ line. line.channel ≡ stdout) out false h)
        (rank_lines-All (λ line. line.channel ≡ stderr) err false k)))

select_combined_lines-IsSelection :
    (out err selected : List EligibleLine)
    → FromStream stdout out
    → FromStream stderr err
    → select_combined_lines out err ≡ ok selected
    → IsSelection selected
unfolding select_combined_lines
select_combined_lines-IsSelection out err selected h k e =
    let (first, e1, e') = bind-ok (or_panic (get_elem? (rank_lines out true) 0)) _ e in
    let (second, e2, e'') = bind-ok (or_panic (get_elem? (rank_lines err true) 0)) _ e' in
    rw (← ok-injective e'') (
      fill_ranked-IsSelection _ _ (
        apart_streams first second
          (All-get_elem? (λ (line : EligibleLine). line.channel ≡ stdout) (rank_lines out true) 0
            (rank_lines-All (λ line. line.channel ≡ stdout) out true h) (or_panic-some e1))
          (All-get_elem? (λ (line : EligibleLine). line.channel ≡ stderr) (rank_lines err true) 0
            (rank_lines-All (λ line. line.channel ≡ stderr) err true k) (or_panic-some e2))))

select_for-AreSelected :
    (channel : DiagnosticChannel) (out err : List EligibleLine) (anchors : List DiagnosticAnchor)
    → FromStream stdout out
    → FromStream stderr err
    → select_for channel out err ≡ ok anchors
    → AreSelected anchors
select_for-AreSelected auto out err anchors h k e = rw (← ok-injective e) (
    into_anchors-AreSelected (select_auto_lines out err)
      (select_auto_lines-IsSelection out err h k))
select_for-AreSelected stdout out err anchors h k e =
    rw (← ok-injective e)
      (into_anchors-AreSelected (select_lines out true) (select_lines-IsSelection out true))
select_for-AreSelected stderr out err anchors h k e =
    rw (← ok-injective e)
      (into_anchors-AreSelected (select_lines err true) (select_lines-IsSelection err true))
select_for-AreSelected combined out err anchors h k e =
    elim (Bool-cases (no_lines out || no_lines err)) [
      | inl missing ↦ rw (← ok-injective (rw missing at e)) (omega arith, tt)
      | inr there ↦
          let (selected, e1, e2) = bind-ok (select_combined_lines out err) _ (rw there at e) in
          rw (← ok-injective e2) (
            into_anchors-AreSelected selected
              (select_combined_lines-IsSelection out err selected h k e1))
    ]

keep_common-FromStream :
    (stream : DiagnosticChannel) (intersections : List (List Text)) (found : List EligibleLine)
    → FromStream stream found
    → FromStream stream (keep_common intersections found)
keep_common-FromStream stream intersections found h =
    All-imp _ (λ (line : EligibleLine). line.channel ≡ stream) _ (λ line k. k.0)
      (keep_common-All (λ (line : EligibleLine). line.channel ≡ stream) intersections found h)

select_combined_total :
    (a b : EligibleLine) (out err : List EligibleLine)
    → (selected : List EligibleLine) × (select_combined_lines (a ∷ out) (b ∷ err) ≡ ok selected)
unfolding select_combined_lines
select_combined_total a b out err =
    let (first, e) = rank_lines-first a out in
    let (second, k) = rank_lines-first b err in
    (
      fill_ranked (first ∷ second ∷ [])
          (rank_lines (rank_lines (a ∷ out) true ++ rank_lines (b ∷ err) true) true),
      rw (e, k) refl,
    )

select_for_total :
    (channel : DiagnosticChannel) (out err : List EligibleLine)
    → (anchors : List DiagnosticAnchor) × (select_for channel out err ≡ ok anchors)
select_for_total auto out err = (_, refl)
select_for_total stdout out err = (_, refl)
select_for_total stderr out err = (_, refl)
select_for_total combined [] err = ([], refl)
select_for_total combined (a ∷ out) [] = ([], refl)
select_for_total combined (a ∷ out) (b ∷ err) =
    let (selected, e) = select_combined_total a b out err in (into_anchors selected, rw e refl)

module _ (lib : Library) where
  eligible_of-FromStream :
      (stream : DiagnosticChannel) (observation : ExecutionObservation)
      → FromStream stream (eligible_of lib stream observation)
  eligible_of-FromStream stream observation =
      All-imp _ (λ (line : EligibleLine). line.channel ≡ stream) _ (λ line k. k.0)
        (eligible_of-All lib stream observation)

  abbrev others : DiagnosticChannel → List ExecutionObservation → List (List Text)
  others stream baselines =
      map
        (λ (observation : ExecutionObservation).
          map (λ (line : EligibleLine). line.text) (eligible_of lib stream observation))
        baselines

  -- Both the result and where it is from.
  stream_discriminators_total :
      (requested stream : DiagnosticChannel) (baseline : ExecutionObservation)
      (baselines : List ExecutionObservation)
      → (found : List EligibleLine) × (stream_discriminators lib requested stream
            (baseline ∷ baselines)
          ≡ ok found)
        × FromStream stream found
  unfolding stream_discriminators
  stream_discriminators_total requested stream baseline baselines =
      elim (Bool-cases (not (takes_both requested) && not (same_channel requested stream))) [
        | inl skips ↦ ([], rw skips refl, tt)
        | inr takes ↦ elim (Bool-cases (no_lines (eligible_of lib stream baseline))) [
          | inl none_first ↦ ([], rw (takes, none_first) refl, tt)
          | inr some_first ↦ (
            keep_common (others stream baselines) (eligible_of lib stream baseline),
            rw (takes, some_first) refl,
            keep_common-FromStream stream (others stream baselines)
                (eligible_of lib stream baseline) (eligible_of-FromStream stream baseline),
          )
        ]
      ]

  -- With a baseline, `stable_discriminators` has a result: neither index operation panics. The
  -- result has at most four anchors, and no two of them are the same.
  pub stable_discriminators_total :
      (channel : DiagnosticChannel) (baseline : ExecutionObservation)
      (baselines : List ExecutionObservation)
      → (anchors : List DiagnosticAnchor) × (stable_discriminators lib channel
            (baseline ∷ baselines)
          ≡ ok anchors)
        × (length anchors ≤ 4)
        × AreDistinct anchors
  unfolding stable_discriminators
  stable_discriminators_total channel baseline baselines =
      let (out, e1, h) = stream_discriminators_total channel stdout baseline baselines in
      let (err, e2, k) = stream_discriminators_total channel stderr baseline baselines in
      let (anchors, e3) = select_for_total channel out err in
      let (few, d) = select_for-AreSelected channel out err anchors h k e3 in
      (anchors, rw (e1, e2, e3) refl, few, d)
