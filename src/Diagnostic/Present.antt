-- ===== src/Diagnostic/Present.antt =====
-- Every anchor of `stable_discriminators` is a line of every baseline.
use reprocut.Prelude.{
  ℕ, suc, ◌≡◌, refl, sym, ◌⊎◌, inl, inr, Bool, true, false, not, ◌&&◌, ◌||◌, ◌==◌,
}
use reprocut.Prelude.{==→≡, Bool-cases, List, [], ◌∷◌, map, All, All-append}
use mathlib.Core.Path.{subst}
use reprocut.Prelude.{get_elem?, All-get_elem?, Option-cases}
use reprocut.Prelude.Faults.{ok, fault, panic, or_panic, bind-ok, ok-injective, or_panic-some}
use reprocut.Prelude.Members.{Has}
use reprocut.Model.{DiagnosticChannel, auto, stdout, stderr, combined}
use reprocut.Observation.{ExecutionObservation}
use reprocut.Diagnostic.Texts.{Text, Library, lines, same_text, member}
use reprocut.Diagnostic.Lines.{EligibleLine, eligible_from, eligible_lines, discriminator_kind}
use reprocut.Diagnostic.Normalize.{normalize_bytes}
use reprocut.Diagnostic.Select.{DiagnosticAnchor, same_channel, into_anchors, rank_lines}
use reprocut.Diagnostic.Select.{select_lines, select_auto_lines, select_combined_lines}
use reprocut.Diagnostic.Stable.{selected_bytes, takes_both, in_all, keep_common, no_lines}
use reprocut.Diagnostic.Stable.{
  eligible_of, stream_discriminators, select_for, stable_discriminators,
}
use reprocut.Diagnostic.Kept.{
  rank_lines-All, select_lines-All, select_auto_lines-All, fill_ranked-All,
}

and_true : (a b : Bool) → (a && b) ≡ true → (a ≡ true) × (b ≡ true)
and_true true b h = (refl, h)
and_true false b h = absurd (cc)

pub same_text→≡ : (a b : Text) → same_text a b ≡ true → a ≡ b
unfolding same_text
same_text→≡ [] [] h = refl
same_text→≡ [] (d ∷ b) h = absurd (cc)
same_text→≡ (c ∷ a) [] h = absurd (cc)
same_text→≡ (c ∷ a) (d ∷ b) h =
    let (here, later) = and_true (c == d) (same_text a b) h in
    rw (==→≡ c d here, same_text→≡ a b later) refl

member-Has : (text : Text) (texts : List Text) → member text texts ≡ true → Has text texts
unfolding member
member-Has text [] h = absurd (cc)
member-Has text (other ∷ rest) h = elim (Bool-cases (same_text text other)) [
  | inl e ↦ inl (same_text→≡ text other e)
  | inr e ↦ inr (member-Has text rest (rw e at h))
]

in_all-Has :
    (intersections : List (List Text)) (text : Text)
    → in_all intersections text ≡ true
    → All (Has text) intersections
unfolding in_all
in_all-Has [] text h = tt
in_all-Has (texts ∷ rest) text h =
    let (here, later) = and_true (member text texts) (in_all rest text) h in
    (member-Has text texts here, in_all-Has rest text later)

pub keep_common-All :
    (P : EligibleLine → Type 0) (intersections : List (List Text)) (found : List EligibleLine)
    → All P found
    → All
        (λ (line : EligibleLine). P line × All (Has line.text) intersections)
        (keep_common intersections found)
unfolding keep_common
keep_common-All P intersections [] h = tt
keep_common-All P intersections (line ∷ found) (h, hs) =
    elim (Bool-cases (in_all intersections line.text)) [
      | inl common ↦
          rw common (
            (h, in_all-Has intersections line.text common),
            keep_common-All P intersections found hs,
          )
      | inr rare ↦ rw rare (keep_common-All P intersections found hs)
    ]

pub All-imp {ℓ} :
    {A : Type ℓ} (P Q : A → Type 0) (xs : List A) → ((x : A) → P x → Q x) → All P xs → All Q xs
All-imp P Q [] f h = tt
All-imp P Q (x ∷ xs) f (h, hs) = (f x h, All-imp P Q xs f hs)

pub All-map_of {ℓ κ} :
    {A : Type ℓ} {B : Type κ} (f : A → B) (P : B → Type 0) (xs : List A)
    → All (λ x. P (f x)) xs
    → All P (map f xs)
All-map_of f P [] h = tt
All-map_of f P (x ∷ xs) (h, hs) = (h, All-map_of f P xs hs)

pub All-of_map {ℓ κ} :
    {A : Type ℓ} {B : Type κ} (f : A → B) (P : B → Type 0) (xs : List A)
    → All P (map f xs)
    → All (λ x. P (f x)) xs
All-of_map f P [] h = tt
All-of_map f P (x ∷ xs) (h, hs) = (h, All-of_map f P xs hs)

pub Has-map {ℓ} :
    {A : Type ℓ} {B : Type 0} (f : A → B) (ys : List B) (b : B) (xs : List A)
    → All (λ x. Has (f x) ys) xs
    → Has b (map f xs)
    → Has b ys
Has-map f ys b [] h k = absurd k
Has-map f ys b (x ∷ xs) (h, hs) (inl e) = rw e h
Has-map f ys b (x ∷ xs) (h, hs) (inr k) = Has-map f ys b xs hs k

abbrev pub IsStream : DiagnosticChannel → Type 0
IsStream channel = (channel ≡ stdout) ⊎ (channel ≡ stderr)

module _ (lib : Library) where
  -- The text is a line of the normalized stream.
  abbrev pub IsLine : DiagnosticChannel → Text → ExecutionObservation → Type 0
  IsLine channel text observation =
      Has text (lines (normalize_bytes lib (selected_bytes observation channel)))

  abbrev pub IsCommon : List ExecutionObservation → DiagnosticChannel → Text → Type 0
  IsCommon baselines channel text = IsStream channel × All (IsLine channel text) baselines

  abbrev pub IsPresent : List ExecutionObservation → DiagnosticAnchor → Type 0
  IsPresent baselines anchor = IsCommon baselines anchor.channel anchor.text

  eligible_from-All :
      (channel : DiagnosticChannel) (position : ℕ) (texts whole : List Text)
      → All (λ text. Has text whole) texts
      → All
          (λ (line : EligibleLine). (line.channel ≡ channel) × Has line.text whole)
          (eligible_from lib channel position texts)
  unfolding eligible_from
  eligible_from-All channel position [] whole h = tt
  eligible_from-All channel position (text ∷ rest) whole (h, hs) =
      let later = eligible_from-All channel (suc position) rest whole hs in
      elim (Option-cases (discriminator_kind lib text)) [
        | inl e ↦ rw (All, e) later
        | inr (kind, e) ↦ rw (All, e) ((refl, h), later)
      ]

  All-self : (xs ys : List Text) → ((x : Text) → Has x xs → Has x ys) → All (λ x. Has x ys) xs
  All-self [] ys f = tt
  All-self (x ∷ xs) ys f = (f x (inl refl), All-self xs ys (λ y h. f y (inr h)))

  pub eligible_of-All :
      (channel : DiagnosticChannel) (observation : ExecutionObservation)
      → All
          (λ (line : EligibleLine). (line.channel ≡ channel) × IsLine channel line.text observation)
          (eligible_of lib channel observation)
  unfolding eligible_lines
  eligible_of-All channel observation =
      let whole = lines (normalize_bytes lib (selected_bytes observation channel)) in
      eligible_from-All channel 0 whole whole (All-self whole whole (λ x h. h))

  -- A line that both is from the first baseline and was found in all the others.
  shared_line :
      (stream : DiagnosticChannel) (baseline : ExecutionObservation)
      (baselines : List ExecutionObservation)
      → IsStream stream
      → (line : EligibleLine)
      → ((line.channel ≡ stream) × IsLine stream line.text baseline)
        × All (Has line.text) (
            map
              (λ (o : ExecutionObservation).
                map (λ (l : EligibleLine). l.text) (eligible_of lib stream o))
              baselines)
      → IsCommon (baseline ∷ baselines) line.channel line.text
  shared_line stream baseline baselines s line ((e, first), others) =
      let others' =
        All-imp
          (λ (o : ExecutionObservation).
            Has line.text (map (λ (l : EligibleLine). l.text) (eligible_of lib stream o)))
          (IsLine stream line.text) baselines
          (λ o h.
            Has-map (λ (l : EligibleLine). l.text)
              (lines (normalize_bytes lib (selected_bytes o stream))) line.text
              (eligible_of lib stream o)
              (All-imp (λ (l : EligibleLine). (l.channel ≡ stream) × IsLine stream l.text o)
                (λ l. IsLine stream l.text o) (eligible_of lib stream o) (λ l k. k.1)
                (eligible_of-All stream o))
              h)
          (All-of_map
            (λ (o : ExecutionObservation).
              map (λ (l : EligibleLine). l.text) (eligible_of lib stream o))
            (Has line.text) baselines others) in
      subst (λ channel. IsCommon (baseline ∷ baselines) channel line.text) (sym e)
        (s, (first, others'))

  pub stream_discriminators-All :
      (requested stream : DiagnosticChannel) (baselines : List ExecutionObservation)
      → IsStream stream
      → (found : List EligibleLine)
      → stream_discriminators lib requested stream baselines ≡ ok found
      → All (λ (line : EligibleLine). IsCommon baselines line.channel line.text) found
  unfolding stream_discriminators
  stream_discriminators-All requested stream [] s found h =
      elim (Bool-cases (not (takes_both requested) && not (same_channel requested stream))) [
        | inl skips ↦ rw (← ok-injective (rw skips at h)) tt
        | inr takes ↦ absurd (apart (rw takes at h))
      ]
    where
      apart : {A : Type 0} {a : A} → fault panic ≡ ok a → ⊥
      apart e = cc
  stream_discriminators-All requested stream (baseline ∷ baselines) s found h =
      elim (Bool-cases (not (takes_both requested) && not (same_channel requested stream))) [
        | inl skips ↦ rw (← ok-injective (rw skips at h)) tt
        | inr takes ↦ elim (Bool-cases (no_lines (eligible_of lib stream baseline))) [
          | inl none_first ↦ rw (← ok-injective (rw (takes, none_first) at h)) tt
          | inr some_first ↦ rw (← ok-injective (rw (takes, some_first) at h)) (
              All-imp _
                (λ (line : EligibleLine). IsCommon (baseline ∷ baselines) line.channel line.text) _
                (shared_line stream baseline baselines s)
                (keep_common-All
                  (λ (line : EligibleLine).
                    (line.channel ≡ stream) × IsLine stream line.text baseline)
                  _ (eligible_of lib stream baseline) (eligible_of-All stream baseline)))
        ]
      ]

  into_anchors-All :
      (baselines : List ExecutionObservation) (selected : List EligibleLine)
      → All (λ (line : EligibleLine). IsCommon baselines line.channel line.text) selected
      → All (IsPresent baselines) (into_anchors selected)
  into_anchors-All baselines selected h =
      All-map_of (λ (line : EligibleLine). record { channel = line.channel; text = line.text })
        (IsPresent baselines) selected h

  select_combined_lines-All :
      (P : EligibleLine → Type 0) (out err selected : List EligibleLine)
      → All P out
      → All P err
      → select_combined_lines out err ≡ ok selected
      → All P selected
  unfolding select_combined_lines
  select_combined_lines-All P out err selected h k e =
      let outs = rank_lines-All P out true h in
      let errs = rank_lines-All P err true k in
      let (first, e1, e') = bind-ok (or_panic (get_elem? (rank_lines out true) 0)) _ e in
      let (second, e2, e'') = bind-ok (or_panic (get_elem? (rank_lines err true) 0)) _ e' in
      rw (← ok-injective e'') (
        fill_ranked-All P (first ∷ second ∷ []) _
          (
            All-get_elem? P (rank_lines out true) 0 outs (or_panic-some e1),
            (All-get_elem? P (rank_lines err true) 0 errs (or_panic-some e2), tt),
          )
          (rank_lines-All P _ true
            (All-append P (rank_lines out true) (rank_lines err true) outs errs)))

  select_for-All :
      (baselines : List ExecutionObservation) (channel : DiagnosticChannel)
      (out err : List EligibleLine) (anchors : List DiagnosticAnchor)
      → All (λ (line : EligibleLine). IsCommon baselines line.channel line.text) out
      → All (λ (line : EligibleLine). IsCommon baselines line.channel line.text) err
      → select_for channel out err ≡ ok anchors
      → All (IsPresent baselines) anchors
  select_for-All baselines auto out err anchors h k e =
      rw (← ok-injective e) (
        into_anchors-All baselines (select_auto_lines out err)
          (select_auto_lines-All _ out err h k))
  select_for-All baselines stdout out err anchors h k e =
      rw (← ok-injective e)
        (into_anchors-All baselines (select_lines out true) (select_lines-All _ out true h))
  select_for-All baselines stderr out err anchors h k e =
      rw (← ok-injective e)
        (into_anchors-All baselines (select_lines err true) (select_lines-All _ err true k))
  select_for-All baselines combined out err anchors h k e =
      elim (Bool-cases (no_lines out || no_lines err)) [
        | inl missing ↦ rw (← ok-injective (rw missing at e)) tt
        | inr there ↦
            let (selected, e1, e2) = bind-ok (select_combined_lines out err) _ (rw there at e) in
            rw (← ok-injective e2) (
              into_anchors-All baselines selected
                (select_combined_lines-All _ out err selected h k e1))
      ]

  -- Every anchor that `stable_discriminators` returns names the standard output or the standard
  -- error, and its text is a line of that normalized stream in every one of the baselines.
  pub stable_discriminators-IsPresent :
      (channel : DiagnosticChannel) (baselines : List ExecutionObservation)
      (anchors : List DiagnosticAnchor)
      → stable_discriminators lib channel baselines ≡ ok anchors
      → All (IsPresent baselines) anchors
  unfolding stable_discriminators
  stable_discriminators-IsPresent channel baselines anchors h =
      let (out, e1, h1) = bind-ok (stream_discriminators lib channel stdout baselines) _ h in
      let (err, e2, h2) = bind-ok (stream_discriminators lib channel stderr baselines) _ h1 in
      select_for-All baselines channel out err anchors
        (stream_discriminators-All channel stdout baselines (inl refl) out e1)
        (stream_discriminators-All channel stderr baselines (inr refl) err e2) h2
