-- ===== src/Diagnostic/Select.antt =====
-- The choice of at most four anchors among eligible lines.
use reprocut.Prelude.{ℕ, Bool, true, false, not, ◌&&◌, ◌||◌, leb, ◌==◌, if◌then◌else◌}
use reprocut.Prelude.{List, [], ◌∷◌, ◌++◌, map, length, get_elem?}
use Prim.Native.Nat.{compare, Ordering}
use reprocut.Prelude.Faults.{Outcome, ok, ◌>>=◌, or_panic}
use reprocut.Prelude.Orders.{compare_list, then_with}
use reprocut.Prelude.Sorting.{sort_by}
use reprocut.Model.{DiagnosticChannel}
use reprocut.Diagnostic.Texts.{Text, same_text}
use reprocut.Diagnostic.Lines.{DiscriminatorKind, EligibleLine, kind_rank}

abbrev pub max_anchors : ℕ
max_anchors = 4

-- `DiagnosticAnchor` of crates/reprocut-core/src/model.rs
pub record DiagnosticAnchor : Type 0 where
  pub channel : DiagnosticChannel
  pub text : Text

abbrev pub channel_order : DiagnosticChannel → ℕ
channel_order DiagnosticChannel.stdout = 0
channel_order DiagnosticChannel.stderr = 1
channel_order DiagnosticChannel.auto = 2
channel_order DiagnosticChannel.combined = 3

-- The derived equality of channels and of kinds.
abbrev pub same_channel : DiagnosticChannel → DiagnosticChannel → Bool
same_channel a b = channel_order a == channel_order b

abbrev pub same_kind : DiscriminatorKind → DiscriminatorKind → Bool
same_kind a b = kind_rank a == kind_rank b

-- The better line first: by kind, by falling score, by position, channel and text.
abbrev pub rank_order : EligibleLine → EligibleLine → Ordering
rank_order left right = then_with (compare (kind_rank left.kind) (kind_rank right.kind)) (
    then_with (compare right.score left.score) (
      then_with (compare left.position right.position) (
        then_with (compare (channel_order left.channel) (channel_order right.channel))
          (compare_list compare left.text right.text))))

-- The lines that are not generic, unless those are allowed.
unfoldable pub keep_specific : Bool → List EligibleLine → List EligibleLine
keep_specific allow_generic [] = []
keep_specific allow_generic (line ∷ rest) =
    let later = keep_specific allow_generic rest in
    if allow_generic || not (same_kind line.kind DiscriminatorKind.message)
    then line ∷ later
    else later

unfoldable pub rank_lines : List EligibleLine → Bool → List EligibleLine
rank_lines lines allow_generic = sort_by rank_order (keep_specific allow_generic lines)

-- `selected.iter().any(same channel and text)`
unfoldable pub is_selected : List EligibleLine → EligibleLine → Bool
is_selected [] line = false
is_selected (item ∷ rest) line =
    (same_channel item.channel line.channel && same_text item.text line.text)
    || is_selected rest line

unfoldable pub has_kind : List DiscriminatorKind → DiscriminatorKind → Bool
has_kind [] kind = false
has_kind (other ∷ rest) kind = same_kind other kind || has_kind rest kind

-- The loop of `fill_categories`; `categories` are the kinds inserted so far.
unfoldable pub fill_categories_from :
    List DiscriminatorKind → List EligibleLine → List EligibleLine → List EligibleLine
fill_categories_from categories selected [] = selected
fill_categories_from categories selected (line ∷ lines) =
    let skipped = fill_categories_from (line.kind ∷ categories) selected lines in
    let known = fill_categories_from categories selected lines in
    let selected' = selected ++ line ∷ [] in
    let pushed = fill_categories_from (line.kind ∷ categories) selected' lines in
    if has_kind categories line.kind
    then known
    else if is_selected selected line
    then skipped
    else if leb max_anchors (length selected')
    then selected'
    else pushed

unfoldable pub fill_categories : List EligibleLine → List EligibleLine → List EligibleLine
fill_categories selected lines =
    if leb max_anchors (length selected)
    then selected
    else fill_categories_from (map (λ (line : EligibleLine). line.kind) selected) selected lines

-- The loop of `fill_ranked`.
unfoldable pub fill_ranked_from : List EligibleLine → List EligibleLine → List EligibleLine
fill_ranked_from selected [] = selected
fill_ranked_from selected (line ∷ lines) =
    let skipped = fill_ranked_from selected lines in
    let selected' = selected ++ line ∷ [] in
    let pushed = fill_ranked_from selected' lines in
    if is_selected selected line
    then skipped
    else if leb max_anchors (length selected')
    then selected'
    else pushed

unfoldable pub fill_ranked : List EligibleLine → List EligibleLine → List EligibleLine
fill_ranked selected lines =
    if leb max_anchors (length selected) then selected else fill_ranked_from selected lines

abbrev pub into_anchors : List EligibleLine → List DiagnosticAnchor
into_anchors = map (λ (line : EligibleLine). record { channel = line.channel; text = line.text })

-- The selected lines of `select_anchors`, before they become anchors.
unfoldable pub select_lines : List EligibleLine → Bool → List EligibleLine
select_lines lines allow_generic =
    let ranked = rank_lines lines allow_generic in fill_ranked (fill_categories [] ranked) ranked

abbrev pub select_anchors : List EligibleLine → Bool → List DiagnosticAnchor
select_anchors lines allow_generic = into_anchors (select_lines lines allow_generic)

-- `first()`, as a list of at most one.
abbrev pub first_line : List EligibleLine → List EligibleLine
first_line [] = []
first_line (line ∷ rest) = line ∷ []

unfoldable pub select_auto_lines : List EligibleLine → List EligibleLine → List EligibleLine
select_auto_lines stdout stderr =
    let out = rank_lines stdout false in
    let err = rank_lines stderr false in
    let globally_ranked = rank_lines (out ++ err) false in
    fill_ranked (fill_categories (first_line out ++ first_line err) globally_ranked) globally_ranked

abbrev pub select_auto_anchors : List EligibleLine → List EligibleLine → List DiagnosticAnchor
select_auto_anchors stdout stderr = into_anchors (select_auto_lines stdout stderr)

-- The two index operations panic on an empty list.
unfoldable pub select_combined_lines :
    List EligibleLine → List EligibleLine → Outcome (List EligibleLine)
select_combined_lines stdout stderr = do
  let out = rank_lines stdout true
  let err = rank_lines stderr true
  first ← or_panic (get_elem? out 0)
  second ← or_panic (get_elem? err 0)
  ok (fill_ranked (first ∷ second ∷ []) (rank_lines (out ++ err) true))

abbrev pub select_combined_anchors :
    List EligibleLine → List EligibleLine → Outcome (List DiagnosticAnchor)
select_combined_anchors stdout stderr = do
  selected ← select_combined_lines stdout stderr
  ok (into_anchors selected)
