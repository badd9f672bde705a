-- ===== src/Diagnostic/Distinct.antt =====
-- How the selection bounds and separates the anchors, and that it does not fail.
use reprocut.Prelude.{◌≤◌, ◌<◌, ◌≡◌, refl, inl, inr, arith, Bool, true, false}
use reprocut.Prelude.{◌&&◌, ◌||◌, leb, not-leb→lt, Bool-cases, List, [], ◌∷◌, ◌++◌, map, All}
use reprocut.Prelude.{length, length-append}
use reprocut.Model.{DiagnosticChannel, stdout, stderr}
use reprocut.Diagnostic.Texts.{same_text}
use reprocut.Diagnostic.Lines.{EligibleLine, DiscriminatorKind}
use reprocut.Diagnostic.Select.{max_anchors, same_channel}
use reprocut.Diagnostic.Select.{is_selected, has_kind, fill_categories_from, fill_categories}
use reprocut.Diagnostic.Select.{fill_ranked_from, fill_ranked, first_line, select_lines}

-- Two lines make different anchors.
abbrev pub IsApart : EligibleLine → EligibleLine → Type 0
IsApart a b = (same_channel a.channel b.channel && same_text a.text b.text) ≡ false

abbrev pub IsDistinct : List EligibleLine → Type 0
IsDistinct [] = Unit
IsDistinct (line ∷ rest) = All (IsApart line) rest × IsDistinct rest

abbrev pub IsSelection : List EligibleLine → Type 0
IsSelection selected = (length selected ≤ 4) × IsDistinct selected

or_false : (a b : Bool) → (a || b) ≡ false → (a ≡ false) × (b ≡ false)
or_false true b h = absurd (cc)
or_false false b h = (refl, h)

All-snoc :
    (P : EligibleLine → Type 0) (xs : List EligibleLine) (y : EligibleLine)
    → All P xs
    → P y
    → All P (xs ++ y ∷ [])
All-snoc P [] y h k = (k, tt)
All-snoc P (x ∷ xs) y (h, hs) k = (h, All-snoc P xs y hs k)

pushed-IsDistinct :
    (selected : List EligibleLine) (line : EligibleLine)
    → IsDistinct selected
    → is_selected selected line ≡ false
    → IsDistinct (selected ++ line ∷ [])
unfolding is_selected
pushed-IsDistinct [] line d h = (tt, tt)
pushed-IsDistinct (item ∷ rest) line (d, ds) h =
    let (here, later) =
      or_false (same_channel item.channel line.channel && same_text item.text line.text)
        (is_selected rest line) h in
    (All-snoc (IsApart item) rest line d here, pushed-IsDistinct rest line ds later)

pushed-IsSelection :
    (selected : List EligibleLine) (line : EligibleLine)
    → IsSelection selected
    → length selected < 4
    → is_selected selected line ≡ false
    → IsSelection (selected ++ line ∷ [])
pushed-IsSelection selected line (few, d) room new =
    (omega (arith, length-append selected (line ∷ [])), pushed-IsDistinct selected line d new)

fill_ranked_from-IsSelection :
    (selected lines : List EligibleLine)
    → IsSelection selected
    → length selected < 4
    → IsSelection (fill_ranked_from selected lines)
unfolding fill_ranked_from
fill_ranked_from-IsSelection selected [] s room = s
fill_ranked_from-IsSelection selected (line ∷ lines) s room =
    elim (Bool-cases (is_selected selected line)) [
      | inl old ↦ rw old (fill_ranked_from-IsSelection selected lines s room)
      | inr new ↦
          let pushed = pushed-IsSelection selected line s room new in
          elim (Bool-cases (leb max_anchors (length (selected ++ line ∷ [])))) [
            | inl full ↦ rw (new, full) pushed
            | inr open_ ↦
                rw (new, open_)
                  (fill_ranked_from-IsSelection (selected ++ line ∷ []) lines pushed
                    (not-leb→lt 4 (length (selected ++ line ∷ [])) open_))
          ]
    ]

pub fill_ranked-IsSelection :
    (selected lines : List EligibleLine)
    → IsSelection selected
    → IsSelection (fill_ranked selected lines)
unfolding fill_ranked
fill_ranked-IsSelection selected lines s = elim (Bool-cases (leb max_anchors (length selected))) [
  | inl full ↦ rw full s
  | inr open_ ↦
      rw open_
        (fill_ranked_from-IsSelection selected lines s (not-leb→lt 4 (length selected) open_))
]

fill_categories_from-IsSelection :
    (categories : List DiscriminatorKind) (selected lines : List EligibleLine)
    → IsSelection selected
    → length selected < 4
    → IsSelection (fill_categories_from categories selected lines)
unfolding fill_categories_from
fill_categories_from-IsSelection categories selected [] s room = s
fill_categories_from-IsSelection categories selected (line ∷ lines) s room =
    elim (Bool-cases (has_kind categories line.kind)) [
      | inl known ↦ rw known (fill_categories_from-IsSelection categories selected lines s room)
      | inr fresh ↦ elim (Bool-cases (is_selected selected line)) [
        | inl old ↦
            rw (fresh, old)
              (fill_categories_from-IsSelection (line.kind ∷ categories) selected lines s room)
        | inr new ↦
            let pushed = pushed-IsSelection selected line s room new in
            elim (Bool-cases (leb max_anchors (length (selected ++ line ∷ [])))) [
              | inl full ↦ rw (fresh, new, full) pushed
              | inr open_ ↦
                  rw (fresh, new, open_)
                    (fill_categories_from-IsSelection (line.kind ∷ categories)
                      (selected ++ line ∷ []) lines pushed
                      (not-leb→lt 4 (length (selected ++ line ∷ [])) open_))
            ]
      ]
    ]

pub fill_categories-IsSelection :
    (selected lines : List EligibleLine)
    → IsSelection selected
    → IsSelection (fill_categories selected lines)
unfolding fill_categories
fill_categories-IsSelection selected lines s =
    elim (Bool-cases (leb max_anchors (length selected))) [
      | inl full ↦ rw full s
      | inr open_ ↦ rw open_ (
          fill_categories_from-IsSelection (map (λ (line : EligibleLine). line.kind) selected)
            selected lines s (not-leb→lt 4 (length selected) open_))
    ]

pub select_lines-IsSelection :
    (lines : List EligibleLine) (generic : Bool) → IsSelection (select_lines lines generic)
unfolding select_lines
select_lines-IsSelection lines generic =
    fill_ranked-IsSelection _ _ (fill_categories-IsSelection [] _ (omega arith, tt))

-- Lines of different streams are different anchors.
pub apart_streams :
    (out err : EligibleLine)
    → out.channel ≡ stdout
    → err.channel ≡ stderr
    → IsSelection (out ∷ err ∷ [])
apart_streams out err h k = (omega arith, ((rw (h, k) refl, tt), (tt, tt)))

abbrev pub FromStream : DiagnosticChannel → List EligibleLine → Type 0
FromStream stream = All (λ (line : EligibleLine). line.channel ≡ stream)

pub firsts-IsSelection :
    (out err : List EligibleLine)
    → FromStream stdout out
    → FromStream stderr err
    → IsSelection (first_line out ++ first_line err)
firsts-IsSelection [] [] h k = (omega arith, tt)
firsts-IsSelection [] (b ∷ err) h k = (omega arith, (tt, tt))
firsts-IsSelection (a ∷ out) [] h k = (omega arith, (tt, tt))
firsts-IsSelection (a ∷ out) (b ∷ err) (h, _) (k, _) = apart_streams a b h k
