-- ===== src/Diagnostic/Kept.antt =====
-- The selection invents no line: what holds of all the lines it is given holds of those it returns.
use reprocut.Prelude.{◌≡◌, refl, inl, inr, Bool, true, false, not, ◌||◌, leb, List, [], ◌∷◌, ◌++◌}
use reprocut.Prelude.{some, get_elem?, length, map, All, All-append, Bool-cases}
use reprocut.Prelude.Sorting.{All-sort_by, sort_by, insert_by}
use Prim.Native.Nat.{Ordering}
use reprocut.Prelude.Orders.{Ordering-cases}
use reprocut.Diagnostic.Lines.{EligibleLine, DiscriminatorKind}
use reprocut.Diagnostic.Select.{keep_specific, rank_lines, rank_order, fill_categories_from}
use reprocut.Diagnostic.Select.{
  fill_categories, fill_ranked_from, fill_ranked, select_lines, max_anchors,
}
use reprocut.Diagnostic.Select.{select_auto_lines, first_line, is_selected}
use reprocut.Diagnostic.Select.{has_kind, same_kind}

module _ (P : EligibleLine → Type 0) where
  keep_specific-All :
      (generic : Bool) (lines : List EligibleLine)
      → All P lines
      → All P (keep_specific generic lines)
  unfolding keep_specific
  keep_specific-All generic [] h = tt
  keep_specific-All generic (line ∷ rest) (h, hs) =
      elim (Bool-cases (generic || not (same_kind line.kind DiscriminatorKind.message))) [
        | inl keeps ↦ rw keeps (h, keep_specific-All generic rest hs)
        | inr drops ↦ rw drops (keep_specific-All generic rest hs)
      ]

  pub rank_lines-All :
      (lines : List EligibleLine) (generic : Bool) → All P lines → All P (rank_lines lines generic)
  unfolding rank_lines
  rank_lines-All lines generic h =
      All-sort_by P rank_order (keep_specific generic lines) (keep_specific-All generic lines h)

  pushed-All :
      (selected : List EligibleLine) (line : EligibleLine)
      → All P selected
      → P line
      → All P (selected ++ line ∷ [])
  pushed-All selected line s h = All-append P selected (line ∷ []) s (h, tt)

  fill_categories_from-All :
      (categories : List DiscriminatorKind) (selected lines : List EligibleLine)
      → All P selected
      → All P lines
      → All P (fill_categories_from categories selected lines)
  unfolding fill_categories_from
  fill_categories_from-All categories selected [] s h = s
  fill_categories_from-All categories selected (line ∷ lines) s (h, hs) =
      elim (Bool-cases (has_kind categories line.kind)) [
        | inl known ↦ rw known (fill_categories_from-All categories selected lines s hs)
        | inr fresh ↦ elim (Bool-cases (is_selected selected line)) [
          | inl old ↦
              rw (fresh, old)
                (fill_categories_from-All (line.kind ∷ categories) selected lines s hs)
          | inr new ↦ elim (Bool-cases (leb max_anchors (length (selected ++ line ∷ [])))) [
            | inl full ↦ rw (fresh, new, full) (pushed-All selected line s h)
            | inr room ↦
                rw (fresh, new, room)
                  (fill_categories_from-All (line.kind ∷ categories) (selected ++ line ∷ []) lines
                    (pushed-All selected line s h) hs)
          ]
        ]
      ]

  fill_categories-All :
      (selected lines : List EligibleLine)
      → All P selected
      → All P lines
      → All P (fill_categories selected lines)
  unfolding fill_categories
  fill_categories-All selected lines s h = elim (Bool-cases (leb max_anchors (length selected))) [
    | inl full ↦ rw full s
    | inr room ↦ rw room (
        fill_categories_from-All (map (λ (line : EligibleLine). line.kind) selected) selected lines
          s h)
  ]

  fill_ranked_from-All :
      (selected lines : List EligibleLine)
      → All P selected
      → All P lines
      → All P (fill_ranked_from selected lines)
  unfolding fill_ranked_from
  fill_ranked_from-All selected [] s h = s
  fill_ranked_from-All selected (line ∷ lines) s (h, hs) =
      elim (Bool-cases (is_selected selected line)) [
        | inl old ↦ rw old (fill_ranked_from-All selected lines s hs)
        | inr new ↦ elim (Bool-cases (leb max_anchors (length (selected ++ line ∷ [])))) [
          | inl full ↦ rw (new, full) (pushed-All selected line s h)
          | inr room ↦
              rw (new, room)
                (fill_ranked_from-All (selected ++ line ∷ []) lines (pushed-All selected line s h)
                  hs)
        ]
      ]

  pub fill_ranked-All :
      (selected lines : List EligibleLine)
      → All P selected
      → All P lines
      → All P (fill_ranked selected lines)
  unfolding fill_ranked
  fill_ranked-All selected lines s h = elim (Bool-cases (leb max_anchors (length selected))) [
    | inl full ↦ rw full s
    | inr room ↦ rw room (fill_ranked_from-All selected lines s h)
  ]

  pub select_lines-All :
      (lines : List EligibleLine) (generic : Bool)
      → All P lines
      → All P (select_lines lines generic)
  unfolding select_lines
  select_lines-All lines generic h =
      let ranked = rank_lines-All lines generic h in
      fill_ranked-All (fill_categories [] (rank_lines lines generic)) (rank_lines lines generic)
        (fill_categories-All [] (rank_lines lines generic) tt ranked) ranked

  first_line-All : (lines : List EligibleLine) → All P lines → All P (first_line lines)
  first_line-All [] h = tt
  first_line-All (line ∷ rest) (h, hs) = (h, tt)

  pub select_auto_lines-All :
      (stdout stderr : List EligibleLine)
      → All P stdout
      → All P stderr
      → All P (select_auto_lines stdout stderr)
  unfolding select_auto_lines
  select_auto_lines-All stdout stderr h k =
      let out = rank_lines stdout false in
      let err = rank_lines stderr false in
      let outs = rank_lines-All stdout false h in
      let errs = rank_lines-All stderr false k in
      let all = rank_lines-All (out ++ err) false (All-append P out err outs errs) in
      let start =
        All-append P (first_line out) (first_line err) (first_line-All out outs)
          (first_line-All err errs) in
      fill_ranked-All
        (fill_categories (first_line out ++ first_line err) (rank_lines (out ++ err) false))
        (rank_lines (out ++ err) false)
        (fill_categories-All (first_line out ++ first_line err) (rank_lines (out ++ err) false)
          start all)
        all

-- Lines that are given generic ones too are ranked without loss.
insert_by-cons :
    (cmp : EligibleLine → EligibleLine → Ordering) (a : EligibleLine) (xs : List EligibleLine)
    → (y : EligibleLine) × (get_elem? (insert_by cmp a xs) 0 ≡ some y)
unfolding insert_by
insert_by-cons cmp a [] = (a, refl)
insert_by-cons cmp a (b ∷ rest) = elim (Ordering-cases (cmp a b)) [
  | inl less ↦ (a, rw less refl)
  | inr (inl e) ↦ (a, rw e refl)
  | inr (inr more) ↦ (b, rw more refl)
]

keep_specific-all : (lines : List EligibleLine) → keep_specific true lines ≡ lines
unfolding keep_specific
keep_specific-all [] = refl
keep_specific-all (line ∷ rest) = rw (keep_specific-all rest) refl

pub rank_lines-first :
    (line : EligibleLine) (rest : List EligibleLine)
    → (y : EligibleLine) × (get_elem? (rank_lines (line ∷ rest) true) 0 ≡ some y)
unfolding rank_lines sort_by
rank_lines-first line rest =
    rw (keep_specific-all (line ∷ rest)) (insert_by-cons rank_order line (sort_by rank_order rest))
