-- ===== src/Prelude/Sorting.antt =====
-- The stable sort and the removal of consecutive duplicates, for a lawful order.
use Prim.Native.Nat.{Ordering}
use mathlib.Core.Path.{◌≡◌, sym, ◌∙◌}
use mathlib.Core.Logic.{◌≢◌, inl, inr}
use mathlib.Core.List.{List, [], ◌∷◌}
use reprocut.Prelude.Lists.{All}
use reprocut.Prelude.Orders.{IsOrder, Ordering-cases}

abbrev pub by_ordering {ℓ} : {A : Type ℓ} → Ordering → A → A → A → A
by_ordering Ordering.lt x y z = x
by_ordering Ordering.eq x y z = y
by_ordering Ordering.gt x y z = z

module _ {ℓ} {A : Type ℓ} (cmp : A → A → Ordering) where
  unfoldable pub insert_by : A → List A → List A
  insert_by a [] = a ∷ []
  insert_by a (b ∷ rest) =
      let later = b ∷ insert_by a rest in by_ordering (cmp a b) (a ∷ b ∷ rest) (a ∷ b ∷ rest) later

  -- `slice::sort_by`: stable, so an element stays before the later ones that equal it.
  unfoldable pub sort_by : List A → List A
  sort_by [] = []
  sort_by (a ∷ rest) = insert_by a (sort_by rest)

  -- `Vec::dedup`, with equality as the order has it: of neighbours that are equal the first stays.
  unfoldable pub dedup_after : A → List A → List A
  dedup_after a [] = a ∷ []
  dedup_after a (b ∷ rest) =
      let skipped = dedup_after a rest in
      let kept = a ∷ dedup_after b rest in by_ordering (cmp a b) kept skipped kept

  abbrev pub dedup : List A → List A
  dedup [] = []
  dedup (a ∷ rest) = dedup_after a rest

  -- Every element is below all the later ones.
  abbrev pub IsAscending : List A → Type ℓ
  IsAscending [] = Unit
  IsAscending (a ∷ rest) = All (λ b. cmp a b ≡ Ordering.lt) rest × IsAscending rest

  -- The same, with equal neighbours allowed.
  abbrev pub IsSorted : List A → Type ℓ
  IsSorted [] = Unit
  IsSorted (a ∷ rest) = All (λ b. cmp a b ≢ Ordering.gt) rest × IsSorted rest

module _ {ℓ κ} {A : Type ℓ} (P : A → Type κ) (cmp : A → A → Ordering) where
  pub All-insert_by : (a : A) (xs : List A) → P a → All P xs → All P (insert_by cmp a xs)
  unfolding insert_by
  All-insert_by a [] h hs = (h, tt)
  All-insert_by a (b ∷ rest) h (k, ks) = elim (Ordering-cases (cmp a b)) [
    | inl less ↦ rw less (h, (k, ks))
    | inr (inl e) ↦ rw e (h, (k, ks))
    | inr (inr more) ↦ rw more (k, All-insert_by a rest h ks)
  ]

  pub All-sort_by : (xs : List A) → All P xs → All P (sort_by cmp xs)
  unfolding sort_by
  All-sort_by [] h = tt
  All-sort_by (a ∷ rest) (h, hs) = All-insert_by a (sort_by cmp rest) h (All-sort_by rest hs)

module _ {ℓ} {A : Type ℓ} {cmp : A → A → Ordering} (order : IsOrder cmp) where
  le-lt : (a b c : A) → cmp a b ≢ Ordering.gt → cmp b c ≢ Ordering.gt → cmp a c ≢ Ordering.gt
  le-lt a b c h k = elim (Ordering-cases (cmp a b)) [
    | inr (inr more) ↦ absurd (h more)
    | inr (inl e) ↦ rw (order.same a b e) k
    | inl less ↦ elim (Ordering-cases (cmp b c)) [
      | inr (inr more) ↦ absurd (k more)
      | inr (inl e) ↦ rw (← order.same b c e) h
      | inl less' ↦ λ q. not_gt (sym (order.trans a b c less less') ∙ q)
    ]
  ]
    where
      not_gt : Ordering.lt ≢ Ordering.gt
      not_gt e = cc

  All-le :
      (a b : A) (xs : List A)
      → cmp a b ≢ Ordering.gt
      → All (λ c. cmp b c ≢ Ordering.gt) xs
      → All (λ c. cmp a c ≢ Ordering.gt) xs
  All-le a b [] h k = tt
  All-le a b (c ∷ xs) h (k, ks) = (le-lt a b c h k, All-le a b xs h ks)

  not_gt_of : (a b : A) (o : Ordering) → o ≢ Ordering.gt → cmp a b ≡ o → cmp a b ≢ Ordering.gt
  not_gt_of a b o h e q = h (sym e ∙ q)

  insert_by-IsSorted : (a : A) (xs : List A) → IsSorted cmp xs → IsSorted cmp (insert_by cmp a xs)
  unfolding insert_by
  insert_by-IsSorted a [] s = (tt, tt)
  insert_by-IsSorted a (b ∷ rest) (h, s) = elim (Ordering-cases (cmp a b)) [
    | inl less ↦
        let le = not_gt_of a b Ordering.lt (λ e. cc) less in
        rw less ((le, All-le a b rest le h), (h, s))
    | inr (inl e) ↦
        let le = not_gt_of a b Ordering.eq (λ e. cc) e in rw e ((le, All-le a b rest le h), (h, s))
    | inr (inr more) ↦
        let le = not_gt_of b a Ordering.lt (λ e. cc) (order.below a b more) in
        rw more
          (All-insert_by (λ c. cmp b c ≢ Ordering.gt) cmp a rest le h, insert_by-IsSorted a rest s)
  ]

  pub sort_by-IsSorted : (xs : List A) → IsSorted cmp (sort_by cmp xs)
  unfolding sort_by
  sort_by-IsSorted [] = tt
  sort_by-IsSorted (a ∷ rest) = insert_by-IsSorted a (sort_by cmp rest) (sort_by-IsSorted rest)

  lt-le : (a b c : A) → cmp a b ≡ Ordering.lt → cmp b c ≢ Ordering.gt → cmp a c ≡ Ordering.lt
  lt-le a b c less k = elim (Ordering-cases (cmp b c)) [
    | inl less' ↦ order.trans a b c less less'
    | inr (inl e) ↦ rw (← order.same b c e) less
    | inr (inr more) ↦ absurd (k more)
  ]

  All-lt :
      (a b : A) (xs : List A)
      → cmp a b ≡ Ordering.lt
      → All (λ c. cmp b c ≢ Ordering.gt) xs
      → All (λ c. cmp a c ≡ Ordering.lt) xs
  All-lt a b [] less k = tt
  All-lt a b (c ∷ xs) less (k, ks) = (lt-le a b c less k, All-lt a b xs less ks)

  All-dedup_after :
      (P : A → Type 0) (a : A) (xs : List A) → P a → All P xs → All P (dedup_after cmp a xs)
  unfolding dedup_after
  All-dedup_after P a [] h k = (h, tt)
  All-dedup_after P a (b ∷ rest) h (k, ks) = elim (Ordering-cases (cmp a b)) [
    | inl less ↦ rw less (h, All-dedup_after P b rest k ks)
    | inr (inl e) ↦ rw e (All-dedup_after P a rest h ks)
    | inr (inr more) ↦ rw more (h, All-dedup_after P b rest k ks)
  ]

  pub dedup_after-IsAscending :
      (a : A) (xs : List A) → IsSorted cmp (a ∷ xs) → IsAscending cmp (dedup_after cmp a xs)
  unfolding dedup_after
  dedup_after-IsAscending a [] s = (tt, tt)
  dedup_after-IsAscending a (b ∷ rest) ((h, hs), (k, s)) = elim (Ordering-cases (cmp a b)) [
    | inl less ↦ rw less (
      All-dedup_after (λ c. cmp a c ≡ Ordering.lt) b rest less (All-lt a b rest less k),
      dedup_after-IsAscending b rest (k, s),
    )
    | inr (inl e) ↦ rw e (dedup_after-IsAscending a rest (hs, s))
    | inr (inr more) ↦ absurd (h more)
  ]

  pub dedup-IsAscending : (xs : List A) → IsSorted cmp xs → IsAscending cmp (dedup cmp xs)
  dedup-IsAscending [] s = tt
  dedup-IsAscending (a ∷ rest) s = dedup_after-IsAscending a rest s
