-- ===== src/Prelude/Members.antt =====
-- The elements of a list, which sorting and the removal of duplicates keep.
use Prim.Native.Nat.{suc, ◌≤◌, Ordering}
use native.Mathlib.Omega.{arith}
use mathlib.Core.Path.{◌≡◌, refl, sym, ◌∙◌, subst, ap}
use mathlib.Core.Logic.{◌⊎◌, inl, inr, ◌↔◌}
use mathlib.Core.List.{List, [], ◌∷◌}
use reprocut.Prelude.Lists.{All, length}
use reprocut.Prelude.Orders.{IsOrder, Ordering-cases}
use reprocut.Prelude.Sorting.{
  insert_by, sort_by, dedup_after, dedup, IsAscending, dedup-IsAscending,
}
use reprocut.Prelude.Sorting.{sort_by-IsSorted}

module _ {A : Type 0} where
  -- `a` is an element.
  abbrev pub Has : A → List A → Type 0
  Has a [] = ⊥
  Has a (x ∷ xs) = (a ≡ x) ⊎ Has a xs

  pub All-Has : (P : A → Type 0) (xs : List A) → All P xs → (a : A) → Has a xs → P a
  All-Has P [] hs a h = absurd h
  All-Has P (x ∷ xs) (h, hs) a (inl e) = subst P (sym e) h
  All-Has P (x ∷ xs) (h, hs) a (inr k) = All-Has P xs hs a k

  pub Has-All : (P : A → Type 0) (xs : List A) → ((a : A) → Has a xs → P a) → All P xs
  Has-All P [] f = tt
  Has-All P (x ∷ xs) f = (f x (inl refl), Has-All P xs (λ a h. f a (inr h)))

module _ {A : Type 0} (cmp : A → A → Ordering) where
  -- What is at the head of an insertion is the new element and the old ones.
  insert_by-Has : (a : A) (xs : List A) (x : A) → Has x (insert_by cmp a xs) ↔ ((x ≡ a) ⊎ Has x xs)
  unfolding insert_by
  insert_by-Has a [] x = (λ h. h, λ h. h)
  insert_by-Has a (b ∷ rest) x = elim (Ordering-cases (cmp a b)) [
    | inl less ↦ rw less ((λ h. h), (λ h. h))
    | inr (inl e) ↦ rw e ((λ h. h), (λ h. h))
    | inr (inr more) ↦
        let later = insert_by-Has a rest x in
        rw more (
          λ h. elim h [
            | inl same ↦ inr (inl same)
            | inr k ↦ elim (later.0 k) [ inl same ↦ inl same | inr old ↦ inr (inr old) ]
          ],
          λ h. elim h [
            | inl same ↦ inr (later.1 (inl same))
            | inr k ↦ elim k [ inl same ↦ inl same | inr old ↦ inr (later.1 (inr old)) ]
          ],
        )
  ]

  pub sort_by-Has : (xs : List A) (x : A) → Has x (sort_by cmp xs) ↔ Has x xs
  unfolding sort_by
  sort_by-Has [] x = (λ h. h, λ h. h)
  sort_by-Has (a ∷ rest) x =
      let here = insert_by-Has a (sort_by cmp rest) x in
      let later = sort_by-Has rest x in
      (
        λ h. elim (here.0 h) [ inl same ↦ inl same | inr old ↦ inr (later.0 old) ],
        λ h. here.1 (elim h [ inl same ↦ inl same | inr old ↦ inr (later.1 old) ]),
      )

  insert_by-length : (a : A) (xs : List A) → length (insert_by cmp a xs) ≡ suc (length xs)
  unfolding insert_by
  insert_by-length a [] = refl
  insert_by-length a (b ∷ rest) = elim (Ordering-cases (cmp a b)) [
    | inl less ↦ rw less refl
    | inr (inl e) ↦ rw e refl
    | inr (inr more) ↦ rw more (ap suc (insert_by-length a rest))
  ]

  pub sort_by-length : (xs : List A) → length (sort_by cmp xs) ≡ length xs
  unfolding sort_by
  sort_by-length [] = refl
  sort_by-length (a ∷ rest) = insert_by-length a (sort_by cmp rest) ∙ ap suc (sort_by-length rest)

module _ {A : Type 0} {cmp : A → A → Ordering} (order : IsOrder cmp) where
  dedup_after-Has :
      (a : A) (xs : List A) (x : A) → Has x (dedup_after cmp a xs) ↔ ((x ≡ a) ⊎ Has x xs)
  unfolding dedup_after
  dedup_after-Has a [] x = (λ h. h, λ h. h)
  dedup_after-Has a (b ∷ rest) x = elim (Ordering-cases (cmp a b)) [
    | inl less ↦ rw less (kept (dedup_after-Has b rest x))
    | inr (inr more) ↦ rw more (kept (dedup_after-Has b rest x))
    | inr (inl e) ↦ rw e (skipped (order.same a b e) (dedup_after-Has a rest x))
  ]
    where
      kept :
          Has x (dedup_after cmp b rest) ↔ ((x ≡ b) ⊎ Has x rest)
          → ((x ≡ a) ⊎ Has x (dedup_after cmp b rest)) ↔ ((x ≡ a) ⊎ ((x ≡ b) ⊎ Has x rest))
      kept (f, g) = (
        λ h. elim h [ inl e ↦ inl e | inr k ↦ inr (f k) ],
        λ h. elim h [ inl e ↦ inl e | inr k ↦ inr (g k) ],
      )

      skipped :
          a ≡ b
          → Has x (dedup_after cmp a rest) ↔ ((x ≡ a) ⊎ Has x rest)
          → Has x (dedup_after cmp a rest) ↔ ((x ≡ a) ⊎ ((x ≡ b) ⊎ Has x rest))
      skipped ab (f, g) = (
        λ h. elim (f h) [ inl e ↦ inl e | inr k ↦ inr (inr k) ],
        λ h. g (elim h [
          | inl e ↦ inl e
          | inr k ↦ elim k [ inl e ↦ inl (e ∙ sym ab) | inr old ↦ inr old ]
        ]),
      )

  dedup-Has : (xs : List A) (x : A) → Has x (dedup cmp xs) ↔ Has x xs
  dedup-Has [] x = (λ h. h, λ h. h)
  dedup-Has (a ∷ rest) x = dedup_after-Has a rest x

  pub canonical-Has : (xs : List A) (x : A) → Has x (dedup cmp (sort_by cmp xs)) ↔ Has x xs
  canonical-Has xs x =
      let outer = dedup-Has (sort_by cmp xs) x in
      let inner = sort_by-Has cmp xs x in (λ h. inner.0 (outer.0 h), λ h. outer.1 (inner.1 h))

  dedup_after-length : (a : A) (xs : List A) → length (dedup_after cmp a xs) ≤ suc (length xs)
  unfolding dedup_after
  dedup_after-length a [] = omega arith
  dedup_after-length a (b ∷ rest) =
      let here = dedup_after-length a rest in
      let there = dedup_after-length b rest in
      elim (Ordering-cases (cmp a b)) [
        | inl less ↦ rw less (omega arith)
        | inr (inl e) ↦ rw e (omega arith)
        | inr (inr more) ↦ rw more (omega arith)
      ]

  dedup-length : (xs : List A) → length (dedup cmp xs) ≤ length xs
  dedup-length [] = omega arith
  dedup-length (a ∷ rest) = dedup_after-length a rest

  pub canonical-length : (xs : List A) → length (dedup cmp (sort_by cmp xs)) ≤ length xs
  canonical-length xs =
      let outer = dedup-length (sort_by cmp xs) in let inner = sort_by-length cmp xs in omega arith

  -- Strictly ascending lists with the same elements are equal.
  below_self : (a : A) → cmp a a ≡ Ordering.lt → ⊥
  below_self a less = apart (sym (order.self a) ∙ less)
    where
      apart : Ordering.eq ≡ Ordering.lt → ⊥
      apart e = cc

  head_same :
      (x y : A) (xs ys : List A)
      → IsAscending cmp (x ∷ xs)
      → IsAscending cmp (y ∷ ys)
      → Has x (y ∷ ys)
      → Has y (x ∷ xs)
      → x ≡ y
  head_same x y xs ys p q (inl e) k = e
  head_same x y xs ys p q (inr h) (inl e) = sym e
  head_same x y xs ys (above, _) (above', _) (inr h) (inr k) = absurd (
      below_self x (
        order.trans x y x (All-Has (λ c. cmp x c ≡ Ordering.lt) xs above y k)
          (All-Has (λ c. cmp y c ≡ Ordering.lt) ys above' x h)))

  tail-Has :
      (x y : A) (xs ys : List A)
      → x ≡ y
      → IsAscending cmp (x ∷ xs)
      → ((a : A) → Has a (x ∷ xs) → Has a (y ∷ ys))
      → (a : A) → Has a xs
      → Has a ys
  tail-Has x y xs ys e (above, _) into a h = elim (into a (inr h)) [
    | inr there ↦ there
    | inl same ↦ absurd (
        below_self a (
          subst (λ z. cmp z a ≡ Ordering.lt) (e ∙ sym same)
            (All-Has (λ c. cmp x c ≡ Ordering.lt) xs above a h)))
  ]

  pub IsAscending-unique :
      (xs ys : List A)
      → IsAscending cmp xs
      → IsAscending cmp ys
      → ((a : A) → Has a xs ↔ Has a ys)
      → xs ≡ ys
  IsAscending-unique [] [] p q same = refl
  IsAscending-unique [] (y ∷ ys) p q same = absurd ((same y).1 (inl refl))
  IsAscending-unique (x ∷ xs) [] p q same = absurd ((same x).0 (inl refl))
  IsAscending-unique (x ∷ xs) (y ∷ ys) p q same =
      let e = head_same x y xs ys p q ((same x).0 (inl refl)) ((same y).1 (inl refl)) in
      let rest = IsAscending-unique xs ys p.1 q.1 (λ a. (
        tail-Has x y xs ys e p (λ b. (same b).0) a,
        tail-Has y x ys xs (sym e) q (λ b. (same b).1) a,
      )) in
      rw (e, rest) refl

  -- The canonical form depends on the elements alone.
  pub canonical_unique :
      (xs ys : List A)
      → ((a : A) → Has a xs ↔ Has a ys)
      → dedup cmp (sort_by cmp xs) ≡ dedup cmp (sort_by cmp ys)
  canonical_unique xs ys same =
      IsAscending-unique (dedup cmp (sort_by cmp xs)) (dedup cmp (sort_by cmp ys))
        (dedup-IsAscending order (sort_by cmp xs) (sort_by-IsSorted order xs))
        (dedup-IsAscending order (sort_by cmp ys) (sort_by-IsSorted order ys))
        (λ a. (
          λ h. (canonical-Has ys a).1 ((same a).0 ((canonical-Has xs a).0 h)),
          λ h. (canonical-Has xs a).1 ((same a).1 ((canonical-Has ys a).0 h)),
        ))
