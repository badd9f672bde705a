-- ===== src/Prelude/Orders.antt =====
-- Total orders given by a comparison: the derived ones on tuples, lists and options, and sorting.
use Prim.Native.Nat.{compare, Ordering}
use mathlib.Core.Path.{◌≡◌, refl}
use mathlib.Core.Logic.{◌⊎◌, inl, inr}
use mathlib.Core.Option.{Option, none, some}
use mathlib.Core.List.{List, [], ◌∷◌}
use native.Mathlib.Omega.{arith}

-- `Ordering::then_with`
abbrev pub then_with : Ordering → Ordering → Ordering
then_with Ordering.lt o = Ordering.lt
then_with Ordering.eq o = o
then_with Ordering.gt o = Ordering.gt

abbrev pub compare_list {ℓ} : {A : Type ℓ} → (A → A → Ordering) → List A → List A → Ordering
compare_list cmp [] [] = Ordering.eq
compare_list cmp [] (b ∷ ys) = Ordering.lt
compare_list cmp (a ∷ xs) [] = Ordering.gt
compare_list cmp (a ∷ xs) (b ∷ ys) = then_with (cmp a b) (compare_list cmp xs ys)

abbrev pub compare_option {ℓ} : {A : Type ℓ} → (A → A → Ordering) → Option A → Option A → Ordering
compare_option cmp none none = Ordering.eq
compare_option cmp none (some b) = Ordering.lt
compare_option cmp (some a) none = Ordering.gt
compare_option cmp (some a) (some b) = cmp a b

-- The laws of a total order whose equality is equality.
pub record IsOrder {ℓ} {A : Type ℓ} (cmp : A → A → Ordering) : Type ℓ where
  pub same : (a b : A) → cmp a b ≡ Ordering.eq → a ≡ b
  pub self : (a : A) → cmp a a ≡ Ordering.eq
  pub above : (a b : A) → cmp a b ≡ Ordering.lt → cmp b a ≡ Ordering.gt
  pub below : (a b : A) → cmp a b ≡ Ordering.gt → cmp b a ≡ Ordering.lt
  pub trans : (a b c : A) → cmp a b ≡ Ordering.lt → cmp b c ≡ Ordering.lt → cmp a c ≡ Ordering.lt

pub Ordering-cases : (o : Ordering) → (o ≡ Ordering.lt) ⊎ ((o ≡ Ordering.eq) ⊎ (o ≡ Ordering.gt))
Ordering-cases Ordering.lt = inl refl
Ordering-cases Ordering.eq = inr (inl refl)
Ordering-cases Ordering.gt = inr (inr refl)

pub then_with-lt :
    (o p : Ordering)
    → then_with o p ≡ Ordering.lt
    → (o ≡ Ordering.lt) ⊎ ((o ≡ Ordering.eq) × (p ≡ Ordering.lt))
then_with-lt Ordering.lt p h = inl refl
then_with-lt Ordering.eq p h = inr (refl, h)
then_with-lt Ordering.gt p h = absurd (cc)

then_with-gt :
    (o p : Ordering)
    → then_with o p ≡ Ordering.gt
    → (o ≡ Ordering.gt) ⊎ ((o ≡ Ordering.eq) × (p ≡ Ordering.gt))
then_with-gt Ordering.lt p h = absurd (cc)
then_with-gt Ordering.eq p h = inr (refl, h)
then_with-gt Ordering.gt p h = inl refl

then_with-eq :
    (o p : Ordering) → then_with o p ≡ Ordering.eq → (o ≡ Ordering.eq) × (p ≡ Ordering.eq)
then_with-eq Ordering.lt p h = absurd (cc)
then_with-eq Ordering.eq p h = (refl, h)
then_with-eq Ordering.gt p h = absurd (cc)

pub compare-IsOrder : IsOrder compare
compare-IsOrder = record {
  same = λ a b h. ground arith;
  self = λ a. ground arith;
  above = λ a b h. ground arith;
  below = λ a b h. ground arith;
  trans = λ a b c h k. ground arith;
}

-- Elements ordered by a key that tells them apart.
pub on-IsOrder {ℓ κ} :
    {A : Type ℓ} {B : Type κ} {cmp : B → B → Ordering} (key : A → B)
    → ((a b : A) → key a ≡ key b → a ≡ b)
    → IsOrder cmp
    → IsOrder (λ a b. cmp (key a) (key b))
on-IsOrder key apart order = record {
  same = λ a b h. apart a b (order.same (key a) (key b) h);
  self = λ a. order.self (key a);
  above = λ a b h. order.above (key a) (key b) h;
  below = λ a b h. order.below (key a) (key b) h;
  trans = λ a b c h k. order.trans (key a) (key b) (key c) h k;
}

-- The step of a lexicographic order: `a` and `b` are compared by one order and then by another.
module _ {ℓ κ} {A : Type ℓ} {B : Type κ} {first : A → A → Ordering} {second : B → B → Ordering}
    (fst : IsOrder first) (snd : IsOrder second) where
  abbrev pub compare_pair : A × B → A × B → Ordering
  compare_pair (a, x) (b, y) = then_with (first a b) (second x y)

  pair-above : (p q : A × B) → compare_pair p q ≡ Ordering.lt → compare_pair q p ≡ Ordering.gt
  pair-above (a, x) (b, y) h = elim (then_with-lt (first a b) (second x y) h) [
    | inl less ↦ rw (fst.above a b less) refl
    | inr (e, less) ↦
        let eq' : first b a ≡ Ordering.eq = rw (fst.same a b e) (fst.self b) in
        rw (eq', snd.above x y less) refl
  ]

  pair-below : (p q : A × B) → compare_pair p q ≡ Ordering.gt → compare_pair q p ≡ Ordering.lt
  pair-below (a, x) (b, y) h = elim (then_with-gt (first a b) (second x y) h) [
    | inl more ↦ rw (fst.below a b more) refl
    | inr (e, more) ↦
        let eq' : first b a ≡ Ordering.eq = rw (fst.same a b e) (fst.self b) in
        rw (eq', snd.below x y more) refl
  ]

  pair_trans :
      (p q r : A × B)
      → compare_pair p q ≡ Ordering.lt
      → compare_pair q r ≡ Ordering.lt
      → compare_pair p r ≡ Ordering.lt
  pair_trans (a, x) (b, y) (c, z) h k = elim (then_with-lt (first a b) (second x y) h) [
    | inl less ↦ elim (then_with-lt (first b c) (second y z) k) [
      | inl less' ↦ rw (fst.trans a b c less less') refl
      | inr (e, less') ↦ rw (← fst.same b c e, less) refl
    ]
    | inr (e, less) ↦ elim (then_with-lt (first b c) (second y z) k) [
      | inl less' ↦ rw (fst.same a b e, less') refl
      | inr (e', less') ↦ rw (fst.same a b e, e', snd.trans x y z less less') refl
    ]
  ]

  pub pair-IsOrder : IsOrder compare_pair
  pair-IsOrder = record {
    same = λ (a, x) (b, y) h.
        let (e, e') = then_with-eq (first a b) (second x y) h in
        rw (fst.same a b e, snd.same x y e') refl;
    self = λ (a, x). rw (fst.self a, snd.self x) refl;
    above = pair-above;
    below = pair-below;
    trans = pair_trans;
  }

module _ {ℓ} {A : Type ℓ} {cmp : A → A → Ordering} (order : IsOrder cmp) where
  list-same : (xs ys : List A) → compare_list cmp xs ys ≡ Ordering.eq → xs ≡ ys
  list-same [] [] h = refl
  list-same [] (b ∷ ys) h = absurd (cc)
  list-same (a ∷ xs) [] h = absurd (cc)
  list-same (a ∷ xs) (b ∷ ys) h =
      let (e, e') = then_with-eq (cmp a b) (compare_list cmp xs ys) h in
      rw (order.same a b e, list-same xs ys e') refl

  list_self : (xs : List A) → compare_list cmp xs xs ≡ Ordering.eq
  list_self [] = refl
  list_self (a ∷ xs) = rw (order.self a) (list_self xs)

  list-above :
      (xs ys : List A) → compare_list cmp xs ys ≡ Ordering.lt → compare_list cmp ys xs ≡ Ordering.gt
  list-above [] [] h = absurd (cc)
  list-above [] (b ∷ ys) h = refl
  list-above (a ∷ xs) [] h = absurd (cc)
  list-above (a ∷ xs) (b ∷ ys) h = elim (then_with-lt (cmp a b) (compare_list cmp xs ys) h) [
    | inl less ↦ rw (order.above a b less) refl
    | inr (e, less) ↦
        let eq' : cmp b a ≡ Ordering.eq = rw (order.same a b e) (order.self b) in
        rw (eq') (list-above xs ys less)
  ]

  list-below :
      (xs ys : List A) → compare_list cmp xs ys ≡ Ordering.gt → compare_list cmp ys xs ≡ Ordering.lt
  list-below [] [] h = absurd (cc)
  list-below [] (b ∷ ys) h = absurd (cc)
  list-below (a ∷ xs) [] h = refl
  list-below (a ∷ xs) (b ∷ ys) h = elim (then_with-gt (cmp a b) (compare_list cmp xs ys) h) [
    | inl more ↦ rw (order.below a b more) refl
    | inr (e, more) ↦
        let eq' : cmp b a ≡ Ordering.eq = rw (order.same a b e) (order.self b) in
        rw (eq') (list-below xs ys more)
  ]

  list_trans :
      (xs ys zs : List A)
      → compare_list cmp xs ys ≡ Ordering.lt
      → compare_list cmp ys zs ≡ Ordering.lt
      → compare_list cmp xs zs ≡ Ordering.lt
  list_trans [] [] zs h k = absurd (cc)
  list_trans [] (b ∷ ys) [] h k = absurd (cc)
  list_trans [] (b ∷ ys) (c ∷ zs) h k = refl
  list_trans (a ∷ xs) [] zs h k = absurd (cc)
  list_trans (a ∷ xs) (b ∷ ys) [] h k = absurd (cc)
  list_trans (a ∷ xs) (b ∷ ys) (c ∷ zs) h k =
      elim (then_with-lt (cmp a b) (compare_list cmp xs ys) h) [
        | inl less ↦ elim (then_with-lt (cmp b c) (compare_list cmp ys zs) k) [
          | inl less' ↦ rw (order.trans a b c less less') refl
          | inr (e, less') ↦ rw (← order.same b c e, less) refl
        ]
        | inr (e, less) ↦ elim (then_with-lt (cmp b c) (compare_list cmp ys zs) k) [
          | inl less' ↦ rw (order.same a b e, less') refl
          | inr (e', less') ↦ rw (order.same a b e, e') (list_trans xs ys zs less less')
        ]
      ]

  pub list-IsOrder : IsOrder (compare_list cmp)
  list-IsOrder = record {
    same = list-same;
    self = list_self;
    above = list-above;
    below = list-below;
    trans = list_trans;
  }

  option-same : (a b : Option A) → compare_option cmp a b ≡ Ordering.eq → a ≡ b
  option-same none none h = refl
  option-same none (some b) h = absurd (cc)
  option-same (some a) none h = absurd (cc)
  option-same (some a) (some b) h = rw (order.same a b h) refl

  option_self : (a : Option A) → compare_option cmp a a ≡ Ordering.eq
  option_self none = refl
  option_self (some a) = order.self a

  option-above :
      (a b : Option A) → compare_option cmp a b ≡ Ordering.lt → compare_option cmp b a ≡ Ordering.gt
  option-above none none h = absurd (cc)
  option-above none (some b) h = refl
  option-above (some a) none h = absurd (cc)
  option-above (some a) (some b) h = order.above a b h

  option-below :
      (a b : Option A) → compare_option cmp a b ≡ Ordering.gt → compare_option cmp b a ≡ Ordering.lt
  option-below none none h = absurd (cc)
  option-below none (some b) h = absurd (cc)
  option-below (some a) none h = refl
  option-below (some a) (some b) h = order.below a b h

  option_trans :
      (a b c : Option A)
      → compare_option cmp a b ≡ Ordering.lt
      → compare_option cmp b c ≡ Ordering.lt
      → compare_option cmp a c ≡ Ordering.lt
  option_trans none none c h k = absurd (cc)
  option_trans none (some b) none h k = absurd (cc)
  option_trans none (some b) (some c) h k = refl
  option_trans (some a) none c h k = absurd (cc)
  option_trans (some a) (some b) none h k = absurd (cc)
  option_trans (some a) (some b) (some c) h k = order.trans a b c h k

  pub option-IsOrder : IsOrder (compare_option cmp)
  option-IsOrder = record {
    same = option-same;
    self = option_self;
    above = option-above;
    below = option-below;
    trans = option_trans;
  }
