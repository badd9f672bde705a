-- ===== src/Scheduler/Lowest.antt =====
-- The winner of a call of `FrontierScheduler::evaluate`: the preserved plan of the lowest rank.
use mathlib.Core.Path.{subst}
use mathlib.Core.Option.{some-injective}
use reprocut.Prelude.{
  ℕ, zero, suc, ◌+◌, ◌^◌, ◌≤◌, ◌<◌, ◌≡◌, ◌≢◌, refl, sym, ◌∙◌, ap, ◌⊎◌, inl, inr, arith,
}
use reprocut.Prelude.{
  Option, none, some, List, [], ◌∷◌, map, length, get_elem?, All, get_elem?-of_lt, get_elem?-bound,
  get_elem?-map, All-get_elem?,
}
use Prim.Native.Nat.{Ordering}
use reprocut.Prelude.Orders.{IsOrder, Ordering-cases}
use reprocut.Prelude.Sorting.{sort_by, insert_by, IsSorted, sort_by-IsSorted}
use reprocut.Prelude.Members.{Has, Has-All, sort_by-Has, sort_by-length}
use reprocut.Prelude.Faults.{ok}
use reprocut.Prelude.Attempts.{done, done-injective, fail_if-done}
use reprocut.Model.{CandidateVerdict, preserved}
use reprocut.Scheduler.Worker.{System}
use reprocut.Scheduler.Outcome.{final_winner, NoWinner, FirstWins, evaluate-FirstWins}
use reprocut.Scheduler.Plans.{
  CandidatePlan, FrontierOutcome, winner_plan, rank_order, has_duplicate,
}
use reprocut.Scheduler.Plans.{prepare, judge_of, Evaluates, no_plans, threads}

module _ {A B : Type 0} (f : A → B) (cmp : B → B → Ordering) where
  -- Sorting by a key sorts the keys.
  map-insert_by :
      (a : A) (xs : List A)
      → map f (insert_by (λ x y. cmp (f x) (f y)) a xs) ≡ insert_by cmp (f a) (map f xs)
  unfolding insert_by
  map-insert_by a [] = refl
  map-insert_by a (b ∷ rest) = elim (Ordering-cases (cmp (f a) (f b))) [
    | inl less ↦ rw less refl
    | inr (inl e) ↦ rw e refl
    | inr (inr more) ↦ rw more (ap (λ ys. f b ∷ ys) (map-insert_by a rest))
  ]

  map-sort_by : (xs : List A) → map f (sort_by (λ x y. cmp (f x) (f y)) xs) ≡ sort_by cmp (map f xs)
  unfolding sort_by
  map-sort_by [] = refl
  map-sort_by (a ∷ rest) =
      map-insert_by a (sort_by (λ x y. cmp (f x) (f y)) rest)
      ∙ ap (insert_by cmp (f a)) (map-sort_by rest)

get_elem?-Has : {A : Type 0} (xs : List A) (i : ℕ) {a : A} → get_elem? xs i ≡ some a → Has a xs
get_elem?-Has [] i h = absurd (cc)
get_elem?-Has (x ∷ xs) zero {a} h = inl (sym (some-injective x a h))
get_elem?-Has (x ∷ xs) (suc i) h = inr (get_elem?-Has xs i h)

Has-get_elem? : {A : Type 0} (a : A) (xs : List A) → Has a xs → (i : ℕ) × (get_elem? xs i ≡ some a)
Has-get_elem? a [] h = absurd h
Has-get_elem? a (x ∷ xs) (inl e) = (0, ap some (sym e))
Has-get_elem? a (x ∷ xs) (inr h) = let (i, e) = Has-get_elem? a xs h in (suc i, e)

module _ {R : Type 0} {cmp : R → R → Ordering} (order : IsOrder cmp) where
  not_above : (a b : R) → a ≡ b → cmp a b ≢ Ordering.gt
  not_above a b e q = apart (sym (order.self b) ∙ subst (λ c. cmp c b ≡ Ordering.gt) e q)
    where
      apart : Ordering.eq ≡ Ordering.gt → ⊥
      apart r = cc

  sorted_at :
      (ranks : List R) (k i : ℕ) {a b : R}
      → IsSorted cmp ranks
      → k ≤ i
      → get_elem? ranks k ≡ some a
      → get_elem? ranks i ≡ some b
      → cmp a b ≢ Ordering.gt
  sorted_at [] k i s le h h' = absurd (cc)
  sorted_at (r ∷ ranks) zero zero {a} {b} s le h h' =
      not_above a b (sym (some-injective r a h) ∙ some-injective r b h')
  sorted_at (r ∷ ranks) zero (suc i) {a} {b} (above, s) le h h' =
      subst (λ c. cmp c b ≢ Ordering.gt) (some-injective r a h)
        (All-get_elem? (λ c. cmp r c ≢ Ordering.gt) ranks i above h')
  sorted_at (r ∷ ranks) (suc k) zero s le h h' = absurd (omega arith)
  sorted_at (r ∷ ranks) (suc k) (suc i) (_, s) le h h' = sorted_at ranks k i s (omega arith) h h'

  module _ {T : Type 0} (evaluator : T → CandidateVerdict) where
    -- A plan that the lowest preserved plan precedes, or that is not preserved.
    abbrev pub IsBeaten : CandidatePlan R T → CandidatePlan R T → Type 0
    IsBeaten best plan =
        (cmp plan.rank best.rank ≢ Ordering.lt) ⊎ (evaluator plan.payload ≢ preserved)

    -- No plan is preserved, and there is no winner; or the winner is a preserved plan of the frontier
    -- and every other one is beaten.
    abbrev pub IsLowest : List (CandidatePlan R T) → FrontierOutcome R T → Type 0
    IsLowest plans outcome =
        ((winner_plan outcome ≡ ok none) × All (λ plan. evaluator plan.payload ≢ preserved) plans)
        ⊎ ((best : CandidatePlan R T) × (winner_plan outcome ≡ ok (some best))
            × Has best plans
            × (evaluator best.payload ≡ preserved)
            × All (IsBeaten best) plans)

    prepare-done :
        (plans sorted : List (CandidatePlan R T))
        → prepare cmp plans ≡ done sorted
        → sort_by (rank_order cmp) plans ≡ sorted
    unfolding prepare
    prepare-done plans sorted h =
        let (distinct, e) =
          fail_if-done (has_duplicate cmp (sort_by (rank_order cmp) plans)) _ _ h in
        done-injective e

    judge_of-at :
        (plans : List (CandidatePlan R T)) (i : ℕ) (plan : CandidatePlan R T)
        → get_elem? plans i ≡ some plan
        → judge_of evaluator plans i ≡ evaluator plan.payload
    judge_of-at plans i plan h = rw (judge_of, h) refl

    ranks-IsSorted :
        (plans : List (CandidatePlan R T))
        → IsSorted cmp
            (map (λ (plan : CandidatePlan R T). plan.rank) (sort_by (rank_order cmp) plans))
    ranks-IsSorted plans =
        subst (IsSorted cmp) (sym (map-sort_by (λ (plan : CandidatePlan R T). plan.rank) cmp plans))
          (sort_by-IsSorted order (map (λ (plan : CandidatePlan R T). plan.rank) plans))

    abbrev arranged : List (CandidatePlan R T) → List (CandidatePlan R T)
    arranged plans = sort_by (rank_order cmp) plans

    -- A plan of the frontier has a position in the sorted one.
    position_of :
        (plans : List (CandidatePlan R T)) (plan : CandidatePlan R T)
        → Has plan plans
        → (i : ℕ) × (get_elem? (arranged plans) i ≡ some plan) × (i < length (arranged plans))
    position_of plans plan h =
        let (i, e) =
          Has-get_elem? plan (arranged plans) ((sort_by-Has (rank_order cmp) plans plan).1 h) in
        (i, e, get_elem?-bound (arranged plans) i e)

    none_preserved :
        (plans : List (CandidatePlan R T))
        → ((i : ℕ)
            → i < length (arranged plans)
            → judge_of evaluator (arranged plans) i ≢ preserved)
        → All (λ plan. evaluator plan.payload ≢ preserved) plans
    none_preserved plans h =
        Has-All (λ plan. evaluator plan.payload ≢ preserved) plans
          (λ plan member e.
            let (i, at, lt) = position_of plans plan member in
            h i lt (judge_of-at (arranged plans) i plan at ∙ e))

    All-IsBeaten :
        (plans : List (CandidatePlan R T)) (k : ℕ) (best : CandidatePlan R T)
        → get_elem? (arranged plans) k ≡ some best
        → ((i : ℕ) → i < k → judge_of evaluator (arranged plans) i ≢ preserved)
        → All (IsBeaten best) plans
    All-IsBeaten plans k best at_best before = Has-All (IsBeaten best) plans (λ plan member.
        let (i, at, lt) = position_of plans plan member in
        elim (lt_or_le i k) [
          | inl less ↦ inr (λ e. before i less (judge_of-at (arranged plans) i plan at ∙ e))
          | inr le ↦ inl (λ lower.
              sorted_at (map (λ (plan : CandidatePlan R T). plan.rank) (arranged plans)) k i
                (ranks-IsSorted plans) le
                (get_elem?-map (λ (plan : CandidatePlan R T). plan.rank) (arranged plans) k at_best)
                (get_elem?-map (λ (plan : CandidatePlan R T). plan.rank) (arranged plans) i at)
                (order.above plan.rank best.rank lower))
        ])
      where
        lt_or_le : (i k : ℕ) → (i < k) ⊎ (k ≤ i)
        lt_or_le i k = omega arith

    lowest_of :
        (plans : List (CandidatePlan R T)) (s : System)
        → (NoWinner (length (arranged plans)) (judge_of evaluator (arranged plans)) s.mem
            ⊎ FirstWins (length (arranged plans)) (judge_of evaluator (arranged plans)) s.mem)
        → IsLowest plans (record {
          plans = arranged plans;
          verdicts = s.mem.verdicts;
          winner = final_winner s.mem.lowest s.mem.verdicts;
        })
    lowest_of plans s (inl (e, judged)) =
        inl (rw (winner_plan, e) refl, none_preserved plans (λ i lt. (judged i lt).0))
    lowest_of plans s (inr (k, (lt, hit, before), won, _)) =
        let (best, at) = get_elem?-of_lt (arranged plans) k lt in
        inr (
          best,
          rw (winner_plan, won, at) refl,
          (sort_by-Has (rank_order cmp) plans best).0 (get_elem?-Has (arranged plans) k at),
          sym (judge_of-at (arranged plans) k best at) ∙ hit,
          All-IsBeaten plans k best at before,
        )

    -- Whatever the order in which the plans are given, the number of jobs and the interleaving of the
    -- threads: the winner is a preserved plan of the lowest rank among the preserved ones, and there
    -- is none only when no plan is preserved. The indices of the frontier do not wrap.
    pub evaluate-IsLowest :
        (jobs : ℕ) (parallelism : Option ℕ) (plans : List (CandidatePlan R T))
        (outcome : FrontierOutcome R T)
        → length plans + length plans + 1 < 2 ^ 64
        → Evaluates evaluator cmp jobs parallelism plans outcome
        → IsLowest plans outcome
    evaluate-IsLowest jobs parallelism plans _ fits (no_plans h) =
        let e = prepare-done plans [] h in
        inl (
          refl,
          Has-All (λ plan. evaluator plan.payload ≢ preserved) plans
              (λ plan member. absurd (
                subst (λ sorted. Has plan sorted) e
                  ((sort_by-Has (rank_order cmp) plans plan).1 member))),
        )
    evaluate-IsLowest jobs parallelism plans _ fits (threads {sorted} {s} h some_plan reach over) =
        let e = prepare-done plans sorted h in
        let size = ap length e in
        let same_size = sort_by-length (rank_order cmp) plans in
        let result =
          evaluate-FirstWins (length sorted) jobs parallelism (judge_of evaluator sorted) some_plan
            (omega arith) reach over in
        subst
          (λ (arranged_plans : List (CandidatePlan R T)).
            NoWinner (length arranged_plans) (judge_of evaluator arranged_plans) s.mem
              ⊎ FirstWins (length arranged_plans) (judge_of evaluator arranged_plans) s.mem
            → IsLowest plans (record {
              plans = arranged_plans;
              verdicts = s.mem.verdicts;
              winner = final_winner s.mem.lowest s.mem.verdicts;
            }))
          e (lowest_of plans s) result.0
