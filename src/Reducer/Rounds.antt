-- ===== src/Reducer/Rounds.antt =====
-- One round of ddmin: it does not panic, keeps the invariant, and brings the loop nearer its end.
use reprocut.Prelude.{ℕ, ◌-◌, ◌≤◌, ◌<◌, min, max, ◌≡◌, refl, ◌∙◌, ap, arith}
use reprocut.Prelude.{◌⊎◌, inl, inr, leb, leb→le, not-leb→lt, Bool-cases}
use reprocut.Prelude.{Option, none, some, List, map, length, Option-cases}
use reprocut.Prelude.{get_elem?-of_lt, get_elem?-map, length-map, All-get_elem?}
use mathlib.Core.Path.{subst}
use reprocut.Prelude.Faults.{ok, ◌>>=◌}
use reprocut.Prelude.Words.{u64_max, saturating_mul}
use reprocut.Model.{CandidateVerdict}
use reprocut.Reducer.{
  ReductionUnit, FrontierClass, FrontierPartition, Candidate, subset, complement,
}
use reprocut.Reducer.{ordered_frontier, keeps_position, earliest_preserved}
use reprocut.Reducer.Search.{Evaluator, Search, Round, done, again, accept, call, ddmin_round}
use reprocut.Reducer.Search.{next_granularity, settle}
use reprocut.Reducer.Frontier.{IsCut, ordered_frontier-IsCut}
use reprocut.Reducer.Earliest.{earliest_preserved_iff}
use reprocut.Reducer.Candidates.{Reads, Reads-length, select-Reads, select-sublist}
use reprocut.Reducer.Fill.{Fits, cut, fill_plans_lem, IsCut-shorter}
use reprocut.Reducer.Invariant.{Inv, Sound, Inv-accept, measure, measure-accept}

-- The candidates of a round over the units `us`.
abbrev pub cuts : List ℕ → List ReductionUnit → ℕ → List Candidate
cuts is us granularity = map (cut is us) (ordered_frontier (length is) granularity)

abbrev pub frontier_of : List Candidate → List (List ReductionUnit)
frontier_of = map (λ (c : Candidate). c.units)

-- The loop ends after a round at the finest granularity that found no winner.
pub data RoundEnds {ℓ κ} {S : Type ℓ} (P : List ReductionUnit → Type κ) (evaluate : Evaluator S)
    (units : List ReductionUnit) (granularity : ℕ) (s : Search S) : Round S → Type (ℓ ⊔ κ) where
  ends :
      (s' : Search S) (inv : Inv P units s)
      → Inv P units s'
      → s'.active ≡ s.active
      → length s.active ≤ granularity
      → earliest_preserved
          (evaluate s.state (frontier_of (cuts s.active inv.held granularity))).0
          (length (cuts s.active inv.held granularity))
        ≡ none
      → RoundEnds P evaluate units granularity s (done s')
  goes :
      (s' : Search S) (g : ℕ)
      → Inv P units s'
      → 2 ≤ g
      → measure (length s'.active) g < measure (length s.active) granularity
      → RoundEnds P evaluate units granularity s (again g s')

pub cut-Fits :
    {units : List ReductionUnit} (is : List ℕ) (us : List ReductionUnit) (plan : FrontierPartition)
    → Reads units is us
    → Fits units us (cut is us plan)
cut-Fits {units} is us plan r = record {
  reads = select-Reads units (keeps_position plan) 0 is us r;
  sublist = select-sublist (keeps_position plan) 0 us;
}

next_granularity-ge :
    (class : FrontierClass) (granularity : ℕ)
    → (class ≡ subset) ⊎ (class ≡ complement)
    → (g : ℕ) × (next_granularity class granularity ≡ ok g) × (2 ≤ g)
unfolding next_granularity
next_granularity-ge FrontierClass.subset granularity k = (2, refl, omega arith)
next_granularity-ge FrontierClass.complement granularity k =
    (max (granularity - 1) 2, refl, omega arith)
next_granularity-ge FrontierClass.directory granularity k = absurd (ground arith)
next_granularity-ge FrontierClass.singleton granularity k = absurd (ground arith)
next_granularity-ge FrontierClass.structured granularity k = absurd (ground arith)

module _ {ℓ κ} {S : Type ℓ} {P : List ReductionUnit → Type κ} (evaluate : Evaluator S)
    {units : List ReductionUnit} (sound : Sound P evaluate) {s : Search S} (inv : Inv P units s)
    (granularity : ℕ) (many : 2 ≤ length s.active) (small : length s.active ≤ u64_max)
    (fine : 2 ≤ granularity) where
  abbrev plans : List FrontierPartition
  plans = ordered_frontier (length s.active) granularity

  abbrev candidates : List Candidate
  candidates = cuts s.active inv.held granularity

  abbrev verdicts : List (Option CandidateVerdict)
  verdicts = (evaluate s.state (frontier_of candidates)).0

  same_length : length s.active ≡ length inv.held
  same_length = Reads-length units s.active inv.held inv.reads

  called : Inv P units (call evaluate (frontier_of candidates) s).1
  called = record {
    held = inv.held;
    reads = inv.reads;
    sublist = inv.sublist;
    good = inv.good;
    sizes = inv.sizes;
  }

  after : Search S
  after = (call evaluate (frontier_of candidates) s).1

  settle-none :
      earliest_preserved verdicts (length candidates) ≡ none
      → (r : Round S) × (settle granularity plans candidates after none ≡ ok r)
        × RoundEnds P evaluate units granularity s r
  unfolding settle after
  settle-none nothing = elim (Bool-cases (leb (length s.active) granularity)) [
    | inl finest ↦ (
      done after,
      rw finest,
      ends after inv called refl (leb→le (length s.active) granularity finest) nothing,
    )
    | inr coarse ↦
        let more = not-leb→lt (length s.active) granularity coarse in
        (
          again (min (saturating_mul granularity 2) (length s.active)) after,
          rw coarse,
          goes after (min (saturating_mul granularity 2) (length s.active)) called (omega arith)
              (omega arith),
        )
  ]

  settle-some :
      (winner : ℕ)
      → earliest_preserved verdicts (length candidates) ≡ some winner
      → (r : Round S) × (settle granularity plans candidates after (some winner) ≡ ok r)
        × RoundEnds P evaluate units granularity s r
  unfolding settle after called
  settle-some winner won =
      let (lt, first) = (earliest_preserved_iff verdicts (length candidates) winner).0 won in
      let count = length-map (cut s.active inv.held) plans in
      let (plan, at_plan) = get_elem?-of_lt plans winner (omega arith) in
      let at_cut = get_elem?-map (cut s.active inv.held) plans winner at_plan in
      let proper =
        All-get_elem? (IsCut (length s.active)) plans winner
          (ordered_frontier-IsCut (length s.active) granularity many fine small) at_plan in
      let (g, next, ge) = next_granularity-ge plan.class granularity proper.class in
      let c = cut s.active inv.held plan in
      let shorter = IsCut-shorter inv.held plan (subst (λ n. IsCut n plan) same_length proper) in
      let read = cut-Fits s.active inv.held plan inv.reads in
      let good =
        sound s.state (frontier_of candidates) winner c.units first.hit
          (get_elem?-map (λ (c : Candidate). c.units) candidates winner at_cut) in
      (
        again g (accept c after),
        rw (at_cut, at_plan, next),
        goes (accept c after) g (Inv-accept called read shorter good) ge (
            measure-accept (length s.active) (length c.indices) granularity g
              (omega (arith, Reads-length units c.indices c.units read.reads, same_length))),
      )

  pub ddmin_round-Ends :
      (r : Round S) × (ddmin_round evaluate units granularity s ≡ ok r)
      × RoundEnds P evaluate units granularity s r
  unfolding ddmin_round after
  ddmin_round-Ends = elim (Option-cases (earliest_preserved verdicts (length candidates))) [
    | inl nothing ↦
        let (r, e, post) = settle-none nothing in
        (
          r,
          rw (fill_plans_lem units s.active inv.held plans inv.reads, ◌>>=◌)
              (ap (settle granularity plans candidates after) nothing ∙ e),
          post,
        )
    | inr (winner, won) ↦
        let (r, e, post) = settle-some winner won in
        (
          r,
          rw (fill_plans_lem units s.active inv.held plans inv.reads, ◌>>=◌)
              (ap (settle granularity plans candidates after) won ∙ e),
          post,
        )
  ]
