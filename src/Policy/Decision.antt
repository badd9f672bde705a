-- ===== src/Policy/Decision.antt =====
-- What `flaky` admits, and what the decision of `aggregate` says of the verdicts that it was given.
use reprocut.Prelude.{ℕ, ◌+◌, ◌-◌, ◌*◌, ◌%◌, ◌≤◌, ◌<◌, ◌≡◌, refl, ◌↔◌, arith}
use reprocut.Prelude.{List, length, take, Option, none, some, ap, ◌∙◌, ◌⊎◌, inl, inr}
use mathlib.Core.Option
use native.Mathlib.Decide.{dec_le}
use reprocut.Model.{CandidateVerdict}
use reprocut.Policy.{AggregateEvidence, AggregateDecision, EvaluationPolicy, strict, flaky}
use reprocut.Policy.{ok, validated_flaky, min_flaky_runs, max_flaky_runs, new}
use reprocut.Policy.{consume, aggregate, final_decision, finish, runs, required}
use reprocut.Policy.Counts.{count, count-take_mono, length-take_mono, take-all, Status}
use reprocut.Policy.Counts.{reached, refuted, starved, undecided}
use reprocut.Policy.Aggregate.{Consumed, consume-Consumed}

-- The policies that the constructors `strict` and `flaky` of the source give.
abbrev pub IsValid : EvaluationPolicy → Type 0
IsValid strict = Unit {0}
IsValid (flaky n q) =
    (min_flaky_runs ≤ n) × (n ≤ max_flaky_runs) × (n % 2 ≡ 1) × (0 < q) × (q ≤ n) × (n * 2 ≤ q * 3)

-- `flaky` accepts exactly the odd run counts from 5 to 101 with a threshold of at least two thirds
-- and at most all of the runs, and keeps both numbers.
pub validated_flaky_iff :
    (n q : ℕ) (p : EvaluationPolicy)
    → (validated_flaky n q ≡ ok p) ↔ ((p ≡ flaky n q) × IsValid (flaky n q))
unfolding validated_flaky
validated_flaky_iff n q p = (λ h. ground arith, λ h. ground arith)

IsValid-bounds :
    (p : EvaluationPolicy) → IsValid p → (0 < required p) × (required p ≤ runs p) × (runs p ≤ 101)
IsValid-bounds strict v = omega arith
IsValid-bounds (flaky n q) v = omega arith

module _ (p : EvaluationPolicy) (vs : List CandidateVerdict) (valid : IsValid p) where
  abbrev final : AggregateEvidence
  final = consume (runs p) vs (new (runs p) (required p))

  run : Consumed vs (new (runs p) (required p)) final (runs p)
  run =
      let b = IsValid-bounds p valid in
      consume-Consumed (runs p) vs (new (runs p) (required p))
        (record {
          word = omega arith;
          room = omega arith;
          sums = refl;
          below = omega arith;
          reachable = omega arith;
          undecided = refl;
        })
        (omega arith)

-- `finish` only turns a missing decision into an inconclusive one.
final_decision-finish : (e : AggregateEvidence) → final_decision (finish e) ≡ final_decision e
unfolding final_decision finish
final_decision-finish e = ground arith

finish-counts :
    (e : AggregateEvidence)
    → ((finish e).observed ≡ e.observed)
      × ((finish e).preserved ≡ e.preserved)
      × ((finish e).rejected ≡ e.rejected)
      × ((finish e).inconclusive ≡ e.inconclusive)
unfolding finish
finish-counts e = ground arith

-- What a status says about the final decision.
data Verdict (e : AggregateEvidence) : AggregateDecision → Type 0 where
  accept : e.required ≤ e.preserved → Verdict e AggregateDecision.preserved
  refuse :
      e.inconclusive ≡ 0
      → e.preserved + (e.max_runs - e.observed) < e.required
      → Verdict e AggregateDecision.rejected
  unclear :
      0 < e.inconclusive
      → e.preserved + (e.max_runs - e.observed) < e.required
      → Verdict e AggregateDecision.inconclusive
  missing : e.decision ≡ none → e.preserved < e.required → Verdict e AggregateDecision.inconclusive

Status-Verdict :
    (e : AggregateEvidence) (d : Option AggregateDecision)
    → Status e d
    → e.decision ≡ d
    → Verdict e (Option.get_or d AggregateDecision.inconclusive)
Status-Verdict e (some AggregateDecision.preserved) (reached h) q = accept h
Status-Verdict e (some AggregateDecision.rejected) (refuted h k) q = refuse h k
Status-Verdict e (some AggregateDecision.inconclusive) (starved h k) q = unclear h k
Status-Verdict e none (undecided h k) q = missing q h

Verdict-preserved_iff :
    {e : AggregateEvidence} {d : AggregateDecision}
    → Verdict e d
    → (d ≡ AggregateDecision.preserved) ↔ (e.required ≤ e.preserved)
Verdict-preserved_iff (accept h) = (λ _. h, λ _. refl)
Verdict-preserved_iff (refuse h k) = (λ q. absurd (cc), λ q. absurd (omega arith))
Verdict-preserved_iff (unclear h k) = (λ q. absurd (cc), λ q. absurd (omega arith))
Verdict-preserved_iff (missing h k) = (λ q. absurd (cc), λ q. absurd (omega arith))

Verdict-rejected :
    {e : AggregateEvidence} {d : AggregateDecision}
    → Verdict e d
    → d ≡ AggregateDecision.rejected
    → (e.inconclusive ≡ 0) × (e.preserved + (e.max_runs - e.observed) < e.required)
Verdict-rejected (accept h) q = absurd (cc)
Verdict-rejected (refuse h k) q = (h, k)
Verdict-rejected (unclear h k) q = absurd (cc)
Verdict-rejected (missing h k) q = absurd (cc)

-- The first `k` verdicts hold no incomplete run and leave too few runs to reach the threshold.
abbrev pub Refutes : EvaluationPolicy → List CandidateVerdict → ℕ → Type 0
Refutes p vs k =
    (k ≤ runs p)
    × (length (take k vs) ≡ k)
    × (count CandidateVerdict.inconclusive (take k vs) ≡ 0)
    × (count CandidateVerdict.preserved (take k vs) + (runs p - k) < required p)

module _ (p : EvaluationPolicy) {vs : List CandidateVerdict} {out : AggregateEvidence}
    (valid : (0 < required p) × (required p ≤ runs p) × (runs p ≤ 101))
    (r : Consumed vs (new (runs p) (required p)) out (runs p)) where
  reached_of_total :
      (d : Option AggregateDecision)
      → Status out d
      → out.decision ≡ d
      → required p ≤ count CandidateVerdict.preserved (take (runs p) vs)
      → out.required ≤ out.preserved
  reached_of_total (some AggregateDecision.preserved) (reached h) e total = h
  reached_of_total none (undecided h k) e total =
      omega
        (arith, ap (λ (l : List CandidateVerdict). count CandidateVerdict.preserved l) (r.ended e))
  reached_of_total (some AggregateDecision.rejected) (refuted h k) e total =
      let mono = count-take_mono CandidateVerdict.preserved r.used (runs p) vs r.bound in
      absurd (omega arith)
  reached_of_total (some AggregateDecision.inconclusive) (starved h k) e total =
      let mono = count-take_mono CandidateVerdict.preserved r.used (runs p) vs r.bound in
      absurd (omega arith)

  total_of_reached :
      out.required ≤ out.preserved
      → required p ≤ count CandidateVerdict.preserved (take (runs p) vs)
  total_of_reached h =
      let mono = count-take_mono CandidateVerdict.preserved r.used (runs p) vs r.bound in
      omega arith

  -- A refuting prefix is met before the loop can end in another way.
  rejected_of_Refutes :
      (k : ℕ) (d : Option AggregateDecision)
      → Refutes p vs k
      → Status out d
      → out.decision ≡ d
      → d ≡ some AggregateDecision.rejected
  rejected_of_Refutes k d (le, len, clean, short) s e = elim (dec_le r.used k) [
    | yes early ↦ early_case d s e early
    | no late ↦ let open_at = r.live k (omega arith) in absurd (omega arith)
  ]
    where
      early_case :
          (d : Option AggregateDecision)
          → Status out d
          → out.decision ≡ d
          → r.used ≤ k
          → d ≡ some AggregateDecision.rejected
      early_case (some AggregateDecision.rejected) (refuted h j) q early = refl
      early_case (some AggregateDecision.preserved) (reached h) q early =
          let mono = count-take_mono CandidateVerdict.preserved r.used k vs early in
          absurd (omega arith)
      early_case (some AggregateDecision.inconclusive) (starved h j) q early =
          let mono = count-take_mono CandidateVerdict.inconclusive r.used k vs early in
          absurd (omega arith)
      early_case none (undecided h j) q early =
          let len_mono = length-take_mono k (runs p) vs le in
          let same = ap (λ (l : List CandidateVerdict). length l) (r.ended q) in
          let mono = count-take_mono CandidateVerdict.preserved r.used k vs early in
          let used_all : r.used ≡ k = omega (arith, r.prefix) in absurd (omega arith)

module _ (p : EvaluationPolicy) (vs : List CandidateVerdict) (valid : IsValid p) where
  outcome : Verdict (final p vs valid) (final_decision (aggregate p vs))
  unfolding aggregate
  outcome = rw (final_decision-finish (final p vs valid)) (
      unfold final_decision in
      Status-Verdict (final p vs valid) (final p vs valid).decision (run p vs valid).status refl)

  -- With a valid policy, `aggregate` accepts exactly when the first `runs` verdicts hold at least
  -- `required` preserved ones: stopping early never changes an acceptance.
  pub aggregate-preserved_iff :
      (final_decision (aggregate p vs) ≡ AggregateDecision.preserved)
      ↔ (required p ≤ count CandidateVerdict.preserved (take (runs p) vs))
  aggregate-preserved_iff =
      let r = run p vs valid in
      let b = IsValid-bounds p valid in
      let (to, from) = Verdict-preserved_iff outcome in
      (
        λ h. total_of_reached p b r (to h),
        λ h. from (reached_of_total p b r (final p vs valid).decision r.status refl h),
      )

  decision_lem :
      final_decision (aggregate p vs)
      ≡ Option.get_or (final p vs valid).decision AggregateDecision.inconclusive
  unfolding aggregate
  decision_lem = final_decision-finish (final p vs valid) ∙ unfold final_decision in refl

  -- With a valid policy, `aggregate` rejects exactly when some prefix of at most `runs` verdicts
  -- has no inconclusive verdict and leaves too few runs to reach `required`.
  pub aggregate-rejected_iff :
      (final_decision (aggregate p vs) ≡ AggregateDecision.rejected) ↔ ((k : ℕ) × Refutes p vs k)
  aggregate-rejected_iff = (
    λ h.
        let r = run p vs valid in
        let (clean, short) = Verdict-rejected outcome h in
        (r.used, (r.bound, r.prefix, omega arith, omega arith)),
    λ (k, refuting).
        let r = run p vs valid in
        let stop =
          rejected_of_Refutes p (IsValid-bounds p valid) r k (final p vs valid).decision refuting
            r.status refl in
        decision_lem ∙ ap (λ d. Option.get_or d AggregateDecision.inconclusive) stop,
  )

  -- Why the loop stopped: no verdict is left, the threshold is reached, or it is out of reach.
  abbrev pub Stops : ℕ → Type 0
  Stops used =
      (take used vs ≡ vs)
      ⊎ ((required p ≤ count CandidateVerdict.preserved (take used vs))
          ⊎ (count CandidateVerdict.preserved (take used vs) + (runs p - used) < required p))

  final-Stops :
      (d : Option AggregateDecision)
      → Status (final p vs valid) d
      → (final p vs valid).decision ≡ d
      → Stops (run p vs valid).used
  final-Stops (some AggregateDecision.preserved) (reached h) e =
      let r = run p vs valid in inr (inl (omega arith))
  final-Stops (some AggregateDecision.rejected) (refuted h k) e =
      let r = run p vs valid in inr (inr (omega arith))
  final-Stops (some AggregateDecision.inconclusive) (starved h k) e =
      let r = run p vs valid in inr (inr (omega arith))
  final-Stops none (undecided h k) e =
      let r = run p vs valid in
      let same = ap (λ (l : List CandidateVerdict). length l) (r.ended e) in
      let short : length (take (runs p) vs) < runs p = omega (arith, r.prefix) in
      inl (r.ended e ∙ take-all (runs p) vs short)

  -- With a valid policy, `aggregate` reads a prefix of the verdicts, counts each of its verdicts
  -- once, and stops at the first point where the threshold is reached or out of reach, or else at
  -- the end of the verdicts: at every shorter prefix the threshold was neither, and at the one that
  -- it reads no verdict is left or the threshold is one of the two.
  pub aggregate-reads_prefix :
      (used : ℕ) × (used ≤ runs p)
      × (length (take used vs) ≡ used)
      × ((aggregate p vs).observed ≡ used)
      × ((aggregate p vs).preserved ≡ count CandidateVerdict.preserved (take used vs))
      × ((aggregate p vs).rejected ≡ count CandidateVerdict.rejected (take used vs))
      × ((aggregate p vs).inconclusive ≡ count CandidateVerdict.inconclusive (take used vs))
      × ((j : ℕ)
          → j < used
          → (count CandidateVerdict.preserved (take j vs) < required p)
            × (required p ≤ count CandidateVerdict.preserved (take j vs) + (runs p - j)))
      × Stops used
  unfolding aggregate
  aggregate-reads_prefix =
      let r = run p vs valid in
      let f = finish-counts (final p vs valid) in
      (
        r.used,
        r.bound,
        r.prefix,
        omega arith,
        omega arith,
        omega arith,
        omega arith,
        (λ j h. let live = r.live j h in omega arith),
        final-Stops (final p vs valid).decision r.status refl,
      )
