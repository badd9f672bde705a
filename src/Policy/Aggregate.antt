-- ===== src/Policy/Aggregate.antt =====
-- The early exit of `aggregate` never changes its decision.
use reprocut.Prelude.{ℕ, zero, suc, ◌+◌, ◌-◌, ◌≤◌, ◌<◌, ◌≡◌, refl, inl, inr, arith}
use reprocut.Prelude.{List, [], ◌∷◌, length, take, none, ◌≢◌, ◌∙◌, Option-cases}
use reprocut.Model.{CandidateVerdict}
use reprocut.Policy.{AggregateEvidence, terminal_decision}
use reprocut.Policy.{record_verdict, consume}
use reprocut.Policy.Counts.{count, IsOpen, Status}
use reprocut.Policy.Counts.{undecided}
use reprocut.Policy.Counts.{Recorded, record_verdict-decision, record_verdict-Recorded}

-- How the loop ended: the counts over the prefix that it consumed, and why it stopped.
pub record Consumed (vs : List CandidateVerdict) (e out : AggregateEvidence) (n : ℕ) : Type 0 where
  pub used : ℕ
  pub max_runs : out.max_runs ≡ e.max_runs
  pub required : out.required ≡ e.required
  pub bound : used ≤ n
  pub prefix : length (take used vs) ≡ used
  pub observed : out.observed ≡ e.observed + used
  pub preserved : out.preserved ≡ e.preserved + count CandidateVerdict.preserved (take used vs)
  pub rejected : out.rejected ≡ e.rejected + count CandidateVerdict.rejected (take used vs)
  pub inconclusive :
      out.inconclusive ≡ e.inconclusive + count CandidateVerdict.inconclusive (take used vs)
  pub status : Status out out.decision
  -- Before the last verdict the decision was still open.
  pub live :
      (j : ℕ)
      → j < used
      → (e.preserved + count CandidateVerdict.preserved (take j vs) < e.required)
        × (e.required
            ≤ e.preserved
              + count CandidateVerdict.preserved (take j vs)
              + (e.max_runs - (e.observed + j)))
  pub ended : (out.decision ≡ none) → take used vs ≡ take n vs

module _ {n : ℕ} {v : CandidateVerdict} {vs : List CandidateVerdict} {e e' : AggregateEvidence}
    (o : IsOpen e) (r : Recorded v e e') where
  open r use {counted, status, open_again}

  -- The loop breaks at `v`.
  Consumed-stop : e'.decision ≢ none → Consumed (v ∷ vs) e e' (suc n)
  Consumed-stop closed = record {
    used = 1;
    max_runs = counted.max_runs;
    required = counted.required;
    bound = omega arith;
    prefix = refl;
    observed = counted.observed;
    preserved = omega arith;
    rejected = omega arith;
    inconclusive = omega arith;
    status = status;
    live = live_at;
    ended = λ none_yet. absurd (closed none_yet);
  }
    where
      live_at :
          (j : ℕ)
          → j < 1
          → (e.preserved + count CandidateVerdict.preserved (take j (v ∷ vs)) < e.required)
            × (e.required
                ≤ e.preserved
                  + count CandidateVerdict.preserved (take j (v ∷ vs))
                  + (e.max_runs - (e.observed + j)))
      live_at zero h = omega (arith, o.below, o.reachable)
      live_at (suc j) h = absurd (omega arith)

  -- The loop goes on behind `v`.
  Consumed-next : {out : AggregateEvidence} → Consumed vs e' out n → Consumed (v ∷ vs) e out (suc n)
  Consumed-next {out} c = record {
    used = suc c.used;
    max_runs = c.max_runs ∙ counted.max_runs;
    required = c.required ∙ counted.required;
    bound = omega arith;
    prefix = omega arith;
    observed = omega arith;
    preserved = omega arith;
    rejected = omega arith;
    inconclusive = omega arith;
    status = c.status;
    live = live_at;
    ended = λ none_yet. rw (c.ended none_yet);
  }
    where
      live_at :
          (j : ℕ)
          → j < suc c.used
          → (e.preserved + count CandidateVerdict.preserved (take j (v ∷ vs)) < e.required)
            × (e.required
                ≤ e.preserved
                  + count CandidateVerdict.preserved (take j (v ∷ vs))
                  + (e.max_runs - (e.observed + j)))
      live_at zero h = omega (arith, o.below, o.reachable)
      live_at (suc j) h =
          let later = c.live j (omega arith) in
          omega (arith, counted.preserved, counted.required, counted.observed, counted.max_runs)

pub consume-Consumed :
    (n : ℕ) (vs : List CandidateVerdict) (e : AggregateEvidence)
    → IsOpen e
    → e.observed + n ≡ e.max_runs
    → Consumed vs e (consume n vs e) n
unfolding consume
consume-Consumed zero vs e o h = absurd (omega arith)
consume-Consumed (suc n) [] e o h = record {
  used = 0;
  max_runs = refl;
  required = refl;
  bound = omega arith;
  prefix = refl;
  observed = omega arith;
  preserved = omega arith;
  rejected = omega arith;
  inconclusive = omega arith;
  status = rw o.undecided (undecided o.below o.reachable);
  live = λ j h. absurd (omega arith);
  ended = λ _. refl;
}
consume-Consumed (suc n) (v ∷ vs) e o h = elim (Option-cases (terminal_decision e')) [
  | inl more ↦
      rw (more, consume)
        (Consumed-next o r (
          consume-Consumed n vs e' (r.open_again (record_verdict-decision v e ∙ more))
            (omega (arith, r.counted.observed, r.counted.max_runs))))
  | inr (d, stop) ↦
      rw (stop, consume) (Consumed-stop o r (λ none_yet. cc (record_verdict-decision v e)))
]
  where
    e' : AggregateEvidence
    e' = record_verdict v e

    r : Recorded v e e'
    r = record_verdict-Recorded v e o (omega arith)
