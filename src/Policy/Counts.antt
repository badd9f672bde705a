-- ===== src/Policy/Counts.antt =====
-- Counting verdicts, and one verdict in the aggregate evidence in terms of these counts.
use reprocut.Prelude.{ℕ, zero, suc, ◌+◌, ◌-◌, ◌≤◌, ◌<◌, ◌≡◌, refl, sym, ap, inl, inr, arith}
use reprocut.Prelude.{List, [], ◌∷◌, length, take, Option, none, some, if◌then◌else◌, ◌==◌}
use reprocut.Prelude.{leb, ltb, Bool-cases, leb→le, not-leb→lt, ltb→lt, not-ltb→le, ==→≡, ==→≢, ◌%◌}
use reprocut.Prelude.Words.{u16_mod}
use mathlib.Core.Path.{subst}
use reprocut.Model.{CandidateVerdict}
use reprocut.Policy.{AggregateEvidence, AggregateDecision, terminal_decision, record_verdict}

-- 1 for the verdict that is counted, 0 for the others.
abbrev pub weight : CandidateVerdict → CandidateVerdict → ℕ
weight CandidateVerdict.preserved CandidateVerdict.preserved = 1
weight CandidateVerdict.rejected CandidateVerdict.rejected = 1
weight CandidateVerdict.inconclusive CandidateVerdict.inconclusive = 1
weight _ _ = 0

abbrev pub count : CandidateVerdict → List CandidateVerdict → ℕ
count w [] = 0
count w (v ∷ vs) = weight w v + count w vs

pub weight-le : (w v : CandidateVerdict) → weight w v ≤ 1
weight-le CandidateVerdict.preserved CandidateVerdict.preserved = omega arith
weight-le CandidateVerdict.rejected CandidateVerdict.rejected = omega arith
weight-le CandidateVerdict.inconclusive CandidateVerdict.inconclusive = omega arith
weight-le _ _ = omega arith

weight-sum :
    (v : CandidateVerdict)
    → weight CandidateVerdict.preserved v
        + weight CandidateVerdict.rejected v
        + weight CandidateVerdict.inconclusive v
      ≡ 1
weight-sum CandidateVerdict.preserved = refl
weight-sum CandidateVerdict.rejected = refl
weight-sum CandidateVerdict.inconclusive = refl

pub count-take-le :
    (w : CandidateVerdict) (n : ℕ) (vs : List CandidateVerdict) → count w (take n vs) ≤ n
count-take-le w zero vs = omega arith
count-take-le w (suc n) [] = omega arith
count-take-le w (suc n) (v ∷ vs) = omega (arith, weight-le w v, count-take-le w n vs)

-- A longer prefix holds at least as many, and at most its extra length more.
pub count-take_mono :
    (w : CandidateVerdict) (j n : ℕ) (vs : List CandidateVerdict)
    → j ≤ n
    → (count w (take j vs) ≤ count w (take n vs))
      × (count w (take n vs) ≤ count w (take j vs) + (n - j))
count-take_mono w zero n vs h = omega (arith, count-take-le w n vs)
count-take_mono w (suc j) zero vs h = absurd (omega arith)
count-take_mono w (suc j) (suc n) [] h = omega arith
count-take_mono w (suc j) (suc n) (v ∷ vs) h =
    let rest = count-take_mono w j n vs (omega arith) in omega arith

pub length-take-le : (n : ℕ) (vs : List CandidateVerdict) → length (take n vs) ≤ length vs
length-take-le zero vs = omega arith
length-take-le (suc n) [] = omega arith
length-take-le (suc n) (v ∷ vs) = omega (arith, length-take-le n vs)

pub length-take_mono :
    (j n : ℕ) (vs : List CandidateVerdict) → j ≤ n → length (take j vs) ≤ length (take n vs)
length-take_mono zero n vs h = omega arith
length-take_mono (suc j) zero vs h = absurd (omega arith)
length-take_mono (suc j) (suc n) [] h = omega arith
length-take_mono (suc j) (suc n) (v ∷ vs) h = omega (arith, length-take_mono j n vs)

-- A prefix that is shorter than asked for is the whole list.
pub take-all : (n : ℕ) (vs : List CandidateVerdict) → length (take n vs) < n → take n vs ≡ vs
take-all zero vs h = absurd (omega arith)
take-all (suc n) [] h = refl
take-all (suc n) (v ∷ vs) h = ap (λ rest. v ∷ rest) (take-all n vs (omega arith))

-- Evidence that no verdict so far has decided.
pub record IsOpen (e : AggregateEvidence) : Type 0 where
  pub word : e.max_runs < u16_mod
  pub room : e.observed ≤ e.max_runs
  pub sums : e.observed ≡ e.preserved + e.rejected + e.inconclusive
  pub below : e.preserved < e.required
  pub reachable : e.required ≤ e.preserved + (e.max_runs - e.observed)
  pub undecided : e.decision ≡ none

-- The counters after one more verdict.
pub record Counted (v : CandidateVerdict) (e e' : AggregateEvidence) : Type 0 where
  pub max_runs : e'.max_runs ≡ e.max_runs
  pub required : e'.required ≡ e.required
  pub observed : e'.observed ≡ e.observed + 1
  pub preserved : e'.preserved ≡ e.preserved + weight CandidateVerdict.preserved v
  pub rejected : e'.rejected ≡ e.rejected + weight CandidateVerdict.rejected v
  pub inconclusive : e'.inconclusive ≡ e.inconclusive + weight CandidateVerdict.inconclusive v

pub record_verdict-Counted :
    (v : CandidateVerdict) (e : AggregateEvidence)
    → IsOpen e
    → e.observed < e.max_runs
    → Counted v e (record_verdict v e)
unfolding record_verdict
record_verdict-Counted CandidateVerdict.preserved e o h = omega arith
record_verdict-Counted CandidateVerdict.rejected e o h = omega arith
record_verdict-Counted CandidateVerdict.inconclusive e o h = omega arith

-- How a verdict leaves the evidence: accepted, out of reach, or open.
pub data Status (e : AggregateEvidence) : Option AggregateDecision → Type 0 where
  reached : e.required ≤ e.preserved → Status e (some AggregateDecision.preserved)
  refuted :
      e.inconclusive ≡ 0
      → e.preserved + (e.max_runs - e.observed) < e.required
      → Status e (some AggregateDecision.rejected)
  starved :
      0 < e.inconclusive
      → e.preserved + (e.max_runs - e.observed) < e.required
      → Status e (some AggregateDecision.inconclusive)
  undecided :
      e.preserved < e.required
      → e.required ≤ e.preserved + (e.max_runs - e.observed)
      → Status e none

pub terminal_decision-Status :
    (e : AggregateEvidence)
    → e.preserved + (e.max_runs - e.observed) < u16_mod
    → Status e (terminal_decision e)
unfolding terminal_decision
terminal_decision-Status e fits = elim (Bool-cases (leb e.required e.preserved)) [
  | inl hit ↦ rw hit (reached (leb→le e.required e.preserved hit))
  | inr miss ↦ rw miss (unreached (not-leb→lt e.required e.preserved miss))
]
  where
    left : ℕ
    left = e.preserved + (e.max_runs - e.observed)

    counted : left % u16_mod ≡ left
    counted = omega arith

    out_of_reach :
        left < e.required
        → Status e (
            if e.inconclusive == 0
            then some AggregateDecision.rejected
            else some AggregateDecision.inconclusive)
    out_of_reach short = elim (Bool-cases (e.inconclusive == 0)) [
      | inl clean ↦ rw clean (refuted (==→≡ e.inconclusive 0 clean) short)
      | inr mixed ↦ rw mixed (starved (ground (arith, ==→≢ e.inconclusive 0 mixed)) short)
    ]

    unreached :
        e.preserved < e.required
        → Status e (
            if ltb (left % u16_mod) e.required
            then (if e.inconclusive == 0
                then some AggregateDecision.rejected
                else some AggregateDecision.inconclusive)
            else none)
    unreached low = rw counted (elim (Bool-cases (ltb left e.required)) [
      | inl short ↦ rw short (out_of_reach (ltb→lt left e.required short))
      | inr long ↦ rw long (undecided low (not-ltb→le left e.required long))
    ])

pub record_verdict-decision :
    (v : CandidateVerdict) (e : AggregateEvidence)
    → (record_verdict v e).decision ≡ terminal_decision (record_verdict v e)
unfolding record_verdict terminal_decision
record_verdict-decision v e = refl

-- What one verdict does to open evidence: it is counted, and the evidence is closed or open again.
pub record Recorded (v : CandidateVerdict) (e e' : AggregateEvidence) : Type 0 where
  pub counted : Counted v e e'
  pub status : Status e' e'.decision
  pub open_again : e'.decision ≡ none → IsOpen e'

Status-open :
    {e : AggregateEvidence} (d : Option AggregateDecision)
    → Status e d
    → d ≡ none
    → (e.preserved < e.required) × (e.required ≤ e.preserved + (e.max_runs - e.observed))
Status-open none (undecided low long) h = (low, long)
Status-open (some d) s h = absurd (cc)

Counted-Recorded :
    (v : CandidateVerdict) {e e' : AggregateEvidence}
    → IsOpen e
    → e.observed < e.max_runs
    → Counted v e e'
    → e'.decision ≡ terminal_decision e'
    → Recorded v e e'
Counted-Recorded v {e} {e'} o h c decided = record {
  counted = c;
  status = status;
  open_again = λ none_yet. record {
    word = omega arith;
    room = omega arith;
    sums = omega (arith, weight-sum v);
    below = (Status-open e'.decision status none_yet).0;
    reachable = (Status-open e'.decision status none_yet).1;
    undecided = none_yet;
  };
}
  where
    status : Status e' e'.decision
    status =
        subst (λ d. Status e' d) (sym decided)
          (terminal_decision-Status e' (omega (arith, weight-le CandidateVerdict.preserved v)))

pub record_verdict-Recorded :
    (v : CandidateVerdict) (e : AggregateEvidence)
    → IsOpen e
    → e.observed < e.max_runs
    → Recorded v e (record_verdict v e)
record_verdict-Recorded v e o h =
    Counted-Recorded v o h (record_verdict-Counted v e o h) (record_verdict-decision v e)
