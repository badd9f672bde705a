-- ===== src/Scheduler/Tests.antt =====
-- Two workers on a frontier of two plans: the higher rank wins the slot before the lower is judged.
use reprocut.Prelude.{ℕ, zero, suc, ◌<◌, ◌≡◌, ◌≢◌, refl, inl, inr, ◌⊎◌, arith, some, none}
use reprocut.Prelude.{get_elem?}
use reprocut.Model.{CandidateVerdict, preserved, rejected}
use reprocut.Winner.{empty, loaded, exchanged}
use reprocut.Scheduler.Worker.{System, Step, Reach, start, later, work, receive, IsOver, stopped}
use reprocut.Scheduler.Worker.{fetch, past_end, run, keep, drop, claim, claimed, send}
use reprocut.Scheduler.Outcome.{evaluate-FirstWins, NoWinner, FirstWins}
use Prim.Native.Nat.{compare}
use reprocut.Prelude.{Bool, true, false, List, [], ◌∷◌, ◌++◌}
use reprocut.Prelude.Attempts.{done, failed}
use reprocut.Prelude.Orders.{compare-IsOrder}
use reprocut.Prelude.Sorting.{sort_by, insert_by}
use reprocut.Scheduler.Outcome.{final_winner}
use reprocut.Scheduler.Plans.{CandidatePlan, FrontierOutcome, judge_of, prepare, has_duplicate}
use reprocut.Scheduler.Plans.{threads, duplicate_rank}
use reprocut.Scheduler.Lowest.{IsLowest, evaluate-IsLowest}
use reprocut.Scheduler.Progress.{evaluate-progress}

-- The payload of a plan says whether it is preserved.
abbrev evaluator : Bool → CandidateVerdict
evaluator true = preserved
evaluator false = rejected

abbrev sorted_plans : List (CandidatePlan ℕ Bool)
sorted_plans = record { rank = 3; payload = false } ∷ record { rank = 7; payload = true } ∷ []

abbrev given_plans : List (CandidatePlan ℕ Bool)
given_plans = record { rank = 7; payload = true } ∷ record { rank = 3; payload = false } ∷ []

abbrev judge : ℕ → CandidateVerdict
judge = judge_of evaluator sorted_plans

other : judge 0 ≢ preserved
other e = cc

-- The runs of the two workers.
abbrev Run : Type 0
Run = (s : System) × Reach 2 2 4 judge s

abbrev taken : Run
taken = (
  _,
  later
      (later (later (later start (work 1 (omega arith) fetch)) (work 0 (omega arith) fetch))
        (work 0 (omega arith) (run {seen = empty} (omega arith) (omega arith) (inl refl))))
      (work 0 (omega arith) (keep refl)),
)

abbrev won : Run
won = (
  _,
  later
      (later
        (later
          (later
            (later taken.1
              (work 0 (omega arith) (claim (loaded {seen = empty} (omega arith) (omega arith)))))
            (work 0 (omega arith) (claim (exchanged (omega arith) refl))))
          (work 0 (omega arith) claimed))
        (work 0 (omega arith) (send (omega arith))))
      (receive refl),
)

abbrev lower : Run
lower = (
  _,
  later
      (later
        (later
          (later won.1
            (work 1 (omega arith) (run {seen = 1} (omega arith) (omega arith) (inr (omega arith)))))
          (work 1 (omega arith) (drop other)))
        (work 1 (omega arith) (send (omega arith))))
      (receive refl),
)

abbrev ended : Run
ended = (
  _,
  later
      (later
        (later (later lower.1 (work 0 (omega arith) fetch))
          (work 0 (omega arith) (past_end (omega arith))))
        (work 1 (omega arith) fetch))
      (work 1 (omega arith) (past_end (omega arith))),
)

left : (w : ℕ) → w < 2 → (i : ℕ) × (ended.0.pc w ≡ stopped i)
left zero lt = (2, refl)
left (suc zero) lt = (3, refl)
left (suc (suc w)) lt = absurd (omega arith)

over : IsOver 2 2 4 judge ended.0
over = record { left = left; drained = refl }

evaluate-FirstWins_example :
    (NoWinner 2 judge ended.0.mem ⊎ FirstWins 2 judge ended.0.mem)
    × ((i : ℕ) (v : CandidateVerdict)
        → get_elem? ended.0.mem.verdicts i ≡ some (some v)
        → v ≡ judge i)
evaluate-FirstWins_example =
    evaluate-FirstWins 2 2 none judge (omega arith) (omega arith) ended.1 over

evaluate-progress_example : IsOver 2 2 4 judge won.0 ⊎ ((t : System) × Step 2 2 4 judge won.0 t)
evaluate-progress_example = evaluate-progress 2 2 none judge won.0

given-prepared : prepare compare given_plans ≡ done sorted_plans
unfolding prepare sort_by insert_by has_duplicate
given-prepared = refl

twice_refused : prepare compare (given_plans ++ given_plans) ≡ failed duplicate_rank
unfolding prepare sort_by insert_by has_duplicate
twice_refused = refl

abbrev ended_outcome : FrontierOutcome ℕ Bool
ended_outcome = record {
  plans = sorted_plans;
  verdicts = ended.0.mem.verdicts;
  winner = final_winner ended.0.mem.lowest ended.0.mem.verdicts;
}

evaluate-IsLowest_example : IsLowest compare-IsOrder evaluator given_plans ended_outcome
evaluate-IsLowest_example =
    evaluate-IsLowest compare-IsOrder evaluator 2 none given_plans ended_outcome (omega arith)
      (threads given-prepared (omega arith) ended.1 over)
