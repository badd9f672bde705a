-- ===== src/Scheduler/Outcome.antt =====
-- What `FrontierScheduler::evaluate` does around its threads, and what it returns when they are over.
use reprocut.Prelude.{ℕ, zero, suc, ◌+◌, ◌^◌, ◌≤◌, ◌<◌, ◌≡◌, ◌≢◌, refl, ◌⊎◌, inl, inr}
use reprocut.Prelude.{arith, Bool, true, false, ◌==◌, if◌then◌else◌, List, [], ◌∷◌}
use reprocut.Prelude.{Option, none, some, take, get_elem?}
use reprocut.Prelude.Words.{saturating_mul}
use Prim.Native.Nat.{min, max}
use mathlib.Core.Option.{some-injective}
use reprocut.Model.{CandidateVerdict, preserved}
use reprocut.Winner.{empty, load}
use reprocut.Scheduler.Worker.{Shared, System, IsOver, Reach}
use reprocut.Scheduler.Safety.{Reach-Inv}

-- `requested.clamp(1, plans.len())`; `parallelism` is the host's answer, if it has one.
abbrev pub requested : ℕ → Option ℕ → ℕ
requested zero (some parallelism) = parallelism
requested zero none = 1
requested (suc jobs) _ = suc jobs

abbrev pub worker_count : (plans jobs : ℕ) → Option ℕ → ℕ
worker_count plans jobs parallelism = min (max (requested jobs parallelism) 1) plans

abbrev pub capacity_of : (workers : ℕ) → ℕ
capacity_of workers = max (saturating_mul workers 2) 1

-- `.all(Option::is_some)`
unfoldable pub all_some : List (Option CandidateVerdict) → Bool
all_some [] = true
all_some (none ∷ rest) = false
all_some (some v ∷ rest) = all_some rest

-- The winner of the outcome, from the slot and the verdicts when the threads are over. The slice
-- `..=candidate` is within bounds, since a claimed candidate has a verdict slot.
unfoldable pub final_winner : ℕ → List (Option CandidateVerdict) → Option ℕ
final_winner lowest verdicts = elim (load lowest) [
  | none ↦ none
  | some candidate ↦ if all_some (take (candidate + 1) verdicts) then some candidate else none
]

-- Rank `k` is the first that the evaluator preserves.
abbrev pub IsFirst : ℕ → (ℕ → CandidateVerdict) → ℕ → Type 0
IsFirst plans judge k =
    (k < plans) × (judge k ≡ preserved) × ((i : ℕ) → i < k → judge i ≢ preserved)

module _ (plans : ℕ) (judge : ℕ → CandidateVerdict) (m : Shared) where
  -- The two ways in which the threads end.
  abbrev pub NoWinner : Type 0
  NoWinner =
      (final_winner m.lowest m.verdicts ≡ none)
      × ((i : ℕ)
          → i < plans
          → (judge i ≢ preserved) × (get_elem? m.verdicts i ≡ some (some (judge i))))

  abbrev pub FirstWins : Type 0
  FirstWins =
      (k : ℕ) × IsFirst plans judge k
      × (final_winner m.lowest m.verdicts ≡ some k)
      × ((i : ℕ) → i ≤ k → get_elem? m.verdicts i ≡ some (some (judge i)))

all_some-take :
    (verdicts : List (Option CandidateVerdict)) (n : ℕ)
    → ((i : ℕ) → i < n → (v : CandidateVerdict) × (get_elem? verdicts i ≡ some (some v)))
    → all_some (take n verdicts) ≡ true
unfolding all_some
all_some-take verdicts zero h = refl
all_some-take [] (suc n) h = absurd (none-≢-some (h 0 (omega arith)).1)
  where
    none-≢-some : {v : CandidateVerdict} → none ≡ some (some v) → ⊥
    none-≢-some e = cc
all_some-take (none ∷ rest) (suc n) h = absurd (empty_slot (h 0 (omega arith)).1)
  where
    empty_slot : {v : CandidateVerdict} → some none ≡ some (some v) → ⊥
    empty_slot {v} e = cc (some-injective none (some v) e)
all_some-take (some v ∷ rest) (suc n) h = all_some-take rest n (λ i lt. h (suc i) (omega arith))

module _ (workers plans capacity : ℕ) (judge : ℕ → CandidateVerdict) (some_worker : 0 < workers)
    (fits : plans + workers + 1 < 2 ^ 64) {s : System}
    (reach : Reach workers plans capacity judge s)
    (over : IsOver workers plans capacity judge s) where
  -- Every index up to the slot has been fetched, since some worker has gone beyond it.
  below_next : (i : ℕ) → i < plans → i ≤ s.mem.lowest → i < s.mem.next
  below_next i lt le =
      let inv = Reach-Inv workers plans judge capacity fits reach in
      let (j, e) = over.left 0 some_worker in
      let at = inv.at 0 in
      let (below, why) = rw e at at in
      elim why [ inl past ↦ omega arith | inr beyond ↦ omega arith ]

  settled_slot :
      (i : ℕ) → i < plans → i ≤ s.mem.lowest → get_elem? s.mem.verdicts i ≡ some (some (judge i))
  settled_slot i lt le =
      let inv = Reach-Inv workers plans judge capacity fits reach in
      elim (inv.covered i (below_next i lt le)) [
        | inl (inl past) ↦ absurd (omega arith)
        | inl (inr (inl less)) ↦ absurd (omega arith)
        | inl (inr (inr h)) ↦ absurd (rw over.drained at h)
        | inr (inl has) ↦ has
        | inr (inr (w, below, hands)) ↦
            let (j, e) = over.left w below in absurd (nothing (rw e at hands))
      ]
    where
      nothing : none ≡ some i → ⊥
      nothing e = cc

  settled_claim : (i : ℕ) → i < plans → i < s.mem.lowest → judge i ≢ preserved
  settled_claim i lt less hit =
      let inv = Reach-Inv workers plans judge capacity fits reach in
      let low = (inv.recorded i (judge i) (settled_slot i lt (omega arith))).1 hit in omega arith

  ends_empty : s.mem.lowest ≡ empty → NoWinner plans judge s.mem
  unfolding final_winner
  ends_empty e =
      (rw e refl, λ i lt. (settled_claim i lt (omega arith), settled_slot i lt (omega arith)))

  ends_won : s.mem.lowest < plans → judge s.mem.lowest ≡ preserved → FirstWins plans judge s.mem
  unfolding final_winner
  ends_won lt hit =
      let other : (s.mem.lowest == empty) ≡ false = ground arith in
      let full =
        all_some-take s.mem.verdicts (s.mem.lowest + 1)
          (λ i below. (judge i, settled_slot i (omega arith) (omega arith))) in
      (
        s.mem.lowest,
        (lt, hit, λ i less. settled_claim i (omega arith) less),
        rw (final_winner, other, full) refl,
        λ i le. settled_slot i (omega arith) le,
      )

  threads-FirstWins :
      (NoWinner plans judge s.mem ⊎ FirstWins plans judge s.mem)
      × ((i : ℕ) (v : CandidateVerdict) → get_elem? s.mem.verdicts i ≡ some (some v) → v ≡ judge i)
  threads-FirstWins =
      let inv = Reach-Inv workers plans judge capacity fits reach in
      (
        (elim inv.slot [ inl e ↦ inl (ends_empty e) | inr (lt, hit) ↦ inr (ends_won lt hit) ]),
        λ i v e. (inv.recorded i v e).0,
      )

pub worker_count_bounds :
    (plans jobs : ℕ) (parallelism : Option ℕ)
    → 0 < plans
    → (0 < worker_count plans jobs parallelism)
      × (worker_count plans jobs parallelism ≤ plans)
      × (0 < capacity_of (worker_count plans jobs parallelism))
worker_count_bounds plans jobs parallelism h = omega arith

-- However the threads interleave, when they are over the outcome is either the first rank that
-- the evaluator preserves, with a recorded verdict for every rank up to it, or no winner, and then
-- every rank has its recorded verdict and none is preserved. Every verdict that is recorded beyond
-- the winner is the evaluator's, too. The frontier is not empty and its indices do not wrap.
pub evaluate-FirstWins :
    (plans jobs : ℕ) (parallelism : Option ℕ) (judge : ℕ → CandidateVerdict) {s : System}
    → 0 < plans
    → plans + plans + 1 < 2 ^ 64
    → let workers = worker_count plans jobs parallelism in
      Reach workers plans (capacity_of workers) judge s
      → IsOver workers plans (capacity_of workers) judge s
      → (NoWinner plans judge s.mem ⊎ FirstWins plans judge s.mem)
        × ((i : ℕ) (v : CandidateVerdict)
            → get_elem? s.mem.verdicts i ≡ some (some v)
            → v ≡ judge i)
evaluate-FirstWins plans jobs parallelism judge h fits reach over =
    let (some_worker, few, room) = worker_count_bounds plans jobs parallelism h in
    threads-FirstWins (worker_count plans jobs parallelism) plans
      (capacity_of (worker_count plans jobs parallelism)) judge some_worker (omega arith) reach over
