-- ===== src/Reducer/Phases.antt =====
-- The three phases of the search end without a panic and keep the invariant.
use reprocut.Prelude.{ℕ, zero, suc, ◌+◌, ◌≤◌, ◌<◌, ◌≡◌, refl, ap, arith}
use reprocut.Prelude.{◌⊎◌, inl, inr, true, Bool-cases, ltb, ltb→lt, not-ltb→le, ◌==◌}
use reprocut.Prelude.{==→≢, List, [], ◌∷◌, length, All, none}
use mathlib.Core.List.{Sublistᴰ}
use reprocut.Prelude.Faults.{Outcome, ok, ◌>>=◌}
use reprocut.Prelude.Words.{u64_max, saturating_add}
use reprocut.Reducer.{ReductionUnit, FrontierPartition, Candidate, complement, is_ascending}
use reprocut.Reducer.{fill_without_ids, earliest_preserved}
use reprocut.Reducer.Search.{Evaluator, Search, done, again, run_groups, ddmin, sweep}
use reprocut.Reducer.Search.{Round, next_round}
use reprocut.Reducer.Candidates.{Reads, Reads-length}
use reprocut.Reducer.Candidates.{fill_partition_lem}
use reprocut.Reducer.Fill.{Fits, Group, cut, fill_without_ids-Group, complement-shorter}
use reprocut.Reducer.Invariant.{Inv, Sound, attempt_single-Attempt, measure}
use reprocut.Reducer.Rounds.{RoundEnds, ends, goes, cuts, frontier_of, ddmin_round-Ends, cut-Fits}

sublist-length : {xs ys : List ReductionUnit} → Sublistᴰ xs ys → length xs ≤ length ys
sublist-length Sublistᴰ.slnil = omega arith
sublist-length (Sublistᴰ.cons d) = omega (arith, sublist-length d)
sublist-length (Sublistᴰ.cons-cons e d) = omega (arith, sublist-length d)

-- The frontier that ended ddmin: at the finest granularity, and without a winner.
pub record LastRound {ℓ} {S : Type ℓ} (evaluate : Evaluator S) (units : List ReductionUnit)
    (s : Search S) : Type ℓ where
  pub state : S
  pub granularity : ℕ
  pub held : List ReductionUnit
  pub reads : Reads units s.active held
  pub finest : length s.active ≤ granularity
  pub nothing :
      earliest_preserved
        (evaluate state (frontier_of (cuts s.active held granularity))).0
        (length (cuts s.active held granularity))
      ≡ none

-- How ddmin ends.
abbrev pub Ends {ℓ κ} :
    {S : Type ℓ} (P : List ReductionUnit → Type κ)
    → Evaluator S
    → List ReductionUnit
    → Outcome (Search S)
    → Type (ℓ ⊔ κ)
Ends {S = S} P evaluate units r =
    (s : Search S) × (r ≡ ok s)
    × Inv P units s
    × ((length s.active < 2) ⊎ LastRound evaluate units s)

module _ {ℓ κ} {S : Type ℓ} {P : List ReductionUnit → Type κ} (evaluate : Evaluator S)
    {units : List ReductionUnit} (sound : Sound P evaluate) (fits : length units ≤ u64_max) where
  pub active-le : {s : Search S} → Inv P units s → length s.active ≤ length units
  active-le {s} inv =
      omega (arith, Reads-length units s.active inv.held inv.reads, sublist-length inv.sublist)

  -- The directory phase returns for groups whose identifiers ascend.
  pub run_groups-Ends :
      (groups : List (List ℕ)) {s : Search S}
      → All (λ ids. is_ascending ids ≡ true) groups
      → Inv P units s
      → (s' : Search S) × (run_groups evaluate units groups s ≡ ok s') × Inv P units s'
  unfolding run_groups
  run_groups-Ends [] {s} sorted inv = (s, refl, inv)
  run_groups-Ends (ids ∷ groups) {s} (asc, sorted) inv =
      elim (Bool-cases (length g.candidate.indices == length s.active)) [
        | inl same ↦
            let (s', e, inv') = run_groups-Ends groups sorted inv in
            (s', rw (g.returns, ◌>>=◌, same) e, inv')
        | inr fewer ↦
            let shorter : length g.candidate.units < length inv.held = omega (
              arith,
              ==→≢ (length g.candidate.indices) (length s.active) fewer,
              sublist-length g.fits.sublist,
              Reads-length units g.candidate.indices g.candidate.units g.fits.reads,
              Reads-length units s.active inv.held inv.reads,
            ) in
            let attempt = attempt_single-Attempt evaluate sound inv g.fits shorter in
            let (s', e, inv') = run_groups-Ends groups sorted attempt.inv in
            (s', rw (g.returns, ◌>>=◌, fewer) e, inv')
      ]
    where
      g : Group units inv.held ids (fill_without_ids units s.active ids)
      g = fill_without_ids-Group units ids s.active inv.held asc inv.reads

  RoundEnds-last :
      {granularity : ℕ} {s s' : Search S} (inv : Inv P units s)
      → s'.active ≡ s.active
      → length s.active ≤ granularity
      → earliest_preserved
          (evaluate s.state (frontier_of (cuts s.active inv.held granularity))).0
          (length (cuts s.active inv.held granularity))
        ≡ none
      → LastRound evaluate units s'
  RoundEnds-last {granularity} {s} inv same finest nothing = record {
    state = s.state;
    granularity = granularity;
    held = inv.held;
    reads = rw same inv.reads;
    finest = rw same finest;
    nothing = rw same nothing;
  }

  RoundEnds-next :
      (loop : ℕ → Search S → Outcome (Search S)) {granularity : ℕ} {s : Search S} (r : Round S)
      → RoundEnds P evaluate units granularity s r
      → ((g : ℕ) (s' : Search S)
          → Inv P units s'
          → 2 ≤ g
          → measure (length s'.active) g < measure (length s.active) granularity
          → Ends P evaluate units (loop g s'))
      → Ends P evaluate units (next_round loop r)
  RoundEnds-next loop (done s'') (ends s' inv inv' same finest nothing) ih =
      (s', refl, inv', inr (RoundEnds-last inv same finest nothing))
  RoundEnds-next loop (again g' s'') (goes s' g inv' fine less) ih = ih g s' inv' fine less

  -- With fuel above the measure, ddmin ends: fewer than two units are left, or its last round had
  -- no winner.
  pub ddmin-Ends :
      (fuel granularity : ℕ) {s : Search S}
      → Inv P units s
      → 2 ≤ granularity
      → measure (length s.active) granularity < fuel
      → (s' : Search S) × (ddmin evaluate units fuel granularity s ≡ ok s')
        × Inv P units s'
        × ((length s'.active < 2) ⊎ LastRound evaluate units s')
  unfolding ddmin
  ddmin-Ends zero granularity inv fine enough = absurd (omega arith)
  ddmin-Ends (suc fuel) granularity {s} inv fine enough =
      elim (Bool-cases (ltb (length s.active) 2)) [
        | inl few ↦ (s, rw few, inv, inl (ltb→lt (length s.active) 2 few))
        | inr many ↦
            let (r, e, post) =
              ddmin_round-Ends evaluate sound inv granularity (not-ltb→le (length s.active) 2 many)
                (omega (arith, active-le inv)) fine in
            let (s', e', inv', last) =
              RoundEnds-next (ddmin evaluate units fuel) r post
                (λ g s'' inv'' fine' less. ddmin-Ends fuel g inv'' fine' (omega arith)) in
            (s', rw (many, e, ◌>>=◌) e', inv', last)
      ]

  -- The sweep ends: each round removes a unit or passes it by.
  pub sweep-Ends :
      (fuel position : ℕ) {s : Search S}
      → Inv P units s
      → length s.active ≤ fuel + position
      → (s' : Search S) × (sweep evaluate units fuel position s ≡ ok s') × Inv P units s'
  unfolding sweep
  sweep-Ends zero position {s} inv enough = (s, ground arith, inv)
  sweep-Ends (suc fuel) position {s} inv enough =
      elim (Bool-cases (ltb position (length s.active))) [
        | inl more ↦
            let lt = ltb→lt position (length s.active) more in
            let attempt = attempt_single-Attempt evaluate sound inv (read lt) (shorter lt) in
            let filled = fill_partition_lem units plan 0 s.active inv.held inv.reads in
            let count = Reads-length units c.indices c.units (read lt).reads in
            elim attempt.active [
              | inl (won, now) ↦
                  let (s', e, inv') = sweep-Ends fuel position attempt.inv (
                    omega (
                      arith,
                      ap (λ (l : List ℕ). length l) now,
                      shorter lt,
                      Reads-length units s.active inv.held inv.reads,
                    )) in
                  (s', rw (more, filled, ◌>>=◌, won) e, inv')
              | inr (lost, now) ↦
                  let (s', e, inv') =
                    sweep-Ends fuel (position + 1) attempt.inv
                      (omega (arith, ap (λ (l : List ℕ). length l) now)) in
                  (s', rw (more, filled, ◌>>=◌, lost) e, inv')
            ]
        | inr stop ↦ (s, rw stop, inv)
      ]
    where
      plan : FrontierPartition
      plan = record { class = complement; start = position; end = saturating_add position 1 }

      c : Candidate
      c = cut s.active inv.held plan

      read : position < length s.active → Fits units inv.held c
      read lt = cut-Fits s.active inv.held plan inv.reads

      shorter : position < length s.active → length c.units < length inv.held
      shorter lt =
          complement-shorter inv.held plan refl (omega (arith, active-le inv))
            (omega (arith, Reads-length units s.active inv.held inv.reads))
