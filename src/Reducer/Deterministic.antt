-- ===== src/Reducer/Deterministic.antt =====
-- The sweep behind a 1-minimal universe, and the theorem on `reduce_hierarchical`.
use reprocut.Prelude.{
  ℕ, zero, suc, ◌+◌, ◌≤◌, ◌<◌, ◌≡◌, ◌≢◌, refl, sym, ◌∙◌, ap, ◌⊎◌, inl, inr, arith,
}
use reprocut.Prelude.{true, false, Bool-cases, ltb, ltb→lt, List, [], ◌∷◌, length}
use reprocut.Prelude.{get_elem?, some, All, get_elem?-map}
use mathlib.Core.Path.{subst}
use mathlib.Core.Option.{some-injective}
use reprocut.Prelude.Faults.{ok, ◌>>=◌}
use reprocut.Prelude.Words.{u64_max, saturating_add}
use reprocut.Model.{CandidateVerdict, preserved}
use reprocut.Reducer.{ReductionUnit, ReductionResult, Candidate, complement}
use reprocut.Reducer.{earliest_preserved, scan_preserved, is_ascending}
use reprocut.Reducer.{fill_partition}
use reprocut.Reducer.Search.{Judge, each, Search, is_first, attempt_single, call, accept}
use reprocut.Reducer.Search.{sweep, reduce_hierarchical}
use reprocut.Reducer.Frontier.{single}
use reprocut.Reducer.Candidates.{Reads, Reads-length, fill_partition_lem}
use reprocut.Reducer.Fill.{cut}
use reprocut.Reducer.Invariant.{Sound}
use reprocut.Reducer.Phases.{LastRound, active-le}
use reprocut.Reducer.Result.{run, returned-eq}
use reprocut.Reducer.Minimal.{IsMinimal, Decides, cut-erase_idx, Reads-unique, each-map}
use reprocut.Reducer.Minimal.{LastRound-IsMinimal}

abbrev Keeps : Type 0
Keeps = List ReductionUnit → CandidateVerdict

is_preserved-cases : (v : CandidateVerdict) → (v ≡ preserved) ⊎ (v ≢ preserved)
is_preserved-cases CandidateVerdict.preserved = inl refl
is_preserved-cases CandidateVerdict.rejected = inr (λ q. cc)
is_preserved-cases CandidateVerdict.inconclusive = inr (λ q. cc)

slot-lost :
    (v : CandidateVerdict) → v ≢ preserved → is_first (earliest_preserved (some v ∷ []) 1) ≡ false
unfolding earliest_preserved scan_preserved
slot-lost CandidateVerdict.preserved h = absurd (h refl)
slot-lost CandidateVerdict.rejected h = refl
slot-lost CandidateVerdict.inconclusive h = refl

module _ {ℓ} {S : Type ℓ} (judge : Judge S) {keeps : Keeps} (decides : Decides judge keeps)
    (c : Candidate) (s : Search S) where
  attempt_single-lost :
      keeps c.units ≢ preserved
      → attempt_single (each judge) c s ≡ (false, (call (each judge) (c.units ∷ []) s).1)
  unfolding attempt_single each
  attempt_single-lost other =
      rw (slot-lost (judge s.state c.units).0 (rw (decides s.state c.units) other))

  attempt_single-won :
      keeps c.units ≡ preserved
      → attempt_single (each judge) c s ≡ (true, accept c (call (each judge) (c.units ∷ []) s).1)
  unfolding attempt_single each earliest_preserved scan_preserved
  attempt_single-won same = rw (decides s.state c.units ∙ same)

module _ {ℓ} {S : Type ℓ} (judge : Judge S) {keeps : Keeps} (decides : Decides judge keeps)
    (units : List ReductionUnit) where
  -- The sweep's plan, whose end saturates.
  fill_single :
      (position : ℕ) (s : Search S) (held : List ReductionUnit)
      → Reads units s.active held
      → position < u64_max
      → fill_partition units
          (record { class = complement; start = position; end = saturating_add position 1 })
          0
          s.active
        ≡ ok (cut s.active held (single position))
  fill_single position s held r small =
      let end : saturating_add position 1 ≡ position + 1 = omega arith in
      rw end (fill_partition_lem units (single position) 0 s.active held r)

  -- Nothing is removed from a universe that is 1-minimal already.
  sweep-stays :
      (fuel position : ℕ) (s : Search S) (held : List ReductionUnit)
      → Reads units s.active held
      → length s.active ≤ u64_max
      → IsMinimal keeps held
      → length s.active ≤ fuel + position
      → (s' : Search S) × (sweep (each judge) units fuel position s ≡ ok s')
        × (s'.active ≡ s.active)
  unfolding sweep
  sweep-stays zero position s held r small minimal enough = (s, ground arith, refl)
  sweep-stays (suc fuel) position s held r small minimal enough =
      elim (Bool-cases (ltb position (length s.active))) [
        | inl more ↦
            let lt = ltb→lt position (length s.active) more in
            let filled = fill_single position s held r (omega arith) in
            let lost = attempt_single-lost judge decides (cut s.active held (single position)) s (
              rw (cut-erase_idx s.active held position)
                (minimal position (omega (arith, Reads-length units s.active held r)))) in
            let (s', e, same) =
              sweep-stays fuel (position + 1)
                (call (each judge) ((cut s.active held (single position)).units ∷ []) s).1 held r
                small minimal (omega arith) in
            (s', rw (more, filled, ◌>>=◌, lost) e, same)
        | inr stop ↦ (s, rw stop, refl)
      ]

  IsMinimal-singleton : (u : ReductionUnit) → keeps [] ≢ preserved → IsMinimal keeps (u ∷ [])
  IsMinimal-singleton u lost zero lt = lost
  IsMinimal-singleton u lost (suc position) lt = absurd (omega arith)

  -- How the sweep leaves a universe.
  abbrev Swept : Search S → Type ℓ
  Swept s =
      (s' : Search S) × (held' : List ReductionUnit) × (sweep (each judge) units (length s.active) 0
          s
        ≡ ok s')
      × Reads units s'.active held'
      × IsMinimal keeps held'

  sweep-one :
      (i : ℕ) (u : ReductionUnit) (attempts : ℕ) (sizes : List ℕ) (state : S)
      → Reads units (i ∷ []) (u ∷ [])
      → Swept
          (record { active = i ∷ []; attempts = attempts; accepted_sizes = sizes; state = state })
  unfolding sweep
  sweep-one i u attempts sizes state r = elim (is_preserved-cases (keeps [])) [
    | inl won ↦ (
      accept empty (call (each judge) ([] ∷ []) s).1,
      [],
      rw (
        fill_single 0 s (u ∷ []) r (omega arith),
        ◌>>=◌,
        attempt_single-won judge decides empty s won,
      ),
      tt,
      λ position lt. absurd (omega arith),
    )
    | inr lost ↦ (
      (call (each judge) ([] ∷ []) s).1,
      u ∷ [],
      rw (
        fill_single 0 s (u ∷ []) r (omega arith),
        ◌>>=◌,
        attempt_single-lost judge decides empty s lost,
      ),
      r,
      IsMinimal-singleton u lost,
    )
  ]
    where
      s : Search S
      s = record { active = i ∷ []; attempts = attempts; accepted_sizes = sizes; state = state }

      empty : Candidate
      empty = record { indices = []; units = [] }

  -- With at most one unit left, the sweep itself tries every removal.
  sweep-small :
      (active : List ℕ) (attempts : ℕ) (sizes : List ℕ) (state : S) (held : List ReductionUnit)
      → Reads units active held
      → length active < 2
      → Swept
          (record { active = active; attempts = attempts; accepted_sizes = sizes; state = state })
  unfolding sweep
  sweep-small [] attempts sizes state [] r few = (
    record { active = []; attempts = attempts; accepted_sizes = sizes; state = state },
    [],
    refl,
    tt,
    λ position lt. absurd (omega arith),
  )
  sweep-small [] attempts sizes state (u ∷ us) r few = absurd r
  sweep-small (i ∷ []) attempts sizes state [] r few = absurd r
  sweep-small (i ∷ []) attempts sizes state (u ∷ []) r few = sweep-one i u attempts sizes state r
  sweep-small (i ∷ []) attempts sizes state (u ∷ v ∷ us) r few = absurd r.1
  sweep-small (i ∷ j ∷ active) attempts sizes state held r few = absurd (omega arith)

  sweep-Swept :
      (s : Search S) (held : List ReductionUnit)
      → Reads units s.active held
      → length s.active ≤ u64_max
      → (length s.active < 2) ⊎ LastRound (each judge) units s
      → Swept s
  sweep-Swept s held r small (inl few) =
      sweep-small s.active s.attempts s.accepted_sizes s.state held r few
  sweep-Swept s held r small (inr last) =
      let (s', e, same) =
        sweep-stays (length s.active) 0 s last.held last.reads small
          (LastRound-IsMinimal judge decides last small) (omega arith) in
      (s', last.held, e, rw same last.reads, LastRound-IsMinimal judge decides last small)

  -- Preserved, or never reduced.
  abbrev pub IsKept : List ReductionUnit → Type 0
  IsKept us = (us ≡ units) ⊎ (keeps us ≡ preserved)

  each-Sound : Sound IsKept (each judge)
  each-Sound state frontier i c hit at = inr (
      some-injective (keeps c) preserved (
        some-injective (some (keeps c)) (some preserved) (
          sym (get_elem?-map (λ c. some (keeps c)) frontier i at)
          ∙ sym (ap (λ vs. get_elem? vs i) (each-map judge decides state frontier))
          ∙ hit)))

ok-injective {ℓ} : {A : Type ℓ} {a b : A} → ok a ≡ ok b → a ≡ b
ok-injective h = cc

-- When the verdict depends on the candidate alone, the project has a machine size and the
-- identifiers of each directory group ascend, `reduce_hierarchical` returns; the units that it keeps
-- are the whole project or a preserved candidate, and removing any one of them alone is not
-- preserved.
pub reduce_hierarchical-IsMinimal {ℓ} :
    {S : Type ℓ} (judge : Judge S) {keeps : List ReductionUnit → CandidateVerdict}
    (units : List ReductionUnit) (groups : List (List ℕ)) (state : S)
    → Decides judge keeps
    → length units ≤ u64_max
    → All (λ ids. is_ascending ids ≡ true) groups
    → (result : ReductionResult) × (reduce_hierarchical judge units groups state ≡ ok result)
      × ((result.kept ≡ units) ⊎ (keeps result.kept ≡ preserved))
      × IsMinimal keeps result.kept
unfolding reduce_hierarchical
reduce_hierarchical-IsMinimal judge {keeps} units groups state decides fits sorted =
    let sound = each-Sound judge decides units in
    let r =
      run (λ us. (us ≡ units) ⊎ (keeps us ≡ preserved)) (each judge) units groups state sound
        (inl refl) fits sorted in
    let (s', held', e, reads', minimal) =
      sweep-Swept judge decides units r.minimal r.minimal_inv.held r.minimal_inv.reads
        (omega (arith, active-le (each judge) sound fits r.minimal_inv)) r.last in
    let same : s' ≡ r.swept = ok-injective (sym e ∙ r.sweep_end) in
    let held : held' ≡ r.swept_inv.held =
      Reads-unique units r.swept.active held' r.swept_inv.held
        (subst (λ (s : Search _). Reads units s.active held') same reads') r.swept_inv.reads in
    (
      record {
        kept = r.swept_inv.held;
        attempts = r.swept.attempts;
        accepted_sizes = r.swept.accepted_sizes;
      },
      returned-eq (λ us. (us ≡ units) ⊎ (keeps us ≡ preserved)) (each judge) units groups state
          sound (inl refl) fits sorted r,
      r.swept_inv.good,
      subst (IsMinimal keeps) held minimal,
    )
