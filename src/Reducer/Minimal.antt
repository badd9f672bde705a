-- ===== src/Reducer/Minimal.antt =====
-- With an evaluator whose verdict depends on the candidate alone, the result is 1-minimal.
use reprocut.Prelude.{ℕ, zero, suc, ◌+◌, ◌≤◌, ◌<◌, min, ◌≡◌, ◌≢◌, refl, sym, ◌∙◌}
use reprocut.Prelude.{arith, true, false, List, [], ◌∷◌, map, length, get_elem?}
use reprocut.Prelude.{Option, some, none, get_elem?-map, length-map}
use mathlib.Core.Path.{subst, ap₂}
use mathlib.Core.Option.{some-injective}
use reprocut.Prelude.Words.{u64_max}
use reprocut.Model.{CandidateVerdict, preserved}
use reprocut.Reducer.{ReductionUnit, Candidate}
use reprocut.Reducer.{keeps_position, earliest_preserved, scan_preserved, ordered_frontier}
use reprocut.Reducer.Search.{Judge, each, Search}
use reprocut.Reducer.Frontier.{single, ordered_frontier-single}
use reprocut.Reducer.Candidates.{Reads, Reads-length, select}
use reprocut.Reducer.Fill.{cut}
use reprocut.Reducer.Phases.{LastRound}
use reprocut.Reducer.Rounds.{cuts, frontier_of}

-- The units without the one at a position.
abbrev pub erase_idx : List ReductionUnit → ℕ → List ReductionUnit
erase_idx [] i = []
erase_idx (u ∷ us) zero = us
erase_idx (u ∷ us) (suc i) = u ∷ erase_idx us i

abbrev Keeps : Type 0
Keeps = List ReductionUnit → CandidateVerdict

-- No unit can be removed alone.
abbrev pub IsMinimal : (List ReductionUnit → CandidateVerdict) → List ReductionUnit → Type 0
IsMinimal keeps us =
    (position : ℕ) → position < length us → keeps (erase_idx us position) ≢ preserved

-- The verdict depends on the candidate alone.
abbrev pub Decides {ℓ} : {S : Type ℓ} → Judge S → (List ReductionUnit → CandidateVerdict) → Type ℓ
Decides {S = S} judge keeps =
    (state : S) (candidate : List ReductionUnit) → (judge state candidate).0 ≡ keeps candidate

select-behind :
    (position shift : ℕ) (us : List ReductionUnit)
    → position < shift
    → select (keeps_position (single position)) shift us ≡ us
select-behind position shift [] h = refl
select-behind position shift (u ∷ us) h =
    let kept : keeps_position (single position) shift ≡ true = ground arith in
    rw (kept, select-behind position (shift + 1) us (omega arith))

select-erase_idx :
    (i shift position : ℕ) (us : List ReductionUnit)
    → position ≡ shift + i
    → select (keeps_position (single position)) shift us ≡ erase_idx us i
select-erase_idx i shift position [] e = refl
select-erase_idx zero shift position (u ∷ us) e =
    let out : keeps_position (single position) shift ≡ false = ground arith in
    rw (out, select-behind position (shift + 1) us (omega arith))
select-erase_idx (suc i) shift position (u ∷ us) e =
    let kept : keeps_position (single position) shift ≡ true = ground arith in
    rw (kept, select-erase_idx i (shift + 1) position us (omega arith))

-- The candidate of the complement of one position.
pub cut-erase_idx :
    (is : List ℕ) (us : List ReductionUnit) (position : ℕ)
    → (cut is us (single position)).units ≡ erase_idx us position
cut-erase_idx is us position = select-erase_idx position 0 position us (omega arith)

pub Reads-unique :
    (units : List ReductionUnit) (is : List ℕ) (us vs : List ReductionUnit)
    → Reads units is us
    → Reads units is vs
    → us ≡ vs
Reads-unique units [] [] [] r q = refl
Reads-unique units [] [] (v ∷ vs) r q = absurd q
Reads-unique units [] (u ∷ us) vs r q = absurd r
Reads-unique units (i ∷ is) [] vs r q = absurd r
Reads-unique units (i ∷ is) (u ∷ us) [] r q = absurd q
Reads-unique units (i ∷ is) (u ∷ us) (v ∷ vs) (e, r) (f, q) =
    ap₂ ◌∷◌ (some-injective u v (sym e ∙ f)) (Reads-unique units is us vs r q)

module _ {ℓ} {S : Type ℓ} (judge : Judge S) {keeps : Keeps} (decides : Decides judge keeps) where
  pub each-map :
      (state : S) (frontier : List (List ReductionUnit))
      → (each judge state frontier).0 ≡ map (λ c. some (keeps c)) frontier
  unfolding each
  each-map state [] = refl
  each-map state (c ∷ frontier) =
      ap₂ (λ (v : CandidateVerdict) (vs : List (Option CandidateVerdict)). some v ∷ vs)
        (decides state c) (each-map (judge state c).1 frontier)

scan-none-head :
    (n base : ℕ) (v : CandidateVerdict) (vs : List (Option CandidateVerdict))
    → scan_preserved (suc n) base (some v ∷ vs) ≡ none
    → (v ≢ preserved) × (scan_preserved n (base + 1) vs ≡ none)
unfolding scan_preserved
scan-none-head n base CandidateVerdict.preserved vs h = absurd (cc)
scan-none-head n base CandidateVerdict.rejected vs h = (λ q. cc, h)
scan-none-head n base CandidateVerdict.inconclusive vs h = (λ q. cc, h)

-- A scan that finds nothing has seen no preserved candidate.
scan-none :
    (keeps : Keeps) (n base : ℕ) (frontier : List (List ReductionUnit)) (i : ℕ)
    (c : List ReductionUnit)
    → length frontier ≤ n
    → scan_preserved n base (map (λ c. some (keeps c)) frontier) ≡ none
    → get_elem? frontier i ≡ some c
    → keeps c ≢ preserved
scan-none keeps n base [] i c enough nothing at = absurd (cc)
scan-none keeps zero base (d ∷ frontier) i c enough nothing at = absurd (omega arith)
scan-none keeps (suc n) base (d ∷ frontier) zero c enough nothing at =
    let (other, rest) =
      scan-none-head n base (keeps d) (map (λ c. some (keeps c)) frontier) nothing in
    subst (λ e. keeps e ≢ preserved) (some-injective d c at) other
scan-none keeps (suc n) base (d ∷ frontier) (suc i) c enough nothing at =
    let (other, rest) =
      scan-none-head n base (keeps d) (map (λ c. some (keeps c)) frontier) nothing in
    scan-none keeps n (base + 1) frontier i c (omega arith) rest at

pub earliest_preserved-none :
    (keeps : Keeps) (frontier : List (List ReductionUnit)) (n i : ℕ) (c : List ReductionUnit)
    → n ≡ length frontier
    → earliest_preserved (map (λ c. some (keeps c)) frontier) n ≡ none
    → get_elem? frontier i ≡ some c
    → keeps c ≢ preserved
unfolding earliest_preserved
earliest_preserved-none keeps frontier n i c all nothing at =
    scan-none keeps (min (length (map (λ c. some (keeps c)) frontier)) n) 0 frontier i c
      (omega (arith, length-map (λ c. some (keeps c)) frontier)) nothing at

-- The round that ended ddmin has tried to remove every unit alone.
module _ {ℓ} {S : Type ℓ} (judge : Judge S) {keeps : Keeps} (decides : Decides judge keeps)
    {units : List ReductionUnit} {s : Search S} (last : LastRound (each judge) units s)
    (fits : length s.active ≤ u64_max) where
  open last use {state, granularity, held, finest, nothing}

  abbrev frontier : List (List ReductionUnit)
  frontier = frontier_of (cuts s.active held granularity)

  pub LastRound-IsMinimal : IsMinimal keeps held
  LastRound-IsMinimal position lt =
      let size = Reads-length units s.active held last.reads in
      let (i, found) =
        ordered_frontier-single (length s.active) granularity position finest fits (omega arith) in
      let at_cut =
        get_elem?-map (λ (c : Candidate). c.units) (cuts s.active held granularity) i
          (get_elem?-map (cut s.active held) (ordered_frontier (length s.active) granularity) i
            found) in
      let quiet =
        subst (λ vs. earliest_preserved vs (length (cuts s.active held granularity)) ≡ none)
          (each-map judge decides state frontier) nothing in
      rw (← cut-erase_idx s.active held position) (
        earliest_preserved-none keeps frontier (length (cuts s.active held granularity)) i
          (cut s.active held (single position)).units
          (sym (length-map (λ (c : Candidate). c.units) (cuts s.active held granularity))) quiet
          at_cut)
