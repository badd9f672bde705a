-- ===== src/Reducer/Earliest.antt =====
-- `earliest_preserved` finds the first preserved slot that no open slot precedes.
use reprocut.Prelude.{ℕ, zero, suc, ◌+◌, ◌<◌, min, ◌≡◌, ◌≢◌, refl, ◌↔◌, ◌∙◌, sym, arith}
use reprocut.Prelude.{Option, none, some, List, [], ◌∷◌, length, get_elem?, get_elem?-bound}
use mathlib.Core.Option.{some-injective}
use mathlib.Core.Path.{subst}
use native.Mathlib.Nat.{add-zero}
use reprocut.Model.{CandidateVerdict, preserved}
use reprocut.Reducer.{scan_preserved, earliest_preserved}

abbrev Slots : Type 0
Slots = List (Option CandidateVerdict)

-- Slot `i` is preserved, and every earlier slot holds another verdict.
pub record IsEarliest (verdicts : List (Option CandidateVerdict)) (i : ℕ) : Type 0 where
  pub hit : get_elem? verdicts i ≡ some (some preserved)
  pub before :
      (j : ℕ)
      → j < i
      → (v : CandidateVerdict) × (get_elem? verdicts j ≡ some (some v)) × (v ≢ preserved)

IsEarliest-cons :
    {v : CandidateVerdict} {vs : Slots} {i : ℕ}
    → v ≢ preserved
    → IsEarliest vs i
    → IsEarliest (some v ∷ vs) (suc i)
IsEarliest-cons {v} {vs} {i} other e = record { hit = e.hit; before = before }
  where
    before :
        (j : ℕ)
        → j < suc i
        → (w : CandidateVerdict) × (get_elem? (some v ∷ vs) j ≡ some (some w)) × (w ≢ preserved)
    before zero h = (v, refl, other)
    before (suc j) h = e.before j (omega arith)

IsEarliest-tail :
    {v : CandidateVerdict} {vs : Slots} {i : ℕ} → IsEarliest (some v ∷ vs) (suc i) → IsEarliest vs i
IsEarliest-tail e = record { hit = e.hit; before = λ j h. e.before (suc j) (omega arith) }

-- What the scan finds at `base`, with `n` slots left.
scan_sound :
    (n base : ℕ) (vs : Slots) (w : ℕ)
    → scan_preserved n base vs ≡ some w
    → (i : ℕ) × (w ≡ base + i) × (i < n) × IsEarliest vs i
unfolding scan_preserved
scan_sound zero base vs w h = absurd (cc)
scan_sound (suc n) base [] w h = absurd (cc)
scan_sound (suc n) base (none ∷ vs) w h = absurd (cc)
scan_sound (suc n) base (some CandidateVerdict.preserved ∷ vs) w h = (
  zero,
  sym (some-injective base w h) ∙ sym (add-zero base),
  omega arith,
  record { hit = refl; before = λ j lt. absurd (omega arith) },
)
scan_sound (suc n) base (some CandidateVerdict.rejected ∷ vs) w h =
    let (i, e, lt, first) = scan_sound n (base + 1) vs w h in
    (suc i, omega arith, omega arith, IsEarliest-cons (λ q. cc) first)
scan_sound (suc n) base (some CandidateVerdict.inconclusive ∷ vs) w h =
    let (i, e, lt, first) = scan_sound n (base + 1) vs w h in
    (suc i, omega arith, omega arith, IsEarliest-cons (λ q. cc) first)

scan_complete :
    (n base : ℕ) (vs : Slots) (i w : ℕ)
    → i < n
    → w ≡ base + i
    → IsEarliest vs i
    → scan_preserved n base vs ≡ some w
unfolding scan_preserved
scan_complete zero base vs i w lt e first = absurd (omega arith)
scan_complete (suc n) base [] i w lt e first = absurd (cc first.hit)
scan_complete (suc n) base (none ∷ vs) zero w lt e first = absurd (cc first.hit)
scan_complete (suc n) base (none ∷ vs) (suc i) w lt e first =
    let (v, at_zero, other) = first.before zero (omega arith) in absurd (cc)
scan_complete (suc n) base (some CandidateVerdict.preserved ∷ vs) zero w lt e first = ground arith
scan_complete (suc n) base (some CandidateVerdict.preserved ∷ vs) (suc i) w lt e first =
    let (v, at_zero, other) = first.before zero (omega arith) in absurd (other (ground arith))
scan_complete (suc n) base (some CandidateVerdict.rejected ∷ vs) zero w lt e first =
    absurd (cc first.hit)
scan_complete (suc n) base (some CandidateVerdict.rejected ∷ vs) (suc i) w lt e first =
    scan_complete n (base + 1) vs i w (omega arith) (omega arith) (IsEarliest-tail first)
scan_complete (suc n) base (some CandidateVerdict.inconclusive ∷ vs) zero w lt e first =
    absurd (cc first.hit)
scan_complete (suc n) base (some CandidateVerdict.inconclusive ∷ vs) (suc i) w lt e first =
    scan_complete n (base + 1) vs i w (omega arith) (omega arith) (IsEarliest-tail first)

-- `earliest_preserved` answers a slot exactly when that slot lies in the frontier, is preserved, and
-- every earlier slot holds a terminal verdict that is not preserved. So later slots do not matter.
pub earliest_preserved_iff :
    (vs : List (Option CandidateVerdict)) (frontier_len i : ℕ)
    → (earliest_preserved vs frontier_len ≡ some i) ↔ ((i < frontier_len) × IsEarliest vs i)
unfolding earliest_preserved
earliest_preserved_iff vs n i = (
  λ h.
      let (k, e, lt, first) = scan_sound (min (length vs) n) 0 vs i h in
      let same : k ≡ i = omega arith in (omega arith, subst (IsEarliest vs) same first),
  λ (lt, first).
      scan_complete (min (length vs) n) 0 vs i i (omega (arith, get_elem?-bound vs i first.hit))
        (omega arith) first,
)
