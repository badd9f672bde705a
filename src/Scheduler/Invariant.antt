-- ===== src/Scheduler/Invariant.antt =====
-- What every step of the scheduler keeps: each fetched index is in a worker's hands, on its way to
-- its slot, recorded there, behind the winner, or past the end.
use reprocut.Prelude.{ℕ, ◌+◌, ◌≤◌, ◌<◌, ◌≡◌, refl, ◌⊎◌, inl, inr}
use reprocut.Prelude.{arith, Bool, false, leb, if◌then◌else◌, List, [], ◌∷◌, ◌++◌}
use reprocut.Prelude.{Option, none, some, All}
use reprocut.Model.{CandidateVerdict, preserved}
use reprocut.Winner.{empty, Knows, candidate_of}
use reprocut.Winner.{Knows-mono}
use reprocut.Scheduler.Worker.{
  Shared, Pc, fetching, checking, evaluating, claiming, sending, stopped,
}

-- The index that a worker still has to bring to its slot.
abbrev pub held : Pc → Option ℕ
held fetching = none
held (checking i) = some i
held (evaluating i) = some i
held (claiming c) = some (candidate_of c)
held (sending i _) = some i
held (stopped i) = none

abbrev pub InChannel : ℕ → List (ℕ × CandidateVerdict) → Type 0
InChannel i [] = ⊥
InChannel i ((j, v) ∷ rest) = (i ≡ j) ⊎ InChannel i rest

module _ (plans : ℕ) (judge : ℕ → CandidateVerdict) where
  -- A verdict that a worker has made up its mind on, with the slot claimed if it is preserved.
  abbrev pub IsPosted : ℕ → ℕ × CandidateVerdict → Type 0
  IsPosted lowest (i, v) = (i < plans) × (v ≡ judge i) × (judge i ≡ preserved → lowest ≤ i)

  -- What the place of a worker says about `next` and the slot.
  abbrev pub At : ℕ → ℕ → Pc → Type 0
  At next lowest fetching = Unit
  At next lowest (checking i) = i < next
  At next lowest (evaluating i) = (i < next) × (i < plans)
  At next lowest (claiming c) =
      (candidate_of c < plans) × (judge (candidate_of c) ≡ preserved) × Knows lowest c
  At next lowest (sending i v) = IsPosted lowest (i, v)
  At next lowest (stopped i) = (i < next) × ((plans ≤ i) ⊎ (lowest < i))

  abbrev pub IsSlot : ℕ → Type 0
  IsSlot value = (value ≡ empty) ⊎ (value < plans) × (judge value ≡ preserved)

  -- No worker needs the index any more.
  abbrev pub IsSettled : Shared → ℕ → Type 0
  IsSettled m i = (plans ≤ i) ⊎ ((m.lowest < i) ⊎ InChannel i m.channel)

  -- Whether a worker sits on an index past the end.
  abbrev pub is_beyond : Pc → Bool
  is_beyond (checking i) = leb plans i
  is_beyond (stopped i) = leb plans i
  is_beyond _ = false

  IsPosted-mono :
      {l l' : ℕ} (entry : ℕ × CandidateVerdict) → l' ≤ l → IsPosted l entry → IsPosted l' entry
  IsPosted-mono (i, v) le (lt, same, slot) = (lt, same, λ p. ground (arith, slot p))

  pub At-mono : {n n' l l' : ℕ} (p : Pc) → n ≤ n' → l' ≤ l → At n l p → At n' l' p
  At-mono fetching n l at = tt
  At-mono (checking i) n l at = omega arith
  At-mono (evaluating i) n l at = omega arith
  At-mono (claiming c) n l (lt, p, k) = (lt, p, Knows-mono c l k)
  At-mono (sending i v) n l at = IsPosted-mono (i, v) l at
  At-mono (stopped i) n l at = ground arith

  pub IsPosted-All :
      {l l' : ℕ} (channel : List (ℕ × CandidateVerdict))
      → l' ≤ l
      → All (IsPosted l) channel
      → All (IsPosted l') channel
  IsPosted-All [] le a = tt
  IsPosted-All (e ∷ channel) le (p, a) = (IsPosted-mono e le p, IsPosted-All channel le a)

  -- One worker's move, seen from all the others.
  pub record Moved (m : Shared) (p : Pc) (m' : Shared) (p' : Pc) : Type 0 where
    pub next : m.next ≤ m'.next
    pub lowest : m'.lowest ≤ m.lowest
    pub slots : m'.verdicts ≡ m.verdicts
    pub slot : IsSlot m'.lowest
    pub at : At m'.next m'.lowest p'
    pub posted : All (IsPosted m'.lowest) m'.channel
    pub kept : (i : ℕ) → InChannel i m.channel → InChannel i m'.channel
    pub handed : (i : ℕ) → held p ≡ some i → (held p' ≡ some i) ⊎ IsSettled m' i
    pub fetched : (i : ℕ) → i < m'.next → (i < m.next) ⊎ (held p' ≡ some i)
    pub count :
        (m'.next + (if is_beyond p then 1 else 0) ≤ m.next + (if is_beyond p' then 1 else 0))
        ⊎ (m'.next ≤ plans) × ((is_beyond p ≡ false) × (is_beyond p' ≡ false))

pub InChannel-last :
    (channel : List (ℕ × CandidateVerdict)) (i : ℕ) (v : CandidateVerdict)
    → InChannel i (channel ++ (i, v) ∷ [])
InChannel-last [] i v = inl refl
InChannel-last (e ∷ channel) i v = inr (InChannel-last channel i v)

pub InChannel-append :
    (channel : List (ℕ × CandidateVerdict)) (i j : ℕ) (v : CandidateVerdict)
    → InChannel i channel
    → InChannel i (channel ++ (j, v) ∷ [])
InChannel-append [] i j v h = absurd h
InChannel-append (e ∷ channel) i j v (inl h) = inl h
InChannel-append (e ∷ channel) i j v (inr h) = inr (InChannel-append channel i j v h)

module _ (plans capacity : ℕ) (judge : ℕ → CandidateVerdict) (fits : plans < empty) where
  -- The parts of `Moved` for a move that leaves the channel and `next` alone.
  pub quiet :
      {m m' : Shared} {p p' : Pc}
      → All (IsPosted plans judge m.lowest) m.channel
      → m'.next ≡ m.next
      → m'.channel ≡ m.channel
      → m'.verdicts ≡ m.verdicts
      → m'.lowest ≤ m.lowest
      → IsSlot plans judge m'.lowest
      → At plans judge m'.next m'.lowest p'
      → ((i : ℕ) → held p ≡ some i → (held p' ≡ some i) ⊎ IsSettled plans judge m' i)
      → is_beyond plans judge p' ≡ is_beyond plans judge p
      → Moved plans judge m p m' p'
  quiet {m} {m'} {p} {p'} posted n c v l slot at handed beyond = record {
    next = omega arith;
    lowest = l;
    slots = v;
    slot = slot;
    at = at;
    posted = rw c (IsPosted-All plans judge m.channel l posted);
    kept = λ i h. rw c h;
    handed = handed;
    fetched = λ i lt. inl (omega arith);
    count = inl (rw beyond (omega arith));
  }
