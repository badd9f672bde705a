-- ===== src/Scheduler/Worker.antt =====
-- The threads of `FrontierScheduler::evaluate`: one step is one atomic access, one channel operation
-- or one evaluation. `judge i` is the evaluator's verdict on the plan of rank `i`.
use reprocut.Prelude.{ℕ, ◌+◌, ◌%◌, ◌^◌, ◌≤◌, ◌<◌, ◌≡◌, ◌≢◌, List, [], ◌∷◌, ◌++◌, Option, none, some}
use reprocut.Prelude.{length, set, replicate, ◌⊎◌, Bool}
use reprocut.Prelude.Family.{replace_at}
use reprocut.Model.{CandidateVerdict, preserved}
use reprocut.Winner.{empty, ClaimPc, ClaimStep, entered, returned}

-- What the threads share: `next`, the slot of `lowest`, the channel and the verdict slots.
pub record Shared : Type 0 where
  pub next : ℕ
  pub lowest : ℕ
  pub channel : List (ℕ × CandidateVerdict)
  pub verdicts : List (Option CandidateVerdict)

-- Where a worker stands. A worker that has left its loop keeps the index that it fetched last.
pub data Pc : Type 0 where
  fetching : Pc
  checking : (index : ℕ) → Pc
  evaluating : (index : ℕ) → Pc
  claiming : ClaimPc → Pc
  sending : (index : ℕ) (verdict : CandidateVerdict) → Pc
  stopped : (index : ℕ) → Pc

module _ (plans capacity : ℕ) (judge : ℕ → CandidateVerdict) where
  -- One step of one worker. The channel has its receiver for as long as workers live, so that a
  -- send blocks while the channel is full and never fails.
  pub data Move (m : Shared) : Pc → Shared → Pc → Type 0 where
    fetch : Move m fetching (record m { next = (m.next + 1) % 2 ^ 64 }) (checking m.next)
    past_end : {i : ℕ} → plans ≤ i → Move m (checking i) m (stopped i)
    beaten :
        {i seen : ℕ}
        → i < plans
        → m.lowest ≤ seen
        → seen ≢ empty
        → seen < i
        → Move m (checking i) m (stopped i)
    run :
        {i seen : ℕ}
        → i < plans
        → m.lowest ≤ seen
        → (seen ≡ empty) ⊎ (i ≤ seen)
        → Move m (checking i) m (evaluating i)
    keep : {i : ℕ} → judge i ≡ preserved → Move m (evaluating i) m (claiming (entered i))
    drop : {i : ℕ} → judge i ≢ preserved → Move m (evaluating i) m (sending i (judge i))
    claim :
        {pc pc' : ClaimPc} {value : ℕ}
        → ClaimStep m.lowest pc value pc'
        → Move m (claiming pc) (record m { lowest = value }) (claiming pc')
    claimed :
        {i : ℕ} {changed : Bool} → Move m (claiming (returned i changed)) m (sending i preserved)
    send :
        {i : ℕ} {v : CandidateVerdict}
        → length m.channel < capacity
        → Move m (sending i v) (record m { channel = m.channel ++ (i, v) ∷ [] }) fetching

-- The workers and the receiving thread.
pub record System : Type 0 where
  pub mem : Shared
  pub pc : ℕ → Pc

-- One step of worker `w` of `workers`, or `receiver.recv()` with the write of its slot.
module _ (workers plans capacity : ℕ) (judge : ℕ → CandidateVerdict) where
  pub data Step (s : System) : System → Type 0 where
    work :
        (w : ℕ) {m : Shared} {p : Pc}
        → w < workers
        → Move plans capacity judge s.mem (s.pc w) m p
        → Step s (record { mem = m; pc = replace_at s.pc w p })
    receive :
        {i : ℕ} {v : CandidateVerdict} {rest : List (ℕ × CandidateVerdict)}
        → s.mem.channel ≡ (i, v) ∷ rest
        → Step s (record {
          mem = record s.mem { channel = rest; verdicts = set s.mem.verdicts i (some v) };
          pc = s.pc;
        })

  abbrev pub initial : System
  initial = record {
    mem = record { next = 0; lowest = empty; channel = []; verdicts = replicate plans none };
    pc = λ _. fetching;
  }

  pub data Reach : System → Type 0 where
    start : Reach initial
    later : {s t : System} → Reach s → Step s t → Reach t

  -- The scope ends when every worker has left its loop and the channel is drained.
  pub record IsOver (s : System) : Type 0 where
    pub left : (w : ℕ) → w < workers → (i : ℕ) × (s.pc w ≡ stopped i)
    pub drained : s.mem.channel ≡ []
