-- ===== src/Scheduler/Progress.antt =====
-- The threads never block for good: some step is possible until all of them are over.
use reprocut.Prelude.{ℕ, zero, suc, ◌<◌, ◌≡◌, ◌≢◌, refl, ◌⊎◌, inl, inr, arith, Bool, true, false}
use reprocut.Prelude.{◌==◌, List, [], ◌∷◌, Bool-cases, ==→≡, ==→≢}
use native.Mathlib.Decide.{dec_lt}
use reprocut.Model.{CandidateVerdict, preserved, rejected, inconclusive}
use reprocut.Winner.{
  empty, ClaimPc, ClaimStep, entered, comparing, returned, reserved, loaded, lost,
}
use reprocut.Winner.{exchanged, failed}
use reprocut.Scheduler.Worker.{
  Shared, Pc, fetching, checking, evaluating, claiming, sending, stopped,
}
use reprocut.Scheduler.Worker.{Move, fetch, past_end, beaten, run, keep, drop, claim, claimed, send}
use reprocut.Scheduler.Outcome.{worker_count, capacity_of}
use reprocut.Prelude.{Option}
use reprocut.Scheduler.Worker.{System, Step, work, receive, IsOver}

preserved_or : (v : CandidateVerdict) → (v ≡ preserved) ⊎ (v ≢ preserved)
preserved_or preserved = inl refl
preserved_or rejected = inr (λ e. cc)
preserved_or inconclusive = inr (λ e. cc)

claim-step :
    (value : ℕ) (pc : ClaimPc)
    → ((c : ℕ) × (changed : Bool) × (pc ≡ returned c changed))
      ⊎ ((value' : ℕ) × (pc' : ClaimPc) × ClaimStep value pc value' pc')
claim-step value (entered c) = elim (Bool-cases (c == empty)) [
  | inl same ↦ inr (value, returned c false, reserved (==→≡ c empty same))
  | inr other ↦ inr (value, comparing c value, loaded (==→≢ c empty other) (omega arith))
]
claim-step value (comparing c current) = elim (dec_lt c current) [
  | no over ↦ inr (value, returned c false, lost (omega arith))
  | yes less ↦ elim (Bool-cases (value == current)) [
    | inl same ↦ inr (c, returned c true, exchanged less (==→≡ value current same))
    | inr other ↦ inr (value, comparing c value, failed less (omega arith))
  ]
]
claim-step value (returned c changed) = inl (c, changed, refl)

module _ (plans capacity : ℕ) (judge : ℕ → CandidateVerdict) where
  abbrev CanMove : Shared → Pc → Type 0
  CanMove m p = (m' : Shared) × (p' : Pc) × Move plans capacity judge m p m' p'

  check-move : (m : Shared) (i : ℕ) → CanMove m (checking i)
  check-move m i = elim (dec_lt i plans) [
    | no over ↦ (m, stopped i, past_end (omega arith))
    | yes lt ↦ elim (Bool-cases (m.lowest == empty)) [
      | inl none_yet ↦ (m, evaluating i, run lt (omega arith) (inl (==→≡ m.lowest empty none_yet)))
      | inr won ↦ elim (dec_lt m.lowest i) [
        | yes less ↦ (m, stopped i, beaten lt (omega arith) (==→≢ m.lowest empty won) less)
        | no more ↦ (m, evaluating i, run {seen = m.lowest} lt (omega arith) (inr (omega arith)))
      ]
    ]
  ]

  -- With an empty channel a worker in its loop has a move.
  pc-move :
      (m : Shared)
      → 0 < capacity
      → m.channel ≡ []
      → (p : Pc) → ((i : ℕ) × (p ≡ stopped i)) ⊎ CanMove m p
  pc-move m room e fetching = inr (_, _, fetch)
  pc-move m room e (checking i) = inr (check-move m i)
  pc-move m room e (evaluating i) = elim (preserved_or (judge i)) [
    | inl hit ↦ inr (_, _, keep hit)
    | inr other ↦ inr (_, _, drop other)
  ]
  pc-move m room e (claiming c) = elim (claim-step m.lowest c) [
    | inl (i, changed, same) ↦ inr (m, sending i preserved, rw same claimed)
    | inr (value, c', st) ↦ inr (_, _, claim st)
  ]
  pc-move m room e (sending i v) = inr (_, _, send (rw e (omega arith)))
  pc-move m room e (stopped i) = inl (i, refl)

  all_stopped :
      (pc : ℕ → Pc) (m : Shared)
      → 0 < capacity
      → m.channel ≡ []
      → (n : ℕ)
      → ((w : ℕ) → w < n → (i : ℕ) × (pc w ≡ stopped i)) ⊎ ((w : ℕ) × (w < n) × CanMove m (pc w))
  all_stopped pc m room e zero = inl (λ w lt. absurd (omega arith))
  all_stopped pc m room e (suc n) = elim (pc-move m room e (pc n)) [
    | inr moves ↦ inr (n, omega arith, moves)
    | inl last ↦ elim (all_stopped pc m room e n) [
      | inr (w, lt, moves) ↦ inr (w, omega arith, moves)
      | inl rest ↦ inl (λ w lt. elim (Bool-cases (w == n)) [
        | inl same ↦ rw (==→≡ w n same) last
        | inr other ↦ rest w (ground arith)
      ])
    ]
  ]

threads-progress :
    (workers plans capacity : ℕ) (judge : ℕ → CandidateVerdict) (s : System)
    → 0 < capacity
    → IsOver workers plans capacity judge s ⊎ ((t : System) × Step workers plans capacity judge s t)
threads-progress workers plans capacity judge s room = go s.mem.channel refl
  where
    go :
        (channel : List (ℕ × CandidateVerdict))
        → s.mem.channel ≡ channel
        → IsOver workers plans capacity judge s
          ⊎ ((t : System) × Step workers plans capacity judge s t)
    go ((i, v) ∷ rest) e = inr (_, receive e)
    go [] e = elim (all_stopped plans capacity judge s.pc s.mem room e workers) [
      | inl left ↦ inl (record { left = left; drained = e })
      | inr (w, lt, (m, p, move)) ↦ inr (_, work w lt move)
    ]

-- Every state of the threads is over or has a next step: no worker blocks for good on a full
-- channel, and the receiver never waits for a message that cannot come.
pub evaluate-progress :
    (plans jobs : ℕ) (parallelism : Option ℕ) (judge : ℕ → CandidateVerdict) (s : System)
    → let workers = worker_count plans jobs parallelism in
      IsOver workers plans (capacity_of workers) judge s
      ⊎ ((t : System) × Step workers plans (capacity_of workers) judge s t)
evaluate-progress plans jobs parallelism judge s =
    threads-progress (worker_count plans jobs parallelism) plans
      (capacity_of (worker_count plans jobs parallelism)) judge s (omega arith)
