-- ===== src/Scheduler/Safety.antt =====
-- The invariant of all reachable states.
use reprocut.Prelude.{ℕ, zero, suc, ◌+◌, ◌^◌, ◌≤◌, ◌<◌, ◌≡◌, ◌≢◌, refl, sym, ◌∙◌, ap, ◌⊎◌, inl, inr}
use reprocut.Prelude.{arith, false, ◌==◌, List, ◌∷◌, Bool-cases}
use reprocut.Prelude.{Option, none, some, length, set, get_elem?, All, replicate, length-replicate}
use reprocut.Prelude.{length-set, get_elem?-set_self, get_elem?-set_ne, ==→≡, ==→≢}
use mathlib.Core.Option.{some-injective}
use mathlib.Core.Path.{subst}
use reprocut.Prelude.Family.{replace_at, replace_at_self, marked, marked_change, marked_le}
use reprocut.Model.{CandidateVerdict, preserved}
use reprocut.Winner.{empty}
use reprocut.Scheduler.Worker.{Shared, Pc, System, Step, Reach, work, receive, start}
use reprocut.Scheduler.Worker.{later, initial}
use reprocut.Scheduler.Invariant.{held, InChannel, IsPosted, At, IsSlot, is_beyond, Moved, At-mono}
use reprocut.Scheduler.Invariant.{IsSettled}
use reprocut.Scheduler.Moves.{Move-Moved}

module _ (workers plans : ℕ) (judge : ℕ → CandidateVerdict) where
  -- A recorded verdict is the evaluator's, and a preserved one has claimed the slot.
  abbrev pub IsRecorded : Shared → ℕ → CandidateVerdict → Type 0
  IsRecorded m i v = (v ≡ judge i) × (judge i ≡ preserved → m.lowest ≤ i)

  abbrev pub IsCovered : System → ℕ → Type 0
  IsCovered s i =
      IsSettled plans judge s.mem i
      ⊎ ((get_elem? s.mem.verdicts i ≡ some (some (judge i)))
          ⊎ ((w : ℕ) × (w < workers) × (held (s.pc w) ≡ some i)))

  pub record Inv (s : System) : Type 0 where
    pub count : s.mem.next ≤ plans + marked (λ w. is_beyond plans judge (s.pc w)) workers
    pub slots : length s.mem.verdicts ≡ plans
    pub slot : IsSlot plans judge s.mem.lowest
    pub at : (w : ℕ) → At plans judge s.mem.next s.mem.lowest (s.pc w)
    pub posted : All (IsPosted plans judge s.mem.lowest) s.mem.channel
    pub recorded :
        (i : ℕ) (v : CandidateVerdict)
        → get_elem? s.mem.verdicts i ≡ some (some v)
        → IsRecorded s.mem i v
    pub covered : (i : ℕ) → i < s.mem.next → IsCovered s i

  get_elem?-replicate-none :
      (n i : ℕ) (v : CandidateVerdict) → get_elem? (replicate n none) i ≢ some (some v)
  get_elem?-replicate-none zero i v e = cc
  get_elem?-replicate-none (suc n) zero v e = cc (some-injective none (some v) e)
  get_elem?-replicate-none (suc n) (suc i) v e = get_elem?-replicate-none n i v e

  pub Inv-initial : (capacity : ℕ) → Inv (initial workers plans capacity judge)
  Inv-initial capacity = record {
    count = omega arith;
    slots = length-replicate plans none;
    slot = inl refl;
    at = λ w. tt;
    posted = tt;
    recorded = λ i v e. absurd (get_elem?-replicate-none plans i v e);
    covered = λ i lt. absurd (omega arith);
  }

  IsSettled-mono :
      (m m' : Shared) (i : ℕ)
      → m'.lowest ≤ m.lowest
      → ((j : ℕ) → InChannel j m.channel → InChannel j m'.channel)
      → IsSettled plans judge m i
      → IsSettled plans judge m' i
  IsSettled-mono m m' i le keep (inl over) = inl over
  IsSettled-mono m m' i le keep (inr (inl less)) = inr (inl (omega arith))
  IsSettled-mono m m' i le keep (inr (inr h)) = inr (inr (keep i h))

  -- The state behind a move of worker `w`.
  module _ {s : System} (inv : Inv s) (w : ℕ) (lt : w < workers) {m : Shared} {p : Pc}
      (moved : Moved plans judge s.mem (s.pc w) m p) where
    abbrev after : System
    after = record { mem = m; pc = replace_at s.pc w p }

    pc_self : replace_at s.pc w p w ≡ p
    pc_self = replace_at_self s.pc w p

    work_count : m.next ≤ plans + marked (λ v. is_beyond plans judge (after.pc v)) workers
    work_count =
        let change =
          marked_change (λ v. is_beyond plans judge (s.pc v))
            (λ v. is_beyond plans judge (after.pc v)) w workers
            (λ v ne. let e : (v == w) ≡ false = ground arith in rw e) lt in
        let now = ap (is_beyond plans judge) pc_self in
        ground (arith, inv.count, moved.count, change, now)

    work-At : (v : ℕ) → At plans judge m.next m.lowest (after.pc v)
    work-At v = elim (Bool-cases (v == w)) [
      | inl same ↦ rw same moved.at
      | inr other ↦ rw other (At-mono plans judge (s.pc v) moved.next moved.lowest (inv.at v))
    ]

    work-IsCovered : (i : ℕ) → i < m.next → IsCovered after i
    work-IsCovered i below = elim (moved.fetched i below) [
      | inr taken ↦ inr (inr (w, lt, ap held pc_self ∙ taken))
      | inl old ↦ elim (inv.covered i old) [
        | inl settled ↦ inl (IsSettled-mono s.mem m i moved.lowest moved.kept settled)
        | inr (inl e) ↦ inr (inl (rw moved.slots e))
        | inr (inr (v, lt', has)) ↦ elim (Bool-cases (v == w)) [
          | inl same ↦ elim (moved.handed i (rw (==→≡ v w same) at has)) [
            | inl taken ↦ inr (inr (w, lt, ap held pc_self ∙ taken))
            | inr settled ↦ inl settled
          ]
          | inr other ↦ inr (inr (v, lt', rw other has))
        ]
      ]
    ]

    work-Inv : Inv after
    work-Inv = record {
      count = work_count;
      slots = ap (λ (l : List (Option CandidateVerdict)). length l) moved.slots ∙ inv.slots;
      slot = moved.slot;
      at = work-At;
      posted = moved.posted;
      recorded = λ i v e.
          let (same, low) = inv.recorded i v (rw moved.slots at e) in
          (same, λ hit. let old = low hit in let falls = moved.lowest in omega arith);
      covered = work-IsCovered;
    }

  -- The state behind a `recv` of `(i, v)`.
  module _ {s : System} (inv : Inv s) (i : ℕ) (v : CandidateVerdict)
      (rest : List (ℕ × CandidateVerdict)) (e : s.mem.channel ≡ (i, v) ∷ rest) where
    abbrev received : System
    received = record {
      mem = record s.mem { channel = rest; verdicts = set s.mem.verdicts i (some v) };
      pc = s.pc;
    }

    All-IsPosted : All (IsPosted plans judge s.mem.lowest) ((i, v) ∷ rest)
    All-IsPosted = subst (All (IsPosted plans judge s.mem.lowest)) e inv.posted

    slot_set : get_elem? received.mem.verdicts i ≡ some (some v)
    slot_set =
        let lt = All-IsPosted.0.0 in
        get_elem?-set_self s.mem.verdicts i (some v) (omega (arith, inv.slots))

    receive-IsRecorded :
        (j : ℕ) (u : CandidateVerdict)
        → get_elem? received.mem.verdicts j ≡ some (some u)
        → IsRecorded received.mem j u
    receive-IsRecorded j u has = elim (Bool-cases (i == j)) [
      | inl same ↦
          let ij = ==→≡ i j same in
          let (lt, verdict, low) = All-IsPosted.0 in
          let vu : v ≡ u = some-injective v u (
            some-injective (some v) (some u) (
              sym slot_set
              ∙ subst (λ k. get_elem? received.mem.verdicts k ≡ some (some u)) (sym ij) has)) in
          (sym vu ∙ verdict ∙ ap judge ij, λ hit. rw (← ij) (low (rw ij hit)))
      | inr other ↦
          inv.recorded j u (sym (get_elem?-set_ne s.mem.verdicts (some v) (==→≢ i j other)) ∙ has)
    ]

    receive_kept :
        (j : ℕ)
        → get_elem? s.mem.verdicts j ≡ some (some (judge j))
        → get_elem? received.mem.verdicts j ≡ some (some (judge j))
    receive_kept j has = elim (Bool-cases (i == j)) [
      | inl same ↦ let ij = ==→≡ i j same in rw (← ij, ← All-IsPosted.0.1) slot_set
      | inr other ↦ get_elem?-set_ne s.mem.verdicts (some v) (==→≢ i j other) ∙ has
    ]

    receive_arrived : (j : ℕ) → InChannel j ((i, v) ∷ rest) → IsCovered received j
    receive_arrived j (inl same) = inr (inl (rw (same, ← All-IsPosted.0.1) slot_set))
    receive_arrived j (inr h) = inl (inr (inr h))

    receive-IsCovered : (j : ℕ) → j < s.mem.next → IsCovered received j
    receive-IsCovered j lt = elim (inv.covered j lt) [
      | inl (inl over) ↦ inl (inl over)
      | inl (inr (inl less)) ↦ inl (inr (inl less))
      | inl (inr (inr h)) ↦ receive_arrived j (rw e at h)
      | inr (inl has) ↦ inr (inl (receive_kept j has))
      | inr (inr hands) ↦ inr (inr hands)
    ]

    receive-Inv : Inv received
    receive-Inv = record {
      count = inv.count;
      slots = length-set s.mem.verdicts i (some v) ∙ inv.slots;
      slot = inv.slot;
      at = inv.at;
      posted = All-IsPosted.1;
      recorded = receive-IsRecorded;
      covered = receive-IsCovered;
    }

  module _ (capacity : ℕ) (fits : plans + workers + 1 < 2 ^ 64) where
    Step-Inv : {s t : System} → Inv s → Step workers plans capacity judge s t → Inv t
    Step-Inv {s} inv (work w lt move) =
        let few = marked_le (λ v. is_beyond plans judge (s.pc v)) workers in
        let bound = inv.count in
        let small : plans < empty = omega arith in
        work-Inv inv w lt
          (Move-Moved plans capacity judge small move (inv.at w) inv.slot inv.posted (omega arith))
    Step-Inv inv (receive {i} {v} {rest} e) = receive-Inv inv i v rest e

    pub Reach-Inv : {s : System} → Reach workers plans capacity judge s → Inv s
    Reach-Inv start = Inv-initial capacity
    Reach-Inv (later reach step) = Step-Inv (Reach-Inv reach) step
