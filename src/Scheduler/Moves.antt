-- ===== src/Scheduler/Moves.antt =====
-- Each move of a worker keeps what the invariant says of it.
use reprocut.Prelude.{ℕ, ◌+◌, ◌%◌, ◌^◌, ◌<◌, ◌≡◌, refl, sym, ◌∙◌, inl, inr}
use reprocut.Prelude.{arith, ◌==◌, [], ◌∷◌, ◌++◌}
use reprocut.Prelude.{Option, some, All, All-append, Bool-cases}
use reprocut.Prelude.{ap}
use mathlib.Core.Option.{some-injective}
use mathlib.Core.Path.{subst}
use reprocut.Model.{CandidateVerdict}
use reprocut.Winner.{empty}
use reprocut.Winner.{ClaimStep-Knows}
use reprocut.Scheduler.Worker.{Shared, Pc, fetching, checking, sending}
use reprocut.Scheduler.Worker.{Move, fetch, past_end, beaten, run, keep, drop, claim, claimed, send}
use reprocut.Scheduler.Invariant.{InChannel, IsPosted, At, IsSlot, Moved}
use reprocut.Scheduler.Invariant.{InChannel-last, InChannel-append, quiet}

module _ (plans capacity : ℕ) (judge : ℕ → CandidateVerdict) (fits : plans < empty) where
  fetch-Moved :
      (m : Shared)
      → IsSlot plans judge m.lowest
      → All (IsPosted plans judge m.lowest) m.channel
      → m.next + 1 < 2 ^ 64
      → Moved plans judge m fetching (record m { next = (m.next + 1) % 2 ^ 64 }) (checking m.next)
  fetch-Moved m slot posted small =
      let step : (m.next + 1) % 2 ^ 64 ≡ m.next + 1 = omega arith in
      record {
        next = omega arith;
        lowest = omega arith;
        slots = refl;
        slot = slot;
        at = omega arith;
        posted = posted;
        kept = λ i h. h;
        handed = λ i e. absurd (cc);
        fetched = λ i lt. elim (Bool-cases (i == m.next)) [
          | inl same ↦ inr (ground arith)
          | inr other ↦ inl (ground arith)
        ];
        count = ground arith;
      }

  send-Moved :
      (m : Shared) (i : ℕ) (v : CandidateVerdict)
      → IsSlot plans judge m.lowest
      → All (IsPosted plans judge m.lowest) m.channel
      → IsPosted plans judge m.lowest (i, v)
      → Moved plans judge m (sending i v) (record m { channel = m.channel ++ (i, v) ∷ [] }) fetching
  send-Moved m i v slot posted at = record {
    next = omega arith;
    lowest = omega arith;
    slots = refl;
    slot = slot;
    at = tt;
    posted = All-append (IsPosted plans judge m.lowest) m.channel ((i, v) ∷ []) posted (at, tt);
    kept = λ j h. InChannel-append m.channel j i v h;
    handed = λ j e. inr (
        inr (
          inr (
            subst (λ k. InChannel k (m.channel ++ (i, v) ∷ [])) (some-injective i j e)
              (InChannel-last m.channel i v))));
    fetched = λ j lt. inl lt;
    count = inl (omega arith);
  }

  -- A move in a state with the invariant.
  pub Move-Moved :
      {m m' : Shared} {p p' : Pc}
      → Move plans capacity judge m p m' p'
      → At plans judge m.next m.lowest p
      → IsSlot plans judge m.lowest
      → All (IsPosted plans judge m.lowest) m.channel
      → m.next + 1 < 2 ^ 64
      → Moved plans judge m p m' p'
  Move-Moved {m} fetch at slot posted small = fetch-Moved m slot posted small
  Move-Moved (past_end {i} over) at slot posted small =
      quiet plans capacity judge fits posted refl refl refl (omega arith) slot (at, inl over)
        (λ j e. inr (inl (ground arith))) refl
  Move-Moved (beaten {i} lt seen ne less) at slot posted small =
      quiet plans capacity judge fits posted refl refl refl (omega arith) slot
        (at, inr (omega arith)) (λ j e. inr (inr (inl (ground arith)))) refl
  Move-Moved (run {i} lt seen free) at slot posted small =
      quiet plans capacity judge fits posted refl refl refl (omega arith) slot (at, lt)
        (λ j e. inl e) (ground arith)
  Move-Moved (keep {i} hit) (next, lt) slot posted small =
      quiet plans capacity judge fits posted refl refl refl (omega arith) slot
        (lt, hit, omega arith) (λ j e. inl e) refl
  Move-Moved (drop {i} other) (next, lt) slot posted small =
      quiet plans capacity judge fits posted refl refl refl (omega arith) slot
        (lt, refl, λ hit. absurd (other hit)) (λ j e. inl e) refl
  Move-Moved (claim {pc} {pc'} {value} st) (lt, hit, knows) slot posted small =
      let (falls, which, same, knows') = ClaimStep-Knows st knows in
      let slot' : IsSlot plans judge value = elim which [
        | inl kept ↦ subst (IsSlot plans judge) (sym kept) slot
        | inr mine ↦ subst (IsSlot plans judge) (sym mine) (inr (lt, hit))
      ] in
      quiet plans capacity judge fits posted refl refl refl falls slot'
        (rw same lt, rw same hit, knows') (λ j e. inl (ap {B = Option ℕ} some same ∙ e)) refl
  Move-Moved (claimed {i} {changed}) (lt, hit, knows) slot posted small =
      quiet plans capacity judge fits posted refl refl refl (omega arith) slot
        (lt, sym hit, λ _. knows.1) (λ j e. inl e) refl
  Move-Moved {m} (send {i} {v} room) at slot posted small = send-Moved m i v slot posted at
