-- ===== src/Winner.antt =====
-- crates/reprocut-core/src/winner.rs: the lock-free slot that holds the lowest claimed candidate.
-- One step is one atomic access. Every value of the slot is below the ones before it, so a load that
-- another thread has overtaken returns some value at least the present one.
use reprocut.Prelude.{ℕ, ◌≤◌, ◌<◌, ◌≡◌, ◌≢◌, Bool, true, false, ◌==◌, if◌then◌else◌, arith}
use reprocut.Prelude.{Option, none, some, ◌⊎◌}
use reprocut.Prelude.Words.{u64_max}

-- `EMPTY`
abbrev pub empty : ℕ
empty = u64_max

-- `LowestWinner::load`, of the value that the atomic load returns.
abbrev pub load : ℕ → Option ℕ
load value = if value == empty then none else some value

-- Where a call of `claim` stands.
pub data ClaimPc : Type 0 where
  entered : (candidate : ℕ) → ClaimPc
  comparing : (candidate current : ℕ) → ClaimPc
  returned : (candidate : ℕ) (changed : Bool) → ClaimPc

-- `ClaimStep value pc value' pc'`: the slot and the call, before and after.
pub data ClaimStep (value : ℕ) : ClaimPc → ℕ → ClaimPc → Type 0 where
  reserved : {c : ℕ} → c ≡ empty → ClaimStep value (entered c) value (returned c false)
  loaded :
      {c seen : ℕ} → c ≢ empty → value ≤ seen → ClaimStep value (entered c) value (comparing c seen)
  lost :
      {c current : ℕ} → current ≤ c → ClaimStep value (comparing c current) value (returned c false)
  exchanged :
      {c current : ℕ}
      → c < current
      → value ≡ current
      → ClaimStep value (comparing c current) c (returned c true)
  -- The weak exchange may also fail when the value is still `current`.
  failed :
      {c current seen : ℕ}
      → c < current
      → value ≤ seen
      → ClaimStep value (comparing c current) value (comparing c seen)

-- What a call that claims a valid candidate knows of the slot.
abbrev pub Knows : ℕ → ClaimPc → Type 0
Knows value (entered c) = c < empty
Knows value (comparing c current) = (c < empty) × (value ≤ current)
Knows value (returned c changed) = (c < empty) × (value ≤ c)

abbrev pub candidate_of : ClaimPc → ℕ
candidate_of (entered c) = c
candidate_of (comparing c _) = c
candidate_of (returned c _) = c

-- A step of a call never raises the slot, which stays or becomes the call's candidate, and the call's
-- knowledge is kept; so a call that has returned leaves a slot at or below its candidate.
pub ClaimStep-Knows :
    {value value' : ℕ} {pc pc' : ClaimPc}
    → ClaimStep value pc value' pc'
    → Knows value pc
    → (value' ≤ value)
      × ((value' ≡ value) ⊎ (value' ≡ candidate_of pc))
      × (candidate_of pc' ≡ candidate_of pc)
      × Knows value' pc'
ClaimStep-Knows (reserved e) k = absurd (omega arith)
ClaimStep-Knows (loaded ne seen) k = ground arith
ClaimStep-Knows (lost le) k = ground arith
ClaimStep-Knows (exchanged lt same) k = ground arith
ClaimStep-Knows (failed lt seen) k = ground arith

-- What a call knows stays true while other calls lower the slot.
pub Knows-mono :
    {value value' : ℕ} (pc : ClaimPc) → value' ≤ value → Knows value pc → Knows value' pc
Knows-mono (entered c) le k = k
Knows-mono (comparing c current) le k = omega arith
Knows-mono (returned c changed) le k = omega arith
