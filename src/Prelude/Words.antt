-- ===== src/Prelude/Words.antt =====
-- Machine words: the bounds of the unsigned types and their saturating operations.
use Prim.Native.Nat.{ℕ, ◌+◌, ◌-◌, ◌*◌, ◌/◌, ◌%◌, ◌^◌, min}
use reprocut.Prelude.Tests.{ltb, if◌then◌else◌}

abbrev pub u16_mod : ℕ
u16_mod = 2 ^ 16

-- `usize` is taken to have 64 bits.
abbrev pub u64_max : ℕ
u64_max = 2 ^ 64 - 1

-- `+` on u16, with the wrap-around of a release build.
abbrev pub add_u16 : ℕ → ℕ → ℕ
add_u16 a b = (a + b) % u16_mod

abbrev pub saturating_add : ℕ → ℕ → ℕ
saturating_add a b = min (a + b) u64_max

abbrev pub saturating_mul : ℕ → ℕ → ℕ
saturating_mul a b = min (a * b) u64_max

-- `div_ceil` of the standard library, for a divisor that is not zero.
abbrev pub div_ceil : ℕ → ℕ → ℕ
div_ceil a b = a / b + (if ltb 0 (a % b) then 1 else 0)
