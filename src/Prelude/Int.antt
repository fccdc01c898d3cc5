-- ===== src/Prelude/Int.antt =====
-- Signed integers over the native numbers, under the library's names, and the integer that a 32-bit
-- pattern stands for.
use Prim.Native.Nat.{ℕ, ◌-◌, ◌^◌}
use reliable_udp.Prelude.Tests.{ltb, if◌then◌else◌}

-- `negsuc n` is -(n + 1).
pub data ℤ : Type 0 where
  pos : ℕ → ℤ
  negsuc : ℕ → ℤ

-- The `int` with the bits of a `uint32_t`.
abbrev pub signed32 : ℕ → ℤ
signed32 w = if ltb w (2 ^ 31) then pos w else negsuc (2 ^ 32 - w - 1)
