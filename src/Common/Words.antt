-- ===== src/Common/Words.antt =====
-- Machine integers as bit patterns: an `int` or `u32` is a number below 2 ^ 32.
use Prim.Native.Nat.{ℕ, ◌+◌, ◌-◌, ◌^◌}
use mathlib.Core.Bool.{Bool}
use tcphandoff.Common.Tests.{ltb, leb, if◌then◌else◌}

-- The range of a 32-bit word.
abbrev pub u32_mod : ℕ
u32_mod = 2 ^ 32

-- A `char` widened to `int`: `char` is signed, so a byte of 128 or more keeps its sign.
abbrev pub char_to_int : ℕ → ℕ
char_to_int c = if ltb c 128 then c else c + u32_mod - 256

-- The bit pattern is that of a negative `int`.
abbrev pub is_negative : ℕ → Bool
is_negative w = leb (2 ^ 31) w
