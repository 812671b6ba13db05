-- ===== src/Base/Words.antt =====
-- Machine words. An `int` is a pattern of 32 bits, an `off_t` one of 64, in two's complement.
use Prim.Native.Nat.{ℕ, ◌+◌, ◌-◌, ◌%◌, ◌^◌}
use mathlib.Core.Bool.{Bool}
use cs3891_asst.Base.Tests.{leb}

abbrev pub u32_mod : ℕ
u32_mod = 2 ^ 32

abbrev pub add32 : ℕ → ℕ → ℕ
add32 a b = (a + b) % 2 ^ 32

abbrev pub sub32 : ℕ → ℕ → ℕ
sub32 a b = (a + 2 ^ 32 - b) % 2 ^ 32

abbrev pub add64 : ℕ → ℕ → ℕ
add64 a b = (a + b) % 2 ^ 64

abbrev pub sub64 : ℕ → ℕ → ℕ
sub64 a b = (a + 2 ^ 64 - b) % 2 ^ 64

-- `x < 0` of a signed word
abbrev pub neg32 : ℕ → Bool
neg32 x = leb (2 ^ 31) x

abbrev pub neg64 : ℕ → Bool
neg64 x = leb (2 ^ 63) x

-- the `int` -1
abbrev pub minus_one : ℕ
minus_one = 2 ^ 32 - 1
