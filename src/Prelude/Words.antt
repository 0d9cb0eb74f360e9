-- ===== src/Prelude/Words.antt =====
-- Machine words as native numbers: casts, wrapping arithmetic, shifts, and the signed test.
use Prim.Native.Nat.{ℕ, ◌+◌, ◌-◌, ◌*◌, ◌/◌, ◌%◌, ◌^◌}
use mathlib.Core.Bool.{Bool, not}
use clanker_npu.Prelude.Tests.{ltb}

abbrev pub u8 : ℕ → ℕ
u8 n = n % 2 ^ 8

abbrev pub u16 : ℕ → ℕ
u16 n = n % 2 ^ 16

abbrev pub u32 : ℕ → ℕ
u32 n = n % 2 ^ 32

-- Wrapping sum, difference and product of `u32` values. `-` on ℕ stops at 0, so the modulus comes
-- first.
abbrev pub add32 : ℕ → ℕ → ℕ
add32 a b = (a + b) % 2 ^ 32

abbrev pub sub32 : ℕ → ℕ → ℕ
sub32 a b = (a + 2 ^ 32 - b % 2 ^ 32) % 2 ^ 32

abbrev pub mul32 : ℕ → ℕ → ℕ
mul32 a b = (a * b) % 2 ^ 32

abbrev pub sub16 : ℕ → ℕ → ℕ
sub16 a b = (a + 2 ^ 16 - b % 2 ^ 16) % 2 ^ 16

-- x >> k.
abbrev pub shr : ℕ → ℕ → ℕ
shr x k = x / 2 ^ k

-- The sign of a word read as `s32` or `s16`.
abbrev pub neg32 : ℕ → Bool
neg32 x = not (ltb x (2 ^ 31))

abbrev pub neg16 : ℕ → Bool
neg16 x = not (ltb x (2 ^ 15))

-- Bit k of a word.
abbrev pub bit : ℕ → ℕ → ℕ
bit x k = x / 2 ^ k % 2

-- `(s32)a < (s32)b` on bit patterns.
abbrev pub slt32 : ℕ → ℕ → Bool
slt32 a b = ltb ((a + 2 ^ 31) % 2 ^ 32) ((b + 2 ^ 31) % 2 ^ 32)
