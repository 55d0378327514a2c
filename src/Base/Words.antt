-- ===== src/Base/Words.antt =====
-- Fixed-width integers as native numbers: a uint8_t is a number below 256, an `int` or a uint32_t
-- its bit pattern below 2 ^ 32.
use Prim.Native.Nat.{ℕ, ◌+◌, ◌-◌, ◌%◌, ◌<◌}
use mathlib.Core.List.{List}
use panngo.Base.Lists.{All}

abbrev pub u8 : ℕ → ℕ
u8 n = n % 256

abbrev pub u32_mod : ℕ
u32_mod = 4294967296

-- The pattern that a value of 32 bits keeps of a wider one, such as a time_t.
abbrev pub u32 : ℕ → ℕ
u32 n = n % u32_mod

-- a - b of 32 bits; the modulus comes first since `-` on ℕ stops at 0.
abbrev pub sub32 : ℕ → ℕ → ℕ
sub32 a b = (a % u32_mod + u32_mod - b % u32_mod) % u32_mod

abbrev pub IsByte : ℕ → Type 0
IsByte n = n < 256

abbrev pub IsBytes : List ℕ → Type 0
IsBytes xs = All IsByte xs
