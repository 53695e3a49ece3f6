-- ===== src/Base/Words.antt =====
-- Fixed-width unsigned words of C as native numbers, cut by a remainder.
use Prim.Native.Nat.{ℕ, ◌+◌, ◌-◌, ◌%◌, ◌^◌}

abbrev pub u8 : ℕ → ℕ
u8 n = n % 2 ^ 8

abbrev pub u16 : ℕ → ℕ
u16 n = n % 2 ^ 16

abbrev pub u32 : ℕ → ℕ
u32 n = n % 2 ^ 32

abbrev pub u64 : ℕ → ℕ
u64 n = n % 2 ^ 64

abbrev pub uint32_max : ℕ
uint32_max = 0xffff_ffff

abbrev pub uint64_max : ℕ
uint64_max = 0xffff_ffff_ffff_ffff

-- Subtraction of 64-bit words.
abbrev pub sub64 : ℕ → ℕ → ℕ
sub64 a b = (a + 2 ^ 64 - b) % 2 ^ 64
