-- ===== src/Common/Words.antt =====
-- Machine words as native numbers: wrapping, saturating and flag operations of Rust's integers.
use Prim.Native.Nat.{ℕ, ◌+◌, ◌-◌, ◌%◌, min, bit_and}
use mathlib.Core.Bool.{Bool, not}
use ristux.Common.Tests.{◌==◌}

abbrev pub u8_mod : ℕ
u8_mod = 256

abbrev pub u16_mod : ℕ
u16_mod = 65536

abbrev pub u32_mod : ℕ
u32_mod = 4294967296

abbrev pub u64_max : ℕ
u64_max = 18446744073709551615

-- `u32::wrapping_add`, `u32::wrapping_sub` (on words in range), `u64::saturating_add`.
abbrev pub wrapping_add : ℕ → ℕ → ℕ
wrapping_add a b = (a + b) % u32_mod

abbrev pub wrapping_sub : ℕ → ℕ → ℕ
wrapping_sub a b = (a + u32_mod - b) % u32_mod

abbrev pub saturating_add : ℕ → ℕ → ℕ
saturating_add a b = min (a + b) u64_max

-- `flags & mask != 0`.
abbrev pub has_flag : ℕ → ℕ → Bool
has_flag flags mask = not (bit_and flags mask == 0)
