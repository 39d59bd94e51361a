-- ===== src/Prelude/Words.antt =====
-- Unsigned machine integers as native numbers: the checked and saturating operations of Rust's
-- `u64`, `u128` and of the 256-bit `U256`, each with the width's modulus written out.
use mathlib.Core.Option.{Option, none, some}
use Prim.Native.Nat.{ℕ, ◌+◌, ◌-◌, ◌*◌, ◌/◌, ◌^◌}
use rbot_v.Prelude.Tests.{ltb, leb, ◌==◌, if◌then◌else◌}

abbrev pub u32_limit : ℕ
u32_limit = 2 ^ 32

abbrev pub u64_limit : ℕ
u64_limit = 2 ^ 64

abbrev pub u128_limit : ℕ
u128_limit = 2 ^ 128

-- Kept shut: no proof counts up to it.
unfoldable pub u256_limit : ℕ
u256_limit = 2 ^ 256

-- A value that fits a width, or nothing.
abbrev pub fits : ℕ → ℕ → Option ℕ
fits limit n = if ltb n limit then some n else none

abbrev pub checked_sub : ℕ → ℕ → Option ℕ
checked_sub a b = if leb b a then some (a - b) else none

-- `saturating_sub`: the truncated subtraction of ℕ is the source's.
abbrev pub saturating_sub : ℕ → ℕ → ℕ
saturating_sub a b = a - b

abbrev pub checked_div : ℕ → ℕ → Option ℕ
checked_div a b = if b == 0 then none else some (a / b)

-- `U256`.
abbrev pub checked_add : ℕ → ℕ → Option ℕ
checked_add a b = fits u256_limit (a + b)

abbrev pub checked_mul : ℕ → ℕ → Option ℕ
checked_mul a b = fits u256_limit (a * b)

-- `u64` and `u32`.
abbrev pub checked_add_u64 : ℕ → ℕ → Option ℕ
checked_add_u64 a b = fits u64_limit (a + b)

abbrev pub checked_add_u32 : ℕ → ℕ → Option ℕ
checked_add_u32 a b = fits u32_limit (a + b)

abbrev pub checked_mul_u32 : ℕ → ℕ → Option ℕ
checked_mul_u32 a b = fits u32_limit (a * b)

-- `u64::saturating_add`.
abbrev pub saturating_add_u64 : ℕ → ℕ → ℕ
saturating_add_u64 a b = if ltb (a + b) u64_limit then a + b else u64_limit - 1
