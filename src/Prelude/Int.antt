-- ===== src/Prelude/Int.antt =====
-- Signed integers over the native numbers, and the checked operations of the 256-bit `I256`:
-- every result is tested against the two's-complement range, and division rounds toward zero.
use rbot_v.Prelude.Tests.{ltb, leb, ◌==◌, if◌then◌else◌}
use mathlib.Core.Bool.{Bool, true, false}
use mathlib.Core.Option.{Option, none, some}
use Prim.Native.Nat.{ℕ, suc, ◌+◌, ◌-◌, ◌*◌, ◌/◌, ◌^◌, ◌≤◌}

-- `negsuc n` stands for -(n + 1).
pub data ℤ : Type 0 where
  pos : ℕ → ℤ
  negsuc : ℕ → ℤ

abbrev pub pos_part : ℤ → ℕ
pos_part (pos n) = n
pos_part (negsuc _) = 0

abbrev pub neg_part : ℤ → ℕ
neg_part (pos _) = 0
neg_part (negsuc n) = suc n

-- The difference of two naturals.
abbrev pub sub_ℕ : ℕ → ℕ → ℤ
sub_ℕ a b = if leb b a then pos (a - b) else negsuc (b - a - 1)

abbrev pub ltb_ℤ : ℤ → ℤ → Bool
ltb_ℤ a b = ltb (pos_part a + neg_part b) (pos_part b + neg_part a)

abbrev pub is_negative : ℤ → Bool
is_negative (pos _) = false
is_negative (negsuc _) = true

infix 50 ◌≤ℤ◌
abbrev pub ◌≤ℤ◌ : ℤ → ℤ → Type 0
a ≤ℤ b = pos_part a + neg_part b ≤ pos_part b + neg_part a

-- 2 ^ 255. Kept shut: no proof counts up to it.
unfoldable pub i256_limit : ℕ
i256_limit = 2 ^ 255

abbrev pub fits_i256 : ℤ → Option ℤ
fits_i256 (pos n) = if ltb n i256_limit then some (pos n) else none
fits_i256 (negsuc n) = if ltb n i256_limit then some (negsuc n) else none

abbrev pub checked_neg_i256 : ℤ → Option ℤ
checked_neg_i256 a = fits_i256 (sub_ℕ (neg_part a) (pos_part a))

abbrev pub checked_add_i256 : ℤ → ℤ → Option ℤ
checked_add_i256 a b = fits_i256 (sub_ℕ (pos_part a + pos_part b) (neg_part a + neg_part b))

abbrev pub checked_sub_i256 : ℤ → ℤ → Option ℤ
checked_sub_i256 a b = fits_i256 (sub_ℕ (pos_part a + neg_part b) (neg_part a + pos_part b))

abbrev pub mul_ℤ : ℤ → ℤ → ℤ
mul_ℤ (pos a) (pos b) = pos (a * b)
mul_ℤ (pos a) (negsuc b) = sub_ℕ 0 (a * suc b)
mul_ℤ (negsuc a) (pos b) = sub_ℕ 0 (suc a * b)
mul_ℤ (negsuc a) (negsuc b) = pos (suc a * suc b)

abbrev pub checked_mul_i256 : ℤ → ℤ → Option ℤ
checked_mul_i256 a b = fits_i256 (mul_ℤ a b)

abbrev pub div_ℤ : ℤ → ℤ → ℤ
div_ℤ (pos a) (pos b) = pos (a / b)
div_ℤ (pos a) (negsuc b) = sub_ℕ 0 (a / suc b)
div_ℤ (negsuc a) (pos b) = sub_ℕ 0 (suc a / b)
div_ℤ (negsuc a) (negsuc b) = pos (suc a / suc b)

abbrev pub is_zero : ℤ → Bool
is_zero (pos n) = n == 0
is_zero (negsuc _) = false

abbrev pub checked_div_i256 : ℤ → ℤ → Option ℤ
checked_div_i256 a b = if is_zero b then none else fits_i256 (div_ℤ a b)

-- `I256::try_from(U256)` and `U256::try_from(I256)`.
abbrev pub to_i256 : ℕ → Option ℤ
to_i256 n = if ltb n i256_limit then some (pos n) else none

abbrev pub to_u256 : ℤ → Option ℕ
to_u256 (pos n) = some n
to_u256 (negsuc _) = none

-- `I256::unsigned_abs`.
abbrev pub unsigned_abs : ℤ → ℕ
unsigned_abs a = pos_part a + neg_part a

-- `Ord::clamp`.
abbrev pub clamp_ℤ : ℤ → ℤ → ℤ → ℤ
clamp_ℤ x lo hi = if ltb_ℤ x lo then lo else if ltb_ℤ hi x then hi else x
