-- ===== src/State/Caps.antt =====
-- The cap admission of src/state/caps.rs.
use rbot_v.Prelude.{
  ℕ, ◌*◌, ◌/◌, ◌≤◌, ◌<◌, ◌≡◌, ◌⊎◌, ◌↔◌, Result, ok, ◌>>=◌, ◌>>◌, ok_or, fail_if, and_then, ltb,
  ◌==◌, arith, if◌then◌else◌,
}
use rbot_v.Morpho.BlueMath.{wad}
use rbot_v.Prelude.Words.{u256_limit, checked_mul, checked_div}

pub record CapState : Type 0 where
  pub absolute_cap : ℕ
  pub relative_cap : ℕ
  pub allocation : ℕ

pub data CapError : Type 0 where
  zero_absolute_cap absolute_cap_exceeded invalid_relative_cap : CapError
  relative_cap_exceeded cap_arithmetic : CapError

unfoldable pub validate_allocation_cap : CapState → ℕ → ℕ → Result CapError (Unit {0})
validate_allocation_cap cap first_total_assets new_allocation = do
  fail_if (cap.absolute_cap == 0) zero_absolute_cap
  fail_if (ltb cap.absolute_cap new_allocation) absolute_cap_exceeded
  fail_if (ltb wad cap.relative_cap) invalid_relative_cap
  if ltb cap.relative_cap wad
      then (do
        maximum ←
            ok_or
              (and_then (checked_mul first_total_assets cap.relative_cap)
                (λ product. checked_div product wad))
              cap_arithmetic
        fail_if (ltb maximum new_allocation) relative_cap_exceeded)
      else ok tt

-- An allocation is admitted exactly when it is within a non-zero absolute cap and the relative cap
-- either is the whole or bounds it by its share of the total assets, rounded down, without
-- overflow.
pub validate_allocation_cap_lem :
    (cap : CapState) (total new : ℕ)
    → (validate_allocation_cap cap total new ≡ ok tt) ↔ (
        (0 < cap.absolute_cap)
        × (new ≤ cap.absolute_cap)
        × ((cap.relative_cap ≡ wad)
            ⊎ ((cap.relative_cap < wad)
                × (total * cap.relative_cap < u256_limit)
                × (new ≤ total * cap.relative_cap / wad))))
unfolding validate_allocation_cap
validate_allocation_cap_lem cap total new = ground arith
