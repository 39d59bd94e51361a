-- ===== src/Morpho/VaultV2.antt =====
-- src/morpho/vault_v2.rs: the accrual view of the parent vault. The map of adapter values is the
-- list of its values in key order.
pub mod Accrual
use rbot_v.Prelude.{
  ℕ, ◌-◌, Bool, not, ◌&&◌, List, [], ◌∷◌, Result, ok, ok_or, and_then, map_err, fail_if, ◌>>=◌,
  ◌>>◌, ltb, ◌==◌, min, if◌then◌else◌,
}
use rbot_v.Prelude.Words.{checked_add, checked_sub, checked_mul, saturating_sub}
use rbot_v.Domain.{
  overflow, MathError, arithmetic, timestamp_regression, invariant, ParentVaultState,
}
use rbot_v.Morpho.BlueMath.{wad, mul_div_down}

pub record ParentAccrualResult : Type 0 where
  pub total_assets : ℕ
  pub projected_total_supply : ℕ
  pub performance_fee_shares : ℕ
  pub management_fee_shares : ℕ

-- The loop over the adapters, from the idle assets.
unfoldable pub add_real_assets : ℕ → List ℕ → Result MathError ℕ
add_real_assets total [] = ok total
add_real_assets total (assets ∷ rest) =
    ok_or (checked_add total assets) (arithmetic overflow) >>= λ next. add_real_assets next rest

-- A fee is due from a charged amount, at a rate, to a recipient that its gate allows.
abbrev is_due : ℕ → ℕ → Bool → Bool
is_due charged fee allowed = not (charged == 0) && not (fee == 0) && allowed

unfoldable pub performance_fee_assets : ParentVaultState → ℕ → Result MathError ℕ
performance_fee_assets parent interest =
    if is_due interest parent.performance_fee parent.performance_fee_recipient_allowed
    then map_err arithmetic (mul_div_down interest parent.performance_fee wad)
    else ok 0

unfoldable pub management_fee_assets : ParentVaultState → ℕ → ℕ → Result MathError ℕ
management_fee_assets parent elapsed new_total_assets =
    if is_due elapsed parent.management_fee parent.management_fee_recipient_allowed
    then (do
      time_weighted_assets ← ok_or (checked_mul new_total_assets elapsed) (arithmetic overflow)
      map_err arithmetic (mul_div_down time_weighted_assets parent.management_fee wad))
    else ok 0

unfoldable pub accrue_parent_view :
    ParentVaultState → List ℕ → ℕ → Result MathError ParentAccrualResult
accrue_parent_view parent adapter_real_assets timestamp = do
  fail_if (ltb timestamp parent.last_update) timestamp_regression
  real_assets ← add_real_assets parent.idle_assets adapter_real_assets
  elapsed ← ok_or (checked_sub timestamp parent.last_update) timestamp_regression
  elapsed_assets ← ok_or (checked_mul parent.stored_total_assets elapsed) (arithmetic overflow)
  maximum_growth ← map_err arithmetic (mul_div_down elapsed_assets parent.max_rate wad)
  maximum_total_assets ←
      ok_or (checked_add parent.stored_total_assets maximum_growth) (arithmetic overflow)
  let new_total_assets = min real_assets maximum_total_assets
  let interest = saturating_sub new_total_assets parent.stored_total_assets
  performance ← performance_fee_assets parent interest
  management ← management_fee_assets parent elapsed new_total_assets
  assets_without_fees ←
      ok_or
        (and_then (checked_sub new_total_assets performance)
          (λ value. checked_sub value management))
        invariant
  denominator ← ok_or (checked_add assets_without_fees 1) (arithmetic overflow)
  shares_with_virtual ←
      ok_or (checked_add parent.total_supply parent.virtual_shares) (arithmetic overflow)
  performance_fee_shares ←
      map_err arithmetic (mul_div_down performance shares_with_virtual denominator)
  management_fee_shares ←
      map_err arithmetic (mul_div_down management shares_with_virtual denominator)
  projected_total_supply ←
      ok_or
        (and_then (checked_add parent.total_supply performance_fee_shares)
          (λ value. checked_add value management_fee_shares))
        (arithmetic overflow)
  ok (record {
    total_assets = new_total_assets;
    projected_total_supply = projected_total_supply;
    performance_fee_shares = performance_fee_shares;
    management_fee_shares = management_fee_shares;
  })
