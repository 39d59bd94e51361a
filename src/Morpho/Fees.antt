-- ===== src/Morpho/Fees.antt =====
-- src/morpho/fees.rs: Morpho market accrual in the order of `Morpho._accrueInterest`.
pub mod Accrual
use rbot_v.Prelude.{
  ℕ, ◌-◌, ◌||◌, Result, ok, err, ok_or, map_err, fail_if, ◌>>=◌, ◌>>◌, ltb, ◌==◌, if◌then◌else◌,
}
use rbot_v.Prelude.Words.{u128_limit, checked_add, checked_sub}
use rbot_v.Domain.{
  overflow, underflow, MathError, arithmetic, timestamp_regression, invariant, StoredMarketState,
  ProjectedMarketState,
}
use rbot_v.Morpho.BlueMath.{wad, w_mul_down, w_taylor_compounded, to_supply_shares_down}
use rbot_v.Morpho.AdaptiveCurve.{
  Shifts, AdaptiveCurveProjection, utilization_of, adaptive_curve_borrow_rate,
  adaptive_curve_spot_rate,
}

pub record MarketAccrualResult : Type 0 where
  pub market : ProjectedMarketState
  pub interest_assets : ℕ
  pub fee_shares : ℕ

unfoldable pub require_uint128 : ℕ → Result MathError ℕ
require_uint128 value = if ltb (u128_limit - 1) value then err invariant else ok value

-- The shares minted to the fee recipient.
unfoldable pub fee_shares_of : ℕ → ℕ → ℕ → ℕ → Result MathError ℕ
fee_shares_of fee interest total_supply_assets total_supply_shares = if fee == 0 then ok 0 else (do
  fee_assets ← map_err arithmetic (w_mul_down interest fee)
  supply_without_fee ← ok_or (checked_sub total_supply_assets fee_assets) (arithmetic underflow)
  map_err arithmetic (to_supply_shares_down fee_assets supply_without_fee total_supply_shares))

-- The supply rate that a borrow rate leaves to suppliers after the fee.
unfoldable pub supply_rate_of : ℕ → ℕ → ℕ → Result MathError ℕ
supply_rate_of spot_borrow_rate utilization fee = do
  gross ← map_err arithmetic (w_mul_down spot_borrow_rate utilization)
  kept ← ok_or (checked_sub wad fee) (arithmetic underflow)
  map_err arithmetic (w_mul_down gross kept)

module _ (shifts : Shifts) where
  -- The average rate over the elapsed time and the ending target rate.
  unfoldable pub accrual_rates :
      StoredMarketState → ℕ → ℕ → Result MathError AdaptiveCurveProjection
  accrual_rates stored stored_rate_at_target elapsed =
      if elapsed == 0
      then ok (record { average_rate = 0; ending_rate_at_target = stored_rate_at_target })
      else adaptive_curve_borrow_rate shifts stored stored_rate_at_target elapsed

  unfoldable pub accrue_market : StoredMarketState → ℕ → ℕ → Result MathError MarketAccrualResult
  accrue_market stored timestamp stored_rate_at_target = do
    fail_if (ltb timestamp stored.last_update) timestamp_regression
    fail_if (ltb stored.total_supply_assets stored.total_borrow_assets || ltb wad stored.fee)
        invariant
    elapsed ← ok_or (checked_sub timestamp stored.last_update) timestamp_regression
    rates ← accrual_rates stored stored_rate_at_target elapsed
    compounded ← map_err arithmetic (w_taylor_compounded rates.average_rate elapsed)
    interest ← map_err arithmetic (w_mul_down stored.total_borrow_assets compounded)
    new_borrow ← ok_or (checked_add stored.total_borrow_assets interest) (arithmetic overflow)
    total_borrow_assets ← require_uint128 new_borrow
    new_supply ← ok_or (checked_add stored.total_supply_assets interest) (arithmetic overflow)
    total_supply_assets ← require_uint128 new_supply
    fee_shares ← fee_shares_of stored.fee interest total_supply_assets stored.total_supply_shares
    new_shares ← ok_or (checked_add stored.total_supply_shares fee_shares) (arithmetic overflow)
    total_supply_shares ← require_uint128 new_shares
    utilization ← utilization_of total_borrow_assets total_supply_assets
    spot_borrow_rate ← adaptive_curve_spot_rate utilization rates.ending_rate_at_target
    spot_supply_rate ← supply_rate_of spot_borrow_rate utilization stored.fee
    accounting_liquidity ← ok_or (checked_sub total_supply_assets total_borrow_assets) invariant
    ok (record {
      market = record {
        market_id = stored.market_id;
        timestamp = timestamp;
        total_supply_assets = total_supply_assets;
        total_supply_shares = total_supply_shares;
        total_borrow_assets = total_borrow_assets;
        total_borrow_shares = stored.total_borrow_shares;
        average_accrual_borrow_rate = rates.average_rate;
        ending_rate_at_target = rates.ending_rate_at_target;
        spot_borrow_rate = spot_borrow_rate;
        spot_supply_rate = spot_supply_rate;
        utilization = utilization;
        accounting_liquidity = accounting_liquidity;
      };
      interest_assets = interest;
      fee_shares = fee_shares;
    })
