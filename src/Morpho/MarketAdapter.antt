-- ===== src/Morpho/MarketAdapter.antt =====
-- src/morpho/market_adapter.rs: allocation to and deallocation from one market through the direct
-- adapter. The three cap references that the caller passes through are left out.
pub mod Refresh
pub mod Allocation
pub mod Deallocation
use rbot_v.Prelude.{ℕ, not, ◌&&◌, ◌||◌, Result, ok, ok_or, map_err, fail_if, ◌>>=◌, ◌>>◌, ltb, ◌==◌}
use rbot_v.Prelude.Words.{checked_add, checked_sub}
use rbot_v.Prelude.Int.{ℤ, to_i256, checked_sub_i256}
use rbot_v.Domain.{
  overflow, underflow, MathError, arithmetic, invariant, signed_conversion, share_price_above_one,
  insufficient_shares, insufficient_liquidity, ProjectedMarketState,
}
use rbot_v.Morpho.BlueMath.{wad, to_supply_assets_down, to_supply_shares_down, to_supply_shares_up}
use rbot_v.Morpho.AdaptiveCurve.{utilization_of, adaptive_curve_spot_rate}
use rbot_v.Morpho.Fees.{supply_rate_of}

pub record AdapterTransitionResult : Type 0 where
  pub market : ProjectedMarketState
  pub internal_supply_shares : ℕ
  pub changed_shares : ℕ
  pub expected_assets : ℕ
  pub allocation_change : ℤ

unfoldable pub expected_adapter_assets : ℕ → ProjectedMarketState → Result MathError ℕ
expected_adapter_assets internal_supply_shares market = map_err arithmetic (
    to_supply_assets_down internal_supply_shares market.total_supply_assets
      market.total_supply_shares)

unfoldable pub signed_difference : ℕ → ℕ → Result MathError ℤ
signed_difference after before = do
  later ← ok_or (to_i256 after) signed_conversion
  earlier ← ok_or (to_i256 before) signed_conversion
  ok_or (checked_sub_i256 later earlier) invariant

-- The rates and the liquidity recomputed from the market's totals.
unfoldable pub refresh_rates : ProjectedMarketState → ℕ → Result MathError ProjectedMarketState
refresh_rates market fee = do
  fail_if (ltb market.total_supply_assets market.total_borrow_assets || ltb wad fee) invariant
  utilization ← utilization_of market.total_borrow_assets market.total_supply_assets
  spot_borrow_rate ← adaptive_curve_spot_rate utilization market.ending_rate_at_target
  spot_supply_rate ← supply_rate_of spot_borrow_rate utilization fee
  liquidity ← ok_or (checked_sub market.total_supply_assets market.total_borrow_assets) invariant
  ok (record market {
    utilization = utilization;
    spot_borrow_rate = spot_borrow_rate;
    spot_supply_rate = spot_supply_rate;
    accounting_liquidity = liquidity;
  })

unfoldable pub allocate :
    ProjectedMarketState → ℕ → ℕ → ℕ → ℕ → Result MathError AdapterTransitionResult
allocate accrued internal requested_assets parent_recorded_allocation market_fee = do
  minted_shares ← map_err arithmetic (
      to_supply_shares_down requested_assets accrued.total_supply_assets
        accrued.total_supply_shares)
  fail_if (not (requested_assets == 0) && ltb minted_shares requested_assets) share_price_above_one
  supply_assets ←
      ok_or (checked_add accrued.total_supply_assets requested_assets) (arithmetic overflow)
  supply_shares ←
      ok_or (checked_add accrued.total_supply_shares minted_shares) (arithmetic overflow)
  internal_supply_shares ← ok_or (checked_add internal minted_shares) (arithmetic overflow)
  market ←
      refresh_rates
        (record accrued {
          total_supply_assets = supply_assets;
          total_supply_shares = supply_shares;
        })
        market_fee
  expected_assets ← expected_adapter_assets internal_supply_shares market
  allocation_change ← signed_difference expected_assets parent_recorded_allocation
  ok (record {
    market = market;
    internal_supply_shares = internal_supply_shares;
    changed_shares = minted_shares;
    expected_assets = expected_assets;
    allocation_change = allocation_change;
  })

unfoldable pub deallocate :
    ProjectedMarketState → ℕ → ℕ → ℕ → ℕ → ℕ → Result MathError AdapterTransitionResult
deallocate accrued internal requested_assets parent_recorded_allocation morpho_token_balance
      market_fee =
    do
      fail_if
          (ltb accrued.accounting_liquidity requested_assets
            || ltb morpho_token_balance requested_assets)
          insufficient_liquidity
      burned_shares ← map_err arithmetic (
          to_supply_shares_up requested_assets accrued.total_supply_assets
            accrued.total_supply_shares)
      fail_if (ltb internal burned_shares) insufficient_shares
      supply_assets ←
          ok_or (checked_sub accrued.total_supply_assets requested_assets) (arithmetic underflow)
      supply_shares ←
          ok_or (checked_sub accrued.total_supply_shares burned_shares) (arithmetic underflow)
      internal_supply_shares ← ok_or (checked_sub internal burned_shares) (arithmetic underflow)
      market ←
          refresh_rates
            (record accrued {
              total_supply_assets = supply_assets;
              total_supply_shares = supply_shares;
            })
            market_fee
      expected_assets ← expected_adapter_assets internal_supply_shares market
      allocation_change ← signed_difference expected_assets parent_recorded_allocation
      ok (record {
        market = market;
        internal_supply_shares = internal_supply_shares;
        changed_shares = burned_shares;
        expected_assets = expected_assets;
        allocation_change = allocation_change;
      })
