-- ===== src/Morpho/Fees/Accrual.antt =====
-- What a successful market accrual of src/morpho/fees.rs changes, and what it keeps.
use rbot_v.Prelude.{◌+◌, ◌<◌, ◌≡◌}
use rbot_v.Prelude.Words.{u128_limit}
use rbot_v.Domain.{StoredMarketState}
use rbot_v.Morpho.Fees.{MarketAccrualResult}

-- What an accrual did to a market: the interest is added to both sides, the fee shares to the
-- supply shares, every total fits its 128 bits, and the liquidity is the one before.
pub record Accrues (stored : StoredMarketState) (r : MarketAccrualResult) : Type 0 where
  pub supply_grows : r.market.total_supply_assets ≡ stored.total_supply_assets + r.interest_assets
  pub borrow_grows : r.market.total_borrow_assets ≡ stored.total_borrow_assets + r.interest_assets
  pub shares_grow : r.market.total_supply_shares ≡ stored.total_supply_shares + r.fee_shares
  pub liquidity_stays :
      r.market.accounting_liquidity + stored.total_borrow_assets ≡ stored.total_supply_assets
  pub supply_fits : r.market.total_supply_assets < u128_limit
  pub borrow_fits : r.market.total_borrow_assets < u128_limit
  pub shares_fit : r.market.total_supply_shares < u128_limit
