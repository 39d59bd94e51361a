-- ===== src/Morpho/MarketAdapter/Refresh.antt =====
-- The last steps that both transitions of src/morpho/market_adapter.rs share.
use rbot_v.Prelude.{ℕ, ◌+◌, ◌≡◌, ◌||◌, ok, ok_or, fail_if, ltb, arith, Ensures, returns, step}
use rbot_v.Prelude.Words.{checked_sub}
use rbot_v.Prelude.Checked.{sub_ok}
use rbot_v.Prelude.Int.{ℤ, pos_part, neg_part}
use rbot_v.Domain.{invariant, ProjectedMarketState}
use rbot_v.Morpho.BlueMath.{wad}
use rbot_v.Morpho.AdaptiveCurve.{utilization_of, adaptive_curve_spot_rate}
use rbot_v.Morpho.Fees.{supply_rate_of}
use rbot_v.Morpho.MarketAdapter.{signed_difference, refresh_rates}

-- A refresh keeps the totals, and the liquidity becomes what they leave.
pub record Refreshes (m m' : ProjectedMarketState) : Type 0 where
  pub supply_assets : m'.total_supply_assets ≡ m.total_supply_assets
  pub supply_shares : m'.total_supply_shares ≡ m.total_supply_shares
  pub borrow_assets : m'.total_borrow_assets ≡ m.total_borrow_assets
  pub liquidity : m'.accounting_liquidity + m.total_borrow_assets ≡ m.total_supply_assets

pub refresh_rates-Refreshes :
    (m : ProjectedMarketState) (fee : ℕ) → Ensures (Refreshes m) (refresh_rates m fee)
unfolding refresh_rates
refresh_rates-Refreshes m fee =
    step _ (fail_if (ltb m.total_supply_assets m.total_borrow_assets || ltb wad fee) invariant)
      λ _ _. step _ (utilization_of m.total_borrow_assets m.total_supply_assets) λ u _.
        step _ (adaptive_curve_spot_rate u m.ending_rate_at_target) λ spot _.
          step _ (supply_rate_of spot u fee) λ rate _.
            step _ (ok_or (checked_sub m.total_supply_assets m.total_borrow_assets) invariant)
              λ liquidity h.
                returns
                  (omega (arith, sub_ok _ m.total_supply_assets m.total_borrow_assets liquidity h))

pub signed_difference_ok :
    (after before : ℕ) (d : ℤ)
    → signed_difference after before ≡ ok d
    → pos_part d + before ≡ neg_part d + after
unfolding signed_difference
signed_difference_ok after before d h = ground arith
