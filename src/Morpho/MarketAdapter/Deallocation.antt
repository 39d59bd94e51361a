-- ===== src/Morpho/MarketAdapter/Deallocation.antt =====
-- What `deallocate` of src/morpho/market_adapter.rs moves.
use rbot_v.Prelude.{
  ℕ, ◌+◌, ◌≤◌, ◌≡◌, ◌||◌, false, ok, ok_or, map_err, fail_if, ltb, arith, returns, ensured, step,
}
use rbot_v.Prelude.Words.{checked_sub}
use rbot_v.Prelude.Checked.{sub_ok, fail_if_ok, map_err_ok}
use rbot_v.Prelude.Int.{pos_part, neg_part}
use rbot_v.Domain.{
  underflow, arithmetic, insufficient_shares, insufficient_liquidity, ProjectedMarketState,
}
use rbot_v.Morpho.BlueMath.{to_supply_shares_up, to_supply_assets_down}
use rbot_v.Morpho.MarketAdapter.{
  AdapterTransitionResult, expected_adapter_assets, signed_difference, refresh_rates, deallocate,
}
use rbot_v.Morpho.MarketAdapter.Allocation.{expected_adapter_assets_ok}
use rbot_v.Morpho.MarketAdapter.Refresh.{refresh_rates-Refreshes, signed_difference_ok}

-- What a deallocation of `requested` assets by an adapter with `internal` shares and a recorded
-- allocation did; `balance` is Morpho's token balance.
pub record Deallocates (accrued : ProjectedMarketState) (internal requested recorded balance : ℕ)
    (r : AdapterTransitionResult) : Type 0 where
  pub supply_assets : r.market.total_supply_assets + requested ≡ accrued.total_supply_assets
  pub supply_shares : r.market.total_supply_shares + r.changed_shares ≡ accrued.total_supply_shares
  pub own_shares : r.internal_supply_shares + r.changed_shares ≡ internal
  pub borrow_assets : r.market.total_borrow_assets ≡ accrued.total_borrow_assets
  pub liquidity :
      r.market.accounting_liquidity + requested + accrued.total_borrow_assets
      ≡ accrued.total_supply_assets
  pub liquid : requested ≤ accrued.accounting_liquidity
  pub funded : requested ≤ balance
  pub change :
      pos_part r.allocation_change + recorded ≡ neg_part r.allocation_change + r.expected_assets
  pub burn_rate :
      to_supply_shares_up requested accrued.total_supply_assets accrued.total_supply_shares
      ≡ ok r.changed_shares
  pub valued :
      to_supply_assets_down r.internal_supply_shares r.market.total_supply_assets
        r.market.total_supply_shares
      ≡ ok r.expected_assets

both_liquid : (l b q : ℕ) → (ltb l q || ltb b q) ≡ false → (q ≤ l) × (q ≤ b)
both_liquid l b q h = ground arith

-- A successful deallocation takes the requested assets out of the supply and out of the liquidity,
-- within the accounted liquidity and Morpho's token balance, burns the same shares of the market
-- and of the adapter, which are what the assets cost rounded up, leaves the debt alone, values the
-- shares that remain at what they redeem for, rounded down, and reports the exact change from the
-- recorded allocation to that value.
pub deallocate-Deallocates :
    (accrued : ProjectedMarketState) (internal requested recorded balance fee : ℕ)
    (r : AdapterTransitionResult)
    → deallocate accrued internal requested recorded balance fee ≡ ok r
    → Deallocates accrued internal requested recorded balance r
unfolding deallocate
deallocate-Deallocates accrued internal requested recorded balance fee r =
    ensured (Deallocates accrued internal requested recorded balance) (
      step _
        (fail_if (ltb accrued.accounting_liquidity requested || ltb balance requested)
          insufficient_liquidity)
        λ u hl.
          step _
            (map_err arithmetic (
              to_supply_shares_up requested accrued.total_supply_assets
                accrued.total_supply_shares))
            λ burned hb. step _ (fail_if (ltb internal burned) insufficient_shares) λ _ _.
              step _
                (ok_or (checked_sub accrued.total_supply_assets requested) (arithmetic underflow))
                λ supply_assets ha.
                  step _
                    (ok_or (checked_sub accrued.total_supply_shares burned) (arithmetic underflow))
                    λ supply_shares hs.
                      step _ (ok_or (checked_sub internal burned) (arithmetic underflow)) λ own hi.
                        let updated = record accrued {
                          total_supply_assets = supply_assets;
                          total_supply_shares = supply_shares;
                        } in
                        step _ (refresh_rates updated fee) λ market hr.
                          step _ (expected_adapter_assets own market) λ expected hv.
                            step _ (signed_difference expected recorded) λ change hc.
                              let refreshed = ensured _ (refresh_rates-Refreshes updated fee) hr in
                              let assets_taken =
                                sub_ok _ accrued.total_supply_assets requested supply_assets ha in
                              let shares_taken =
                                sub_ok _ accrued.total_supply_shares burned supply_shares hs in
                              let own_taken = sub_ok _ internal burned own hi in
                              let (liquid, funded) =
                                both_liquid accrued.accounting_liquidity balance requested
                                  (fail_if_ok _ _ u hl) in
                              returns (record {
                                supply_assets = omega arith;
                                supply_shares = omega arith;
                                own_shares = omega arith;
                                borrow_assets = omega arith;
                                liquidity = omega arith;
                                liquid = liquid;
                                funded = funded;
                                change = signed_difference_ok expected recorded change hc;
                                burn_rate = map_err_ok arithmetic _ burned hb;
                                valued = expected_adapter_assets_ok own market expected hv;
                              }))
