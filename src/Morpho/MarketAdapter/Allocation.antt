-- ===== src/Morpho/MarketAdapter/Allocation.antt =====
-- What `allocate` of src/morpho/market_adapter.rs moves, and that it creates no value.
use rbot_v.Prelude.{
  ℕ, ◌+◌, ◌≤◌, ◌≡◌, not, ◌&&◌, false, ok, ok_or, map_err, fail_if, ltb, ◌==◌, arith, returns,
  ensured, step,
}
use rbot_v.Prelude.Words.{checked_add}
use rbot_v.Prelude.Checked.{add_ok, fail_if_ok, map_err_ok}
use rbot_v.Prelude.Int.{pos_part, neg_part}
use rbot_v.Domain.{overflow, arithmetic, share_price_above_one, ProjectedMarketState}
use rbot_v.Morpho.BlueMath.{
  virtual_shares, virtual_assets, to_supply_assets_down, to_supply_shares_down,
}
use rbot_v.Morpho.BlueMath.Rounding.{mul_div_down-le, le-cancel_mul}
use rbot_v.Morpho.BlueMath.Shares.{shares_down_inv, assets_down_inv}
use rbot_v.Morpho.MarketAdapter.{
  AdapterTransitionResult, expected_adapter_assets, signed_difference, refresh_rates, allocate,
}
use rbot_v.Morpho.MarketAdapter.Refresh.{refresh_rates-Refreshes, signed_difference_ok}

pub expected_adapter_assets_ok :
    (shares : ℕ) (m : ProjectedMarketState) (q : ℕ)
    → expected_adapter_assets shares m ≡ ok q
    → to_supply_assets_down shares m.total_supply_assets m.total_supply_shares ≡ ok q
unfolding expected_adapter_assets
expected_adapter_assets_ok shares m q h = map_err_ok arithmetic _ q h

-- What an allocation of `requested` assets by an adapter with `internal` shares and a recorded
-- allocation did to the accrued market.
pub record Allocates (accrued : ProjectedMarketState) (internal requested recorded : ℕ)
    (r : AdapterTransitionResult) : Type 0 where
  pub supply_assets : r.market.total_supply_assets ≡ accrued.total_supply_assets + requested
  pub supply_shares : r.market.total_supply_shares ≡ accrued.total_supply_shares + r.changed_shares
  pub own_shares : r.internal_supply_shares ≡ internal + r.changed_shares
  pub borrow_assets : r.market.total_borrow_assets ≡ accrued.total_borrow_assets
  pub liquidity :
      r.market.accounting_liquidity + accrued.total_borrow_assets
      ≡ accrued.total_supply_assets + requested
  pub minted : requested ≤ r.changed_shares
  pub change :
      pos_part r.allocation_change + recorded ≡ neg_part r.allocation_change + r.expected_assets
  pub mint_rate :
      to_supply_shares_down requested accrued.total_supply_assets accrued.total_supply_shares
      ≡ ok r.changed_shares
  pub valued :
      to_supply_assets_down r.internal_supply_shares r.market.total_supply_assets
        r.market.total_supply_shares
      ≡ ok r.expected_assets

enough_minted :
    (requested minted : ℕ)
    → (not (requested == 0) && ltb minted requested) ≡ false
    → requested ≤ minted
enough_minted requested minted h = ground arith

pub allocate-Allocates :
    (accrued : ProjectedMarketState) (internal requested recorded fee : ℕ)
    (r : AdapterTransitionResult)
    → allocate accrued internal requested recorded fee ≡ ok r
    → Allocates accrued internal requested recorded r
unfolding allocate
allocate-Allocates accrued internal requested recorded fee r =
    ensured (Allocates accrued internal requested recorded) (
      step _
        (map_err arithmetic
          (to_supply_shares_down requested accrued.total_supply_assets accrued.total_supply_shares))
        λ minted hq.
          step _ (fail_if (not (requested == 0) && ltb minted requested) share_price_above_one)
            λ u hm.
              step _
                (ok_or (checked_add accrued.total_supply_assets requested) (arithmetic overflow))
                λ supply_assets ha.
                  step _
                    (ok_or (checked_add accrued.total_supply_shares minted) (arithmetic overflow))
                    λ supply_shares hs.
                      step _ (ok_or (checked_add internal minted) (arithmetic overflow)) λ own hi.
                        let updated = record accrued {
                          total_supply_assets = supply_assets;
                          total_supply_shares = supply_shares;
                        } in
                        step _ (refresh_rates updated fee) λ market hr.
                          step _ (expected_adapter_assets own market) λ expected hv.
                            step _ (signed_difference expected recorded) λ change hc.
                              let refreshed = ensured _ (refresh_rates-Refreshes updated fee) hr in
                              let assets_added =
                                add_ok _ accrued.total_supply_assets requested supply_assets ha in
                              let shares_added =
                                add_ok _ accrued.total_supply_shares minted supply_shares hs in
                              let own_added = add_ok _ internal minted own hi in
                              returns (record {
                                supply_assets = omega arith;
                                supply_shares = omega arith;
                                own_shares = omega arith;
                                borrow_assets = omega arith;
                                liquidity = omega arith;
                                minted = enough_minted requested minted (fail_if_ok _ _ u hm);
                                change = signed_difference_ok expected recorded change hc;
                                mint_rate = map_err_ok arithmetic _ minted hq;
                                valued = expected_adapter_assets_ok own market expected hv;
                              }))

fresh_shares_value :
    (a t s m q : ℕ)
    → to_supply_shares_down a t s ≡ ok m
    → to_supply_assets_down m (t + a) (s + m) ≡ ok q
    → q ≤ a
fresh_shares_value a t s m q hm hq = le-cancel_mul q a (s + m + virtual_shares) (omega arith) (
    omega (
      arith,
      mul_div_down-le a (s + virtual_shares) (t + virtual_assets) m (shares_down_inv a t s m hm),
      mul_div_down-le m (t + a + virtual_assets) (s + m + virtual_shares) q
          (assets_down_inv m (t + a) (s + m) q hq),
    ))

-- An adapter that holds no shares cannot gain by an allocation: after one its expected assets are
-- at most the assets it put in.
pub allocate-no_gain :
    (accrued : ProjectedMarketState) (requested recorded fee : ℕ) (r : AdapterTransitionResult)
    → allocate accrued 0 requested recorded fee ≡ ok r
    → r.expected_assets ≤ requested
allocate-no_gain accrued requested recorded fee r h =
    let done = allocate-Allocates accrued 0 requested recorded fee r h in
    let own : r.internal_supply_shares ≡ r.changed_shares = omega arith in
    fresh_shares_value requested accrued.total_supply_assets accrued.total_supply_shares
      r.changed_shares r.expected_assets done.mint_rate
      (rw (← done.supply_shares, ← done.supply_assets, ← own) done.valued)
