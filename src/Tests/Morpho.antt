-- ===== src/Tests/Morpho.antt =====
-- Runs of the definitions of the Morpho modules at concrete markets.
use rbot_v.Prelude.{
  ◌-◌, ◌≡◌, ◌↔◌, ℕ, ◌≤◌, ◌*◌, ◌+◌, ◌<◌, true, some, [], ◌∷◌, Result, ok, err, refl, inr, arith,
}
use rbot_v.Domain.{StoredMarketState, ProjectedMarketState, ParentVaultState}
use rbot_v.Prelude.Int.{pos}
use rbot_v.Morpho.AdaptiveCurve.{Shifts, AdaptiveCurveProjection}
use rbot_v.Morpho.AdaptiveCurve.Bounds.{spot_rate_bounds}
use rbot_v.Morpho.AdaptiveCurve.Targets.{ending_rate_bounds, IsStorable}
use rbot_v.Morpho.Fees.{MarketAccrualResult}
use rbot_v.Morpho.VaultV2.{ParentAccrualResult}
use rbot_v.Morpho.VaultV2.Accrual.{Reports, accrue_parent_view-Reports}
use rbot_v.Morpho.MarketAdapter.{AdapterTransitionResult}
use rbot_v.Morpho.MarketAdapter.Allocation.{allocate-no_gain}
use rbot_v.Morpho.MarketAdapter.Deallocation.{Deallocates, deallocate-Deallocates}
use rbot_v.Morpho.BlueMath.Rounding.{mul_div_rounding}
use rbot_v.Morpho.BlueMath.Shares.{assets_down-shares_down_le, assets_up-shares_up_ge}
use rbot_v.Prelude.Words.{u256_limit}
use rbot_v.Prelude.Int.{i256_limit}
use rbot_v.Morpho.BlueMath.{
  mul_div_down, mul_div_up, w_mul_down, w_div_down, w_div_up, w_taylor_compounded, with_virtuals,
  to_supply_shares_down, to_supply_shares_up, to_supply_assets_down, to_supply_assets_up,
}
use rbot_v.Morpho.AdaptiveCurve.{
  positive, unsigned, checked_neg, w_mul_to_zero, w_div_to_zero, normalized_error, curve,
  adaptive_curve_spot_rate, utilization_of, average_target, exp_series, w_exp, new_rate,
  moved_targets, adapted_targets, targets_of, adaptive_curve_borrow_rate,
}
use rbot_v.Morpho.Fees.{
  require_uint128, fee_shares_of, supply_rate_of, accrual_rates, accrue_market,
}
use rbot_v.Morpho.VaultV2.{
  add_real_assets, performance_fee_assets, management_fee_assets, accrue_parent_view,
}
use rbot_v.Morpho.MarketAdapter.{
  expected_adapter_assets, signed_difference, refresh_rates, allocate, deallocate,
}

-- A value that a test reads out of a run that is known to succeed.
abbrev value_or {ℓ} : {E A : Type ℓ} → Result E A → A → A
value_or (ok a) _ = a
value_or (err _) d = d

-- The shifts of `I256` on the values that the tests reach.
abbrev plain_shifts : Shifts
plain_shifts = record { checked_shr = λ value _. some value; checked_shl = λ value _. some value }

abbrev stored_market : StoredMarketState
stored_market = record {
  market_id = 7;
  total_supply_assets = 1_000_000_000;
  total_supply_shares = 1_000_000_000_000_000;
  total_borrow_assets = 800_000_000;
  total_borrow_shares = 800_000_000_000_000;
  last_update = 1000;
  fee = 100_000_000_000_000_000;
}

abbrev accrued_market : ProjectedMarketState
accrued_market = record {
  market_id = 7;
  timestamp = 1000;
  total_supply_assets = 1_000_000_000;
  total_supply_shares = 1_000_000_000_000_000;
  total_borrow_assets = 800_000_000;
  total_borrow_shares = 800_000_000_000_000;
  average_accrual_borrow_rate = 0;
  ending_rate_at_target = 1_268_391_679;
  spot_borrow_rate = 0;
  spot_supply_rate = 0;
  utilization = 0;
  accounting_liquidity = 200_000_000;
}

abbrev no_transition : AdapterTransitionResult
no_transition = record {
  market = accrued_market;
  internal_supply_shares = 0;
  changed_shares = 0;
  expected_assets = 0;
  allocation_change = pos 0;
}

abbrev allocated : AdapterTransitionResult
unfolding u256_limit i256_limit mul_div_down mul_div_up w_mul_down w_div_down w_div_up
    w_taylor_compounded with_virtuals to_supply_shares_down to_supply_shares_up
    to_supply_assets_down to_supply_assets_up positive unsigned checked_neg w_mul_to_zero
    w_div_to_zero normalized_error curve adaptive_curve_spot_rate utilization_of average_target
    exp_series w_exp new_rate moved_targets adapted_targets targets_of adaptive_curve_borrow_rate
    require_uint128 fee_shares_of supply_rate_of accrual_rates accrue_market add_real_assets
    performance_fee_assets management_fee_assets accrue_parent_view expected_adapter_assets
    signed_difference refresh_rates allocate deallocate
allocated = value_or (allocate accrued_market 0 5000 0 0) no_transition

allocate-no_gain_example : allocated.expected_assets ≤ 5000
unfolding u256_limit i256_limit mul_div_down mul_div_up w_mul_down w_div_down w_div_up
    w_taylor_compounded with_virtuals to_supply_shares_down to_supply_shares_up
    to_supply_assets_down to_supply_assets_up positive unsigned checked_neg w_mul_to_zero
    w_div_to_zero normalized_error curve adaptive_curve_spot_rate utilization_of average_target
    exp_series w_exp new_rate moved_targets adapted_targets targets_of adaptive_curve_borrow_rate
    require_uint128 fee_shares_of supply_rate_of accrual_rates accrue_market add_real_assets
    performance_fee_assets management_fee_assets accrue_parent_view expected_adapter_assets
    signed_difference refresh_rates allocate deallocate
allocate-no_gain_example = allocate-no_gain accrued_market 5000 0 0 allocated refl

abbrev deallocated : AdapterTransitionResult
unfolding u256_limit i256_limit mul_div_down mul_div_up w_mul_down w_div_down w_div_up
    w_taylor_compounded with_virtuals to_supply_shares_down to_supply_shares_up
    to_supply_assets_down to_supply_assets_up positive unsigned checked_neg w_mul_to_zero
    w_div_to_zero normalized_error curve adaptive_curve_spot_rate utilization_of average_target
    exp_series w_exp new_rate moved_targets adapted_targets targets_of adaptive_curve_borrow_rate
    require_uint128 fee_shares_of supply_rate_of accrual_rates accrue_market add_real_assets
    performance_fee_assets management_fee_assets accrue_parent_view expected_adapter_assets
    signed_difference refresh_rates allocate deallocate
deallocated = value_or (deallocate accrued_market 9_000_000_000 5000 9000 1_000_000 0) no_transition

deallocate-Deallocates_example :
    Deallocates accrued_market 9_000_000_000 5000 9000 1_000_000 deallocated
unfolding u256_limit i256_limit mul_div_down mul_div_up w_mul_down w_div_down w_div_up
    w_taylor_compounded with_virtuals to_supply_shares_down to_supply_shares_up
    to_supply_assets_down to_supply_assets_up positive unsigned checked_neg w_mul_to_zero
    w_div_to_zero normalized_error curve adaptive_curve_spot_rate utilization_of average_target
    exp_series w_exp new_rate moved_targets adapted_targets targets_of adaptive_curve_borrow_rate
    require_uint128 fee_shares_of supply_rate_of accrual_rates accrue_market add_real_assets
    performance_fee_assets management_fee_assets accrue_parent_view expected_adapter_assets
    signed_difference refresh_rates allocate deallocate
deallocate-Deallocates_example =
    deallocate-Deallocates accrued_market 9_000_000_000 5000 9000 1_000_000 0 deallocated refl

abbrev no_accrual : MarketAccrualResult
no_accrual = record { market = accrued_market; interest_assets = 0; fee_shares = 0 }

abbrev accrued_result : MarketAccrualResult
unfolding u256_limit i256_limit mul_div_down mul_div_up w_mul_down w_div_down w_div_up
    w_taylor_compounded with_virtuals to_supply_shares_down to_supply_shares_up
    to_supply_assets_down to_supply_assets_up positive unsigned checked_neg w_mul_to_zero
    w_div_to_zero normalized_error curve adaptive_curve_spot_rate utilization_of average_target
    exp_series w_exp new_rate moved_targets adapted_targets targets_of adaptive_curve_borrow_rate
    require_uint128 fee_shares_of supply_rate_of accrual_rates accrue_market add_real_assets
    performance_fee_assets management_fee_assets accrue_parent_view expected_adapter_assets
    signed_difference refresh_rates allocate deallocate
accrued_result = value_or (accrue_market plain_shifts stored_market 4600 1_268_391_679) no_accrual

abbrev projection : AdaptiveCurveProjection
unfolding u256_limit i256_limit mul_div_down mul_div_up w_mul_down w_div_down w_div_up
    w_taylor_compounded with_virtuals to_supply_shares_down to_supply_shares_up
    to_supply_assets_down to_supply_assets_up positive unsigned checked_neg w_mul_to_zero
    w_div_to_zero normalized_error curve adaptive_curve_spot_rate utilization_of average_target
    exp_series w_exp new_rate moved_targets adapted_targets targets_of adaptive_curve_borrow_rate
    require_uint128 fee_shares_of supply_rate_of accrual_rates accrue_market add_real_assets
    performance_fee_assets management_fee_assets accrue_parent_view expected_adapter_assets
    signed_difference refresh_rates allocate deallocate
projection =
    value_or (adaptive_curve_borrow_rate plain_shifts stored_market 1_268_391_679 3600)
      (record { average_rate = 0; ending_rate_at_target = 0 })

ending_rate_bounds_example : IsStorable projection.ending_rate_at_target
unfolding u256_limit i256_limit mul_div_down mul_div_up w_mul_down w_div_down w_div_up
    w_taylor_compounded with_virtuals to_supply_shares_down to_supply_shares_up
    to_supply_assets_down to_supply_assets_up positive unsigned checked_neg w_mul_to_zero
    w_div_to_zero normalized_error curve adaptive_curve_spot_rate utilization_of average_target
    exp_series w_exp new_rate moved_targets adapted_targets targets_of adaptive_curve_borrow_rate
    require_uint128 fee_shares_of supply_rate_of accrual_rates accrue_market add_real_assets
    performance_fee_assets management_fee_assets accrue_parent_view expected_adapter_assets
    signed_difference refresh_rates allocate deallocate
ending_rate_bounds_example =
    ending_rate_bounds plain_shifts stored_market 1_268_391_679 3600 projection (inr (ground arith))
      refl

abbrev spot_rate : ℕ
unfolding u256_limit i256_limit mul_div_down mul_div_up w_mul_down w_div_down w_div_up
    w_taylor_compounded with_virtuals to_supply_shares_down to_supply_shares_up
    to_supply_assets_down to_supply_assets_up positive unsigned checked_neg w_mul_to_zero
    w_div_to_zero normalized_error curve adaptive_curve_spot_rate utilization_of average_target
    exp_series w_exp new_rate moved_targets adapted_targets targets_of adaptive_curve_borrow_rate
    require_uint128 fee_shares_of supply_rate_of accrual_rates accrue_market add_real_assets
    performance_fee_assets management_fee_assets accrue_parent_view expected_adapter_assets
    signed_difference refresh_rates allocate deallocate
spot_rate = value_or (adaptive_curve_spot_rate 950_000_000_000_000_000 1_268_391_679) 0

spot_rate_bounds_example : (spot_rate ≤ 4 * 1_268_391_679) × (1_268_391_679 ≤ 4 * spot_rate + 4)
unfolding u256_limit i256_limit mul_div_down mul_div_up w_mul_down w_div_down w_div_up
    w_taylor_compounded with_virtuals to_supply_shares_down to_supply_shares_up
    to_supply_assets_down to_supply_assets_up positive unsigned checked_neg w_mul_to_zero
    w_div_to_zero normalized_error curve adaptive_curve_spot_rate utilization_of average_target
    exp_series w_exp new_rate moved_targets adapted_targets targets_of adaptive_curve_borrow_rate
    require_uint128 fee_shares_of supply_rate_of accrual_rates accrue_market add_real_assets
    performance_fee_assets management_fee_assets accrue_parent_view expected_adapter_assets
    signed_difference refresh_rates allocate deallocate
spot_rate_bounds_example = spot_rate_bounds 950_000_000_000_000_000 1_268_391_679 spot_rate refl

abbrev vault_state : ParentVaultState
vault_state = record {
  idle_assets = 1_000_000;
  stored_total_assets = 5_000_000;
  last_update = 1000;
  max_rate = 1_000_000_000_000;
  total_supply = 5_000_000;
  virtual_shares = 1_000_000;
  performance_fee = 100_000_000_000_000_000;
  performance_fee_recipient_allowed = true;
  management_fee = 1_000_000;
  management_fee_recipient_allowed = true;
}

abbrev vault_view : ParentAccrualResult
unfolding u256_limit i256_limit mul_div_down mul_div_up w_mul_down w_div_down w_div_up
    w_taylor_compounded with_virtuals to_supply_shares_down to_supply_shares_up
    to_supply_assets_down to_supply_assets_up positive unsigned checked_neg w_mul_to_zero
    w_div_to_zero normalized_error curve adaptive_curve_spot_rate utilization_of average_target
    exp_series w_exp new_rate moved_targets adapted_targets targets_of adaptive_curve_borrow_rate
    require_uint128 fee_shares_of supply_rate_of accrual_rates accrue_market add_real_assets
    performance_fee_assets management_fee_assets accrue_parent_view expected_adapter_assets
    signed_difference refresh_rates allocate deallocate
vault_view =
    value_or (accrue_parent_view vault_state (2_000_000 ∷ 2_100_000 ∷ []) 100_000) (record {
      total_assets = 0;
      projected_total_supply = 0;
      performance_fee_shares = 0;
      management_fee_shares = 0;
    })

accrue_parent_view-Reports_example :
    Reports vault_state (2_000_000 ∷ 2_100_000 ∷ []) 100_000 vault_view
unfolding u256_limit i256_limit mul_div_down mul_div_up w_mul_down w_div_down w_div_up
    w_taylor_compounded with_virtuals to_supply_shares_down to_supply_shares_up
    to_supply_assets_down to_supply_assets_up positive unsigned checked_neg w_mul_to_zero
    w_div_to_zero normalized_error curve adaptive_curve_spot_rate utilization_of average_target
    exp_series w_exp new_rate moved_targets adapted_targets targets_of adaptive_curve_borrow_rate
    require_uint128 fee_shares_of supply_rate_of accrual_rates accrue_market add_real_assets
    performance_fee_assets management_fee_assets accrue_parent_view expected_adapter_assets
    signed_difference refresh_rates allocate deallocate
accrue_parent_view-Reports_example =
    accrue_parent_view-Reports vault_state (2_000_000 ∷ 2_100_000 ∷ []) 100_000 vault_view refl

mul_div_rounding_example :
    ((mul_div_down 7 1 2 ≡ ok 3)
      ↔ ((0 < 2) × (7 * 1 < u256_limit) × (3 * 2 ≤ 7 * 1) × (7 * 1 < (3 + 1) * 2)))
    × ((mul_div_up 7 1 2 ≡ ok 3)
        ↔ ((0 < 2) × (7 * 1 + (2 - 1) < u256_limit) × (7 * 1 ≤ 3 * 2) × (3 * 2 < 7 * 1 + 2)))
unfolding u256_limit i256_limit mul_div_down mul_div_up w_mul_down w_div_down w_div_up
    w_taylor_compounded with_virtuals to_supply_shares_down to_supply_shares_up
    to_supply_assets_down to_supply_assets_up positive unsigned checked_neg w_mul_to_zero
    w_div_to_zero normalized_error curve adaptive_curve_spot_rate utilization_of average_target
    exp_series w_exp new_rate moved_targets adapted_targets targets_of adaptive_curve_borrow_rate
    require_uint128 fee_shares_of supply_rate_of accrual_rates accrue_market add_real_assets
    performance_fee_assets management_fee_assets accrue_parent_view expected_adapter_assets
    signed_difference refresh_rates allocate deallocate
mul_div_rounding_example = mul_div_rounding 7 1 2 3

assets_down-shares_down_le_example : 99 ≤ 100
unfolding u256_limit i256_limit mul_div_down mul_div_up w_mul_down w_div_down w_div_up
    w_taylor_compounded with_virtuals to_supply_shares_down to_supply_shares_up
    to_supply_assets_down to_supply_assets_up positive unsigned checked_neg w_mul_to_zero
    w_div_to_zero normalized_error curve adaptive_curve_spot_rate utilization_of average_target
    exp_series w_exp new_rate moved_targets adapted_targets targets_of adaptive_curve_borrow_rate
    require_uint128 fee_shares_of supply_rate_of accrual_rates accrue_market add_real_assets
    performance_fee_assets management_fee_assets accrue_parent_view expected_adapter_assets
    signed_difference refresh_rates allocate deallocate
assets_down-shares_down_le_example =
    assets_down-shares_down_le 100 1_000_000 3_000_000 399 99 refl refl

assets_up-shares_up_ge_example : 100 ≤ 101
unfolding u256_limit i256_limit mul_div_down mul_div_up w_mul_down w_div_down w_div_up
    w_taylor_compounded with_virtuals to_supply_shares_down to_supply_shares_up
    to_supply_assets_down to_supply_assets_up positive unsigned checked_neg w_mul_to_zero
    w_div_to_zero normalized_error curve adaptive_curve_spot_rate utilization_of average_target
    exp_series w_exp new_rate moved_targets adapted_targets targets_of adaptive_curve_borrow_rate
    require_uint128 fee_shares_of supply_rate_of accrual_rates accrue_market add_real_assets
    performance_fee_assets management_fee_assets accrue_parent_view expected_adapter_assets
    signed_difference refresh_rates allocate deallocate
assets_up-shares_up_ge_example = assets_up-shares_up_ge 100 1_000_000 3_000_000 400 101 refl refl
