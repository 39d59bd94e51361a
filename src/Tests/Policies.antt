-- ===== src/Tests/Policies.antt =====
-- Runs of the transaction policies, of the readiness gate and of the caps.
use rbot_v.Prelude.{ℕ, ◌≤◌, ◌<◌, ◌+◌, ◌*◌, ◌/◌, true, false, [], ok, ◌≡◌, ◌⊎◌, ◌↔◌, refl, arith}
use rbot_v.Domain.{rate_rebalance}
use rbot_v.Transaction.Pending.{
  CancellationReason, PendingSafetySignals, PendingClock, ExecutionConfig, replace, cancel, IsQuiet,
  IsTimely, assess_pending-replace, assess_pending-expired,
}
use rbot_v.Transaction.Fees.{signed_gas_limit_lem, initial_fee_quote-validate_replacement_fees}
use rbot_v.Runtime.Readiness.{ReadinessInputs, execute_mode, evaluate_readiness-reasons}
use rbot_v.State.Caps.{CapState, validate_allocation_cap_lem}
use rbot_v.Prelude.Words.{u256_limit}
use rbot_v.Prelude.Int.{i256_limit}
use rbot_v.Transaction.Pending.{
  pending_horizon, cancellation_signal, decide_by_age, decide, assess_pending,
}
use rbot_v.Transaction.Fees.{signed_gas_limit, initial_fee_quote, validate_replacement_fees}
use rbot_v.Runtime.Readiness.{reasons_of, observation, execution, evaluate_readiness}
use rbot_v.State.Caps.{validate_allocation_cap}
use rbot_v.Morpho.BlueMath.{
  mul_div_down, mul_div_up, w_mul_down, w_div_down, w_div_up, w_taylor_compounded, with_virtuals,
  to_supply_shares_down, to_supply_shares_up, to_supply_assets_down, to_supply_assets_up,
}
use rbot_v.Morpho.BlueMath.{wad}

abbrev quiet : PendingSafetySignals
quiet = record {
  material = false;
  reversed = false;
  service_failed = false;
  reward_expired = false;
  role_lost = false;
  ambiguous = false;
  idle_lock_created = false;
}

abbrev clock : PendingClock
clock = record { reason = rate_rebalance; submitted_at = 100; last_attempt_at = 104 }

abbrev policy : ExecutionConfig
policy = record {
  maximum_rate_rebalance_pending = 40;
  maximum_capital_deployment_pending = 60;
  maximum_liquidity_maintenance_pending = 80;
  replacement_after = 5;
  cancel_when_remaining = 3;
}

assess_pending-replace_example : (assess_pending clock 110 quiet policy ≡ ok replace) ↔ (
    (100 ≤ 110)
    × (5 + 104 ≤ 110)
    × (104 ≤ 110)
    × (quiet.ambiguous ≡ false)
    × IsQuiet rate_rebalance quiet
    × ((horizon : ℕ) × (pending_horizon rate_rebalance policy ≡ ok horizon)
        × IsTimely clock 110 policy horizon))
unfolding u256_limit i256_limit pending_horizon cancellation_signal decide_by_age decide
    assess_pending signed_gas_limit initial_fee_quote validate_replacement_fees reasons_of
    observation execution evaluate_readiness validate_allocation_cap mul_div_down mul_div_up
    w_mul_down w_div_down w_div_up w_taylor_compounded with_virtuals to_supply_shares_down
    to_supply_shares_up to_supply_assets_down to_supply_assets_up
assess_pending-replace_example = assess_pending-replace clock 110 quiet policy

assess_pending-expired_example :
    (reason : CancellationReason) × (assess_pending clock 150 quiet policy ≡ ok (cancel reason))
unfolding u256_limit i256_limit pending_horizon cancellation_signal decide_by_age decide
    assess_pending signed_gas_limit initial_fee_quote validate_replacement_fees reasons_of
    observation execution evaluate_readiness validate_allocation_cap mul_div_down mul_div_up
    w_mul_down w_div_down w_div_up w_taylor_compounded with_virtuals to_supply_shares_down
    to_supply_shares_up to_supply_assets_down to_supply_assets_up
assess_pending-expired_example =
    assess_pending-expired clock 150 quiet policy 40 refl (ground arith) (ground arith)
      (ground arith) refl

signed_gas_limit_lem_example :
    (100_000 * (10000 + 2500) ≤ 125_000 * 10000)
    × (125_000 * 10000 < 100_000 * (10000 + 2500) + 10000)
    × (0 < 125_000)
    × (125_000 ≤ 3_000_000)
unfolding u256_limit i256_limit pending_horizon cancellation_signal decide_by_age decide
    assess_pending signed_gas_limit initial_fee_quote validate_replacement_fees reasons_of
    observation execution evaluate_readiness validate_allocation_cap mul_div_down mul_div_up
    w_mul_down w_div_down w_div_up w_taylor_compounded with_virtuals to_supply_shares_down
    to_supply_shares_up to_supply_assets_down to_supply_assets_up
signed_gas_limit_lem_example = signed_gas_limit_lem 100_000 2500 3_000_000 125_000 refl

initial_fee_quote-validate_replacement_fees_example :
    validate_replacement_fees 99 3 (99 + 1) (3 + 1) 100 ≡ ok tt
unfolding u256_limit i256_limit pending_horizon cancellation_signal decide_by_age decide
    assess_pending signed_gas_limit initial_fee_quote validate_replacement_fees reasons_of
    observation execution evaluate_readiness validate_allocation_cap mul_div_down mul_div_up
    w_mul_down w_div_down w_div_up w_taylor_compounded with_virtuals to_supply_shares_down
    to_supply_shares_up to_supply_assets_down to_supply_assets_up
initial_fee_quote-validate_replacement_fees_example =
    initial_fee_quote-validate_replacement_fees 60 3 100 99 3 refl (ground arith)

abbrev all_ready : ReadinessInputs
all_ready = record {
  mode = execute_mode;
  configuration_valid = true;
  protocol_identity_valid = true;
  providers_ready = true;
  chain_caught_up = true;
  storage_ready = true;
  exact_state_ready = true;
  signer_ready = true;
  execution_scopes_ready = true;
  pending_lane = false;
  operator_paused = false;
}

evaluate_readiness-reasons_example :
    ((evaluate_readiness all_ready).ready_for_execute ≡ true)
    ↔ ((evaluate_readiness all_ready).reasons ≡ [])
evaluate_readiness-reasons_example = evaluate_readiness-reasons all_ready

abbrev half_cap : CapState
half_cap = record { absolute_cap = 1000; relative_cap = 500_000_000_000_000_000; allocation = 0 }

validate_allocation_cap_lem_example : (validate_allocation_cap half_cap 800 400 ≡ ok tt) ↔ (
    (0 < half_cap.absolute_cap)
    × (400 ≤ half_cap.absolute_cap)
    × ((half_cap.relative_cap ≡ wad)
        ⊎ ((half_cap.relative_cap < wad)
            × (800 * half_cap.relative_cap < u256_limit)
            × (400 ≤ 800 * half_cap.relative_cap / wad))))
validate_allocation_cap_lem_example = validate_allocation_cap_lem half_cap 800 400
