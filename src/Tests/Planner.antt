-- ===== src/Tests/Planner.antt =====
-- Runs of the planner's ranking, scheduling and distribution of assets.
use rbot_v.Prelude.{ℕ, ◌+◌, ◌≤◌, true, false, some, List, [], ◌∷◌, ◌≡◌, sum, All, Memᴰ, refl, arith}
use rbot_v.Prelude.Int.{negsuc}
use rbot_v.Domain.{ProjectedMarketState, rate_rebalance, liquidity_maintenance}
use rbot_v.Planner.Objective.{ObjectiveMetrics, ranks_before_order}
use rbot_v.Planner.Objective.Spread.{
  strategy_value_at, utilization_spread, complete_strategy_spread-exact,
}
use rbot_v.Planner.Scheduler.{ResourceReservations, SchedulablePlan}
use rbot_v.Planner.Scheduler.Resources.{conflicts_iff}
use rbot_v.Planner.Scheduler.Choice.{IsExecutable, NotAfter, select_next-first}
use rbot_v.Planner.Lattice.Bounded.{HasEnds, build_candidate_lattice-HasEnds}
use rbot_v.Planner.Candidates.Exact.{IsDistribution, bounded_distributions-exact}
use rbot_v.Prelude.Words.{u256_limit}
use rbot_v.Prelude.Int.{i256_limit}
use rbot_v.Planner.Objective.{
  strategy_market_mode_included, deployment_key, reaching_key, spread_key, liquidity_key,
  rebalance_before, ranks_before,
}
use rbot_v.Planner.Objective.Spread.{
  spread_of, map_or, spread_loop, rate_spread, collected_spread, complete_rate_spread,
  strategy_value, complete_strategy_spread,
}
use rbot_v.Planner.Scheduler.{conflicts, priority, is_eligible, schedule_key, select_next}
use rbot_v.Planner.Candidates.{
  insert, set_elem, zeros, indices_from, push_candidate, extend_partial, extend_lattices,
  is_infeasible, insert_bounded, settle_residual, distribute_to, bounded_distributions,
}
use rbot_v.Planner.Lattice.{
  insert_amount, neighbors, neighbors_of, fractions, priority_of, admits, select_amounts,
  insert_sorted, sort_unstable, range_from, is_complete_range, lattice_amounts,
  build_candidate_lattice,
}

abbrev metrics_of : ℕ → ℕ → ObjectiveMetrics
metrics_of spread movement = record {
  final_unreserved_idle = 0;
  deployed_assets = 0;
  applicable_spread = spread;
  secondary_spread = 0;
  terminal_value_delta = negsuc 4;
  movement_assets = movement;
  action_count = 2;
}

-- The first two plans reach the target of 10 and the third does not.
ranks_before_order_example :
    (ranks_before rate_rebalance (metrics_of 9 100) (metrics_of 40 5) 10 true ≡ true)
    × (ranks_before rate_rebalance (metrics_of 40 5) (metrics_of 9 100) 10 true ≡ false)
    × (ranks_before rate_rebalance (metrics_of 9 100) (metrics_of 9 100) 10 true ≡ false)
unfolding u256_limit i256_limit strategy_market_mode_included deployment_key reaching_key spread_key
    liquidity_key rebalance_before ranks_before spread_of map_or spread_loop rate_spread
    collected_spread complete_rate_spread strategy_value complete_strategy_spread conflicts priority
    is_eligible schedule_key select_next insert set_elem zeros indices_from push_candidate
    extend_partial extend_lattices is_infeasible insert_bounded settle_residual distribute_to
    bounded_distributions insert_amount neighbors neighbors_of fractions priority_of admits
    select_amounts insert_sorted sort_unstable range_from is_complete_range lattice_amounts
    build_candidate_lattice
ranks_before_order_example =
    ranks_before_order rate_rebalance (metrics_of 9 100) (metrics_of 3 200) (metrics_of 40 5) 10
      true refl refl

abbrev market_at : ℕ → ProjectedMarketState
market_at value = record {
  market_id = 1;
  timestamp = 0;
  total_supply_assets = 0;
  total_supply_shares = 0;
  total_borrow_assets = 0;
  total_borrow_shares = 0;
  average_accrual_borrow_rate = 0;
  ending_rate_at_target = 0;
  spot_borrow_rate = 7;
  spot_supply_rate = 0;
  utilization = value;
  accounting_liquidity = 0;
}

abbrev market_states : List (ℕ × ProjectedMarketState)
market_states = (1, market_at 30) ∷ (2, market_at 50) ∷ (3, market_at 45) ∷ []

complete_strategy_spread-exact_example :
    (low : ℕ) × (high : ℕ) × (least : ℕ) × Memᴰ low (1 ∷ 2 ∷ 3 ∷ [])
    × Memᴰ high (1 ∷ 2 ∷ 3 ∷ [])
    × (strategy_value_at market_states utilization_spread low ≡ some least)
    × (strategy_value_at market_states utilization_spread high ≡ some (least + 20))
    × All
        (λ market.
          (value : ℕ) × (strategy_value_at market_states utilization_spread market ≡ some value)
          × ((least ≤ value) × (value ≤ least + 20)))
        (1 ∷ 2 ∷ 3 ∷ [])
unfolding u256_limit i256_limit strategy_market_mode_included deployment_key reaching_key spread_key
    liquidity_key rebalance_before ranks_before spread_of map_or spread_loop rate_spread
    collected_spread complete_rate_spread strategy_value complete_strategy_spread conflicts priority
    is_eligible schedule_key select_next insert set_elem zeros indices_from push_candidate
    extend_partial extend_lattices is_infeasible insert_bounded settle_residual distribute_to
    bounded_distributions insert_amount neighbors neighbors_of fractions priority_of admits
    select_amounts insert_sorted sort_unstable range_from is_complete_range lattice_amounts
    build_candidate_lattice
complete_strategy_spread-exact_example =
    complete_strategy_spread-exact (1 ∷ 2 ∷ 3 ∷ []) market_states utilization_spread 20 refl

abbrev resources_of : ℕ → ResourceReservations
resources_of vault = record {
  vaults = vault ∷ [];
  signer_lanes = (vault + 100) ∷ [];
  markets = [];
  loan_tokens = [];
  caps = [];
  idle_lock_vaults = [];
}

abbrev rate_plan : SchedulablePlan
rate_plan = record {
  reason = rate_rebalance;
  vault = 1;
  service_deficit_assets = 0;
  unreserved_idle_assets = 0;
  spread_above_entry = 500;
  eligible_since_block = 10;
  resources = resources_of 1;
}

abbrev liquidity_plan : SchedulablePlan
liquidity_plan = record rate_plan {
  reason = liquidity_maintenance;
  vault = 2;
  resources = resources_of 2;
}

select_next-first_example :
    (chosen : SchedulablePlan) × (select_next (rate_plan ∷ liquidity_plan ∷ []) (resources_of 3)
      ≡ some chosen)
    × Memᴰ chosen (rate_plan ∷ liquidity_plan ∷ [])
    × IsExecutable (resources_of 3) chosen
    × NotAfter chosen rate_plan
unfolding u256_limit i256_limit strategy_market_mode_included deployment_key reaching_key spread_key
    liquidity_key rebalance_before ranks_before spread_of map_or spread_loop rate_spread
    collected_spread complete_rate_spread strategy_value complete_strategy_spread conflicts priority
    is_eligible schedule_key select_next insert set_elem zeros indices_from push_candidate
    extend_partial extend_lattices is_infeasible insert_bounded settle_residual distribute_to
    bounded_distributions insert_amount neighbors neighbors_of fractions priority_of admits
    select_amounts insert_sorted sort_unstable range_from is_complete_range lattice_amounts
    build_candidate_lattice
select_next-first_example =
    select_next-first (rate_plan ∷ liquidity_plan ∷ []) (resources_of 3) rate_plan (Memᴰ.head refl)
      (λ e. cc, (conflicts_iff (resources_of 1) (resources_of 3)).0 refl)

abbrev lattices : List (List ℕ)
lattices = (0 ∷ 40 ∷ 60 ∷ []) ∷ (0 ∷ 50 ∷ []) ∷ []

bounded_distributions-exact_example :
    All (IsDistribution (60 ∷ 50 ∷ []) 100 10) ((50 ∷ 50 ∷ []) ∷ (60 ∷ 40 ∷ []) ∷ []) × (2 ≤ 8)
unfolding u256_limit i256_limit strategy_market_mode_included deployment_key reaching_key spread_key
    liquidity_key rebalance_before ranks_before spread_of map_or spread_loop rate_spread
    collected_spread complete_rate_spread strategy_value complete_strategy_spread conflicts priority
    is_eligible schedule_key select_next insert set_elem zeros indices_from push_candidate
    extend_partial extend_lattices is_infeasible insert_bounded settle_residual distribute_to
    bounded_distributions insert_amount neighbors neighbors_of fractions priority_of admits
    select_amounts insert_sorted sort_unstable range_from is_complete_range lattice_amounts
    build_candidate_lattice
bounded_distributions-exact_example =
    bounded_distributions-exact (60 ∷ 50 ∷ []) lattices 100 10 8
      ((50 ∷ 50 ∷ []) ∷ (60 ∷ 40 ∷ []) ∷ [])
      ((omega arith, (omega arith, (omega arith, tt))), ((omega arith, (omega arith, tt)), tt)) refl

lattice_run : (build_candidate_lattice sum 10 1000 (300 ∷ []) 4).amounts ≡ 0 ∷ 10 ∷ 300 ∷ 1000 ∷ []
unfolding u256_limit i256_limit strategy_market_mode_included deployment_key reaching_key spread_key
    liquidity_key rebalance_before ranks_before spread_of map_or spread_loop rate_spread
    collected_spread complete_rate_spread strategy_value complete_strategy_spread conflicts priority
    is_eligible schedule_key select_next insert set_elem zeros indices_from push_candidate
    extend_partial extend_lattices is_infeasible insert_bounded settle_residual distribute_to
    bounded_distributions insert_amount neighbors neighbors_of fractions priority_of admits
    select_amounts insert_sorted sort_unstable range_from is_complete_range lattice_amounts
    build_candidate_lattice
lattice_run = refl

build_candidate_lattice-HasEnds_example :
    HasEnds 10 1000 4 (build_candidate_lattice sum 10 1000 (300 ∷ []) 4).amounts
build_candidate_lattice-HasEnds_example =
    build_candidate_lattice-HasEnds sum 10 1000 (300 ∷ []) 4 (omega arith)
