-- ===== src/Transaction/Firewall.antt =====
-- src/transaction/firewall.rs: the checks of a plan before any transaction is made from it.
pub mod Actions
pub mod Plans
use rbot_v.Prelude.{
  ℕ, ◌+◌, ◌≤◌, Bool, true, false, ◌&&◌, ◌||◌, not, Option, none, some, Result, ok, err, ◌>>=◌, ◌>>◌,
  ok_or, fail_if, ltb, leb, ◌==◌, max, List, [], ◌∷◌, length, contains, is_empty, any, find,
  if◌then◌else◌, map_err,
}
use rbot_v.Prelude.Words.{checked_add}
use rbot_v.Domain.{
  PlanReason, liquidity_maintenance, capital_deployment, rate_rebalance, top_k_apy_rebalance,
  position_sync_required, MarketMode, active, source_only, disabled,
}
use rbot_v.Transaction.Plan.{
  Bytes, MarketParams, ActionFields, V2Action, deallocate, allocate, fields, is_allocation, V2Plan,
  SolverCertificate, LiquidityAdapterConfig, PositionConfig, VaultConfig, Config, Abi, same_bytes,
}

pub data FirewallError : Type 0 where
  context plan_hash solver action calldata envelope fee serialization : FirewallError

pub record ValidatedPlan : Type 0 where
  pub plan : V2Plan

-- The state of the loop of `validate_actions`.
pub record Progress : Type 0 where
  pub allocation_phase : Bool
  pub touched : List ℕ
  pub deallocated : ℕ
  pub allocated : ℕ

abbrev pub no_progress : Progress
no_progress = record { allocation_phase = false; touched = []; deallocated = 0; allocated = 0 }

-- The state after an action, with the total of its kind.
abbrev pub allocated_to : Progress → ActionFields → ℕ → Progress
allocated_to progress f total = record {
  allocation_phase = true;
  touched = f.position ∷ progress.touched;
  deallocated = progress.deallocated;
  allocated = total;
}

abbrev pub deallocated_to : Progress → ActionFields → ℕ → Progress
deallocated_to progress f total = record {
  allocation_phase = progress.allocation_phase;
  touched = f.position ∷ progress.touched;
  deallocated = total;
  allocated = progress.allocated;
}

-- `liquidity_adapter.as_ref().filter(..)`.
unfoldable pub liquidity_for : Option LiquidityAdapterConfig → ℕ → Option LiquidityAdapterConfig
liquidity_for none _ = none
liquidity_for (some configured) position =
    if configured.position_key == position then some configured else none

unfoldable pub allows : MarketMode → Bool → Bool
allows active _ = true
allows source_only is_allocation = not is_allocation
allows disabled is_allocation = not is_allocation
allows _ _ = false

abbrev same_option : Option ℕ → Option ℕ → Bool
same_option none none = true
same_option (some a) (some b) = a == b
same_option _ _ = false

abbrev is_some {ℓ} : {A : Type ℓ} → Option A → Bool
is_some none = false
is_some (some _) = true

unfoldable pub breaks_certificate : Option ℕ → SolverCertificate → PlanReason → Bool
breaks_certificate episode_id certificate rate_rebalance =
    not (is_some episode_id)
    || not (same_option certificate.rate_episode_id episode_id)
    || not (is_some certificate.objective_branch)
breaks_certificate episode_id certificate top_k_apy_rebalance =
    is_some episode_id
    || is_some certificate.rate_episode_id
    || is_some certificate.objective_branch
breaks_certificate episode_id certificate position_sync_required = true
breaks_certificate episode_id certificate _ =
    is_some episode_id
    || is_some certificate.rate_episode_id
    || is_some certificate.objective_branch
    || certificate.target_reachable
    || certificate.target_reached

unfoldable pub add_amount : Progress → V2Action → Result FirewallError Progress
add_amount progress (allocate f) =
    ok_or (checked_add progress.allocated f.requested_assets) action >>= λ total.
    ok (allocated_to progress f total)
add_amount progress (deallocate f) =
    ok_or (checked_add progress.deallocated f.requested_assets) action >>= λ total.
    ok (deallocated_to progress f total)

-- The grammar of the actions: no empty amount, no position twice, deallocations first.
unfoldable pub breaks_grammar : Progress → V2Action → Bool
breaks_grammar progress step =
    (fields step).requested_assets == 0
    || contains progress.touched (fields step).position
    || (not (is_allocation step) && progress.allocation_phase)

-- Whether an action takes assets from anywhere but the liquidity adapter.
unfoldable pub leaves_position : Option LiquidityAdapterConfig → V2Action → Bool
leaves_position _ (allocate _) = false
leaves_position none (deallocate _) = true
leaves_position (some liquidity) (deallocate f) = not (liquidity.position_key == f.position)

unfoldable pub breaks_reason : V2Plan → VaultConfig → ℕ → ℕ → PlanReason → Bool
breaks_reason plan vault deallocated allocated rate_rebalance =
    deallocated == 0
    || allocated == 0
    || not (deallocated == allocated)
    || leb plan.projection.before_spread plan.projection.after_spread
breaks_reason plan vault deallocated allocated top_k_apy_rebalance =
    deallocated == 0
    || allocated == 0
    || not (deallocated == allocated)
    || leb plan.projection.before_spread plan.projection.after_spread
breaks_reason plan vault deallocated allocated capital_deployment =
    allocated == 0
    || ltb allocated deallocated
    || any (leaves_position vault.liquidity_adapter) plan.actions
breaks_reason plan vault deallocated allocated liquidity_maintenance =
    allocated == 0 || (not (deallocated == 0) && not (deallocated == allocated))
breaks_reason plan vault deallocated allocated position_sync_required = true

unfoldable pub find_vault : Config → ℕ → Result FirewallError VaultConfig
find_vault config vault = ok_or (find (λ v. v.address == vault) config.vaults) context

module _ (abi : Abi) where
  unfoldable pub encode_adapter_data : MarketParams → Bytes
  encode_adapter_data params = abi.market_params params

  unfoldable pub check_position :
      ActionFields → Bool → PositionConfig → Result FirewallError (Unit {0})
  check_position f is_allocation configured =
      fail_if
        (not (configured.adapter == f.adapter)
          || not (same_bytes f.data_bytes (encode_adapter_data configured.market_params))
          || ltb configured.maximum_action_assets f.requested_assets
          || not (allows configured.mode is_allocation))
        action

  unfoldable pub check_target :
      VaultConfig
      → ActionFields
      → Bool
      → Option LiquidityAdapterConfig
      → Result FirewallError (Unit {0})
  check_target vault f is_allocation (some configured) =
      fail_if
        (not (configured.address == f.adapter)
          || not (is_empty f.data_bytes)
          || ltb configured.maximum_action_assets f.requested_assets)
        action
  check_target vault f is_allocation none = do
    configured ←
        ok_or (find (λ configured. configured.position_key == f.position) vault.positions) action
    check_position f is_allocation configured

  unfoldable pub check_action : VaultConfig → Progress → V2Action → Result FirewallError Progress
  check_action vault progress step = do
    fail_if (breaks_grammar progress step) action
    check_target vault (fields step) (is_allocation step)
        (liquidity_for vault.liquidity_adapter (fields step).position)
    add_amount progress step

  unfoldable pub check_actions :
      VaultConfig → Progress → List V2Action → Result FirewallError Progress
  check_actions vault progress [] = ok progress
  check_actions vault progress (step ∷ steps) =
      check_action vault progress step >>= λ next. check_actions vault next steps

  unfoldable pub validate_actions : V2Plan → VaultConfig → ℕ → Result FirewallError (Unit {0})
  validate_actions plan vault maximum_actions = do
    fail_if (is_empty plan.actions || ltb maximum_actions (length plan.actions)) action
    totals ← check_actions vault no_progress plan.actions
    fail_if
        (not (max totals.allocated totals.deallocated == plan.projection.movement_assets)
          || ltb vault.maximum_immediate_rebalance_loss_assets
              plan.projection.immediate_loss_assets)
        action
    fail_if (breaks_reason plan vault totals.deallocated totals.allocated plan.reason) action

  -- `keccak256` and `serde_json::to_vec`.
  module _ (keccak : Bytes → ℕ) (to_vec : V2Plan → Option Bytes) where
    unfoldable pub canonical_plan_hash : V2Plan → Result FirewallError ℕ
    canonical_plan_hash plan = do
      bytes ← ok_or (to_vec (record plan { plan_hash = 0 })) serialization
      ok (keccak bytes)

    unfoldable pub canonical_plan_id : V2Plan → Result FirewallError ℕ
    canonical_plan_id plan = do
      bytes ← ok_or (to_vec (record plan { plan_id = 0; plan_hash = 0 })) serialization
      ok (keccak bytes)

    unfoldable pub validate_plan_integrity :
        V2Plan → VaultConfig → ℕ → Result FirewallError ValidatedPlan
    validate_plan_integrity plan vault maximum_actions = do
      fail_if (not (plan.topology_revision == plan.snapshot.dynamic_topology_revision)) plan_hash
      id ← canonical_plan_id plan
      fail_if (not (plan.plan_id == id)) plan_hash
      hash ← canonical_plan_hash plan
      fail_if (not (plan.plan_hash == hash)) plan_hash
      fail_if
          (not plan.solver_certificate.search_complete_for_lattice
            || ltb plan.solver_certificate.node_limit plan.solver_certificate.nodes_evaluated
            || breaks_certificate plan.episode_id plan.solver_certificate plan.reason)
          solver
      validate_actions plan vault maximum_actions
      ok (record { plan = plan })

    unfoldable pub validate_plan : V2Plan → Config → Result FirewallError ValidatedPlan
    validate_plan plan config = do
      vault ← find_vault config plan.vault
      fail_if
          (not (plan.config_revision == config.revision)
            || not (plan.snapshot.static_config_revision == config.revision)
            || not (plan.snapshot.chain_id == config.chain_id))
          plan_hash
      validate_plan_integrity plan vault config.maximum_actions

    unfoldable pub validate_historical_plan : V2Plan → Config → Result FirewallError ValidatedPlan
    validate_historical_plan plan config = do
      vault ← find_vault config plan.vault
      fail_if (not (plan.config_revision == plan.snapshot.static_config_revision)) plan_hash
      validate_plan_integrity plan vault config.maximum_actions
