-- ===== src/Transaction/Plan.antt =====
-- The semantic plans of src/domain.rs, the vaults of src/config.rs that they are checked against,
-- and the interface of the ABI codec. Byte strings are lists of numbers.
use rbot_v.Prelude.{ℕ, Bool, true, false, ◌&&◌, Option, List, [], ◌∷◌, ◌≡◌, ◌==◌, refl, arith}
use rbot_v.Prelude.Int.{ℤ}
use rbot_v.Domain.{PlanReason, RateObjectiveBranch, MarketMode}

abbrev pub Bytes : Type 0
Bytes = List ℕ

pub record MarketParams : Type 0 where
  pub loan_token : ℕ
  pub collateral_token : ℕ
  pub oracle : ℕ
  pub irm : ℕ
  pub lltv : ℕ

-- The fields of both actions.
pub record ActionFields : Type 0 where
  pub position : ℕ
  pub adapter : ℕ
  pub data_bytes : Bytes
  pub requested_assets : ℕ

pub data V2Action : Type 0 where
  deallocate allocate : ActionFields → V2Action

abbrev pub fields : V2Action → ActionFields
fields (deallocate f) = f
fields (allocate f) = f

abbrev pub is_allocation : V2Action → Bool
is_allocation (deallocate _) = false
is_allocation (allocate _) = true

pub record StateContext : Type 0 where
  pub chain_id : ℕ
  pub static_config_revision : ℕ
  pub dynamic_topology_revision : ℕ

pub record SolverCertificate : Type 0 where
  pub nodes_evaluated : ℕ
  pub node_limit : ℕ
  pub search_complete_for_lattice : Bool
  pub rate_episode_id : Option ℕ
  pub objective_branch : Option RateObjectiveBranch
  pub target_reachable : Bool
  pub target_reached : Bool

pub record PlanProjection : Type 0 where
  pub movement_assets : ℕ
  pub before_spread : ℕ
  pub after_spread : ℕ
  pub immediate_loss_assets : ℕ
  pub terminal_value_delta_assets : ℤ
  pub expected_gain_assets : ℕ

pub record V2Plan : Type 0 where
  pub plan_id : ℕ
  pub reason : PlanReason
  pub vault : ℕ
  pub snapshot : StateContext
  pub config_revision : ℕ
  pub topology_revision : ℕ
  pub read_set_revision : ℕ
  pub latest_relevant_event_block : ℕ
  pub planner_generation : ℕ
  pub actions : List V2Action
  pub projection : PlanProjection
  pub solver_certificate : SolverCertificate
  pub episode_id : Option ℕ
  pub plan_hash : ℕ

pub record LiquidityAdapterConfig : Type 0 where
  pub position_key : ℕ
  pub address : ℕ
  pub maximum_action_assets : ℕ

pub record PositionConfig : Type 0 where
  pub position_key : ℕ
  pub adapter : ℕ
  pub market_params : MarketParams
  pub mode : MarketMode
  pub maximum_action_assets : ℕ

pub record VaultConfig : Type 0 where
  pub address : ℕ
  pub signer_address : ℕ
  pub maximum_immediate_rebalance_loss_assets : ℕ
  pub liquidity_adapter : Option LiquidityAdapterConfig
  pub positions : List PositionConfig

-- What the checks read of `ValidatedConfig`.
pub record Config : Type 0 where
  pub revision : ℕ
  pub chain_id : ℕ
  pub maximum_actions : ℕ
  pub vaults : List VaultConfig

-- The arguments of the two calls.
pub record AdapterCall : Type 0 where
  pub adapter : ℕ
  pub data_bytes : Bytes
  pub assets : ℕ

-- The generated bindings: `abi_encode`, `abi_decode_validate` and the four-byte selectors.
pub record Abi : Type 0 where
  pub market_params : MarketParams → Bytes
  pub allocate_selector : Bytes
  pub deallocate_selector : Bytes
  pub multicall_selector : Bytes
  pub allocate_call : AdapterCall → Bytes
  pub deallocate_call : AdapterCall → Bytes
  pub multicall_call : List Bytes → Bytes
  pub decode_allocate : Bytes → Option AdapterCall
  pub decode_deallocate : Bytes → Option AdapterCall
  pub decode_multicall : Bytes → Option (List Bytes)

abbrev pub same_bytes : Bytes → Bytes → Bool
same_bytes [] [] = true
same_bytes (x ∷ xs) (y ∷ ys) = x == y && same_bytes xs ys
same_bytes _ _ = false

pub same_bytes→≡ : (xs ys : Bytes) → same_bytes xs ys ≡ true → xs ≡ ys
same_bytes→≡ [] [] h = refl
same_bytes→≡ [] (y ∷ ys) h = cc
same_bytes→≡ (x ∷ xs) [] h = cc
same_bytes→≡ (x ∷ xs) (y ∷ ys) h = grind (arith, same_bytes→≡ xs ys)

pub same_bytes_refl : (xs : Bytes) → same_bytes xs xs ≡ true
same_bytes_refl [] = refl
same_bytes_refl (x ∷ xs) = ground (arith, same_bytes_refl xs)
