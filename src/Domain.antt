-- ===== src/Domain.antt =====
-- src/domain.rs and src/morpho/mod.rs: the data that the components share. Addresses, hashes and
-- identifiers are compared only, so they are numbers; fields that no modelled code reads are left
-- out.
use rbot_v.Prelude.{ℕ, Bool}

pub data ArithmeticError : Type 0 where
  overflow underflow division_by_zero : ArithmeticError

pub data MathError : Type 0 where
  arithmetic : ArithmeticError → MathError
  timestamp_regression invariant signed_conversion : MathError
  share_price_above_one insufficient_shares insufficient_liquidity : MathError

pub record StoredMarketState : Type 0 where
  pub market_id : ℕ
  pub total_supply_assets : ℕ
  pub total_supply_shares : ℕ
  pub total_borrow_assets : ℕ
  pub total_borrow_shares : ℕ
  pub last_update : ℕ
  pub fee : ℕ

pub record ProjectedMarketState : Type 0 where
  pub market_id : ℕ
  pub timestamp : ℕ
  pub total_supply_assets : ℕ
  pub total_supply_shares : ℕ
  pub total_borrow_assets : ℕ
  pub total_borrow_shares : ℕ
  pub average_accrual_borrow_rate : ℕ
  pub ending_rate_at_target : ℕ
  pub spot_borrow_rate : ℕ
  pub spot_supply_rate : ℕ
  pub utilization : ℕ
  pub accounting_liquidity : ℕ

pub record ParentVaultState : Type 0 where
  pub idle_assets : ℕ
  pub stored_total_assets : ℕ
  pub last_update : ℕ
  pub max_rate : ℕ
  pub total_supply : ℕ
  pub virtual_shares : ℕ
  pub performance_fee : ℕ
  pub performance_fee_recipient_allowed : Bool
  pub management_fee : ℕ
  pub management_fee_recipient_allowed : Bool

pub record BlockRef : Type 0 where
  pub number : ℕ
  pub hash : ℕ
  pub parent_hash : ℕ
  pub timestamp : ℕ
  pub gas_limit : ℕ

pub data PlanReason : Type 0 where
  liquidity_maintenance capital_deployment rate_rebalance : PlanReason
  top_k_apy_rebalance position_sync_required : PlanReason

pub data MarketMode : Type 0 where
  active fixed source_only disabled sync_required : MarketMode

pub record CapRef : Type 0 where
  pub vault : ℕ
  pub id : ℕ

pub data RateObjectiveBranch : Type 0 where
  portfolio controllable : RateObjectiveBranch
