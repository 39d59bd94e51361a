-- ===== src/Tests/Ledger.antt =====
-- Runs of the idle-lock ledger.
use rbot_v.Prelude.{false, [], ◌∷◌, sum, refl}
use rbot_v.State.Attribution.{
  sentinel_deallocation, vault_user_withdrawal, OrderedTransactionFlow, TransactionIdleEffect,
  Attributes, attribute_idle_effect-Attributes,
}
use rbot_v.State.IdleLocks.{IdleLockLedger}
use rbot_v.State.IdleLocks.Consumption.{Drains, consume_all-Drains}
use rbot_v.State.IdleLocks.Ledger.{Applies, apply_transaction-Applies}
use rbot_v.Prelude.Words.{u256_limit}
use rbot_v.Prelude.Int.{i256_limit}
use rbot_v.State.Attribution.{sum_from, sum_ordered, attribute_idle_effect}
use rbot_v.State.IdleLocks.{
  new_ledger, total_from, total_locked, routine_available_idle, create_lock, consume_lock,
  consume_kind, consume_all, created_kind, store_consumed, consume_locked, consume_net, create_net,
  verify_total, verify, settle_transaction, apply_effect, apply_transaction, release,
}
use rbot_v.State.IdleLocks.Kinds.{held, held_total, drain}

abbrev inflow : OrderedTransactionFlow
inflow = record {
  block_number = 10;
  transaction_index = 2;
  transaction_hash = 77;
  sender = 5;
  origin = sentinel_deallocation;
  inflows = record { log_index = 3; assets = 400 } ∷ record { log_index = 4; assets = 100 } ∷ [];
  outflows = record { log_index = 5; assets = 50 } ∷ [];
  preauthorized_redeploy = false;
}

abbrev inflow_effect : TransactionIdleEffect
inflow_effect = record {
  pre_idle = 1000;
  post_idle = 1450;
  inflow_assets = 500;
  outflow_assets = 50;
  net_created_assets = 450;
  net_consumed_assets = 0;
}

attribute_idle_effect-Attributes_example : Attributes inflow 1000 1450 inflow_effect
unfolding u256_limit i256_limit sum_from sum_ordered attribute_idle_effect new_ledger total_from
    total_locked routine_available_idle create_lock consume_lock consume_kind consume_all
    created_kind store_consumed consume_locked consume_net create_net verify_total verify
    settle_transaction apply_effect apply_transaction release held held_total drain
attribute_idle_effect-Attributes_example =
    attribute_idle_effect-Attributes inflow 1000 1450 inflow_effect refl

abbrev locked_ledger : IdleLockLedger
unfolding u256_limit i256_limit sum_from sum_ordered attribute_idle_effect new_ledger total_from
    total_locked routine_available_idle create_lock consume_lock consume_kind consume_all
    created_kind store_consumed consume_locked consume_net create_net verify_total verify
    settle_transaction apply_effect apply_transaction release held held_total drain
locked_ledger = (apply_transaction sum inflow 1450 (new_ledger 1 1000)).0

abbrev outflow : OrderedTransactionFlow
outflow = record inflow {
  block_number = 11;
  origin = vault_user_withdrawal;
  inflows = [];
  outflows = record { log_index = 1; assets = 1200 } ∷ [];
}

abbrev drained_ledger : IdleLockLedger
unfolding u256_limit i256_limit sum_from sum_ordered attribute_idle_effect new_ledger total_from
    total_locked routine_available_idle create_lock consume_lock consume_kind consume_all
    created_kind store_consumed consume_locked consume_net create_net verify_total verify
    settle_transaction apply_effect apply_transaction release held held_total drain
drained_ledger = (apply_transaction sum outflow 250 locked_ledger).0

apply_transaction-Applies_example : Applies outflow 250 locked_ledger drained_ledger
unfolding u256_limit i256_limit sum_from sum_ordered attribute_idle_effect new_ledger total_from
    total_locked routine_available_idle create_lock consume_lock consume_kind consume_all
    created_kind store_consumed consume_locked consume_net create_net verify_total verify
    settle_transaction apply_effect apply_transaction release held held_total drain
apply_transaction-Applies_example =
    apply_transaction-Applies sum outflow 250 locked_ledger drained_ledger refl

consume_all-Drains_example : Drains 200 locked_ledger.locks
consume_all-Drains_example = consume_all-Drains 200 locked_ledger.locks
