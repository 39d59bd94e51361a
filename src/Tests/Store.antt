-- ===== src/Tests/Store.antt =====
-- Runs of the store through the life of a transaction.
use rbot_v.Prelude.{
  ℕ, map, false, true, ◌&&◌, not, any, none, some, List, [], ◌∷◌, ◌++◌, ok, ◌≡◌, ◌↔◌, sum, refl,
  arith,
}
use rbot_v.Storage.Models.{
  nonce_reserved, signed, submitted, failed, included, confirmed, conformance_validated, reconciled,
  foreign_nonce_consumed, ◌is◌, NonceReservation,
}
use rbot_v.Storage.Graph.{
  Reaches, at_start, step_to, visits, states, reconciled-visits, permits-is_active_lifecycle,
}
use rbot_v.Storage.Store.{PlanRecord, JsonState, fresh_row}
use rbot_v.Storage.Store.Commands.{
  StorageCommand, reserve_nonce_command, persist_signed_command, transition_command,
}
use rbot_v.Storage.Store.Rows.{HasLanes}
use rbot_v.Storage.Store.Lanes.{run-HasLanes, reserve_nonce-iff-load_unresolved}
use rbot_v.Prelude.Words.{u256_limit}
use rbot_v.Prelude.Int.{i256_limit}
use rbot_v.Storage.Models.{is_unresolved, requires_reconciliation, is_active_lifecycle, permits}
use rbot_v.Storage.Store.{
  reserve_nonce, load_unresolved, persist_signed, signed_state, persist_signed_attempt,
  record_attempt_broadcast, persist_conformance,
}
use rbot_v.Storage.Store.Movements.{
  release_movement, release_rate_movement, releases_movement, is_broadcast, mark_broadcast,
  requires_evidence, settle, transition_transaction, check_rate_plan,
  reserve_rate_movement_and_nonce, persist_episode,
}
use rbot_v.Storage.Store.Commands.{CommitContext, compact_at, commit, apply, run}
use rbot_v.Storage.Store.Compaction.{
  insert_pair, sort_pairs, skip, retained_terminal, is_retained, retained_rows,
  compact_lifecycle_history, referenced_plan_ids, keep_plans, compact_plans, compact_hot_state,
}
use rbot_v.Storage.Store.Outcomes.{Transitions}

abbrev first_reservation : NonceReservation
first_reservation = record {
  transaction_id = 1;
  plan_id = none;
  vault = 2;
  signer = 3;
  nonce = 4;
  calldata = 5 ∷ 6 ∷ [];
  calldata_hash = 11;
  max_fee_per_gas = 20;
  max_priority_fee_per_gas = 2;
  gas_limit = 100_000;
  movement_assets = 0;
  created_block = 10;
  created_at = 1000;
}

abbrev second_reservation : NonceReservation
second_reservation = record first_reservation { transaction_id = 7; signer = 8 }

abbrev empty_store : JsonState
empty_store = record {
  revision = 127;
  transactions = [];
  transaction_attempts = [];
  conformance_records = [];
  rate_movement_reservations = [];
  rate_episodes = [];
  plans = [];
}

empty_store-HasLanes : HasLanes empty_store.transactions
empty_store-HasLanes = record { lane = λ _. ground arith; unique = λ _. ground arith }

-- The journal is written, and no canonical block is late enough to drop anything.
abbrev context : CommitContext
context = record { latest_timestamp = 2000; is_appended = true }

abbrev commands : List (CommitContext × StorageCommand)
commands =
    (context, reserve_nonce_command first_reservation)
    ∷ (context, reserve_nonce_command first_reservation)
    ∷ (
      context,
      persist_signed_command (record {
        transaction_id = 1;
        transaction_hash = 17;
        raw_signed_transaction = 8 ∷ 9 ∷ [];
        updated_at = 1001;
      }),
    )
    ∷ (
      context,
      transition_command (record {
        transaction_id = 1;
        expected_state = signed;
        next_state = submitted;
        transaction_hash = some 17;
        submitted_at = some 1002;
        included_block = none;
        included_block_hash = none;
        updated_at = 1002;
      }),
    )
    ∷ []

abbrev submitted_store : JsonState
unfolding u256_limit i256_limit is_unresolved requires_reconciliation is_active_lifecycle permits
    reserve_nonce load_unresolved persist_signed signed_state persist_signed_attempt
    record_attempt_broadcast persist_conformance release_movement release_rate_movement
    releases_movement is_broadcast mark_broadcast requires_evidence settle transition_transaction
    check_rate_plan reserve_rate_movement_and_nonce persist_episode compact_hot_state compact_plans
    compact_lifecycle_history retained_rows retained_terminal is_retained referenced_plan_ids
    keep_plans insert_pair sort_pairs skip compact_at commit apply run Transitions
submitted_store = run sum commands empty_store

run-HasLanes_example : HasLanes submitted_store.transactions
unfolding u256_limit i256_limit is_unresolved requires_reconciliation is_active_lifecycle permits
    reserve_nonce load_unresolved persist_signed signed_state persist_signed_attempt
    record_attempt_broadcast persist_conformance release_movement release_rate_movement
    releases_movement is_broadcast mark_broadcast requires_evidence settle transition_transaction
    check_rate_plan reserve_rate_movement_and_nonce persist_episode compact_hot_state compact_plans
    compact_lifecycle_history retained_rows retained_terminal is_retained referenced_plan_ids
    keep_plans insert_pair sort_pairs skip compact_at commit apply run Transitions
run-HasLanes_example = run-HasLanes sum commands empty_store empty_store-HasLanes

reserve_nonce-iff-load_unresolved_example :
    (reserve_nonce sum second_reservation submitted_store
      ≡ ok (record submitted_store {
        transactions = submitted_store.transactions ++ (fresh_row second_reservation ∷ []);
      }))
    ↔ (load_unresolved submitted_store 8 ≡ ok none)
unfolding u256_limit i256_limit is_unresolved requires_reconciliation is_active_lifecycle permits
    reserve_nonce load_unresolved persist_signed signed_state persist_signed_attempt
    record_attempt_broadcast persist_conformance release_movement release_rate_movement
    releases_movement is_broadcast mark_broadcast requires_evidence settle transition_transaction
    check_rate_plan reserve_rate_movement_and_nonce persist_episode compact_hot_state compact_plans
    compact_lifecycle_history retained_rows retained_terminal is_retained referenced_plan_ids
    keep_plans insert_pair sort_pairs skip compact_at commit apply run Transitions
reserve_nonce-iff-load_unresolved_example =
    reserve_nonce-iff-load_unresolved sum second_reservation submitted_store
      (run-HasLanes sum commands empty_store empty_store-HasLanes) refl refl

abbrev happy_path : Reaches nonce_reserved reconciled
unfolding u256_limit i256_limit is_unresolved requires_reconciliation is_active_lifecycle permits
    reserve_nonce load_unresolved persist_signed signed_state persist_signed_attempt
    record_attempt_broadcast persist_conformance release_movement release_rate_movement
    releases_movement is_broadcast mark_broadcast requires_evidence settle transition_transaction
    check_rate_plan reserve_rate_movement_and_nonce persist_episode compact_hot_state compact_plans
    compact_lifecycle_history retained_rows retained_terminal is_retained referenced_plan_ids
    keep_plans insert_pair sort_pairs skip compact_at commit apply run Transitions
happy_path =
    step_to {b = conformance_validated}
      (step_to {b = confirmed}
        (step_to {b = included}
          (step_to {b = submitted}
            (step_to {b = signed} (step_to {b = nonce_reserved} at_start refl) refl) refl)
          refl)
        refl)
      refl

reconciled-visits_example :
    (visits signed happy_path ≡ true)
    × (visits included happy_path ≡ true)
    × (visits confirmed happy_path ≡ true)
    × (visits conformance_validated happy_path ≡ true)
unfolding u256_limit i256_limit is_unresolved requires_reconciliation is_active_lifecycle permits
    reserve_nonce load_unresolved persist_signed signed_state persist_signed_attempt
    record_attempt_broadcast persist_conformance release_movement release_rate_movement
    releases_movement is_broadcast mark_broadcast requires_evidence settle transition_transaction
    check_rate_plan reserve_rate_movement_and_nonce persist_episode compact_hot_state compact_plans
    compact_lifecycle_history retained_rows retained_terminal is_retained referenced_plan_ids
    keep_plans insert_pair sort_pairs skip compact_at commit apply run Transitions
reconciled-visits_example = reconciled-visits happy_path

permits-is_active_lifecycle_example :
    any (permits signed) states
    ≡ (is_active_lifecycle signed && not (signed is foreign_nonce_consumed))
permits-is_active_lifecycle_example = permits-is_active_lifecycle signed

abbrev plan_of : ℕ → PlanRecord
plan_of id = record { plan_id = id; episode_id = none; movement_assets = 0 }

-- Before the index only the plans that are referenced stay.
kept_plans :
    map (λ p. p.plan_id) (keep_plans 2 (6 ∷ []) (plan_of 5 ∷ plan_of 6 ∷ plan_of 7 ∷ []))
    ≡ 6 ∷ 7 ∷ []
unfolding keep_plans
kept_plans = refl

-- An old transaction that has failed is dropped, and one that is submitted stays.
old_rows :
    map
      (λ state. is_retained 5000 (2 ∷ []) (record (fresh_row first_reservation) { state = state }))
      (failed ∷ submitted ∷ [])
    ≡ false ∷ true ∷ []
unfolding is_retained is_active_lifecycle is_unresolved
old_rows = refl
