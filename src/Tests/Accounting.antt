-- ===== src/Tests/Accounting.antt =====
-- A run of the store that reserves a movement, signs it and releases it.
use rbot_v.Prelude.{true, ℕ, none, some, List, [], ◌∷◌, ◌≡◌, map, sum, refl}
use rbot_v.Domain.{BlockRef, portfolio}
use rbot_v.Planner.Episodes.State.{RateSignalEpisode, persistent}
use rbot_v.Storage.Models.{nonce_reserved, aborted_before_signing, NonceReservation}
use rbot_v.Storage.Store.{JsonState}
use rbot_v.Storage.Store.Commands.{StorageCommand, reserve_rate_command, transition_command}
use rbot_v.Storage.Store.Accounting.{IsAccounted}
use rbot_v.Storage.Store.Accounting.Runs.{run-IsAccounted}
use rbot_v.Prelude.Words.{u256_limit}
use rbot_v.Prelude.Int.{i256_limit}
use rbot_v.Planner.Episodes.Budget.{
  unlocked_budget, available_budget, remaining_budget, reserve_pending, release_pending,
  confirm_pending, reopen_confirmed,
}
use rbot_v.Storage.Models.{is_unresolved, requires_reconciliation, is_active_lifecycle, permits}
use rbot_v.Storage.Store.{
  reserve_nonce, load_unresolved, persist_signed, signed_state, persist_signed_attempt,
  record_attempt_broadcast, persist_conformance,
}
use rbot_v.Storage.Store.Movements.{
  release_movement, release_rate_movement, releases_movement, is_broadcast, mark_broadcast,
  requires_evidence, settle, transition_transaction, check_rate_plan,
  reserve_rate_movement_and_nonce, persist_episode,
}
use rbot_v.Storage.Store.Commands.{CommitContext, compact_at, commit, apply, run}
use rbot_v.Storage.Store.Compaction.{
  insert_pair, sort_pairs, skip, retained_terminal, is_retained, retained_rows,
  compact_lifecycle_history, referenced_plan_ids, keep_plans, compact_plans, compact_hot_state,
}

abbrev block_at : ℕ → BlockRef
block_at n = record { number = n; hash = n; parent_hash = 0; timestamp = n; gas_limit = 0 }

abbrev episode : RateSignalEpisode
episode = record {
  episode_id = 21;
  vault = 8;
  rate_group = 9;
  state = persistent;
  stop_reason = none;
  objective_branch = portfolio;
  detection_block = block_at 10;
  confirmation_block = some (block_at 11);
  last_observation_block = some (block_at 11);
  consecutive_observations = 2;
  config_revision = 3;
  topology_revision = 4;
  evaluation_markets = 1 ∷ 2 ∷ [];
  controllable_markets = 1 ∷ 2 ∷ [];
  source_markets = 1 ∷ [];
  destination_markets = 2 ∷ [];
  direction_hash = 10;
  baseline_desired_movement = 1000;
  immediate_budget = 500;
  confirmed_movement = 0;
  pending_movement = 0;
  independent_events = [];
  started_at = 100;
  expires_at = 200;
}

abbrev store : JsonState
store = record {
  revision = 127;
  transactions = [];
  transaction_attempts = [];
  conformance_records = [];
  rate_movement_reservations = [];
  rate_episodes = record { episode = episode; updated_at = 1 } ∷ [];
  plans = record { plan_id = 5; episode_id = some 21; movement_assets = 300 } ∷ [];
}

abbrev reservation : NonceReservation
reservation = record {
  transaction_id = 1;
  plan_id = some 5;
  vault = 8;
  signer = 3;
  nonce = 4;
  calldata = 5 ∷ 6 ∷ [];
  calldata_hash = 11;
  max_fee_per_gas = 20;
  max_priority_fee_per_gas = 2;
  gas_limit = 100_000;
  movement_assets = 300;
  created_block = 12;
  created_at = 1000;
}

-- The journal is written, and no canonical block is late enough to drop anything.
abbrev context : CommitContext
context = record { latest_timestamp = 2000; is_appended = true }

abbrev booking : List (CommitContext × StorageCommand)
booking = (context, reserve_rate_command reservation 21 300) ∷ []

abbrev booking_and_abort : List (CommitContext × StorageCommand)
booking_and_abort =
    (context, reserve_rate_command reservation 21 300)
    ∷ (
      context,
      transition_command (record {
        transaction_id = 1;
        expected_state = nonce_reserved;
        next_state = aborted_before_signing;
        transaction_hash = none;
        submitted_at = none;
        included_block = none;
        included_block_hash = none;
        updated_at = 1002;
      }),
    )
    ∷ []

-- The reservation is booked, and the abort releases it.
booked_movement :
    map (λ entry. entry.episode.pending_movement) (run sum booking store).rate_episodes ≡ 300 ∷ []
unfolding u256_limit i256_limit unlocked_budget available_budget remaining_budget reserve_pending
    release_pending confirm_pending reopen_confirmed is_unresolved requires_reconciliation
    is_active_lifecycle permits reserve_nonce load_unresolved persist_signed signed_state
    persist_signed_attempt record_attempt_broadcast persist_conformance release_movement
    release_rate_movement releases_movement is_broadcast mark_broadcast requires_evidence settle
    transition_transaction check_rate_plan reserve_rate_movement_and_nonce persist_episode
    compact_hot_state compact_plans compact_lifecycle_history retained_rows retained_terminal
    is_retained referenced_plan_ids keep_plans insert_pair sort_pairs skip compact_at commit apply
    run
booked_movement = refl

released_movement :
    map (λ entry. entry.episode.pending_movement) (run sum booking_and_abort store).rate_episodes
    ≡ 0 ∷ []
unfolding u256_limit i256_limit unlocked_budget available_budget remaining_budget reserve_pending
    release_pending confirm_pending reopen_confirmed is_unresolved requires_reconciliation
    is_active_lifecycle permits reserve_nonce load_unresolved persist_signed signed_state
    persist_signed_attempt record_attempt_broadcast persist_conformance release_movement
    release_rate_movement releases_movement is_broadcast mark_broadcast requires_evidence settle
    transition_transaction check_rate_plan reserve_rate_movement_and_nonce persist_episode
    compact_hot_state compact_plans compact_lifecycle_history retained_rows retained_terminal
    is_retained referenced_plan_ids keep_plans insert_pair sort_pairs skip compact_at commit apply
    run
released_movement = refl

run-IsAccounted_example : IsAccounted (run sum booking_and_abort store) 21
unfolding u256_limit i256_limit unlocked_budget available_budget remaining_budget reserve_pending
    release_pending confirm_pending reopen_confirmed is_unresolved requires_reconciliation
    is_active_lifecycle permits reserve_nonce load_unresolved persist_signed signed_state
    persist_signed_attempt record_attempt_broadcast persist_conformance release_movement
    release_rate_movement releases_movement is_broadcast mark_broadcast requires_evidence settle
    transition_transaction check_rate_plan reserve_rate_movement_and_nonce persist_episode
    compact_hot_state compact_plans compact_lifecycle_history retained_rows retained_terminal
    is_retained referenced_plan_ids keep_plans insert_pair sort_pairs skip compact_at commit apply
    run
run-IsAccounted_example = run-IsAccounted sum booking_and_abort store 21 refl refl
