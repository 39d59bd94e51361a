-- ===== src/Storage/Store/Movements.antt =====
-- The rate movements of src/storage/actor.rs: the reservation of a movement with its nonce, its
-- release, the checked transition of a transaction, and the persistence of an episode.
use rbot_v.Prelude.{
  ℕ, Bool, true, false, ◌&&◌, ◌||◌, not, Option, none, some, List, [], ◌∷◌, ◌++◌, Result, ok, err,
  ◌>>=◌, ◌>>◌, ok_or, fail_if, any, find, update_first, count, ltb, ◌==◌, if◌then◌else◌,
}
use rbot_v.Planner.Episodes.State.{RateSignalEpisode, EpisodeError, is_complete}
use rbot_v.Planner.Episodes.Budget.{available_budget, reserve_pending, release_pending}
use rbot_v.Storage.Models.{
  TransactionState, aborted_before_signing, submitted, replaced, cancellation_submitted, reverted,
  failed, cancelled, conformance_validated, reconciled, ◌is◌, one_of, permits, NonceReservation,
  RateMovementReservationState, pending, released, RateMovementReservationRecord,
  TransactionTransition, TransactionRow,
}
use rbot_v.Storage.Store.{
  InvariantMessage, evidence_required, no_transaction_hash, no_submission_time, no_signed_attempt,
  multiple_pending_movements, episode_disappeared, release_rejected, no_plan, plan_not_durable,
  differs_from_plan, already_reserved, episode_not_durable, budget_invalid, budget_insufficient,
  multiple_active_episodes, StorageError, invariant, stale_transition, invalid_transition,
  TimedEpisode, JsonState, has_id, is_attempt, equals, reserve_nonce,
}

abbrev pub is_pending : RateMovementReservationState → Bool
is_pending pending = true
is_pending _ = false

-- The pending movement of a transaction.
abbrev pub owns_movement : ℕ → RateMovementReservationRecord → Bool
owns_movement id movement = movement.transaction_id == id && is_pending movement.state

abbrev pub has_episode : ℕ → TimedEpisode → Bool
has_episode id entry = entry.episode.episode_id == id

-- A budget call on a stored episode, which keeps the entry's other field.
abbrev pub budget_result :
    InvariantMessage
    → RateSignalEpisode × Result EpisodeError (Unit {0})
    → Result StorageError RateSignalEpisode
budget_result _ (new, ok _) = ok new
budget_result message (_, err _) = err (invariant message)

abbrev pub write_episode : RateSignalEpisode → TimedEpisode → TimedEpisode
write_episode episode entry = record entry { episode = episode }

abbrev pub mark_released : RateMovementReservationRecord → RateMovementReservationRecord
mark_released movement = record movement { state = released }

unfoldable pub release_movement :
    ℕ → RateMovementReservationRecord → JsonState → Result StorageError JsonState
release_movement id movement s = do
  entry ←
      ok_or (find (has_episode movement.episode_id) s.rate_episodes) (invariant episode_disappeared)
  episode ← budget_result release_rejected (release_pending movement.movement_assets entry.episode)
  ok (record s {
    rate_episodes =
        update_first (has_episode movement.episode_id) (write_episode episode) s.rate_episodes;
    rate_movement_reservations =
        update_first (owns_movement id) mark_released s.rate_movement_reservations;
  })

unfoldable pub release_rate_movement : ℕ → JsonState → Result StorageError JsonState
release_rate_movement id s = do
  fail_if (ltb 1 (count (owns_movement id) s.rate_movement_reservations))
      (invariant multiple_pending_movements)
  elim (find (owns_movement id) s.rate_movement_reservations) [
    | none ↦ ok s
    | some movement ↦ release_movement id movement s
  ]

unfoldable pub releases_movement : TransactionState → Bool
releases_movement next = one_of next (aborted_before_signing ∷ reverted ∷ cancelled ∷ failed ∷ [])

unfoldable pub is_broadcast : TransactionState → Bool
is_broadcast next = one_of next (submitted ∷ replaced ∷ cancellation_submitted ∷ [])

-- The attempt of a broadcast transition gets its broadcast time.
unfoldable pub mark_broadcast : TransactionTransition → JsonState → Result StorageError JsonState
mark_broadcast transition s =
    if is_broadcast transition.next_state
    then (do
      hash ← ok_or transition.transaction_hash (invariant no_transaction_hash)
      submitted_at ← ok_or transition.submitted_at (invariant no_submission_time)
      _ ←
          ok_or (find (is_attempt transition.transaction_id hash) s.transaction_attempts)
            (invariant no_signed_attempt)
      ok (record s {
        transaction_attempts =
            update_first (is_attempt transition.transaction_id hash)
              (λ a. record a { broadcast_at = some submitted_at }) s.transaction_attempts;
      }))
    else ok s

-- `new` where it is given, else `old`.
abbrev or_old : Option ℕ → Option ℕ → Option ℕ
or_old none old = old
or_old (some a) _ = some a

abbrev pub write_transition : TransactionTransition → TransactionRow → TransactionRow
write_transition transition row = record row {
  state = transition.next_state;
  transaction_hash = or_old transition.transaction_hash row.transaction_hash;
  submitted_at = or_old transition.submitted_at row.submitted_at;
  included_block = or_old transition.included_block row.included_block;
  included_block_hash = or_old transition.included_block_hash row.included_block_hash;
  updated_at = transition.updated_at;
}

-- States that are only entered with their evidence record.
unfoldable pub requires_evidence : TransactionState → Bool
requires_evidence next = one_of next (conformance_validated ∷ reconciled ∷ [])

unfoldable pub settle : TransactionTransition → JsonState → Result StorageError JsonState
settle transition s =
    if releases_movement transition.next_state
    then release_rate_movement transition.transaction_id s
    else ok s

unfoldable pub transition_transaction :
    TransactionTransition → JsonState → Result StorageError JsonState
transition_transaction transition s = do
  fail_if (requires_evidence transition.next_state) (invariant evidence_required)
  fail_if (not (permits transition.expected_state transition.next_state))
      (invalid_transition transition.expected_state transition.next_state)
  row ← ok_or (find (has_id transition.transaction_id) s.transactions) stale_transition
  fail_if (not (row.state is transition.expected_state)) stale_transition
  marked ← mark_broadcast transition s
  settle transition (record marked {
    transactions =
        update_first (has_id transition.transaction_id) (write_transition transition)
          marked.transactions;
  })

-- The durable plan bounds the movement that a reservation may take.
unfoldable pub check_rate_plan : ℕ → ℕ → ℕ → JsonState → Result StorageError (Unit {0})
check_rate_plan plan_id episode_id movement_assets s = do
  plan ← ok_or (find (λ p. p.plan_id == plan_id) s.plans) (invariant plan_not_durable)
  fail_if
      (not (equals plan.episode_id episode_id)
        || not (plan.movement_assets == movement_assets)
        || movement_assets == 0)
      (invariant differs_from_plan)

abbrev pub is_taken : ℕ → ℕ → ℕ → RateMovementReservationRecord → Bool
is_taken transaction_id plan_id episode_id existing =
    existing.transaction_id == transaction_id
    || existing.plan_id == plan_id
    || (is_pending existing.state && existing.episode_id == episode_id)

-- The source also returns the record that it appends.
unfoldable pub reserve_rate_movement_and_nonce :
    (List ℕ → ℕ) → NonceReservation → ℕ → ℕ → JsonState → Result StorageError JsonState
reserve_rate_movement_and_nonce keccak reservation episode_id movement_assets s = do
  plan_id ← ok_or reservation.plan_id (invariant no_plan)
  check_rate_plan plan_id episode_id movement_assets s
  fail_if
      (any (is_taken reservation.transaction_id plan_id episode_id) s.rate_movement_reservations)
      (invariant already_reserved)
  entry ← ok_or (find (has_episode episode_id) s.rate_episodes) (invariant episode_not_durable)
  budget_before ← ok_or (available_budget entry.episode) (invariant budget_invalid)
  episode ← budget_result budget_insufficient (reserve_pending movement_assets entry.episode)
  budget_after ← ok_or (available_budget episode) (invariant budget_invalid)
  reserved ← reserve_nonce keccak reservation (record s {
    rate_episodes = update_first (has_episode episode_id) (write_episode episode) s.rate_episodes;
  })
  ok (record reserved {
    rate_movement_reservations =
        reserved.rate_movement_reservations
        ++ (record {
          reservation_id = keccak (reservation.transaction_id ∷ plan_id ∷ episode_id ∷ []);
          transaction_id = reservation.transaction_id;
          plan_id = plan_id;
          episode_id = episode_id;
          movement_assets = movement_assets;
          budget_before = budget_before;
          budget_after = budget_after;
          state = pending;
        }
            ∷ []);
  })

abbrev competes : RateSignalEpisode → TimedEpisode → Bool
competes episode entry =
    entry.episode.vault == episode.vault
    && entry.episode.rate_group == episode.rate_group
    && not (is_complete entry.episode.state)
    && not (entry.episode.episode_id == episode.episode_id)

unfoldable pub persist_episode : RateSignalEpisode → ℕ → JsonState → Result StorageError JsonState
persist_episode episode updated_at s = do
  fail_if (not (is_complete episode.state) && any (competes episode) s.rate_episodes)
      (invariant multiple_active_episodes)
  elim (find (has_episode episode.episode_id) s.rate_episodes) [
    | none ↦ ok (record s {
      rate_episodes =
          s.rate_episodes ++ (record { episode = episode; updated_at = updated_at } ∷ []);
    })
    | some _ ↦ ok (record s {
      rate_episodes =
          update_first (has_episode episode.episode_id)
            (λ entry. record { episode = episode; updated_at = updated_at }) s.rate_episodes;
    })
  ]
