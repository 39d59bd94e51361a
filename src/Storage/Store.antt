-- ===== src/Storage/Store.antt =====
-- The mutations of a transaction in src/storage/actor.rs: reservation, signing, broadcast and
-- conformance. A mutation runs on a copy that replaces the store's state on success only, so it is
-- a function from a state to a result; the hash function is library code, so it is a parameter.
pub mod Movements
pub mod Compaction
pub mod Commands
pub mod Outcomes
pub mod Rows
pub mod Lanes
pub mod Lifecycles
pub mod Accounting
use rbot_v.Prelude.{
  ℕ, Bool, true, false, ◌&&◌, ◌||◌, not, Option, none, some, List, [], ◌∷◌, ◌++◌, Result, ok, err,
  ◌>>=◌, ◌>>◌, ok_or, fail_if, any, find, update_first, is_empty, length, head?, retain, ltb, ◌==◌,
  if◌then◌else◌,
}
use rbot_v.Planner.Episodes.State.{RateSignalEpisode}
use rbot_v.Storage.Models.{
  TransactionState, nonce_reserved, signed, submitted, replaced, orphaned, replacement_signed,
  cancellation_signed, confirmed, conformance_validated, ◌is◌, is_unresolved, NonceReservation,
  RateMovementReservationRecord, SignedTransactionRecord, TransactionAttemptKind, initial,
  replacement, cancellation, SignedAttemptRecord, ConformanceRecord, TransactionRow,
}

-- The messages of `StorageError::Invariant`.
pub data InvariantMessage : Type 0 where
  calldata_hash_mismatch duplicate_transaction : InvariantMessage
  empty_signed_bytes signed_hash_mismatch : InvariantMessage
  initial_attempt invalid_signed_attempt duplicate_signed_attempt : InvariantMessage
  conformance_rejected conformance_hash_unknown : InvariantMessage
  evidence_required no_transaction_hash no_submission_time no_signed_attempt : InvariantMessage
  multiple_pending_movements episode_disappeared release_rejected : InvariantMessage
  no_plan plan_not_durable differs_from_plan already_reserved : InvariantMessage
  episode_not_durable budget_invalid budget_insufficient : InvariantMessage
  multiple_active_episodes : InvariantMessage

pub data StorageError : Type 0 where
  invariant : InvariantMessage → StorageError
  unresolved_lane : ℕ → StorageError
  multiple_unresolved : ℕ → StorageError
  stale_transition : StorageError
  invalid_transition : TransactionState → TransactionState → StorageError

-- What the mutations below read of a stored plan.
pub record PlanRecord : Type 0 where
  pub plan_id : ℕ
  pub episode_id : Option ℕ
  pub movement_assets : ℕ

-- `TimedEpisode`.
pub record TimedEpisode : Type 0 where
  pub episode : RateSignalEpisode
  pub updated_at : ℕ

-- The revision and the collections of `JsonState` that the mutations below read or write.
pub record JsonState : Type 0 where
  pub revision : ℕ
  pub transactions : List TransactionRow
  pub transaction_attempts : List SignedAttemptRecord
  pub conformance_records : List ConformanceRecord
  pub rate_movement_reservations : List RateMovementReservationRecord
  pub rate_episodes : List TimedEpisode
  pub plans : List PlanRecord

abbrev pub has_id : ℕ → TransactionRow → Bool
has_id id row = row.reservation.transaction_id == id

abbrev pub owns_lane : ℕ → TransactionRow → Bool
owns_lane signer row = row.reservation.signer == signer && is_unresolved row.state

abbrev pub fresh_row : NonceReservation → TransactionRow
fresh_row reservation = record {
  reservation = reservation;
  state = nonce_reserved;
  transaction_hash = none;
  raw_signed_transaction = none;
  submitted_at = none;
  included_block = none;
  included_block_hash = none;
  updated_at = reservation.created_at;
}

unfoldable pub reserve_nonce :
    (List ℕ → ℕ) → NonceReservation → JsonState → Result StorageError JsonState
reserve_nonce keccak reservation s = do
  fail_if (not (reservation.calldata_hash == keccak reservation.calldata))
      (invariant calldata_hash_mismatch)
  fail_if (any (owns_lane reservation.signer) s.transactions) (unresolved_lane reservation.signer)
  fail_if (any (has_id reservation.transaction_id) s.transactions) (invariant duplicate_transaction)
  ok (record s { transactions = s.transactions ++ (fresh_row reservation ∷ []) })

abbrev pub write_signed : SignedTransactionRecord → TransactionRow → TransactionRow
write_signed record_ row = record row {
  state = signed;
  transaction_hash = some record_.transaction_hash;
  raw_signed_transaction = some record_.raw_signed_transaction;
  updated_at = record_.updated_at;
}

abbrev initial_attempt_of : SignedTransactionRecord → TransactionRow → SignedAttemptRecord
initial_attempt_of record_ row = record {
  transaction_id = record_.transaction_id;
  kind = initial;
  transaction_hash = record_.transaction_hash;
  raw_signed_transaction = record_.raw_signed_transaction;
  max_fee_per_gas = row.reservation.max_fee_per_gas;
  max_priority_fee_per_gas = row.reservation.max_priority_fee_per_gas;
  signed_at = record_.updated_at;
  signed_block = row.reservation.created_block;
  broadcast_at = none;
  last_broadcast_block = none;
}

-- The single unresolved row of a signer, on which `load_unresolved` builds its view.
unfoldable pub load_unresolved : JsonState → ℕ → Result StorageError (Option TransactionRow)
load_unresolved s signer =
    let rows = retain (owns_lane signer) s.transactions in
    if ltb 1 (length rows) then err (multiple_unresolved signer) else ok (head? rows)

unfoldable pub persist_signed :
    (List ℕ → ℕ) → SignedTransactionRecord → JsonState → Result StorageError JsonState
persist_signed keccak record_ s = do
  fail_if (is_empty record_.raw_signed_transaction) (invariant empty_signed_bytes)
  fail_if (not (keccak record_.raw_signed_transaction == record_.transaction_hash))
      (invariant signed_hash_mismatch)
  row ← ok_or (find (has_id record_.transaction_id) s.transactions) stale_transition
  fail_if (not (row.state is nonce_reserved)) stale_transition
  ok (record s {
    transactions =
        update_first (has_id record_.transaction_id) (write_signed record_) s.transactions;
    transaction_attempts = s.transaction_attempts ++ (initial_attempt_of record_ row ∷ []);
  })

abbrev is_initial : TransactionAttemptKind → Bool
is_initial initial = true
is_initial _ = false

abbrev is_some {ℓ} : {A : Type ℓ} → Option A → Bool
is_some none = false
is_some (some _) = true

unfoldable pub signed_state : TransactionAttemptKind → TransactionState → Option TransactionState
signed_state replacement submitted = some replacement_signed
signed_state replacement replaced = some replacement_signed
signed_state cancellation signed = some cancellation_signed
signed_state cancellation submitted = some cancellation_signed
signed_state cancellation replaced = some cancellation_signed
signed_state cancellation orphaned = some cancellation_signed
signed_state _ _ = none

abbrev pub write_attempt : TransactionState → SignedAttemptRecord → TransactionRow → TransactionRow
write_attempt state attempt row = record row {
  state = state;
  transaction_hash = some attempt.transaction_hash;
  raw_signed_transaction = some attempt.raw_signed_transaction;
  updated_at = attempt.signed_at;
}

unfoldable pub persist_signed_attempt :
    (List ℕ → ℕ) → SignedAttemptRecord → JsonState → Result StorageError JsonState
persist_signed_attempt keccak attempt s = do
  fail_if (is_initial attempt.kind) (invariant initial_attempt)
  fail_if
      (is_empty attempt.raw_signed_transaction
        || not (keccak attempt.raw_signed_transaction == attempt.transaction_hash)
        || is_some attempt.broadcast_at)
      (invariant invalid_signed_attempt)
  fail_if (any (λ a. a.transaction_hash == attempt.transaction_hash) s.transaction_attempts)
      (invariant duplicate_signed_attempt)
  row ← ok_or (find (has_id attempt.transaction_id) s.transactions) stale_transition
  state ← ok_or (signed_state attempt.kind row.state) stale_transition
  ok (record s {
    transactions =
        update_first (has_id attempt.transaction_id) (write_attempt state attempt) s.transactions;
    transaction_attempts = s.transaction_attempts ++ (attempt ∷ []);
  })

abbrev pub is_attempt : ℕ → ℕ → SignedAttemptRecord → Bool
is_attempt id hash attempt = attempt.transaction_id == id && attempt.transaction_hash == hash

abbrev after : Option ℕ → ℕ → Bool
after none _ = false
after (some previous) block = ltb block previous

unfoldable pub record_attempt_broadcast : ℕ → ℕ → ℕ → ℕ → JsonState → Result StorageError JsonState
record_attempt_broadcast id hash broadcast_at broadcast_block s = do
  attempt ← ok_or (find (is_attempt id hash) s.transaction_attempts) stale_transition
  fail_if
      (ltb broadcast_block attempt.signed_block
        || after attempt.last_broadcast_block broadcast_block)
      stale_transition
  ok (record s {
    transaction_attempts =
        update_first (is_attempt id hash)
          (λ a. record a {
            broadcast_at = some broadcast_at;
            last_broadcast_block = some broadcast_block;
          })
          s.transaction_attempts;
  })

abbrev pub equals : Option ℕ → ℕ → Bool
equals none _ = false
equals (some a) b = a == b

abbrev pub write_conformance : ConformanceRecord → TransactionRow → TransactionRow
write_conformance record_ row = record row {
  state = conformance_validated;
  transaction_hash = some record_.transaction_hash;
  updated_at = record_.validated_at;
}

unfoldable pub persist_conformance : ConformanceRecord → JsonState → Result StorageError JsonState
persist_conformance record_ s = do
  fail_if
      (record_.report_hash == 0
        || any (λ c. c.transaction_id == record_.transaction_id) s.conformance_records)
      (invariant conformance_rejected)
  fail_if
      (not
        (any (is_attempt record_.transaction_id record_.transaction_hash) s.transaction_attempts))
      (invariant conformance_hash_unknown)
  row ← ok_or (find (has_id record_.transaction_id) s.transactions) stale_transition
  fail_if
      (not (row.state is confirmed)
        || not (equals row.included_block record_.block_number)
        || not (equals row.included_block_hash record_.block_hash))
      stale_transition
  ok (record s {
    transactions =
        update_first (has_id record_.transaction_id) (write_conformance record_) s.transactions;
    conformance_records = s.conformance_records ++ (record_ ∷ []);
  })
