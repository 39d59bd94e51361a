-- ===== src/Storage/Store/Commands.antt =====
-- The commands of the storage actor of src/storage/actor.rs that carry a transaction from its
-- reservation to its conformance, with the persistence of an episode, as `commit` runs them. The
-- commands that reconcile a transaction, fail it after its conformance, or rewind the chain, and
-- those that write only collections that are not in the model, are not among them.
use rbot_v.Prelude.{
  ℕ, ◌%◌, ◌≡◌, refl, Bool, true, false, Option, none, some, List, [], ◌∷◌, Result, ok, err, ◌==◌,
  if◌then◌else◌,
}
use rbot_v.Prelude.Words.{checked_add_u64}
use rbot_v.Storage.Store.Compaction.{compact_hot_state}
use rbot_v.Planner.Episodes.State.{RateSignalEpisode}
use rbot_v.Storage.Models.{
  NonceReservation, SignedTransactionRecord, SignedAttemptRecord, TransactionTransition,
  ConformanceRecord,
}
use rbot_v.Storage.Store.{
  StorageError, JsonState, reserve_nonce, persist_signed, persist_signed_attempt,
  record_attempt_broadcast, persist_conformance,
}
use rbot_v.Storage.Store.Movements.{
  transition_transaction, reserve_rate_movement_and_nonce, persist_episode,
}

pub data StorageCommand : Type 0 where
  reserve_nonce_command : NonceReservation → StorageCommand
  reserve_rate_command : NonceReservation → ℕ → ℕ → StorageCommand
  persist_signed_command : SignedTransactionRecord → StorageCommand
  persist_attempt_command : SignedAttemptRecord → StorageCommand
  record_broadcast_command : ℕ → ℕ → ℕ → ℕ → StorageCommand
  transition_command : TransactionTransition → StorageCommand
  persist_conformance_command : ConformanceRecord → StorageCommand
  persist_episode_command : RateSignalEpisode → ℕ → StorageCommand

unfoldable pub apply : (List ℕ → ℕ) → StorageCommand → JsonState → Result StorageError JsonState
apply keccak (reserve_nonce_command reservation) s = reserve_nonce keccak reservation s
apply keccak (reserve_rate_command reservation episode_id movement) s =
    reserve_rate_movement_and_nonce keccak reservation episode_id movement s
apply keccak (persist_signed_command record_) s = persist_signed keccak record_ s
apply keccak (persist_attempt_command attempt) s = persist_signed_attempt keccak attempt s
apply keccak (record_broadcast_command id hash at block) s =
    record_attempt_broadcast id hash at block s
apply keccak (transition_command transition) s = transition_transaction transition s
apply keccak (persist_conformance_command record_) s = persist_conformance record_ s
apply keccak (persist_episode_command episode at) s = persist_episode episode at s

abbrev journal_segment_events : ℕ
journal_segment_events = 128

-- What a commit meets outside the collections of the model: the latest timestamp of the canonical
-- blocks, and whether the record of the journal could be written.
pub record CommitContext : Type 0 where
  pub latest_timestamp : ℕ
  pub is_appended : Bool

unfoldable pub compact_at : ℕ → ℕ → JsonState → JsonState
compact_at revision latest_timestamp s =
    if revision % journal_segment_events == 0 then compact_hot_state latest_timestamp s else s

-- The state that the store owns after a commit: the same as before where the mutation, the
-- revision or the journal fails. An error after the journal was written leaves the new state.
unfoldable pub commit : CommitContext → JsonState → Result StorageError JsonState → JsonState
commit context old (err _) = old
commit context old (ok next) = elim (checked_add_u64 next.revision 1) [
  | none ↦ old
  | some revision ↦
      if context.is_appended
      then compact_at revision context.latest_timestamp (record next { revision = revision })
      else old
]

unfoldable pub run : (List ℕ → ℕ) → List (CommitContext × StorageCommand) → JsonState → JsonState
run keccak [] s = s
run keccak ((context, c) ∷ cs) s = run keccak cs (commit context s (apply keccak c s))

-- What is kept by a successful mutation, by the change of the revision and by compaction is kept by
-- a commit.
pub commit_keeps :
    (P : JsonState → Type 0) (context : CommitContext) (old : JsonState)
    (r : Result StorageError JsonState)
    → P old
    → ((s : JsonState) → r ≡ ok s → P s)
    → ((revision : ℕ) (s : JsonState) → P s → P (record s { revision = revision }))
    → ((latest : ℕ) (s : JsonState) → P s → P (compact_hot_state latest s))
    → P (commit context old r)
unfolding commit compact_at
commit_keeps P context old (err _) h made revised compacted = h
commit_keeps P context old (ok next) h made revised compacted =
    go (checked_add_u64 next.revision 1) context.is_appended
  where
    compacts :
        (b : Bool) (s : JsonState)
        → P s
        → P (if b then compact_hot_state context.latest_timestamp s else s)
    compacts true s k = compacted context.latest_timestamp s k
    compacts false s k = k

    go :
        (o : Option ℕ) (b : Bool)
        → P (elim o [
          | none ↦ old
          | some revision ↦
              if b
              then compact_at revision context.latest_timestamp
                  (record next { revision = revision })
              else old
        ])
    go none b = h
    go (some revision) true =
        compacts (revision % journal_segment_events == 0) (record next { revision = revision })
          (revised revision next (made next refl))
    go (some revision) false = h
