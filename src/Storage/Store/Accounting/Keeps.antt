-- ===== src/Storage/Store/Accounting/Keeps.antt =====
-- The mutations of src/storage/actor.rs that leave episodes and movements alone keep the accounts.
use rbot_v.Prelude.{ℕ, ◌≡◌, sym, ap, ◌∙◌, List, ok, find, arith}
use rbot_v.Storage.Models.{
  NonceReservation, SignedTransactionRecord, SignedAttemptRecord, TransactionTransition,
  ConformanceRecord,
}
use rbot_v.Storage.Store.{
  JsonState, reserve_nonce, persist_signed, persist_signed_attempt, record_attempt_broadcast,
  persist_conformance,
}
use rbot_v.Storage.Store.Movements.{has_episode, mark_broadcast}
use rbot_v.Storage.Store.Accounting.{pending_of, reserved_for, IsAccounted}

pub nonce_keeps :
    (keccak : List ℕ → ℕ) (r : NonceReservation) (s s' : JsonState)
    → reserve_nonce keccak r s ≡ ok s'
    → (s'.rate_episodes ≡ s.rate_episodes)
      × (s'.rate_movement_reservations ≡ s.rate_movement_reservations)
unfolding reserve_nonce
nonce_keeps keccak r s s' h = ground arith

pub signed_keeps :
    (keccak : List ℕ → ℕ) (r : SignedTransactionRecord) (s s' : JsonState)
    → persist_signed keccak r s ≡ ok s'
    → (s'.rate_episodes ≡ s.rate_episodes)
      × (s'.rate_movement_reservations ≡ s.rate_movement_reservations)
unfolding persist_signed
signed_keeps keccak r s s' h = ground arith

pub attempt_keeps :
    (keccak : List ℕ → ℕ) (r : SignedAttemptRecord) (s s' : JsonState)
    → persist_signed_attempt keccak r s ≡ ok s'
    → (s'.rate_episodes ≡ s.rate_episodes)
      × (s'.rate_movement_reservations ≡ s.rate_movement_reservations)
unfolding persist_signed_attempt
attempt_keeps keccak r s s' h = ground arith

pub broadcast_keeps :
    (id hash at block : ℕ) (s s' : JsonState)
    → record_attempt_broadcast id hash at block s ≡ ok s'
    → (s'.rate_episodes ≡ s.rate_episodes)
      × (s'.rate_movement_reservations ≡ s.rate_movement_reservations)
unfolding record_attempt_broadcast
broadcast_keeps id hash at block s s' h = ground arith

pub conformance_keeps :
    (r : ConformanceRecord) (s s' : JsonState)
    → persist_conformance r s ≡ ok s'
    → (s'.rate_episodes ≡ s.rate_episodes)
      × (s'.rate_movement_reservations ≡ s.rate_movement_reservations)
unfolding persist_conformance
conformance_keeps r s s' h = ground arith

pub marked_keeps :
    (t : TransactionTransition) (s s' : JsonState)
    → mark_broadcast t s ≡ ok s'
    → (s'.rate_episodes ≡ s.rate_episodes)
      × (s'.rate_movement_reservations ≡ s.rate_movement_reservations)
unfolding mark_broadcast
marked_keeps t s s' h = ground arith

-- A step that leaves the episodes and the movements alone keeps the accounts.
pub kept-IsAccounted :
    (s s' : JsonState)
    → (s'.rate_episodes ≡ s.rate_episodes)
      × (s'.rate_movement_reservations ≡ s.rate_movement_reservations)
    → (e : ℕ) → IsAccounted s e
    → IsAccounted s' e
kept-IsAccounted s s' (episodes, rows) e h =
    ap (λ es. pending_of (find (has_episode e) es)) episodes ∙ h ∙ ap (reserved_for e) (sym rows)
