-- ===== src/Storage/Store/Accounting.antt =====
-- The accounts of src/storage/actor.rs: what an episode holds as pending is what the movements
-- that are still reserved for it come to.
pub mod Keeps
pub mod Moves
pub mod Releases
pub mod Runs
use rbot_v.Prelude.{
  ℕ, ◌+◌, Bool, true, false, ◌&&◌, not, ◌≡◌, refl, sym, ap, ◌∙◌, inl, inr, Bool-cases, Option, none,
  some, some_injective, List, [], ◌∷◌, ◌++◌, Result, ok, err, ok_or, ok_or_ok, fail_if, find,
  find-eq-some, find_at, update_first, any, all, count, ltb, Ensures, returns, ensures, ensured,
  step, branch, if◌then◌else◌, ◌==◌, ==_iff, arith,
}
use mathlib.Core.Path.{subst}
use rbot_v.Prelude.Find.{find-update_first, find-update_first-other}
use rbot_v.Planner.Episodes.State.{RateSignalEpisode}
use rbot_v.Planner.Episodes.Budget.{available_budget, reserve_pending, release_pending}
use rbot_v.Storage.Models.{
  pending, permits, ◌is◌, NonceReservation, RateMovementReservationRecord, SignedTransactionRecord,
  SignedAttemptRecord, TransactionTransition, ConformanceRecord,
}
use rbot_v.Storage.Store.{
  InvariantMessage, no_plan, already_reserved, episode_not_durable, budget_invalid,
  budget_insufficient, episode_disappeared, release_rejected, multiple_pending_movements,
  evidence_required, invalid_transition, stale_transition, has_id, StorageError, invariant,
  TimedEpisode, JsonState, reserve_nonce, persist_signed, persist_signed_attempt,
  record_attempt_broadcast, persist_conformance,
}
use rbot_v.Storage.Store.Movements.{
  is_pending, owns_movement, has_episode, budget_result, write_episode, mark_released,
  release_movement, release_rate_movement, mark_broadcast, settle, transition_transaction,
  check_rate_plan, is_taken, reserve_rate_movement_and_nonce, releases_movement, requires_evidence,
  write_transition,
}
use rbot_v.Storage.Store.Commands.{
  StorageCommand, reserve_nonce_command, reserve_rate_command, persist_signed_command,
  persist_attempt_command, record_broadcast_command, transition_command,
  persist_conformance_command, persist_episode_command, apply, commit, run,
}

-- What an episode holds as pending, or nothing where it is not stored.
abbrev pub pending_of : Option TimedEpisode → ℕ
pending_of none = 0
pending_of (some entry) = entry.episode.pending_movement

-- The movements that are reserved and pending for an episode.
abbrev pub reserved_for : ℕ → List RateMovementReservationRecord → ℕ
reserved_for e [] = 0
reserved_for e (r ∷ rs) =
    if is_pending r.state && r.episode_id == e
    then r.movement_assets + reserved_for e rs
    else reserved_for e rs

abbrev pub IsAccounted : JsonState → ℕ → Type 0
IsAccounted s e =
    pending_of (find (has_episode e) s.rate_episodes) ≡ reserved_for e s.rate_movement_reservations

pub reserve_pending-ok :
    (message : InvariantMessage) (m : ℕ) (e e' : RateSignalEpisode)
    → budget_result message (reserve_pending m e) ≡ ok e'
    → (e'.pending_movement ≡ e.pending_movement + m) × (e'.episode_id ≡ e.episode_id)
unfolding reserve_pending
reserve_pending-ok message m e e' h = ground arith

pub release_pending-ok :
    (message : InvariantMessage) (m : ℕ) (e e' : RateSignalEpisode)
    → budget_result message (release_pending m e) ≡ ok e'
    → (e'.pending_movement + m ≡ e.pending_movement) × (e'.episode_id ≡ e.episode_id)
unfolding release_pending
release_pending-ok message m e e' h = ground arith

pub reserved_for-append :
    (e : ℕ) (rs : List RateMovementReservationRecord) (r : RateMovementReservationRecord)
    → reserved_for e (rs ++ (r ∷ [])) ≡ reserved_for e rs + reserved_for e (r ∷ [])
reserved_for-append e [] r = omega arith
reserved_for-append e (q ∷ rs) r = ground (arith, reserved_for-append e rs r)

head_released :
    (e id : ℕ) (q : RateMovementReservationRecord) (rs : List RateMovementReservationRecord)
    → owns_movement id q ≡ true
    → reserved_for e (mark_released q ∷ rs) + reserved_for e (q ∷ []) ≡ reserved_for e (q ∷ rs)
head_released e id q rs here = ground arith

-- The release of a transaction's movement takes it from the sum of its episode.
pub reserved_for-mark_released :
    (e id : ℕ) (rs : List RateMovementReservationRecord) (r : RateMovementReservationRecord)
    → find (owns_movement id) rs ≡ some r
    → reserved_for e (update_first (owns_movement id) mark_released rs) + reserved_for e (r ∷ [])
      ≡ reserved_for e rs
reserved_for-mark_released e id [] r h = cc
reserved_for-mark_released e id (q ∷ rs) r h =
    elim (find_at (owns_movement id q) q (find (owns_movement id) rs) r h) [
      | inl (here, same) ↦
          subst
            (λ z.
              reserved_for e (update_first (owns_movement id) mark_released (q ∷ rs))
                + reserved_for e (z ∷ [])
              ≡ reserved_for e (q ∷ rs))
            same (rw here (head_released e id q rs here))
      | inr (past, later) ↦ rw past (ground (arith, reserved_for-mark_released e id rs r later))
    ]

-- A write to a stored episode that keeps its identifier is seen under that identifier only.
write_episode-other :
    (k e : ℕ) (episode : RateSignalEpisode) (entries : List TimedEpisode)
    → (k == e) ≡ false
    → (episode.episode_id == k) ≡ true
    → find (has_episode e) (update_first (has_episode k) (write_episode episode) entries)
      ≡ find (has_episode e) entries
write_episode-other k e episode entries different own =
    find-update_first-other (has_episode e) (has_episode k) (write_episode episode) entries
      (λ x here. ground arith) (λ x here. ground arith)

-- A write that changes what an episode holds by as much as the sum of its movements changes.
pub write-IsAccounted :
    (k : ℕ) (entry : TimedEpisode) (episode : RateSignalEpisode) (s s' : JsonState)
    (more less : ℕ → ℕ)
    → find (has_episode k) s.rate_episodes ≡ some entry
    → episode.episode_id ≡ entry.episode.episode_id
    → s'.rate_episodes ≡ update_first (has_episode k) (write_episode episode) s.rate_episodes
    → ((e : ℕ)
        → reserved_for e s'.rate_movement_reservations + less e
          ≡ reserved_for e s.rate_movement_reservations + more e)
    → episode.pending_movement + less k ≡ entry.episode.pending_movement + more k
    → ((e : ℕ) → (k == e) ≡ false → more e ≡ less e)
    → (e : ℕ) → IsAccounted s e
    → IsAccounted s' e
write-IsAccounted k entry episode s s' more less found same written sums moved others e h =
    elim (Bool-cases (k == e)) [
      | inl own ↦
          subst (λ i. IsAccounted s i → IsAccounted s' i) ((==_iff k e).0 own)
            (λ before. omega (arith, before, booked, ap pending_of found, sums k, moved)) h
      | inr different ↦ omega (arith, h, kept different, sums e, others e different)
    ]
  where
    own_id : (episode.episode_id == k) ≡ true
    own_id = ap (λ i. i == k) same ∙ find-eq-some (has_episode k) s.rate_episodes entry found

    booked : pending_of (find (has_episode k) s'.rate_episodes) ≡ episode.pending_movement
    booked =
        ap (λ entries. pending_of (find (has_episode k) entries)) written
        ∙ ap pending_of (
            find-update_first (has_episode k) (write_episode episode) s.rate_episodes entry found
              own_id)

    kept :
        (k == e) ≡ false
        → pending_of (find (has_episode e) s'.rate_episodes)
          ≡ pending_of (find (has_episode e) s.rate_episodes)
    kept different =
        ap (λ entries. pending_of (find (has_episode e) entries)) written
        ∙ ap pending_of (write_episode-other k e episode s.rate_episodes different own_id)

pub reserved_for_own :
    (r : RateMovementReservationRecord)
    → is_pending r.state ≡ true
    → reserved_for r.episode_id (r ∷ []) ≡ r.movement_assets
reserved_for_own r h = ground arith

pub reserved_for_other :
    (r : RateMovementReservationRecord) (e : ℕ)
    → (r.episode_id == e) ≡ false
    → reserved_for e (r ∷ []) ≡ 0
reserved_for_other r e h = ground arith
