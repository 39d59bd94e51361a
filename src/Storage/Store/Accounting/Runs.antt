-- ===== src/Storage/Store/Accounting/Runs.antt =====
-- The commands of src/storage/actor.rs keep the accounts.
use rbot_v.Prelude.{
  ℕ, ◌||◌, retain, sym, ◌∙◌, Bool, true, false, ◌≡◌, refl, List, [], ◌∷◌, ok, arith,
}
use rbot_v.Storage.Store.{JsonState}
use rbot_v.Storage.Store.Commands.{
  StorageCommand, reserve_nonce_command, reserve_rate_command, persist_signed_command,
  persist_attempt_command, record_broadcast_command, transition_command,
  persist_conformance_command, persist_episode_command, apply, CommitContext, commit, run,
  commit_keeps,
}
use rbot_v.Storage.Store.Compaction.{compact_hot_state, compact_plans, compact_lifecycle_history}
use rbot_v.Storage.Models.{RateMovementReservationRecord}
use rbot_v.Storage.Store.Movements.{is_pending}
use rbot_v.Storage.Store.Accounting.{reserved_for, IsAccounted}
use rbot_v.Storage.Store.Accounting.Keeps.{
  nonce_keeps, signed_keeps, attempt_keeps, broadcast_keeps, conformance_keeps, kept-IsAccounted,
}
use rbot_v.Storage.Store.Accounting.Moves.{reserve-IsAccounted}
use rbot_v.Storage.Store.Accounting.Releases.{transition-IsAccounted}

-- Whether none of the commands writes an episode whole.
abbrev pub leaves_episodes : List (CommitContext × StorageCommand) → Bool
leaves_episodes [] = true
leaves_episodes ((_, persist_episode_command _ _) ∷ _) = false
leaves_episodes (_ ∷ cs) = leaves_episodes cs

abbrev leaves_episode : StorageCommand → Bool
leaves_episode (persist_episode_command _ _) = false
leaves_episode _ = true

apply-IsAccounted :
    (keccak : List ℕ → ℕ) (c : StorageCommand) (s s' : JsonState)
    → leaves_episode c ≡ true
    → apply keccak c s ≡ ok s'
    → (e : ℕ) → IsAccounted s e
    → IsAccounted s' e
unfolding apply
apply-IsAccounted keccak (reserve_nonce_command r) s s' l k =
    kept-IsAccounted s s' (nonce_keeps keccak r s s' k)
apply-IsAccounted keccak (reserve_rate_command r i m) s s' l k =
    reserve-IsAccounted keccak r i m s s' k
apply-IsAccounted keccak (persist_signed_command r) s s' l k =
    kept-IsAccounted s s' (signed_keeps keccak r s s' k)
apply-IsAccounted keccak (persist_attempt_command r) s s' l k =
    kept-IsAccounted s s' (attempt_keeps keccak r s s' k)
apply-IsAccounted keccak (record_broadcast_command i x a b) s s' l k =
    kept-IsAccounted s s' (broadcast_keeps i x a b s s' k)
apply-IsAccounted keccak (transition_command t) s s' l k = transition-IsAccounted t s s' k
apply-IsAccounted keccak (persist_conformance_command r) s s' l k =
    kept-IsAccounted s s' (conformance_keeps r s s' k)
apply-IsAccounted keccak (persist_episode_command e a) s s' l k = cc

-- Compaction keeps the movements that are pending.
reserved_for-retain :
    (e : ℕ) (q : RateMovementReservationRecord → Bool) (rs : List RateMovementReservationRecord)
    → reserved_for e (retain (λ r. is_pending r.state || q r) rs) ≡ reserved_for e rs
reserved_for-retain e q [] = refl
reserved_for-retain e q (r ∷ rs) = ground (arith, reserved_for-retain e q rs)

compact_hot_state-IsAccounted :
    (e latest : ℕ) (s : JsonState) → IsAccounted s e → IsAccounted (compact_hot_state latest s) e
unfolding compact_hot_state compact_plans compact_lifecycle_history
compact_hot_state-IsAccounted e latest s h =
    h ∙ sym (reserved_for-retain e _ s.rate_movement_reservations)

leaves-∷ :
    (context : CommitContext) (c : StorageCommand) (cs : List (CommitContext × StorageCommand))
    → leaves_episodes ((context, c) ∷ cs) ≡ true
    → (leaves_episode c ≡ true) × (leaves_episodes cs ≡ true)
leaves-∷ context c cs h = ground arith

-- Where an episode holds exactly the movements reserved for it, it still does after every sequence
-- of reservations, signings, broadcasts, transitions and validations of conformance, whether they
-- succeed or fail, and with the compaction at the end of every segment of the journal: reservations
-- and releases of movements, also those that a transition of their transaction causes, change both
-- sides by the same amount, and compaction drops no movement that is pending.
pub run-IsAccounted :
    (keccak : List ℕ → ℕ) (cs : List (CommitContext × StorageCommand)) (s : JsonState) (e : ℕ)
    → leaves_episodes cs ≡ true
    → IsAccounted s e
    → IsAccounted (run keccak cs s) e
unfolding run
run-IsAccounted keccak [] s e l h = h
run-IsAccounted keccak ((context, c) ∷ cs) s e l h =
    let (here, later) = leaves-∷ context c cs l in
    run-IsAccounted keccak cs (commit context s (apply keccak c s)) e later (
      commit_keeps (λ s. IsAccounted s e) context s (apply keccak c s) h
        (λ s' done. apply-IsAccounted keccak c s s' here done e h) (λ _ _ k. k)
        (compact_hot_state-IsAccounted e))
