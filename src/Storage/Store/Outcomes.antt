-- ===== src/Storage/Store/Outcomes.antt =====
-- What a successful mutation of src/storage/actor.rs did to the rows of the transactions.
use rbot_v.Prelude.{
  ℕ, true, false, not, ◌≡◌, Result-cases, sym, ◌∙◌, ap, inl, inr, some, List, [], ◌∷◌, ◌++◌, ok,
  ok_or, fail_if, find, update_first, any, Ensures, returns, fails, ensured, step, arith,
}
use mathlib.Core.Path.{subst}
use rbot_v.Planner.Episodes.State.{RateSignalEpisode}
use rbot_v.Planner.Episodes.Budget.{available_budget, reserve_pending}
use rbot_v.Storage.Models.{
  TransactionState, nonce_reserved, confirmed, ◌is◌, permits, NonceReservation,
  SignedTransactionRecord, SignedAttemptRecord, TransactionTransition, ConformanceRecord,
  TransactionRow,
}
use rbot_v.Storage.Store.{
  no_plan, already_reserved, episode_not_durable, budget_invalid, budget_insufficient,
  evidence_required, invariant, stale_transition, invalid_transition, write_signed, write_attempt,
  write_conformance, JsonState, has_id, owns_lane, fresh_row, reserve_nonce, persist_signed,
  persist_signed_attempt, signed_state, record_attempt_broadcast, persist_conformance,
}
use rbot_v.Storage.Store.Movements.{
  is_taken, has_episode, budget_result, write_episode, reserve_rate_movement_and_nonce,
  check_rate_plan, release_rate_movement, release_movement, mark_broadcast, transition_transaction,
  write_transition, settle, requires_evidence, persist_episode,
}

pub reserve_nonce-ok :
    (keccak : List ℕ → ℕ) (r : NonceReservation) (s s' : JsonState)
    → reserve_nonce keccak r s ≡ ok s'
    → (any (owns_lane r.signer) s.transactions ≡ false)
      × (any (has_id r.transaction_id) s.transactions ≡ false)
      × (s'.transactions ≡ s.transactions ++ (fresh_row r ∷ []))
unfolding reserve_nonce
reserve_nonce-ok keccak r s s' h = ground arith

-- What a successful reservation found and did.
abbrev Reserves : NonceReservation → JsonState → JsonState → Type 0
Reserves r s s' =
    (any (owns_lane r.signer) s.transactions ≡ false)
    × (any (has_id r.transaction_id) s.transactions ≡ false)
    × (s'.transactions ≡ s.transactions ++ (fresh_row r ∷ []))

pub reserve_rate_movement_and_nonce-ok :
    (keccak : List ℕ → ℕ) (r : NonceReservation) (episode_id movement : ℕ) (s s' : JsonState)
    → reserve_rate_movement_and_nonce keccak r episode_id movement s ≡ ok s'
    → (any (owns_lane r.signer) s.transactions ≡ false)
      × (any (has_id r.transaction_id) s.transactions ≡ false)
      × (s'.transactions ≡ s.transactions ++ (fresh_row r ∷ []))
unfolding reserve_rate_movement_and_nonce
reserve_rate_movement_and_nonce-ok keccak r episode_id movement s s' = ensured (Reserves r s) (
    step _ (ok_or r.plan_id (invariant no_plan)) λ plan_id _.
      step _ (check_rate_plan plan_id episode_id movement s) λ _ _.
        step _
          (fail_if (any (is_taken r.transaction_id plan_id episode_id) s.rate_movement_reservations)
            (invariant already_reserved))
          λ _ _.
            step _
              (ok_or (find (has_episode episode_id) s.rate_episodes)
                (invariant episode_not_durable))
              λ entry _.
                step _ (ok_or (available_budget entry.episode) (invariant budget_invalid))
                  λ before _.
                    step _
                      (budget_result budget_insufficient (reserve_pending movement entry.episode))
                      λ episode _.
                        step _ (ok_or (available_budget episode) (invariant budget_invalid))
                          λ after _.
                            step _
                              (reserve_nonce keccak r (record s {
                                rate_episodes =
                                    update_first (has_episode episode_id) (write_episode episode)
                                      s.rate_episodes;
                              }))
                              λ reserved done. returns (
                                reserve_nonce-ok keccak r
                                  (record s {
                                    rate_episodes =
                                        update_first (has_episode episode_id)
                                          (write_episode episode) s.rate_episodes;
                                  })
                                  reserved done))

pub persist_signed-ok :
    (keccak : List ℕ → ℕ) (r : SignedTransactionRecord) (s s' : JsonState)
    → persist_signed keccak r s ≡ ok s'
    → (row : TransactionRow) × (find (has_id r.transaction_id) s.transactions ≡ some row)
      × (row.state is nonce_reserved ≡ true)
      × (s'.transactions ≡ update_first (has_id r.transaction_id) (write_signed r) s.transactions)
unfolding persist_signed
persist_signed-ok keccak r s s' h = grind arith

pub persist_signed_attempt-ok :
    (keccak : List ℕ → ℕ) (r : SignedAttemptRecord) (s s' : JsonState)
    → persist_signed_attempt keccak r s ≡ ok s'
    → (row : TransactionRow) × (state : TransactionState) × (find
          (has_id r.transaction_id)
          s.transactions
        ≡ some row)
      × (signed_state r.kind row.state ≡ some state)
      × (s'.transactions
          ≡ update_first (has_id r.transaction_id) (write_attempt state r) s.transactions)
unfolding persist_signed_attempt
persist_signed_attempt-ok keccak r s s' h = grind arith

pub record_attempt_broadcast-ok :
    (id hash at block : ℕ) (s s' : JsonState)
    → record_attempt_broadcast id hash at block s ≡ ok s'
    → s'.transactions ≡ s.transactions
unfolding record_attempt_broadcast
record_attempt_broadcast-ok id hash at block s s' h = ground arith

pub persist_conformance-ok :
    (r : ConformanceRecord) (s s' : JsonState)
    → persist_conformance r s ≡ ok s'
    → (row : TransactionRow) × (find (has_id r.transaction_id) s.transactions ≡ some row)
      × (row.state is confirmed ≡ true)
      × (s'.transactions
          ≡ update_first (has_id r.transaction_id) (write_conformance r) s.transactions)
unfolding persist_conformance
persist_conformance-ok r s s' h = grind arith

pub mark_broadcast-ok :
    (t : TransactionTransition) (s s' : JsonState)
    → mark_broadcast t s ≡ ok s'
    → s'.transactions ≡ s.transactions
unfolding mark_broadcast
mark_broadcast-ok t s s' h = ground arith

pub release_rate_movement-ok :
    (id : ℕ) (s s' : JsonState)
    → release_rate_movement id s ≡ ok s'
    → s'.transactions ≡ s.transactions
unfolding release_rate_movement release_movement
release_rate_movement-ok id s s' h = ground arith

pub persist_episode-ok :
    (e : RateSignalEpisode) (at : ℕ) (s s' : JsonState)
    → persist_episode e at s ≡ ok s'
    → s'.transactions ≡ s.transactions
unfolding persist_episode
persist_episode-ok e at s s' h = ground arith

pub settle-ok :
    (t : TransactionTransition) (s s' : JsonState)
    → settle t s ≡ ok s'
    → s'.transactions ≡ s.transactions
unfolding settle
settle-ok t s s' h = ground (arith, release_rate_movement-ok t.transaction_id s s')

settled :
    (t : TransactionTransition) (rows : List TransactionRow) (s marked s' : JsonState)
    → mark_broadcast t s ≡ ok marked
    → settle t (record marked {
      transactions =
          update_first (has_id t.transaction_id) (write_transition t) marked.transactions;
    })
      ≡ ok s'
    → s'.transactions ≡ update_first (has_id t.transaction_id) (write_transition t) s.transactions
settled t rows s marked s' h k =
    settle-ok t _ s' k
    ∙ ap (update_first (has_id t.transaction_id) (write_transition t))
        (mark_broadcast-ok t s marked h)

-- What a successful transition did to the rows.
unfoldable pub Transitions : TransactionTransition → JsonState → JsonState → Type 0
Transitions t s s' =
    (row : TransactionRow) × (find (has_id t.transaction_id) s.transactions ≡ some row)
    × (permits t.expected_state t.next_state ≡ true)
    × (row.state is t.expected_state ≡ true)
    × (s'.transactions ≡ update_first (has_id t.transaction_id) (write_transition t) s.transactions)

settle-Ensures :
    (t : TransactionTransition) (s : JsonState) (row : TransactionRow) (marked : JsonState)
    → find (has_id t.transaction_id) s.transactions ≡ some row
    → permits t.expected_state t.next_state ≡ true
    → row.state is t.expected_state ≡ true
    → mark_broadcast t s ≡ ok marked
    → Ensures (Transitions t s) (
        settle t (record marked {
          transactions =
              update_first (has_id t.transaction_id) (write_transition t) marked.transactions;
        }))
unfolding Transitions
settle-Ensures t s row marked found allowed expected mark =
    elim (Result-cases (
      settle t (record marked {
        transactions =
            update_first (has_id t.transaction_id) (write_transition t) marked.transactions;
      }))) [
        | inl (s', done) ↦ subst (Ensures (Transitions t s)) (sym done) (
            returns (row, found, allowed, expected, settled t s.transactions s marked s' mark done))
        | inr (e, failed) ↦ subst (Ensures (Transitions t s)) (sym failed) fails
      ]

pub transition_transaction-ok :
    (t : TransactionTransition) (s s' : JsonState)
    → transition_transaction t s ≡ ok s'
    → Transitions t s s'
unfolding transition_transaction Transitions
transition_transaction-ok t s s' = ensured (Transitions t s) (
    step _ (fail_if (requires_evidence t.next_state) (invariant evidence_required)) λ _ _.
      step _
        (fail_if (not (permits t.expected_state t.next_state))
          (invalid_transition t.expected_state t.next_state))
        λ _ allowed.
          step _ (ok_or (find (has_id t.transaction_id) s.transactions) stale_transition)
            λ row found.
              step _ (fail_if (not (row.state is t.expected_state)) stale_transition) λ _ expected.
                step _ (mark_broadcast t s) λ marked mark.
                  settle-Ensures t s row marked (ground arith) (ground arith) (ground arith) mark)
