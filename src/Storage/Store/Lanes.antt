-- ===== src/Storage/Store/Lanes.antt =====
-- The nonce lanes of src/storage/actor.rs: a signer has one unresolved transaction at most.
use rbot_v.Prelude.{
  ℕ, Bool, true, false, ◌≡◌, ◌↔◌, retain, length, head?, refl, sym, none, some, List, [], ◌∷◌, ◌++◌,
  ok, find, any, count, arith,
}
use mathlib.Core.Path.{subst}
use rbot_v.Storage.Models.{
  TransactionState, nonce_reserved, confirmed, is_unresolved, NonceReservation,
  SignedTransactionRecord, TransactionAttemptKind, SignedAttemptRecord, TransactionTransition,
  ConformanceRecord, TransactionRow,
}
use rbot_v.Storage.Graph.{permits-is_unresolved, is-is_unresolved}
use rbot_v.Storage.Store.{
  load_unresolved, write_signed, write_attempt, write_conformance, JsonState, has_id, owns_lane,
  fresh_row, reserve_nonce, persist_signed, persist_signed_attempt, signed_state,
  persist_conformance,
}
use rbot_v.Storage.Store.Movements.{
  transition_transaction, write_transition, reserve_rate_movement_and_nonce,
}
use rbot_v.Storage.Store.Outcomes.{
  reserve_nonce-ok, reserve_rate_movement_and_nonce-ok, persist_signed-ok,
  persist_signed_attempt-ok, record_attempt_broadcast-ok, persist_conformance-ok,
  persist_episode-ok, Transitions, transition_transaction-ok,
}
use rbot_v.Storage.Store.Commands.{
  StorageCommand, reserve_nonce_command, reserve_rate_command, persist_signed_command,
  persist_attempt_command, record_broadcast_command, transition_command,
  persist_conformance_command, persist_episode_command, apply, CommitContext, commit, run,
  commit_keeps,
}
use rbot_v.Storage.Store.Compaction.{
  compact_hot_state, compact_plans, compact_lifecycle_history, retained_rows,
}
use rbot_v.Storage.Store.Rows.{HasLanes, update-HasLanes, append-HasLanes, retain-HasLanes}

abbrev AreLanes : JsonState → Type 0
AreLanes s = HasLanes s.transactions

reserve_nonce-HasLanes :
    (keccak : List ℕ → ℕ) (r : NonceReservation) (s s' : JsonState)
    → HasLanes s.transactions
    → reserve_nonce keccak r s ≡ ok s'
    → HasLanes s'.transactions
reserve_nonce-HasLanes keccak r s s' h k =
    let (free, fresh, rows) = reserve_nonce-ok keccak r s s' k in
    subst HasLanes (sym rows) (append-HasLanes r s.transactions free fresh h)

reserve_rate_movement_and_nonce-HasLanes :
    (keccak : List ℕ → ℕ) (r : NonceReservation) (episode_id movement : ℕ) (s s' : JsonState)
    → HasLanes s.transactions
    → reserve_rate_movement_and_nonce keccak r episode_id movement s ≡ ok s'
    → HasLanes s'.transactions
reserve_rate_movement_and_nonce-HasLanes keccak r episode_id movement s s' h k =
    let (free, fresh, rows) =
      reserve_rate_movement_and_nonce-ok keccak r episode_id movement s s' k in
    subst HasLanes (sym rows) (append-HasLanes r s.transactions free fresh h)

persist_signed-HasLanes :
    (keccak : List ℕ → ℕ) (r : SignedTransactionRecord) (s s' : JsonState)
    → HasLanes s.transactions
    → persist_signed keccak r s ≡ ok s'
    → HasLanes s'.transactions
unfolding is_unresolved
persist_signed-HasLanes keccak r s s' h k =
    let (row, found, expected, rows) = persist_signed-ok keccak r s s' k in
    subst HasLanes (sym rows) (
      update-HasLanes r.transaction_id (write_signed r) s.transactions row found refl
        (λ _. is-is_unresolved row.state nonce_reserved expected refl) h)

signed_state-is_unresolved :
    (k : TransactionAttemptKind) (a b : TransactionState)
    → signed_state k a ≡ some b
    → is_unresolved a ≡ true
unfolding signed_state is_unresolved
signed_state-is_unresolved k a b h = ground arith

persist_signed_attempt-HasLanes :
    (keccak : List ℕ → ℕ) (r : SignedAttemptRecord) (s s' : JsonState)
    → HasLanes s.transactions
    → persist_signed_attempt keccak r s ≡ ok s'
    → HasLanes s'.transactions
persist_signed_attempt-HasLanes keccak r s s' h k =
    let (row, state, found, allowed, rows) = persist_signed_attempt-ok keccak r s s' k in
    subst HasLanes (sym rows) (
      update-HasLanes r.transaction_id (write_attempt state r) s.transactions row found refl
        (λ _. signed_state-is_unresolved r.kind row.state state allowed) h)

persist_conformance-HasLanes :
    (r : ConformanceRecord) (s s' : JsonState)
    → HasLanes s.transactions
    → persist_conformance r s ≡ ok s'
    → HasLanes s'.transactions
unfolding is_unresolved
persist_conformance-HasLanes r s s' h k =
    let (row, found, expected, rows) = persist_conformance-ok r s s' k in
    subst HasLanes (sym rows) (
      update-HasLanes r.transaction_id (write_conformance r) s.transactions row found refl
        (λ _. is-is_unresolved row.state confirmed expected refl) h)

transition_transaction-HasLanes :
    (t : TransactionTransition) (s s' : JsonState)
    → HasLanes s.transactions
    → transition_transaction t s ≡ ok s'
    → HasLanes s'.transactions
unfolding Transitions
transition_transaction-HasLanes t s s' h k =
    let (row, found, allowed, expected, rows) = transition_transaction-ok t s s' k in
    subst HasLanes (sym rows) (
      update-HasLanes t.transaction_id (write_transition t) s.transactions row found refl
        (λ next.
          is-is_unresolved row.state t.expected_state expected
            (permits-is_unresolved t.expected_state t.next_state allowed next))
        h)

-- A successful command keeps one lane for each signer and one row for each identifier.
pub apply-HasLanes :
    (keccak : List ℕ → ℕ) (c : StorageCommand) (s s' : JsonState)
    → HasLanes s.transactions
    → apply keccak c s ≡ ok s'
    → HasLanes s'.transactions
unfolding apply
apply-HasLanes keccak (reserve_nonce_command r) s s' h k = reserve_nonce-HasLanes keccak r s s' h k
apply-HasLanes keccak (reserve_rate_command r e m) s s' h k =
    reserve_rate_movement_and_nonce-HasLanes keccak r e m s s' h k
apply-HasLanes keccak (persist_signed_command r) s s' h k =
    persist_signed-HasLanes keccak r s s' h k
apply-HasLanes keccak (persist_attempt_command r) s s' h k =
    persist_signed_attempt-HasLanes keccak r s s' h k
apply-HasLanes keccak (record_broadcast_command i x a b) s s' h k =
    subst HasLanes (sym (record_attempt_broadcast-ok i x a b s s' k)) h
apply-HasLanes keccak (transition_command t) s s' h k = transition_transaction-HasLanes t s s' h k
apply-HasLanes keccak (persist_conformance_command r) s s' h k =
    persist_conformance-HasLanes r s s' h k
apply-HasLanes keccak (persist_episode_command e a) s s' h k =
    subst HasLanes (sym (persist_episode-ok e a s s' k)) h

pub compact_hot_state-HasLanes :
    (latest : ℕ) (s : JsonState)
    → HasLanes s.transactions
    → HasLanes (compact_hot_state latest s).transactions
unfolding compact_hot_state compact_plans compact_lifecycle_history retained_rows
compact_hot_state-HasLanes latest s h = retain-HasLanes _ s.transactions h

commit-HasLanes :
    (keccak : List ℕ → ℕ) (context : CommitContext) (c : StorageCommand) (s : JsonState)
    → HasLanes s.transactions
    → HasLanes (commit context s (apply keccak c s)).transactions
commit-HasLanes keccak context c s h =
    commit_keeps AreLanes context s (apply keccak c s) h (λ s'. apply-HasLanes keccak c s s' h)
      (λ _ _ k. k) compact_hot_state-HasLanes

-- From a store where each signer has one unresolved transaction at most and each identifier one row
-- at most, every sequence of reservations, signings, broadcasts, transitions, validations of
-- conformance and episode writes leads to such a store, whether they succeed or fail, whatever
-- each commit meets, and with the compaction at the end of every segment of the journal.
pub run-HasLanes :
    (keccak : List ℕ → ℕ) (cs : List (CommitContext × StorageCommand)) (s : JsonState)
    → HasLanes s.transactions
    → HasLanes (run keccak cs s).transactions
unfolding run
run-HasLanes keccak [] s h = h
run-HasLanes keccak ((context, c) ∷ cs) s h =
    run-HasLanes keccak cs (commit context s (apply keccak c s))
      (commit-HasLanes keccak context c s h)

length-retain :
    (p : TransactionRow → Bool) (rows : List TransactionRow) → length (retain p rows) ≡ count p rows
length-retain p [] = refl
length-retain p (x ∷ xs) = ground (arith, length-retain p xs)

head?-retain :
    (p : TransactionRow → Bool) (rows : List TransactionRow) → head? (retain p rows) ≡ find p rows
head?-retain p [] = refl
head?-retain p (x ∷ xs) = ground (arith, head?-retain p xs)

-- In a store where each signer has one unresolved transaction at most and each identifier one row
-- at most, loading a signer's unresolved transaction returns the first row that holds the signer's
-- lane and never reports several of them.
load_unresolved-eq-find :
    (s : JsonState) (signer : ℕ)
    → HasLanes s.transactions
    → load_unresolved s signer ≡ ok (find (owns_lane signer) s.transactions)
unfolding load_unresolved
load_unresolved-eq-find s signer h = ground (
  arith,
  h.lane signer,
  length-retain (owns_lane signer) s.transactions,
  head?-retain (owns_lane signer) s.transactions,
)

find-eq-none :
    (p : TransactionRow → Bool) (rows : List TransactionRow)
    → (any p rows ≡ false) ↔ (find p rows ≡ none)
find-eq-none p [] = ground arith
find-eq-none p (x ∷ xs) = ground (arith, find-eq-none p xs)

-- In a store where each signer has one unresolved transaction at most and each identifier one row
-- at most, a reservation whose call data has its hash and whose identifier is new succeeds exactly
-- when loading the signer's unresolved transaction finds none.
pub reserve_nonce-iff-load_unresolved :
    (keccak : List ℕ → ℕ) (r : NonceReservation) (s : JsonState)
    → HasLanes s.transactions
    → r.calldata_hash ≡ keccak r.calldata
    → any (has_id r.transaction_id) s.transactions ≡ false
    → (reserve_nonce keccak r s
        ≡ ok (record s { transactions = s.transactions ++ (fresh_row r ∷ []) }))
      ↔ (load_unresolved s r.signer ≡ ok none)
unfolding reserve_nonce
reserve_nonce-iff-load_unresolved keccak r s h hash fresh =
    ground (
      arith,
      find-eq-none (owns_lane r.signer) s.transactions,
      load_unresolved-eq-find s r.signer h,
    )
