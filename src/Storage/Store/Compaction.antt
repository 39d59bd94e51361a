-- ===== src/Storage/Store/Compaction.antt =====
-- The compaction of src/storage/actor.rs: what is kept of the collections of `JsonState` whenever a
-- segment of the journal is full. The collections that are not in the model play no part in what is
-- kept of these, but for the latest timestamp of the canonical blocks, which is given.
use rbot_v.Prelude.{
  ℕ, zero, suc, Bool, ◌&&◌, ◌||◌, not, none, some, List, [], ◌∷◌, map, retain, length, contains,
  ltb, leb, ◌==◌, if◌then◌else◌,
}
use rbot_v.Prelude.Words.{saturating_sub}
use rbot_v.Storage.Models.{is_active_lifecycle, TransactionRow}
use rbot_v.Storage.Store.{JsonState, PlanRecord}
use rbot_v.Storage.Store.Movements.{is_pending}

abbrev hot_plan_retention : ℕ
hot_plan_retention = 32

abbrev hot_transaction_retention : ℕ
hot_transaction_retention = 1_024

abbrev pub rolling_policy_retention_seconds : ℕ
rolling_policy_retention_seconds = 172_800

-- The order of the pairs of a creation time and an identifier, and `sort` by it.
abbrev pair_leb : ℕ × ℕ → ℕ × ℕ → Bool
pair_leb (t, i) (u, j) = ltb t u || (t == u && leb i j)

unfoldable pub insert_pair : ℕ × ℕ → List (ℕ × ℕ) → List (ℕ × ℕ)
insert_pair x [] = x ∷ []
insert_pair x (y ∷ ys) =
    let rest = insert_pair x ys in if pair_leb x y then x ∷ y ∷ ys else y ∷ rest

unfoldable pub sort_pairs : List (ℕ × ℕ) → List (ℕ × ℕ)
sort_pairs [] = []
sort_pairs (x ∷ xs) = insert_pair x (sort_pairs xs)

unfoldable pub skip {ℓ} : {A : Type ℓ} → ℕ → List A → List A
skip zero xs = xs
skip (suc n) [] = []
skip (suc n) (_ ∷ xs) = skip n xs

abbrev transaction_id_of : TransactionRow → ℕ
transaction_id_of row = row.reservation.transaction_id

-- The latest terminal transactions, by creation.
unfoldable pub retained_terminal : List TransactionRow → List ℕ
retained_terminal rows =
    let terminal = sort_pairs (
      map (λ row. (row.reservation.created_at, row.reservation.transaction_id))
        (retain (λ row. not (is_active_lifecycle row.state)) rows)) in
    map (λ pair. pair.1)
      (skip (saturating_sub (length terminal) hot_transaction_retention) terminal)

unfoldable pub is_retained : ℕ → List ℕ → TransactionRow → Bool
is_retained rolling_cutoff terminal row =
    is_active_lifecycle row.state
    || leb rolling_cutoff row.reservation.created_at
    || contains terminal row.reservation.transaction_id

unfoldable pub retained_rows : ℕ → List TransactionRow → List TransactionRow
retained_rows latest_timestamp rows =
    retain
      (is_retained (saturating_sub latest_timestamp rolling_policy_retention_seconds)
        (retained_terminal rows))
      rows

unfoldable pub compact_lifecycle_history : ℕ → JsonState → JsonState
compact_lifecycle_history latest_timestamp s =
    let retained_transactions =
      map transaction_id_of (retained_rows latest_timestamp s.transactions) in
    record s {
      transactions = retained_rows latest_timestamp s.transactions;
      transaction_attempts =
          retain (λ attempt. contains retained_transactions attempt.transaction_id)
            s.transaction_attempts;
      conformance_records =
          retain (λ conformance. contains retained_transactions conformance.transaction_id)
            s.conformance_records;
      rate_movement_reservations =
          retain
            (λ movement.
              is_pending movement.state || contains retained_transactions movement.transaction_id)
            s.rate_movement_reservations;
    }

-- The set of the plans that active transactions refer to.
unfoldable pub referenced_plan_ids : List TransactionRow → List ℕ
referenced_plan_ids [] = []
referenced_plan_ids (row ∷ rows) =
    let rest = referenced_plan_ids rows in
    elim (if is_active_lifecycle row.state then row.reservation.plan_id else none) [
      | none ↦ rest
      | some plan_id ↦ if contains rest plan_id then rest else plan_id ∷ rest
    ]

-- The plans from an index on, and those before it that are referenced.
unfoldable pub keep_plans : ℕ → List ℕ → List PlanRecord → List PlanRecord
keep_plans zero referenced plans = plans
keep_plans (suc before) referenced [] = []
keep_plans (suc before) referenced (plan ∷ plans) =
    let rest = keep_plans before referenced plans in
    if contains referenced plan.plan_id then plan ∷ rest else rest

unfoldable pub compact_plans : JsonState → JsonState
compact_plans s =
    let referenced = referenced_plan_ids s.transactions in
    let ordinary_start =
      saturating_sub (length s.plans) (saturating_sub hot_plan_retention (length referenced)) in
    record s {
      plans =
          if ltb hot_plan_retention (length s.plans)
          then keep_plans ordinary_start referenced s.plans
          else s.plans;
    }

unfoldable pub compact_hot_state : ℕ → JsonState → JsonState
compact_hot_state latest_timestamp s = compact_plans (compact_lifecycle_history latest_timestamp s)
