-- ===== src/Storage/Models.antt =====
-- The records of src/storage/models.rs that the transaction lifecycle reads and writes, and the
-- lifecycle graph. Hashes, addresses and identifiers are numbers, byte strings are lists of bytes.
use rbot_v.Prelude.{ℕ, Bool, false, ◌||◌, Option, List, [], ◌∷◌, any, ◌==◌}

pub data TransactionState : Type 0 where
  nonce_reserved aborted_before_signing signed submitted : TransactionState
  replaced cancellation_submitted included confirmed : TransactionState
  reverted orphaned conformance_validated reconciled : TransactionState
  failed foreign_nonce_consumed cancelled : TransactionState
  replacement_signed cancellation_signed reconciliation_pending : TransactionState

-- The discriminants of the enumeration.
abbrev pub code : TransactionState → ℕ
code nonce_reserved = 0
code aborted_before_signing = 1
code signed = 2
code submitted = 3
code replaced = 4
code cancellation_submitted = 5
code included = 6
code confirmed = 7
code reverted = 8
code orphaned = 9
code conformance_validated = 10
code reconciled = 11
code failed = 12
code foreign_nonce_consumed = 13
code cancelled = 14
code replacement_signed = 15
code cancellation_signed = 16
code reconciliation_pending = 17

infix 50 ◌is◌
abbrev pub ◌is◌ : TransactionState → TransactionState → Bool
a is b = code a == code b

-- `matches!` on a list of alternatives.
abbrev pub one_of : TransactionState → List TransactionState → Bool
one_of s alternatives = any (λ a. s is a) alternatives

unfoldable pub is_unresolved : TransactionState → Bool
is_unresolved s = one_of s (
    nonce_reserved ∷ signed ∷ submitted ∷ replaced ∷ replacement_signed ∷ cancellation_signed
    ∷ cancellation_submitted ∷ included ∷ confirmed ∷ orphaned ∷ conformance_validated
    ∷ foreign_nonce_consumed ∷ [])

unfoldable pub requires_reconciliation : TransactionState → Bool
requires_reconciliation s = one_of s (conformance_validated ∷ reconciliation_pending ∷ [])

unfoldable pub is_active_lifecycle : TransactionState → Bool
is_active_lifecycle s = is_unresolved s || s is reconciliation_pending

unfoldable pub permits : TransactionState → TransactionState → Bool
permits nonce_reserved next = one_of next (aborted_before_signing ∷ signed ∷ failed ∷ [])
permits signed next = one_of next (
    submitted ∷ cancellation_signed ∷ cancellation_submitted ∷ foreign_nonce_consumed ∷ failed ∷ [])
permits submitted next = one_of next (
    replacement_signed ∷ cancellation_signed ∷ replaced ∷ cancellation_submitted ∷ included
    ∷ reverted ∷ foreign_nonce_consumed ∷ failed ∷ [])
permits replaced next = one_of next (
    replacement_signed ∷ cancellation_signed ∷ replaced ∷ cancellation_submitted ∷ included
    ∷ reverted ∷ orphaned ∷ foreign_nonce_consumed ∷ failed ∷ [])
permits cancellation_submitted next =
    one_of next (included ∷ reverted ∷ foreign_nonce_consumed ∷ failed ∷ cancelled ∷ [])
permits replacement_signed next = one_of next (replaced ∷ failed ∷ [])
permits cancellation_signed next = one_of next (cancellation_submitted ∷ failed ∷ [])
permits included next = one_of next (confirmed ∷ reverted ∷ orphaned ∷ failed ∷ [])
permits confirmed next = one_of next (conformance_validated ∷ failed ∷ [])
permits orphaned next = one_of next (
    submitted ∷ cancellation_signed ∷ cancellation_submitted ∷ included ∷ reverted
    ∷ foreign_nonce_consumed ∷ failed ∷ [])
permits conformance_validated next = one_of next (reconciled ∷ failed ∷ [])
permits reconciliation_pending next = one_of next (reconciled ∷ failed ∷ [])
permits aborted_before_signing _ = false
permits reverted _ = false
permits reconciled _ = false
permits failed _ = false
permits cancelled _ = false
permits foreign_nonce_consumed _ = false

pub record NonceReservation : Type 0 where
  pub transaction_id : ℕ
  pub plan_id : Option ℕ
  pub vault : ℕ
  pub signer : ℕ
  pub nonce : ℕ
  pub calldata : List ℕ
  pub calldata_hash : ℕ
  pub max_fee_per_gas : ℕ
  pub max_priority_fee_per_gas : ℕ
  pub gas_limit : ℕ
  pub movement_assets : ℕ
  pub created_block : ℕ
  pub created_at : ℕ

pub data RateMovementReservationState : Type 0 where
  pending released confirmed_movement_state : RateMovementReservationState

pub record RateMovementReservationRecord : Type 0 where
  pub reservation_id : ℕ
  pub transaction_id : ℕ
  pub plan_id : ℕ
  pub episode_id : ℕ
  pub movement_assets : ℕ
  pub budget_before : ℕ
  pub budget_after : ℕ
  pub state : RateMovementReservationState

pub record SignedTransactionRecord : Type 0 where
  pub transaction_id : ℕ
  pub transaction_hash : ℕ
  pub raw_signed_transaction : List ℕ
  pub updated_at : ℕ

pub data TransactionAttemptKind : Type 0 where
  initial replacement cancellation : TransactionAttemptKind

pub record SignedAttemptRecord : Type 0 where
  pub transaction_id : ℕ
  pub kind : TransactionAttemptKind
  pub transaction_hash : ℕ
  pub raw_signed_transaction : List ℕ
  pub max_fee_per_gas : ℕ
  pub max_priority_fee_per_gas : ℕ
  pub signed_at : ℕ
  pub signed_block : ℕ
  pub broadcast_at : Option ℕ
  pub last_broadcast_block : Option ℕ

pub record TransactionTransition : Type 0 where
  pub transaction_id : ℕ
  pub expected_state : TransactionState
  pub next_state : TransactionState
  pub transaction_hash : Option ℕ
  pub submitted_at : Option ℕ
  pub included_block : Option ℕ
  pub included_block_hash : Option ℕ
  pub updated_at : ℕ

pub record ConformanceRecord : Type 0 where
  pub transaction_id : ℕ
  pub transaction_hash : ℕ
  pub block_number : ℕ
  pub block_hash : ℕ
  pub action_count : ℕ
  pub movement_assets : ℕ
  pub positive_loss_assets : ℕ
  pub report_hash : ℕ
  pub validated_at : ℕ

-- `TransactionRow` of src/storage/actor.rs.
pub record TransactionRow : Type 0 where
  pub reservation : NonceReservation
  pub state : TransactionState
  pub transaction_hash : Option ℕ
  pub raw_signed_transaction : Option (List ℕ)
  pub submitted_at : Option ℕ
  pub included_block : Option ℕ
  pub included_block_hash : Option ℕ
  pub updated_at : ℕ
