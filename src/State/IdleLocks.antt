-- ===== src/State/IdleLocks.antt =====
-- The idle-lock ledger of src/state/idle_locks.rs. The hash function is library code, so it is a
-- parameter.
pub mod Kinds
pub mod Consumption
pub mod Balances
pub mod Ledger
use rbot_v.Prelude.{
  ℕ, ◌+◌, ◌-◌, Bool, true, false, ◌&&◌, ◌||◌, not, Option, none, some, List, [], ◌∷◌, ◌++◌, Result,
  ok, err, ◌>>=◌, ◌>>◌, ok_or, fail_if, map_err, find, update_first, min, ltb, leb, ◌==◌,
  if◌then◌else◌,
}
use rbot_v.Prelude.Words.{checked_add, checked_sub, saturating_sub}
use rbot_v.State.Attribution.{
  FlowOrigin, bot_rebalance, vault_user_force_deallocate, approved_external_allocator,
  unknown_external_allocator, sentinel_deallocation, direct_donation, unknown_origin,
  OrderedTransactionFlow, TransactionIdleEffect, AttributionError, attribute_idle_effect,
}

pub data IdleLockKind : Type 0 where
  force_exit external_emergency_deallocation : IdleLockKind
  operator_emergency unattributed_safety_hold : IdleLockKind

abbrev pub stable_code : IdleLockKind → ℕ
stable_code force_exit = 0
stable_code external_emergency_deallocation = 1
stable_code operator_emergency = 2
stable_code unattributed_safety_hold = 3

pub data IdleLockReleaseState : Type 0 where
  active operator_cleared preauthorized_release consumed : IdleLockReleaseState

pub record IdleLock : Type 0 where
  pub lock_id : ℕ
  pub vault : ℕ
  pub kind : IdleLockKind
  pub origin_transaction : ℕ
  pub origin_address : ℕ
  pub created_assets : ℕ
  pub remaining_assets : ℕ
  pub created_block : ℕ
  pub release_state : IdleLockReleaseState

pub record IdleLockLedger : Type 0 where
  pub vault : ℕ
  pub exact_idle_assets : ℕ
  pub locks : List IdleLock
  pub cursor : Option (ℕ × ℕ)
  pub verified : Bool

pub data IdleLockError : Type 0 where
  non_canonical_order lock_invariant unknown_lock : IdleLockError
  attribution : AttributionError → IdleLockError

abbrev pub is_active : IdleLockReleaseState → Bool
is_active active = true
is_active _ = false

unfoldable pub new_ledger : ℕ → ℕ → IdleLockLedger
new_ledger vault exact_idle_assets = record {
  vault = vault;
  exact_idle_assets = exact_idle_assets;
  locks = [];
  cursor = none;
  verified = true;
}

-- The fold of `total_locked`, from a total.
unfoldable pub total_from : ℕ → List IdleLock → Result IdleLockError ℕ
total_from total [] = ok total
total_from total (lock ∷ locks) =
    if is_active lock.release_state
    then (ok_or (checked_add total lock.remaining_assets) lock_invariant >>= λ next.
        total_from next locks)
    else total_from total locks

unfoldable pub total_locked : IdleLockLedger → Result IdleLockError ℕ
total_locked ledger = total_from 0 ledger.locks

unfoldable pub routine_available_idle : IdleLockLedger → Result IdleLockError ℕ
routine_available_idle ledger = do
  fail_if (not ledger.verified) lock_invariant
  locked ← total_locked ledger
  ok_or (checked_sub ledger.exact_idle_assets locked) lock_invariant

unfoldable pub create_lock :
    (List ℕ → ℕ) → IdleLockKind → OrderedTransactionFlow → ℕ → IdleLockLedger → IdleLockLedger
create_lock keccak kind t assets ledger = record ledger {
  locks =
      ledger.locks
      ++ (record {
        lock_id = keccak (
            t.transaction_hash
            ∷ t.sender
            ∷ t.block_number
            ∷ t.transaction_index
            ∷ stable_code kind
            ∷ []);
        vault = ledger.vault;
        kind = kind;
        origin_transaction = t.transaction_hash;
        origin_address = t.sender;
        created_assets = assets;
        remaining_assets = assets;
        created_block = t.block_number;
        release_state = active;
      }
          ∷ []);
}

abbrev pub selects : IdleLockKind → IdleLock → Bool
selects kind lock = stable_code lock.kind == stable_code kind && is_active lock.release_state

abbrev pub lower : ℕ → IdleLock → IdleLock
lower left lock = record lock {
  remaining_assets = left;
  release_state = if left == 0 then consumed else lock.release_state;
}

abbrev pub keep :
    IdleLock → Result IdleLockError (List IdleLock × ℕ) → Result IdleLockError (List IdleLock × ℕ)
keep lock rest = rest >>= λ (locks, left). ok (lock ∷ locks, left)

-- One turn of the loop on a lock of the kind: what the rest of the loop returns is used only where
-- something remains.
unfoldable pub consume_lock :
    ℕ
    → IdleLock
    → List IdleLock
    → Result IdleLockError (List IdleLock × ℕ)
    → Result IdleLockError (List IdleLock × ℕ)
consume_lock remaining lock locks rest = do
  left ←
      ok_or (checked_sub lock.remaining_assets (min lock.remaining_assets remaining)) lock_invariant
  next ← ok_or (checked_sub remaining (min lock.remaining_assets remaining)) lock_invariant
  if next == 0 then ok (lower left lock ∷ locks, next) else keep (lower left lock) rest

-- The loop over the active locks of a kind, which stops once nothing remains to be consumed. It
-- returns the locks and what remains.
unfoldable pub consume_kind :
    IdleLockKind → ℕ → List IdleLock → Result IdleLockError (List IdleLock × ℕ)
consume_kind kind remaining [] = ok ([], remaining)
consume_kind kind remaining (lock ∷ locks) =
    let rest = consume_kind kind (remaining - min lock.remaining_assets remaining) locks in
    let untouched = consume_kind kind remaining locks in
    if selects kind lock then consume_lock remaining lock locks rest else keep lock untouched

-- The four kinds in their order of consumption.
unfoldable pub consume_all : ℕ → List IdleLock → Result IdleLockError (List IdleLock × ℕ)
consume_all amount locks = do
  (l1, r1) ← consume_kind force_exit amount locks
  (l2, r2) ← consume_kind external_emergency_deallocation r1 l1
  (l3, r3) ← consume_kind operator_emergency r2 l2
  consume_kind unattributed_safety_hold r3 l3

-- The kind of lock that an inflow of a transaction creates.
unfoldable pub created_kind : FlowOrigin → Bool → Option IdleLockKind
created_kind vault_user_force_deallocate _ = some force_exit
created_kind sentinel_deallocation _ = some external_emergency_deallocation
created_kind approved_external_allocator false = some external_emergency_deallocation
created_kind approved_external_allocator true = none
created_kind unknown_origin _ = some unattributed_safety_hold
created_kind unknown_external_allocator _ = some unattributed_safety_hold
created_kind direct_donation _ = some unattributed_safety_hold
created_kind _ _ = none

abbrev pub is_bot : FlowOrigin → Bool
is_bot bot_rebalance = true
is_bot _ = false

-- `cursor >= location` on pairs, in their lexical order.
abbrev pub passed : Option (ℕ × ℕ) → ℕ → ℕ → Bool
passed none _ _ = false
passed (some (b, i)) block index = ltb block b || (block == b && leb index i)

-- A failure that also marks the ledger as no longer verified.
abbrev pub unverified :
    IdleLockLedger → IdleLockError → IdleLockLedger × Result IdleLockError (Unit {0})
unverified ledger e = (record ledger { verified = false }, err e)

-- The consumed locks, which must cover the amount.
unfoldable pub store_consumed :
    IdleLockLedger
    → Result IdleLockError (List IdleLock × ℕ)
    → IdleLockLedger × Result IdleLockError (Unit {0})
store_consumed ledger (err e) = (ledger, err e)
store_consumed ledger (ok (locks, left)) =
    if left == 0
    then (record ledger { locks = locks }, ok tt)
    else unverified (record ledger { locks = locks }) lock_invariant

-- What the unlocked idle assets do not cover comes from the locks, but never for the bot.
unfoldable pub consume_locked :
    Bool
    → ℕ
    → IdleLockLedger
    → Result IdleLockError ℕ
    → IdleLockLedger × Result IdleLockError (Unit {0})
consume_locked bot net ledger (err e) = (ledger, err e)
consume_locked bot net ledger (ok unlocked) =
    if bot && not (saturating_sub net unlocked == 0)
    then unverified ledger lock_invariant
    else store_consumed ledger (consume_all (saturating_sub net unlocked) ledger.locks)

-- The consumption of a transaction's net outflow.
unfoldable pub consume_net :
    Bool → ℕ → IdleLockLedger → IdleLockLedger × Result IdleLockError (Unit {0})
consume_net bot net ledger =
    if net == 0
    then (ledger, ok tt)
    else consume_locked bot net ledger (routine_available_idle ledger)

-- The lock of a transaction's net inflow.
unfoldable pub create_net :
    (List ℕ → ℕ) → OrderedTransactionFlow → ℕ → IdleLockLedger → IdleLockLedger
create_net keccak t net ledger =
    if net == 0 then ledger else elim (created_kind t.origin t.preauthorized_redeploy) [
      | none ↦ ledger
      | some kind ↦ create_lock keccak kind t net ledger
    ]

-- The last check, on a ledger with its new balance and cursor.
unfoldable pub verify_total :
    IdleLockLedger → Result IdleLockError ℕ → IdleLockLedger × Result IdleLockError (Unit {0})
verify_total ledger (err e) = (ledger, err e)
verify_total ledger (ok locked) =
    if ltb ledger.exact_idle_assets locked
    then unverified ledger lock_invariant
    else (ledger, ok tt)

unfoldable pub verify : IdleLockLedger → IdleLockLedger × Result IdleLockError (Unit {0})
verify ledger = verify_total ledger (total_locked ledger)

unfoldable pub settle_transaction :
    (List ℕ → ℕ)
    → OrderedTransactionFlow
    → ℕ
    → ℕ
    → IdleLockLedger × Result IdleLockError (Unit {0})
    → IdleLockLedger × Result IdleLockError (Unit {0})
settle_transaction keccak t created post (ledger, err e) = (ledger, err e)
settle_transaction keccak t created post (ledger, ok _) =
    verify (record (create_net keccak t created ledger) {
      exact_idle_assets = post;
      cursor = some (t.block_number, t.transaction_index);
    })

unfoldable pub apply_effect :
    (List ℕ → ℕ)
    → OrderedTransactionFlow
    → ℕ
    → IdleLockLedger
    → Result AttributionError TransactionIdleEffect
    → IdleLockLedger × Result IdleLockError (Unit {0})
apply_effect keccak t post ledger (err e) = (ledger, err (attribution e))
apply_effect keccak t post ledger (ok effect) =
    settle_transaction keccak t effect.net_created_assets post
      (consume_net (is_bot t.origin) effect.net_consumed_assets ledger)

unfoldable pub apply_transaction :
    (List ℕ → ℕ)
    → OrderedTransactionFlow
    → ℕ
    → IdleLockLedger
    → IdleLockLedger × Result IdleLockError (Unit {0})
apply_transaction keccak t post ledger =
    if passed ledger.cursor t.block_number t.transaction_index
    then unverified ledger non_canonical_order
    else apply_effect keccak t post ledger (attribute_idle_effect t ledger.exact_idle_assets post)

abbrev pub has_lock : ℕ → IdleLock → Bool
has_lock id lock = lock.lock_id == id && is_active lock.release_state

unfoldable pub release :
    ℕ → IdleLockReleaseState → IdleLockLedger → Result IdleLockError IdleLockLedger
release id state ledger = do
  fail_if (is_active state) unknown_lock
  _ ← ok_or (find (has_lock id) ledger.locks) unknown_lock
  ok (record ledger {
    locks =
        update_first (has_lock id)
          (λ lock. record lock { remaining_assets = 0; release_state = state }) ledger.locks;
  })
