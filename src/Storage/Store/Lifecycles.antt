-- ===== src/Storage/Store/Lifecycles.antt =====
-- The commands of src/storage/actor.rs implement the lifecycle graph of src/storage/models.rs: the
-- state of each transaction only walks along permitted transitions.
use rbot_v.Prelude.{ℕ, Bool, true, false, ◌≡◌, Option, none, some, and_then, List, find}
use rbot_v.Storage.Models.{
  TransactionState, nonce_reserved, permits, is_active_lifecycle, TransactionRow,
}
use rbot_v.Storage.Store.{JsonState, has_id}
use rbot_v.Storage.Store.Compaction.{
  retained_terminal, is_retained, rolling_policy_retention_seconds,
}
use rbot_v.Storage.Store.Rows.{HasLanes}
use rbot_v.Prelude.Words.{saturating_sub}

-- The abstract store: the state of each transaction.
abbrev pub state_of : List TransactionRow → ℕ → Option TransactionState
state_of rows id = and_then (find (has_id id) rows) (λ row. some row.state)

-- The abstract run of a transaction: it comes into being with its nonce reserved where it is not
-- there, it takes a permitted transition, and it may be forgotten in a state that is not active.
pub data Walks (a : Option TransactionState) : Option TransactionState → Type 0 where
  rests : Walks a a
  creates : Walks a none → Walks a (some nonce_reserved)
  moves : {b c : TransactionState} → Walks a (some b) → permits b c ≡ true → Walks a (some c)
  forgets : {b : TransactionState} → Walks a (some b) → is_active_lifecycle b ≡ false → Walks a none

-- Whether compaction keeps a row.
abbrev keeps : ℕ → List TransactionRow → TransactionRow → Bool
keeps latest rows =
    is_retained (saturating_sub latest rolling_policy_retention_seconds) (retained_terminal rows)

abbrev AllWalk : List TransactionRow → List TransactionRow → Type 0
AllWalk rows rows' = (id : ℕ) → Walks (state_of rows id) (state_of rows' id)

abbrev Follows : JsonState → JsonState → Type 0
Follows s s' = HasLanes s'.transactions × AllWalk s.transactions s'.transactions
