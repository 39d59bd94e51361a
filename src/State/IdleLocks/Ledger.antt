-- ===== src/State/IdleLocks/Ledger.antt =====
-- What a transaction does to the ledger of src/state/idle_locks.rs.
use rbot_v.Prelude.{
  ℕ, ◌+◌, ◌-◌, ◌≤◌, Bool, true, false, Option, none, some, List, Result, ok, err, ◌≡◌, refl, sym,
  ap, ◌∙◌, ◌⊎◌, ◌==◌, arith, if◌then◌else◌,
}
use mathlib.Core.Path.{subst}
use rbot_v.State.Attribution.{
  AttributionError, TransactionIdleEffect, OrderedTransactionFlow, bot_rebalance, FlowOrigin,
  attribute_idle_effect, attribute_idle_effect-Attributes,
}
use rbot_v.State.IdleLocks.{
  IdleLockKind, IdleLockLedger, IdleLockError, non_canonical_order, is_bot, create_lock,
  created_kind, passed, unverified, consume_net, create_net, apply_effect, settle_transaction,
  apply_transaction,
}
use rbot_v.State.IdleLocks.Kinds.{held_total}
use rbot_v.State.IdleLocks.Balances.{held_total-create_lock, consume_net-Consumes, verify_lem}

-- What a transaction that the ledger accepts leaves of it.
pub record Applies (t : OrderedTransactionFlow) (post : ℕ) (l l' : IdleLockLedger) : Type 0 where
  pub in_order : passed l.cursor t.block_number t.transaction_index ≡ false
  pub cursor : l'.cursor ≡ some (t.block_number, t.transaction_index)
  pub balance : l'.exact_idle_assets ≡ post
  pub covered : held_total l'.locks ≤ post
  pub bot_keeps : t.origin ≡ bot_rebalance → held_total l'.locks ≡ held_total l.locks
  pub bounded : held_total l'.locks ≤ held_total l.locks + (post - l.exact_idle_assets)

created_at :
    (keccak : List ℕ → ℕ) (t : OrderedTransactionFlow) (net : ℕ) (l : IdleLockLedger) (b : Bool)
    (o : Option IdleLockKind)
    → let m =
        (if b then l else elim o [ none ↦ l | some kind ↦ create_lock keccak kind t net l ]) in
      (held_total m.locks ≤ held_total l.locks + net)
      × (o ≡ none → held_total m.locks ≡ held_total l.locks)
created_at keccak t net l true o = (omega arith, λ _. refl)
created_at keccak t net l false none = (omega arith, λ _. refl)
created_at keccak t net l false (some kind) =
    (omega (arith, held_total-create_lock keccak kind t net l), λ h. cc)

bot-created_kind : (o : FlowOrigin) (b : Bool) → o ≡ bot_rebalance → created_kind o b ≡ none
unfolding created_kind
bot-created_kind o b h = ground arith

held_total-create_net :
    (keccak : List ℕ → ℕ) (t : OrderedTransactionFlow) (net : ℕ) (l : IdleLockLedger)
    → (held_total (create_net keccak t net l).locks ≤ held_total l.locks + net)
      × (t.origin ≡ bot_rebalance
          → held_total (create_net keccak t net l).locks ≡ held_total l.locks)
unfolding create_net
held_total-create_net keccak t net l =
    let made =
      created_at keccak t net l (net == 0) (created_kind t.origin t.preauthorized_redeploy) in
    (made.0, λ bot. made.1 (bot-created_kind t.origin t.preauthorized_redeploy bot))

settle_transaction-Applies :
    (keccak : List ℕ → ℕ) (t : OrderedTransactionFlow) (post created consumed : ℕ)
    (l l' : IdleLockLedger)
    → passed l.cursor t.block_number t.transaction_index ≡ false
    → created ≡ post - l.exact_idle_assets
    → settle_transaction keccak t created post (consume_net (is_bot t.origin) consumed l)
      ≡ (l', ok tt)
    → Applies t post l l'
unfolding settle_transaction
settle_transaction-Applies keccak t post created consumed l l' order h =
    go (consume_net (is_bot t.origin) consumed l) refl
  where
    go :
        (x : IdleLockLedger × Result IdleLockError (Unit {0}))
        → consume_net (is_bot t.origin) consumed l ≡ x
        → settle_transaction keccak t created post x ≡ (l', ok tt)
        → Applies t post l l'
    go (m, err e) eq k = cc
    go (m, ok _) eq k =
        let one = consume_net-Consumes (is_bot t.origin) consumed l m eq in
        let two = held_total-create_net keccak t created m in
        let (same, under) = verify_lem _ l' k in
        record {
          in_order = order;
          cursor = ap (λ z. z.cursor) same;
          balance = ap (λ z. z.exact_idle_assets) same;
          covered = subst (λ z. held_total z.locks ≤ post) (sym same) under;
          bot_keeps =
              λ bot. ap (λ z. held_total z.locks) same ∙ two.1 bot ∙ one.untouched (ap is_bot bot);
          bounded =
              subst (λ z. held_total z.locks ≤ held_total l.locks + (post - l.exact_idle_assets))
                (sym same) (omega (arith, two.0, one.lowered, h));
        }

net_created :
    (created consumed pre post : ℕ)
    → post + consumed ≡ pre + created
    → (created ≡ 0) ⊎ (consumed ≡ 0)
    → created ≡ post - pre
net_created created consumed pre post h e = ground arith

created_net :
    (t : OrderedTransactionFlow) (pre post : ℕ) (e : TransactionIdleEffect)
    → attribute_idle_effect t pre post ≡ ok e
    → e.net_created_assets ≡ post - pre
created_net t pre post e h =
    let a = attribute_idle_effect-Attributes t pre post e h in
    net_created e.net_created_assets e.net_consumed_assets pre post a.net a.exclusive

-- A transaction that the ledger accepts comes after the ledger's cursor, which moves to it; the
-- balance becomes the given one and covers all that the active locks hold; the locks never grow by
-- more than the balance does; and the bot's own rebalance neither adds to what is locked nor takes
-- from it.
pub apply_transaction-Applies :
    (keccak : List ℕ → ℕ) (t : OrderedTransactionFlow) (post : ℕ) (l l' : IdleLockLedger)
    → apply_transaction keccak t post l ≡ (l', ok tt)
    → Applies t post l l'
unfolding apply_transaction apply_effect
apply_transaction-Applies keccak t post l l' =
    choose (passed l.cursor t.block_number t.transaction_index) refl
  where
    effect_of :
        (r : Result AttributionError TransactionIdleEffect)
        → attribute_idle_effect t l.exact_idle_assets post ≡ r
        → passed l.cursor t.block_number t.transaction_index ≡ false
        → apply_effect keccak t post l r ≡ (l', ok tt)
        → Applies t post l l'
    effect_of (err e) a order h = cc
    effect_of (ok effect) a order h =
        settle_transaction-Applies keccak t post effect.net_created_assets
          effect.net_consumed_assets l l' order (created_net t l.exact_idle_assets post effect a) h

    choose :
        (b : Bool)
        → passed l.cursor t.block_number t.transaction_index ≡ b
        → (if b
            then unverified l non_canonical_order
            else apply_effect keccak t post l (attribute_idle_effect t l.exact_idle_assets post))
          ≡ (l', ok tt)
        → Applies t post l l'
    choose true e h = cc
    choose false e h = effect_of (attribute_idle_effect t l.exact_idle_assets post) refl e h
