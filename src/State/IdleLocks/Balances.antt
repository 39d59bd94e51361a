-- ===== src/State/IdleLocks/Balances.antt =====
-- What the calls that create and consume locks leave of the ledger of src/state/idle_locks.rs.
use rbot_v.Prelude.{
  ℕ, ◌+◌, ◌-◌, ◌≤◌, Bool, true, false, ◌&&◌, not, List, [], ◌∷◌, ◌++◌, Result, ok, err, ◌≡◌, refl,
  sym, ap, ◌∙◌, Bool-cases, Ensures, returns, fails, ensured, step, fail_if, ok_or, leb, inl, inr,
  ◌==◌, arith, if◌then◌else◌,
}
use rbot_v.Prelude.Words.{checked_sub}
use rbot_v.State.Attribution.{OrderedTransactionFlow}
use rbot_v.State.IdleLocks.{
  IdleLock, IdleLockKind, IdleLockLedger, IdleLockError, lock_invariant, total_from, total_locked,
  routine_available_idle, create_lock, unverified, consume_net, consume_locked, store_consumed,
  verify, verify_total,
}
use rbot_v.State.IdleLocks.Kinds.{held_total}
use rbot_v.State.IdleLocks.Consumption.{Drains, consume_all-Drains}

total_from_lem :
    (t : ℕ) (locks : List IdleLock) (r : ℕ) → total_from t locks ≡ ok r → r ≡ t + held_total locks
unfolding total_from held_total
total_from_lem t [] r h = ground arith
total_from_lem t (lock ∷ locks) r h =
    ground (arith, total_from_lem (t + lock.remaining_assets) locks r, total_from_lem t locks r)

routine_available_idle_lem :
    (l : IdleLockLedger) (r : ℕ)
    → routine_available_idle l ≡ ok r
    → r + held_total l.locks ≡ l.exact_idle_assets
unfolding routine_available_idle total_locked
routine_available_idle_lem l r =
    ensured (λ r. r + held_total l.locks ≡ l.exact_idle_assets)
      (step _ (fail_if (not l.verified) lock_invariant) λ _ _.
        step _ (total_from 0 l.locks)
          λ locked summed. branch_sub locked (total_from_lem 0 l.locks locked summed))
  where
    branch_sub :
        (locked : ℕ)
        → locked ≡ 0 + held_total l.locks
        → Ensures
            (λ r. r + held_total l.locks ≡ l.exact_idle_assets)
            (ok_or (checked_sub l.exact_idle_assets locked) lock_invariant)
    branch_sub locked h = elim (Bool-cases (leb locked l.exact_idle_assets)) [
      | inl under ↦ rw under (returns (ground arith))
      | inr over ↦ rw over fails
    ]

held_total-append : (xs ys : List IdleLock) → held_total (xs ++ ys) ≡ held_total xs + held_total ys
unfolding held_total
held_total-append [] ys = omega arith
held_total-append (x ∷ xs) ys = ground (arith, held_total-append xs ys)

pub held_total-create_lock :
    (keccak : List ℕ → ℕ) (k : IdleLockKind) (t : OrderedTransactionFlow) (a : ℕ)
    (l : IdleLockLedger)
    → held_total (create_lock keccak k t a l).locks ≡ held_total l.locks + a
unfolding create_lock held_total
held_total-create_lock keccak k t a l = rw (held_total-append) (omega arith)

-- What a consumption that succeeds leaves of the ledger.
pub record Consumes (bot : Bool) (net : ℕ) (l l' : IdleLockLedger) : Type 0 where
  pub cursor : l'.cursor ≡ l.cursor
  pub lowered :
      held_total l'.locks ≡ held_total l.locks - (net - (l.exact_idle_assets - held_total l.locks))
  pub untouched : bot ≡ true → held_total l'.locks ≡ held_total l.locks

store_consumed-Consumes :
    (bot : Bool) (net unlocked : ℕ) (l l' : IdleLockLedger) (d : Drains (net - unlocked) l.locks)
    → unlocked + held_total l.locks ≡ l.exact_idle_assets
    → (bot && not (net - unlocked == 0)) ≡ false
    → store_consumed l (ok (d.after, net - unlocked - held_total l.locks)) ≡ (l', ok tt)
    → Consumes bot net l l'
unfolding store_consumed
store_consumed-Consumes bot net unlocked l l' d sum free h = ground (arith, d.lowered)

consume_locked-Consumes :
    (bot : Bool) (net : ℕ) (l l' : IdleLockLedger) (r : Result IdleLockError ℕ)
    → routine_available_idle l ≡ r
    → consume_locked bot net l r ≡ (l', ok tt)
    → Consumes bot net l l'
unfolding consume_locked
consume_locked-Consumes bot net l l' (err e) a h = cc
consume_locked-Consumes bot net l l' (ok unlocked) a h =
    choose (bot && not (net - unlocked == 0)) refl (
      sym (
        ap
          (λ o.
            if bot && not (net - unlocked == 0)
            then unverified l lock_invariant
            else store_consumed l o)
          d.returns_them)
      ∙ h)
  where
    d : Drains (net - unlocked) l.locks
    d = consume_all-Drains (net - unlocked) l.locks

    choose :
        (b : Bool)
        → (bot && not (net - unlocked == 0)) ≡ b
        → (if b
            then unverified l lock_invariant
            else store_consumed l (ok (d.after, net - unlocked - held_total l.locks)))
          ≡ (l', ok tt)
        → Consumes bot net l l'
    choose true e h = cc
    choose false e h =
        store_consumed-Consumes bot net unlocked l l' d (routine_available_idle_lem l unlocked a) e
          h

pub consume_net-Consumes :
    (bot : Bool) (net : ℕ) (l l' : IdleLockLedger)
    → consume_net bot net l ≡ (l', ok tt)
    → Consumes bot net l l'
unfolding consume_net
consume_net-Consumes bot net l l' = choose (net == 0) refl
  where
    choose :
        (b : Bool)
        → (net == 0) ≡ b
        → (if b then (l, ok tt) else consume_locked bot net l (routine_available_idle l))
          ≡ (l', ok tt)
        → Consumes bot net l l'
    choose true e h = ground arith
    choose false e h = consume_locked-Consumes bot net l l' (routine_available_idle l) refl h

pub verify_lem :
    (l l' : IdleLockLedger)
    → verify l ≡ (l', ok tt)
    → (l' ≡ l) × (held_total l.locks ≤ l.exact_idle_assets)
unfolding verify verify_total total_locked
verify_lem l l' = go (total_from 0 l.locks) (total_from_lem 0 l.locks)
  where
    go :
        (r : Result IdleLockError ℕ)
        → ((n : ℕ) → r ≡ ok n → n ≡ 0 + held_total l.locks)
        → verify_total l r ≡ (l', ok tt)
        → (l' ≡ l) × (held_total l.locks ≤ l.exact_idle_assets)
    go (err e) k h = cc
    go (ok n) k h = ground (arith, k n refl)
