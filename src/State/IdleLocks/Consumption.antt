-- ===== src/State/IdleLocks/Consumption.antt =====
-- What the consumption loops of src/state/idle_locks.rs take from the locks.
use rbot_v.Prelude.{ℕ, ◌-◌, List, [], ◌∷◌, ok, ◌≡◌, ◌≢◌, ap, min, refl, ◌∙◌, ◌==◌, arith}
use rbot_v.State.IdleLocks.{
  IdleLockKind, force_exit, external_emergency_deallocation, operator_emergency,
  unattributed_safety_hold, stable_code, IdleLock, selects, consume_all,
}
use rbot_v.State.IdleLocks.Kinds.{
  held, held_total, held_total-held, drain, consume_kind_lem, held-drain, held-drain_choice,
}

pub held-drain_other :
    (other kind : IdleLockKind) (r : ℕ) (locks : List IdleLock)
    → stable_code other ≢ stable_code kind
    → held other (drain kind r locks) ≡ held other locks
unfolding drain
held-drain_other other kind r [] h = refl
held-drain_other other kind r (lock ∷ locks) h =
    held-drain_choice other kind (selects kind lock) (r - min lock.remaining_assets r == 0) _ lock
      locks (drain kind (r - min lock.remaining_assets r) locks) (drain kind r locks) h refl
      (held-drain_other other kind (r - min lock.remaining_assets r) locks h)
      (held-drain_other other kind r locks h)

-- What the consumption of an amount from all kinds returns.
pub record Drains (amount : ℕ) (locks : List IdleLock) : Type 0 where
  pub after : List IdleLock
  pub returns_them : consume_all amount locks ≡ ok (after, amount - held_total locks)
  pub lowered : held_total after ≡ held_total locks - amount

module _ (amount : ℕ) (locks : List IdleLock) where
  first : List IdleLock
  first = drain force_exit amount locks

  second : List IdleLock
  second = drain external_emergency_deallocation (amount - held force_exit locks) first

  third : List IdleLock
  third =
      drain operator_emergency
        (amount - held force_exit locks - held external_emergency_deallocation first) second

  fourth : List IdleLock
  fourth =
      drain unattributed_safety_hold
        (amount
          - held force_exit locks
          - held external_emergency_deallocation first
          - held operator_emergency second)
        third

  returned :
      consume_all amount locks
      ≡ ok (
        fourth,
        amount
            - held force_exit locks
            - held external_emergency_deallocation first
            - held operator_emergency second
            - held unattributed_safety_hold third,
      )
  unfolding consume_all first second third fourth
  returned =
      rw
        (
          consume_kind_lem force_exit amount locks,
          consume_kind_lem external_emergency_deallocation (amount - held force_exit locks) first,
          consume_kind_lem operator_emergency
              (amount - held force_exit locks - held external_emergency_deallocation first) second,
        )
        (consume_kind_lem unattributed_safety_hold _ third)

  first-held :
      (held force_exit first ≡ held force_exit locks - amount)
      × (held external_emergency_deallocation first ≡ held external_emergency_deallocation locks)
      × (held operator_emergency first ≡ held operator_emergency locks)
      × (held unattributed_safety_hold first ≡ held unattributed_safety_hold locks)
  unfolding first
  first-held = (
    held-drain force_exit amount locks,
    held-drain_other external_emergency_deallocation force_exit amount locks (ground arith),
    held-drain_other operator_emergency force_exit amount locks (ground arith),
    held-drain_other unattributed_safety_hold force_exit amount locks (ground arith),
  )

  second-held :
      (held force_exit second ≡ held force_exit first)
      × (held external_emergency_deallocation second
          ≡ held external_emergency_deallocation first - (amount - held force_exit locks))
      × (held operator_emergency second ≡ held operator_emergency first)
      × (held unattributed_safety_hold second ≡ held unattributed_safety_hold first)
  unfolding second
  second-held = (
    held-drain_other force_exit external_emergency_deallocation (amount - held force_exit locks)
        first (ground arith),
    held-drain external_emergency_deallocation (amount - held force_exit locks) first,
    held-drain_other operator_emergency external_emergency_deallocation
        (amount - held force_exit locks) first (ground arith),
    held-drain_other unattributed_safety_hold external_emergency_deallocation
        (amount - held force_exit locks) first (ground arith),
  )

  third-held :
      (held force_exit third ≡ held force_exit second)
      × (held external_emergency_deallocation third ≡ held external_emergency_deallocation second)
      × (held operator_emergency third
          ≡ held operator_emergency second
            - (amount - held force_exit locks - held external_emergency_deallocation first))
      × (held unattributed_safety_hold third ≡ held unattributed_safety_hold second)
  unfolding third
  third-held = (
    held-drain_other force_exit operator_emergency
        (amount - held force_exit locks - held external_emergency_deallocation first) second
        (ground arith),
    held-drain_other external_emergency_deallocation operator_emergency
        (amount - held force_exit locks - held external_emergency_deallocation first) second
        (ground arith),
    held-drain operator_emergency
        (amount - held force_exit locks - held external_emergency_deallocation first) second,
    held-drain_other unattributed_safety_hold operator_emergency
        (amount - held force_exit locks - held external_emergency_deallocation first) second
        (ground arith),
  )

  fourth-held :
      (held force_exit fourth ≡ held force_exit third)
      × (held external_emergency_deallocation fourth ≡ held external_emergency_deallocation third)
      × (held operator_emergency fourth ≡ held operator_emergency third)
      × (held unattributed_safety_hold fourth
          ≡ held unattributed_safety_hold third
            - (amount
                - held force_exit locks
                - held external_emergency_deallocation first
                - held operator_emergency second))
  unfolding fourth
  fourth-held = (
    held-drain_other force_exit unattributed_safety_hold
        (amount
          - held force_exit locks
          - held external_emergency_deallocation first
          - held operator_emergency second)
        third (ground arith),
    held-drain_other external_emergency_deallocation unattributed_safety_hold
        (amount
          - held force_exit locks
          - held external_emergency_deallocation first
          - held operator_emergency second)
        third (ground arith),
    held-drain_other operator_emergency unattributed_safety_hold
        (amount
          - held force_exit locks
          - held external_emergency_deallocation first
          - held operator_emergency second)
        third (ground arith),
    held-drain unattributed_safety_hold
        (amount
          - held force_exit locks
          - held external_emergency_deallocation first
          - held operator_emergency second)
        third,
  )

  fourth-held_total : held_total fourth ≡ held_total locks - amount
  fourth-held_total = omega (
    arith,
    first-held,
    second-held,
    third-held,
    fourth-held,
    held_total-held locks,
    held_total-held fourth,
  )

  left_over :
      amount
        - held force_exit locks
        - held external_emergency_deallocation first
        - held operator_emergency second
        - held unattributed_safety_hold third
      ≡ amount - held_total locks
  left_over = omega (arith, first-held, second-held, third-held, held_total-held locks)

  -- Consuming an amount from all kinds always returns: it takes the amount, or all that the active
  -- locks hold, and what it takes is exactly what the locks lose.
  pub consume_all-Drains : Drains amount locks
  consume_all-Drains = record {
    after = fourth;
    returns_them = returned ∙ ap (λ left. ok (fourth, left)) left_over;
    lowered = fourth-held_total;
  }
