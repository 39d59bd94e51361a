-- ===== src/Transaction/Pending.antt =====
-- The policy for a pending transaction in src/transaction/pending.rs.
use native.Mathlib.Decide.{dec_lt}
use rbot_v.Prelude.{
  ℕ, ◌+◌, ◌≤◌, ◌<◌, Bool, true, false, ◌&&◌, ◌||◌, not, Option, none, some, Result, ok, err, ◌>>=◌,
  ok_or, ◌≡◌, refl, ◌↔◌, ◌⊎◌, inl, inr, Bool-cases, Result-cases, Option-cases, ltb, leb, arith,
  if◌then◌else◌,
}
use rbot_v.Prelude.Words.{checked_sub, saturating_sub}
use rbot_v.Domain.{
  PlanReason, liquidity_maintenance, capital_deployment, rate_rebalance, top_k_apy_rebalance,
  position_sync_required,
}

pub data CancellationReason : Type 0 where
  material_invalidation pending_horizon_reached direction_reversed : CancellationReason
  service_constraint reward_policy_expired signer_role_lost : CancellationReason
  provider_ambiguity external_idle_lock : CancellationReason

pub record PendingSafetySignals : Type 0 where
  pub material : Bool
  pub reversed : Bool
  pub service_failed : Bool
  pub reward_expired : Bool
  pub role_lost : Bool
  pub ambiguous : Bool
  pub idle_lock_created : Bool

-- The fields of `PendingClock` that the policy reads.
pub record PendingClock : Type 0 where
  pub reason : PlanReason
  pub submitted_at : ℕ
  pub last_attempt_at : ℕ

-- The horizons and delays of `ValidatedExecutionConfig`, in inclusion opportunities.
pub record ExecutionConfig : Type 0 where
  pub maximum_rate_rebalance_pending : ℕ
  pub maximum_capital_deployment_pending : ℕ
  pub maximum_liquidity_maintenance_pending : ℕ
  pub replacement_after : ℕ
  pub cancel_when_remaining : ℕ

pub data PendingDecision : Type 0 where
  wait replace : PendingDecision
  cancel : CancellationReason → PendingDecision

pub data PendingPolicyError : Type 0 where
  identity_error clock_error : PendingPolicyError

unfoldable pub pending_horizon : PlanReason → ExecutionConfig → Result PendingPolicyError ℕ
pending_horizon rate_rebalance config = ok config.maximum_rate_rebalance_pending
pending_horizon top_k_apy_rebalance config = ok config.maximum_rate_rebalance_pending
pending_horizon capital_deployment config = ok config.maximum_capital_deployment_pending
pending_horizon liquidity_maintenance config = ok config.maximum_liquidity_maintenance_pending
pending_horizon position_sync_required _ = err identity_error

abbrev is_liquidity_maintenance : PlanReason → Bool
is_liquidity_maintenance liquidity_maintenance = true
is_liquidity_maintenance _ = false

-- The signals that cancel at once, in the order of their tests.
unfoldable pub cancellation_signal : PlanReason → PendingSafetySignals → Option CancellationReason
cancellation_signal reason signals =
    if signals.role_lost
    then some signer_role_lost
    else if signals.idle_lock_created
    then some external_idle_lock
    else if signals.service_failed && not (is_liquidity_maintenance reason)
    then some service_constraint
    else if signals.reward_expired
    then some reward_policy_expired
    else if signals.reversed
    then some direction_reversed
    else if signals.material
    then some material_invalidation
    else none

-- The decision by the age of the transaction and of its last attempt.
unfoldable pub decide_by_age : ℕ → ℕ → ℕ → ExecutionConfig → PendingDecision
decide_by_age age attempt_age horizon config =
    if ltb 0 age
      && (leb horizon age || leb (saturating_sub horizon age) config.cancel_when_remaining)
    then cancel pending_horizon_reached
    else if leb config.replacement_after attempt_age
    then replace
    else wait

unfoldable pub decide :
    ℕ
    → ℕ
    → PlanReason
    → ExecutionConfig
    → Option CancellationReason
    → Result PendingPolicyError PendingDecision
decide age attempt_age reason config (some cause) = ok (cancel cause)
decide age attempt_age reason config none = do
  horizon ← pending_horizon reason config
  ok (decide_by_age age attempt_age horizon config)

unfoldable pub assess_pending :
    PendingClock
    → ℕ
    → PendingSafetySignals
    → ExecutionConfig
    → Result PendingPolicyError PendingDecision
assess_pending clock current signals config = do
  age ← ok_or (checked_sub current clock.submitted_at) clock_error
  attempt_age ← ok_or (checked_sub current clock.last_attempt_at) clock_error
  if signals.ambiguous
      then ok wait
      else decide age attempt_age clock.reason config (cancellation_signal clock.reason signals)

-- No signal cancels at once.
abbrev pub IsQuiet : PlanReason → PendingSafetySignals → Type 0
IsQuiet reason signals =
    (signals.role_lost ≡ false)
    × (signals.idle_lock_created ≡ false)
    × (signals.reward_expired ≡ false)
    × (signals.reversed ≡ false)
    × (signals.material ≡ false)
    × ((signals.service_failed ≡ false) ⊎ (reason ≡ liquidity_maintenance))

is_liquidity_maintenance-eq :
    (reason : PlanReason) → is_liquidity_maintenance reason ≡ true → reason ≡ liquidity_maintenance
is_liquidity_maintenance-eq liquidity_maintenance h = refl
is_liquidity_maintenance-eq capital_deployment h = cc
is_liquidity_maintenance-eq rate_rebalance h = cc
is_liquidity_maintenance-eq top_k_apy_rebalance h = cc
is_liquidity_maintenance-eq position_sync_required h = cc

cancellation_signal-none :
    (reason : PlanReason) (signals : PendingSafetySignals)
    → (cancellation_signal reason signals ≡ none) ↔ IsQuiet reason signals
unfolding cancellation_signal
cancellation_signal-none reason signals = (
  λ h. (
    ground arith,
    ground arith,
    ground arith,
    ground arith,
    ground arith,
    elim (Bool-cases signals.service_failed) [
      | inl failed ↦ inr (is_liquidity_maintenance-eq reason (ground arith))
      | inr works ↦ inl works
    ],
  ),
  λ (role, lock, reward, reversed, material, service). elim service [
    | inl works ↦ ground arith
    | inr maintains ↦ rw maintains (ground arith)
  ],
)

-- When the age of a transaction and of its last attempt lead to a replacement.
abbrev pub IsTimely : PendingClock → ℕ → ExecutionConfig → ℕ → Type 0
IsTimely clock current config horizon =
    (clock.submitted_at ≡ current)
    ⊎ (current + config.cancel_when_remaining < clock.submitted_at + horizon)

module _ (clock : PendingClock) (current : ℕ) (signals : PendingSafetySignals)
    (config : ExecutionConfig) where
  -- A provider in disagreement signs nothing: with a clock that has not run backwards the decision is
  -- to wait, whatever the other signals and the age say.
  assess_pending-ambiguous :
      clock.submitted_at ≤ current
      → clock.last_attempt_at ≤ current
      → signals.ambiguous ≡ true
      → assess_pending clock current signals config ≡ ok wait
  unfolding assess_pending
  assess_pending-ambiguous h k ambiguous = ground arith

  -- A replacement is signed exactly when the clock has not run backwards, the provider is not in
  -- disagreement, the signer keeps its role, no lock of idle assets was created, no reward expired,
  -- the direction is not reversed, nothing material changed, the service has not failed unless the
  -- plan itself maintains the liquidity, the last attempt is old enough, the plan is of a kind that
  -- has a horizon, and, unless the transaction was submitted at the current opportunity, what is left
  -- of that horizon is more than the margin of cancellation.
  pub assess_pending-replace : (assess_pending clock current signals config ≡ ok replace) ↔ (
      (clock.submitted_at ≤ current)
      × (config.replacement_after + clock.last_attempt_at ≤ current)
      × (clock.last_attempt_at ≤ current)
      × (signals.ambiguous ≡ false)
      × IsQuiet clock.reason signals
      × ((horizon : ℕ) × (pending_horizon clock.reason config ≡ ok horizon)
          × IsTimely clock current config horizon))
  unfolding assess_pending decide decide_by_age
  assess_pending-replace = (
    λ h. elim (Result-cases (pending_horizon clock.reason config)) [
      | inl (horizon, is_due) ↦ (
        ground arith,
        ground arith,
        ground arith,
        ground arith,
        (cancellation_signal-none clock.reason signals).0 (ground arith),
        (
          horizon,
          is_due,
          elim (dec_lt clock.submitted_at current) [
            | yes later ↦ inr (ground arith)
            | no now ↦ inl (ground arith)
          ],
        ),
      )
      | inr (e, failed) ↦ absurd (ground arith)
    ],
    λ (started, old, attempted, agreed, quiet, (horizon, is_due, timely)).
        let silent = (cancellation_signal-none clock.reason signals).1 quiet in
        elim timely [ inl now ↦ ground arith | inr far ↦ ground arith ],
  )

  -- A transaction past its horizon is cancelled, whatever the signals say, unless the provider is in
  -- disagreement.
  pub assess_pending-expired :
      (horizon : ℕ)
      → pending_horizon clock.reason config ≡ ok horizon
      → clock.submitted_at < current
      → clock.last_attempt_at ≤ current
      → clock.submitted_at + horizon ≤ current
      → signals.ambiguous ≡ false
      → (reason : CancellationReason) × (assess_pending clock current signals config
          ≡ ok (cancel reason))
  unfolding assess_pending decide decide_by_age
  assess_pending-expired horizon h after attempt over sure =
      elim (Option-cases (cancellation_signal clock.reason signals)) [
        | inl quiet ↦ (pending_horizon_reached, ground arith)
        | inr (cause, loud) ↦ (cause, ground arith)
      ]
