-- ===== src/Planner/Scheduler/Choice.antt =====
-- The plan that `select_next` of src/planner/scheduler.rs chooses.
use native.Mathlib.Decide.{dec_lt}
use rbot_v.Prelude.{
  ℕ, ◌≤◌, ◌<◌, ◌≡◌, ◌≢◌, ◌↔◌, ◌⊎◌, inl, inr, refl, true, false, Option, none, some, List, [], ◌∷◌,
  arith, retain, retain_mem, retain_kept, Memᴰ,
}
use mathlib.Core.List.Memᴰ
use mathlib.Core.Path.{subst}
use rbot_v.Prelude.Order.{
  Key, ascending, descending, lex_lt, min_by_key, min_by_key-IsLeast, min_by_key-none, least,
}
use rbot_v.Domain.{
  PlanReason, liquidity_maintenance, capital_deployment, rate_rebalance, top_k_apy_rebalance,
  position_sync_required,
}
use rbot_v.Planner.Scheduler.{
  ResourceReservations, SchedulablePlan, conflicts, priority, is_sync, is_eligible, schedule_key,
  select_next,
}
use rbot_v.Planner.Scheduler.Resources.{AreFree, conflicts_iff}

-- A plan may be executed: it is not a request to synchronise, and holds no reserved resource.
abbrev pub IsExecutable : ResourceReservations → SchedulablePlan → Type 0
IsExecutable reserved plan =
    (plan.reason ≢ position_sync_required) × AreFree plan.resources reserved

-- Maintenance of the liquidity comes before deployment of capital, and that before the rest.
abbrev pub urgency : PlanReason → ℕ
urgency liquidity_maintenance = 0
urgency capital_deployment = 1
urgency _ = 2

-- `a` is less than `b`, or they are equal and the rest holds.
abbrev pub Less : ℕ → ℕ → Type 0 → Type 0
Less a b Rest = (a < b) ⊎ ((a ≡ b) × Rest)

-- The first plan does not come after the second.
abbrev pub NotAfter : SchedulablePlan → SchedulablePlan → Type 0
NotAfter a b = Less (urgency a.reason) (urgency b.reason) (
    Less b.service_deficit_assets a.service_deficit_assets (
      Less b.unreserved_idle_assets a.unreserved_idle_assets (
        Less b.spread_above_entry a.spread_above_entry
          (Less a.eligible_since_block b.eligible_since_block (a.vault ≤ b.vault)))))

Less-map : {P Q : Type 0} {a b : ℕ} → Less a b P → (P → Q) → Less a b Q
Less-map (inl less) f = inl less
Less-map (inr (same, p)) f = inr (same, f p)

ascending_step :
    (m n : ℕ) (xs ys : List Key)
    → lex_lt (ascending m ∷ xs) (ascending n ∷ ys) ≡ false
    → Less n m (lex_lt xs ys ≡ false)
ascending_step m n xs ys h = elim (dec_lt n m) [
  | yes less ↦ inl less
  | no other ↦ inr (ground arith, ground arith)
]

descending_step :
    (m n : ℕ) (xs ys : List Key)
    → lex_lt (descending m ∷ xs) (descending n ∷ ys) ≡ false
    → Less m n (lex_lt xs ys ≡ false)
descending_step m n xs ys h = elim (dec_lt m n) [
  | yes less ↦ inl less
  | no other ↦ inr (ground arith, ground arith)
]

vault_step : (m n : ℕ) → lex_lt (ascending m ∷ []) (ascending n ∷ []) ≡ false → n ≤ m
vault_step m n h = ground arith

priority-urgency : (r : PlanReason) → is_sync r ≡ false → priority r ≡ urgency r
unfolding priority
priority-urgency liquidity_maintenance h = refl
priority-urgency capital_deployment h = refl
priority-urgency rate_rebalance h = refl
priority-urgency top_k_apy_rebalance h = refl
priority-urgency position_sync_required h = cc

-- The tails of the tuple of a plan.
abbrev vault_keys : SchedulablePlan → List Key
vault_keys p = ascending p.vault ∷ []

abbrev since_keys : SchedulablePlan → List Key
since_keys p = ascending p.eligible_since_block ∷ vault_keys p

abbrev spread_keys : SchedulablePlan → List Key
spread_keys p = descending p.spread_above_entry ∷ since_keys p

abbrev idle_keys : SchedulablePlan → List Key
idle_keys p = descending p.unreserved_idle_assets ∷ spread_keys p

abbrev deficit_keys : SchedulablePlan → List Key
deficit_keys p = descending p.service_deficit_assets ∷ idle_keys p

schedule_key-NotAfter :
    (plan chosen : SchedulablePlan)
    → is_sync plan.reason ≡ false
    → is_sync chosen.reason ≡ false
    → lex_lt (schedule_key plan) (schedule_key chosen) ≡ false
    → NotAfter chosen plan
unfolding schedule_key
schedule_key-NotAfter plan chosen p c h =
    subst (λ r. Less r (urgency plan.reason) Rest) (priority-urgency chosen.reason c)
      (subst (λ r. Less (priority chosen.reason) r Rest) (priority-urgency plan.reason p)
        (Less-map
          (ascending_step (priority plan.reason) (priority chosen.reason) (deficit_keys plan)
            (deficit_keys chosen) h)
          λ h.
            Less-map
              (descending_step plan.service_deficit_assets chosen.service_deficit_assets
                (idle_keys plan) (idle_keys chosen) h)
              λ h.
                Less-map
                  (descending_step plan.unreserved_idle_assets chosen.unreserved_idle_assets
                    (spread_keys plan) (spread_keys chosen) h)
                  λ h.
                    Less-map
                      (descending_step plan.spread_above_entry chosen.spread_above_entry
                        (since_keys plan) (since_keys chosen) h)
                      λ h.
                        Less-map
                          (ascending_step plan.eligible_since_block chosen.eligible_since_block
                            (vault_keys plan) (vault_keys chosen) h)
                          (λ h. vault_step plan.vault chosen.vault h)))
  where
    Rest : Type 0
    Rest = Less plan.service_deficit_assets chosen.service_deficit_assets (
        Less plan.unreserved_idle_assets chosen.unreserved_idle_assets (
          Less plan.spread_above_entry chosen.spread_above_entry (
            Less chosen.eligible_since_block plan.eligible_since_block
              (chosen.vault ≤ plan.vault))))

is_sync_iff : (r : PlanReason) → (is_sync r ≡ false) ↔ (r ≢ position_sync_required)
is_sync_iff liquidity_maintenance = (λ _ e. cc, λ _. refl)
is_sync_iff capital_deployment = (λ _ e. cc, λ _. refl)
is_sync_iff rate_rebalance = (λ _ e. cc, λ _. refl)
is_sync_iff top_k_apy_rebalance = (λ _ e. cc, λ _. refl)
is_sync_iff position_sync_required = (λ h e. cc, λ h. absurd (h refl))

is_eligible_iff :
    (reserved : ResourceReservations) (plan : SchedulablePlan)
    → (is_eligible reserved plan ≡ true)
      ↔ ((is_sync plan.reason ≡ false) × (conflicts plan.resources reserved ≡ false))
unfolding is_eligible
is_eligible_iff reserved plan = ground arith

eligible-IsExecutable :
    (reserved : ResourceReservations) (plan : SchedulablePlan)
    → is_eligible reserved plan ≡ true
    → IsExecutable reserved plan
eligible-IsExecutable reserved plan h =
    let (own, free) = (is_eligible_iff reserved plan).0 h in
    ((is_sync_iff plan.reason).0 own, (conflicts_iff plan.resources reserved).0 free)

IsExecutable-eligible :
    (reserved : ResourceReservations) (plan : SchedulablePlan)
    → IsExecutable reserved plan
    → is_eligible reserved plan ≡ true
IsExecutable-eligible reserved plan (own, free) =
    (is_eligible_iff reserved plan).1
      ((is_sync_iff plan.reason).1 own, (conflicts_iff plan.resources reserved).1 free)

-- When a plan may be executed, that is, it is no request to synchronise and holds no reserved
-- resource, a plan is selected that may be executed as well and does not come after it: it is more
-- urgent by its class, or as urgent and with the larger deficit of service, or with as large a
-- deficit and the more idle assets, and so on by the larger spread, the earlier block and the
-- smaller vault.
pub select_next-first :
    (plans : List SchedulablePlan) (already_reserved : ResourceReservations)
    (plan : SchedulablePlan)
    → Memᴰ plan plans
    → IsExecutable already_reserved plan
    → (chosen : SchedulablePlan) × (select_next plans already_reserved ≡ some chosen)
      × Memᴰ chosen plans
      × IsExecutable already_reserved chosen
      × NotAfter chosen plan
unfolding select_next
select_next-first plans reserved plan q h =
    go (min_by_key schedule_key eligible) refl (retain_kept (is_eligible reserved) plan plans q own)
  where
    own : is_eligible reserved plan ≡ true
    own = IsExecutable-eligible reserved plan h

    eligible : List SchedulablePlan
    eligible = retain (is_eligible reserved) plans

    go :
        (o : Option SchedulablePlan)
        → min_by_key schedule_key eligible ≡ o
        → Memᴰ plan eligible
        → (chosen : SchedulablePlan) × (min_by_key schedule_key eligible ≡ some chosen)
          × Memᴰ chosen plans
          × IsExecutable reserved chosen
          × NotAfter chosen plan
    go none e r =
        absurd (Memᴰ.not-nil (subst (Memᴰ plan) (min_by_key-none schedule_key eligible e) r))
    go (some chosen) e r = elim (min_by_key-IsLeast schedule_key eligible chosen e) [
      | least at below ↦
          let (q, k) = retain_mem (is_eligible reserved) chosen plans at in
          (
            chosen,
            e,
            q,
            eligible-IsExecutable reserved chosen k,
            schedule_key-NotAfter plan chosen ((is_eligible_iff reserved plan).0 own).0
                ((is_eligible_iff reserved chosen).0 k).0 (below plan r),
          )
    ]
