-- ===== src/Planner/Scheduler.antt =====
-- src/planner/scheduler.rs: the plans that share no reserved resource, and the first of them.
pub mod Resources
pub mod Choice
use rbot_v.Prelude.{
  ℕ, ◌≡◌, refl, Bool, true, false, ◌&&◌, ◌||◌, not, Option, none, some, List, [], ◌∷◌, arith,
  retain, retain_mem, retain_kept, is_disjoint, is_disjoint_by, is_disjoint_by_comm, Memᴰ, ◌==◌,
}
use mathlib.Core.List.Memᴰ
use mathlib.Core.Path.{subst}
use rbot_v.Prelude.Order.{
  Key, ascending, descending, lex_lt, min_by_key, min_by_key-IsLeast, min_by_key-none, least,
}
use rbot_v.Domain.{
  PlanReason, liquidity_maintenance, capital_deployment, rate_rebalance, top_k_apy_rebalance,
  position_sync_required, CapRef,
}

pub record ResourceReservations : Type 0 where
  pub vaults : List ℕ
  pub signer_lanes : List ℕ
  pub markets : List ℕ
  pub loan_tokens : List ℕ
  pub caps : List CapRef
  pub idle_lock_vaults : List ℕ

abbrev pub same_cap : CapRef → CapRef → Bool
same_cap a b = a.vault == b.vault && a.id == b.id

unfoldable pub conflicts : ResourceReservations → ResourceReservations → Bool
conflicts a b =
    not (is_disjoint a.vaults b.vaults)
    || not (is_disjoint a.signer_lanes b.signer_lanes)
    || not (is_disjoint a.markets b.markets)
    || not (is_disjoint a.loan_tokens b.loan_tokens)
    || not (is_disjoint_by same_cap a.caps b.caps)
    || not (is_disjoint a.idle_lock_vaults b.idle_lock_vaults)

pub record SchedulablePlan : Type 0 where
  pub reason : PlanReason
  pub vault : ℕ
  pub service_deficit_assets : ℕ
  pub unreserved_idle_assets : ℕ
  pub spread_above_entry : ℕ
  pub eligible_since_block : ℕ
  pub resources : ResourceReservations

unfoldable pub priority : PlanReason → ℕ
priority liquidity_maintenance = 0
priority capital_deployment = 1
priority rate_rebalance = 2
priority top_k_apy_rebalance = 2
priority position_sync_required = 3

abbrev pub is_sync : PlanReason → Bool
is_sync position_sync_required = true
is_sync _ = false

-- The filter of `select_next`.
unfoldable pub is_eligible : ResourceReservations → SchedulablePlan → Bool
is_eligible already_reserved plan =
    not (is_sync plan.reason) && not (conflicts plan.resources already_reserved)

-- The tuple that `select_next` minimises.
unfoldable pub schedule_key : SchedulablePlan → List Key
schedule_key plan =
    ascending (priority plan.reason)
    ∷ descending plan.service_deficit_assets
    ∷ descending plan.unreserved_idle_assets
    ∷ descending plan.spread_above_entry
    ∷ ascending plan.eligible_since_block
    ∷ ascending plan.vault
    ∷ []

unfoldable pub select_next : List SchedulablePlan → ResourceReservations → Option SchedulablePlan
select_next plans already_reserved =
    min_by_key schedule_key (retain (is_eligible already_reserved) plans)

==_comm : (a b : ℕ) → (a == b) ≡ (b == a)
==_comm a b = ground arith

same_cap_comm : (a b : CapRef) → same_cap a b ≡ same_cap b a
same_cap_comm a b = ground arith

-- Which of two plans is asked makes no difference to whether they share a resource.
pub conflicts_comm : (a b : ResourceReservations) → conflicts a b ≡ conflicts b a
unfolding conflicts
conflicts_comm a b =
    rw
      (
        disjoint a.vaults b.vaults,
        disjoint a.signer_lanes b.signer_lanes,
        disjoint a.markets b.markets,
        disjoint a.loan_tokens b.loan_tokens,
        is_disjoint_by_comm same_cap same_cap_comm a.caps b.caps,
        disjoint a.idle_lock_vaults b.idle_lock_vaults,
      )
      refl
  where
    disjoint : (xs ys : List ℕ) → is_disjoint xs ys ≡ is_disjoint ys xs
    disjoint = is_disjoint_by_comm (λ a b. a == b) ==_comm
