-- ===== src/Planner/Objective.antt =====
-- src/planner/objective.rs: the order in which plans are ranked, and the spread of rates.
pub mod Spread
use rbot_v.Prelude.{
  ℕ, ◌+◌, ◌-◌, ◌≤◌, ◌≡◌, refl, sym, ◌∙◌, inl, inr, Bool-cases, Bool, true, false, ◌&&◌, not, leb,
  if◌then◌else◌, differ, Option, none, some, List, [], ◌∷◌, arith, and_then, min, max, is_empty,
  Memᴰ,
}
use rbot_v.Prelude.Int.{ℤ}
use rbot_v.Prelude.Words.{checked_sub}
use rbot_v.Prelude.Order.{
  Key, ascending, descending, descending_ℤ, lex_lt, lex_lt_irrefl, lex_lt_trans, lex_ge_trans,
}
use rbot_v.Domain.{
  PlanReason, liquidity_maintenance, capital_deployment, rate_rebalance, top_k_apy_rebalance,
  position_sync_required, MarketMode, disabled, sync_required, ProjectedMarketState,
}

unfoldable pub strategy_market_mode_included : MarketMode → Bool
strategy_market_mode_included disabled = false
strategy_market_mode_included sync_required = false
strategy_market_mode_included _ = true

pub record ObjectiveMetrics : Type 0 where
  pub final_unreserved_idle : ℕ
  pub deployed_assets : ℕ
  pub applicable_spread : ℕ
  pub secondary_spread : ℕ
  pub terminal_value_delta : ℤ
  pub movement_assets : ℕ
  pub action_count : ℕ

-- The tuples that are compared.
unfoldable pub deployment_key : ObjectiveMetrics → List Key
deployment_key m =
    ascending m.final_unreserved_idle
    ∷ descending m.deployed_assets
    ∷ ascending m.applicable_spread
    ∷ descending_ℤ m.terminal_value_delta
    ∷ ascending m.movement_assets
    ∷ ascending m.action_count
    ∷ []

unfoldable pub reaching_key : ObjectiveMetrics → List Key
reaching_key m =
    ascending m.movement_assets
    ∷ ascending m.applicable_spread
    ∷ ascending m.secondary_spread
    ∷ descending_ℤ m.terminal_value_delta
    ∷ ascending m.action_count
    ∷ []

unfoldable pub spread_key : ObjectiveMetrics → List Key
spread_key m =
    ascending m.applicable_spread
    ∷ ascending m.secondary_spread
    ∷ descending_ℤ m.terminal_value_delta
    ∷ ascending m.action_count
    ∷ ascending m.movement_assets
    ∷ []

unfoldable pub liquidity_key : ObjectiveMetrics → List Key
liquidity_key m =
    ascending m.final_unreserved_idle
    ∷ ascending m.applicable_spread
    ∷ ascending m.movement_assets
    ∷ ascending m.action_count
    ∷ []

-- The branches of a rebalance, by whether each plan reaches the target.
abbrev by_target : Bool → Bool → Bool → Bool → Bool → Bool
by_target target_reachable candidate_reaches current_reaches reaching spread =
    if target_reachable && differ candidate_reaches current_reaches
    then candidate_reaches
    else if target_reachable && candidate_reaches
    then reaching
    else spread

unfoldable pub rebalance_before : ObjectiveMetrics → ObjectiveMetrics → ℕ → Bool → Bool
rebalance_before candidate current target_spread target_reachable =
    by_target target_reachable (leb candidate.applicable_spread target_spread)
      (leb current.applicable_spread target_spread)
      (lex_lt (reaching_key candidate) (reaching_key current))
      (lex_lt (spread_key candidate) (spread_key current))

unfoldable pub ranks_before : PlanReason → ObjectiveMetrics → ObjectiveMetrics → ℕ → Bool → Bool
ranks_before capital_deployment candidate current _ _ =
    lex_lt (deployment_key candidate) (deployment_key current)
ranks_before rate_rebalance candidate current target reachable =
    rebalance_before candidate current target reachable
ranks_before top_k_apy_rebalance candidate current target reachable =
    rebalance_before candidate current target reachable
ranks_before liquidity_maintenance candidate current _ _ =
    lex_lt (liquidity_key candidate) (liquidity_key current)
ranks_before position_sync_required _ _ _ _ = false

by_target_trans :
    (t ra rb rc ab bc ac oab obc oac : Bool)
    → (ab ≡ true → bc ≡ true → ac ≡ true)
    → (oab ≡ true → obc ≡ true → oac ≡ true)
    → by_target t ra rb ab oab ≡ true
    → by_target t rb rc bc obc ≡ true
    → by_target t ra rc ac oac ≡ true
by_target_trans true ra rb rc ab bc ac oab obc oac f g h k = ground arith
by_target_trans false ra rb rc ab bc ac oab obc oac f g h k = g h k

rebalance_before_trans :
    (a b c : ObjectiveMetrics) (target : ℕ) (reachable : Bool)
    → rebalance_before a b target reachable ≡ true
    → rebalance_before b c target reachable ≡ true
    → rebalance_before a c target reachable ≡ true
unfolding rebalance_before
rebalance_before_trans a b c target reachable h k =
    by_target_trans reachable (leb a.applicable_spread target) (leb b.applicable_spread target)
      (leb c.applicable_spread target) (lex_lt (reaching_key a) (reaching_key b))
      (lex_lt (reaching_key b) (reaching_key c)) (lex_lt (reaching_key a) (reaching_key c))
      (lex_lt (spread_key a) (spread_key b)) (lex_lt (spread_key b) (spread_key c))
      (lex_lt (spread_key a) (spread_key c))
      (lex_lt_trans (reaching_key a) (reaching_key b) (reaching_key c))
      (lex_lt_trans (spread_key a) (spread_key b) (spread_key c)) h k

by_target_same : (t r : Bool) → by_target t r r false false ≡ false
by_target_same t r = ground arith

rebalance_before_irrefl :
    (a : ObjectiveMetrics) (target : ℕ) (reachable : Bool)
    → rebalance_before a a target reachable ≡ false
unfolding rebalance_before
rebalance_before_irrefl a target reachable =
    rw (lex_lt_irrefl (reaching_key a), lex_lt_irrefl (spread_key a))
      (by_target_same reachable (leb a.applicable_spread target))

ranks_before_trans :
    (reason : PlanReason) (a b c : ObjectiveMetrics) (target : ℕ) (reachable : Bool)
    → ranks_before reason a b target reachable ≡ true
    → ranks_before reason b c target reachable ≡ true
    → ranks_before reason a c target reachable ≡ true
unfolding ranks_before
ranks_before_trans capital_deployment a b c target reachable h k =
    lex_lt_trans (deployment_key a) (deployment_key b) (deployment_key c) h k
ranks_before_trans liquidity_maintenance a b c target reachable h k =
    lex_lt_trans (liquidity_key a) (liquidity_key b) (liquidity_key c) h k
ranks_before_trans rate_rebalance a b c target reachable h k =
    rebalance_before_trans a b c target reachable h k
ranks_before_trans top_k_apy_rebalance a b c target reachable h k =
    rebalance_before_trans a b c target reachable h k
ranks_before_trans position_sync_required a b c target reachable h k = cc

ranks_before_irrefl :
    (reason : PlanReason) (a : ObjectiveMetrics) (target : ℕ) (reachable : Bool)
    → ranks_before reason a a target reachable ≡ false
unfolding ranks_before
ranks_before_irrefl capital_deployment a target reachable = lex_lt_irrefl (deployment_key a)
ranks_before_irrefl liquidity_maintenance a target reachable = lex_lt_irrefl (liquidity_key a)
ranks_before_irrefl rate_rebalance a target reachable = rebalance_before_irrefl a target reachable
ranks_before_irrefl top_k_apy_rebalance a target reachable =
    rebalance_before_irrefl a target reachable
ranks_before_irrefl position_sync_required a target reachable = refl

contradiction {ℓ} : {b : Bool} {A : Type ℓ} → b ≡ true → b ≡ false → A
contradiction h k = cc

-- To rank strictly ahead is an order for every class of plans and every target: a plan that ranks
-- ahead of one that ranks ahead of a third ranks ahead of the third, which does not rank ahead of
-- it, and no plan ranks ahead of itself.
pub ranks_before_order :
    (reason : PlanReason) (a b c : ObjectiveMetrics) (target : ℕ) (reachable : Bool)
    → ranks_before reason a b target reachable ≡ true
    → ranks_before reason b c target reachable ≡ true
    → (ranks_before reason a c target reachable ≡ true)
      × (ranks_before reason c a target reachable ≡ false)
      × (ranks_before reason a a target reachable ≡ false)
ranks_before_order reason a b c target reachable h k =
    let ahead = ranks_before_trans reason a b c target reachable h k in
    let never = ranks_before_irrefl reason a target reachable in
    (ahead, exclusive ahead never, never)
  where
    exclusive :
        ranks_before reason a c target reachable ≡ true
        → ranks_before reason a a target reachable ≡ false
        → ranks_before reason c a target reachable ≡ false
    exclusive ahead never = elim (Bool-cases (ranks_before reason c a target reachable)) [
      | inl back ↦ contradiction (ranks_before_trans reason a c a target reachable ahead back) never
      | inr behind ↦ behind
    ]
