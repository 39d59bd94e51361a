-- ===== src/Transaction/Firewall/Plans.antt =====
-- What a plan that src/transaction/firewall.rs has validated keeps to.
use rbot_v.Prelude.{
  ℕ, ◌≤◌, ◌<◌, ◌≡◌, ◌⊎◌, refl, sym, ap, ◌∙◌, false, ◌||◌, not, Option, Result, ok, ◌>>=◌, ◌>>◌,
  fail_if, >>=-eq-ok, ok_injective, ltb, ◌==◌, max, List, [], ◌∷◌, length, is_empty, any, All,
  arith,
}
use rbot_v.Prelude.Checked.{fail_if_ok}
use rbot_v.Domain.{
  PlanReason, liquidity_maintenance, capital_deployment, rate_rebalance, top_k_apy_rebalance,
  position_sync_required,
}
use rbot_v.Transaction.Plan.{Bytes, V2Action, fields, V2Plan, VaultConfig, Config, Abi}
use rbot_v.Transaction.Firewall.{
  FirewallError, action, plan_hash, solver, ValidatedPlan, Progress, no_progress, check_actions,
  leaves_position, breaks_reason, breaks_certificate, validate_actions, canonical_plan_id,
  canonical_plan_hash, validate_plan_integrity, find_vault, validate_plan,
}
use rbot_v.Transaction.Firewall.Actions.{
  total_allocated, total_deallocated, IsPhased, IsFresh, IsPermitted, Passes, check_actions-Passes,
}

-- What each class of plans does with the assets of its vault.
abbrev pub KeepsReason : V2Plan → VaultConfig → PlanReason → Type 0
KeepsReason plan vault capital_deployment =
    (0 < total_allocated plan.actions)
    × (total_deallocated plan.actions ≤ total_allocated plan.actions)
    × (any (leaves_position vault.liquidity_adapter) plan.actions ≡ false)
KeepsReason plan vault liquidity_maintenance =
    (0 < total_allocated plan.actions)
    × ((total_deallocated plan.actions ≡ 0)
        ⊎ (total_deallocated plan.actions ≡ total_allocated plan.actions))
KeepsReason plan vault position_sync_required = ⊥
KeepsReason plan vault _ =
    (0 < total_allocated plan.actions)
    × (total_deallocated plan.actions ≡ total_allocated plan.actions)
    × (plan.projection.after_spread < plan.projection.before_spread)

module _ (abi : Abi) (vault : VaultConfig) (maximum_actions : ℕ) where
  -- The actions of a plan are permitted by its vault and keep to the reason of the plan.
  pub record IsSafe (plan : V2Plan) : Type 0 where
    pub counted : (0 < length plan.actions) × (length plan.actions ≤ maximum_actions)
    pub permitted :
        All (λ s. (0 < (fields s).requested_assets) × IsPermitted abi vault s) plan.actions
    pub phased : IsPhased false plan.actions
    pub fresh : IsFresh [] plan.actions
    pub moved :
        max (total_allocated plan.actions) (total_deallocated plan.actions)
        ≡ plan.projection.movement_assets
    pub lost : plan.projection.immediate_loss_assets ≤ vault.maximum_immediate_rebalance_loss_assets
    pub reasoned : KeepsReason plan vault plan.reason

  reason_kept :
      (plan : V2Plan) (reason : PlanReason)
      → breaks_reason plan vault
          (total_deallocated plan.actions)
          (total_allocated plan.actions)
          reason
        ≡ false
      → KeepsReason plan vault reason
  unfolding breaks_reason
  reason_kept plan capital_deployment h = (ground arith, ground arith, ground arith)
  reason_kept plan liquidity_maintenance h = (ground arith, grind arith)
  reason_kept plan position_sync_required h = cc
  reason_kept plan rate_rebalance h = (ground arith, ground arith, ground arith)
  reason_kept plan top_k_apy_rebalance h = (ground arith, ground arith, ground arith)

  counted_actions :
      (steps : List V2Action)
      → (is_empty steps || ltb maximum_actions (length steps)) ≡ false
      → (0 < length steps) × (length steps ≤ maximum_actions)
  counted_actions [] h = cc
  counted_actions (s ∷ steps) h = (omega arith, ground arith)

  validate_actions-IsSafe :
      (plan : V2Plan) (u : Unit {0})
      → validate_actions abi plan vault maximum_actions ≡ ok u
      → IsSafe plan
  unfolding validate_actions
  validate_actions-IsSafe plan u h =
      let size = is_empty plan.actions || ltb maximum_actions (length plan.actions) in
      let outside = λ (t : Progress).
        (not (max t.allocated t.deallocated == plan.projection.movement_assets)
          || ltb vault.maximum_immediate_rebalance_loss_assets
              plan.projection.immediate_loss_assets) in
      let breaks =
        λ (t : Progress). breaks_reason plan vault t.deallocated t.allocated plan.reason in
      let (v, counted, h1) =
        >>=-eq-ok (fail_if size action)
          (λ _. check_actions abi vault no_progress plan.actions >>= λ t.
            fail_if (outside t) action >> fail_if (breaks t) action)
          h in
      let (t, checked, h2) =
        >>=-eq-ok (check_actions abi vault no_progress plan.actions)
          (λ t. fail_if (outside t) action >> fail_if (breaks t) action) h1 in
      let (w, inside, reasoned) =
        >>=-eq-ok (fail_if (outside t) action) (λ _. fail_if (breaks t) action) h2 in
      settled t (check_actions-Passes abi vault no_progress t plan.actions checked)
        (counted_actions plan.actions (fail_if_ok action size v counted))
        (fail_if_ok action (outside t) w inside) (fail_if_ok action (breaks t) u reasoned)
    where
      settled :
          (t : Progress)
          → Passes abi vault no_progress plan.actions t
          → (0 < length plan.actions) × (length plan.actions ≤ maximum_actions)
          → (not (max t.allocated t.deallocated == plan.projection.movement_assets)
              || ltb vault.maximum_immediate_rebalance_loss_assets
                  plan.projection.immediate_loss_assets)
            ≡ false
          → breaks_reason plan vault t.deallocated t.allocated plan.reason ≡ false
          → IsSafe plan
      settled t p counted inside reasoned =
          let total_in : total_allocated plan.actions ≡ t.allocated =
            omega (arith, p.allocated_of) in
          let total_out : total_deallocated plan.actions ≡ t.deallocated =
            omega (arith, p.deallocated_of) in
          record {
            counted = counted;
            permitted = p.permitted;
            phased = p.phased;
            fresh = p.fresh;
            moved = rw (total_in, total_out) (ground arith);
            lost = ground arith;
            reasoned = reason_kept plan plan.reason (rw (total_in, total_out) reasoned);
          }

module _ (abi : Abi) (keccak : Bytes → ℕ) (to_vec : V2Plan → Option Bytes) where
  integrity-IsSafe :
      (plan : V2Plan) (vault : VaultConfig) (maximum_actions : ℕ) (validated : ValidatedPlan)
      → validate_plan_integrity abi keccak to_vec plan vault maximum_actions ≡ ok validated
      → (validated ≡ record { plan = plan })
        × (canonical_plan_hash abi keccak to_vec plan ≡ ok plan.plan_hash)
        × IsSafe abi vault maximum_actions plan
  unfolding validate_plan_integrity
  integrity-IsSafe plan vault maximum_actions validated h =
      let stale = not (plan.topology_revision == plan.snapshot.dynamic_topology_revision) in
      let unsolved =
        not plan.solver_certificate.search_complete_for_lattice
        || ltb plan.solver_certificate.node_limit plan.solver_certificate.nodes_evaluated
        || breaks_certificate plan.episode_id plan.solver_certificate plan.reason in
      let made : Result FirewallError ValidatedPlan =
        validate_actions abi plan vault maximum_actions >> ok (record { plan = plan }) in
      let hashed = λ (hash : ℕ).
        (fail_if (not (plan.plan_hash == hash)) plan_hash >> (fail_if unsolved solver >> made)) in
      let identified = λ (id : ℕ).
        (fail_if (not (plan.plan_id == id)) plan_hash
          >> (canonical_plan_hash abi keccak to_vec plan >>= hashed)) in
      let (_, _, h1) =
        >>=-eq-ok (fail_if stale plan_hash)
          (λ _. canonical_plan_id abi keccak to_vec plan >>= identified) h in
      let (id, _, h2) = >>=-eq-ok (canonical_plan_id abi keccak to_vec plan) identified h1 in
      let (_, _, h3) =
        >>=-eq-ok (fail_if (not (plan.plan_id == id)) plan_hash)
          (λ _. canonical_plan_hash abi keccak to_vec plan >>= hashed) h2 in
      let (hash, known, h4) = >>=-eq-ok (canonical_plan_hash abi keccak to_vec plan) hashed h3 in
      let (u, same, h5) =
        >>=-eq-ok (fail_if (not (plan.plan_hash == hash)) plan_hash)
          (λ _. fail_if unsolved solver >> made) h4 in
      let (_, _, h6) = >>=-eq-ok (fail_if unsolved solver) (λ _. made) h5 in
      let (w, safe, done) =
        >>=-eq-ok (validate_actions abi plan vault maximum_actions)
          (λ _. ok (record { plan = plan })) h6 in
      (
        ok_injective (ok validated) refl (sym done),
        known ∙ ap ok (hash_kept (fail_if_ok plan_hash (not (plan.plan_hash == hash)) u same)),
        validate_actions-IsSafe abi vault maximum_actions plan w safe,
      )
    where
      hash_kept : {hash : ℕ} → not (plan.plan_hash == hash) ≡ false → hash ≡ plan.plan_hash
      hash_kept h = ground arith

  -- A plan that is validated is for the current configuration and for a configured vault, its hash
  -- is the canonical one, and its actions are safe: their number is within the limit, none is
  -- empty, each is permitted by the configuration of the vault, deallocations come first, no
  -- position is touched twice, the movement and the loss are those projected and allowed, and the
  -- assets are moved as the reason of the plan says, so that a rebalance takes out exactly what it
  -- puts in.
  pub validate_plan-IsSafe :
      (plan : V2Plan) (config : Config) (validated : ValidatedPlan)
      → validate_plan abi keccak to_vec plan config ≡ ok validated
      → (validated ≡ record { plan = plan })
        × (plan.config_revision ≡ config.revision)
        × (plan.snapshot.chain_id ≡ config.chain_id)
        × (canonical_plan_hash abi keccak to_vec plan ≡ ok plan.plan_hash)
        × (vault : VaultConfig) × (find_vault config plan.vault ≡ ok vault)
        × IsSafe abi vault config.maximum_actions plan
  unfolding validate_plan
  validate_plan-IsSafe plan config validated h =
      let foreign =
        not (plan.config_revision == config.revision)
        || not (plan.snapshot.static_config_revision == config.revision)
        || not (plan.snapshot.chain_id == config.chain_id) in
      let checked = λ (vault : VaultConfig).
        validate_plan_integrity abi keccak to_vec plan vault config.maximum_actions in
      let (vault, found, h1) =
        >>=-eq-ok (find_vault config plan.vault)
          (λ vault. fail_if foreign plan_hash >> checked vault) h in
      let (u, own, h2) = >>=-eq-ok (fail_if foreign plan_hash) (λ _. checked vault) h1 in
      let (same, hash, safe) = integrity-IsSafe plan vault config.maximum_actions validated h2 in
      let kept = fail_if_ok plan_hash foreign u own in
      (same, ground arith, ground arith, hash, vault, found, safe)
