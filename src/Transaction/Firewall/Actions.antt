-- ===== src/Transaction/Firewall/Actions.antt =====
-- What the firewall of src/transaction/firewall.rs says of the actions that it accepts.
use rbot_v.Prelude.{
  ℕ, ◌+◌, ◌≤◌, ◌<◌, ◌≡◌, refl, Bool, true, false, Option, none, some, ok, ◌>>◌, ok_or, fail_if,
  ok_or_ok, ok_injective, >>=-eq-ok, ◌==◌, List, [], ◌∷◌, contains, is_empty, find, All, arith,
}
use mathlib.Core.Path.{subst}
use rbot_v.Prelude.Words.{checked_add}
use rbot_v.Prelude.Checked.{add_ok, fail_if_ok}
use rbot_v.Transaction.Plan.{
  Bytes, ActionFields, V2Action, deallocate, allocate, fields, is_allocation,
  LiquidityAdapterConfig, PositionConfig, VaultConfig, Abi, same_bytes→≡,
}
use rbot_v.Transaction.Firewall.{
  action, Progress, allocated_to, deallocated_to, liquidity_for, allows, encode_adapter_data,
  check_position, check_target, add_amount, breaks_grammar, check_action, check_actions,
}

-- The assets that the actions of one kind ask for.
abbrev pub total_allocated : List V2Action → ℕ
total_allocated [] = 0
total_allocated (allocate f ∷ rest) = f.requested_assets + total_allocated rest
total_allocated (deallocate _ ∷ rest) = total_allocated rest

abbrev pub total_deallocated : List V2Action → ℕ
total_deallocated [] = 0
total_deallocated (allocate _ ∷ rest) = total_deallocated rest
total_deallocated (deallocate f ∷ rest) = f.requested_assets + total_deallocated rest

-- Deallocations come first: after an allocation there are only allocations.
abbrev pub IsPhased : Bool → List V2Action → Type 0
IsPhased _ [] = Unit
IsPhased _ (allocate _ ∷ rest) = IsPhased true rest
IsPhased false (deallocate _ ∷ rest) = IsPhased false rest
IsPhased true (deallocate _ ∷ rest) = ⊥

-- No position is touched twice.
abbrev pub IsFresh : List ℕ → List V2Action → Type 0
IsFresh touched [] = Unit
IsFresh touched (step ∷ rest) =
    (contains touched (fields step).position ≡ false)
    × IsFresh ((fields step).position ∷ touched) rest

is_empty_lem : (xs : Bytes) → is_empty xs ≡ true → xs ≡ []
is_empty_lem [] h = refl
is_empty_lem (x ∷ xs) h = cc

module _ (abi : Abi) (vault : VaultConfig) where
  -- What the configuration of the vault permits: a movement within the bound of the liquidity
  -- adapter, or of a configured position with its own adapter, its market and a mode that allows it.
  pub data IsPermitted (step : V2Action) : Type 0 where
    through_liquidity :
        (configured : LiquidityAdapterConfig)
        → liquidity_for vault.liquidity_adapter (fields step).position ≡ some configured
        → configured.address ≡ (fields step).adapter
        → (fields step).data_bytes ≡ []
        → (fields step).requested_assets ≤ configured.maximum_action_assets
        → IsPermitted step
    through_position :
        (configured : PositionConfig)
        → liquidity_for vault.liquidity_adapter (fields step).position ≡ none
        → find (λ p. p.position_key == (fields step).position) vault.positions ≡ some configured
        → configured.adapter ≡ (fields step).adapter
        → (fields step).data_bytes ≡ encode_adapter_data abi configured.market_params
        → (fields step).requested_assets ≤ configured.maximum_action_assets
        → allows configured.mode (is_allocation step) ≡ true
        → IsPermitted step

  -- What a pass over the actions has shown and added up.
  pub record Passes (progress : Progress) (steps : List V2Action) (final : Progress) : Type 0 where
    pub permitted : All (λ s. (0 < (fields s).requested_assets) × IsPermitted s) steps
    pub phased : IsPhased progress.allocation_phase steps
    pub fresh : IsFresh progress.touched steps
    pub allocated_of : final.allocated ≡ progress.allocated + total_allocated steps
    pub deallocated_of : final.deallocated ≡ progress.deallocated + total_deallocated steps

  check_position-IsPermitted :
      (s : V2Action) (configured : PositionConfig) (u : Unit {0})
      → liquidity_for vault.liquidity_adapter (fields s).position ≡ none
      → find (λ p. p.position_key == (fields s).position) vault.positions ≡ some configured
      → check_position abi (fields s) (is_allocation s) configured ≡ ok u
      → IsPermitted s
  unfolding check_position
  check_position-IsPermitted s configured u e found h =
      through_position configured e found (ground arith)
        (same_bytes→≡ (fields s).data_bytes (encode_adapter_data abi configured.market_params)
          (ground arith))
        (ground arith) (ground arith)

  check_target-IsPermitted :
      (s : V2Action) (o : Option LiquidityAdapterConfig) (u : Unit {0})
      → liquidity_for vault.liquidity_adapter (fields s).position ≡ o
      → check_target abi vault (fields s) (is_allocation s) o ≡ ok u
      → IsPermitted s
  unfolding check_target
  check_target-IsPermitted s (some configured) u e h =
      through_liquidity configured e (ground arith)
        (is_empty_lem (fields s).data_bytes (ground arith)) (ground arith)
  check_target-IsPermitted s none u e h =
      let (configured, found, checked) =
        >>=-eq-ok (ok_or (find (λ p. p.position_key == (fields s).position) vault.positions) action)
          (check_position abi (fields s) (is_allocation s)) h in
      check_position-IsPermitted s configured u e
        (ok_or_ok (find (λ p. p.position_key == (fields s).position) vault.positions) action found)
        checked

  deallocation_phase :
      (phase : Bool) (f : ActionFields) (steps : List V2Action)
      → phase ≡ false
      → IsPhased phase steps
      → IsPhased phase (deallocate f ∷ steps)
  deallocation_phase false f steps e p = p
  deallocation_phase true f steps e p = cc

  -- A step that was checked, before a pass over the others.
  Passes-∷ :
      (s : V2Action) (steps : List V2Action) (progress next final : Progress)
      → breaks_grammar progress s ≡ false
      → IsPermitted s
      → add_amount progress s ≡ ok next
      → Passes next steps final
      → Passes progress (s ∷ steps) final
  unfolding breaks_grammar add_amount
  Passes-∷ (allocate f) steps progress next final g q h p =
      let (total, e, k) =
        >>=-eq-ok (ok_or (checked_add progress.allocated f.requested_assets) action)
          (λ total. ok (allocated_to progress f total)) h in
      let r =
        subst (λ n. Passes n steps final) (ok_injective (ok (allocated_to progress f total)) k refl)
          p in
      let (known, room) = add_ok action progress.allocated f.requested_assets total e in
      record {
        permitted = ((ground arith, q), r.permitted);
        phased = r.phased;
        fresh = (ground arith, r.fresh);
        allocated_of = omega (arith, known, r.allocated_of);
        deallocated_of = r.deallocated_of;
      }
  Passes-∷ (deallocate f) steps progress next final g q h p =
      let (total, e, k) =
        >>=-eq-ok (ok_or (checked_add progress.deallocated f.requested_assets) action)
          (λ total. ok (deallocated_to progress f total)) h in
      let r =
        subst (λ n. Passes n steps final)
          (ok_injective (ok (deallocated_to progress f total)) k refl) p in
      let (known, room) = add_ok action progress.deallocated f.requested_assets total e in
      record {
        permitted = ((ground arith, q), r.permitted);
        phased = deallocation_phase progress.allocation_phase f steps (ground arith) r.phased;
        fresh = (ground arith, r.fresh);
        allocated_of = r.allocated_of;
        deallocated_of = omega (arith, known, r.deallocated_of);
      }

  pub check_actions-Passes :
      (progress final : Progress) (steps : List V2Action)
      → check_actions abi vault progress steps ≡ ok final
      → Passes progress steps final
  unfolding check_actions check_action
  check_actions-Passes progress final [] h = record {
    permitted = tt;
    phased = tt;
    fresh = tt;
    allocated_of = ground arith;
    deallocated_of = ground arith;
  }
  check_actions-Passes progress final (s ∷ steps) h =
      let (next, e, k) =
        >>=-eq-ok (check_action abi vault progress s) (λ next. check_actions abi vault next steps)
          h in
      let target =
        check_target abi vault (fields s) (is_allocation s)
          (liquidity_for vault.liquidity_adapter (fields s).position) in
      let (u, grammar, e1) =
        >>=-eq-ok (fail_if (breaks_grammar progress s) action)
          (λ _. target >> add_amount progress s) e in
      let (w, aimed, added) = >>=-eq-ok target (λ _. add_amount progress s) e1 in
      Passes-∷ s steps progress next final (fail_if_ok action (breaks_grammar progress s) u grammar)
        (check_target-IsPermitted s (liquidity_for vault.liquidity_adapter (fields s).position) w
          refl aimed)
        added (check_actions-Passes next final steps k)
