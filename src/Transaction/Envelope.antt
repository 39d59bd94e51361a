-- ===== src/Transaction/Envelope.antt =====
-- The check of a whole transaction in src/transaction/firewall.rs, before it is signed.
use rbot_v.Prelude.{
  Option, ℕ, ◌≤◌, ◌<◌, ◌≡◌, ◌↔◌, refl, Bool, true, false, ◌&&◌, ◌||◌, not, Result, ok, ◌>>=◌, ◌>>◌,
  fail_if, map_err, >>=-eq-ok, ltb, ◌==◌, List, [], ◌∷◌, map, arith,
}
use rbot_v.Prelude.Checked.{fail_if_ok}
use rbot_v.Transaction.Plan.{
  Bytes, ActionFields, V2Action, deallocate, allocate, V2Plan, Config, VaultConfig, Abi, same_bytes,
  same_bytes→≡, same_bytes_refl,
}
use rbot_v.Transaction.Firewall.{
  FirewallError, calldata, envelope, fee, ValidatedPlan, find_vault, validate_historical_plan,
}
use rbot_v.Transaction.Firewall.Plans.{IsSafe}
use rbot_v.Transaction.Calldata.{
  DecodeError, DecodedRoutineTransaction, encode_action, encode_calls, encode_validated_plan,
  decode_routine_calldata,
}
use rbot_v.Transaction.Calldata.RoundTrip.{decode-encode}
use rbot_v.Transaction.Calldata.Codec.{IsAbi, IsUnambiguous}

pub record RoutineTransactionFields : Type 0 where
  pub chain_id : ℕ
  pub from : ℕ
  pub to : ℕ
  pub nonce : ℕ
  pub gas_limit : ℕ
  pub max_fee_per_gas : ℕ
  pub max_priority_fee_per_gas : ℕ
  pub value : ℕ
  pub input : Bytes

pub record ValidatedRoutineTransaction : Type 0 where
  pub fields : RoutineTransactionFields
  pub plan_hash : ℕ

-- The two limits of `ValidatedExecutionConfig` that a signed transaction keeps to.
pub record SigningLimits : Type 0 where
  pub maximum_signed_transaction_gas : ℕ
  pub maximum_fee_per_gas_wei : ℕ

-- `V2Action: PartialEq`.
abbrev pub same_fields : ActionFields → ActionFields → Bool
same_fields a b =
    a.position == b.position
    && a.adapter == b.adapter
    && same_bytes a.data_bytes b.data_bytes
    && a.requested_assets == b.requested_assets

abbrev pub same_action : V2Action → V2Action → Bool
same_action (deallocate a) (deallocate b) = same_fields a b
same_action (allocate a) (allocate b) = same_fields a b
same_action _ _ = false

abbrev pub same_actions : List V2Action → List V2Action → Bool
same_actions [] [] = true
same_actions (a ∷ xs) (b ∷ ys) = same_action a b && same_actions xs ys
same_actions _ _ = false

unfoldable pub breaks_envelope : RoutineTransactionFields → ℕ → VaultConfig → Bool
breaks_envelope f chain_id vault =
    not (f.chain_id == chain_id)
    || not (f.from == vault.signer_address)
    || not (f.to == vault.address)
    || not (f.value == 0)

unfoldable pub breaks_fees : RoutineTransactionFields → SigningLimits → Bool
breaks_fees f execution =
    f.gas_limit == 0
    || ltb execution.maximum_signed_transaction_gas f.gas_limit
    || ltb execution.maximum_fee_per_gas_wei f.max_fee_per_gas
    || ltb f.max_fee_per_gas f.max_priority_fee_per_gas

module _ (abi : Abi) (keccak : Bytes → ℕ) where
  unfoldable pub validate_routine_transaction :
      ValidatedPlan
      → RoutineTransactionFields
      → ℕ
      → VaultConfig
      → SigningLimits
      → Result FirewallError ValidatedRoutineTransaction
  validate_routine_transaction validated f chain_id vault execution = do
    fail_if (breaks_envelope f chain_id vault) envelope
    fail_if (breaks_fees f execution) fee
    decoded ←
        map_err (λ (_ : DecodeError). calldata) (decode_routine_calldata abi keccak f.input vault)
    fail_if
        (not (same_bytes f.input (encode_validated_plan abi validated))
          || not (same_actions decoded.actions validated.plan.actions))
        calldata
    ok (record { fields = f; plan_hash = validated.plan.plan_hash })

-- The plan of a transaction that is already durable, and the transaction with it.
unfoldable pub validate_historical_routine_transaction :
    Abi
    → (Bytes → ℕ)
    → (V2Plan → Option Bytes)
    → V2Plan
    → RoutineTransactionFields
    → Config
    → VaultConfig
    → SigningLimits
    → Result FirewallError ValidatedRoutineTransaction
validate_historical_routine_transaction abi keccak to_vec plan f config vault execution = do
  validated ← validate_historical_plan abi keccak to_vec plan config
  validate_routine_transaction abi keccak validated f config.chain_id vault execution

unfoldable pub configured_plan_vault : ValidatedPlan → Config → Result FirewallError VaultConfig
configured_plan_vault validated config = find_vault config validated.plan.vault

same_action_refl : (a : V2Action) → same_action a a ≡ true
same_action_refl (deallocate f) = rw (same_bytes_refl f.data_bytes) (ground arith)
same_action_refl (allocate f) = rw (same_bytes_refl f.data_bytes) (ground arith)

same_actions_refl : (steps : List V2Action) → same_actions steps steps ≡ true
same_actions_refl [] = refl
same_actions_refl (s ∷ steps) = rw (same_action_refl s, same_actions_refl steps) refl

-- What a signed transaction must be: to the vault, from its signer, on the chain, without value,
-- within the limits, and with the calldata of its plan.
abbrev pub IsRoutine :
    Abi → ValidatedPlan → RoutineTransactionFields → ℕ → VaultConfig → SigningLimits → Type 0
IsRoutine abi validated f chain_id vault execution =
    (f.chain_id ≡ chain_id)
    × (f.from ≡ vault.signer_address)
    × (f.to ≡ vault.address)
    × (f.value ≡ 0)
    × (0 < f.gas_limit)
    × (f.gas_limit ≤ execution.maximum_signed_transaction_gas)
    × (f.max_fee_per_gas ≤ execution.maximum_fee_per_gas_wei)
    × (f.max_priority_fee_per_gas ≤ f.max_fee_per_gas)
    × (f.input ≡ encode_validated_plan abi validated)

module _ (abi : Abi) (keccak : Bytes → ℕ) (validated : ValidatedPlan) (f : RoutineTransactionFields)
    (chain_id : ℕ) (vault : VaultConfig) (execution : SigningLimits) where
  abbrev accepted : ValidatedRoutineTransaction
  accepted = record { fields = f; plan_hash = validated.plan.plan_hash }

  accepted-IsRoutine :
      validate_routine_transaction abi keccak validated f chain_id vault execution ≡ ok accepted
      → IsRoutine abi validated f chain_id vault execution
  unfolding validate_routine_transaction breaks_envelope breaks_fees
  accepted-IsRoutine h =
      let foreign = breaks_envelope f chain_id vault in
      let dear = breaks_fees f execution in
      let decoding =
        map_err (λ (_ : DecodeError). calldata)
          (decode_routine_calldata abi keccak f.input vault) in
      let differs = λ (d : DecodedRoutineTransaction).
        (not (same_bytes f.input (encode_validated_plan abi validated))
          || not (same_actions d.actions validated.plan.actions)) in
      let finish =
        λ (d : DecodedRoutineTransaction). (fail_if (differs d) calldata >> ok accepted) in
      let (u, own, h1) =
        >>=-eq-ok (fail_if foreign envelope) (λ _. fail_if dear fee >> (decoding >>= finish)) h in
      let (v, cheap, h2) = >>=-eq-ok (fail_if dear fee) (λ _. decoding >>= finish) h1 in
      let (d, _, h3) = >>=-eq-ok decoding finish h2 in
      let (w, same, _) = >>=-eq-ok (fail_if (differs d) calldata) (λ _. ok accepted) h3 in
      let inside = fail_if_ok envelope foreign u own in
      let within = fail_if_ok fee dear v cheap in
      let equal = fail_if_ok calldata (differs d) w same in
      (
        ground arith,
        ground arith,
        ground arith,
        ground arith,
        ground arith,
        ground arith,
        ground arith,
        ground arith,
        same_bytes→≡ f.input (encode_validated_plan abi validated) (ground arith),
      )

  IsRoutine-accepted :
      IsAbi abi
      → IsUnambiguous abi vault
      → (maximum_actions : ℕ) → IsSafe abi vault maximum_actions validated.plan
      → IsRoutine abi validated f chain_id vault execution
      → validate_routine_transaction abi keccak validated f chain_id vault execution ≡ ok accepted
  unfolding validate_routine_transaction breaks_envelope breaks_fees encode_validated_plan
  IsRoutine-accepted law unambiguous maximum_actions safe
        (own, signer, to, free, gas, capped, covered, tip, canonical) =
      let foreign : breaks_envelope f chain_id vault ≡ false = ground arith in
      let dear : breaks_fees f execution ≡ false = ground arith in
      rw
        (
          foreign,
          dear,
          canonical,
          decode-encode abi law vault unambiguous keccak validated.plan.actions safe.counted.0
              safe.permitted,
          same_bytes_refl (encode_calls abi (map (encode_action abi) validated.plan.actions)),
          same_actions_refl validated.plan.actions,
        )
        refl

  -- For a plan whose actions are safe for a vault without ambiguous positions, a transaction is
  -- accepted exactly when it is routine: to the vault, from its signer, on the chain, without
  -- value, within the limits of gas and fees, and with the canonical calldata of the plan, which
  -- the decoder never refuses. This needs a codec that keeps the promises of the bindings.
  pub validate_routine_transaction_lem :
      (law : IsAbi abi) (unambiguous : IsUnambiguous abi vault) (maximum_actions : ℕ)
      → IsSafe abi vault maximum_actions validated.plan
      → (validate_routine_transaction abi keccak validated f chain_id vault execution
          ≡ ok (record { fields = f; plan_hash = validated.plan.plan_hash }))
        ↔ IsRoutine abi validated f chain_id vault execution
  validate_routine_transaction_lem law unambiguous maximum_actions safe =
      (accepted-IsRoutine, IsRoutine-accepted law unambiguous maximum_actions safe)
