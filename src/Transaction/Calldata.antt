-- ===== src/Transaction/Calldata.antt =====
-- src/transaction/encoder.rs and src/transaction/decoder.rs: the calldata of a plan and its reading,
-- and the check of a whole transaction in src/transaction/firewall.rs.
pub mod Codec
pub mod RoundTrip
use rbot_v.Prelude.{
  ℕ, Bool, true, false, ◌&&◌, ◌||◌, not, Option, none, some, Result, ok, err, ◌>>=◌, ◌>>◌, ok_or,
  fail_if, ltb, leb, ◌==◌, List, [], ◌∷◌, is_empty, map, retain, if◌then◌else◌, map_err,
}
use rbot_v.Transaction.Plan.{
  Bytes, ActionFields, V2Action, deallocate, allocate, LiquidityAdapterConfig, PositionConfig,
  VaultConfig, AdapterCall, Abi, same_bytes,
}
use rbot_v.Transaction.Firewall.{
  FirewallError, calldata, envelope, fee, ValidatedPlan, encode_adapter_data,
}

pub data DecodeError : Type 0 where
  selector_error non_canonical multicall_error position_error zero_amount : DecodeError

pub record DecodedRoutineTransaction : Type 0 where
  pub actions : List V2Action
  pub calldata_hash : ℕ

-- `selector`: the first four bytes.
unfoldable pub selector_of : Bytes → Result DecodeError Bytes
selector_of (a ∷ b ∷ c ∷ d ∷ _) = ok (a ∷ b ∷ c ∷ d ∷ [])
selector_of _ = err selector_error

abbrev pub action_of : Bool → ActionFields → V2Action
action_of true f = allocate f
action_of false f = deallocate f

-- `abi_decode_validate`, and the comparison with the canonical encoding.
unfoldable pub canonical :
    Option AdapterCall
    → (AdapterCall → Bytes)
    → Bytes
    → Bool
    → Result DecodeError (AdapterCall × Bool)
canonical none _ _ _ = err non_canonical
canonical (some call) encode bytes is_allocation = do
  fail_if (not (same_bytes (encode call) bytes)) non_canonical
  ok (call, is_allocation)

-- The liquidity adapter, when the call is one of its.
unfoldable pub liquidity_match :
    Option LiquidityAdapterConfig → AdapterCall → Option LiquidityAdapterConfig
liquidity_match none _ = none
liquidity_match (some configured) call =
    if configured.address == call.adapter && is_empty call.data_bytes then some configured else none

module _ (abi : Abi) where
  unfoldable pub encode_action : V2Action → Bytes
  encode_action (deallocate f) =
      abi.deallocate_call
        (record { adapter = f.adapter; data_bytes = f.data_bytes; assets = f.requested_assets })
  encode_action (allocate f) =
      abi.allocate_call
        (record { adapter = f.adapter; data_bytes = f.data_bytes; assets = f.requested_assets })

  unfoldable pub encode_calls : List Bytes → Bytes
  encode_calls (call ∷ []) = call
  encode_calls calls = abi.multicall_call calls

  unfoldable pub encode_validated_plan : ValidatedPlan → Bytes
  encode_validated_plan validated = encode_calls (map encode_action validated.plan.actions)

  unfoldable pub decode_arguments : Bytes → Result DecodeError (AdapterCall × Bool)
  decode_arguments bytes = do
    value ← selector_of bytes
    if same_bytes value abi.allocate_selector
        then canonical (abi.decode_allocate bytes) abi.allocate_call bytes true
        else if same_bytes value abi.deallocate_selector
        then canonical (abi.decode_deallocate bytes) abi.deallocate_call bytes false
        else err selector_error

  unfoldable pub matches_call : AdapterCall → PositionConfig → Bool
  matches_call call p =
      p.adapter == call.adapter
      && same_bytes (encode_adapter_data abi p.market_params) call.data_bytes

  -- Exactly one position must match.
  unfoldable pub resolve_position :
      AdapterCall → Bool → List PositionConfig → Result DecodeError V2Action
  resolve_position call is_allocation (p ∷ []) = ok (
      action_of is_allocation (record {
        position = p.position_key;
        adapter = p.adapter;
        data_bytes = call.data_bytes;
        requested_assets = call.assets;
      }))
  resolve_position _ _ _ = err position_error

  unfoldable pub resolve :
      VaultConfig → AdapterCall → Bool → Option LiquidityAdapterConfig → Result DecodeError V2Action
  resolve vault call is_allocation (some liquidity) = ok (
      action_of is_allocation (record {
        position = liquidity.position_key;
        adapter = liquidity.address;
        data_bytes = [];
        requested_assets = call.assets;
      }))
  resolve vault call is_allocation none =
      resolve_position call is_allocation (retain (matches_call call) vault.positions)

  unfoldable pub decode_action : VaultConfig → Bytes → Result DecodeError V2Action
  decode_action vault bytes = do
    (call, is_allocation) ← decode_arguments bytes
    fail_if (call.assets == 0) zero_amount
    resolve vault call is_allocation (liquidity_match vault.liquidity_adapter call)

  unfoldable pub decode_inner : VaultConfig → List Bytes → Result DecodeError (List V2Action)
  decode_inner vault [] = ok []
  decode_inner vault (inner ∷ rest) = do
    value ← selector_of inner
    fail_if (same_bytes value abi.multicall_selector) multicall_error
    step ← decode_action vault inner
    steps ← decode_inner vault rest
    ok (step ∷ steps)

  unfoldable pub decode_multi : VaultConfig → Bytes → Result DecodeError (List V2Action)
  decode_multi vault bytes = do
    calls ← ok_or (abi.decode_multicall bytes) non_canonical
    fail_if (not (same_bytes (abi.multicall_call calls) bytes) || is_empty calls) multicall_error
    decode_inner vault calls

  unfoldable pub decode_routine_calldata :
      (Bytes → ℕ) → Bytes → VaultConfig → Result DecodeError DecodedRoutineTransaction
  decode_routine_calldata keccak bytes vault = do
    outer ← selector_of bytes
    actions ←
        if same_bytes outer abi.multicall_selector
        then decode_multi vault bytes
        else decode_action vault bytes >>= λ step. ok (step ∷ [])
    ok (record { actions = actions; calldata_hash = keccak bytes })
