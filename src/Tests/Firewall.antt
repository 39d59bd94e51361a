-- ===== src/Tests/Firewall.antt =====
-- A rebalance between two positions, through the firewall, the encoder and the decoder, with a
-- codec of tagged lists in place of the ABI.
use rbot_v.Prelude.{
  ℕ, zero, suc, ◌<◌, true, Option, none, some, List, [], ◌∷◌, ok, ◌≡◌, ◌↔◌, sum, ap, ◌∙◌, refl,
  arith,
}
use rbot_v.Prelude.Int.{pos}
use rbot_v.Domain.{rate_rebalance, portfolio, active}
use rbot_v.Transaction.Plan.{
  Bytes, MarketParams, ActionFields, V2Action, deallocate, allocate, V2Plan, PositionConfig,
  VaultConfig, Config, AdapterCall, Abi,
}
use rbot_v.Transaction.Firewall.{ValidatedPlan}
use rbot_v.Transaction.Firewall.Actions.{IsPermitted, through_position}
use rbot_v.Transaction.Firewall.Plans.{IsSafe, validate_plan-IsSafe}
use rbot_v.Transaction.Calldata.RoundTrip.{decode-encode}
use rbot_v.Transaction.Calldata.Codec.{IsAbi}
use rbot_v.Transaction.Envelope.{
  RoutineTransactionFields, SigningLimits, IsRoutine, validate_routine_transaction_lem,
}
use rbot_v.Prelude.Words.{u256_limit}
use rbot_v.Prelude.Int.{i256_limit}
use rbot_v.Transaction.Firewall.{
  liquidity_for, allows, breaks_certificate, add_amount, breaks_grammar, leaves_position,
  breaks_reason, find_vault, encode_adapter_data, check_position, check_target, check_action,
  check_actions, validate_actions, canonical_plan_hash, canonical_plan_id, validate_plan_integrity,
  validate_plan, validate_historical_plan,
}
use rbot_v.Transaction.Calldata.{
  selector_of, canonical, liquidity_match, encode_action, encode_calls, encode_validated_plan,
  decode_arguments, matches_call, resolve_position, resolve, decode_action, decode_inner,
  decode_multi, decode_routine_calldata,
}
use rbot_v.Transaction.Envelope.{breaks_envelope, breaks_fees, validate_routine_transaction}

abbrev tagged_call : ℕ → AdapterCall → Bytes
tagged_call tag c = tag ∷ 0 ∷ 0 ∷ 0 ∷ c.adapter ∷ c.assets ∷ c.data_bytes

abbrev untagged : Bytes → Option AdapterCall
untagged (_ ∷ _ ∷ _ ∷ _ ∷ adapter ∷ assets ∷ rest) =
    some (record { adapter = adapter; data_bytes = rest; assets = assets })
untagged _ = none

-- Bytes behind the tag 2, an end of a call behind the tag 1.
abbrev put_call : Bytes → Bytes → Bytes
put_call [] rest = 1 ∷ rest
put_call (x ∷ xs) rest = 2 ∷ x ∷ put_call xs rest

abbrev put_calls : List Bytes → Bytes
put_calls [] = 0 ∷ []
put_calls (c ∷ cs) = put_call c (put_calls cs)

abbrev push : ℕ → List Bytes → List Bytes
push x [] = []
push x (c ∷ cs) = (x ∷ c) ∷ cs

abbrev take_calls : Bytes → List Bytes
take_calls (suc zero ∷ rest) = [] ∷ take_calls rest
take_calls (suc (suc _) ∷ x ∷ rest) = push x (take_calls rest)
take_calls _ = []

take-put_call : (c rest : Bytes) → take_calls (put_call c rest) ≡ c ∷ take_calls rest
take-put_call [] rest = refl
take-put_call (x ∷ xs) rest = ap (push x) (take-put_call xs rest)

take-put_calls : (cs : List Bytes) → take_calls (put_calls cs) ≡ cs
take-put_calls [] = refl
take-put_calls (c ∷ cs) = take-put_call c (put_calls cs) ∙ ap (λ ds. c ∷ ds) (take-put_calls cs)

abbrev untagged_calls : Bytes → Option (List Bytes)
untagged_calls (_ ∷ _ ∷ _ ∷ _ ∷ rest) = some (take_calls rest)
untagged_calls _ = none

abbrev codec : Abi
codec = record {
  market_params = λ p. p.loan_token ∷ p.collateral_token ∷ p.oracle ∷ p.irm ∷ p.lltv ∷ [];
  allocate_selector = 1 ∷ 0 ∷ 0 ∷ 0 ∷ [];
  deallocate_selector = 2 ∷ 0 ∷ 0 ∷ 0 ∷ [];
  multicall_selector = 3 ∷ 0 ∷ 0 ∷ 0 ∷ [];
  allocate_call = tagged_call 1;
  deallocate_call = tagged_call 2;
  multicall_call = λ calls. 3 ∷ 0 ∷ 0 ∷ 0 ∷ put_calls calls;
  decode_allocate = untagged;
  decode_deallocate = untagged;
  decode_multicall = untagged_calls;
}

codec-IsAbi : IsAbi codec
unfolding u256_limit i256_limit liquidity_for allows breaks_certificate add_amount breaks_grammar
    leaves_position breaks_reason find_vault encode_adapter_data check_position check_target
    check_action check_actions validate_actions canonical_plan_hash canonical_plan_id
    validate_plan_integrity validate_plan validate_historical_plan selector_of canonical
    liquidity_match encode_action encode_calls encode_validated_plan decode_arguments matches_call
    resolve_position resolve decode_action decode_inner decode_multi decode_routine_calldata
    breaks_envelope breaks_fees validate_routine_transaction
codec-IsAbi = record {
  allocate_decodes = λ c. refl;
  deallocate_decodes = λ c. refl;
  multicall_decodes = λ calls. ap some (take-put_calls calls);
  allocate_selects = λ c. refl;
  deallocate_selects = λ c. refl;
  multicall_selects = λ calls. refl;
  allocate_not_multicall = refl;
  deallocate_not_multicall = refl;
  deallocate_not_allocate = refl;
  params_nonempty = λ p. refl;
}

abbrev params_of : ℕ → MarketParams
params_of market = record {
  loan_token = 1;
  collateral_token = market;
  oracle = 3;
  irm = 4;
  lltv = 5;
}

abbrev position_of : ℕ → PositionConfig
position_of key = record {
  position_key = key;
  adapter = 70;
  market_params = params_of key;
  mode = active;
  maximum_action_assets = 1000;
}

abbrev vault : VaultConfig
vault = record {
  address = 8;
  signer_address = 9;
  maximum_immediate_rebalance_loss_assets = 2;
  liquidity_adapter = none;
  positions = position_of 11 ∷ position_of 12 ∷ [];
}

abbrev config : Config
config = record { revision = 5; chain_id = 1; maximum_actions = 4; vaults = vault ∷ [] }

abbrev movement : ℕ → ActionFields
movement key = record {
  position = key;
  adapter = 70;
  data_bytes = 1 ∷ key ∷ 3 ∷ 4 ∷ 5 ∷ [];
  requested_assets = 100;
}

abbrev moves : List V2Action
moves = deallocate (movement 11) ∷ allocate (movement 12) ∷ []

abbrev plan : V2Plan
plan = record {
  plan_id = 5;
  reason = rate_rebalance;
  vault = 8;
  snapshot = record { chain_id = 1; static_config_revision = 5; dynamic_topology_revision = 6 };
  config_revision = 5;
  topology_revision = 6;
  read_set_revision = 0;
  latest_relevant_event_block = 0;
  planner_generation = 0;
  actions = moves;
  projection = record {
    movement_assets = 100;
    before_spread = 50;
    after_spread = 20;
    immediate_loss_assets = 1;
    terminal_value_delta_assets = pos 3;
    expected_gain_assets = 3;
  };
  solver_certificate = record {
    nodes_evaluated = 10;
    node_limit = 100;
    search_complete_for_lattice = true;
    rate_episode_id = some 4;
    objective_branch = some portfolio;
    target_reachable = true;
    target_reached = true;
  };
  episode_id = some 4;
  plan_hash = 10;
}

abbrev to_vec : V2Plan → Option Bytes
to_vec p = some (p.plan_id ∷ p.plan_hash ∷ p.config_revision ∷ [])

abbrev validated : ValidatedPlan
validated = record { plan = plan }

validate_plan-IsSafe_example :
    (validated ≡ validated)
    × (plan.config_revision ≡ config.revision)
    × (plan.snapshot.chain_id ≡ config.chain_id)
    × (canonical_plan_hash codec sum to_vec plan ≡ ok 10)
    × (owner : VaultConfig) × (find_vault config 8 ≡ ok owner)
    × IsSafe codec owner 4 plan
unfolding u256_limit i256_limit liquidity_for allows breaks_certificate add_amount breaks_grammar
    leaves_position breaks_reason find_vault encode_adapter_data check_position check_target
    check_action check_actions validate_actions canonical_plan_hash canonical_plan_id
    validate_plan_integrity validate_plan validate_historical_plan selector_of canonical
    liquidity_match encode_action encode_calls encode_validated_plan decode_arguments matches_call
    resolve_position resolve decode_action decode_inner decode_multi decode_routine_calldata
    breaks_envelope breaks_fees validate_routine_transaction
validate_plan-IsSafe_example = validate_plan-IsSafe codec sum to_vec plan config validated refl

moves-IsPermitted : (0 < 100) × IsPermitted codec vault (deallocate (movement 11))
unfolding u256_limit i256_limit liquidity_for allows breaks_certificate add_amount breaks_grammar
    leaves_position breaks_reason find_vault encode_adapter_data check_position check_target
    check_action check_actions validate_actions canonical_plan_hash canonical_plan_id
    validate_plan_integrity validate_plan validate_historical_plan selector_of canonical
    liquidity_match encode_action encode_calls encode_validated_plan decode_arguments matches_call
    resolve_position resolve decode_action decode_inner decode_multi decode_routine_calldata
    breaks_envelope breaks_fees validate_routine_transaction
moves-IsPermitted =
    (omega arith, through_position (position_of 11) refl refl refl refl (omega arith) refl)

other-IsPermitted : (0 < 100) × IsPermitted codec vault (allocate (movement 12))
unfolding u256_limit i256_limit liquidity_for allows breaks_certificate add_amount breaks_grammar
    leaves_position breaks_reason find_vault encode_adapter_data check_position check_target
    check_action check_actions validate_actions canonical_plan_hash canonical_plan_id
    validate_plan_integrity validate_plan validate_historical_plan selector_of canonical
    liquidity_match encode_action encode_calls encode_validated_plan decode_arguments matches_call
    resolve_position resolve decode_action decode_inner decode_multi decode_routine_calldata
    breaks_envelope breaks_fees validate_routine_transaction
other-IsPermitted =
    (omega arith, through_position (position_of 12) refl refl refl refl (omega arith) refl)

abbrev call_bytes : Bytes
call_bytes =
    3
    ∷ 0
    ∷ 0
    ∷ 0
    ∷ put_calls (
        (2 ∷ 0 ∷ 0 ∷ 0 ∷ 70 ∷ 100 ∷ 1 ∷ 11 ∷ 3 ∷ 4 ∷ 5 ∷ [])
        ∷ (1 ∷ 0 ∷ 0 ∷ 0 ∷ 70 ∷ 100 ∷ 1 ∷ 12 ∷ 3 ∷ 4 ∷ 5 ∷ [])
        ∷ [])

decode-encode_example :
    decode_routine_calldata codec sum call_bytes vault
    ≡ ok (record { actions = moves; calldata_hash = sum call_bytes })
unfolding u256_limit i256_limit liquidity_for allows breaks_certificate add_amount breaks_grammar
    leaves_position breaks_reason find_vault encode_adapter_data check_position check_target
    check_action check_actions validate_actions canonical_plan_hash canonical_plan_id
    validate_plan_integrity validate_plan validate_historical_plan selector_of canonical
    liquidity_match encode_action encode_calls encode_validated_plan decode_arguments matches_call
    resolve_position resolve decode_action decode_inner decode_multi decode_routine_calldata
    breaks_envelope breaks_fees validate_routine_transaction
decode-encode_example =
    decode-encode codec codec-IsAbi vault (refl, (refl, tt)) sum moves (omega arith)
      (moves-IsPermitted, (other-IsPermitted, tt))

abbrev envelope_fields : RoutineTransactionFields
envelope_fields = record {
  chain_id = 1;
  from = 9;
  to = 8;
  nonce = 40;
  gas_limit = 500_000;
  max_fee_per_gas = 30;
  max_priority_fee_per_gas = 2;
  value = 0;
  input = call_bytes;
}

abbrev limits : SigningLimits
limits = record { maximum_signed_transaction_gas = 1_000_000; maximum_fee_per_gas_wei = 100 }

plan-IsSafe : IsSafe codec vault 4 plan
unfolding u256_limit i256_limit liquidity_for allows breaks_certificate add_amount breaks_grammar
    leaves_position breaks_reason find_vault encode_adapter_data check_position check_target
    check_action check_actions validate_actions canonical_plan_hash canonical_plan_id
    validate_plan_integrity validate_plan validate_historical_plan selector_of canonical
    liquidity_match encode_action encode_calls encode_validated_plan decode_arguments matches_call
    resolve_position resolve decode_action decode_inner decode_multi decode_routine_calldata
    breaks_envelope breaks_fees validate_routine_transaction
plan-IsSafe = record {
  counted = (omega arith, omega arith);
  permitted = (moves-IsPermitted, (other-IsPermitted, tt));
  phased = tt;
  fresh = (refl, (refl, tt));
  moved = refl;
  lost = omega arith;
  reasoned = (omega arith, refl, omega arith);
}

validate_routine_transaction_lem_example :
    (validate_routine_transaction codec sum validated envelope_fields 1 vault limits
      ≡ ok (record { fields = envelope_fields; plan_hash = 10 }))
    ↔ IsRoutine codec validated envelope_fields 1 vault limits
unfolding u256_limit i256_limit liquidity_for allows breaks_certificate add_amount breaks_grammar
    leaves_position breaks_reason find_vault encode_adapter_data check_position check_target
    check_action check_actions validate_actions canonical_plan_hash canonical_plan_id
    validate_plan_integrity validate_plan validate_historical_plan selector_of canonical
    liquidity_match encode_action encode_calls encode_validated_plan decode_arguments matches_call
    resolve_position resolve decode_action decode_inner decode_multi decode_routine_calldata
    breaks_envelope breaks_fees validate_routine_transaction
validate_routine_transaction_lem_example =
    validate_routine_transaction_lem codec sum validated envelope_fields 1 vault limits codec-IsAbi
      (refl, (refl, tt)) 4 plan-IsSafe
