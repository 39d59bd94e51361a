-- ===== src/Transaction/Calldata/RoundTrip.antt =====
-- The decoder of src/transaction/decoder.rs reads back what src/transaction/encoder.rs wrote.
use rbot_v.Prelude.{
  ℕ, ◌<◌, ◌≡◌, refl, sym, ap, ◌∙◌, Bool, true, false, some, ok, ◌==◌, ==_iff, List, [], ◌∷◌,
  is_empty, length, map, retain, find-eq-some, find_mem, All, All_mem, Memᴰ, arith,
}
use rbot_v.Transaction.Plan.{
  Bytes, MarketParams, V2Action, deallocate, allocate, fields, is_allocation, PositionConfig,
  VaultConfig, AdapterCall, Abi, same_bytes, same_bytes_refl,
}
use rbot_v.Transaction.Firewall.{encode_adapter_data}
use rbot_v.Transaction.Firewall.Actions.{IsPermitted, through_liquidity, through_position}
use rbot_v.Transaction.Calldata.{
  selector_of, canonical, liquidity_match, encode_action, encode_calls, decode_arguments,
  matches_call, resolve_position, resolve, decode_action, decode_inner, decode_multi,
  decode_routine_calldata,
}
use rbot_v.Transaction.Calldata.Codec.{
  IsAbi, own_call, IsUnambiguous, call_of, liquidity_match_for, no_liquidity_match, rebuilt,
}

positive_lem : (n : ℕ) → 0 < n → (n == 0) ≡ false
positive_lem n h = ground arith

module _ (abi : Abi) (law : IsAbi abi) where
  canonical_of :
      (encode : AdapterCall → Bytes) (c : AdapterCall) (b : Bool)
      → canonical (some c) encode (encode c) b ≡ ok (c, b)
  unfolding canonical
  canonical_of encode c b = rw (same_bytes_refl (encode c)) refl

  decode_arguments-encode_action :
      (s : V2Action)
      → decode_arguments abi (encode_action abi s) ≡ ok (call_of (fields s), is_allocation s)
  unfolding decode_arguments encode_action
  decode_arguments-encode_action (allocate f) =
      rw
        (
          law.allocate_selects (call_of f),
          same_bytes_refl abi.allocate_selector,
          law.allocate_decodes (call_of f),
        )
        (canonical_of abi.allocate_call (call_of f) true)
  decode_arguments-encode_action (deallocate f) =
      rw
        (
          law.deallocate_selects (call_of f),
          law.deallocate_not_allocate,
          same_bytes_refl abi.deallocate_selector,
          law.deallocate_decodes (call_of f),
        )
        (canonical_of abi.deallocate_call (call_of f) false)

  module _ (vault : VaultConfig) (unambiguous : IsUnambiguous abi vault) where
    nonempty : (p : MarketParams) → is_empty (encode_adapter_data abi p) ≡ false
    unfolding encode_adapter_data
    nonempty p = law.params_nonempty p

    alone :
        (p : PositionConfig) (adapter : ℕ) (data_bytes : Bytes) (assets : ℕ)
        → Memᴰ p vault.positions
        → p.adapter ≡ adapter
        → data_bytes ≡ encode_adapter_data abi p.market_params
        → retain
            (matches_call abi
              (record { adapter = adapter; data_bytes = data_bytes; assets = assets }))
            vault.positions
          ≡ p ∷ []
    unfolding matches_call
    alone p adapter data_bytes assets mem at known =
        rw (sym at, known)
          (All_mem (λ p. retain (matches_call abi (own_call abi p)) vault.positions ≡ p ∷ []) p
            vault.positions unambiguous mem)

    resolve-IsPermitted :
        (s : V2Action)
        → IsPermitted abi vault s
        → resolve abi vault
            (call_of (fields s))
            (is_allocation s)
            (liquidity_match vault.liquidity_adapter (call_of (fields s)))
          ≡ ok s
    unfolding resolve resolve_position
    resolve-IsPermitted s (through_liquidity configured found at empty _) =
        let (matched, key) =
          liquidity_match_for vault.liquidity_adapter (fields s) configured found at empty in
        rw matched
          (ap ok (rebuilt s configured.position_key configured.address [] key at (sym empty)))
    resolve-IsPermitted s (through_position configured free found at known _ _) =
        let same_key = λ (p : PositionConfig). p.position_key == (fields s).position in
        let mem = find_mem same_key vault.positions configured found in
        let key =
          (==_iff configured.position_key (fields s).position).0
            (find-eq-some same_key vault.positions configured found) in
        rw
          (
            no_liquidity_match vault.liquidity_adapter (call_of (fields s))
                (ap is_empty known ∙ nonempty configured.market_params),
            alone configured (fields s).adapter (fields s).data_bytes (fields s).requested_assets
                mem at known,
          )
          (ap ok (
            rebuilt s configured.position_key configured.adapter (fields s).data_bytes key at refl))

    decode_action-encode_action :
        (s : V2Action)
        → 0 < (fields s).requested_assets
        → IsPermitted abi vault s
        → decode_action abi vault (encode_action abi s) ≡ ok s
    unfolding decode_action
    decode_action-encode_action s positive p =
        rw (decode_arguments-encode_action s)
          (rw (positive_lem (fields s).requested_assets positive) (resolve-IsPermitted s p))

    inner_selector :
        (s : V2Action)
        → (value : Bytes) × (selector_of (encode_action abi s) ≡ ok value)
          × (same_bytes value abi.multicall_selector ≡ false)
    unfolding encode_action
    inner_selector (allocate f) =
        (abi.allocate_selector, law.allocate_selects (call_of f), law.allocate_not_multicall)
    inner_selector (deallocate f) =
        (abi.deallocate_selector, law.deallocate_selects (call_of f), law.deallocate_not_multicall)

    decode_inner-encode_action :
        (steps : List V2Action)
        → All (λ s. (0 < (fields s).requested_assets) × IsPermitted abi vault s) steps
        → decode_inner abi vault (map (encode_action abi) steps) ≡ ok steps
    unfolding decode_inner
    decode_inner-encode_action [] p = refl
    decode_inner-encode_action (s ∷ steps) ((positive, p), ps) =
        let (value, selected, other) = inner_selector s in
        rw selected (
          rw (other, decode_action-encode_action s positive p, decode_inner-encode_action steps ps)
            refl)

    -- The calldata of permitted actions, in a single call or in several, decodes to these actions.
    pub decode-encode :
        (keccak : Bytes → ℕ) (steps : List V2Action)
        → 0 < length steps
        → All (λ s. (0 < (fields s).requested_assets) × IsPermitted abi vault s) steps
        → decode_routine_calldata abi keccak
            (encode_calls abi (map (encode_action abi) steps))
            vault
          ≡ ok (record {
            actions = steps;
            calldata_hash = keccak (encode_calls abi (map (encode_action abi) steps));
          })
    unfolding decode_routine_calldata decode_multi encode_calls
    decode-encode keccak [] size p = absurd (omega (arith, size))
    decode-encode keccak (s ∷ []) size ((positive, p), _) =
        let (value, selected, other) = inner_selector s in
        rw selected (rw (other, decode_action-encode_action s positive p) refl)
    decode-encode keccak (s ∷ t ∷ steps) size p =
        let calls = map (encode_action abi) (s ∷ t ∷ steps) in
        rw
          (
            law.multicall_selects calls,
            same_bytes_refl abi.multicall_selector,
            law.multicall_decodes calls,
            same_bytes_refl (abi.multicall_call calls),
            decode_inner-encode_action (s ∷ t ∷ steps) p,
          )
          refl
