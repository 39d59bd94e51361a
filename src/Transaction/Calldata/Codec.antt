-- ===== src/Transaction/Calldata/Codec.antt =====
-- What the round trip of src/transaction/encoder.rs and src/transaction/decoder.rs needs of the ABI
-- codec and of a vault, and how a call finds its target.
use rbot_v.Prelude.{
  ℕ, ◌≡◌, refl, ap, ◌∙◌, Bool, true, false, ◌&&◌, Option, none, some, ok, ◌==◌, List, [], ◌∷◌,
  is_empty, retain, some_injective, All, if◌then◌else◌, arith,
}
use mathlib.Core.Path.{subst}
use rbot_v.Transaction.Plan.{
  Bytes, MarketParams, ActionFields, V2Action, deallocate, allocate, fields, is_allocation,
  LiquidityAdapterConfig, PositionConfig, VaultConfig, AdapterCall, Abi, same_bytes,
}
use rbot_v.Transaction.Firewall.{encode_adapter_data, liquidity_for}
use rbot_v.Transaction.Calldata.{selector_of, action_of, liquidity_match, matches_call}

-- What the generated bindings promise: each call decodes to its own arguments and starts with its
-- own selector, the selectors differ, and encoded parameters are not empty.
pub record IsAbi (abi : Abi) : Type 0 where
  pub allocate_decodes : (c : AdapterCall) → abi.decode_allocate (abi.allocate_call c) ≡ some c
  pub deallocate_decodes :
      (c : AdapterCall) → abi.decode_deallocate (abi.deallocate_call c) ≡ some c
  pub multicall_decodes : (cs : List Bytes) → abi.decode_multicall (abi.multicall_call cs) ≡ some cs
  pub allocate_selects :
      (c : AdapterCall) → selector_of (abi.allocate_call c) ≡ ok abi.allocate_selector
  pub deallocate_selects :
      (c : AdapterCall) → selector_of (abi.deallocate_call c) ≡ ok abi.deallocate_selector
  pub multicall_selects :
      (cs : List Bytes) → selector_of (abi.multicall_call cs) ≡ ok abi.multicall_selector
  pub allocate_not_multicall : same_bytes abi.allocate_selector abi.multicall_selector ≡ false
  pub deallocate_not_multicall : same_bytes abi.deallocate_selector abi.multicall_selector ≡ false
  pub deallocate_not_allocate : same_bytes abi.deallocate_selector abi.allocate_selector ≡ false
  pub params_nonempty : (p : MarketParams) → is_empty (abi.market_params p) ≡ false

-- The call that a position's own actions make.
abbrev pub own_call : Abi → PositionConfig → AdapterCall
own_call abi p = record {
  adapter = p.adapter;
  data_bytes = encode_adapter_data abi p.market_params;
  assets = 0;
}

-- No two positions of a vault have the same adapter and market: a position's call matches it alone.
abbrev pub IsUnambiguous : Abi → VaultConfig → Type 0
IsUnambiguous abi vault =
    All (λ p. retain (matches_call abi (own_call abi p)) vault.positions ≡ p ∷ []) vault.positions

abbrev pub call_of : ActionFields → AdapterCall
call_of f = record { adapter = f.adapter; data_bytes = f.data_bytes; assets = f.requested_assets }

pub liquidity_match_for :
    (o : Option LiquidityAdapterConfig) (f : ActionFields) (configured : LiquidityAdapterConfig)
    → liquidity_for o f.position ≡ some configured
    → configured.address ≡ f.adapter
    → f.data_bytes ≡ []
    → (liquidity_match o (call_of f) ≡ some configured) × (configured.position_key ≡ f.position)
unfolding liquidity_for liquidity_match
liquidity_match_for none f configured h at empty = cc
liquidity_match_for (some l) f configured h at empty = go (l.position_key == f.position) refl h
  where
    matched :
        l.address ≡ f.adapter
        → (l.position_key == f.position) ≡ true
        → ((if l.address == f.adapter && is_empty f.data_bytes then some l else none) ≡ some l)
          × (l.position_key ≡ f.position)
    matched at e = rw empty (ground arith)

    go :
        (b : Bool)
        → (l.position_key == f.position) ≡ b
        → (if b then some l else none) ≡ some configured
        → ((if l.address == f.adapter && is_empty f.data_bytes then some l else none)
            ≡ some configured)
          × (configured.position_key ≡ f.position)
    go true e k =
        subst
          (λ c.
            ((if l.address == f.adapter && is_empty f.data_bytes then some l else none) ≡ some c)
            × (c.position_key ≡ f.position))
          (some_injective k) (matched (ap LiquidityAdapterConfig.address (some_injective k) ∙ at) e)
    go false e k = cc

pub no_liquidity_match :
    (o : Option LiquidityAdapterConfig) (call : AdapterCall)
    → is_empty call.data_bytes ≡ false
    → liquidity_match o call ≡ none
unfolding liquidity_match
no_liquidity_match none call h = refl
no_liquidity_match (some l) call h = ground arith

pub rebuilt :
    (s : V2Action) (position adapter : ℕ) (data_bytes : Bytes)
    → position ≡ (fields s).position
    → adapter ≡ (fields s).adapter
    → data_bytes ≡ (fields s).data_bytes
    → action_of (is_allocation s) (record {
      position = position;
      adapter = adapter;
      data_bytes = data_bytes;
      requested_assets = (fields s).requested_assets;
    })
      ≡ s
rebuilt (allocate f) position adapter data_bytes e a d = rw (e, a, d) refl
rebuilt (deallocate f) position adapter data_bytes e a d = rw (e, a, d) refl
