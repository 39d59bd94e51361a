-- ===== src/State/Attribution.antt =====
-- The ordered idle-flow attribution of src/state/attribution.rs.
use rbot_v.Prelude.{
  ℕ, ◌+◌, Bool, false, not, Option, none, some, List, [], ◌∷◌, Result, ok, err, ◌>>=◌, ◌>>◌, ok_or,
  fail_if, and_then, ◌≡◌, ◌⊎◌, returns, ensured, step, leb, ◌==◌, arith, if◌then◌else◌,
}
use rbot_v.Prelude.Words.{checked_add, checked_sub, saturating_sub}

-- `FlowOrigin` of src/chain/logs.rs.
pub data FlowOrigin : Type 0 where
  bot_rebalance vault_user_deposit vault_user_withdrawal : FlowOrigin
  vault_user_force_deallocate approved_external_allocator : FlowOrigin
  unknown_external_allocator sentinel_deallocation : FlowOrigin
  curator_administration owner_administration morpho_external_user : FlowOrigin
  direct_donation liquidation_or_bad_debt unknown_origin : FlowOrigin

pub record OrderedAssetFlow : Type 0 where
  pub log_index : ℕ
  pub assets : ℕ

pub record OrderedTransactionFlow : Type 0 where
  pub block_number : ℕ
  pub transaction_index : ℕ
  pub transaction_hash : ℕ
  pub sender : ℕ
  pub origin : FlowOrigin
  pub inflows : List OrderedAssetFlow
  pub outflows : List OrderedAssetFlow
  pub preauthorized_redeploy : Bool

pub record TransactionIdleEffect : Type 0 where
  pub pre_idle : ℕ
  pub post_idle : ℕ
  pub inflow_assets : ℕ
  pub outflow_assets : ℕ
  pub net_created_assets : ℕ
  pub net_consumed_assets : ℕ

pub data AttributionError : Type 0 where
  non_canonical_flows overflow exact_balance_mismatch : AttributionError

abbrev not_before : Option ℕ → ℕ → Bool
not_before none _ = false
not_before (some index) i = leb i index

-- The loop of `sum_ordered`, with its two variables as arguments.
unfoldable pub sum_from : Option ℕ → ℕ → List OrderedAssetFlow → Result AttributionError ℕ
sum_from previous total [] = ok total
sum_from previous total (flow ∷ flows) =
    if not_before previous flow.log_index
    then err non_canonical_flows
    else ok_or (checked_add total flow.assets) overflow >>= λ next.
        sum_from (some flow.log_index) next flows

unfoldable pub sum_ordered : List OrderedAssetFlow → Result AttributionError ℕ
sum_ordered flows = sum_from none 0 flows

unfoldable pub attribute_idle_effect :
    OrderedTransactionFlow → ℕ → ℕ → Result AttributionError TransactionIdleEffect
attribute_idle_effect transaction pre_idle exact_post_idle = do
  inflow_assets ← sum_ordered transaction.inflows
  outflow_assets ← sum_ordered transaction.outflows
  computed_post ←
      ok_or
        (and_then (checked_add pre_idle inflow_assets) (λ value. checked_sub value outflow_assets))
        overflow
  fail_if (not (computed_post == exact_post_idle)) exact_balance_mismatch
  ok (record {
    pre_idle = pre_idle;
    post_idle = exact_post_idle;
    inflow_assets = inflow_assets;
    outflow_assets = outflow_assets;
    net_created_assets = saturating_sub exact_post_idle pre_idle;
    net_consumed_assets = saturating_sub pre_idle exact_post_idle;
  })

-- The plain sum of the flows.
pub total_of : List OrderedAssetFlow → ℕ
total_of [] = 0
total_of (flow ∷ flows) = flow.assets + total_of flows

-- The flows come in strictly increasing log order, after an index where one is given.
pub IsOrderedAfter : Option ℕ → List OrderedAssetFlow → Type 0
IsOrderedAfter previous [] = Unit
IsOrderedAfter previous (flow ∷ flows) =
    (not_before previous flow.log_index ≡ false) × IsOrderedAfter (some flow.log_index) flows

sum_from_lem :
    (previous : Option ℕ) (total : ℕ) (flows : List OrderedAssetFlow) (r : ℕ)
    → sum_from previous total flows ≡ ok r
    → (r ≡ total + total_of flows) × IsOrderedAfter previous flows
unfolding sum_from total_of IsOrderedAfter
sum_from_lem previous total [] r h = ground arith
sum_from_lem previous total (flow ∷ flows) r h =
    ground (arith, sum_from_lem (some flow.log_index) (total + flow.assets) flows r)

-- A sum that is returned is the plain sum, of flows in strictly increasing log order.
pub sum_ordered_lem :
    (flows : List OrderedAssetFlow) (r : ℕ)
    → sum_ordered flows ≡ ok r
    → (r ≡ total_of flows) × IsOrderedAfter none flows
unfolding sum_ordered
sum_ordered_lem flows r h = ground (arith, sum_from_lem none 0 flows r h)

-- What an attributed effect says of a transaction.
pub record Attributes (t : OrderedTransactionFlow) (pre post : ℕ) (e : TransactionIdleEffect)
    : Type 0 where
  pub balance : pre + total_of t.inflows ≡ post + total_of t.outflows
  pub net : post + e.net_consumed_assets ≡ pre + e.net_created_assets
  pub exclusive : (e.net_created_assets ≡ 0) ⊎ (e.net_consumed_assets ≡ 0)
  pub inflows_ordered : IsOrderedAfter none t.inflows
  pub outflows_ordered : IsOrderedAfter none t.outflows

-- An attributed effect balances: the flows account for the exact change of the idle assets, they
-- come in strict log order, and the net effect is a creation or a consumption, never both.
pub attribute_idle_effect-Attributes :
    (t : OrderedTransactionFlow) (pre post : ℕ) (e : TransactionIdleEffect)
    → attribute_idle_effect t pre post ≡ ok e
    → Attributes t pre post e
unfolding attribute_idle_effect
attribute_idle_effect-Attributes t pre post e = ensured (Attributes t pre post) (
    step _ (sum_ordered t.inflows) λ i summed_in. step _ (sum_ordered t.outflows) λ o summed_out.
      step _ (ok_or (and_then (checked_add pre i) (λ value. checked_sub value o)) overflow)
        λ computed balanced.
          step _ (fail_if (not (computed == post)) exact_balance_mismatch) λ _ exact. returns (
            attributed i o computed (sum_ordered_lem t.inflows i summed_in)
              (sum_ordered_lem t.outflows o summed_out) balanced (ground arith)))
  where
    attributed :
        (i o computed : ℕ)
        → (i ≡ total_of t.inflows) × IsOrderedAfter none t.inflows
        → (o ≡ total_of t.outflows) × IsOrderedAfter none t.outflows
        → ok_or (and_then (checked_add pre i) (λ value. checked_sub value o)) overflow ≡ ok computed
        → computed ≡ post
        → Attributes t pre post (record {
          pre_idle = pre;
          post_idle = post;
          inflow_assets = i;
          outflow_assets = o;
          net_created_assets = saturating_sub post pre;
          net_consumed_assets = saturating_sub pre post;
        })
    attributed i o computed (si, oi) (so, oo) balanced exact = record {
      balance = ground arith;
      net = omega arith;
      exclusive = ground arith;
      inflows_ordered = oi;
      outflows_ordered = oo;
    }
