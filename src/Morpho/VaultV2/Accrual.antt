-- ===== src/Morpho/VaultV2/Accrual.antt =====
-- What the accrual view of src/morpho/vault_v2.rs may report.
use rbot_v.Prelude.{
  ℕ, ◌+◌, ◌-◌, ◌*◌, ◌≤◌, ◌≡◌, List, [], ◌∷◌, sum, ok, ok_or, and_then, map_err, fail_if, ltb, min,
  arith, returns, ensured, step,
}
use rbot_v.Prelude.Words.{checked_add, checked_sub, checked_mul, saturating_sub}
use rbot_v.Prelude.Checked.{add_ok, add_ok_twice, sub_ok, mul_ok, map_err_ok}
use rbot_v.Domain.{overflow, arithmetic, timestamp_regression, invariant, ParentVaultState}
use rbot_v.Morpho.BlueMath.{wad, mul_div_down}
use rbot_v.Morpho.BlueMath.Rounding.{mul_div_down-le}
use rbot_v.Morpho.VaultV2.{
  ParentAccrualResult, add_real_assets, performance_fee_assets, management_fee_assets,
  accrue_parent_view,
}

add_real_assets-eq_sum :
    (total : ℕ) (adapters : List ℕ) (r : ℕ)
    → add_real_assets total adapters ≡ ok r
    → r ≡ total + sum adapters
unfolding add_real_assets
add_real_assets-eq_sum t [] r h = ground arith
add_real_assets-eq_sum t (a ∷ rest) r h = ground (arith, add_real_assets-eq_sum (t + a) rest r)

-- What the view may report of a vault and its adapters' values at a time.
pub record Reports (parent : ParentVaultState) (adapters : List ℕ) (timestamp : ℕ)
    (r : ParentAccrualResult) : Type 0 where
  pub backed : r.total_assets ≤ parent.idle_assets + sum adapters
  pub rate_limited :
      r.total_assets * wad
      ≤ parent.stored_total_assets * wad
        + parent.stored_total_assets * (timestamp - parent.last_update) * parent.max_rate
  pub supply_grows :
      r.projected_total_supply
      ≡ parent.total_supply + r.performance_fee_shares + r.management_fee_shares

rate_limited_of :
    (v : ParentVaultState) (t e p g m total : ℕ)
    → e + v.last_update ≡ t
    → p ≡ v.stored_total_assets * e
    → mul_div_down p v.max_rate wad ≡ ok g
    → m ≡ v.stored_total_assets + g
    → total ≤ m
    → total * wad
      ≤ v.stored_total_assets * wad + v.stored_total_assets * (t - v.last_update) * v.max_rate
rate_limited_of v t e p g m total he hp hg hm le =
    let same : t - v.last_update ≡ e = omega arith in
    rw (same, ← hp) (omega (arith, mul_div_down-le p v.max_rate wad g hg))

min_le : (a b : ℕ) → (min a b ≤ a) × (min a b ≤ b)
min_le a b = ground arith

-- A successful view never reports more assets than the vault and its adapters hold, nor more
-- growth than the maximum rate allows over the elapsed time, and its share supply grows by
-- exactly the two fee mints.
pub accrue_parent_view-Reports :
    (parent : ParentVaultState) (adapters : List ℕ) (timestamp : ℕ) (r : ParentAccrualResult)
    → accrue_parent_view parent adapters timestamp ≡ ok r
    → Reports parent adapters timestamp r
unfolding accrue_parent_view
accrue_parent_view-Reports parent adapters timestamp r =
    ensured (Reports parent adapters timestamp) (
      step _ (fail_if (ltb timestamp parent.last_update) timestamp_regression) λ _ _.
        step _ (add_real_assets parent.idle_assets adapters) λ real hr.
          step _ (ok_or (checked_sub timestamp parent.last_update) timestamp_regression)
            λ elapsed he.
              step _ (ok_or (checked_mul parent.stored_total_assets elapsed) (arithmetic overflow))
                λ grown hg.
                  step _ (map_err arithmetic (mul_div_down grown parent.max_rate wad)) λ growth hq.
                    step _
                      (ok_or (checked_add parent.stored_total_assets growth) (arithmetic overflow))
                      λ most hm.
                        let total = min real most in
                        let interest = saturating_sub total parent.stored_total_assets in
                        step _ (performance_fee_assets parent interest) λ performance _.
                          step _ (management_fee_assets parent elapsed total) λ management _.
                            step _
                              (ok_or
                                (and_then (checked_sub total performance)
                                  (λ value. checked_sub value management))
                                invariant)
                              λ net _.
                                step _ (ok_or (checked_add net 1) (arithmetic overflow))
                                  λ denominator _.
                                    step _
                                      (ok_or (checked_add parent.total_supply parent.virtual_shares)
                                        (arithmetic overflow))
                                      λ shares _.
                                        step _
                                          (map_err arithmetic
                                            (mul_div_down performance shares denominator))
                                          λ performance_shares _.
                                            step _
                                              (map_err arithmetic
                                                (mul_div_down management shares denominator))
                                              λ management_shares _.
                                                step _
                                                  (ok_or
                                                    (and_then
                                                      (checked_add parent.total_supply
                                                        performance_shares)
                                                      (λ value.
                                                        checked_add value management_shares))
                                                    (arithmetic overflow))
                                                  λ supply hs. returns (record {
                                                    backed = omega (
                                                      arith,
                                                      min_le real most,
                                                      add_real_assets-eq_sum parent.idle_assets
                                                          adapters real hr,
                                                    );
                                                    rate_limited =
                                                        rate_limited_of parent timestamp elapsed
                                                          grown growth most total
                                                          (sub_ok _ timestamp parent.last_update
                                                            elapsed he)
                                                          (mul_ok _ parent.stored_total_assets
                                                            elapsed grown hg)
                                                          (map_err_ok arithmetic
                                                            (mul_div_down grown parent.max_rate wad)
                                                            growth hq)
                                                          (add_ok _ parent.stored_total_assets
                                                            growth most hm).0
                                                          (min_le real most).1;
                                                    supply_grows =
                                                        add_ok_twice _ parent.total_supply
                                                          performance_shares management_shares
                                                          supply hs;
                                                  }))
