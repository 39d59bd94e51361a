-- ===== src/Transaction/Fees.antt =====
-- The gas headroom and the EIP-1559 fee policy of src/transaction/fees.rs.
use rbot_v.Prelude.{
  ℕ, ◌+◌, ◌*◌, ◌≤◌, ◌<◌, ◌||◌, ◌≡◌, Result, ok, ◌>>=◌, ◌>>◌, ok_or, map_err, fail_if, ensured, step,
  returns, ◌-◌, ◌/◌, min, ltb, leb, ◌==◌, arith,
}
use rbot_v.Prelude.Words.{
  u64_limit, u128_limit, u256_limit, fits, checked_add_u64, checked_sub, checked_mul,
}
use rbot_v.Prelude.Checked.{map_err_ok}
use rbot_v.Morpho.BlueMath.{mul_div_up}
use rbot_v.Morpho.BlueMath.Rounding.{mul_div_up_inv}

pub data FeeError : Type 0 where
  arithmetic bound replacement_error : FeeError

unfoldable pub signed_gas_limit : ℕ → ℕ → ℕ → Result FeeError ℕ
signed_gas_limit estimate headroom_bps maximum = do
  multiplier ← ok_or (checked_add_u64 10000 headroom_bps) arithmetic
  wide ← map_err (λ _. arithmetic) (mul_div_up estimate multiplier 10000)
  value ← ok_or (fits u64_limit wide) bound
  fail_if (value == 0 || ltb maximum value) bound
  ok value

unfoldable pub initial_fee_quote : ℕ → ℕ → ℕ → Result FeeError (ℕ × ℕ)
initial_fee_quote quoted_gas_price quoted_priority_fee configured_maximum = do
  fail_if
      (quoted_gas_price == 0 || leb configured_maximum 1 || leb configured_maximum quoted_gas_price)
      bound
  maximum_initial ← ok_or (checked_sub configured_maximum 1) arithmetic
  doubled ← ok_or (checked_mul quoted_gas_price 2) arithmetic
  maximum_fee ← ok_or (fits u128_limit (min doubled maximum_initial)) bound
  priority_fee ← ok_or (fits u128_limit (min quoted_priority_fee maximum_fee)) bound
  ok (maximum_fee, priority_fee)

unfoldable pub validate_replacement_fees : ℕ → ℕ → ℕ → ℕ → ℕ → Result FeeError (Unit {0})
validate_replacement_fees old_maximum old_priority new_maximum new_priority configured_maximum = do
  fail_if
      (leb new_maximum old_maximum || leb new_priority old_priority || ltb new_maximum new_priority)
      replacement_error
  fail_if (ltb configured_maximum new_maximum) bound

module _ (estimate bps maximum : ℕ) where
  -- The gas limit that is signed covers the estimate with its headroom, exceeds it by less than
  -- one unit of gas, is not zero, and is within the configured bound.
  pub signed_gas_limit_lem :
      (v : ℕ)
      → signed_gas_limit estimate bps maximum ≡ ok v
      → (estimate * (10000 + bps) ≤ v * 10000)
        × (v * 10000 < estimate * (10000 + bps) + 10000)
        × (0 < v)
        × (v ≤ maximum)
  unfolding signed_gas_limit
  signed_gas_limit_lem v =
      ensured
        (λ v.
          (estimate * (10000 + bps) ≤ v * 10000)
          × (v * 10000 < estimate * (10000 + bps) + 10000)
          × (0 < v)
          × (v ≤ maximum))
        (step _ (ok_or (checked_add_u64 10000 bps) arithmetic) λ multiplier plus.
          step _ (map_err (λ _. arithmetic) (mul_div_up estimate multiplier 10000)) λ wide up.
            step _ (ok_or (fits u64_limit wide) bound) λ value narrow.
              step _ (fail_if (value == 0 || ltb maximum value) bound) λ _ in_range. returns (
                rounded multiplier wide value plus
                  (mul_div_up_inv estimate multiplier 10000 wide (map_err_ok _ _ wide up)) narrow
                  in_range))
    where
      rounded :
          (multiplier wide value : ℕ)
          → ok_or (checked_add_u64 10000 bps) arithmetic ≡ ok multiplier
          → (0 < 10000)
            × (estimate * multiplier < u256_limit)
            × (wide ≡ (estimate * multiplier + (10000 - 1)) / 10000)
          → ok_or (fits u64_limit wide) bound ≡ ok value
          → {u : Unit {0}} → fail_if (value == 0 || ltb maximum value) bound ≡ ok u
          → (estimate * (10000 + bps) ≤ value * 10000)
            × (value * 10000 < estimate * (10000 + bps) + 10000)
            × (0 < value)
            × (value ≤ maximum)
      rounded multiplier wide value plus up narrow in_range = ground arith

-- An initial quote is at least the provider's price, at most twice it, stays under the ceiling by
-- one unit at least, and never pays more priority than its total.
initial_fee_quote_lem :
    (price priority ceiling m p : ℕ)
    → initial_fee_quote price priority ceiling ≡ ok (m, p)
    → (price ≤ m) × (m ≤ price * 2) × (m < ceiling) × (p ≤ m) × (p ≤ priority)
unfolding initial_fee_quote
initial_fee_quote_lem price priority ceiling m p h = ground arith

-- After an initial quote one replacement is always possible: where the raised fee fits 128 bits,
-- raising both fees by one unit is accepted under the same ceiling.
pub initial_fee_quote-validate_replacement_fees :
    (price priority ceiling m p : ℕ)
    → initial_fee_quote price priority ceiling ≡ ok (m, p)
    → m + 1 < u128_limit
    → validate_replacement_fees m p (m + 1) (p + 1) ceiling ≡ ok tt
unfolding validate_replacement_fees
initial_fee_quote-validate_replacement_fees price priority ceiling m p h fits_u128 =
    ground (arith, initial_fee_quote_lem price priority ceiling m p h)

-- A chain of accepted replacements raises both fees at each step and never passes the ceiling.
validate_replacement_fees_trans :
    (m p m' p' m'' p'' ceiling : ℕ)
    → validate_replacement_fees m p m' p' ceiling ≡ ok tt
    → validate_replacement_fees m' p' m'' p'' ceiling ≡ ok tt
    → (validate_replacement_fees m p m'' p'' ceiling ≡ ok tt) × (m + 1 < m'') × (m'' ≤ ceiling)
unfolding validate_replacement_fees
validate_replacement_fees_trans m p m' p' m'' p'' ceiling h k = ground arith
