-- ===== src/Morpho/AdaptiveCurve.antt =====
-- src/morpho/adaptive_curve.rs: the Adaptive Curve interest-rate model over `I256`. The shifts of
-- `I256` are library code, so they are the parameter `Shifts`.
pub mod Bounds
pub mod Targets
use rbot_v.Prelude.{
  ℕ, Option, Result, ok, err, ok_or, and_then, map_err, ◌>>=◌, ltb, ◌==◌, if◌then◌else◌,
}
use rbot_v.Prelude.Words.{fits, u64_limit}
use rbot_v.Prelude.Int.{
  ℤ, pos, ltb_ℤ, is_negative, is_zero, checked_neg_i256, checked_add_i256, checked_sub_i256,
  checked_mul_i256, checked_div_i256, to_i256, to_u256, unsigned_abs, clamp_ℤ,
}
use rbot_v.Domain.{MathError, arithmetic, invariant, signed_conversion, StoredMarketState}
use rbot_v.Morpho.BlueMath.{wad, w_div_down}

abbrev pub target_utilization : ℕ
target_utilization = 900_000_000_000_000_000

abbrev pub initial_rate_at_target : ℕ
initial_rate_at_target = 1_268_391_679

abbrev pub min_rate_at_target : ℕ
min_rate_at_target = 31_709_791

abbrev pub max_rate_at_target : ℕ
max_rate_at_target = 63_419_583_967

abbrev pub curve_steepness : ℕ
curve_steepness = 4_000_000_000_000_000_000

abbrev pub adjustment_speed : ℕ
adjustment_speed = 1_585_489_599_188

abbrev pub ln_2 : ℕ
ln_2 = 693_147_180_559_945_309

abbrev pub ln_wei_abs : ℕ
ln_wei_abs = 41446531673892822312

abbrev pub wexp_upper : ℕ
wexp_upper = 93859467695000404319

abbrev pub wexp_upper_value : ℕ
wexp_upper_value = 57716089161558943949701069502944508345128422502756744429568

pub record AdaptiveCurveProjection : Type 0 where
  pub average_rate : ℕ
  pub ending_rate_at_target : ℕ

-- `I256::checked_shr` and `I256::checked_shl`.
pub record Shifts : Type 0 where
  pub checked_shr : ℤ → ℕ → Option ℤ
  pub checked_shl : ℤ → ℕ → Option ℤ

unfoldable pub positive : ℕ → Result MathError ℤ
positive value = ok_or (to_i256 value) signed_conversion

unfoldable pub unsigned : ℤ → Result MathError ℕ
unsigned value = ok_or (to_u256 value) signed_conversion

unfoldable pub checked_neg : ℤ → Result MathError ℤ
checked_neg value = ok_or (checked_neg_i256 value) invariant

unfoldable pub w_mul_to_zero : ℤ → ℤ → Result MathError ℤ
w_mul_to_zero x y =
    ok_or (and_then (checked_mul_i256 x y) (λ product. checked_div_i256 product (pos wad)))
      invariant

unfoldable pub w_div_to_zero : ℤ → ℤ → Result MathError ℤ
w_div_to_zero x y =
    ok_or (and_then (checked_mul_i256 x (pos wad)) (λ product. checked_div_i256 product y))
      invariant

unfoldable pub normalized_error : ℕ → Result MathError ℤ
normalized_error utilization = if ltb wad utilization then err invariant else do
  value ← positive utilization
  target ← positive target_utilization
  denominator ←
      (if ltb_ℤ target value
        then ok_or (checked_sub_i256 (pos wad) target) invariant
        else ok target)
  difference ← ok_or (checked_sub_i256 value target) invariant
  w_div_to_zero difference denominator

unfoldable pub curve : ℤ → ℤ → Result MathError ℤ
curve rate_at_target error = do
  let steepness = pos curve_steepness
  coefficient ←
      (if is_negative error
        then (do
          inverse ← w_div_to_zero (pos wad) steepness
          ok_or (checked_sub_i256 (pos wad) inverse) invariant)
        else ok_or (checked_sub_i256 steepness (pos wad)) invariant)
  scaled ← w_mul_to_zero coefficient error
  factor ← ok_or (checked_add_i256 scaled (pos wad)) invariant
  w_mul_to_zero factor rate_at_target

unfoldable pub adaptive_curve_spot_rate : ℕ → ℕ → Result MathError ℕ
adaptive_curve_spot_rate utilization rate_at_target = do
  rate ← positive rate_at_target
  error ← normalized_error utilization
  value ← curve rate error
  unsigned value

-- Borrowed over supplied assets in WAD units; an empty market has utilization zero.
unfoldable pub utilization_of : ℕ → ℕ → Result MathError ℕ
utilization_of total_borrow_assets total_supply_assets =
    if total_supply_assets == 0
    then ok 0
    else map_err arithmetic (w_div_down total_borrow_assets total_supply_assets)

-- The weighted mean of the start, the end and twice the midpoint.
unfoldable pub average_target : ℤ → ℤ → ℤ → Result MathError ℤ
average_target start ending midpoint =
    ok_or
      (and_then
        (and_then (checked_add_i256 start ending)
          (λ value. and_then (checked_mul_i256 midpoint (pos 2)) (checked_add_i256 value)))
        (λ value. checked_div_i256 value (pos 4)))
      invariant

module _ (shifts : Shifts) where
  -- The series of `w_exp` between its two cut-offs.
  unfoldable pub exp_series : ℤ → Result MathError ℤ
  exp_series x = do
    half ← ok_or (checked_div_i256 (pos ln_2) (pos 2)) invariant
    adjustment ← (if is_negative x then checked_neg half else ok half)
    q ←
        ok_or
          (and_then (checked_add_i256 x adjustment) (λ value. checked_div_i256 value (pos ln_2)))
          invariant
    steps ← ok_or (checked_mul_i256 q (pos ln_2)) invariant
    r ← ok_or (checked_sub_i256 x steps) invariant
    square_term ←
        ok_or
          (and_then (and_then (checked_mul_i256 r r) (λ value. checked_div_i256 value (pos wad)))
            (λ value. checked_div_i256 value (pos 2)))
          invariant
    exp_r ←
        ok_or
          (and_then (checked_add_i256 (pos wad) r) (λ value. checked_add_i256 value square_term))
          invariant
    shift ← ok_or (fits u64_limit (unsigned_abs q)) invariant
    ok_or (if is_negative q then shifts.checked_shr exp_r shift else shifts.checked_shl exp_r shift)
        invariant

  unfoldable pub w_exp : ℤ → Result MathError ℤ
  w_exp x = do
    bound ← positive ln_wei_abs
    ln_wei ← checked_neg bound
    (if ltb_ℤ x ln_wei then ok (pos 0) else (do
      upper ← positive wexp_upper
      (if ltb_ℤ x upper then exp_series x else positive wexp_upper_value)))

  unfoldable pub new_rate : ℤ → ℤ → Result MathError ℤ
  new_rate start linear_adaptation = do
    factor ← w_exp linear_adaptation
    candidate ← w_mul_to_zero start factor
    lo ← positive min_rate_at_target
    hi ← positive max_rate_at_target
    ok (clamp_ℤ candidate lo hi)

  -- The average and the ending target rate once the linear adaptation is not zero.
  unfoldable pub moved_targets : ℤ → ℤ → Result MathError (ℤ × ℤ)
  moved_targets start linear = do
    ending ← new_rate start linear
    half ← ok_or (checked_div_i256 linear (pos 2)) invariant
    midpoint ← new_rate start half
    average ← average_target start ending midpoint
    ok (average, ending)

  -- The same for any market whose target has been set.
  unfoldable pub adapted_targets : ℤ → ℤ → ℕ → Result MathError (ℤ × ℤ)
  adapted_targets start error elapsed_seconds = do
    speed ← w_mul_to_zero (pos adjustment_speed) error
    elapsed ← positive elapsed_seconds
    linear ← ok_or (checked_mul_i256 speed elapsed) invariant
    (if is_zero linear then ok (start, start) else moved_targets start linear)

  -- An unset target takes the initial rate; any other adapts.
  unfoldable pub targets_of : ℤ → ℤ → ℕ → Result MathError (ℤ × ℤ)
  targets_of start error elapsed_seconds =
      if is_zero start
      then (do initial ← positive initial_rate_at_target; ok (initial, initial))
      else adapted_targets start error elapsed_seconds

  unfoldable pub adaptive_curve_borrow_rate :
      StoredMarketState → ℕ → ℕ → Result MathError AdaptiveCurveProjection
  adaptive_curve_borrow_rate market stored_rate_at_target elapsed_seconds = do
    utilization ← utilization_of market.total_borrow_assets market.total_supply_assets
    error ← normalized_error utilization
    start ← positive stored_rate_at_target
    targets ← targets_of start error elapsed_seconds
    average ← curve targets.0 error
    average_rate ← unsigned average
    ending ← unsigned targets.1
    ok (record { average_rate = average_rate; ending_rate_at_target = ending })
