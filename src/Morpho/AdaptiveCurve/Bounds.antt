-- ===== src/Morpho/AdaptiveCurve/Bounds.antt =====
-- The bounds of the curve of src/morpho/adaptive_curve.rs at any utilization that it accepts.
use native.Mathlib.Nat.{mul-le-mul_right}
use rbot_v.Prelude.{ℕ, suc, ◌+◌, ◌-◌, ◌*◌, ◌/◌, ◌≤◌, ◌≡◌, ap, ok, arith, >>=-eq-ok}
use rbot_v.Prelude.Int.{ℤ, pos, negsuc, pos_part, neg_part}
use rbot_v.Morpho.BlueMath.{wad}
use rbot_v.Morpho.AdaptiveCurve.{
  positive, unsigned, w_mul_to_zero, w_div_to_zero, normalized_error, curve, curve_steepness,
  adaptive_curve_spot_rate,
}

-- The normalised error lies between -1 and 1 in WAD units.
pub normalized_error_bounds :
    (utilization : ℕ) (e : ℤ)
    → normalized_error utilization ≡ ok e
    → (pos_part e ≤ wad) × (neg_part e ≤ wad)
unfolding normalized_error positive w_div_to_zero
normalized_error_bounds u e h = ground arith

w_mul-pos :
    (a b : ℕ) (v : ℤ)
    → w_mul_to_zero (pos a) (pos b) ≡ ok v
    → (neg_part v ≡ 0) × (pos_part v ≡ a * b / wad)
unfolding w_mul_to_zero
w_mul-pos a b v h = ground arith

w_mul-negsuc :
    (a b : ℕ) (v : ℤ)
    → w_mul_to_zero (pos a) (negsuc b) ≡ ok v
    → (pos_part v ≡ 0) × (neg_part v ≡ a * suc b / wad)
unfolding w_mul_to_zero
w_mul-negsuc a b v h = ground arith

scale_bounds :
    (f r : ℕ) → wad ≤ 4 * f → f ≤ 4 * wad → (f * r / wad ≤ 4 * r) × (r ≤ 4 * (f * r / wad) + 4)
scale_bounds f r lo hi = omega (arith, mul-le-mul_right r lo, mul-le-mul_right r hi)

-- The curve multiplies by a factor `f` in WAD units, from a quarter up to four.
curve-factor_pos :
    (r e : ℕ) (v : ℤ)
    → e ≤ wad
    → curve (pos r) (pos e) ≡ ok v
    → (f : ℕ) × (wad ≤ 4 * f) × (f ≤ 4 * wad) × (w_mul_to_zero (pos f) (pos r) ≡ ok v)
unfolding curve
curve-factor_pos r e v le h =
    (3 * wad * e / wad + wad, omega arith, omega arith, grind (arith, w_mul-pos))

inverse_steepness :
    (v : ℤ) → w_div_to_zero (pos wad) (pos curve_steepness) ≡ ok v → v ≡ pos 250_000_000_000_000_000
unfolding w_div_to_zero
inverse_steepness v h = ground arith

curve-factor_negsuc :
    (r e : ℕ) (v : ℤ)
    → suc e ≤ wad
    → curve (pos r) (negsuc e) ≡ ok v
    → (f : ℕ) × (wad ≤ 4 * f) × (f ≤ 4 * wad) × (w_mul_to_zero (pos f) (pos r) ≡ ok v)
unfolding curve
curve-factor_negsuc r e v le h = (
  wad - 750_000_000_000_000_000 * suc e / wad,
  omega arith,
  omega arith,
  grind (arith, inverse_steepness, w_mul-negsuc),
)

of_factor :
    (f r : ℕ) (v : ℤ)
    → wad ≤ 4 * f
    → f ≤ 4 * wad
    → w_mul_to_zero (pos f) (pos r) ≡ ok v
    → (neg_part v ≡ 0) × (pos_part v ≤ 4 * r) × (r ≤ 4 * pos_part v + 4)
of_factor f r v lo hi h = omega (arith, w_mul-pos f r v h, scale_bounds f r lo hi)

curve_bounds :
    (r : ℕ) (e v : ℤ)
    → pos_part e ≤ wad
    → neg_part e ≤ wad
    → curve (pos r) e ≡ ok v
    → (neg_part v ≡ 0) × (pos_part v ≤ 4 * r) × (r ≤ 4 * pos_part v + 4)
curve_bounds r (pos e) v p n h =
    let (f, lo, hi, g) = curve-factor_pos r e v p h in of_factor f r v lo hi g
curve_bounds r (negsuc e) v p n h =
    let (f, lo, hi, g) = curve-factor_negsuc r e v n h in of_factor f r v lo hi g

positive_inv : (n : ℕ) (v : ℤ) → positive n ≡ ok v → v ≡ pos n
unfolding positive
positive_inv n v h = ground arith

unsigned_inv : (v : ℤ) (n : ℕ) → unsigned v ≡ ok n → v ≡ pos n
unfolding unsigned
unsigned_inv v n h = ground arith

spot_rate_inv :
    (u t r : ℕ)
    → adaptive_curve_spot_rate u t ≡ ok r
    → (e : ℤ) × (v : ℤ) × (normalized_error u ≡ ok e) × (curve (pos t) e ≡ ok v) × (v ≡ pos r)
unfolding adaptive_curve_spot_rate
spot_rate_inv u t r h =
    let (rate, ht, k) = >>=-eq-ok (positive t) _ h in
    let (e, he, l) = >>=-eq-ok (normalized_error u) _ k in
    let (v, hv, m) = >>=-eq-ok (curve rate e) _ l in
    (e, v, he, rw (← positive_inv t rate ht) hv, unsigned_inv v r m)

-- Wherever the spot rate is computed it lies between a quarter of the target rate, less the
-- rounding, and four times the target rate.
pub spot_rate_bounds :
    (utilization rate_at_target rate : ℕ)
    → adaptive_curve_spot_rate utilization rate_at_target ≡ ok rate
    → (rate ≤ 4 * rate_at_target) × (rate_at_target ≤ 4 * rate + 4)
spot_rate_bounds u t r h =
    let (e, v, he, hv, k) = spot_rate_inv u t r h in
    let (p, n) = normalized_error_bounds u e he in
    let (_, above, below) = curve_bounds t e v p n hv in
    let same : pos_part v ≡ r = ap pos_part k in omega arith
