-- ===== src/Morpho/BlueMath/Rounding.antt =====
-- The rounding of the fixed-point operations of src/morpho/blue_math.rs against the exact quotient.
use native.Mathlib.Decide.{dec_le}
use rbot_v.Prelude.{ℕ, ◌+◌, ◌-◌, ◌*◌, ◌/◌, ◌≤◌, ◌<◌, ◌≡◌, ◌↔◌, ◌∙◌, ap, ok, arith}
use rbot_v.Prelude.Words.{u256_limit}
use rbot_v.Morpho.BlueMath.{mul_div_down, mul_div_up}

div_floor : (p d : ℕ) → 0 < d → (p / d * d ≤ p) × (p < (p / d + 1) * d)
div_floor p d h = ground arith

div_ceil : (p d : ℕ) → 0 < d → (p ≤ (p + (d - 1)) / d * d) × ((p + (d - 1)) / d * d < p + d)
div_ceil p d h = omega (arith, div_floor (p + (d - 1)) d h)

pub mul_div_down_inv :
    (x y d q : ℕ) → mul_div_down x y d ≡ ok q → (0 < d) × (x * y < u256_limit) × (q ≡ x * y / d)
unfolding mul_div_down
mul_div_down_inv x y d q h = ground arith

pub mul_div_up_inv :
    (x y d q : ℕ)
    → mul_div_up x y d ≡ ok q
    → (0 < d) × (x * y < u256_limit) × (q ≡ (x * y + (d - 1)) / d)
unfolding mul_div_up
mul_div_up_inv x y d q h = ground arith

pub le-cancel_mul : (a b k : ℕ) → 0 < k → a * k ≤ b * k → a ≤ b
le-cancel_mul a b k h le = elim (dec_le a b) [ yes p ↦ p | no n ↦ absurd (grind arith) ]

at_most_below : (a b d n : ℕ) → a * d ≤ n → n < (b + 1) * d → a ≤ b
at_most_below a b d n h k = elim (dec_le a b) [ yes p ↦ p | no m ↦ absurd (grind arith) ]

quotient_unique : (q r n d : ℕ) → q * d ≤ n → n < (q + 1) * d → r * d ≤ n → n < (r + 1) * d → q ≡ r
quotient_unique q r n d a b c e =
    omega (arith, at_most_below q r d n a e, at_most_below r q d n c b)

down_result : (x y d : ℕ) → 0 < d → x * y < u256_limit → mul_div_down x y d ≡ ok (x * y / d)
unfolding mul_div_down
down_result x y d p fits = ground arith

up_result :
    (x y d : ℕ)
    → 0 < d
    → x * y + (d - 1) < u256_limit
    → mul_div_up x y d ≡ ok ((x * y + (d - 1)) / d)
unfolding mul_div_up
up_result x y d p fits = ground arith

up_fits : (x y d q : ℕ) → mul_div_up x y d ≡ ok q → x * y + (d - 1) < u256_limit
unfolding mul_div_up
up_fits x y d q h = ground arith

-- The exact results of both operations, each on its own. `mul_div_down` returns a number exactly
-- when the denominator is not zero, the product fits 256 bits, and the number is the largest whose
-- multiple of the denominator does not pass the product. `mul_div_up` returns a number exactly when
-- the denominator is not zero, the product with the denominator less one added fits 256 bits, and
-- the number is the smallest whose multiple of the denominator reaches the product.
pub mul_div_rounding :
    (x y d q : ℕ)
    → ((mul_div_down x y d ≡ ok q)
        ↔ ((0 < d) × (x * y < u256_limit) × (q * d ≤ x * y) × (x * y < (q + 1) * d)))
      × ((mul_div_up x y d ≡ ok q)
          ↔ ((0 < d) × (x * y + (d - 1) < u256_limit) × (x * y ≤ q * d) × (q * d < x * y + d)))
mul_div_rounding x y d q = (
  (
    λ h.
        let (p, fits, e) = mul_div_down_inv x y d q h in
        (p, fits, rw e (div_floor (x * y) d p).0, rw e (div_floor (x * y) d p).1),
    λ (p, fits, low, high).
        let (low', high') = div_floor (x * y) d p in
        down_result x y d p fits
        ∙ ap ok (quotient_unique (x * y / d) q (x * y) d low' high' low high),
  ),
  (
    λ h.
        let (p, _, e) = mul_div_up_inv x y d q h in
        (p, up_fits x y d q h, rw e (div_ceil (x * y) d p).0, rw e (div_ceil (x * y) d p).1),
    λ (p, fits, low, high).
        let (low', high') = div_floor (x * y + (d - 1)) d p in
        up_result x y d p fits
        ∙ ap ok (
            quotient_unique ((x * y + (d - 1)) / d) q (x * y + (d - 1)) d low' high' (omega arith)
              (omega arith)),
  ),
)

pub mul_div_down-le : (x y d q : ℕ) → mul_div_down x y d ≡ ok q → q * d ≤ x * y
mul_div_down-le x y d q h =
    let (p, _, e) = mul_div_down_inv x y d q h in rw e (div_floor (x * y) d p).0

pub mul_div_up-ge : (x y d q : ℕ) → mul_div_up x y d ≡ ok q → x * y ≤ q * d
mul_div_up-ge x y d q h = let (p, _, e) = mul_div_up_inv x y d q h in rw e (div_ceil (x * y) d p).0

-- A fraction of at most one takes at most the whole.
pub mul_div_down-le_left : (x y d q : ℕ) → y ≤ d → mul_div_down x y d ≡ ok q → q ≤ x
mul_div_down-le_left x y d q h e =
    let (p, _, _) = mul_div_down_inv x y d q e in
    le-cancel_mul q x d p (grind (arith, mul_div_down-le x y d q e))
