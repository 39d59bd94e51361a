-- ===== src/Morpho/BlueMath.antt =====
-- src/morpho/blue_math.rs: shares and fixed-point arithmetic of Morpho Blue, over `U256`.
pub mod Rounding
pub mod Shares
use rbot_v.Prelude.{ℕ, Result, ok, err, ok_or, and_then, ◌>>=◌, ◌==◌, if◌then◌else◌}
use rbot_v.Prelude.Words.{checked_add, checked_sub, checked_mul, checked_div}
use rbot_v.Domain.{ArithmeticError, overflow, underflow, division_by_zero}

abbrev pub wad : ℕ
wad = 1_000_000_000_000_000_000

abbrev pub virtual_shares : ℕ
virtual_shares = 1_000_000

abbrev pub virtual_assets : ℕ
virtual_assets = 1

unfoldable pub mul_div_down : ℕ → ℕ → ℕ → Result ArithmeticError ℕ
mul_div_down x y denominator =
    if denominator == 0
    then err division_by_zero
    else ok_or (and_then (checked_mul x y) (λ product. checked_div product denominator)) overflow

unfoldable pub mul_div_up : ℕ → ℕ → ℕ → Result ArithmeticError ℕ
mul_div_up x y denominator = if denominator == 0 then err division_by_zero else do
  product ← ok_or (checked_mul x y) overflow
  headroom ← ok_or (checked_sub denominator 1) underflow
  total ← ok_or (checked_add product headroom) overflow
  ok_or (checked_div total denominator) overflow

unfoldable pub w_mul_down : ℕ → ℕ → Result ArithmeticError ℕ
w_mul_down x y = mul_div_down x y wad

unfoldable pub w_div_down : ℕ → ℕ → Result ArithmeticError ℕ
w_div_down x y = mul_div_down x wad y

unfoldable pub w_div_up : ℕ → ℕ → Result ArithmeticError ℕ
w_div_up x y = mul_div_up x wad y

unfoldable pub w_taylor_compounded : ℕ → ℕ → Result ArithmeticError ℕ
w_taylor_compounded x n = do
  first ← ok_or (checked_mul x n) overflow
  twice ← ok_or (checked_mul wad 2) overflow
  second ← mul_div_down first first twice
  thrice ← ok_or (checked_mul wad 3) overflow
  third ← mul_div_down second first thrice
  ok_or (and_then (checked_add first second) (λ value. checked_add value third)) overflow

unfoldable pub with_virtuals : ℕ → ℕ → Result ArithmeticError (ℕ × ℕ)
with_virtuals total_assets total_shares = do
  assets ← ok_or (checked_add total_assets virtual_assets) overflow
  shares ← ok_or (checked_add total_shares virtual_shares) overflow
  ok (assets, shares)

unfoldable pub to_supply_shares_down : ℕ → ℕ → ℕ → Result ArithmeticError ℕ
unfolding with_virtuals
to_supply_shares_down assets total_assets total_shares = do
  virtuals ← with_virtuals total_assets total_shares
  mul_div_down assets virtuals.1 virtuals.0

unfoldable pub to_supply_shares_up : ℕ → ℕ → ℕ → Result ArithmeticError ℕ
unfolding with_virtuals
to_supply_shares_up assets total_assets total_shares = do
  virtuals ← with_virtuals total_assets total_shares
  mul_div_up assets virtuals.1 virtuals.0

unfoldable pub to_supply_assets_down : ℕ → ℕ → ℕ → Result ArithmeticError ℕ
unfolding with_virtuals
to_supply_assets_down shares total_assets total_shares = do
  virtuals ← with_virtuals total_assets total_shares
  mul_div_down shares virtuals.0 virtuals.1

unfoldable pub to_supply_assets_up : ℕ → ℕ → ℕ → Result ArithmeticError ℕ
unfolding with_virtuals
to_supply_assets_up shares total_assets total_shares = do
  virtuals ← with_virtuals total_assets total_shares
  mul_div_up shares virtuals.0 virtuals.1
