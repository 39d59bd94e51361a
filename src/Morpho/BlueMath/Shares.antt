-- ===== src/Morpho/BlueMath/Shares.antt =====
-- Conversions between assets and shares in src/morpho/blue_math.rs: rounding never favours the
-- converting side.
use rbot_v.Prelude.{ℕ, ◌+◌, ◌≤◌, ◌≡◌, ok, arith}
use rbot_v.Morpho.BlueMath.{
  mul_div_down, mul_div_up, virtual_shares, virtual_assets, to_supply_shares_down,
  to_supply_shares_up, to_supply_assets_down, to_supply_assets_up,
}
use rbot_v.Morpho.BlueMath.Rounding.{mul_div_down-le, mul_div_up-ge, le-cancel_mul}

pub shares_down_inv :
    (a t s r : ℕ)
    → to_supply_shares_down a t s ≡ ok r
    → mul_div_down a (s + virtual_shares) (t + virtual_assets) ≡ ok r
unfolding to_supply_shares_down
shares_down_inv a t s r h = ground arith

pub shares_up_inv :
    (a t s r : ℕ)
    → to_supply_shares_up a t s ≡ ok r
    → mul_div_up a (s + virtual_shares) (t + virtual_assets) ≡ ok r
unfolding to_supply_shares_up
shares_up_inv a t s r h = ground arith

pub assets_down_inv :
    (a t s r : ℕ)
    → to_supply_assets_down a t s ≡ ok r
    → mul_div_down a (t + virtual_assets) (s + virtual_shares) ≡ ok r
unfolding to_supply_assets_down
assets_down_inv a t s r h = ground arith

pub assets_up_inv :
    (a t s r : ℕ)
    → to_supply_assets_up a t s ≡ ok r
    → mul_div_up a (t + virtual_assets) (s + virtual_shares) ≡ ok r
unfolding to_supply_assets_up
assets_up_inv a t s r h = ground arith

-- Assets converted to shares and back, both rounded down, are at most the assets put in.
pub assets_down-shares_down_le :
    (assets total_assets total_shares shares back : ℕ)
    → to_supply_shares_down assets total_assets total_shares ≡ ok shares
    → to_supply_assets_down shares total_assets total_shares ≡ ok back
    → back ≤ assets
assets_down-shares_down_le a t s n b h k = le-cancel_mul b a (s + virtual_shares) (omega arith) (
    omega (
      arith,
      mul_div_down-le a (s + virtual_shares) (t + virtual_assets) n (shares_down_inv a t s n h),
      mul_div_down-le n (t + virtual_assets) (s + virtual_shares) b (assets_down_inv n t s b k),
    ))

-- Assets converted to shares and back, both rounded up, are at least the assets taken out.
pub assets_up-shares_up_ge :
    (assets total_assets total_shares shares back : ℕ)
    → to_supply_shares_up assets total_assets total_shares ≡ ok shares
    → to_supply_assets_up shares total_assets total_shares ≡ ok back
    → assets ≤ back
assets_up-shares_up_ge a t s n b h k = le-cancel_mul a b (s + virtual_shares) (omega arith) (
    omega (
      arith,
      mul_div_up-ge a (s + virtual_shares) (t + virtual_assets) n (shares_up_inv a t s n h),
      mul_div_up-ge n (t + virtual_assets) (s + virtual_shares) b (assets_up_inv n t s b k),
    ))

-- The shares burned for a withdrawal are at least the shares minted for a deposit of its size.
shares_down-le-shares_up :
    (assets total_assets total_shares minted burned : ℕ)
    → to_supply_shares_down assets total_assets total_shares ≡ ok minted
    → to_supply_shares_up assets total_assets total_shares ≡ ok burned
    → minted ≤ burned
shares_down-le-shares_up a t s m b h k = le-cancel_mul m b (t + virtual_assets) (omega arith) (
    omega (
      arith,
      mul_div_down-le a (s + virtual_shares) (t + virtual_assets) m (shares_down_inv a t s m h),
      mul_div_up-ge a (s + virtual_shares) (t + virtual_assets) b (shares_up_inv a t s b k),
    ))
