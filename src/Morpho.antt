-- ===== src/Morpho.antt =====
-- src/morpho: the exact protocol arithmetic.
pub mod BlueMath
pub mod AdaptiveCurve
pub mod Fees
pub mod VaultV2
pub mod MarketAdapter
