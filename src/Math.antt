-- ===== src/Math.antt =====
-- src/math.rs: swap pricing, as pump-amm does it.
pub mod Float
pub mod Binary64
pub mod Curve
pub mod Quote
