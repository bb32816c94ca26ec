-- ===== src/Sizing.antt =====
-- trader/trading/position_sizing.py: how much money a proposal is sized at.
pub mod Inputs
pub mod Scales
pub mod Constraints
pub mod Sizer
