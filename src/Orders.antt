-- ===== src/Orders.antt =====
-- The pure decisions about a single order under trader/trading.
pub mod ExitClass
pub mod Split
pub mod Quantity
pub mod Structure
pub mod Protective
