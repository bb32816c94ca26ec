-- ===== src/Placement.antt =====
-- From a gated order to the broker: trader/trading/executioner.py, trader/trading/approved_order.py and the
-- placement path of trader/trading/trading_runtime.py.
pub mod Account
pub mod Exposure
pub mod Tier
pub mod Inputs
pub mod Audit
pub mod Sink
pub mod Executioner
pub mod Standalone
pub mod Direct
pub mod Legs
pub mod Expressive
