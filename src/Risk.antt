-- ===== src/Risk.antt =====
-- The risk gate: trader/trading/risk_gate.py, with the event store that it reads
-- (trader/data/event_store.py) and the trading filter (trader/trading/trading_filter.py).
pub mod Events
pub mod Filter
pub mod Checks
pub mod Turnover
pub mod Gate
pub mod Leverage
