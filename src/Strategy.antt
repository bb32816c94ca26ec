-- ===== src/Strategy.antt =====
-- The execution of strategy signals: trader/strategy/auto_executor.py.
pub mod Decision
pub mod State
pub mod Sdk
pub mod Stops
pub mod Close
pub mod Open
pub mod Executor
