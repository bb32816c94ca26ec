-- ===== src/Data.antt =====
-- The stores beside the proposals, in trader/data.
pub mod Ledger
pub mod FillLog
pub mod Groups
pub mod Staleness
