-- ===== src/Broker.antt =====
-- What the broker reports: the book of orders and trades, the outcomes of orders, and the reconciliation
-- of the proposals against them.
pub mod Book
pub mod Lifecycle
pub mod Reconcile
