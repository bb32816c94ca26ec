-- ===== src/Tests.antt =====
-- Runs of the theorems at concrete inputs.
mod Orders
mod Proposal
mod Risk
mod Broker
mod Placement
mod Data
mod Sizing
mod Direct
mod Legs
mod Strategy
