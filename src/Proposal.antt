-- ===== src/Proposal.antt =====
-- Trade proposals: trader/trading/proposal.py, trader/data/proposal_transitions.py and
-- trader/data/proposal_store.py.
pub mod Execution
pub mod Transitions
pub mod Store
