-- ===== src/Lib.antt =====
-- OpenWallStreet: the safety core of an automated trader on Interactive Brokers.
--
-- A proposal to trade is validated and stored (trader/trading/proposal.py, trader/data), claimed by one
-- approver, checked by the risk gate (trader/trading/risk_gate.py) unless it reduces exposure, placed by
-- trader/trading/executioner.py, and followed by what the broker reports (trader/trading/book.py,
-- order_lifecycle.py), against which the proposals are reconciled (reconciliation.py). The modules:
--
-- - Float: the IEEE 754 doubles of Python's float, executable. A finite double is an integer number of
--   units of 2^-1074; every operation rounds to nearest, ties to even. 0.0 and -0.0 are one number, and
--   division by zero, which Python raises, is `none`. Children: Round, Laws, Exact.
-- - Orders: the arithmetic and the structure of orders, in trader/trading. ExitClass is exit_class.py,
--   Split is order_split.py, Quantity is order_math.py, Protective is protective_stop.py, Structure is
--   order_structure.py and order_validator.py.
-- - Proposal: Execution is ExecutionSpec of trader/trading/proposal.py, Transitions is
--   trader/data/proposal_transitions.py, Store is trader/data/proposal_store.py; its table is a list of
--   rows by id, each method one atomic operation, and `Op`, `apply` and `run` are histories of calls.
-- - Risk: Events is the part of trader/data/event_store.py that the gate reads, Filter is
--   trader/trading/trading_filter.py, Checks, Turnover, Gate and Leverage are
--   trader/trading/risk_gate.py: `evaluate`, `check_instrument` and `check_leverage`. Each block of
--   `evaluate` is a stage that records its check and goes on, or returns a refusal.
-- - Broker: Book is trader/trading/book.py, Lifecycle is trader/trading/order_lifecycle.py, whose
--   `wait_decisive` is split at its await into `begin_wait` and `end_wait`, Reconcile is
--   trader/trading/reconciliation.py.
-- - Placement: Account is what the placement path reads of contracts, orders and the live account;
--   Exposure, Tier and Inputs are the exit classification, the approver's tier and the inputs of the
--   gate, of trader/trading/trading_runtime.py; Audit, Sink and Executioner are `_log_event`,
--   `subscribe_place_order_direct` with the token of trader/trading/approved_order.py, and `place_order`
--   of trader/trading/executioner.py. Other tasks run while `place_order` waits, so it meets the trader
--   at three moments, which are independent of each other; a read that raises is `none`.
--   Standalone is `place_standalone_order`, and Direct is `helper_create_order` and `place_order_simple`
--   from the snapshot on, both over the order classes of ib_async as a parameter. Expressive is the gates of
--   `place_expressive_order`, with `_place_flip_split`, and Legs its entry and protective children.
-- - Data: Ledger and FillLog are `pair_fills_long_only`, `realized_pnl_by_strategy` and
--   `set_fill_exclusion` of trader/data/event_store.py, Groups is trader/data/position_groups.py, Staleness is
--   trader/data/bar_staleness.py.
-- - Sizing: Inputs, Scales, Constraints and Sizer are trader/trading/position_sizing.py; `compute` is the
--   scales, then the limits in the order of the code, then the rounding to cents.
-- - Strategy: trader/strategy/auto_executor.py, which executes the signals of the strategies. Decision is its
--   pure functions, State its two tables, Sdk what it asks of the SDK, Stops, Close and Open the protective
--   stops, `_execute_close` and `_execute_open`, and Executor the processing of one signal or bar after the
--   other. The SDK's answers are values, one for each call site, as the account changes in between, and the
--   positions that a close reads are a function of what has been sent; an exception is `none`, and ends the item. What is sent stands in the state, newest first. The tables
--   answer as they are read, and the queue and its thread are the list of items.
-- - Prelude holds the shared helpers, Tests the runs at concrete inputs.
--
-- No loop runs on fuel: the loops over shares, cents and candidates are structural recursion, and the
-- loop over doubles in `split_order` is recursion on the order of the numbers of units. A float argument
-- that Python converts is an Option, where none is a TypeError or a ValueError. Timestamps and clock
-- readings are numbers, texts are ASCII where a case is changed, JSON columns are the values written
-- into them, and events stand newest first, as the queries return them. Order ids are natural numbers,
-- 0 for an absent one.
--
-- Not modelled: DuckDB, ib_async, asyncio and pandas, which the modelled code only calls; the loading of
-- YAML; the listing queries of the proposals and the events; the texts of reasons and logs; the rest of
-- the runtime (cancellation, connections), the report on portfolio risk, the
-- simulation, the strategies and their runtime, messaging, the SDK and the command line. In Placement, appending an event
-- succeeds, the constant-time comparison of keys is equality, a contract and an order carry every field
-- with its default, and `skip_risk_gate`, which the code ignores, is left out.
pub mod Prelude
pub mod Float
pub mod Orders
pub mod Proposal
pub mod Risk
pub mod Broker
pub mod Placement
pub mod Data
pub mod Sizing
pub mod Strategy
mod Tests
