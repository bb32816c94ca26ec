-- ===== src/Strategy/Close.antt =====
-- `_execute_close` of trader/strategy/auto_executor.py, and how an operation ends.
pub mod Logged
pub mod Cancelled
pub mod Sold
use openwallstreet.Prelude.{
  ℕ, Bool, true, false, not, ◌&&◌, Option, none, some, String, KeyEq, ◌==◌, List, [], ◌∷◌, eqb,
  if◌then◌else◌, Dict, insert,
}
use openwallstreet.Float
use openwallstreet.Float.{Float, zero_float}
use openwallstreet.Data.Ledger.{Key, key_eq}
use openwallstreet.Orders.Quantity.{reducible_quantity}
use openwallstreet.Risk.Events.{EventType, order_rejected, TradingEvent}
use openwallstreet.Placement.Direct.{buy, sell, Action, action_text}
use openwallstreet.Strategy.State.{
  Position, Status, closed_by_strategy, closed_externally, Decision, closed, close_failed,
  open_position, record_close, log_decision,
}
use openwallstreet.Strategy.Sdk.{
  Ident, exact, imprecise, unresolved, resolve_exact, Holding, Approval, approved, not_approved,
  Answers, own_live_protectives, broker_quantity, Sent, approve,
}
use openwallstreet.Strategy.Sdk
use openwallstreet.Strategy.Stops.{Executor, send, is_tracked, cancel_protective, load_open_view}

-- An operation returns, raises an AutoExecutionError, or raises another exception.
pub data Flow : Type 0 where
  finished refused crashed : Flow

-- A row of the log, with the clock's reading.
abbrev pub note : Answers → Key → ℕ → Action → Decision → Executor → Executor
note a k bar_ts action decision s = record s {
  log = log_decision k bar_ts action decision a.log_clock s.log;
}

-- Appended where there is an event store.
abbrev pub with_event : TradingEvent → Option (List TradingEvent) → Option (List TradingEvent)
with_event e none = none
with_event e (some es) = some (e ∷ es)

-- `_append_event` of a rejection
unfoldable pub append_event : Answers → Key → Action → Float → Executor → Executor
append_event a k action quantity s =
    let rejection : TradingEvent = record {
      event_type = order_rejected;
      timestamp = a.event_clock;
      strategy_name = k.0;
      conid = k.1;
      symbol = "";
      action = action_text action;
      quantity = some quantity;
      price = some zero_float;
      order_id = 0;
      signal_probability = zero_float;
      signal_risk = zero_float;
      metadata = [];
    } in
    record s { events = with_event rejection s.events }

abbrev pub close_rows : Key → Status → Option ℕ → Executor → Executor
close_rows k status proposal s = record s { rows = record_close k status proposal s.rows }

abbrev pub stamp : Answers → Key → Executor → Executor
stamp a k s = record s { last_exec = insert k a.exec_clock s.last_exec }

-- From the approval of the proposal on.
unfoldable pub settle_close : Answers → Key → ℕ → Float → ℕ → Executor → Flow × Executor
unfolding append_event load_open_view
settle_close a k bar_ts qty proposal s = elim a.approval [
  | none ↦ (crashed, s)
  | some not_approved ↦ (finished, append_event a k sell qty (note a k bar_ts sell close_failed s))
  | some (approved ids) ↦ (
    finished,
    load_open_view (
        stamp a k
          (close_rows k closed_by_strategy (some proposal) (note a k bar_ts sell closed s))),
  )
]

-- The proposal to sell.
unfoldable pub propose_close : Answers → Key → ℕ → Ident → Float → Executor → Flow × Executor
unfolding settle_close
propose_close a k bar_ts i qty s = elim a.proposal_id [
  | none ↦ (crashed, s)
  | some n ↦ settle_close a k bar_ts qty n (send (approve n) (send (Sdk.sell k bar_ts i qty) s))
]

-- `for oid in own: if oid == tracked: continue; cancel`, where 0 is no tracked id.
unfoldable pub sweep : Key → ℕ → List ℕ → Executor → Executor
sweep k tracked [] s = s
sweep k tracked (o ∷ os) s =
    sweep k tracked os (if not (eqb tracked 0) && eqb o tracked then s else cancel_protective k o s)

abbrev pub tracked_of : Option Position → ℕ
tracked_of none = 0
tracked_of (some p) = elim p.protective_order_id [ none ↦ 0 | some n ↦ n ]

-- The cancellations before the position is read.
unfoldable pub clear_stops : Answers → Key → Executor → Executor
unfolding cancel_protective sweep
clear_stops a k s =
    let tracked = tracked_of (open_position k s.rows) in
    sweep k tracked (own_live_protectives k a.close_trades) (cancel_protective k tracked s)

-- From the reading of the position on.
unfoldable pub close_read :
    Answers → Key → ℕ → Float → Ident → Option (List Holding) → Executor → Flow × Executor
unfolding propose_close
close_read a k bar_ts attributed_qty i none s = (crashed, s)
close_read a k bar_ts attributed_qty i (some hs) s =
    let qty = reducible_quantity (some attributed_qty) (some (broker_quantity k.1 hs)) in
    if Float.le qty zero_float
    then (finished, load_open_view (close_rows k closed_externally none s))
    else propose_close a k bar_ts i qty s

-- `_execute_close`
unfoldable pub execute_close : Answers → Key → ℕ → Float → Executor → Flow × Executor
unfolding clear_stops close_read
execute_close a k bar_ts attributed_qty s = elim (resolve_exact a.resolver k.1) [
  | exact i ↦
      let cleared = clear_stops a k s in
      close_read a k bar_ts attributed_qty i (a.close_holdings cleared.sent) cleared
  | imprecise ↦ (refused, s)
  | unresolved ↦ (crashed, s)
]
