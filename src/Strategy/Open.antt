-- ===== src/Strategy/Open.antt =====
-- `_execute_open` and `_executed_quantity` of trader/strategy/auto_executor.py.
pub mod Bought
use openwallstreet.Prelude.{
  ℕ, Bool, true, false, not, ◌&&◌, Option, none, some, String, KeyEq, ◌==◌, List, [], ◌∷◌, eqb,
  non_empty, if◌then◌else◌, Dict, insert,
}
use openwallstreet.Float
use openwallstreet.Float.{Float, zero_float}
use openwallstreet.Data.Ledger.{Key, key_eq}
use openwallstreet.Placement.Direct.{buy, sell, is_given}
use openwallstreet.Strategy.Decision.{BarTs, SignalWork, Directive}
use openwallstreet.Strategy.State.{
  Position, unknown, opened, open_failed, open_position, record_open, record_add, record_close,
}
use openwallstreet.Strategy.Sdk.{
  Ident, exact, imprecise, unresolved, resolve_exact, Approval, approved, not_approved, Answers,
  Sent, approve,
}
use openwallstreet.Strategy.Sdk
use openwallstreet.Strategy.Stops.{
  Executor, send, is_tracked, cancel_protective, load_open_view, ensure_protective,
}
use openwallstreet.Strategy.Close.{
  Flow, finished, refused, crashed, note, append_event, close_rows, stamp, tracked_of,
}

abbrev pub key_of : SignalWork → Key
key_of w = (w.strategy_name, w.conid)

-- From the orders' ids on.
unfoldable pub quantity_of_orders : Answers → List ℕ → Float
quantity_of_orders a ids =
    if non_empty ids
    then elim (a.order_total ids) [ none ↦ zero_float | some q ↦ q ]
    else zero_float

-- `_executed_quantity`
unfoldable pub executed_quantity : Answers → List ℕ → Float
unfolding quantity_of_orders
executed_quantity a ids = elim a.proposal_quantity [
  | none ↦ quantity_of_orders a ids
  | some q ↦ if Float.eq q zero_float then quantity_of_orders a ids else q
]

abbrev pub open_rows : SignalWork → Float → ℕ → Executor → Executor
open_rows w quantity proposal s = record s {
  rows =
      record_open (key_of w) quantity w.bar_ts.wall proposal w.close_by_time w.max_hold_bars s.rows;
}

abbrev pub add_rows : SignalWork → Float → ℕ → Executor → Executor
add_rows w quantity proposal s = record s {
  rows =
      record_add (key_of w) quantity w.bar_ts.wall proposal w.close_by_time w.max_hold_bars s.rows;
}

-- The attribution of a quantity to a new position, or to the one that is held.
unfoldable pub attribute : SignalWork → Float → ℕ → Executor → Executor
attribute w qty proposal s = elim (open_position (key_of w) s.rows) [
  | none ↦ open_rows w qty proposal s
  | some prior ↦ cancel_protective (key_of w) (tracked_of (some prior)) (add_rows w qty proposal s)
]

-- An order without a quantity that can be attributed.
unfoldable pub record_unknown : Answers → SignalWork → ℕ → Executor → Executor
record_unknown a w proposal s =
    stamp a (key_of w) (close_rows (key_of w) unknown none (open_rows w zero_float proposal s))

-- From the executed quantity on.
unfoldable pub book_open : Answers → SignalWork → ℕ → Float → Executor → Executor
unfolding record_unknown attribute load_open_view
book_open a w proposal qty s =
    if Float.le qty zero_float
    then record_unknown a w proposal s
    else ensure_protective a (key_of w)
        (load_open_view (stamp a (key_of w) (attribute w qty proposal s)))

-- From the approval of the proposal on.
unfoldable pub settle_open : Answers → SignalWork → ℕ → Executor → Flow × Executor
unfolding executed_quantity book_open append_event
settle_open a w proposal s = elim a.approval [
  | none ↦ (crashed, s)
  | some not_approved ↦ (
    finished,
    append_event a (key_of w) buy zero_float (note a (key_of w) w.bar_ts.wall buy open_failed s),
  )
  | some (approved ids) ↦ (
    finished,
    book_open a w proposal (executed_quantity a ids) (note a (key_of w) w.bar_ts.wall buy opened s),
  )
]

-- The notional of an open whose size is not given by the strategy.
unfoldable pub fixed_amount : SignalWork → Option Float → Option Float
fixed_amount w quantity =
    if not (is_given quantity) && Float.lt zero_float w.trade_amount
    then some w.trade_amount
    else none

-- `max(0.0, min(1.0, work.probability))`
unfoldable pub confidence : SignalWork → Float
confidence w = Float.max zero_float (Float.min (Float.literal 1 1) w.probability)

-- The proposal to buy.
unfoldable pub propose_open : Answers → SignalWork → Directive → Ident → Executor → Flow × Executor
unfolding settle_open fixed_amount confidence
propose_open a w d i s = elim a.proposal_id [
  | none ↦ (crashed, s)
  | some n ↦ settle_open a w n (
      send (approve n) (
        send
          (Sdk.buy (key_of w) w.bar_ts.wall i d.quantity (fixed_amount w d.quantity) (confidence w))
          s))
]

-- `_execute_open`
unfoldable pub execute_open : Answers → SignalWork → Directive → Executor → Flow × Executor
unfolding propose_open
execute_open a w d s = elim (resolve_exact a.resolver w.conid) [
  | exact i ↦ propose_open a w d i s
  | imprecise ↦ (refused, s)
  | unresolved ↦ (crashed, s)
]
