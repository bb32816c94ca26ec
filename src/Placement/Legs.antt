-- ===== src/Placement/Legs.antt =====
-- The legs of `place_expressive_order` in trader/trading/trading_runtime.py, from its `try` on: the entry and
-- its protective children, each placed before the next, and rolled back if one fails. A cancellation is
-- asked of the broker and never raises.
pub mod Acts
pub mod Atomic
use openwallstreet.Prelude.{
  ℕ, Bool, true, false, Option, none, some, String, ◌==◌, string_eq, List, [], ◌∷◌, ◌++◌, map,
  reverse, eqb, if◌then◌else◌,
}
use openwallstreet.Float
use openwallstreet.Float.{Float, nan}
use openwallstreet.Risk.Checks.{Checks}
use openwallstreet.Broker.Lifecycle.{Decisive, rejected}
use openwallstreet.Proposal.Execution.{ExecutionSpec}
use openwallstreet.Placement.Account.{Contract, Order, Trader}
use openwallstreet.Placement.Direct.{is_given}
use openwallstreet.Placement.Sink.{
  ApprovedOrder, position_classified, protective_child, submitted, Placement,
  subscribe_place_order_direct,
}

-- The order classes of ib_async, by action, quantity, price, reference and account; tif, outsideRth, goodTillDate
-- and trailingPercent, which nothing here reads, are left out.
pub record LegClasses : Type 0 where
  pub market_order : String → Float → String → String → Order
  pub limit_order : String → Float → Float → String → String → Order
  pub stop_order : String → Float → Float → String → Order
  pub trail_order : String → Float → String → Order

-- An order with its parent and its flag `transmit`.
pub record Leg : Type 0 where
  pub order : Order
  pub parent : Option ℕ
  pub transmit : Bool

-- The arguments of `place_expressive_order`.
pub record Expressive : Type 0 where
  pub contract : Contract
  pub action : String
  pub quantity : Float
  pub spec : ExecutionSpec
  pub algo_name : String
  pub approver_key : String
  pub force_open : Bool

-- A price of None makes an order that the sink finds malformed, as NaN does.
abbrev pub price_of : Option Float → Float
price_of none = nan
price_of (some x) = x

-- `_build_entry`
unfoldable pub build_entry : LegClasses → String → Expressive → Order
build_entry ib account x =
    if x.spec.order_type == "MARKET"
    then ib.market_order x.action x.quantity x.algo_name account
    else ib.limit_order x.action x.quantity (price_of x.spec.limit_price) x.algo_name account

abbrev pub reverse_action : String → String
reverse_action action = if action == "BUY" then "SELL" else "BUY"

-- The trailing stop's amount, where it has no percentage.
abbrev pub set_trail : ExecutionSpec → Order → Order
set_trail s o =
    if is_given s.trailing_stop_percent
    then o
    else if is_given s.trailing_stop_amount
    then record o { aux_price = price_of s.trailing_stop_amount }
    else o

abbrev pub take_profit : LegClasses → String → Expressive → ℕ → Leg
take_profit ib account x parent = record {
  order =
      ib.limit_order (reverse_action x.action) x.quantity (price_of x.spec.take_profit_price) ""
        account;
  parent = some parent;
  transmit = false;
}

abbrev pub stop_loss : LegClasses → String → Expressive → ℕ → Leg
stop_loss ib account x parent = record {
  order =
      ib.stop_order (reverse_action x.action) x.quantity (price_of x.spec.stop_loss_price) account;
  parent = some parent;
  transmit = true;
}

abbrev pub trailing_stop : LegClasses → String → Expressive → ℕ → Leg
trailing_stop ib account x parent = record {
  order = set_trail x.spec (ib.trail_order (reverse_action x.action) x.quantity account);
  parent = some parent;
  transmit = true;
}

-- The children of an entry, in the order of their placement; the last one transmits them all.
unfoldable pub children : LegClasses → String → Expressive → ℕ → List Leg
children ib account x parent =
    if x.spec.exit_type == "BRACKET"
    then take_profit ib account x parent ∷ stop_loss ib account x parent ∷ []
    else if x.spec.exit_type == "TRAILING_STOP"
    then trailing_stop ib account x parent ∷ []
    else if x.spec.exit_type == "STOP_LOSS"
    then stop_loss ib account x parent ∷ []
    else []

-- `transmit` of the entry: where it has no children.
unfoldable pub transmits_alone : ExecutionSpec → Bool
transmits_alone s =
    if s.exit_type == "BRACKET"
    then false
    else if s.exit_type == "TRAILING_STOP"
    then false
    else if s.exit_type == "STOP_LOSS"
    then false
    else true

-- What the sink meets at one leg: the clock, the trader, whether the broker accepts, and the id it gives.
pub record LegRun : Type 0 where
  pub now : ℕ
  pub trader : Trader
  pub accepts : Bool
  pub order_id : ℕ

-- What is asked of the broker, in order.
pub data Act : Type 0 where
  place : ℕ → Leg → Act
  cancel : ℕ → Act

-- A token of a child needs no record of checks.
abbrev pub child_token : Contract → Leg → ApprovedOrder
child_token c l = record {
  contract = c;
  order = l.order;
  is_exit = true;
  checks = [];
  exit_reason = some protective_child;
}

abbrev pub is_submitted : Placement → Bool
is_submitted (submitted a) = true
is_submitted _ = false

-- `_place_and_wait`: whether the leg was placed. Its id is the broker's.
unfoldable pub place_leg : LegRun → ApprovedOrder → Bool
place_leg r a = is_submitted (subscribe_place_order_direct r.now r.trader r.accepts a).0

-- `_cancel_trade_safely` of each leg that has been placed.
abbrev pub roll_back : List ℕ → List Act
roll_back = map cancel

-- The children after the legs of `trades`, which stand in the order of their placement; false is an abort,
-- which rolls back newest first. A missing run is a placement that fails.
unfoldable pub place_children :
    Contract → List Leg → List LegRun → List ℕ → Bool × List Act × List ℕ
place_children c [] runs trades = (true, [], trades)
place_children c (l ∷ ls) [] trades = (false, roll_back (reverse trades), trades)
place_children c (l ∷ ls) (r ∷ rs) trades =
    let later = place_children c ls rs (trades ++ r.order_id ∷ []) in
    if place_leg r (child_token c l)
    then (later.0, place r.order_id l ∷ later.1, later.2)
    else (false, roll_back (reverse trades), trades)

-- The answers of the placement; a success has the ids of `trades`.
pub data Outcome : Type 0 where
  all_placed : List ℕ → Outcome
  entry_failed aborted rejected_by_broker : Outcome

abbrev pub is_rejection : Option Decisive → Bool
is_rejection (some rejected) = true
is_rejection _ = false

-- The verdict on the entry, which is awaited where it has an id; none is the end of the wait, or no tracker.
unfoldable pub confirm : ℕ → Option Decisive → List Act → List ℕ → Outcome × List Act
confirm entry verdict acts trades =
    if eqb entry 0
    then (all_placed trades, acts)
    else if is_rejection verdict
    then (rejected_by_broker, acts ++ roll_back trades)
    else (all_placed trades, acts)

unfoldable pub finish_legs : ℕ → Option Decisive → Bool × List Act × List ℕ → Outcome × List Act
finish_legs entry verdict (done, acts, trades) =
    if done then confirm entry verdict acts trades else (aborted, acts)

-- The entry, with its exit class and its record of checks.
unfoldable pub entry_leg : LegClasses → LegRun → Expressive → Leg
unfolding build_entry transmits_alone
entry_leg ib r x = record {
  order = build_entry ib r.trader.ib_account x;
  parent = none;
  transmit = transmits_alone x.spec;
}

abbrev pub entry_token : Expressive → Leg → Bool → Checks → ApprovedOrder
entry_token x l is_exit checks = record {
  contract = x.contract;
  order = l.order;
  is_exit = is_exit;
  checks = checks;
  exit_reason = some position_classified;
}

-- The entry, then the children, then the verdict.
unfoldable pub place_legs :
    LegClasses
    → Expressive
    → Bool
    → Checks
    → LegRun
    → List LegRun
    → Option Decisive
    → Outcome × List Act
unfolding place_children
place_legs ib x is_exit checks r runs verdict =
    let l = entry_leg ib r x in
    let rest =
      place_children x.contract (children ib r.trader.ib_account x r.order_id) runs
        (r.order_id ∷ []) in
    if place_leg r (entry_token x l is_exit checks)
    then finish_legs r.order_id verdict (rest.0, place r.order_id l ∷ rest.1, rest.2)
    else (entry_failed, [])
