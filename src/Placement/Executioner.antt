-- ===== src/Placement/Executioner.antt =====
-- `TradeExecutioner.place_order` of trader/trading/executioner.py. Other tasks run while it waits, so it
-- reads the trader at three moments: where it is called, at the approver's tier, and at the sink.
pub mod Authorised
pub mod Exits
pub mod Blind
use openwallstreet.Prelude.{
  ℕ, Bool, true, false, not, ◌&&◌, ◌||◌, Option, none, some, String, ◌==◌, string_eq, List, [], ◌∷◌,
  ◌++◌, if◌then◌else◌,
}
use openwallstreet.Float
use openwallstreet.Float.{Float, zero_float}
use openwallstreet.Orders.Structure.{sanity_check_order}
use openwallstreet.Risk.Events.{TradingEvent, risk_gate_rejected}
use openwallstreet.Risk.Checks.{Checks, RiskGateResult}
use openwallstreet.Risk.Gate.{Request, evaluate, check_instrument}
use openwallstreet.Placement.Account.{
  Contract, Order, Trader, RiskGate, Ticker, Multiplier, unset, malformed, factor,
}
use openwallstreet.Placement.Exposure.{order_reduces_exposure}
use openwallstreet.Placement.Inputs.{RiskInputs, gather_risk_inputs}
use openwallstreet.Placement.Audit.{log_event, source_of}
use openwallstreet.Placement.Tier.{TierError, enforce_approver_tier}
use openwallstreet.Placement.Sink.{
  ApprovedOrder, ExitReason, position_classified, Refusal, gate_unavailable, filter_rejected,
  gate_rejected, gate_raised, snapshot_raised, sanity_failed, tier_rejected, Placement, submitted,
  refused, Placed, shape_of, subscribe_place_order_direct,
}

-- The arguments of `place_order`; `skip_risk_gate` is ignored, and `condition` asks for the sanity check.
pub record Call : Type 0 where
  pub contract : Contract
  pub order : Order
  pub sanity_check : Bool
  pub position_value_hint : Option Float
  pub approver_key : String
  pub force_open : Bool

-- What `place_order` meets: the clock, the trader at the three moments, whether the snapshot of the sanity
-- check arrives, the snapshot of the tier, and whether the broker accepts the order.
pub record Run : Type 0 where
  pub now : ℕ
  pub start : Trader
  pub at_tier : Trader
  pub at_sink : Trader
  pub snapshot_arrives : Bool
  pub snapshot : Option Ticker
  pub accepts : Bool

unfoldable pub is_exit : Run → Call → Bool
is_exit w k =
    not k.force_open
    && order_reduces_exposure w.start k.contract k.order.action k.order.total_quantity

-- The multiplier of the hint; none is the exception that leaves the hint unset.
abbrev pub hint_multiplier : Multiplier → Option Float
hint_multiplier unset = some (Float.literal 1 1)
hint_multiplier malformed = none
hint_multiplier (factor x) = some x

-- The position value: the caller's, or that of the order's own limit.
unfoldable pub position_value : Call → Option Float
position_value k = elim k.position_value_hint [
  | some value ↦ some value
  | none ↦ elim (hint_multiplier k.contract.multiplier) [
    | none ↦ none
    | some multiplier ↦
        if Float.lt zero_float k.order.lmt_price
        then some
            (Float.mul (Float.mul (Float.abs k.order.total_quantity) k.order.lmt_price) multiplier)
        else none
  ]
]

abbrev pub or_zero : Option Float → Float
or_zero none = zero_float
or_zero (some x) = x

abbrev pub is_some : Option Float → Bool
is_some none = false
is_some (some x) = true

-- The request that the gate evaluates.
unfoldable pub request_of : Run → Call → Request
unfolding position_value
request_of w k =
    let inputs = gather_risk_inputs w.start in
    record {
      source_name = source_of k.order;
      open_order_count = inputs.open_order_count;
      daily_pnl = inputs.daily_pnl;
      portfolio_value = inputs.portfolio_value;
      position_value = or_zero (position_value k);
      daily_pnl_evaluable = inputs.daily_pnl_evaluable;
      portfolio_value_evaluable = inputs.portfolio_value_evaluable;
      position_value_evaluable = is_some (position_value k);
      sec_type = k.contract.sec_type;
      order_quantity = k.order.total_quantity;
    }

-- How the gates let an order on, with the record of checks, or stop it.
pub data Verdict : Type 0 where
  cleared : Checks → Verdict
  stopped : Refusal → List TradingEvent → Verdict

abbrev rejection : Run → Trader → Call → List TradingEvent
rejection w t k = log_event w.now t risk_gate_rejected k.contract k.order false ∷ []

unfoldable pub evaluate_open : Run → Call → RiskGate → Verdict
evaluate_open w k g = elim (evaluate g.limits w.start.world (request_of w k)) [
  | none ↦ stopped gate_raised []
  | some r ↦ if r.approved then cleared r.checks else stopped gate_rejected (rejection w w.start k)
]

-- The gates of an opening order.
unfoldable pub clear_open : Run → Call → Verdict
unfolding evaluate_open
clear_open w k = elim w.start.risk_gate [
  | none ↦ stopped gate_unavailable []
  | some g ↦
      if not (
        check_instrument g.trading_filter k.contract.symbol k.contract.exchange k.contract.sec_type)
      then stopped filter_rejected (rejection w w.start k)
      else evaluate_open w k g
]

-- An exit meets no gate.
unfoldable pub clear : Run → Call → Verdict
unfolding clear_open is_exit
clear w k = if is_exit w k then cleared [] else clear_open w k

-- The sanity check, where the condition asks for it.
unfoldable pub sanity_refusal : Run → Call → Option Refusal
sanity_refusal w k =
    if not k.sanity_check
    then none
    else if not w.snapshot_arrives
    then some snapshot_raised
    else if not (sanity_check_order (shape_of k.order))
    then some sanity_failed
    else none

unfoldable pub tier_error : Run → Call → Option TierError
tier_error w k =
    enforce_approver_tier w.at_tier k.contract k.order.action k.order.total_quantity
      k.order.order_type (some k.order.lmt_price) k.approver_key k.force_open w.snapshot

-- The token that an order is spent with.
unfoldable pub mint : Run → Call → Checks → ApprovedOrder
mint w k c = record {
  contract = k.contract;
  order = k.order;
  is_exit = is_exit w k;
  checks = c;
  exit_reason = some position_classified;
}

-- From the tier on.
unfoldable pub place_cleared : Run → Call → Checks → Placed
unfolding tier_error mint
place_cleared w k c = elim (tier_error w k) [
  | some e ↦ (refused (tier_rejected e), rejection w w.at_tier k)
  | none ↦ subscribe_place_order_direct w.now w.at_sink w.accepts (mint w k c)
]

-- `place_order`
unfoldable pub place_order : Run → Call → Placed
unfolding clear sanity_refusal place_cleared
place_order w k = elim (clear w k) [
  | stopped r events ↦ (refused r, events)
  | cleared c ↦ elim (sanity_refusal w k) [ some r ↦ (refused r, []) | none ↦ place_cleared w k c ]
]
