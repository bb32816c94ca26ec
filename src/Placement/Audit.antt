-- ===== src/Placement/Audit.antt =====
-- `TradeExecutioner._log_event` of trader/trading/executioner.py: how a submission is recorded.
pub mod Trace
use openwallstreet.Prelude.{
  ℕ, Bool, true, false, not, ◌&&◌, Option, none, some, String, ◌==◌, string_eq, List, [], ◌∷◌, ◌++◌,
  eqb, if◌then◌else◌, strip, Dict,
}
use openwallstreet.Float.{Float, zero_float}
use openwallstreet.Orders.Quantity.{is_price, order_notional}
use openwallstreet.Risk.Events.{EventType, TradingEvent, Json, flag, number}
use openwallstreet.Placement.Account.{Contract, Order, Ticker, Trader}
use openwallstreet.Placement.Tier.{multiplier_of}

-- `_price_or_none`
unfoldable pub price_or_none : Float → Option Float
unfolding is_price
price_or_none value = if is_price (some value) then some value else none

-- `_cached_prices`: the first ticker of the contract, best price first.
unfoldable pub cached_prices : ℕ → List Ticker → List (Option Float)
cached_prices con_id [] = []
cached_prices con_id (t ∷ rest) =
    let later = cached_prices con_id rest in
    if eqb t.con_id con_id then t.last ∷ t.close ∷ t.ask ∷ t.bid ∷ [] else later

-- The originator: the order's reference, or 'manual'.
unfoldable pub source_of : Order → String
source_of o = let name = strip o.order_ref in if name == "" then "manual" else name

unfoldable pub audit_notional : Trader → Contract → Order → Float × Bool
unfolding price_or_none cached_prices multiplier_of
audit_notional t c o =
    order_notional
      (price_or_none o.lmt_price ∷ price_or_none o.aux_price ∷ cached_prices c.con_id t.tickers)
      (some o.total_quantity) (some (multiplier_of c.multiplier))

-- `{'exit_class': True} if is_exit else {}`
abbrev pub exit_stamp : Bool → Dict String Json
exit_stamp true = ("exit_class", flag true) ∷ []
exit_stamp false = []

-- The event that is appended; `now` is the clock.
unfoldable pub log_event : ℕ → Trader → EventType → Contract → Order → Bool → TradingEvent
log_event now t type c o is_exit =
    let (notional, evaluable) = audit_notional t c o in
    record {
      event_type = type;
      timestamp = now;
      strategy_name = source_of o;
      conid = c.con_id;
      symbol = c.symbol;
      action = o.action;
      quantity = some o.total_quantity;
      price = some o.lmt_price;
      order_id = o.order_id;
      signal_probability = zero_float;
      signal_risk = zero_float;
      metadata =
          exit_stamp is_exit
          ++ (("notional", number notional) ∷ ("notional_evaluable", flag evaluable) ∷ []);
    }
