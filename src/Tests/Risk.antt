-- ===== src/Tests/Risk.antt =====
-- Runs at concrete inputs: the risk gate.
use openwallstreet.Prelude.{
  ◌⊎◌, ◌≡◌, ◌≢◌, ◌↔◌, refl, true, false, ◌&&◌, none, some, List, [], ◌∷◌, lookup, insert, contains,
  inl, inr, pos, upper,
}
use openwallstreet.Float
use openwallstreet.Float.{Float, nan, literal, zero_float}
use openwallstreet.Risk.Events.{
  TradingEvent, order_submitted, order_filled, null, flag, query_since, is_exit_class,
}
use openwallstreet.Orders.Quantity.{order_notional}
use openwallstreet.Risk.Filter.{TradingFilter}
use openwallstreet.Risk.Checks.{RiskLimits, RiskGateResult, clean, pass}
use openwallstreet.Risk.Turnover.{fill_prices, notional_of, recorded_notional}
use openwallstreet.Risk.Turnover.Opens.{Among, IsUnvaluable}
use openwallstreet.Risk.Gate.{Request, World, evaluate}
use openwallstreet.Risk.Gate.Bounds.{approves, IsAllowed, evaluate_iff}
use openwallstreet.Risk.Gate.Record.{IsOverflowing, evaluate-clean}
use openwallstreet.Risk.Leverage.{
  MarginImpact, get_margin, leverage_stages, check_leverage_ratio, check_cushion, check_leverage,
}
use openwallstreet.Risk.Leverage.Cushion.{check_leverage-nan}

abbrev denied : TradingFilter
denied = record {
  denylist = "GME" ∷ [];
  allowlist = [];
  exchanges = [];
  deny_exchanges = "PINK" ∷ [];
  sec_types = "STK" ∷ [];
  deny_sec_types = [];
  locations = [];
  deny_locations = [];
  min_price = literal 5 1;
}

abbrev limits : RiskLimits
limits = record {
  max_position_size_pct = literal 1 10;
  max_daily_loss = literal 1000 1;
  max_open_orders = pos 15;
  max_signals_per_hour = pos 20;
  max_leverage = literal 1 1;
  min_margin_cushion = literal 1 10;
  max_order_notional = zero_float;
  max_option_contracts_per_order = pos 0;
  max_estimated_option_debit = zero_float;
  max_daily_open_notional = literal 50000 1;
  max_daily_open_notional_per_strategy = zero_float;
}

abbrev submission : TradingEvent
submission = record {
  event_type = order_submitted;
  timestamp = 5000;
  strategy_name = "momentum";
  conid = 4391;
  symbol = "AMD";
  action = "BUY";
  quantity = some (literal 10 1);
  price = some zero_float;
  order_id = 41;
  signal_probability = zero_float;
  signal_risk = zero_float;
  metadata = ("notional", null) ∷ ("notional_evaluable", flag false) ∷ [];
}

abbrev protective : TradingEvent
protective = record submission {
  action = "SELL";
  order_id = 42;
  metadata = ("exit_class", flag true) ∷ [];
}

abbrev events : List TradingEvent
events = protective ∷ submission ∷ []

abbrev world : World
world = record { one_hour_ago = 4000; start_of_day = 1000; events = events }

abbrev request : Request
request = record {
  source_name = "momentum";
  open_order_count = 1;
  daily_pnl = zero_float;
  portfolio_value = literal 100000 1;
  position_value = literal 1550 1;
  daily_pnl_evaluable = true;
  portfolio_value_evaluable = true;
  position_value_evaluable = true;
  sec_type = "STK";
  order_quantity = literal 10 1;
}

evaluate_iff_example :
    (approves (evaluate limits world request) ≡ true) ↔ IsAllowed limits world request
evaluate_iff_example = evaluate_iff limits world request

evaluate-clean_example :
    ((r : RiskGateResult) × (evaluate limits world request ≡ some r)
      × (r.approved ≡ clean r.checks))
    ⊎ ((evaluate limits world request ≡ none) × IsOverflowing limits world request)
evaluate-clean_example = evaluate-clean limits world request

submission-Among : Among submission (query_since 1000 order_submitted events)
unfolding query_since
submission-Among = inr (inl refl)

submission-IsUnvaluable :
    IsUnvaluable (fill_prices (query_since 1000 order_filled events) []) submission
unfolding contains fill_prices query_since notional_of recorded_notional is_exit_class lookup
    Float.lt Float.le Float.eq zero_float literal Float.nearest Float.round_div Float.quantum
    Float.overflow Float.unit order_notional Float.is_finite Float.abs
submission-IsUnvaluable = record { opens = refl; recorded = refl; unvalued = refl }

capped :
    (Float.le limits.max_daily_open_notional zero_float
      && Float.le limits.max_daily_open_notional_per_strategy zero_float)
    ≡ false
unfolding Float.lt Float.le Float.eq zero_float literal Float.nearest Float.round_div Float.quantum
    Float.overflow Float.unit
capped = refl

stock : upper "STK" ≢ "CASH"
unfolding upper
stock e = absurd (cc e)

abbrev impact : MarginImpact
impact = record {
  init_margin_after = some (literal 500 1);
  equity_with_loan_after = some (literal 1000 1);
}

abbrev covered : RiskGateResult
covered = record {
  approved = true;
  reason = none;
  checks = ("leverage", pass) ∷ ("margin_cushion", pass) ∷ [];
}

impact-covered : check_leverage limits impact (literal 1000 1) ≡ some covered
unfolding check_leverage leverage_stages check_leverage_ratio check_cushion get_margin insert
    Float.sub Float.neg Float.add Float.div Float.round Float.magnitude Float.is_pos Float.of_ratio
    Float.lt Float.le Float.eq zero_float literal Float.nearest Float.round_div Float.quantum
    Float.overflow Float.unit
impact-covered = refl

margin_known : Float.eq (get_margin impact.init_margin_after) zero_float ≡ false
unfolding get_margin Float.lt Float.le Float.eq zero_float literal Float.nearest Float.round_div
    Float.quantum Float.overflow Float.unit
margin_known = refl

equity_known : Float.eq (get_margin impact.equity_with_loan_after) zero_float ≡ false
unfolding get_margin Float.lt Float.le Float.eq zero_float literal Float.nearest Float.round_div
    Float.quantum Float.overflow Float.unit
equity_known = refl

check_leverage-nan_example :
    (r : RiskGateResult) × (check_leverage limits impact nan ≡ some r) × (r.approved ≡ true)
check_leverage-nan_example = check_leverage-nan limits impact margin_known equity_known
