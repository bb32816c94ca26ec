-- ===== src/Risk/Gate.antt =====
-- `RiskGate.evaluate` and `RiskGate.check_instrument` of trader/trading/risk_gate.py. Each block of
-- `evaluate` is a stage: it records its check and goes on, or records it and returns a refusal.
pub mod Limits
mod Stages
pub mod Record
pub mod Bounds
pub mod Blind
use openwallstreet.Prelude.{
  ℕ, ◌*◌, ◌-◌, Bool, true, false, not, ◌&&◌, Option, none, some, String, ◌==◌, string_eq, List, [],
  ◌∷◌, length, filter, if◌then◌else◌, upper, ℤ, pos, negsuc, suc, ltb_ℤ, leb_ℤ,
}
use openwallstreet.Float
use openwallstreet.Float.{Float, fin, zero_float, unit}
use openwallstreet.Risk.Events.{TradingEvent, order_submitted, query_since, is_exit_class}
use openwallstreet.Risk.Filter.{TradingFilter, is_allowed}
use openwallstreet.Risk.Turnover.{check_daily_turnover}
use openwallstreet.Risk.Checks.{
  RiskLimits, Checks, Stage, passed, refused, exception, ◌>>=◌, record_pass, refuse, finish,
  RiskGateResult, fail, skipped, unevaluable, order_notional_exceeded, option_contracts_exceeded,
  option_debit_exceeded, open_orders_exceeded, daily_pnl_unread, daily_loss_exceeded,
  portfolio_value_unread, position_value_unread, concentration_too_high, order_rate_exceeded,
  insert_check,
}

-- The arguments of `evaluate`; of the signal only `source_name` is read.
pub record Request : Type 0 where
  pub source_name : String
  pub open_order_count : ℕ
  pub daily_pnl : Float
  pub portfolio_value : Float
  pub position_value : Float
  pub daily_pnl_evaluable : Bool
  pub portfolio_value_evaluable : Bool
  pub position_value_evaluable : Bool
  pub sec_type : String
  pub order_quantity : Float

-- What the gate reads from outside: the clock and the event store, newest event first.
pub record World : Type 0 where
  pub one_hour_ago : ℕ
  pub start_of_day : ℕ
  pub events : List TradingEvent

-- An int as it is compared with a float, exactly.
unfoldable pub exact : ℤ → Float
exact (pos n) = fin (pos (n * unit))
exact (negsuc n) = fin (negsuc (suc n * unit - 1))

unfoldable pub check_order_notional : RiskLimits → Request → Checks → Stage
check_order_notional l q c =
    if Float.lt zero_float l.max_order_notional
    then if Float.lt l.max_order_notional q.position_value
      then refuse "max_order_notional" fail order_notional_exceeded c
      else record_pass "max_order_notional" c
    else passed c

unfoldable pub check_option_contracts : RiskLimits → Request → Checks → Stage
check_option_contracts l q c =
    if ltb_ℤ (pos 0) l.max_option_contracts_per_order
    then if Float.lt (exact l.max_option_contracts_per_order) (Float.abs q.order_quantity)
      then refuse "max_option_contracts" fail option_contracts_exceeded c
      else record_pass "max_option_contracts" c
    else passed c

unfoldable pub check_option_debit : RiskLimits → Request → Checks → Stage
check_option_debit l q c =
    if Float.lt zero_float l.max_estimated_option_debit
    then if Float.lt l.max_estimated_option_debit q.position_value
      then refuse "max_option_debit" fail option_debit_exceeded c
      else record_pass "max_option_debit" c
    else passed c

unfoldable pub check_option : RiskLimits → Request → Checks → Stage
check_option l q c =
    if upper q.sec_type == "OPT"
    then check_option_contracts l q c >>= check_option_debit l q
    else passed c

unfoldable pub check_open_orders : RiskLimits → Request → Checks → Stage
check_open_orders l q c =
    if leb_ℤ l.max_open_orders (pos q.open_order_count)
    then refuse "max_open_orders" fail open_orders_exceeded c
    else record_pass "max_open_orders" c

unfoldable pub check_daily_loss : RiskLimits → Request → Checks → Stage
check_daily_loss l q c =
    if not q.daily_pnl_evaluable
    then refuse "daily_loss" (unevaluable "daily-pnl") daily_pnl_unread c
    else if Float.lt q.daily_pnl (Float.neg l.max_daily_loss)
    then refuse "daily_loss" fail daily_loss_exceeded c
    else record_pass "daily_loss" c

-- The ratio test, on a portfolio value that is not zero or below.
unfoldable pub check_ratio : RiskLimits → Request → Checks → Stage
check_ratio l q c = elim (Float.div q.position_value q.portfolio_value) [
  | none ↦ exception
  | some concentration ↦
      if Float.lt l.max_position_size_pct concentration
      then refuse "concentration" fail concentration_too_high c
      else record_pass "concentration" c
]

unfoldable pub check_concentration : RiskLimits → Request → Checks → Stage
unfolding check_ratio
check_concentration l q c =
    if upper q.sec_type == "CASH"
    then passed (insert_check "concentration" (skipped "forex-cash") c)
    else if not q.portfolio_value_evaluable
    then refuse "concentration" (unevaluable "portfolio-value") portfolio_value_unread c
    else if not q.position_value_evaluable
    then refuse "concentration" (unevaluable "position-value") position_value_unread c
    else if Float.lt zero_float q.position_value
    then if Float.le q.portfolio_value zero_float
      then refuse "concentration" fail concentration_too_high c
      else check_ratio l q c
    else passed (insert_check "concentration" (skipped "zero-notional") c)

-- The opening submissions of the last hour from the same source.
unfoldable pub recent_opens : World → String → ℕ
recent_opens w source = length (
    filter (λ e. e.strategy_name == source && not (is_exit_class e))
      (query_since w.one_hour_ago order_submitted w.events))

unfoldable pub check_order_rate : RiskLimits → World → Request → Checks → Stage
check_order_rate l w q c =
    if leb_ℤ l.max_signals_per_hour (pos (recent_opens w q.source_name))
    then refuse "order_rate" fail order_rate_exceeded c
    else record_pass "order_rate" c

unfoldable pub check_turnover : RiskLimits → World → Request → Checks → Stage
check_turnover l w q =
    check_daily_turnover l w.start_of_day w.events q.source_name q.position_value q.sec_type

-- The stages in their order.
unfoldable pub stages : RiskLimits → World → Request → Stage
stages l w q =
    check_order_notional l q []
    >>= check_option l q
    >>= check_open_orders l q
    >>= check_daily_loss l q
    >>= check_concentration l q
    >>= check_order_rate l w q
    >>= check_turnover l w q

-- `evaluate`; `none` is an exception.
unfoldable pub evaluate : RiskLimits → World → Request → Option RiskGateResult
evaluate l w q = finish (stages l w q)

-- `check_instrument`; with no filter every instrument is approved.
unfoldable pub check_instrument : Option TradingFilter → String → String → String → Bool
check_instrument none symbol exchange sec_type = true
check_instrument (some f) symbol exchange sec_type =
    (is_allowed f symbol exchange sec_type zero_float "").0
