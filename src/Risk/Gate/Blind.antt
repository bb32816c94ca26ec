-- ===== src/Risk/Gate/Blind.antt =====
-- Blind spots and their absence: what the gate does on data that it cannot value.
use openwallstreet.Prelude.{
  ◌≡◌, ◌≢◌, true, false, ◌&&◌, arith, string_eq, eq_iff, [], Bool-cases, inl, inr, upper, lt→ltb,
}
use openwallstreet.Float
use openwallstreet.Float.{Float, nan, zero_float}
use openwallstreet.Float.Laws.{div_nan}
use openwallstreet.Risk.Events.{TradingEvent, order_submitted, order_filled, query_since}
use openwallstreet.Risk.Turnover.{fill_prices}
use openwallstreet.Risk.Turnover.Opens.{
  Among, IsUnvaluable, tally_day-unvaluable, daily_open_notional-tally_day,
}
use openwallstreet.Risk.Checks.{RiskLimits, Checks, passed, pass, insert_check}
use openwallstreet.Risk.Gate.{Request, World, check_concentration, evaluate}
use openwallstreet.Risk.Gate.Bounds.{approves, evaluate_iff}

-- While a turnover cap is on, an order that is no currency conversion is refused if one of today's
-- opening submissions was recorded by this build and cannot be valued.
evaluate-unvaluable :
    (l : RiskLimits) (w : World) (q : Request) (e : TradingEvent)
    → (Float.le l.max_daily_open_notional zero_float
        && Float.le l.max_daily_open_notional_per_strategy zero_float)
      ≡ false
    → upper q.sec_type ≢ "CASH"
    → Among e (query_since w.start_of_day order_submitted w.events)
    → IsUnvaluable (fill_prices (query_since w.start_of_day order_filled w.events) []) e
    → approves (evaluate l w q) ≡ false
evaluate-unvaluable l w q e on other among h = elim (Bool-cases (approves (evaluate l w q))) [
  | inr refused ↦ refused
  | inl approved ↦
      let unread = lt→ltb 0 _ (tally_day-unvaluable w.start_of_day w.events e among h) in
      let (t, read, within) = ((evaluate_iff l w q).0 approved).turnover on other in
      absurd (cc (within.0, unread, daily_open_notional-tally_day w.start_of_day w.events t read))
]

-- A portfolio value of NaN that is marked as read lets a position of any size pass the concentration
-- check, whatever its limit.
pub check_concentration-nan :
    (l : RiskLimits) (q : Request) (c : Checks)
    → q.portfolio_value ≡ nan
    → q.portfolio_value_evaluable ≡ true
    → q.position_value_evaluable ≡ true
    → Float.lt zero_float q.position_value ≡ true
    → upper q.sec_type ≢ "CASH"
    → check_concentration l q c ≡ passed (insert_check "concentration" pass c)
unfolding check_concentration Float.le Float.lt
check_concentration-nan l q c h pe ve opens other =
    ground (arith, div_nan q.position_value, eq_iff (upper q.sec_type) "CASH")
