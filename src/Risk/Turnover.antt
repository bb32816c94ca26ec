-- ===== src/Risk/Turnover.antt =====
-- `_daily_open_notional` and `_check_daily_turnover` of trader/trading/risk_gate.py.
pub mod Opens
use openwallstreet.Prelude.{
  ℕ, suc, Bool, true, false, not, ◌&&◌, ◌||◌, Option, none, some, String, ◌==◌, string_eq, nat_eq,
  List, [], ◌∷◌, any, eqb, ltb, if◌then◌else◌, Dict, lookup, insert, get_or, contains, upper,
}
use openwallstreet.Float
use openwallstreet.Float.{Float, zero_float}
use openwallstreet.Orders.Quantity.{finite_positive, order_notional}
use openwallstreet.Risk.Events.{
  TradingEvent, Json, big, truthy, to_float, get_truth, is_exit_class, query_since, order_submitted,
  order_filled,
}
use openwallstreet.Risk.Checks.{
  RiskLimits, Checks, Stage, passed, exception, ◌>>=◌, record_pass, refuse, fail, unevaluable,
  turnover_unread, strategy_turnover_exceeded, account_turnover_exceeded,
}

-- `fill_price.setdefault(order_id, price)` for each fill with a usable price and an order.
unfoldable pub fill_prices : List TradingEvent → Dict ℕ Float → Dict ℕ Float
fill_prices [] known = known
fill_prices (f ∷ rest) known = fill_prices rest (elim f.price [
  | none ↦ known
  | some price ↦
      if finite_positive (some price) && (ltb 0 f.order_id && not (contains f.order_id known))
      then insert f.order_id price known
      else known
])

-- The recorded notional of a submission, if it is evaluable and a finite number that is not negative.
unfoldable pub recorded_notional : TradingEvent → Option Float
recorded_notional e =
    if not (get_truth (lookup "notional_evaluable" e.metadata))
    then none
    else elim (lookup "notional" e.metadata) [
      | none ↦ none
      | some raw ↦ elim (to_float raw) [
        | none ↦ none
        | some x ↦ if Float.is_finite x && Float.le zero_float x then some x else none
      ]
    ]

-- `float(raw)` of the recorded notional raises OverflowError, which nothing catches.
abbrev pub is_big : Option Json → Bool
is_big (some big) = true
is_big _ = false

unfoldable pub overflows : TradingEvent → Bool
overflows e =
    not (is_exit_class e)
    && (get_truth (lookup "notional_evaluable" e.metadata) && is_big (lookup "notional" e.metadata))

-- The notional of a submission: recorded, or from its own price, or from the price that it filled at.
unfoldable pub notional_of : Dict ℕ Float → TradingEvent → Option Float
unfolding recorded_notional
notional_of fills e = elim (recorded_notional e) [
  | some x ↦ some x
  | none ↦
      let (value, evaluable) =
        order_notional (e.price ∷ lookup e.order_id fills ∷ []) e.quantity
          (some (Float.literal 1 1)) in
      if evaluable then some value else none
]

pub record Turnover : Type 0 where
  pub total : Float
  pub per_strategy : Dict String Float
  pub unvaluable : ℕ
  pub legacy : ℕ

-- One submission of today.
unfoldable pub tally : Dict ℕ Float → TradingEvent → Turnover → Turnover
unfolding notional_of
tally fills e t = if is_exit_class e then t else elim (notional_of fills e) [
  | none ↦
      if contains "notional_evaluable" e.metadata
      then record t { unvaluable = suc t.unvaluable }
      else record t { legacy = suc t.legacy }
  | some notional ↦ record t {
    total = Float.add t.total notional;
    per_strategy =
        insert e.strategy_name
          (Float.add (get_or e.strategy_name zero_float t.per_strategy) notional) t.per_strategy;
  }
]

unfoldable pub tally_all : Dict ℕ Float → List TradingEvent → Turnover → Turnover
unfolding tally
tally_all fills [] t = t
tally_all fills (e ∷ rest) t = tally_all fills rest (tally fills e t)

abbrev pub no_turnover : Turnover
no_turnover = record { total = zero_float; per_strategy = []; unvaluable = 0; legacy = 0 }

-- The turnover from the start of the day, where no notional overflows.
unfoldable pub tally_day : ℕ → List TradingEvent → Turnover
unfolding fill_prices tally_all
tally_day start_of_day events =
    let fills = fill_prices (query_since start_of_day order_filled events) [] in
    tally_all fills (query_since start_of_day order_submitted events) no_turnover

-- `_daily_open_notional`; none is the exception.
unfoldable pub daily_open_notional : ℕ → List TradingEvent → Option Turnover
unfolding tally_day overflows
daily_open_notional start_of_day events =
    if any overflows (query_since start_of_day order_submitted events)
    then none
    else some (tally_day start_of_day events)

-- The two caps on a turnover that could be read.
unfoldable pub check_caps : RiskLimits → String → Float → Turnover → Checks → Stage
check_caps limits source this_order t c =
    let mine = get_or source zero_float t.per_strategy in
    if Float.lt zero_float limits.max_daily_open_notional_per_strategy
      && Float.lt limits.max_daily_open_notional_per_strategy (Float.add mine this_order)
    then refuse "daily_turnover" fail strategy_turnover_exceeded c
    else if Float.lt zero_float limits.max_daily_open_notional
        && Float.lt limits.max_daily_open_notional (Float.add t.total this_order)
    then refuse "daily_turnover" fail account_turnover_exceeded c
    else record_pass "daily_turnover" c

-- `_check_daily_turnover`; a cap of 0.0 is off, and it does not apply to a currency conversion.
unfoldable pub check_daily_turnover :
    RiskLimits → ℕ → List TradingEvent → String → Float → String → Checks → Stage
unfolding check_caps
check_daily_turnover limits start_of_day events source position_value sec_type c =
    if Float.le limits.max_daily_open_notional zero_float
      && Float.le limits.max_daily_open_notional_per_strategy zero_float
    then passed c
    else if upper sec_type == "CASH"
    then passed c
    else let this_order =
        if Float.lt zero_float position_value then position_value else zero_float in
      elim (daily_open_notional start_of_day events) [
        | none ↦ exception
        | some t ↦
            if ltb 0 t.unvaluable
            then refuse "daily_turnover" (unevaluable "turnover-history") turnover_unread c
            else check_caps limits source this_order t c
      ]
