-- ===== src/Risk/Leverage.antt =====
-- `RiskGate.check_leverage` of trader/trading/risk_gate.py.
pub mod Cushion
use openwallstreet.Prelude.{
  Bool, true, false, not, ◌&&◌, Option, none, some, String, List, [], if◌then◌else◌,
}
use openwallstreet.Float
use openwallstreet.Float.{Float, zero_float}
use openwallstreet.Risk.Checks.{
  RiskLimits, Checks, Stage, passed, exception, ◌>>=◌, record_pass, refuse, insert_check, finish,
  RiskGateResult, fail, unevaluable, net_liquidation_unread, margin_unread, leverage_exceeded,
  equity_unread, cushion_too_low,
}

-- The two entries of `margin_impact` that are read; an absent one is none.
pub record MarginImpact : Type 0 where
  pub init_margin_after : Option Float
  pub equity_with_loan_after : Option Float

-- `margin_impact.get(key, 0)`
unfoldable pub get_margin : Option Float → Float
get_margin none = zero_float
get_margin (some x) = x

unfoldable pub check_cushion : RiskLimits → Float → Float → Float → Checks → Stage
check_cushion l init equity net_liquidation c =
    if Float.eq equity zero_float
    then refuse "margin_cushion" (unevaluable "equity-data") equity_unread c
    else elim (Float.div (Float.sub equity init) net_liquidation) [
      | none ↦ exception
      | some cushion ↦
          if Float.lt cushion l.min_margin_cushion
          then refuse "margin_cushion" fail cushion_too_low c
          else record_pass "margin_cushion" c
    ]

unfoldable pub check_leverage_ratio : RiskLimits → Float → Float → Checks → Stage
check_leverage_ratio l init net_liquidation c = elim (Float.div init net_liquidation) [
  | none ↦ exception
  | some post_leverage ↦
      if Float.lt l.max_leverage post_leverage
      then refuse "leverage" fail leverage_exceeded c
      else record_pass "leverage" c
]

unfoldable pub leverage_stages : RiskLimits → MarginImpact → Float → Stage
leverage_stages l m net_liquidation =
    let init = get_margin m.init_margin_after in
    if Float.le net_liquidation zero_float
    then refuse "margin_cushion" (unevaluable "net-liq") net_liquidation_unread
        (insert_check "leverage" (unevaluable "net-liq") [])
    else if Float.eq init zero_float
    then refuse "margin_cushion" (unevaluable "margin-data") margin_unread
        (insert_check "leverage" (unevaluable "margin-data") [])
    else check_leverage_ratio l init net_liquidation []
      >>= check_cushion l init (get_margin m.equity_with_loan_after) net_liquidation

-- `check_leverage`; `none` would be a ZeroDivisionError.
unfoldable pub check_leverage : RiskLimits → MarginImpact → Float → Option RiskGateResult
check_leverage l m net_liquidation = finish (leverage_stages l m net_liquidation)
