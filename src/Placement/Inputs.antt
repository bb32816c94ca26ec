-- ===== src/Placement/Inputs.antt =====
-- trader/trading/trading_runtime.py: the account state that the risk gate reads.
use openwallstreet.Prelude.{
  ℕ, Bool, true, false, not, ◌&&◌, ◌||◌, Option, none, some, String, ◌==◌, string_eq, List, [], ◌∷◌,
  non_empty, if◌then◌else◌,
}
use openwallstreet.Float
use openwallstreet.Float.{Float, zero_float}
use openwallstreet.Risk.Events.{order_filled, query_since}
use openwallstreet.Broker.Book.{get_open_order_count}
use openwallstreet.Placement.Account.{AccountValue, Position, Trader}

-- `RiskInputs`
pub record RiskInputs : Type 0 where
  pub open_order_count : ℕ
  pub daily_pnl : Float
  pub daily_pnl_evaluable : Bool
  pub portfolio_value : Float
  pub portfolio_value_evaluable : Bool

abbrev pub holds_any : Option (List Position) → Bool
holds_any none = true
holds_any (some ps) = non_empty ps

-- `_has_today_trading_activity`; a read that fails counts as activity.
unfoldable pub has_today_trading_activity : Trader → Bool
has_today_trading_activity t =
    holds_any t.positions
    || (not t.fills_readable
        || non_empty (query_since t.world.start_of_day order_filled t.world.events))

-- The sum of the day's profits and losses, unless one of them is not finite.
unfoldable pub sum_pnl : Float → List Float → Float × Bool
sum_pnl total [] = (total, true)
sum_pnl total (x ∷ rest) =
    let later = sum_pnl (Float.add total x) rest in
    if not (Float.is_finite x) then (zero_float, false) else later

-- The daily profit and loss, and whether it could be read.
unfoldable pub daily_pnl_of : Trader → Float × Bool
unfolding sum_pnl
daily_pnl_of t = elim t.pnl [
  | none ↦ (zero_float, false)
  | some [] ↦ (zero_float, not (has_today_trading_activity t))
  | some (x ∷ xs) ↦ sum_pnl zero_float (x ∷ xs)
]

abbrev first_account : List String → String
first_account [] = ""
first_account (a ∷ rest) = a

abbrev pub active_account : Trader → String
active_account t = if t.ib_account == "" then first_account t.managed_accounts else t.ib_account

abbrev pub is_net_liquidation : String → AccountValue → Bool
is_net_liquidation account v =
    v.tag == "NetLiquidation"
    && (not (v.currency == "BASE") && (account == "" || (v.account == "" || v.account == account)))

-- The first NetLiquidation of the account.
unfoldable pub net_liquidation : String → List AccountValue → Float × Bool
net_liquidation account [] = (zero_float, false)
net_liquidation account (v ∷ rest) =
    let later = net_liquidation account rest in
    if is_net_liquidation account v
    then elim v.value [ none ↦ (zero_float, false) | some x ↦ (x, true) ]
    else later

abbrev pub portfolio_value_of : Trader → Float × Bool
unfolding net_liquidation
portfolio_value_of t = elim t.account_values [
  | none ↦ (zero_float, false)
  | some vs ↦ net_liquidation (active_account t) vs
]

-- `gather_risk_inputs`
unfoldable pub gather_risk_inputs : Trader → RiskInputs
unfolding daily_pnl_of portfolio_value_of
gather_risk_inputs t = record {
  open_order_count = get_open_order_count t.book;
  daily_pnl = (daily_pnl_of t).0;
  daily_pnl_evaluable = (daily_pnl_of t).1;
  portfolio_value = (portfolio_value_of t).0;
  portfolio_value_evaluable = (portfolio_value_of t).1;
}
