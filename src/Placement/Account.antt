-- ===== src/Placement/Account.antt =====
-- What the placement path reads: contracts, orders, the live account and the trader's settings.
use openwallstreet.Prelude.{ℕ, Bool, Option, String, List}
use openwallstreet.Float.{Float}
use openwallstreet.Risk.Checks.{RiskLimits}
use openwallstreet.Risk.Filter.{TradingFilter}
use openwallstreet.Risk.Gate.{World}
use openwallstreet.Broker.Book.{Book}

-- The text of a contract's multiplier: falsy, not a number, or a number.
pub data Multiplier : Type 0 where
  unset malformed : Multiplier
  factor : Float → Multiplier

-- An ib_async Contract and Order, as far as the placement path reads them. An absent number is 0, an
-- absent text is empty, and an unset price is the largest finite double.
pub record Contract : Type 0 where
  pub con_id : ℕ
  pub symbol : String
  pub exchange : String
  pub sec_type : String
  pub multiplier : Multiplier

pub record Order : Type 0 where
  pub order_id : ℕ
  pub client_id : ℕ
  pub action : String
  pub total_quantity : Float
  pub order_type : String
  pub lmt_price : Float
  pub aux_price : Float
  pub order_ref : String
  pub account : String

pub record Position : Type 0 where
  pub con_id : ℕ
  pub symbol : String
  pub quantity : Float

-- A ticker; none is a value that `float(...)` refuses.
pub record Ticker : Type 0 where
  pub con_id : ℕ
  pub last : Option Float
  pub close : Option Float
  pub ask : Option Float
  pub bid : Option Float

-- An account value; `value` is what `float(...)` makes of it.
pub record AccountValue : Type 0 where
  pub tag : String
  pub currency : String
  pub account : String
  pub value : Option Float

pub record RiskGate : Type 0 where
  pub limits : RiskLimits
  pub trading_filter : Option TradingFilter

-- The trader at one moment, with what the broker's caches answer then. A read that raises is none, and
-- `fills_readable` says whether the event store answers.
pub record Trader : Type 0 where
  pub execution_enabled : Bool
  pub ib_account : String
  pub client_id : ℕ
  pub approver_required_above_usd : Float
  pub approver_key : String
  pub risk_gate : Option RiskGate
  pub world : World
  pub fills_readable : Bool
  pub book : Book
  pub positions : Option (List Position)
  pub pnl : Option (List Float)
  pub account_values : Option (List AccountValue)
  pub managed_accounts : List String
  pub tickers : List Ticker
