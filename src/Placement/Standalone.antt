-- ===== src/Placement/Standalone.antt =====
-- `place_standalone_order` of trader/trading/trading_runtime.py: a protective order beside a position.
pub mod Covered
use openwallstreet.Prelude.{
  ℕ, Bool, true, false, not, ◌&&◌, ◌||◌, Option, none, some, String, ◌==◌, string_eq, List, [], ◌∷◌,
  ltb, if◌then◌else◌,
}
use openwallstreet.Float
use openwallstreet.Float.{Float, zero_float, literal}
use openwallstreet.Risk.Events.{TradingEvent}
use openwallstreet.Placement.Account.{Contract, Order, Trader}
use openwallstreet.Placement.Exposure.{signed_position, order_reduces_exposure}
use openwallstreet.Placement.Sink.{
  ApprovedOrder, validated_standalone, Refusal, Placement, submitted, refused, Placed,
  subscribe_place_order_direct,
}

-- The order classes of ib_async, by the arguments that vary: action, quantity, price and account.
pub record OrderClasses : Type 0 where
  pub stop_order : String → Float → Float → String → Order
  pub trail_order : String → Float → String → Order
  pub limit_order : String → Float → Float → String → Order

-- The arguments of `place_standalone_order`, but for the times in force.
pub record Standalone : Type 0 where
  pub contract : Contract
  pub action : String
  pub quantity : Float
  pub order_type : String
  pub aux_price : Float
  pub limit_price : Float
  pub trailing_percent : Float
  pub order_ref : String

pub data StandaloneError : Type 0 where
  not_exit_class exceeds_position unsupported_type : StandaloneError
  not_placed : Refusal → StandaloneError

pub data StandaloneResult : Type 0 where
  success : ApprovedOrder → StandaloneResult
  fail : StandaloneError → StandaloneResult

-- The position of the contract's id alone.
unfoldable pub own_position : Trader → Contract → Option Float
own_position t c = if ltb 0 c.con_id then signed_position t c.con_id else none

-- `abs(held) + 1e-9 * max(1.0, abs(held))`
unfoldable pub tolerated : Float → Float
tolerated held =
    Float.add (Float.abs held)
      (Float.mul (literal 1 1000000000) (Float.max (literal 1 1) (Float.abs held)))

unfoldable pub exceeds : Option Float → Float → Bool
unfolding tolerated
exceeds none quantity = true
exceeds (some held) quantity = Float.lt (tolerated held) (Float.abs quantity)

abbrev pub is_truthy : Float → Bool
is_truthy x = not (Float.eq x zero_float)

-- The price of a trailing order that has no percentage; one with a percentage keeps its class's price.
abbrev pub set_trail : Standalone → Order → Order
set_trail s o =
    if is_truthy s.trailing_percent
    then o
    else if is_truthy s.aux_price
    then record o { aux_price = s.aux_price }
    else o

abbrev pub set_ref : Standalone → Order → Order
set_ref s o = if s.order_ref == "" then o else record o { order_ref = s.order_ref }

unfoldable pub build_order : OrderClasses → String → Standalone → Option Order
build_order ib account s =
    if s.order_type == "STP"
    then some (ib.stop_order s.action s.quantity s.aux_price account)
    else if s.order_type == "TRAIL"
    then some (set_trail s (ib.trail_order s.action s.quantity account))
    else if s.order_type == "LMT"
    then some (ib.limit_order s.action s.quantity s.limit_price account)
    else none

unfoldable pub mint_standalone : Standalone → Order → ApprovedOrder
mint_standalone s o = record {
  contract = s.contract;
  order = set_ref s o;
  is_exit = true;
  checks = [];
  exit_reason = some validated_standalone;
}

abbrev pub report : Placed → StandaloneResult × List TradingEvent
report (submitted a, events) = (success a, events)
report (refused r, events) = (fail (not_placed r), events)

-- `place_standalone_order`, with the events that it appends.
unfoldable pub place_standalone_order :
    OrderClasses → ℕ → Trader → Bool → Standalone → StandaloneResult × List TradingEvent
unfolding own_position exceeds build_order mint_standalone
place_standalone_order ib now t accepts s =
    if not (order_reduces_exposure t s.contract s.action s.quantity)
    then (fail not_exit_class, [])
    else if exceeds (own_position t s.contract) s.quantity
    then (fail exceeds_position, [])
    else elim (build_order ib t.ib_account s) [
      | none ↦ (fail unsupported_type, [])
      | some o ↦ report (subscribe_place_order_direct now t accepts (mint_standalone s o))
    ]
