-- ===== src/Placement/Direct.antt =====
-- The direct path: `helper_create_order` of trader/trading/executioner.py, and `place_order_simple` of
-- trader/trading/trading_runtime.py from the snapshot on, which splits an order that crosses zero.
pub mod Halves
use openwallstreet.Prelude.{
  ℕ, Bool, true, false, not, ◌&&◌, ◌||◌, Option, none, some, String, ◌==◌, string_eq, List, [], ◌∷◌,
  if◌then◌else◌, pos,
}
use openwallstreet.Float
use openwallstreet.Float.{Float, zero_float, literal}
use openwallstreet.Orders.Quantity.{
  finite_positive, shares_of, value_error, whole_shares_for_notional,
}
use openwallstreet.Orders.Split.{SplitPlan, is_flip}
use openwallstreet.Sizing.Sizer.{round_cents}
use openwallstreet.Placement.Account.{Contract, Multiplier, Order, Ticker, Trader}
use openwallstreet.Placement.Exposure.{split_for_order}
use openwallstreet.Placement.Tier.{multiplier_of}
use openwallstreet.Placement.Sink.{
  Refusal, gate_raised, snapshot_raised, refused, submitted, Placed,
}
use openwallstreet.Placement.Executioner.{Call, Run, hint_multiplier, place_order}

-- `Action`
pub data Action : Type 0 where
  buy sell neutral : Action

abbrev pub action_text : Action → String
action_text buy = "BUY"
action_text sell = "SELL"
action_text neutral = "NEUTRAL"

abbrev pub is_buy : Action → Bool
is_buy buy = true
is_buy _ = false

abbrev pub is_sell : Action → Bool
is_sell sell = true
is_sell _ = false

-- MarketOrder and LimitOrder of ib_async, by the arguments that vary: action, quantity, price, reference and
-- account.
pub record SimpleClasses : Type 0 where
  pub market_order : String → Float → String → String → Order
  pub limit_order : String → Float → Float → String → String → Order

-- The arguments of `place_order_simple`; `skip_risk_gate` is ignored where it arrives.
pub record Simple : Type 0 where
  pub contract : Contract
  pub action : Action
  pub equity_amount : Option Float
  pub quantity : Option Float
  pub limit_price : Option Float
  pub market_order : Bool
  pub stop_loss_percentage : Float
  pub algo_name : String
  pub debug : Bool
  pub approver_key : String
  pub allow_open : Bool

-- Python's truth of an optional number.
abbrev pub is_given : Option Float → Bool
is_given none = false
is_given (some x) = not (Float.eq x zero_float)

-- The side of the market that the order meets.
abbrev pub side_price : Action → Ticker → Option Float
side_price act tick = if is_buy act then tick.ask else tick.bid

-- The share count of an amount, with its assertion; none is an exception.
unfoldable pub sized_quantity : Contract → Option Float → Option Float → Option Float
sized_quantity c (some amount) (some price) = elim (hint_multiplier c.multiplier) [
  | none ↦ none
  | some multiplier ↦
      elim (whole_shares_for_notional (some amount) (some price) (some multiplier)) [
        | value_error e ↦ none
        | shares_of n ↦
            let quantity = Float.of_ℤ (pos n) in
            if Float.le (Float.mul (Float.mul quantity price) multiplier)
              (Float.mul amount (literal 105 100))
            then some quantity
            else none
      ]
]
sized_quantity c _ _ = none

unfoldable pub order_quantity : Simple → Option Float → Ticker → Option Float
unfolding sized_quantity
order_quantity s quantity tick =
    if is_given quantity
    then quantity
    else sized_quantity s.contract s.equity_amount (side_price s.action tick)

abbrev pub limit_or_market : Simple → Ticker → Option Float
limit_or_market s tick =
    if is_given s.limit_price
    then s.limit_price
    else if s.market_order
    then tick.ask
    else some zero_float

-- The price of debugging, which moves it by a tenth; none is a TypeError.
unfoldable pub order_price : Simple → Ticker → Option Float
order_price s tick = elim (limit_or_market s tick) [
  | none ↦ if s.debug && (is_buy s.action || is_sell s.action) then none else some zero_float
  | some price ↦
      if not s.debug
      then some price
      else if is_buy s.action
      then some (round_cents (Float.mul (Float.mul price (literal 9 10)) (literal 9 10)))
      else if is_sell s.action
      then some (round_cents (Float.mul price (literal 11 10)))
      else some price
]

-- `limit_price and limit_price <= 0.0`, a percentage out of range or given, and no quantity at all.
unfoldable pub is_invalid : Simple → Option Float → Option Float → Bool
is_invalid s equity_amount quantity =
    (is_given s.limit_price && elim s.limit_price [ none ↦ false | some x ↦ Float.le x zero_float ])
    || (Float.le (literal 1 1) s.stop_loss_percentage
        || (Float.lt s.stop_loss_percentage zero_float
            || (Float.lt zero_float s.stop_loss_percentage
                || not (is_given equity_amount || is_given quantity))))

unfoldable pub build_simple : SimpleClasses → String → Simple → Float → Float → Order
build_simple ib account s quantity price =
    if s.market_order
    then ib.market_order (action_text s.action) quantity s.algo_name account
    else ib.limit_order (action_text s.action) quantity price s.algo_name account

-- `helper_create_order`; none is an exception.
unfoldable pub helper_create_order :
    SimpleClasses → String → Simple → Option Float → Option Float → Ticker → Option Order
unfolding is_invalid order_quantity order_price build_simple
helper_create_order ib account s equity_amount quantity tick =
    if is_invalid s equity_amount quantity
    then none
    else elim (order_quantity (record s { equity_amount = equity_amount }) quantity tick) [
      | none ↦ none
      | some n ↦ elim (order_price s tick) [
        | none ↦ none
        | some price ↦ some (build_simple ib account s n price)
      ]
    ]

-- The value that the concentration check is given: that of the whole order, at the limit or the market.
unfoldable pub value_hint : Simple → Ticker → Order → Option Float
unfolding finite_positive multiplier_of
value_hint s tick o =
    let market = side_price s.action tick in
    let price =
      if finite_positive s.limit_price
      then s.limit_price
      else if finite_positive market
      then market
      else none in
    elim price [
      | none ↦ none
      | some p ↦ some (
          Float.mul (Float.mul (Float.abs o.total_quantity) p)
            (multiplier_of s.contract.multiplier))
    ]

abbrev pub call_of : Simple → Option Float → Bool → Order → Call
call_of s hint force_open o = record {
  contract = s.contract;
  order = o;
  sanity_check = true;
  position_value_hint = hint;
  approver_key = s.approver_key;
  force_open = force_open;
}

-- The refusals that are exceptions, which end `place_order_simple` as well.
abbrev pub is_raised : Placed → Bool
is_raised (refused gate_raised, events) = true
is_raised (refused snapshot_raised, events) = true
is_raised _ = false

-- What is placed: nothing, one order, the reduction alone, or both halves.
pub data Direct : Type 0 where
  raised : Direct
  whole reduced : Placed → Direct
  both : Placed → Placed → Direct

-- The opening half, after the reduction.
unfoldable pub place_open :
    SimpleClasses → Trader → Run → Simple → Ticker → Option Float → SplitPlan → Placed → Direct
unfolding helper_create_order
place_open ib t w s tick hint plan first =
    if is_raised first || not s.allow_open
    then reduced first
    else elim (helper_create_order ib t.ib_account s none (some plan.open_qty) tick) [
      | none ↦ reduced first
      | some o ↦ both first (place_order w (call_of s hint true o))
    ]

unfoldable pub place_flip :
    SimpleClasses → Trader → Run → Run → Simple → Ticker → Option Float → SplitPlan → Direct
unfolding helper_create_order place_open
place_flip ib t w₁ w₂ s tick hint plan =
    elim (helper_create_order ib t.ib_account s none (some plan.reduce_qty) tick) [
      | none ↦ raised
      | some o ↦ place_open ib t w₂ s tick hint plan (place_order w₁ (call_of s hint false o))
    ]

-- `place_order_simple`, with the trader that it splits by and the runs of its one or two placements.
unfoldable pub place_order_simple : SimpleClasses → Trader → Run → Run → Simple → Ticker → Direct
unfolding helper_create_order value_hint place_flip
place_order_simple ib t w₁ w₂ s tick =
    elim (helper_create_order ib t.ib_account s s.equity_amount s.quantity tick) [
      | none ↦ raised
      | some o ↦
          let plan = split_for_order t s.contract (action_text s.action) o.total_quantity in
          let hint = value_hint s tick o in
          if is_flip plan
          then place_flip ib t w₁ w₂ s tick hint plan
          else whole (place_order w₁ (call_of s hint false o))
    ]
