-- ===== src/Placement/Tier.antt =====
-- trader/trading/trading_runtime.py: the approver's notional tier.
pub mod Key
use openwallstreet.Prelude.{
  Bool, true, false, not, ◌&&◌, ◌||◌, Option, none, some, String, ◌==◌, string_eq, List, [], ◌∷◌,
  if◌then◌else◌, upper, strip,
}
use openwallstreet.Float
use openwallstreet.Float.{Float, zero_float, literal}
use openwallstreet.Orders.Quantity.{finite_positive, order_notional}
use openwallstreet.Placement.Account.{
  Contract, Multiplier, unset, malformed, factor, Ticker, Trader,
}
use openwallstreet.Placement.Exposure.{order_reduces_exposure}

-- `float(contract.multiplier) if contract.multiplier else 1.0`, and 1.0 where it raises.
unfoldable pub multiplier_of : Multiplier → Float
multiplier_of unset = literal 1 1
multiplier_of malformed = literal 1 1
multiplier_of (factor x) = x

-- The first candidate that is finite and positive.
unfoldable pub first_usable : List (Option Float) → Option Float
unfolding finite_positive
first_usable [] = none
first_usable (p ∷ rest) = let later = first_usable rest in if finite_positive p then p else later

-- The price of a snapshot; one that could not be read is none.
unfoldable pub snapshot_price : String → Option Ticker → Option Float
unfolding first_usable
snapshot_price act none = none
snapshot_price act (some tick) =
    first_usable ((if act == "BUY" then tick.ask else tick.bid) ∷ tick.last ∷ tick.close ∷ [])

-- The client's limit, of an order that is not a market order.
unfoldable pub limit_of : String → Option Float → Option Float
unfolding finite_positive
limit_of order_type limit_price =
    if upper (strip order_type) == "MARKET"
    then none
    else if finite_positive limit_price
    then limit_price
    else none

-- `max(snapshot, limit)`, or the snapshot alone.
unfoldable pub anchored : Float → Option Float → Float
anchored snapshot none = snapshot
anchored snapshot (some limit) = Float.max snapshot limit

-- `_tier_notional`
unfoldable pub tier_notional :
    Contract → String → Float → String → Option Float → Option Ticker → Float × Bool
unfolding snapshot_price limit_of anchored multiplier_of
tier_notional c action quantity order_type limit_price tick =
    elim (snapshot_price (upper (strip action)) tick) [
      | none ↦ (zero_float, false)
      | some price ↦
          order_notional (some (anchored price (limit_of order_type limit_price)) ∷ [])
            (some quantity) (some (multiplier_of c.multiplier))
    ]

pub data TierError : Type 0 where
  not_valued key_required : TierError

-- The threshold, on a valuation; `hmac.compare_digest` is equality.
unfoldable pub check_key : Float → String → String → Float × Bool → Option TierError
check_key threshold supplied expected (notional, false) = some not_valued
check_key threshold supplied expected (notional, true) =
    if Float.lt threshold notional && (expected == "" || not (supplied == expected))
    then some key_required
    else none

-- `enforce_approver_tier`; an error refuses the order.
unfoldable pub enforce_approver_tier :
    Trader
    → Contract
    → String
    → Float
    → String
    → Option Float
    → String
    → Bool
    → Option Ticker
    → Option TierError
enforce_approver_tier t c action quantity order_type limit_price approver_key force_open tick =
    if Float.le t.approver_required_above_usd zero_float
    then none
    else if not force_open && order_reduces_exposure t c action quantity
    then none
    else check_key t.approver_required_above_usd approver_key t.approver_key
        (tier_notional c action quantity order_type limit_price tick)
