-- ===== src/Orders/Structure.antt =====
-- trader/trading/order_structure.py and its façade trader/trading/order_validator.py.
pub mod Sane
use openwallstreet.Prelude.{
  Bool, true, false, not, ◌&&◌, ◌||◌, Option, none, some, if◌then◌else◌, String, ◌==◌, string_eq,
  upper, strip, List, [], ◌∷◌, elem,
}
use openwallstreet.Float.{Float}
use openwallstreet.Orders.Quantity.{finite_positive}

-- The reasons of `structural_rejection`, with the normalised text that each message shows.
pub data Rejection : Type 0 where
  invalid_action : String → Rejection
  bad_quantity : Rejection
  no_limit_price : String → Rejection
  no_stop_price : String → Rejection

abbrev pub needs_limit : List String
needs_limit = "LMT" ∷ "STP LMT" ∷ []

abbrev pub needs_stop : List String
needs_stop = "STP" ∷ "STP LMT" ∷ []

-- `_normalize`
unfoldable pub normalize : String → String
normalize text = upper (strip text)

-- The checks of the prices, for a normalised order type.
unfoldable pub price_rejection : String → Option Float → Option Float → Option Rejection
price_rejection otype limit_price stop_price =
    if elem otype needs_limit && not (finite_positive limit_price)
    then some (no_limit_price otype)
    else if elem otype needs_stop && not (finite_positive stop_price)
    then some (no_stop_price otype)
    else none

unfoldable pub structural_rejection :
    String → Option Float → String → Option Float → Option Float → Option Rejection
unfolding price_rejection
structural_rejection action quantity order_type limit_price stop_price =
    let act = normalize action in
    if not (act == "BUY" || act == "SELL")
    then some (invalid_action act)
    else if not (finite_positive quantity)
    then some bad_quantity
    else price_rejection (normalize order_type) limit_price stop_price

-- The structural fields of an ib_async Order, as `getattr` and `float` read them.
pub record Order : Type 0 where
  pub action : String
  pub total_quantity : Option Float
  pub order_type : String
  pub lmt_price : Option Float
  pub aux_price : Option Float

unfoldable pub rejection_for_order : Order → Option Rejection
rejection_for_order o =
    structural_rejection o.action o.total_quantity o.order_type o.lmt_price o.aux_price

-- `OrderValidator.sanity_check_order`
unfoldable pub sanity_check_order : Order → Bool
sanity_check_order o = elim (rejection_for_order o) [ none ↦ true | some r ↦ false ]

-- `OrderValidator.sanity_check_basket`
unfoldable pub sanity_check_basket : List Order → Bool
sanity_check_basket [] = true
sanity_check_basket (o ∷ rest) =
    let later = sanity_check_basket rest in
    elim (rejection_for_order o) [ none ↦ later | some r ↦ false ]
