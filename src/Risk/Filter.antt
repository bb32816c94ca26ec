-- ===== src/Risk/Filter.antt =====
-- trader/trading/trading_filter.py: `TradingFilter.is_allowed`.
pub mod Rules
use openwallstreet.Prelude.{
  Bool, true, false, not, ◌&&◌, Option, none, some, String, ◌==◌, string_eq, List, map, elem,
  if◌then◌else◌, upper, non_empty,
}
use openwallstreet.Float
use openwallstreet.Float.{Float, zero_float}

pub record TradingFilter : Type 0 where
  pub denylist : List String
  pub allowlist : List String
  pub exchanges : List String
  pub deny_exchanges : List String
  pub sec_types : List String
  pub deny_sec_types : List String
  pub locations : List String
  pub deny_locations : List String
  pub min_price : Float

-- The refusals of `is_allowed`, with the text that each shows.
pub data FilterReason : Type 0 where
  not_in_allowlist on_denylist exchange_denied exchange_not_allowed : String → FilterReason
  sec_type_denied sec_type_not_allowed location_denied location_not_allowed : String → FilterReason
  price_below_minimum : FilterReason

-- `x in {s.upper() for s in names}`
abbrev pub listed : String → List String → Bool
listed x names = elem x (map upper names)

-- The block of one attribute: a denied value, then one that is not among the allowed ones. An empty
-- attribute is not checked, and an empty list checks nothing.
unfoldable pub attribute_reason :
    (String → FilterReason)
    → (String → FilterReason)
    → List String
    → List String
    → String
    → Option FilterReason
attribute_reason denied not_allowed deny allow value =
    if value == ""
    then none
    else let v = upper value in
      if non_empty deny && listed v deny
      then some (denied v)
      else if non_empty allow && not (listed v allow)
      then some (not_allowed v)
      else none

-- The next block, if the ones before it let the instrument pass.
abbrev pub or_else : Option FilterReason → Option FilterReason → Option FilterReason
or_else none next = next
or_else (some r) next = some r

unfoldable pub symbol_reason : TradingFilter → String → Option FilterReason
symbol_reason f symbol =
    let sym = upper symbol in
    if non_empty f.allowlist && not (listed sym f.allowlist)
    then some (not_in_allowlist sym)
    else if listed sym f.denylist
    then some (on_denylist sym)
    else none

unfoldable pub price_reason : TradingFilter → Float → Option FilterReason
price_reason f price =
    if Float.lt zero_float price && (Float.lt zero_float f.min_price && Float.lt price f.min_price)
    then some price_below_minimum
    else none

-- `is_allowed`: the reason of a refusal, or none.
unfoldable pub refusal :
    TradingFilter → String → String → String → Float → String → Option FilterReason
refusal f symbol exchange sec_type price location = or_else (symbol_reason f symbol) (
    or_else
      (attribute_reason exchange_denied exchange_not_allowed f.deny_exchanges f.exchanges exchange)
      (or_else
        (attribute_reason sec_type_denied sec_type_not_allowed f.deny_sec_types f.sec_types
          sec_type)
        (or_else
          (attribute_reason location_denied location_not_allowed f.deny_locations f.locations
            location)
          (price_reason f price))))

unfoldable pub is_allowed :
    TradingFilter → String → String → String → Float → String → Bool × Option FilterReason
is_allowed f symbol exchange sec_type price location =
    let r = refusal f symbol exchange sec_type price location in
    (elim r [ none ↦ true | some why ↦ false ], r)

-- `is_empty`
unfoldable pub is_empty : TradingFilter → Bool
is_empty f =
    not (non_empty f.denylist)
    && (not (non_empty f.allowlist)
        && (not (non_empty f.exchanges)
            && (not (non_empty f.deny_exchanges)
                && (not (non_empty f.sec_types)
                    && (not (non_empty f.deny_sec_types)
                        && (not (non_empty f.locations)
                            && (not (non_empty f.deny_locations)
                                && Float.le f.min_price zero_float)))))))
