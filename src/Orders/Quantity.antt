-- ===== src/Orders/Quantity.antt =====
-- trader/trading/order_math.py.
pub mod Shares
pub mod Notional
use openwallstreet.Prelude.{
  ℕ, zero, suc, ◌≡◌, Bool, true, false, not, ◌&&◌, ◌||◌, Option, none, some, List, [], ◌∷◌, ltb,
  if◌then◌else◌, ℤ, pos, negsuc, pos_part, ◌-◌,
}
use openwallstreet.Float
use openwallstreet.Float.{Float, fin, zero_float}

-- `_all_finite_positive` of one value; `none` is a value that is no number.
unfoldable pub finite_positive : Option Float → Bool
finite_positive none = false
finite_positive (some x) = Float.is_finite x && Float.lt zero_float x

unfoldable pub reducible_quantity : Option Float → Option Float → Float
unfolding finite_positive
reducible_quantity (some attributed) (some broker) =
    if not (finite_positive (some attributed) && finite_positive (some broker))
    then zero_float
    else Float.min attributed broker
reducible_quantity _ _ = zero_float

-- The three ValueErrors of `_floor_shares_for_notional`, and the ones that name a parameter.
pub data ValueError : Type 0 where
  bad_amount bad_price bad_multiplier degenerate_price degenerate_ratio below_one_share : ValueError

pub data Result : Type 0 where
  shares_of : ℕ → Result
  value_error : ValueError → Result

-- `shares * price * multiplier`
unfoldable pub cost : ℕ → Float → Float → Float
cost shares price multiplier = Float.mul (Float.mul (Float.of_ℤ (pos shares)) price) multiplier

-- `while shares >= 1 and shares * price * multiplier > amount: shares -= 1`
unfoldable pub step_down : Float → Float → Float → ℕ → ℕ
step_down amount price multiplier zero = 0
step_down amount price multiplier (suc n) =
    let rest = step_down amount price multiplier n in
    if Float.lt amount (cost (suc n) price multiplier) then rest else suc n

-- What follows the loop.
unfoldable pub at_least_one : ℕ → Result
at_least_one zero = value_error below_one_share
at_least_one (suc n) = shares_of (suc n)

-- From the ratio on. A negative floor would end the loop at once and is below one share.
unfoldable pub floor_shares_of_ratio : Float → Float → Float → Float → Result
unfolding at_least_one
floor_shares_of_ratio amount price multiplier ratio = elim (Float.floor ratio) [
  | none ↦ value_error degenerate_ratio
  | some z ↦ at_least_one (step_down amount price multiplier (pos_part z))
]

-- `_floor_shares_for_notional`; its denominator is not zero where it divides.
unfoldable pub floor_shares_for_notional : Float → Float → Float → Result
unfolding floor_shares_of_ratio
floor_shares_for_notional amount price multiplier =
    let denom = Float.mul price multiplier in
    if not (Float.is_finite denom) || Float.le denom zero_float
    then value_error degenerate_price
    else elim (Float.div amount denom) [
      | none ↦ value_error degenerate_price
      | some ratio ↦
          if not (Float.is_finite ratio)
          then value_error degenerate_ratio
          else floor_shares_of_ratio amount price multiplier ratio
    ]

unfoldable pub whole_shares_for_notional : Option Float → Option Float → Option Float → Result
unfolding finite_positive floor_shares_for_notional
whole_shares_for_notional none price multiplier = value_error bad_amount
whole_shares_for_notional (some amount) none multiplier =
    if not (finite_positive (some amount)) then value_error bad_amount else value_error bad_price
whole_shares_for_notional (some amount) (some price) none =
    if not (finite_positive (some amount))
    then value_error bad_amount
    else if not (finite_positive (some price))
    then value_error bad_price
    else value_error bad_multiplier
whole_shares_for_notional (some amount) (some price) (some multiplier) =
    if not (finite_positive (some amount))
    then value_error bad_amount
    else if not (finite_positive (some price))
    then value_error bad_price
    else if not (finite_positive (some multiplier))
    then value_error bad_multiplier
    else floor_shares_for_notional amount price multiplier

-- `sys.float_info.max`, which ib_async writes into an unset field.
unfoldable pub unset_sentinel : Float
unset_sentinel = fin (pos (Float.overflow - Float.quantum (Float.overflow - 1)))

-- A candidate that is read as a price.
unfoldable pub is_price : Option Float → Bool
unfolding finite_positive
is_price none = false
is_price (some p) = finite_positive (some p) && not (Float.le unset_sentinel p)

-- The loop over the candidates.
unfoldable pub first_notional : Float → Float → List (Option Float) → Float × Bool
unfolding is_price
first_notional qty mult [] = (zero_float, false)
first_notional qty mult (none ∷ rest) = first_notional qty mult rest
first_notional qty mult (some p ∷ rest) =
    let later = first_notional qty mult rest in
    let value = Float.mul (Float.mul qty p) mult in
    if not (is_price (some p))
    then later
    else if Float.is_finite value
    then (value, true)
    else (zero_float, false)

-- `order_notional`: (notional, evaluable).
unfoldable pub order_notional : List (Option Float) → Option Float → Option Float → Float × Bool
unfolding finite_positive first_notional
order_notional candidates (some quantity) (some mult) =
    if not (finite_positive (some (Float.abs quantity)))
    then (zero_float, false)
    else if not (finite_positive (some mult))
    then (zero_float, false)
    else first_notional (Float.abs quantity) mult candidates
order_notional candidates _ _ = (zero_float, false)
