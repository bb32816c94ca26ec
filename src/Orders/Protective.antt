-- ===== src/Orders/Protective.antt =====
-- trader/trading/protective_stop.py. Arguments are what `float(...)` makes of them; `none` is its failure.
pub mod Plan
use openwallstreet.Prelude.{
  ℕ, zero, suc, Bool, true, false, not, ◌&&◌, ◌||◌, Option, none, some, if◌then◌else◌, ℤ, pos,
  negsuc,
}
use openwallstreet.Float
use openwallstreet.Float.{Float, nan, zero_float}
use openwallstreet.Orders.Quantity.{reducible_quantity}

pub record ProtectiveStop : Type 0 where
  pub quantity : Float
  pub stop_price : Float

-- `_as_float`
unfoldable pub as_float : Option Float → Option Float
as_float none = none
as_float (some v) = if Float.is_finite v then some v else none

unfoldable pub hundred : Float
hundred = Float.literal 100 1

-- `x / 100.0`, which never divides by zero.
unfoldable pub hundredth : Float → Float
unfolding hundred
hundredth x = elim (Float.div x hundred) [ none ↦ nan | some y ↦ y ]

-- `cost * (1.0 - pct / 100.0)`
unfoldable pub target_price : Float → Float → Float
target_price cost pct = Float.mul cost (Float.sub (Float.literal 1 1) (hundredth pct))

-- `while cents > 0 and cents / 100.0 > target: cents -= 1`, from a positive number of cents.
unfoldable pub step_down : Float → ℕ → ℕ
step_down target zero = 0
step_down target (suc n) =
    let rest = step_down target n in
    if Float.lt target (hundredth (Float.of_ℤ (pos (suc n)))) then rest else suc n

-- The loop from any floor.
unfoldable pub step_down_cents : Float → ℤ → ℤ
unfolding step_down
step_down_cents target (pos n) = pos (step_down target n)
step_down_cents target (negsuc n) = negsuc n

-- From the stepped cents on.
unfoldable pub stop_of_cents : Float → Float → ℤ → Option ProtectiveStop
stop_of_cents cost quantity cents =
    let stop_price = hundredth (Float.of_ℤ cents) in
    if not (Float.lt zero_float stop_price && Float.lt stop_price cost)
    then none
    else some (record { quantity = quantity; stop_price = stop_price })

-- From the target on. The floor of a finite number exists.
unfoldable pub stop_of_target : Float → Float → Float → Option ProtectiveStop
unfolding step_down_cents stop_of_cents
stop_of_target cost quantity target =
    if not (Float.is_finite target) || not (Float.is_finite (Float.mul target hundred))
    then none
    else elim (Float.floor (Float.mul target hundred)) [
      | none ↦ none
      | some cents ↦ stop_of_cents cost quantity (step_down_cents target cents)
    ]

-- From the quantity on.
unfoldable pub stop_for : Float → Float → Float → Option ProtectiveStop
unfolding stop_of_target target_price
stop_for cost pct quantity =
    if Float.le quantity zero_float
    then none
    else stop_of_target cost quantity (target_price cost pct)

unfoldable pub protective_stop_plan :
    Option Float → Option Float → Option Float → Option Float → Option ProtectiveStop
unfolding as_float
protective_stop_plan attributed_qty broker_qty avg_cost stop_pct = elim (as_float stop_pct) [
  | none ↦ none
  | some pct ↦ if Float.le pct zero_float then none else elim (as_float avg_cost) [
    | none ↦ none
    | some cost ↦
        if Float.le cost zero_float
        then none
        else stop_for cost pct (reducible_quantity attributed_qty broker_qty)
  ]
]
