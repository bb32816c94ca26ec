-- ===== src/Tests/Orders.antt =====
-- Runs at concrete inputs: the orders.
use openwallstreet.Prelude.{
  ℕ, ◌≡◌, ◌≤◌, ◌<◌, ◌*◌, ◌^◌, refl, arith, true, false, Option, none, some, List, [], ◌∷◌, pos, ℤ,
}
use openwallstreet.Float
use openwallstreet.Float.{Float, nan, fin, literal, zero_float}
use openwallstreet.Float.Exact.{IsDouble}
use openwallstreet.Orders.Split.{split_order}
use openwallstreet.Orders.Split.Halves.{split_order-le}
use openwallstreet.Orders.Quantity.{
  finite_positive, floor_shares_for_notional, floor_shares_of_ratio, at_least_one,
  reducible_quantity, step_down, cost, whole_shares_for_notional, shares_of,
}
use openwallstreet.Orders.Quantity.Shares.{step_down_lem, whole_shares_for_notional-le}
use openwallstreet.Orders.Protective
use openwallstreet.Orders.Protective.{
  as_float, stop_for, stop_of_target, stop_of_cents, step_down_cents, hundredth, hundred,
  target_price, ProtectiveStop, protective_stop_plan,
}
use openwallstreet.Orders.Protective.Plan.{IsProtection, protective_stop_plan-IsProtection}

-- Three shares and five, in the units of the doubles.
abbrev three : ℤ
three = pos (3 * 2 ^ 1074)

abbrev five : ℤ
five = pos (5 * 2 ^ 1074)

three_pos : Float.lt zero_float (fin three) ≡ true
unfolding Float.lt zero_float
three_pos = refl

five_pos : Float.lt zero_float (fin five) ≡ true
unfolding Float.lt zero_float
five_pos = refl

three-IsDouble : IsDouble (fin three)
unfolding Float.magnitude Float.nearest Float.round_div Float.quantum Float.overflow Float.unit
three-IsDouble = (refl, ground arith)

five-IsDouble : IsDouble (fin five)
unfolding Float.magnitude Float.nearest Float.round_div Float.quantum Float.overflow Float.unit
five-IsDouble = (refl, ground arith)

-- A SELL of five shares from a position of three.
split_order-le_example :
    let plan = split_order "SELL" (some (fin three)) (some (fin five)) in
    Float.le (Float.add plan.reduce_qty plan.open_qty) (fin five) ≡ true
split_order-le_example = split_order-le "SELL" three five three-IsDouble five-IsDouble five_pos

step_down_lem_example :
    let n = step_down (literal 1000 1) (literal 333 1) (literal 1 1) 4 in
    (n ≤ 4)
    × ((k : ℕ)
        → n < k
        → k ≤ 4
        → Float.lt (literal 1000 1) (cost k (literal 333 1) (literal 1 1)) ≡ true)
    × (0 < n → Float.lt (literal 1000 1) (cost n (literal 333 1) (literal 1 1)) ≡ false)
step_down_lem_example = step_down_lem (literal 1000 1) (literal 333 1) (literal 1 1) 4

three_shares :
    whole_shares_for_notional (some (literal 1000 1)) (some (literal 333 1)) (some (literal 1 1))
    ≡ shares_of 3
unfolding whole_shares_for_notional finite_positive floor_shares_for_notional floor_shares_of_ratio
    at_least_one step_down cost Float.mul Float.div Float.floor Float.of_ℤ Float.round
    Float.magnitude Float.is_pos Float.of_ratio Float.lt Float.le Float.is_finite zero_float literal
    Float.nearest Float.round_div Float.quantum Float.overflow Float.unit
three_shares = refl

whole_shares_for_notional-le_example :
    (1 ≤ 3) × (Float.le (cost 3 (literal 333 1) (literal 1 1)) (literal 1000 1) ≡ true)
whole_shares_for_notional-le_example =
    whole_shares_for_notional-le (literal 1000 1) (literal 333 1) (literal 1 1) three_shares

-- The first price is NaN, the second one is used.
abbrev candidates : List (Option Float)
candidates = some nan ∷ some (literal 155 10) ∷ none ∷ []

abbrev planned : ProtectiveStop
planned = record { quantity = literal 3 1; stop_price = literal 95 1 }

stop_planned :
    protective_stop_plan
      (some (literal 5 1))
      (some (literal 3 1))
      (some (literal 100 1))
      (some (literal 5 1))
    ≡ some planned
unfolding protective_stop_plan as_float stop_for stop_of_target stop_of_cents step_down_cents
    Protective.step_down hundredth hundred target_price reducible_quantity finite_positive Float.sub
    Float.neg Float.add Float.min Float.mul Float.div Float.floor Float.of_ℤ Float.round
    Float.magnitude Float.is_pos Float.of_ratio Float.lt Float.le Float.is_finite zero_float literal
    Float.nearest Float.round_div Float.quantum Float.overflow Float.unit
stop_planned = refl

protective_stop_plan-IsProtection_example :
    IsProtection (literal 5 1) (literal 3 1) (literal 100 1) (literal 5 1) planned
protective_stop_plan-IsProtection_example =
    protective_stop_plan-IsProtection (literal 5 1) (literal 3 1) (literal 100 1) (literal 5 1)
      stop_planned
