-- ===== src/Placement/Exposure.antt =====
-- trader/trading/trading_runtime.py: which part of an order reduces the live position.
use openwallstreet.Prelude.{
  ℕ, Bool, true, false, not, ◌&&◌, ◌||◌, Option, none, some, String, ◌==◌, string_eq, List, [], ◌∷◌,
  ltb, eqb, if◌then◌else◌, upper, strip,
}
use openwallstreet.Float
use openwallstreet.Float.{Float, zero_float}
use openwallstreet.Orders.ExitClass.{reduces_exposure}
use openwallstreet.Orders.Split.{SplitPlan, split_order}
use openwallstreet.Placement.Account.{Contract, Position, Trader}

-- `total += position` over the rows that pass a test.
unfoldable pub sum_positions : (Position → Bool) → Float → List Position → Float
sum_positions counts total [] = total
sum_positions counts total (p ∷ rest) =
    sum_positions counts (if counts p then Float.add total p.quantity else total) rest

abbrev read_sum : (Position → Bool) → Option (List Position) → Option Float
read_sum counts none = none
read_sum counts (some ps) = some (sum_positions counts zero_float ps)

-- `_signed_position`; none is a failed read.
unfoldable pub signed_position : Trader → ℕ → Option Float
signed_position t con_id = read_sum (λ p. eqb p.con_id con_id) t.positions

-- `_signed_position_by_symbol`
unfoldable pub signed_position_by_symbol : Trader → String → Option Float
signed_position_by_symbol t symbol = read_sum (λ p. p.symbol == symbol) t.positions

-- `x is not None and x != 0.0`, as the position to fall back on.
abbrev pub usable : Option Float → Option Float → Option Float
usable fallback none = fallback
usable fallback (some x) = if Float.eq x zero_float then fallback else some x

abbrev pub is_flat : Option Float → Bool
is_flat none = true
is_flat (some x) = Float.eq x zero_float

-- The position by contract id, and by symbol where that shows none.
unfoldable pub held_position : Trader → Contract → Option Float
unfolding signed_position signed_position_by_symbol
held_position t c =
    let held = if ltb 0 c.con_id then signed_position t c.con_id else none in
    let symbol = strip c.symbol in
    if is_flat held && not (symbol == "")
    then usable held (signed_position_by_symbol t symbol)
    else held

abbrev pub is_side : String → Bool
is_side act = act == "BUY" || act == "SELL"

-- `order_reduces_exposure`
unfoldable pub order_reduces_exposure : Trader → Contract → String → Float → Bool
order_reduces_exposure t c action qty =
    if Float.le qty zero_float || not (Float.is_finite qty)
    then false
    else let act = upper (strip action) in
      if not (is_side act) then false else reduces_exposure act (held_position t c) (some qty)

-- `split_for_order`
unfoldable pub split_for_order : Trader → Contract → String → Float → SplitPlan
split_for_order t c action qty =
    if Float.le qty zero_float || not (Float.is_finite qty)
    then record { reduce_qty = zero_float; open_qty = zero_float }
    else let act = upper (strip action) in
      if not (is_side act)
      then record { reduce_qty = zero_float; open_qty = qty }
      else elim (held_position t c) [
        | none ↦ record { reduce_qty = zero_float; open_qty = qty }
        | some held ↦ split_order act (some held) (some qty)
      ]
