-- ===== src/Orders/Split.antt =====
-- trader/trading/order_split.py.
pub mod Walk
pub mod Halves
use openwallstreet.Prelude.{Bool, not, ◌&&◌, Option, none, some, String, if◌then◌else◌}
use openwallstreet.Float
use openwallstreet.Float.{Float, zero_float}
use openwallstreet.Orders.ExitClass.{reduces_exposure}
unfoldable pub use Walk.{step_down}

pub record SplitPlan : Type 0 where
  pub reduce_qty : Float
  pub open_qty : Float

-- `SplitPlan.is_flip`
unfoldable pub is_flip : SplitPlan → Bool
is_flip plan = Float.lt zero_float plan.reduce_qty && Float.lt zero_float plan.open_qty

unfoldable pub as_finite : Option Float → Float
as_finite none = zero_float
as_finite (some v) = if Float.is_finite v then v else zero_float

-- The last branch, an order larger than the position.
unfoldable pub split_flip : Float → Float → SplitPlan
unfolding step_down
split_flip available qty = record {
  reduce_qty = available;
  open_qty = step_down available qty (Float.sub qty available);
}

-- The branches of a sane quantity.
unfoldable pub split_sane : String → Float → Float → SplitPlan
split_sane action position qty =
    if not (reduces_exposure action (some position) (some qty))
    then record { reduce_qty = zero_float; open_qty = qty }
    else if Float.le qty (Float.abs position)
    then record { reduce_qty = qty; open_qty = zero_float }
    else split_flip (Float.abs position) qty

unfoldable pub split_order : String → Option Float → Option Float → SplitPlan
unfolding as_finite split_sane
split_order action held quantity =
    let qty = as_finite quantity in
    if Float.le qty zero_float
    then record { reduce_qty = zero_float; open_qty = zero_float }
    else split_sane action (as_finite held) qty
