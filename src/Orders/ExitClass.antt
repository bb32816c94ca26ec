-- ===== src/Orders/ExitClass.antt =====
-- trader/trading/exit_class.py. An argument is what `float(...)` makes of it; `none` is a TypeError or a
-- ValueError of that conversion.
pub mod Direction
use openwallstreet.Prelude.{
  Bool, false, not, ◌||◌, Option, some, String, ◌==◌, string_eq, if◌then◌else◌, upper, strip,
}
use openwallstreet.Float
use openwallstreet.Float.{Float, zero_float}

-- The tests behind the two conversions.
unfoldable pub reduces_position : String → Float → Float → Bool
reduces_position action position qty =
    if not (Float.is_finite qty) || Float.le qty zero_float
    then false
    else if not (Float.is_finite position) || Float.eq position zero_float
    then false
    else let act = upper (strip action) in
      if act == "SELL"
      then Float.lt zero_float position
      else if act == "BUY"
      then Float.lt position zero_float
      else false

unfoldable pub reduces_exposure : String → Option Float → Option Float → Bool
unfolding reduces_position
reduces_exposure action (some position) (some qty) = reduces_position action position qty
reduces_exposure action _ _ = false
