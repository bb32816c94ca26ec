-- ===== src/Orders/ExitClass/Direction.antt =====
-- What makes an order exit-class.
use openwallstreet.Prelude.{
  ◌≡◌, ◌↔◌, ◌⊎◌, true, some, arith, String, string_eq, eq_iff, upper, strip,
}
use openwallstreet.Float
use openwallstreet.Float.{Float, zero_float}
use openwallstreet.Float.Laws.{finite_pos, guard-pos, guard_ne}
use openwallstreet.Orders.ExitClass.{reduces_exposure}

-- A sale of a long position, or a purchase against a short one.
abbrev pub Against : String → Float → Type 0
Against action position =
    ((upper (strip action) ≡ "SELL") × (Float.lt zero_float position ≡ true))
    ⊎ ((upper (strip action) ≡ "BUY") × (Float.lt position zero_float ≡ true))

-- An order is exit-class exactly when both of its numbers are readable and finite, its quantity is
-- positive, and it is a SELL against a long position or a BUY against a short one.
reduces_exposure_iff :
    (action : String) (position qty : Float)
    → (reduces_exposure action (some position) (some qty) ≡ true)
      ↔ ((finite_pos qty ≡ true) × (Float.is_finite position ≡ true) × Against action position)
unfolding reduces_exposure
reduces_exposure_iff action position qty = (
  ground (
    arith,
    guard-pos qty,
    guard_ne position,
    eq_iff (upper (strip action)) "SELL",
    eq_iff (upper (strip action)) "BUY",
  ),
  ground (
    arith,
    guard-pos qty,
    guard_ne position,
    eq_iff (upper (strip action)) "SELL",
    eq_iff (upper (strip action)) "BUY",
    eq_iff "SELL" "BUY",
  ),
)
