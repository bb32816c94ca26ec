-- ===== src/Float.antt =====
-- Python's float, an IEEE 754 double, with the operations and comparisons that the modelled code uses.
-- `fin z` is z * 2^-1074, so each finite double is exact; -0.0 is 0.0, which no modelled test can tell
-- apart. Operations round to nearest, ties to even, and overflow to an infinity.
mod Round
pub mod Laws
pub mod Exact
unfoldable pub use Round.{unit, overflow, quantum, round_div, nearest, previous}
pub use Round.{previous-lt, nearest-zero, overflow-pos, nearest-pos}
use openwallstreet.Prelude.{
  ℕ, zero, suc, ◌+◌, ◌-◌, ◌*◌, ◌/◌, ◌^◌, ◌≤◌, ◌<◌, ◌≡◌, refl, Bool, true, false, ◌&&◌, not, Option,
  none, some, arith, ltb, if◌then◌else◌, ℤ, pos, negsuc, pos_part, neg_part, sub_ℕ, ◌+ℤ◌, neg_ℤ,
  ltb_ℤ, leb_ℤ, eqb_ℤ,
}

pub data Float : Type 0 where
  nan inf neg_inf : Float
  fin : ℤ → Float

-- `math.isfinite`
unfoldable pub is_finite : Float → Bool
is_finite (fin z) = true
is_finite _ = false

unfoldable pub is_nan : Float → Bool
is_nan nan = true
is_nan _ = false

-- `x < y`
unfoldable pub lt : Float → Float → Bool
lt (fin a) (fin b) = ltb_ℤ a b
lt (fin a) inf = true
lt neg_inf (fin b) = true
lt neg_inf inf = true
lt _ _ = false

-- `x <= y`
unfoldable pub le : Float → Float → Bool
le (fin a) (fin b) = leb_ℤ a b
le (fin a) inf = true
le neg_inf (fin b) = true
le neg_inf inf = true
le inf inf = true
le neg_inf neg_inf = true
le _ _ = false

-- `x == y`
unfoldable pub eq : Float → Float → Bool
eq (fin a) (fin b) = eqb_ℤ a b
eq inf inf = true
eq neg_inf neg_inf = true
eq _ _ = false

-- 0.0
unfoldable pub zero_float : Float
zero_float = fin (pos 0)

-- The double nearest to the magnitude `num / den` units, with a sign.
unfoldable pub of_ratio : Bool → ℕ → ℕ → Float
of_ratio positive num den =
    let m = nearest num den in
    if ltb m overflow
    then fin (if positive then pos m else neg_ℤ (pos m))
    else if positive
    then inf
    else neg_inf

unfoldable pub is_pos : ℤ → Bool
is_pos (pos n) = true
is_pos (negsuc n) = false

unfoldable pub magnitude : ℤ → ℕ
magnitude z = pos_part z + neg_part z

-- The double nearest to a whole number of units.
unfoldable pub round : ℤ → Float
unfolding of_ratio is_pos magnitude
round z = of_ratio (is_pos z) (magnitude z) 1

-- `float(n)` of an int
unfoldable pub of_ℤ : ℤ → Float
unfolding of_ratio is_pos magnitude
of_ℤ z = of_ratio (is_pos z) (magnitude z * unit) 1

-- A decimal literal num / den
unfoldable pub literal : ℕ → ℕ → Float
unfolding of_ratio
literal num den = of_ratio true (num * unit) den

-- `-x`
unfoldable pub neg : Float → Float
neg nan = nan
neg inf = neg_inf
neg neg_inf = inf
neg (fin z) = fin (neg_ℤ z)

-- `abs(x)`
unfoldable pub abs : Float → Float
unfolding magnitude
abs nan = nan
abs (fin z) = fin (pos (magnitude z))
abs _ = inf

-- `x + y`
unfoldable pub add : Float → Float → Float
unfolding round ◌+ℤ◌
add (fin a) (fin b) = round (a +ℤ b)
add (fin a) y = y
add inf (fin b) = inf
add inf inf = inf
add neg_inf (fin b) = neg_inf
add neg_inf neg_inf = neg_inf
add _ _ = nan

-- `x - y`
unfoldable pub sub : Float → Float → Float
unfolding add neg
sub x y = add x (neg y)

same_sign : ℤ → ℤ → Bool
same_sign (pos a) (pos b) = true
same_sign (negsuc a) (negsuc b) = true
same_sign _ _ = false

-- An infinity of sign `positive` times the finite `z`.
times_inf : Bool → ℤ → Float
times_inf positive (pos zero) = nan
times_inf positive (pos (suc n)) = if positive then inf else neg_inf
times_inf positive (negsuc n) = if positive then neg_inf else inf

-- `x * y`
unfoldable pub mul : Float → Float → Float
unfolding of_ratio same_sign magnitude times_inf
mul (fin a) (fin b) = of_ratio (same_sign a b) (magnitude a * magnitude b) unit
mul inf (fin b) = times_inf true b
mul neg_inf (fin b) = times_inf false b
mul (fin a) inf = times_inf true a
mul (fin a) neg_inf = times_inf false a
mul inf inf = inf
mul neg_inf neg_inf = inf
mul inf neg_inf = neg_inf
mul neg_inf inf = neg_inf
mul _ _ = nan

-- A non-zero finite or infinite dividend over a finite `z` that is not zero.
div_fin : Float → ℤ → Float
unfolding of_ratio same_sign magnitude times_inf
div_fin (fin a) b = of_ratio (same_sign a b) (magnitude a * unit) (magnitude b)
div_fin inf b = times_inf true b
div_fin neg_inf b = times_inf false b
div_fin nan b = nan

-- `x / y`; `none` is ZeroDivisionError.
unfoldable pub div : Float → Float → Option Float
unfolding div_fin
div x (fin (pos zero)) = none
div x (fin (pos (suc n))) = some (div_fin x (pos (suc n)))
div x (fin (negsuc n)) = some (div_fin x (negsuc n))
div x nan = some nan
div (fin a) y = some (fin (pos 0))
div x y = some nan

-- `min(x, y)`, which keeps the first unless the second is smaller.
unfoldable pub min : Float → Float → Float
unfolding lt
min x y = if lt y x then y else x

-- `max(x, y)`, which keeps the first unless the second is larger.
unfoldable pub max : Float → Float → Float
unfolding lt
max x y = if lt x y then y else x

-- `math.floor(x)`; `none` is its ValueError or OverflowError.
unfoldable pub floor : Float → Option ℤ
floor (fin (pos n)) = some (pos (n / unit))
floor (fin (negsuc n)) = some (negsuc (n / unit))
floor _ = none

-- `math.nextafter(x, 0.0)` of a number that is not negative.
unfoldable pub next_down : Float → Float
next_down (fin (pos n)) = fin (pos (previous n))
next_down inf = fin (pos (overflow - quantum (overflow - 1)))
next_down x = x

product_test : mul (literal 11 10) (literal 11 10) ≡ literal 1210000000000000200 1000000000000000000
unfolding mul literal nearest round_div quantum overflow unit
product_test = refl

-- The sum that is not 0.3, but its second neighbour.
sum_test : add (literal 1 10) (literal 2 10) ≡ literal 30000000000000004 100000000000000000
unfolding add literal nearest round_div quantum overflow unit
sum_test = refl
