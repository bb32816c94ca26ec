-- ===== src/Orders/Quantity/Notional.antt =====
-- `order_notional` of trader/trading/order_math.py against its description by the first usable price.
use openwallstreet.Prelude.{
  ◌≡◌, refl, Bool, true, false, Option, none, some, List, [], ◌∷◌, arith, Bool-cases, inl, inr,
  if◌then◌else◌,
}
use openwallstreet.Float
use openwallstreet.Float.{Float, zero_float}
use openwallstreet.Float.Laws.{finite_pos, mul-nonneg, le_of_lt}
use openwallstreet.Orders.Quantity.{is_price, first_notional, order_notional}

-- The first candidate that is finite, positive and below the unset sentinel.
pub first_price : List (Option Float) → Option Float
first_price [] = none
first_price (none ∷ rest) = first_price rest
first_price (some p ∷ rest) =
    let later = first_price rest in if is_price (some p) then some p else later

-- The valuation at a price, if it does not overflow.
pub value_at : Float → Float → Option Float → Float × Bool
value_at qty mult none = (zero_float, false)
value_at qty mult (some p) =
    let value = Float.mul (Float.mul qty p) mult in
    if Float.is_finite value then (value, true) else (zero_float, false)

first_notional_lem :
    (qty mult : Float) (candidates : List (Option Float))
    → first_notional qty mult candidates ≡ value_at qty mult (first_price candidates)
unfolding first_notional first_price value_at
first_notional_lem qty mult [] = refl
first_notional_lem qty mult (none ∷ rest) = first_notional_lem qty mult rest
first_notional_lem qty mult (some p ∷ rest) = ground (arith, first_notional_lem qty mult rest)

-- For a sane quantity and multiplier the valuation is that of the first usable price, whatever stands
-- behind it in the tuple.
pub order_notional-first_price :
    (candidates : List (Option Float)) (quantity mult : Float)
    → finite_pos (Float.abs quantity) ≡ true
    → finite_pos mult ≡ true
    → order_notional candidates (some quantity) (some mult)
      ≡ value_at (Float.abs quantity) mult (first_price candidates)
unfolding order_notional
order_notional-first_price candidates quantity mult hq hm =
    rw (hq, hm) (first_notional_lem (Float.abs quantity) mult candidates)

first_price-is_price :
    (candidates : List (Option Float)) {p : Float}
    → first_price candidates ≡ some p
    → is_price (some p) ≡ true
unfolding first_price
first_price-is_price [] e = absurd (ground arith)
first_price-is_price (none ∷ rest) e = first_price-is_price rest e
first_price-is_price (some q ∷ rest) {p} e = ground (arith, first_price-is_price rest {p = p})

price_pos : (p : Float) → is_price (some p) ≡ true → finite_pos p ≡ true
unfolding is_price
price_pos p h = ground arith

-- What a valuation promises: finite and not negative where it is evaluable, 0.0 where it is not.
abbrev pub IsHonest : Float × Bool → Type 0
IsHonest (value, true) = (Float.is_finite value ≡ true) × (Float.le zero_float value ≡ true)
IsHonest (value, false) = value ≡ zero_float

pub finite_pos-nonneg : (x : Float) → finite_pos x ≡ true → Float.le zero_float x ≡ true
finite_pos-nonneg x h = le_of_lt zero_float x (ground arith)

value_at-IsHonest :
    (qty mult : Float) (p : Option Float)
    → finite_pos qty ≡ true
    → finite_pos mult ≡ true
    → ((q : Float) → p ≡ some q → finite_pos q ≡ true)
    → IsHonest (value_at qty mult p)
unfolding value_at
value_at-IsHonest qty mult none hq hm hp = refl
value_at-IsHonest qty mult (some p) hq hm hp =
    elim (Bool-cases (Float.is_finite (Float.mul (Float.mul qty p) mult))) [
      | inl small ↦ rw small (
        small,
        mul-nonneg (Float.mul qty p) mult (mul-nonneg qty p (finite_pos-nonneg qty hq) (hp p refl))
            hm,
      )
      | inr large ↦ rw large refl
    ]

-- Every valuation is honest, for any candidates, quantity and multiplier, readable or not: finite and not
-- negative where it is evaluable, and 0.0 where it is not.
order_notional-IsHonest :
    (candidates : List (Option Float)) (quantity mult : Option Float)
    → IsHonest (order_notional candidates quantity mult)
unfolding order_notional
order_notional-IsHonest candidates none mult = refl
order_notional-IsHonest candidates (some quantity) none = refl
order_notional-IsHonest candidates (some quantity) (some mult) =
    elim (Bool-cases (finite_pos (Float.abs quantity))) [
      | inl hq ↦ elim (Bool-cases (finite_pos mult)) [
        | inl hm ↦
            rw (hq, hm)
              (rw (first_notional_lem (Float.abs quantity) mult candidates) (
                value_at-IsHonest _ mult (first_price candidates) hq hm
                  (λ p e. price_pos p (first_price-is_price candidates e))))
        | inr bad ↦ rw (hq, bad) refl
      ]
      | inr bad ↦ rw bad refl
    ]
