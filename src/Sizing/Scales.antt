-- ===== src/Sizing/Scales.antt =====
-- trader/trading/position_sizing.py: the scales of the base size, with their contracts.
use openwallstreet.Prelude.{
  Bool, not, ◌&&◌, Option, none, some, String, ◌==◌, string_eq, if◌then◌else◌,
}
use openwallstreet.Float
use openwallstreet.Float.{Float, zero_float, literal}
use openwallstreet.Sizing.Inputs.{PositionSizingConfig, VolatilityInfo, is_above, quotient, atr_pct}

-- `RISK_MULTIPLIERS.get(level, 1.0)`
unfoldable pub risk_multiplier : String → Float
risk_multiplier level =
    if level == "conservative"
    then literal 1 2
    else if level == "aggressive"
    then literal 3 2
    else literal 1 1

-- `low - 1e-9 <= result <= high + 1e-9`
unfoldable pub within_band : Float → Float → Float → Bool
within_band low high result =
    Float.le (Float.sub low (literal 1 1000000000)) result
    && Float.le result (Float.add high (literal 1 1000000000))

-- A result that meets its contract; none is the exception of the contract.
abbrev pub ensure : Bool → Float → Option Float
ensure kept result = if kept then some result else none

-- `max(0.0, min(1.0, confidence))`
unfoldable pub clamp_unit : Float → Float
clamp_unit x = Float.max zero_float (Float.min (literal 1 1) x)

-- `_confidence_scale`
unfoldable pub confidence_scale : Float → Float → Option Float
unfolding clamp_unit within_band
confidence_scale low confidence =
    if not (Float.le zero_float low && Float.le low (literal 1 1))
    then none
    else let result =
        Float.add low (Float.mul (Float.sub (literal 1 1) low) (clamp_unit confidence)) in
      ensure (within_band low (literal 1 1) result) result

-- `_volatility_multiplier`
unfoldable pub volatility_multiplier : Float → Float → Float → Float → Option Float
unfolding within_band quotient
volatility_multiplier reference atr low high =
    if not (is_above reference && is_above atr && is_above low && Float.le low high)
    then none
    else let multiplier = quotient reference (Float.max atr (Float.mul reference (literal 1 4))) in
      let result = Float.max low (Float.min high multiplier) in
      ensure (within_band low high result) result

-- The size after the volatility adjustment.
unfoldable pub adjust_volatility :
    PositionSizingConfig → Option VolatilityInfo → Float → Option Float
unfolding volatility_multiplier atr_pct
adjust_volatility cfg none sized = some sized
adjust_volatility cfg (some v) sized =
    if not (cfg.volatility_adjustment && is_above (atr_pct v))
    then some sized
    else elim (volatility_multiplier cfg.reference_atr_pct (atr_pct v) cfg.vol_scale_min
        cfg.vol_scale_max) [ none ↦ none | some multiplier ↦ some (Float.mul sized multiplier) ]
