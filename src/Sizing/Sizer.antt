-- ===== src/Sizing/Sizer.antt =====
-- trader/trading/position_sizing.py: `PositionSizer.compute`, without the text of its reasoning.
pub mod Shrinks
pub mod Limits
use openwallstreet.Prelude.{
  ℕ, ◌*◌, Bool, true, false, not, ◌&&◌, Option, none, some, String, List, [], ◌∷◌, ◌++◌, eqb,
  if◌then◌else◌, ℤ, pos, negsuc, eqb_ℤ,
}
use openwallstreet.Float
use openwallstreet.Float.{
  Float, nan, inf, neg_inf, fin, zero_float, literal, of_ratio, round_div, unit, magnitude, is_pos,
}
use openwallstreet.Sizing.Inputs.{
  PositionSizingConfig, PortfolioState, VolatilityInfo, LiquidityInfo, is_above, quotient,
}
use openwallstreet.Sizing.Scales.{risk_multiplier, clamp_unit, confidence_scale, adjust_volatility}
use openwallstreet.Sizing.Constraints.{
  Warning, net_liquidation_not_positive, price_too_high, Sized, clamp, limit_portfolio,
  limit_positions, limit_loss, effective_price, limit_liquidity, drop_small,
}

pub record SizingResult : Type 0 where
  pub amount_usd : Float
  pub quantity : ℤ
  pub warnings : List Warning
  pub capped_by : String

unfoldable pub base : PositionSizingConfig → PortfolioState → Float
base cfg st =
    if is_above cfg.base_position_pct && is_above st.net_liquidation
    then Float.mul st.net_liquidation cfg.base_position_pct
    else cfg.base_position_usd

-- 1. and 2. The base by the risk, the confidence and the volatility; none is the exception of a contract.
unfoldable pub scaled :
    PositionSizingConfig → Float → PortfolioState → Option VolatilityInfo → Option Float
unfolding base risk_multiplier clamp_unit confidence_scale adjust_volatility
scaled cfg confidence st vol =
    elim (confidence_scale cfg.min_confidence_scale (clamp_unit confidence)) [
      | none ↦ none
      | some scale ↦
          adjust_volatility cfg vol
            (Float.mul (Float.mul (base cfg st) (risk_multiplier cfg.risk_level)) scale)
    ]

-- The limits, in their order.
unfoldable pub constrain :
    PositionSizingConfig → PortfolioState → Float → Option LiquidityInfo → Float → Sized
unfolding clamp limit_portfolio limit_positions limit_loss effective_price limit_liquidity
    drop_small
constrain cfg st price liq sized = drop_small cfg (
    limit_liquidity cfg liq (effective_price price liq)
      (limit_loss cfg st (limit_positions cfg st (limit_portfolio cfg st (clamp cfg sized)))))

-- `round(x, 2)`: the exact number of hundredths, ties to even, and the double nearest to it.
unfoldable pub round_cents : Float → Float
unfolding of_ratio round_div magnitude is_pos
round_cents (fin z) = of_ratio (is_pos z) (round_div (magnitude z * 100) unit * unit) 100
round_cents x = x

-- `int(x)` of a number that is not negative; none is its ValueError or OverflowError.
unfoldable pub quantity_of : Float → Float → Option ℤ
unfolding quotient
quantity_of price sized =
    if is_above price && is_above sized then Float.floor (quotient sized price) else some (pos 0)

abbrev pub warn_price : PositionSizingConfig → Float → ℤ → Sized → List Warning
warn_price cfg price quantity s =
    if is_above price
      && (is_above s.sized && (eqb_ℤ quantity (pos 0) && Float.le cfg.min_position_usd s.sized))
    then s.warnings ++ (price_too_high ∷ [])
    else s.warnings

unfoldable pub result_of : PositionSizingConfig → Float → Sized → Option SizingResult
unfolding round_cents quantity_of
result_of cfg price s = elim (quantity_of price s.sized) [
  | none ↦ none
  | some quantity ↦ some (record {
    amount_usd = round_cents s.sized;
    quantity = quantity;
    warnings = warn_price cfg price quantity s;
    capped_by = s.capped_by;
  })
]

pub refusal : SizingResult
refusal = record {
  amount_usd = zero_float;
  quantity = pos 0;
  warnings = net_liquidation_not_positive ∷ [];
  capped_by = "net-liq-not-positive";
}

-- `compute`; none is an exception.
unfoldable pub compute :
    PositionSizingConfig
    → Float
    → PortfolioState
    → Float
    → Option LiquidityInfo
    → Option VolatilityInfo
    → Option SizingResult
unfolding scaled constrain result_of effective_price
compute cfg confidence st price liq vol =
    if st.net_liquidation_evaluable && Float.le st.net_liquidation zero_float
    then some refusal
    else elim (scaled cfg confidence st vol) [
      | none ↦ none
      | some sized ↦ result_of cfg (effective_price price liq) (constrain cfg st price liq sized)
    ]
