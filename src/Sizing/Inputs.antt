-- ===== src/Sizing/Inputs.antt =====
-- trader/trading/position_sizing.py: what the sizer reads, with the properties of these records.
use openwallstreet.Prelude.{Bool, ◌&&◌, ◌||◌, none, some, String, if◌then◌else◌, ℤ}
use openwallstreet.Float
use openwallstreet.Float.{Float, zero_float, literal}

pub record PositionSizingConfig : Type 0 where
  pub min_position_usd : Float
  pub max_position_usd : Float
  pub max_position_pct : Float
  pub max_total_exposure_pct : Float
  pub max_positions : ℤ
  pub base_position_usd : Float
  pub base_position_pct : Float
  pub risk_level : String
  pub daily_loss_limit_usd : Float
  pub min_confidence_scale : Float
  pub volatility_adjustment : Bool
  pub reference_atr_pct : Float
  pub vol_scale_min : Float
  pub vol_scale_max : Float
  pub max_adv_pct : Float
  pub spread_penalty_threshold : Float
  pub spread_penalty_factor : Float

-- `PortfolioState`, as far as the sizer reads it.
pub record PortfolioState : Type 0 where
  pub net_liquidation : Float
  pub net_liquidation_evaluable : Bool
  pub gross_position_value : Float
  pub daily_pnl : Float
  pub position_count : ℤ
  pub pending_proposal_value : Float

pub record VolatilityInfo : Type 0 where
  pub atr : Float
  pub price : Float

pub record LiquidityInfo : Type 0 where
  pub avg_daily_volume : Float
  pub bid : Float
  pub ask : Float
  pub last : Float
  pub bid_size : Float
  pub ask_size : Float

abbrev pub is_above : Float → Bool
is_above x = Float.lt zero_float x

-- `x / y`, where y is above 0.
unfoldable pub quotient : Float → Float → Float
quotient x y = elim (Float.div x y) [ none ↦ zero_float | some z ↦ z ]

-- `VolatilityInfo.atr_pct`
unfoldable pub atr_pct : VolatilityInfo → Float
unfolding quotient
atr_pct v = if is_above v.price && is_above v.atr then quotient v.atr v.price else zero_float

-- `PortfolioState.current_exposure_pct`; a net liquidation that is not above 0 is NaN where it divides.
unfoldable pub current_exposure_pct : PortfolioState → Float
unfolding quotient
current_exposure_pct s =
    if Float.le s.net_liquidation zero_float
    then zero_float
    else quotient s.gross_position_value s.net_liquidation

-- `bid > 0 and ask > 0`
abbrev pub is_quoted : LiquidityInfo → Bool
is_quoted l = is_above l.bid && is_above l.ask

unfoldable pub mid_price : LiquidityInfo → Float
unfolding quotient
mid_price l = if is_quoted l then quotient (Float.add l.bid l.ask) (literal 2 1) else l.last

unfoldable pub spread : LiquidityInfo → Float
spread l = if is_quoted l && Float.le l.bid l.ask then Float.sub l.ask l.bid else zero_float

unfoldable pub spread_pct : LiquidityInfo → Float
unfolding quotient mid_price spread
spread_pct l = if is_above (mid_price l) then quotient (spread l) (mid_price l) else zero_float

unfoldable pub has_data : LiquidityInfo → Bool
has_data l = is_above l.avg_daily_volume || is_quoted l
