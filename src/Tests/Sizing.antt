-- ===== src/Tests/Sizing.antt =====
-- Runs at concrete inputs: the sizer.
use openwallstreet.Prelude.{◌≡◌, refl, true, some, pos}
use openwallstreet.Float
use openwallstreet.Float.{Float, literal, zero_float}
use openwallstreet.Sizing.Inputs.{
  PositionSizingConfig, PortfolioState, LiquidityInfo, is_above, quotient, mid_price, spread,
  spread_pct,
}
use openwallstreet.Sizing.Constraints.{max_by_pct, is_wide}
use openwallstreet.Sizing.Sizer.{constrain}
use openwallstreet.Sizing.Sizer.Shrinks.{Within, IsNarrow}
use openwallstreet.Sizing.Sizer.Limits.{IsLimited, constrain-IsLimited}

abbrev config : PositionSizingConfig
config = record {
  min_position_usd = literal 500 1;
  max_position_usd = literal 25000 1;
  max_position_pct = literal 1 10;
  max_total_exposure_pct = literal 8 10;
  max_positions = pos 20;
  base_position_usd = literal 5000 1;
  base_position_pct = zero_float;
  risk_level = "moderate";
  daily_loss_limit_usd = literal 2000 1;
  min_confidence_scale = literal 3 10;
  volatility_adjustment = true;
  reference_atr_pct = literal 2 100;
  vol_scale_min = literal 1 4;
  vol_scale_max = literal 2 1;
  max_adv_pct = literal 2 100;
  spread_penalty_threshold = literal 5 1000;
  spread_penalty_factor = literal 1 2;
}

abbrev account : PortfolioState
account = record {
  net_liquidation = literal 20000 1;
  net_liquidation_evaluable = true;
  gross_position_value = literal 15500 1;
  daily_pnl = zero_float;
  position_count = pos 3;
  pending_proposal_value = zero_float;
}

abbrev market : LiquidityInfo
market = record {
  avg_daily_volume = literal 100000 1;
  bid = literal 100 1;
  ask = literal 10001 100;
  last = literal 100 1;
  bid_size = literal 300 1;
  ask_size = literal 200 1;
}

ordered : Within config.max_position_usd config.min_position_usd
unfolding Float.lt literal Float.nearest Float.round_div Float.quantum Float.overflow Float.unit
ordered = refl

max_room : Within config.max_position_usd zero_float
unfolding Float.lt zero_float literal Float.nearest Float.round_div Float.quantum Float.overflow
    Float.unit
max_room = refl

worth : is_above account.net_liquidation ≡ true
unfolding Float.lt zero_float literal Float.nearest Float.round_div Float.quantum Float.overflow
    Float.unit
worth = refl

share_room : Within (max_by_pct config account) zero_float
unfolding max_by_pct Float.mul Float.of_ratio Float.magnitude Float.lt zero_float literal
    Float.nearest Float.round_div Float.quantum Float.overflow Float.unit
share_room = refl

narrow : IsNarrow config account (some market)
unfolding is_wide spread_pct spread mid_price quotient Float.sub Float.neg Float.add Float.div
    Float.round Float.magnitude Float.is_pos Float.of_ratio Float.lt Float.le zero_float literal
    Float.nearest Float.round_div Float.quantum Float.overflow Float.unit
narrow = refl

constrain-IsLimited_example :
    IsLimited config account
      (constrain config account zero_float (some market) (literal 5000 1)).sized
constrain-IsLimited_example =
    constrain-IsLimited config account zero_float (some market) (literal 5000 1) ordered max_room
      worth share_room narrow
