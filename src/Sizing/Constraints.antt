-- ===== src/Sizing/Constraints.antt =====
-- trader/trading/position_sizing.py: `PositionSizer.compute` from the hard limits on, step by step.
use openwallstreet.Prelude.{
  Bool, true, false, not, ◌&&◌, Option, none, some, String, ◌==◌, string_eq, List, [], ◌∷◌, ◌++◌,
  if◌then◌else◌, leb_ℤ,
}
use openwallstreet.Float
use openwallstreet.Float.{Float, zero_float, literal}
use openwallstreet.Sizing.Inputs.{
  PositionSizingConfig, PortfolioState, LiquidityInfo, is_above, quotient, current_exposure_pct,
  mid_price, spread_pct, has_data,
}

-- The warnings, without their numbers.
pub data Warning : Type 0 where
  net_liquidation_not_positive exposure_high position_limit daily_loss_reached daily_loss_near :
      Warning
  adv_share_high wide_spread exceeds_book_depth below_minimum price_too_high : Warning

-- The size on its way, with the limit that capped it last.
pub record Sized : Type 0 where
  pub sized : Float
  pub capped_by : String
  pub warnings : List Warning

abbrev pub cap : Float → String → Sized → Sized
cap amount by s = record s { sized = amount; capped_by = by }

abbrev pub warn : Bool → Warning → Sized → Sized
warn true w s = record s { warnings = s.warnings ++ (w ∷ []) }
warn false w s = s

-- 3. The hard limits.
unfoldable pub clamp : PositionSizingConfig → Float → Sized
clamp cfg sized =
    let raw : Sized = record { sized = sized; capped_by = ""; warnings = [] } in
    if Float.lt sized cfg.min_position_usd
    then cap cfg.min_position_usd "min_position_usd" raw
    else if Float.lt cfg.max_position_usd sized
    then cap cfg.max_position_usd "max_position_usd" raw
    else raw

unfoldable pub max_by_pct : PositionSizingConfig → PortfolioState → Float
max_by_pct cfg st = Float.mul st.net_liquidation cfg.max_position_pct

-- What the exposure limit leaves.
unfoldable pub remaining : PositionSizingConfig → PortfolioState → Float
remaining cfg st = Float.max zero_float (
    Float.sub (Float.mul st.net_liquidation cfg.max_total_exposure_pct)
      (Float.add st.gross_position_value st.pending_proposal_value))

unfoldable pub limit_share : PositionSizingConfig → PortfolioState → Sized → Sized
unfolding max_by_pct
limit_share cfg st s =
    if Float.lt (max_by_pct cfg st) s.sized then cap (max_by_pct cfg st) "max_position_pct" s else s

unfoldable pub limit_exposure : PositionSizingConfig → PortfolioState → Sized → Sized
unfolding remaining
limit_exposure cfg st s =
    if Float.lt (remaining cfg st) s.sized
    then cap (Float.max zero_float (remaining cfg st)) "max_total_exposure_pct" s
    else s

-- 4. The limits by the net liquidation.
unfoldable pub limit_portfolio : PositionSizingConfig → PortfolioState → Sized → Sized
unfolding limit_share limit_exposure current_exposure_pct
limit_portfolio cfg st s =
    if is_above st.net_liquidation
    then warn
        (Float.le (Float.mul cfg.max_total_exposure_pct (literal 9 10)) (current_exposure_pct st))
        exposure_high (limit_exposure cfg st (limit_share cfg st s))
    else s

unfoldable pub limit_positions : PositionSizingConfig → PortfolioState → Sized → Sized
limit_positions cfg st s =
    if leb_ℤ cfg.max_positions st.position_count
    then warn true position_limit (cap zero_float "max_positions" s)
    else s

-- 5. The daily loss.
unfoldable pub limit_loss : PositionSizingConfig → PortfolioState → Sized → Sized
limit_loss cfg st s =
    let losing = Float.lt st.daily_pnl zero_float in
    if losing && Float.le cfg.daily_loss_limit_usd (Float.abs st.daily_pnl)
    then warn true daily_loss_reached (cap zero_float "daily_loss_limit" s)
    else warn
        (losing
          && Float.le (Float.mul cfg.daily_loss_limit_usd (literal 8 10)) (Float.abs st.daily_pnl))
        daily_loss_near s

-- The price given, or the middle of the market.
unfoldable pub effective_price : Float → Option LiquidityInfo → Float
unfolding mid_price
effective_price price none = price
effective_price price (some l) =
    if Float.le price zero_float && is_above (mid_price l) then mid_price l else price

unfoldable pub max_by_adv : PositionSizingConfig → LiquidityInfo → Float → Float
max_by_adv cfg l price = Float.mul (Float.mul l.avg_daily_volume cfg.max_adv_pct) price

-- The cap by the average daily volume.
unfoldable pub limit_adv : PositionSizingConfig → LiquidityInfo → Float → Sized → Sized
unfolding max_by_adv quotient
limit_adv cfg l price s =
    if not (is_above l.avg_daily_volume && is_above price)
    then s
    else if Float.lt (max_by_adv cfg l price) s.sized
    then cap (max_by_adv cfg l price) "adv_liquidity" s
    else warn
        (Float.lt (Float.mul cfg.max_adv_pct (literal 1 2))
          (quotient (quotient s.sized price) l.avg_daily_volume))
        adv_share_high s

unfoldable pub is_wide : PositionSizingConfig → LiquidityInfo → Bool
unfolding spread_pct
is_wide cfg l =
    is_above cfg.spread_penalty_threshold && Float.lt cfg.spread_penalty_threshold (spread_pct l)

-- The part that a wide spread takes off.
unfoldable pub penalty : PositionSizingConfig → LiquidityInfo → Float
unfolding spread_pct quotient
penalty cfg l =
    let ratio = quotient (spread_pct l) cfg.spread_penalty_threshold in
    Float.min cfg.spread_penalty_factor
      (Float.mul cfg.spread_penalty_factor (Float.sub ratio (literal 1 1)))

unfoldable pub penalise : PositionSizingConfig → LiquidityInfo → Sized → Sized
unfolding is_wide penalty
penalise cfg l s =
    if is_wide cfg l
    then warn true wide_spread (record s {
      sized = Float.max zero_float (Float.mul s.sized (Float.sub (literal 1 1) (penalty cfg l)));
      capped_by = if s.capped_by == "" then "spread_penalty" else s.capped_by;
    })
    else s

-- The warning of an order that is larger than the top of the book.
unfoldable pub compare_book : LiquidityInfo → Float → Sized → Sized
unfolding quotient
compare_book l price s =
    let book_size = if is_above l.bid_size then l.bid_size else l.ask_size in
    warn
      (is_above price
        && (is_above s.sized
            && (is_above book_size && Float.lt book_size (quotient s.sized price))))
      exceeds_book_depth s

-- 6. The liquidity.
unfoldable pub limit_liquidity : PositionSizingConfig → Option LiquidityInfo → Float → Sized → Sized
unfolding has_data limit_adv penalise compare_book
limit_liquidity cfg none price s = s
limit_liquidity cfg (some l) price s =
    if has_data l && is_above s.sized
    then compare_book l price (penalise cfg l (limit_adv cfg l price s))
    else s

-- A size that the limits have brought below the minimum is none.
unfoldable pub drop_small : PositionSizingConfig → Sized → Sized
drop_small cfg s =
    if is_above s.sized && Float.lt s.sized cfg.min_position_usd
    then warn true below_minimum (cap zero_float "below_minimum_after_constraints" s)
    else s
