-- ===== src/Sizing/Sizer/Limits.antt =====
-- The limits of a size.
use openwallstreet.Prelude.{
  ◌≡◌, ◌⊎◌, inl, inr, refl, arith, Bool, true, false, ◌&&◌, Option, Bool-cases, leb_ℤ,
}
use openwallstreet.Float
use openwallstreet.Float.{Float, zero_float}
use openwallstreet.Sizing.Inputs.{PositionSizingConfig, PortfolioState, LiquidityInfo, is_above}
use openwallstreet.Sizing.Constraints.{
  Sized, clamp, max_by_pct, remaining, limit_share, limit_exposure, limit_portfolio,
  limit_positions, limit_loss, effective_price, drop_small,
}
use openwallstreet.Sizing.Sizer.{constrain}
use openwallstreet.Sizing.Sizer.Shrinks.{
  Within, Shrinks, lt_irrefl, Shrinks-Within, max-room, warn-sized, IsNarrow, liquid-Within,
  loss-Within, tail-Within,
}

module _ (cfg : PositionSizingConfig) (st : PortfolioState) where
  clamp-Within :
      (x : Float)
      → Within cfg.max_position_usd cfg.min_position_usd
      → Within cfg.max_position_usd (clamp cfg x).sized
  unfolding clamp
  clamp-Within x ordered = ground (arith, lt_irrefl cfg.max_position_usd)

  share-Shrinks : (s : Sized) → Shrinks s.sized (limit_share cfg st s).sized
  unfolding limit_share
  share-Shrinks s = elim (Bool-cases (Float.lt (max_by_pct cfg st) s.sized)) [
    | inl over ↦ rw (limit_share, over) (inr (inl over))
    | inr under ↦ rw (limit_share, under) (inl refl)
  ]

  share-Within : (s : Sized) → Within (max_by_pct cfg st) (limit_share cfg st s).sized
  unfolding limit_share
  share-Within s = ground (arith, lt_irrefl (max_by_pct cfg st))

  remaining-twice : Float.max zero_float (remaining cfg st) ≡ remaining cfg st
  unfolding remaining Float.max
  remaining-twice = ground (arith, lt_irrefl zero_float)

  remaining-room : Within (remaining cfg st) zero_float
  unfolding remaining
  remaining-room = max-room _

  exposure-Shrinks : (s : Sized) → Shrinks s.sized (limit_exposure cfg st s).sized
  unfolding limit_exposure
  exposure-Shrinks s = elim (Bool-cases (Float.lt (remaining cfg st) s.sized)) [
    | inl over ↦ rw (limit_exposure, over, remaining-twice) (inr (inl over))
    | inr under ↦ rw (limit_exposure, under) (inl refl)
  ]

  exposure-Within : (s : Sized) → Within (remaining cfg st) (limit_exposure cfg st s).sized
  unfolding limit_exposure
  exposure-Within s = ground (arith, remaining-twice, lt_irrefl (remaining cfg st))

  -- The day's loss has reached its limit.
  abbrev pub loss_reached : Bool
  loss_reached =
      Float.lt st.daily_pnl zero_float && Float.le cfg.daily_loss_limit_usd (Float.abs st.daily_pnl)

  -- What holds of a size that the limits let through.
  pub record IsLimited (x : Float) : Type 0 where
    pub by_maximum : Within cfg.max_position_usd x
    pub by_share : Within (max_by_pct cfg st) x
    pub by_exposure : Within (remaining cfg st) x
    pub by_positions : (leb_ℤ cfg.max_positions st.position_count ≡ false) ⊎ Within zero_float x
    pub by_loss : (loss_reached ≡ false) ⊎ Within zero_float x
    pub by_minimum : (is_above x && Float.lt x cfg.min_position_usd) ≡ false

  portfolio-Within :
      (s : Sized)
      → is_above st.net_liquidation ≡ true
      → Within (max_by_pct cfg st) zero_float
      → Within (max_by_pct cfg st) (limit_portfolio cfg st s).sized
        × Within (remaining cfg st) (limit_portfolio cfg st s).sized
  unfolding limit_portfolio
  portfolio-Within s worth room =
      let shared = limit_share cfg st s in
      rw (limit_portfolio, worth)
        (rw (warn-sized _ _ (limit_exposure cfg st shared)) (
          Shrinks-Within (max_by_pct cfg st) shared.sized (limit_exposure cfg st shared).sized room
              (exposure-Shrinks shared) (share-Within s),
          exposure-Within shared,
        ))

  portfolio-keeps :
      (s : Sized)
      → is_above st.net_liquidation ≡ true
      → Within cfg.max_position_usd zero_float
      → Within cfg.max_position_usd s.sized
      → Within cfg.max_position_usd (limit_portfolio cfg st s).sized
  unfolding limit_portfolio
  portfolio-keeps s worth room h =
      let shared = limit_share cfg st s in
      rw (limit_portfolio, worth)
        (rw (warn-sized _ _ (limit_exposure cfg st shared)) (
          Shrinks-Within cfg.max_position_usd shared.sized (limit_exposure cfg st shared).sized room
            (exposure-Shrinks shared)
            (Shrinks-Within cfg.max_position_usd s.sized shared.sized room (share-Shrinks s) h)))

  full-Within :
      (s : Sized)
      → leb_ℤ cfg.max_positions st.position_count ≡ true
      → Within zero_float (limit_positions cfg st s).sized
  unfolding limit_positions
  full-Within s full = rw (limit_positions, full) (lt_irrefl zero_float)

  lost-Within : (s : Sized) → loss_reached ≡ true → Within zero_float (limit_loss cfg st s).sized
  unfolding limit_loss
  lost-Within s lost = rw (limit_loss, lost) (lt_irrefl zero_float)

  small_gone :
      (s : Sized)
      → (is_above (drop_small cfg s).sized
          && Float.lt (drop_small cfg s).sized cfg.min_position_usd)
        ≡ false
  unfolding drop_small
  small_gone s = ground (arith, lt_irrefl zero_float)

  -- With ordered hard limits that are not below 0, a net liquidation above 0 and a share of it that is not
  -- below 0, and no spread that is wide enough to be penalised: the size before rounding does not test as
  -- above the maximum, the share of the net liquidation or what the exposure limit leaves, nor as above 0 at
  -- the limit of positions or after the daily loss, and it is not between 0 and the minimum.
  pub constrain-IsLimited :
      (price : Float) (liq : Option LiquidityInfo) (sized : Float)
      → Within cfg.max_position_usd cfg.min_position_usd
      → Within cfg.max_position_usd zero_float
      → is_above st.net_liquidation ≡ true
      → Within (max_by_pct cfg st) zero_float
      → IsNarrow cfg st liq
      → IsLimited (constrain cfg st price liq sized).sized
  unfolding constrain
  constrain-IsLimited price liq sized ordered room worth share_room narrow =
      let hard = clamp cfg sized in
      let held = limit_portfolio cfg st hard in
      let eff = effective_price price liq in
      let (share, exposure) = portfolio-Within hard worth share_room in
      record {
        by_maximum =
            tail-Within cfg st cfg.max_position_usd liq eff held narrow room
              (portfolio-keeps hard worth room (clamp-Within sized ordered));
        by_share = tail-Within cfg st (max_by_pct cfg st) liq eff held narrow share_room share;
        by_exposure =
            tail-Within cfg st (remaining cfg st) liq eff held narrow remaining-room exposure;
        by_positions = elim (Bool-cases (leb_ℤ cfg.max_positions st.position_count)) [
          | inr free ↦ inl free
          | inl full ↦ inr (
              loss-Within cfg st zero_float liq eff (limit_positions cfg st held) narrow
                (lt_irrefl zero_float) (full-Within held full))
        ];
        by_loss = elim (Bool-cases loss_reached) [
          | inr free ↦ inl free
          | inl lost ↦ inr (
              liquid-Within cfg st zero_float liq eff
                (limit_loss cfg st (limit_positions cfg st held)) narrow (lt_irrefl zero_float)
                (lost-Within (limit_positions cfg st held) lost))
        ];
        by_minimum = small_gone _;
      }
