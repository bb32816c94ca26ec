-- ===== src/Sizing/Sizer/Shrinks.antt =====
-- What each step of the sizer does to the size.
use openwallstreet.Prelude.{
  ◌≡◌, ◌⊎◌, inl, inr, refl, arith, Bool, true, false, ◌&&◌, Option, none, some, Bool-cases, leb_ℤ,
}
use openwallstreet.Float
use openwallstreet.Float.{Float, zero_float}
use openwallstreet.Float.Laws.{lt_asymm}
use openwallstreet.Sizing.Inputs.{
  PositionSizingConfig, PortfolioState, LiquidityInfo, is_above, has_data,
}
use openwallstreet.Sizing.Constraints.{
  Warning, Sized, warn, limit_positions, limit_loss, max_by_adv, limit_adv, is_wide, penalise,
  compare_book, limit_liquidity, drop_small,
}

-- A size that does not test as above a cap; a size of NaN never does.
abbrev pub Within : Float → Float → Type 0
Within bound x = Float.lt bound x ≡ false

-- A step keeps the size, lowers it, or takes it away.
abbrev pub Shrinks : Float → Float → Type 0
Shrinks x y = (y ≡ x) ⊎ (Float.lt y x ≡ true) ⊎ (y ≡ zero_float)

lt-false_trans : (b x y : Float) → Float.lt b x ≡ false → Float.lt y x ≡ true → Float.lt b y ≡ false
unfolding Float.lt
lt-false_trans b x y h k = ground arith

pub lt_irrefl : (x : Float) → Float.lt x x ≡ false
unfolding Float.lt
lt_irrefl x = ground arith

pub Shrinks-Within : (b x y : Float) → Within b zero_float → Shrinks x y → Within b x → Within b y
Shrinks-Within b x y room (inl same) h = rw same h
Shrinks-Within b x y room (inr (inl lower)) h = lt-false_trans b x y h lower
Shrinks-Within b x y room (inr (inr gone)) h = rw gone room

pub max-room : (y : Float) → Within (Float.max zero_float y) zero_float
unfolding Float.max
max-room y = elim (Bool-cases (Float.lt zero_float y)) [
  | inl above ↦ rw above (lt_asymm zero_float y above)
  | inr below ↦ rw below (lt_irrefl zero_float)
]

pub warn-sized : (b : Bool) (w : Warning) (s : Sized) → (warn b w s).sized ≡ s.sized
warn-sized true w s = refl
warn-sized false w s = refl

module _ (cfg : PositionSizingConfig) (st : PortfolioState) where
  positions-Shrinks : (s : Sized) → Shrinks s.sized (limit_positions cfg st s).sized
  unfolding limit_positions
  positions-Shrinks s = elim (Bool-cases (leb_ℤ cfg.max_positions st.position_count)) [
    | inl full ↦ rw (limit_positions, full) (inr (inr refl))
    | inr room ↦ rw (limit_positions, room) (inl refl)
  ]

  loss-Shrinks : (s : Sized) → Shrinks s.sized (limit_loss cfg st s).sized
  unfolding limit_loss
  loss-Shrinks s =
      elim (Bool-cases (
        Float.lt st.daily_pnl zero_float
        && Float.le cfg.daily_loss_limit_usd (Float.abs st.daily_pnl))) [
          | inl lost ↦ rw (limit_loss, lost) (inr (inr refl))
          | inr room ↦ rw (limit_loss, room) (inl (warn-sized _ _ s))
        ]

  adv-Shrinks :
      (l : LiquidityInfo) (price : Float) (s : Sized)
      → Shrinks s.sized (limit_adv cfg l price s).sized
  unfolding limit_adv
  adv-Shrinks l price s = elim (Bool-cases (is_above l.avg_daily_volume && is_above price)) [
    | inr unknown ↦ rw (limit_adv, unknown) (inl refl)
    | inl known ↦ elim (Bool-cases (Float.lt (max_by_adv cfg l price) s.sized)) [
      | inl over ↦ rw (limit_adv, known, over) (inr (inl over))
      | inr under ↦ rw (limit_adv, known, under) (inl (warn-sized _ _ s))
    ]
  ]

  -- The spread is not wide enough to be penalised.
  abbrev pub IsNarrow : Option LiquidityInfo → Type 0
  IsNarrow none = Unit
  IsNarrow (some l) = is_wide cfg l ≡ false

  liquidity-Shrinks :
      (liq : Option LiquidityInfo) (price : Float) (s : Sized)
      → IsNarrow liq
      → Shrinks s.sized (limit_liquidity cfg liq price s).sized
  unfolding limit_liquidity penalise compare_book
  liquidity-Shrinks none price s narrow = inl refl
  liquidity-Shrinks (some l) price s narrow = elim (Bool-cases (has_data l && is_above s.sized)) [
    | inr unknown ↦ rw (limit_liquidity, unknown) (inl refl)
    | inl known ↦
        rw (limit_liquidity, known)
          (rw (penalise, narrow)
            (rw (warn-sized _ _ (limit_adv cfg l price s)) (adv-Shrinks l price s)))
  ]

  small-Shrinks : (s : Sized) → Shrinks s.sized (drop_small cfg s).sized
  unfolding drop_small
  small-Shrinks s = elim (Bool-cases (is_above s.sized && Float.lt s.sized cfg.min_position_usd)) [
    | inl small ↦ rw (drop_small, small) (inr (inr refl))
    | inr kept ↦ rw (drop_small, kept) (inl refl)
  ]

  -- From the liquidity, from the daily loss, and from the limit of positions on, a cap that is not below 0
  -- goes on holding.
  pub liquid-Within :
      (b : Float) (liq : Option LiquidityInfo) (price : Float) (s : Sized)
      → IsNarrow liq
      → Within b zero_float
      → Within b s.sized
      → Within b (drop_small cfg (limit_liquidity cfg liq price s)).sized
  liquid-Within b liq price s narrow room h =
      let liquid = limit_liquidity cfg liq price s in
      Shrinks-Within b liquid.sized (drop_small cfg liquid).sized room (small-Shrinks liquid)
        (Shrinks-Within b s.sized liquid.sized room (liquidity-Shrinks liq price s narrow) h)

  pub loss-Within :
      (b : Float) (liq : Option LiquidityInfo) (price : Float) (s : Sized)
      → IsNarrow liq
      → Within b zero_float
      → Within b s.sized
      → Within b (drop_small cfg (limit_liquidity cfg liq price (limit_loss cfg st s))).sized
  loss-Within b liq price s narrow room h =
      liquid-Within b liq price (limit_loss cfg st s) narrow room
        (Shrinks-Within b s.sized (limit_loss cfg st s).sized room (loss-Shrinks s) h)

  pub tail-Within :
      (b : Float) (liq : Option LiquidityInfo) (price : Float) (s : Sized)
      → IsNarrow liq
      → Within b zero_float
      → Within b s.sized
      → Within b
          (drop_small cfg
            (limit_liquidity cfg liq price (limit_loss cfg st (limit_positions cfg st s)))).sized
  tail-Within b liq price s narrow room h =
      loss-Within b liq price (limit_positions cfg st s) narrow room
        (Shrinks-Within b s.sized (limit_positions cfg st s).sized room (positions-Shrinks s) h)
