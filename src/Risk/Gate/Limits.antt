-- ===== src/Risk/Gate/Limits.antt =====
-- The limits of the gate as predicates, one for each stage of `evaluate`.
use openwallstreet.Prelude.{
  ◌≡◌, refl, ◌≢◌, ◌↔◌, Bool, true, false, ◌&&◌, some, string_eq, ltb, if◌then◌else◌, upper, pos,
  ltb_ℤ, get_or,
}
use openwallstreet.Float
use openwallstreet.Float.{Float, zero_float}
use openwallstreet.Risk.Turnover.{Turnover, daily_open_notional}
use openwallstreet.Risk.Checks.{RiskLimits, Checks, Stage, passed, refused, exception, ◌>>=◌}
use openwallstreet.Risk.Gate.{Request, World, exact}

abbrev pub is_passed : Stage → Bool
is_passed (passed c) = true
is_passed (refused r c) = false
is_passed exception = false

pub >>=-passes :
    (m : Stage) (f : Checks → Stage) {P Q : Type 0}
    → (is_passed m ≡ true) ↔ P
    → ((c : Checks) → (is_passed (f c) ≡ true) ↔ Q)
    → (is_passed (m >>= f) ≡ true) ↔ (P × Q)
>>=-passes (passed c) f p q = (λ h. (p.0 refl, (q c).0 h), λ h. (q c).1 h.1)
>>=-passes (refused r c) f p q = (λ h. absurd (cc h), λ h. p.1 h.0)
>>=-passes exception f p q = (λ h. absurd (cc h), λ h. p.1 h.0)

-- `value` is not above `limit`; a limit of 0.0 is off.
abbrev pub Within : Float → Float → Type 0
Within value limit = Float.lt zero_float limit ≡ true → Float.lt limit value ≡ false

-- The option limits, for an option order.
abbrev pub OptionWithin : RiskLimits → Request → Type 0
OptionWithin l q =
    upper q.sec_type ≡ "OPT"
    → (ltb_ℤ (pos 0) l.max_option_contracts_per_order ≡ true
        → Float.lt (exact l.max_option_contracts_per_order) (Float.abs q.order_quantity) ≡ false)
      × Within q.position_value l.max_estimated_option_debit

-- The daily loss could be read and is not beyond its limit.
abbrev pub LossWithin : RiskLimits → Request → Type 0
LossWithin l q =
    (q.daily_pnl_evaluable ≡ true) × (Float.lt q.daily_pnl (Float.neg l.max_daily_loss) ≡ false)

-- A position's share of a portfolio that is worth something is not above its limit.
abbrev pub ShareWithin : RiskLimits → Request → Type 0
ShareWithin l q =
    Float.lt zero_float q.position_value ≡ true
    → (Float.le q.portfolio_value zero_float ≡ false)
      × ((share : Float)
          → Float.div q.position_value q.portfolio_value ≡ some share
          → Float.lt l.max_position_size_pct share ≡ false)

-- Both values could be read and the concentration is within its limit, unless the order converts currency.
abbrev pub ConcentrationWithin : RiskLimits → Request → Type 0
ConcentrationWithin l q =
    upper q.sec_type ≢ "CASH"
    → (q.portfolio_value_evaluable ≡ true) × (q.position_value_evaluable ≡ true) × ShareWithin l q

-- The notional that the order would add to the turnover.
abbrev pub this_order : Request → Float
this_order q = if Float.lt zero_float q.position_value then q.position_value else zero_float

-- Today's turnover could be read, and with this order it stays within both caps.
abbrev pub CapsWithin : RiskLimits → Request → Turnover → Type 0
CapsWithin l q t =
    (ltb 0 t.unvaluable ≡ false)
    × Within (Float.add (get_or q.source_name zero_float t.per_strategy) (this_order q))
        l.max_daily_open_notional_per_strategy
    × Within (Float.add t.total (this_order q)) l.max_daily_open_notional

-- The caps, and a turnover whose reading does not raise, where one is on and the order does not convert currency.
abbrev pub TurnoverWithin : RiskLimits → World → Request → Type 0
TurnoverWithin l w q =
    (Float.le l.max_daily_open_notional zero_float
        && Float.le l.max_daily_open_notional_per_strategy zero_float)
      ≡ false
    → upper q.sec_type ≢ "CASH"
    → (t : Turnover) × (daily_open_notional w.start_of_day w.events ≡ some t) × CapsWithin l q t
