-- ===== src/Risk/Leverage/Cushion.antt =====
-- The verdict of the leverage check.
use openwallstreet.Prelude.{◌≡◌, refl, true, false, some, arith, [], Bool-cases, inl, inr}
use openwallstreet.Float
use openwallstreet.Float.{Float, nan, zero_float}
use openwallstreet.Float.Laws.{div-returns, div_nan}
use openwallstreet.Risk.Checks.{
  RiskLimits, Checks, pass, fail, unevaluable, RiskGateResult, clean, clean-insert_fine,
  clean-insert_bad, IsSound, >>=-IsSound, finish_sound, insert_check, passed,
}
use openwallstreet.Risk.Leverage.{
  MarginImpact, get_margin, check_cushion, check_leverage_ratio, leverage_stages, check_leverage,
}

module _ (l : RiskLimits) (init equity net : Float) (valued : Float.le net zero_float ≡ false)
    (c : Checks) (h : clean c ≡ true) where
  check_cushion-IsSound : IsSound (check_cushion l init equity net c)
  unfolding check_cushion
  check_cushion-IsSound =
      let (z, e) = div-returns (Float.sub equity init) net valued in
      ground (
        arith,
        e,
        clean-insert_bad "margin_cushion" (unevaluable "equity-data") c refl,
        clean-insert_bad "margin_cushion" fail c refl,
        clean-insert_fine "margin_cushion" pass c refl h,
      )

  check_leverage_ratio-IsSound : IsSound (check_leverage_ratio l init net c)
  unfolding check_leverage_ratio
  check_leverage_ratio-IsSound =
      let (z, e) = div-returns init net valued in
      ground (
        arith,
        e,
        clean-insert_bad "leverage" fail c refl,
        clean-insert_fine "leverage" pass c refl h,
      )

leverage_stages-IsSound :
    (l : RiskLimits) (m : MarginImpact) (net : Float) → IsSound (leverage_stages l m net)
unfolding leverage_stages
leverage_stages-IsSound l m net = elim (Bool-cases (Float.le net zero_float)) [
  | inl worthless ↦ rw worthless (clean-insert_bad "margin_cushion" (unevaluable "net-liq") _ refl)
  | inr valued ↦ elim (Bool-cases (Float.eq (get_margin m.init_margin_after) zero_float)) [
    | inl missing ↦
        rw (valued, missing) (clean-insert_bad "margin_cushion" (unevaluable "margin-data") _ refl)
    | inr known ↦
        rw (valued, known)
          (>>=-IsSound _ _
            (check_leverage_ratio-IsSound l (get_margin m.init_margin_after)
              (get_margin m.equity_with_loan_after) net valued [] (unfold clean in refl))
            (check_cushion-IsSound l (get_margin m.init_margin_after)
              (get_margin m.equity_with_loan_after) net valued))
  ]
]

-- `check_leverage` always returns a result, and it approves exactly when no recorded check failed or was
-- unreadable.
check_leverage-clean :
    (l : RiskLimits) (m : MarginImpact) (net : Float)
    → (r : RiskGateResult) × (check_leverage l m net ≡ some r) × (r.approved ≡ clean r.checks)
unfolding check_leverage
check_leverage-clean l m net =
    finish_sound (leverage_stages l m net) (leverage_stages-IsSound l m net)

-- What an approval of the leverage check means.
pub record IsCovered (l : RiskLimits) (m : MarginImpact) (net : Float) : Type 0 where
  pub valued : Float.le net zero_float ≡ false
  pub margin_known : Float.eq (get_margin m.init_margin_after) zero_float ≡ false
  pub equity_known : Float.eq (get_margin m.equity_with_loan_after) zero_float ≡ false
  pub leverage_within :
      (ratio : Float)
      → Float.div (get_margin m.init_margin_after) net ≡ some ratio
      → Float.lt l.max_leverage ratio ≡ false
  pub cushion_within :
      (cushion : Float)
      → Float.div
          (Float.sub (get_margin m.equity_with_loan_after) (get_margin m.init_margin_after))
          net
        ≡ some cushion
      → Float.lt cushion l.min_margin_cushion ≡ false

-- An order that the leverage check approves has a positive or unordered net liquidation, a margin and an
-- equity that could be read, a leverage within its limit and a cushion of at least the minimum.
pub check_leverage-IsCovered :
    (l : RiskLimits) (m : MarginImpact) (net : Float) {r : RiskGateResult}
    → check_leverage l m net ≡ some r
    → r.approved ≡ true
    → IsCovered l m net
unfolding check_leverage leverage_stages check_leverage_ratio check_cushion
check_leverage-IsCovered l m net e a = elim (Bool-cases (Float.le net zero_float)) [
  | inl worthless ↦ absurd (ground arith)
  | inr valued ↦
      let (x, ex) = div-returns (get_margin m.init_margin_after) net valued in
      let (y, ey) =
        div-returns
          (Float.sub (get_margin m.equity_with_loan_after) (get_margin m.init_margin_after)) net
          valued in
      record {
        valued = valued;
        margin_known = ground arith;
        equity_known = ground (arith, ex);
        leverage_within = λ ratio same. ground (arith, ex);
        cushion_within = λ cushion same. ground (arith, ex, ey);
      }
]

check_leverage_ratio-nan :
    (l : RiskLimits) (init : Float) (c : Checks)
    → check_leverage_ratio l init nan c ≡ passed (insert_check "leverage" pass c)
unfolding check_leverage_ratio Float.lt
check_leverage_ratio-nan l init c = ground (arith, div_nan init)

check_cushion-nan :
    (l : RiskLimits) (init equity : Float) (c : Checks)
    → Float.eq equity zero_float ≡ false
    → check_cushion l init equity nan c ≡ passed (insert_check "margin_cushion" pass c)
unfolding check_cushion Float.lt
check_cushion-nan l init equity c worth = rw (worth, div_nan (Float.sub equity init)) refl

-- A net liquidation of NaN is approved under every limit, if the margin and the equity are given and not
-- zero.
pub check_leverage-nan :
    (l : RiskLimits) (m : MarginImpact)
    → Float.eq (get_margin m.init_margin_after) zero_float ≡ false
    → Float.eq (get_margin m.equity_with_loan_after) zero_float ≡ false
    → (r : RiskGateResult) × (check_leverage l m nan ≡ some r) × (r.approved ≡ true)
unfolding check_leverage leverage_stages Float.le
check_leverage-nan l m known worth =
    rw (known, check_leverage_ratio-nan l (get_margin m.init_margin_after) [])
      (rw
        (check_cushion-nan l (get_margin m.init_margin_after) (get_margin m.equity_with_loan_after)
          (insert_check "leverage" pass []) worth)
        (_, refl, refl))
