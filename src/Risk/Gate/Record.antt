-- ===== src/Risk/Gate/Record.antt =====
-- The record of checks of `evaluate` against its verdict.
use openwallstreet.Prelude.{
  ◌≡◌, ◌≢◌, ◌⊎◌, ◌&&◌, ◌==◌, string_eq, eq_iff, any, upper, ltb, refl, true, false, none, some,
  arith, String, [], Bool-cases, inl, inr, if◌then◌else◌,
}
use openwallstreet.Float
use openwallstreet.Float.{Float, nan, inf, neg_inf, fin, zero_float}
use openwallstreet.Float.Laws.{div-returns}
use openwallstreet.Risk.Turnover.{
  Turnover, check_caps, check_daily_turnover, daily_open_notional, tally_day, overflows,
}
use openwallstreet.Risk.Events.{query_since, order_submitted}
use openwallstreet.Risk.Checks.{
  RiskLimits, Checks, pass, fail, skipped, unevaluable, RiskGateResult, clean, clean-insert_fine,
  clean-insert_bad, IsSound, >>=-IsSound, IsSoundBut, IsSound-IsSoundBut, >>=-IsSoundBut,
  finish_sound_but,
}
use openwallstreet.Risk.Gate.{
  Request, World, check_order_notional, check_option_contracts, check_option_debit, check_option,
  check_open_orders, check_daily_loss, check_ratio, check_concentration, check_order_rate,
  check_turnover, stages, evaluate,
}

-- A turnover cap is on for the order, and one of today's opening submissions has a notional that overflows.
pub record IsOverflowing (l : RiskLimits) (w : World) (q : Request) : Type 0 where
  pub capped :
      (Float.le l.max_daily_open_notional zero_float
        && Float.le l.max_daily_open_notional_per_strategy zero_float)
      ≡ false
  pub no_cash : upper q.sec_type ≢ "CASH"
  pub overflowing : any overflows (query_since w.start_of_day order_submitted w.events) ≡ true

module _ (l : RiskLimits) (q : Request) (c : Checks) (h : clean c ≡ true) where
  check_order_notional-IsSound : IsSound (check_order_notional l q c)
  unfolding check_order_notional
  check_order_notional-IsSound = ground (
    arith,
    clean-insert_fine "max_order_notional" pass c refl h,
    clean-insert_bad "max_order_notional" fail c refl,
  )

  check_option_contracts-IsSound : IsSound (check_option_contracts l q c)
  unfolding check_option_contracts
  check_option_contracts-IsSound = ground (
    arith,
    clean-insert_fine "max_option_contracts" pass c refl h,
    clean-insert_bad "max_option_contracts" fail c refl,
  )

  check_option_debit-IsSound : IsSound (check_option_debit l q c)
  unfolding check_option_debit
  check_option_debit-IsSound = ground (
    arith,
    clean-insert_fine "max_option_debit" pass c refl h,
    clean-insert_bad "max_option_debit" fail c refl,
  )

  check_open_orders-IsSound : IsSound (check_open_orders l q c)
  unfolding check_open_orders
  check_open_orders-IsSound = ground (
    arith,
    clean-insert_fine "max_open_orders" pass c refl h,
    clean-insert_bad "max_open_orders" fail c refl,
  )

  check_daily_loss-IsSound : IsSound (check_daily_loss l q c)
  unfolding check_daily_loss
  check_daily_loss-IsSound = ground (
    arith,
    clean-insert_fine "daily_loss" pass c refl h,
    clean-insert_bad "daily_loss" fail c refl,
    clean-insert_bad "daily_loss" (unevaluable "daily-pnl") c refl,
  )

  check_ratio-IsSound : Float.le q.portfolio_value zero_float ≡ false → IsSound (check_ratio l q c)
  unfolding check_ratio
  check_ratio-IsSound valued =
      let (z, e) = div-returns q.position_value q.portfolio_value valued in
      rw (e, check_ratio)
        (ground (
          arith,
          clean-insert_fine "concentration" pass c refl h,
          clean-insert_bad "concentration" fail c refl,
        ))

  check_concentration-IsSound : IsSound (check_concentration l q c)
  unfolding check_concentration
  check_concentration-IsSound = elim (Bool-cases (Float.le q.portfolio_value zero_float)) [
    | inl worthless ↦ ground (
      arith,
      clean-insert_fine "concentration" (skipped "forex-cash") c refl h,
      clean-insert_fine "concentration" (skipped "zero-notional") c refl h,
      clean-insert_bad "concentration" (unevaluable "portfolio-value") c refl,
      clean-insert_bad "concentration" (unevaluable "position-value") c refl,
      clean-insert_bad "concentration" fail c refl,
    )
    | inr valued ↦ ground (
      arith,
      clean-insert_fine "concentration" (skipped "forex-cash") c refl h,
      clean-insert_fine "concentration" (skipped "zero-notional") c refl h,
      clean-insert_bad "concentration" (unevaluable "portfolio-value") c refl,
      clean-insert_bad "concentration" (unevaluable "position-value") c refl,
      check_ratio-IsSound valued,
    )
  ]

  check_order_rate-IsSound : (w : World) → IsSound (check_order_rate l w q c)
  unfolding check_order_rate
  check_order_rate-IsSound w = ground (
    arith,
    clean-insert_fine "order_rate" pass c refl h,
    clean-insert_bad "order_rate" fail c refl,
  )

  check_caps-IsSound :
      (source : String) (this_order : Float) (t : Turnover)
      → IsSound (check_caps l source this_order t c)
  unfolding check_caps
  check_caps-IsSound source this_order t = ground (
    arith,
    clean-insert_fine "daily_turnover" pass c refl h,
    clean-insert_bad "daily_turnover" fail c refl,
  )

  -- An exception comes from a turnover that is needed and whose reading raises.
  check_turnover-IsSoundBut :
      (w : World) → IsSoundBut (IsOverflowing l w q) (check_turnover l w q c)
  unfolding check_turnover check_daily_turnover daily_open_notional
  check_turnover-IsSoundBut w =
      let mine = if Float.lt zero_float q.position_value then q.position_value else zero_float in
      let unread = clean-insert_bad "daily_turnover" (unevaluable "turnover-history") c refl in
      elim (Bool-cases (
        Float.le l.max_daily_open_notional zero_float
        && Float.le l.max_daily_open_notional_per_strategy zero_float)) [
          | inl off ↦ rw off h
          | inr on ↦ elim (Bool-cases (upper q.sec_type == "CASH")) [
            | inl cash ↦ rw (on, cash) h
            | inr other ↦
                elim (Bool-cases
                  (any overflows (query_since w.start_of_day order_submitted w.events))) [
                    | inl bad ↦
                        rw (on, other, bad)
                          (record {
                            capped = on;
                            no_cash = λ e. cc ((eq_iff (upper q.sec_type) "CASH").1 e, other);
                            overflowing = bad;
                          })
                    | inr fine ↦
                        let t = tally_day w.start_of_day w.events in
                        rw (on, other, fine)
                          (elim (Bool-cases (ltb 0 t.unvaluable)) [
                            | inl some_unread ↦ rw some_unread unread
                            | inr known ↦ rw known (
                                IsSound-IsSoundBut (IsOverflowing l w q)
                                  (check_caps l q.source_name mine t c)
                                  (check_caps-IsSound q.source_name mine t))
                          ])
                  ]
          ]
        ]

check_option-IsSound :
    (l : RiskLimits) (q : Request) (c : Checks) → clean c ≡ true → IsSound (check_option l q c)
unfolding check_option
check_option-IsSound l q c h = ground (
  arith,
  h,
  >>=-IsSound (check_option_contracts l q c) (check_option_debit l q)
      (check_option_contracts-IsSound l q c h) (check_option_debit-IsSound l q),
)

stages-IsSoundBut :
    (l : RiskLimits) (w : World) (q : Request) → IsSoundBut (IsOverflowing l w q) (stages l w q)
unfolding stages
stages-IsSoundBut l w q =
    >>=-IsSoundBut (IsOverflowing l w q) _ _
      (>>=-IsSound _ _
        (>>=-IsSound _ _
          (>>=-IsSound _ _
            (>>=-IsSound _ _
              (>>=-IsSound _ _ (check_order_notional-IsSound l q [] (unfold clean in refl))
                (check_option-IsSound l q))
              (check_open_orders-IsSound l q))
            (check_daily_loss-IsSound l q))
          (check_concentration-IsSound l q))
        (λ c h. check_order_rate-IsSound l q c h w))
      (λ c h. check_turnover-IsSoundBut l q c h w)

-- `evaluate` returns a result that approves exactly when every recorded check passed or was skipped: a failed
-- or an unreadable check is a refusal, and every refusal records one. Or it raises, and then only where a
-- turnover cap is on for the order and one of today's opening submissions has recorded a notional beyond the
-- doubles.
pub evaluate-clean :
    (l : RiskLimits) (w : World) (q : Request)
    → ((r : RiskGateResult) × (evaluate l w q ≡ some r) × (r.approved ≡ clean r.checks))
      ⊎ ((evaluate l w q ≡ none) × IsOverflowing l w q)
unfolding evaluate
evaluate-clean l w q =
    finish_sound_but (IsOverflowing l w q) (stages l w q) (stages-IsSoundBut l w q)
