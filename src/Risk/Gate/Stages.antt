-- ===== src/Risk/Gate/Stages.antt =====
-- Each stage of `evaluate` against its limit.
use openwallstreet.Prelude.{
  ◌≡◌, ◌≢◌, ◌↔◌, true, false, ◌&&◌, some, arith, ◌==◌, string_eq, eq_iff, ltb, Option-cases,
  Bool-cases, inl, inr, upper, pos, ltb_ℤ, leb_ℤ, get_or,
}
use openwallstreet.Float
use openwallstreet.Float.{Float, zero_float}
use openwallstreet.Float.Laws.{div-returns}
use openwallstreet.Risk.Turnover.{Turnover, check_caps, check_daily_turnover, daily_open_notional}
use openwallstreet.Risk.Checks.{RiskLimits, Checks}
use openwallstreet.Risk.Gate.{
  Request, World, exact, recent_opens, check_order_notional, check_option_contracts,
  check_option_debit, check_option, check_open_orders, check_daily_loss, check_ratio,
  check_concentration, check_order_rate, check_turnover,
}
use openwallstreet.Risk.Gate.Limits.{
  is_passed, >>=-passes, Within, OptionWithin, LossWithin, ShareWithin, ConcentrationWithin,
  this_order, CapsWithin, TurnoverWithin,
}

pub within_iff :
    (value limit : Float)
    → ((Float.lt zero_float limit && Float.lt limit value) ≡ false) ↔ Within value limit
within_iff value limit = (
  λ h on. ground arith,
  λ h. elim (Bool-cases (Float.lt zero_float limit)) [ inl on ↦ rw (on, h on) | inr off ↦ rw off ],
)

module _ (l : RiskLimits) (q : Request) (c : Checks) where
  pub order_notional-passes :
      (is_passed (check_order_notional l q c) ≡ true) ↔ Within q.position_value l.max_order_notional
  unfolding check_order_notional
  order_notional-passes = (
    λ h p. ground arith,
    λ h. elim (Bool-cases (Float.lt zero_float l.max_order_notional)) [
      | inl on ↦ rw (on, h on)
      | inr off ↦ rw off
    ],
  )

  pub option_debit-passes :
      (is_passed (check_option_debit l q c) ≡ true)
      ↔ Within q.position_value l.max_estimated_option_debit
  unfolding check_option_debit
  option_debit-passes = (
    λ h p. ground arith,
    λ h. elim (Bool-cases (Float.lt zero_float l.max_estimated_option_debit)) [
      | inl on ↦ rw (on, h on)
      | inr off ↦ rw off
    ],
  )

  pub option_contracts-passes : (is_passed (check_option_contracts l q c) ≡ true) ↔ (
      ltb_ℤ (pos 0) l.max_option_contracts_per_order ≡ true
      → Float.lt (exact l.max_option_contracts_per_order) (Float.abs q.order_quantity) ≡ false)
  unfolding check_option_contracts
  option_contracts-passes = (
    λ h p. ground arith,
    λ h. elim (Bool-cases (ltb_ℤ (pos 0) l.max_option_contracts_per_order)) [
      | inl on ↦ rw (on, h on)
      | inr off ↦ rw off
    ],
  )

  pub open_orders-passes :
      (is_passed (check_open_orders l q c) ≡ true)
      ↔ (leb_ℤ l.max_open_orders (pos q.open_order_count) ≡ false)
  unfolding check_open_orders
  open_orders-passes = (λ h. ground arith, λ h. ground arith)

  pub daily_loss-passes : (is_passed (check_daily_loss l q c) ≡ true) ↔ LossWithin l q
  unfolding check_daily_loss
  daily_loss-passes = (λ h. ground arith, λ h. ground arith)

  pub order_rate-passes :
      (w : World)
      → (is_passed (check_order_rate l w q c) ≡ true)
        ↔ (leb_ℤ l.max_signals_per_hour (pos (recent_opens w q.source_name)) ≡ false)
  unfolding check_order_rate
  order_rate-passes w = (λ h. ground arith, λ h. ground arith)

  pub caps-passes :
      (t : Turnover)
      → ltb 0 t.unvaluable ≡ false
      → (is_passed (check_caps l q.source_name (this_order q) t c) ≡ true) ↔ CapsWithin l q t
  unfolding check_caps
  caps-passes t known =
      let mine =
        within_iff (Float.add (get_or q.source_name zero_float t.per_strategy) (this_order q))
          l.max_daily_open_notional_per_strategy in
      let all = within_iff (Float.add t.total (this_order q)) l.max_daily_open_notional in
      (
        λ h. (known, mine.0 (ground arith), all.0 (ground arith)),
        λ h. ground (arith, mine.1 h.1, all.1 h.2),
      )

  pub turnover-passes :
      (w : World) → (is_passed (check_turnover l w q c) ≡ true) ↔ TurnoverWithin l w q
  unfolding check_turnover check_daily_turnover
  turnover-passes w = (
    λ h on cash. elim (Option-cases (daily_open_notional w.start_of_day w.events)) [
      | inl raised ↦ absurd (ground (arith, raised, eq_iff (upper q.sec_type) "CASH"))
      | inr (t, read) ↦ (
        t,
        read,
        elim (Bool-cases (ltb 0 t.unvaluable)) [
          | inl unread ↦ absurd (ground (arith, read, eq_iff (upper q.sec_type) "CASH"))
          | inr known ↦
              (caps-passes t known).0 (ground (arith, read, eq_iff (upper q.sec_type) "CASH"))
        ],
      )
    ],
    λ h.
        elim (Bool-cases (
          Float.le l.max_daily_open_notional zero_float
          && Float.le l.max_daily_open_notional_per_strategy zero_float)) [
            | inl off ↦ rw off
            | inr on ↦ elim (Bool-cases (upper q.sec_type == "CASH")) [
              | inl cash ↦ rw (on, cash)
              | inr other ↦
                  let (t, read, within) =
                    h on (λ e. cc ((eq_iff (upper q.sec_type) "CASH").1 e, other)) in
                  rw (on, other, read, within.0) ((caps-passes t within.0).1 within)
            ]
          ],
  )

  pub ratio-passes :
      Float.le q.portfolio_value zero_float ≡ false
      → (is_passed (check_ratio l q c) ≡ true) ↔ (
          (share : Float)
          → Float.div q.position_value q.portfolio_value ≡ some share
          → Float.lt l.max_position_size_pct share ≡ false)
  unfolding check_ratio
  ratio-passes valued =
      let (z, e) = div-returns q.position_value q.portfolio_value valued in
      (λ h share same. ground arith, λ h. rw (e, check_ratio) (ground (arith, h z e)))

  pub concentration-passes :
      (is_passed (check_concentration l q c) ≡ true) ↔ ConcentrationWithin l q
  unfolding check_concentration
  concentration-passes = (passes, fits)
    where
      share :
          is_passed (check_concentration l q c) ≡ true → upper q.sec_type ≢ "CASH" → ShareWithin l q
      share h other opens = elim (Bool-cases (Float.le q.portfolio_value zero_float)) [
        | inl worthless ↦ absurd (ground (arith, eq_iff (upper q.sec_type) "CASH"))
        | inr valued ↦
            (valued, (ratio-passes valued).0 (ground (arith, eq_iff (upper q.sec_type) "CASH")))
      ]

      passes : is_passed (check_concentration l q c) ≡ true → ConcentrationWithin l q
      passes h other = (
        ground (arith, eq_iff (upper q.sec_type) "CASH"),
        ground (arith, eq_iff (upper q.sec_type) "CASH"),
        share h other,
      )

      fits_open :
          (upper q.sec_type == "CASH") ≡ false
          → (q.portfolio_value_evaluable ≡ true)
            × (q.position_value_evaluable ≡ true)
            × ShareWithin l q
          → is_passed (check_concentration l q c) ≡ true
      fits_open other h = elim (Bool-cases (Float.lt zero_float q.position_value)) [
        | inl opens ↦
            rw (other, h.0, h.1, opens, (h.2 opens).0)
              ((ratio-passes (h.2 opens).0).1 (h.2 opens).1)
        | inr nothing ↦ rw (other, h.0, h.1, nothing)
      ]

      fits : ConcentrationWithin l q → is_passed (check_concentration l q c) ≡ true
      fits h = elim (Bool-cases (upper q.sec_type == "CASH")) [
        | inl cash ↦ rw cash
        | inr other ↦ fits_open other (h (λ e. cc ((eq_iff (upper q.sec_type) "CASH").1 e, other)))
      ]

pub option-passes :
    (l : RiskLimits) (q : Request) (c : Checks)
    → (is_passed (check_option l q c) ≡ true) ↔ OptionWithin l q
unfolding check_option
option-passes l q c =
    let both =
      >>=-passes (check_option_contracts l q c) (check_option_debit l q)
        (option_contracts-passes l q c) (option_debit-passes l q) in
    (
      λ h opt. both.0 (ground (arith, eq_iff (upper q.sec_type) "OPT")),
      λ h. elim (Bool-cases (upper q.sec_type == "OPT")) [
        | inl opt ↦ rw opt (both.1 (h ((eq_iff (upper q.sec_type) "OPT").0 opt)))
        | inr other ↦ rw other
      ],
    )
