-- ===== src/Risk/Gate/Bounds.antt =====
-- What an approval means: each limit, for the orders that it applies to.
use openwallstreet.Prelude.{
  ◌≡◌, refl, ◌↔◌, Bool, true, false, Option, none, some, string_eq, [], pos, leb_ℤ,
}
use openwallstreet.Risk.Checks.{
  RiskLimits, Stage, passed, refused, exception, RiskGateResult, finish,
}
use openwallstreet.Risk.Gate.{Request, World, recent_opens, stages, evaluate}
use openwallstreet.Risk.Gate.Limits.{
  is_passed, >>=-passes, Within, OptionWithin, LossWithin, ConcentrationWithin, TurnoverWithin,
}
use openwallstreet.Risk.Gate.Stages.{
  order_notional-passes, open_orders-passes, daily_loss-passes, order_rate-passes, turnover-passes,
  concentration-passes, option-passes,
}

-- No limit that applies to the order tests as exceeded, and no datum that a limit needs is marked as unread.
pub record IsAllowed (l : RiskLimits) (w : World) (q : Request) : Type 0 where
  pub order_notional : Within q.position_value l.max_order_notional
  pub option : OptionWithin l q
  pub open_orders : leb_ℤ l.max_open_orders (pos q.open_order_count) ≡ false
  pub loss : LossWithin l q
  pub concentration : ConcentrationWithin l q
  pub order_rate : leb_ℤ l.max_signals_per_hour (pos (recent_opens w q.source_name)) ≡ false
  pub turnover : TurnoverWithin l w q

stages-passes :
    (l : RiskLimits) (w : World) (q : Request) → (is_passed (stages l w q) ≡ true) ↔ IsAllowed l w q
unfolding stages
stages-passes l w q =
    let chain =
      >>=-passes _ _
        (>>=-passes _ _
          (>>=-passes _ _
            (>>=-passes _ _
              (>>=-passes _ _ (>>=-passes _ _ (order_notional-passes l q []) (option-passes l q))
                (open_orders-passes l q))
              (daily_loss-passes l q))
            (concentration-passes l q))
          (λ c. order_rate-passes l q c w))
        (λ c. turnover-passes l q c w) in
    (
      λ h.
          let (h₆, t) = chain.0 h in
          let (h₅, r) = h₆ in
          let (h₄, cn) = h₅ in
          let (h₃, ls) = h₄ in
          let (h₂, oo) = h₃ in
          record {
            order_notional = h₂.0;
            option = h₂.1;
            open_orders = oo;
            loss = ls;
            concentration = cn;
            order_rate = r;
            turnover = t;
          },
      λ h. chain.1 (
        (((((h.order_notional, h.option), h.open_orders), h.loss), h.concentration), h.order_rate),
        h.turnover,
      ),
    )

-- The verdict of a result.
abbrev pub approves : Option RiskGateResult → Bool
approves none = false
approves (some r) = r.approved

approves-finish : (m : Stage) → approves (finish m) ≡ is_passed m
approves-finish (passed c) = refl
approves-finish (refused r c) = refl
approves-finish exception = refl

-- The gate approves an order exactly when no limit that applies to it tests as exceeded, which a comparison
-- with NaN never does, and no datum that a limit needs is marked as unread.
pub evaluate_iff :
    (l : RiskLimits) (w : World) (q : Request)
    → (approves (evaluate l w q) ≡ true) ↔ IsAllowed l w q
unfolding evaluate
evaluate_iff l w q = rw (approves-finish (stages l w q)) (stages-passes l w q)
