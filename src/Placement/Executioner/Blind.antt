-- ===== src/Placement/Executioner/Blind.antt =====
-- Opening orders while the account cannot be read.
use openwallstreet.Prelude.{
  ◌≡◌, ◌≢◌, ◌⊎◌, inl, inr, refl, true, false, not, none, some, arith, String, string_eq, List, [],
  ◌∷◌, Option, any, upper, if◌then◌else◌, Bool-cases,
}
use openwallstreet.Float
use openwallstreet.Float.{Float, zero_float}
use openwallstreet.Risk.Checks.{RiskLimits}
use openwallstreet.Risk.Gate.Bounds.{IsAllowed}
use openwallstreet.Placement.Account.{Trader, AccountValue}
use openwallstreet.Placement.Inputs.{
  has_today_trading_activity, sum_pnl, daily_pnl_of, active_account, is_net_liquidation,
  net_liquidation, gather_risk_inputs,
}
use openwallstreet.Placement.Sink.{ApprovedOrder, submitted}
use openwallstreet.Placement.Executioner.{Call, Run, is_exit, request_of, place_order}
use openwallstreet.Placement.Executioner.Authorised.{place_order-IsAuthorised}

-- The profit and loss of the day cannot be read: the read fails, the cache is empty on a day with activity,
-- or one of the values is not finite.
abbrev pub IsPnlUnread : Trader → Type 0
IsPnlUnread t =
    (t.pnl ≡ none)
    ⊎ ((t.pnl ≡ some []) × (has_today_trading_activity t ≡ true))
    ⊎ ((xs : List Float) × (t.pnl ≡ some xs) × (any (λ x. not (Float.is_finite x)) xs ≡ true))

-- The first NetLiquidation of the account, with what `float(...)` makes of it.
unfoldable pub first_value : String → List AccountValue → Option Float
first_value account [] = none
first_value account (v ∷ vs) =
    let later = first_value account vs in if is_net_liquidation account v then v.value else later

-- The value of the account cannot be read: the read fails, or no row shows it, or the first row that does is
-- not a number.
abbrev pub IsValueUnread : Trader → Type 0
IsValueUnread t =
    (t.account_values ≡ none)
    ⊎ ((vs : List AccountValue) × (t.account_values ≡ some vs)
        × (first_value (active_account t) vs ≡ none))

sum_pnl_blind :
    (total : Float) (xs : List Float)
    → any (λ x. not (Float.is_finite x)) xs ≡ true
    → (sum_pnl total xs).1 ≡ false
unfolding sum_pnl
sum_pnl_blind total [] h = absurd (cc h)
sum_pnl_blind total (x ∷ xs) h = ground (arith, sum_pnl_blind (Float.add total x) xs)

pnl_blind : (t : Trader) → IsPnlUnread t → (gather_risk_inputs t).daily_pnl_evaluable ≡ false
unfolding gather_risk_inputs daily_pnl_of has_today_trading_activity
pnl_blind t (inl failed) = rw failed refl
pnl_blind t (inr (inl (empty, active))) = rw (empty, active) refl
pnl_blind t (inr (inr ([], found, some_bad))) = absurd (cc some_bad)
pnl_blind t (inr (inr (x ∷ xs, found, some_bad))) =
    rw found (sum_pnl_blind zero_float (x ∷ xs) some_bad)

net_liquidation_blind :
    (account : String) (vs : List AccountValue)
    → first_value account vs ≡ none
    → (net_liquidation account vs).1 ≡ false
unfolding net_liquidation first_value
net_liquidation_blind account [] h = refl
net_liquidation_blind account (v ∷ vs) h = elim (Bool-cases (is_net_liquidation account v)) [
  | inl shown ↦ ground (arith, shown)
  | inr other ↦ ground (arith, other, net_liquidation_blind account vs)
]

value_blind :
    (t : Trader) → IsValueUnread t → (gather_risk_inputs t).portfolio_value_evaluable ≡ false
unfolding gather_risk_inputs
value_blind t (inl failed) = rw failed refl
value_blind t (inr (vs, found, absent)) =
    rw found (net_liquidation_blind (active_account t) vs absent)

-- The request carries both marks, so the gate does not allow it.
unread-refused :
    (w : Run) (k : Call) (l : RiskLimits)
    → IsAllowed l w.start.world (request_of w k)
    → IsPnlUnread w.start ⊎ (IsValueUnread w.start × (upper k.contract.sec_type ≢ "CASH"))
    → ⊥
unfolding request_of
unread-refused w k l allowed (inl pnl) = absurd (cc (allowed.loss.0, pnl_blind w.start pnl))
unread-refused w k l allowed (inr (value, no_cash)) =
    absurd (cc ((allowed.concentration no_cash).0, value_blind w.start value))

-- While the day's profit and loss cannot be read, or the account's value cannot be read or is no number and the
-- order is no currency conversion, no order is submitted that is not an exit.
pub place_order-blind :
    (w : Run) (k : Call) (a : ApprovedOrder)
    → is_exit w k ≡ false
    → IsPnlUnread w.start ⊎ (IsValueUnread w.start × (upper k.contract.sec_type ≢ "CASH"))
    → (place_order w k).0 ≢ submitted a
place_order-blind w k a opens blind h =
    let by = place_order-IsAuthorised w k a h in
    elim by.cleared_by [
      | inl (claimed, exit) ↦ absurd (cc (opens, exit))
      | inr (claimed, gated) ↦ unread-refused w k gated.gate.limits gated.allowed blind
    ]
