-- ===== src/Placement/Sink.antt =====
-- The capability token of trader/trading/approved_order.py, and the sink that spends it:
-- `subscribe_place_order_direct` of trader/trading/executioner.py.
use openwallstreet.Prelude.{
  ℕ, Bool, false, not, ◌&&◌, ◌||◌, Option, none, some, ◌==◌, string_eq, List, [], ◌∷◌, non_empty,
  if◌then◌else◌,
}
use openwallstreet.Orders.Structure as Structure
use openwallstreet.Orders.Structure.{Rejection, rejection_for_order}
use openwallstreet.Risk.Events.{TradingEvent, order_submitted, risk_gate_rejected}
use openwallstreet.Risk.Checks.{Checks, clean}
use openwallstreet.Placement.Account.{Contract, Order, Trader}
use openwallstreet.Placement.Exposure.{order_reduces_exposure}
use openwallstreet.Placement.Tier.{TierError}
use openwallstreet.Placement.Audit.{log_event}

pub data ExitReason : Type 0 where
  position_classified protective_child validated_standalone : ExitReason

-- `ApprovedOrder`, as `mint_approved_order` makes it.
pub record ApprovedOrder : Type 0 where
  pub contract : Contract
  pub order : Order
  pub is_exit : Bool
  pub checks : Checks
  pub exit_reason : Option ExitReason

-- Why an order was not submitted.
pub data Refusal : Type 0 where
  execution_locked unauthorised no_account blank_account wrong_account broker_error : Refusal
  malformed : Rejection → Refusal
  gate_unavailable filter_rejected gate_rejected gate_raised snapshot_raised sanity_failed : Refusal
  tier_rejected : TierError → Refusal

pub data Placement : Type 0 where
  submitted : ApprovedOrder → Placement
  refused : Refusal → Placement

-- A result with the events that were appended, the newest first.
abbrev pub Placed : Type 0
Placed = Placement × List TradingEvent

-- What `rejection_for_order` reads of an order.
unfoldable pub shape_of : Order → Structure.Order
shape_of o = record {
  action = o.action;
  total_quantity = some o.total_quantity;
  order_type = o.order_type;
  lmt_price = some o.lmt_price;
  aux_price = some o.aux_price;
}

-- The re-read of an exit that was classified by position; it never refuses.
unfoldable pub stale_exit : ℕ → Trader → ApprovedOrder → List TradingEvent
stale_exit now t a = if not a.is_exit then [] else elim a.exit_reason [
  | some position_classified ↦
      if order_reduces_exposure t a.contract a.order.action a.order.total_quantity
      then []
      else log_event now t risk_gate_rejected a.contract a.order false ∷ []
  | _ ↦ []
]

-- An opening order must carry a record of checks with none that failed or was unreadable.
unfoldable pub is_authorised : ApprovedOrder → Bool
is_authorised a = a.is_exit || (non_empty a.checks && clean a.checks)

unfoldable pub account_refusal : Trader → Order → Option Refusal
account_refusal t o =
    if t.ib_account == ""
    then some no_account
    else if o.account == ""
    then some blank_account
    else if not (o.account == t.ib_account)
    then some wrong_account
    else none

-- The submission, which the broker accepts or not.
unfoldable pub submit : ℕ → Trader → Bool → ApprovedOrder → List TradingEvent → Placed
submit now t accepts a events =
    if not accepts
    then (refused broker_error, events)
    else (submitted a, log_event now t order_submitted a.contract a.order a.is_exit ∷ events)

-- From the re-read on.
unfoldable pub spend : ℕ → Trader → Bool → ApprovedOrder → Placed
unfolding stale_exit is_authorised account_refusal submit
spend now t accepts a =
    if not (is_authorised a)
    then (refused unauthorised, stale_exit now t a)
    else elim (account_refusal t a.order) [
      | some r ↦ (refused r, stale_exit now t a)
      | none ↦ submit now t accepts a (stale_exit now t a)
    ]

-- `subscribe_place_order_direct`
unfoldable pub subscribe_place_order_direct : ℕ → Trader → Bool → ApprovedOrder → Placed
unfolding spend shape_of
subscribe_place_order_direct now t accepts a =
    if not t.execution_enabled
    then (refused execution_locked, [])
    else elim (rejection_for_order (shape_of a.order)) [
      | some r ↦ (refused (malformed r), [])
      | none ↦ spend now t accepts a
    ]
