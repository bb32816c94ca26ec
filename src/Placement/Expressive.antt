-- ===== src/Placement/Expressive.antt =====
-- `place_expressive_order` and `_place_flip_split` of trader/trading/trading_runtime.py: the gates before the
-- legs. Other tasks run while it waits for the broker, so it reads the trader at several moments.
pub mod Reduction
pub mod Contracts
pub mod Gated
pub mod Cleared
use openwallstreet.Prelude.{
  Bool, true, false, not, ◌&&◌, Option, none, some, String, ◌==◌, string_eq, List, [], ◌∷◌, upper,
  if◌then◌else◌,
}
use openwallstreet.Float
use openwallstreet.Float.{Float, zero_float}
use openwallstreet.Orders.Structure.{Rejection, rejection_for_order}
use openwallstreet.Orders.Split.{SplitPlan, is_flip}
use openwallstreet.Risk.Checks.{Checks, RiskGateResult, CheckOutcome, skipped, insert_check}
use openwallstreet.Risk.Gate.{Request, evaluate, check_instrument}
use openwallstreet.Risk.Leverage.{MarginImpact, check_leverage}
use openwallstreet.Broker.Lifecycle.{Decisive}
use openwallstreet.Proposal.Execution.{ExecutionSpec, SpecError, validate}
use openwallstreet.Placement.Account.{Contract, AccountValue, Trader, RiskGate, Ticker}
use openwallstreet.Placement.Exposure.{order_reduces_exposure, split_for_order}
use openwallstreet.Placement.Tier.{TierError, multiplier_of, snapshot_price, enforce_approver_tier}
use openwallstreet.Placement.Inputs.{active_account, is_net_liquidation, gather_risk_inputs}
use openwallstreet.Placement.Direct.{is_given}
use openwallstreet.Placement.Executioner.{or_zero, is_some}
use openwallstreet.Placement.Sink.{shape_of}
use openwallstreet.Placement.Legs.{
  LegClasses, Expressive, build_entry, LegRun, Act, Outcome, all_placed, place_legs,
}

-- What a placement meets: the trader at the start, the margin that the broker computes (none where that raises
-- or is empty), the trader after it, the snapshot that values a market order, the trader at the gate, the one
-- at the approver's tier with its snapshot, then the runs of the legs and the verdict on the entry.
pub record Meeting : Type 0 where
  pub start : Trader
  pub margin : Option MarginImpact
  pub after_margin : Trader
  pub snapshot : Option Ticker
  pub at_gate : Trader
  pub at_tier : Trader
  pub tier_snapshot : Option Ticker
  pub entry_run : LegRun
  pub child_runs : List LegRun
  pub verdict : Option Decisive

-- Why an order has no legs. A gate that raises fails the call as an exception.
pub data Stopped : Type 0 where
  invalid_spec : List SpecError → Stopped
  malformed_entry : Rejection → Stopped
  no_gate filtered no_margin over_leverage gate_refused raised : Stopped
  tier_refused : TierError → Stopped

pub data Vetted : Type 0 where
  vetted : Checks → Vetted
  stop : Stopped → Vetted

-- The account's NetLiquidation; none where its value cannot be read as a number.
unfoldable pub net_liq : String → List AccountValue → Option Float
net_liq account [] = some zero_float
net_liq account (v ∷ rest) =
    let later = net_liq account rest in if is_net_liquidation account v then v.value else later

abbrev pub read_net_liq : Trader → Option Float
read_net_liq t = elim t.account_values [ none ↦ none | some vs ↦ net_liq (active_account t) vs ]

unfoldable pub verdict_of : Option RiskGateResult → Stopped → Vetted
verdict_of none refusal = stop raised
verdict_of (some r) refusal = if r.approved then vetted r.checks else stop refusal

-- The margin and leverage checks; forex skips them, on the record. A margin that was read is not empty, so the
-- last branch of the source is never taken.
unfoldable pub vet_leverage : Meeting → Expressive → RiskGate → Vetted
unfolding verdict_of net_liq
vet_leverage m x g =
    if upper x.contract.sec_type == "CASH"
    then vetted (("leverage", skipped "forex-cash") ∷ ("margin_cushion", skipped "forex-cash") ∷ [])
    else elim m.margin [
      | none ↦ stop no_margin
      | some impact ↦ elim (read_net_liq m.after_margin) [
        | none ↦ stop raised
        | some net ↦ verdict_of (check_leverage g.limits impact net) over_leverage
      ]
    ]

-- The value of the order: by its limit, or else by the snapshot.
unfoldable pub position_value : Meeting → Expressive → Option Float
position_value m x =
    let multiplier = multiplier_of x.contract.multiplier in
    if not (x.spec.order_type == "MARKET") && is_given x.spec.limit_price
    then elim x.spec.limit_price [
      | none ↦ none
      | some limit ↦ some (Float.mul (Float.abs (Float.mul x.quantity limit)) multiplier)
    ]
    else elim (snapshot_price x.action m.snapshot) [
      | none ↦ none
      | some price ↦ some (Float.mul (Float.mul (Float.abs x.quantity) price) multiplier)
    ]

-- What the gate evaluates; the order's quantity is not passed on, so it is the default.
unfoldable pub request_of : Meeting → Expressive → Request
unfolding position_value
request_of m x =
    let inputs = gather_risk_inputs m.after_margin in
    record {
      source_name = x.algo_name;
      open_order_count = inputs.open_order_count;
      daily_pnl = inputs.daily_pnl;
      portfolio_value = inputs.portfolio_value;
      position_value = or_zero (position_value m x);
      daily_pnl_evaluable = inputs.daily_pnl_evaluable;
      portfolio_value_evaluable = inputs.portfolio_value_evaluable;
      position_value_evaluable = is_some (position_value m x);
      sec_type = x.contract.sec_type;
      order_quantity = zero_float;
    }

-- `{**checks, **more}`
unfoldable pub merge_checks : Checks → Checks → Checks
merge_checks checks [] = checks
merge_checks checks ((name, outcome) ∷ more) = merge_checks (insert_check name outcome checks) more

unfoldable pub tier_error : Meeting → Expressive → Option TierError
tier_error m x =
    enforce_approver_tier m.at_tier x.contract x.action x.quantity x.spec.order_type
      x.spec.limit_price x.approver_key x.force_open m.tier_snapshot

unfoldable pub vet_tier : Meeting → Expressive → Checks → Vetted
unfolding tier_error
vet_tier m x checks = elim (tier_error m x) [
  | none ↦ vetted checks
  | some e ↦ stop (tier_refused e)
]

unfoldable pub vet_gate : Meeting → Expressive → RiskGate → Checks → Vetted
unfolding request_of vet_tier merge_checks
vet_gate m x g leverage_checks =
    elim (verdict_of (evaluate g.limits m.at_gate.world (request_of m x)) gate_refused) [
      | stop s ↦ stop s
      | vetted checks ↦ vet_tier m x (merge_checks checks leverage_checks)
    ]

-- The gates of an opening order.
unfoldable pub vet_open : Meeting → Expressive → Vetted
unfolding vet_leverage vet_gate
vet_open m x = elim m.start.risk_gate [
  | none ↦ stop no_gate
  | some g ↦
      if not (
        check_instrument g.trading_filter x.contract.symbol x.contract.exchange x.contract.sec_type)
      then stop filtered
      else elim (vet_leverage m x g) [ stop s ↦ stop s | vetted c ↦ vet_gate m x g c ]
]

unfoldable pub is_exit : Meeting → Expressive → Bool
is_exit m x = not x.force_open && order_reduces_exposure m.start x.contract x.action x.quantity

-- The answers of a placement: a refusal before any leg, or the legs.
pub data Expressed : Type 0 where
  unplaced : Stopped → Expressed
  legged : Outcome × List Act → Expressed

abbrev pub is_success : Expressed → Bool
is_success (legged (all_placed ids, acts)) = true
is_success _ = false

-- The checks of the arguments, before the broker is asked anything.
unfoldable pub precheck : LegClasses → Meeting → Expressive → Option Stopped
precheck ib m x = elim (validate x.spec) [
  | e ∷ errors ↦ some (invalid_spec (e ∷ errors))
  | [] ↦ elim (rejection_for_order (shape_of (build_entry ib m.start.ib_account x))) [
    | none ↦ none
    | some r ↦ some (malformed_entry r)
  ]
]

-- An order that does not cross zero, after the checks of its arguments.
unfoldable pub place_whole : LegClasses → Meeting → Expressive → Expressed
unfolding is_exit vet_open
place_whole ib m x = elim (if is_exit m x then vetted [] else vet_open m x) [
  | stop s ↦ unplaced s
  | vetted checks ↦ legged (place_legs ib x (is_exit m x) checks m.entry_run m.child_runs m.verdict)
]

-- The answers to an order: one placement, or the halves of one that crosses zero.
pub data Answer : Type 0 where
  whole reduction_failed : Expressed → Answer
  halves : Expressed → Expressed → Answer

-- `place_expressive_order` where the order is not split: a half, or an order that does not cross zero.
unfoldable pub place_unsplit : LegClasses → Meeting → Expressive → Expressed
unfolding precheck place_whole
place_unsplit ib m x = elim (precheck ib m x) [ some s ↦ unplaced s | none ↦ place_whole ib m x ]

-- The reducing half is a plain order.
abbrev pub reduction : Expressive → SplitPlan → Expressive
reduction x plan = record x {
  quantity = plan.reduce_qty;
  spec = record x.spec { exit_type = "NONE" };
  force_open = false;
}

abbrev pub remainder : Expressive → SplitPlan → Expressive
remainder x plan = record x { quantity = plan.open_qty; force_open = true }

-- `_place_flip_split`; the reduction is called at the moment of the split, of a size that does not cross zero.
unfoldable pub place_flip_split : LegClasses → Meeting → Meeting → Expressive → SplitPlan → Answer
unfolding place_unsplit
place_flip_split ib m₁ m₂ x plan =
    let reduced = place_unsplit ib m₁ (reduction x plan) in
    if not (is_success reduced)
    then reduction_failed reduced
    else halves reduced (place_unsplit ib m₂ (remainder x plan))

-- `place_expressive_order`, with what its one or two placements meet.
unfoldable pub place_expressive_order : LegClasses → Meeting → Meeting → Expressive → Answer
unfolding place_flip_split
place_expressive_order ib m₁ m₂ x = elim (precheck ib m₁ x) [
  | some s ↦ whole (unplaced s)
  | none ↦
      let plan = split_for_order m₁.start x.contract x.action x.quantity in
      if not x.force_open && is_flip plan
      then place_flip_split ib m₁ m₂ x plan
      else whole (place_whole ib m₁ x)
]
