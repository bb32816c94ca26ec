-- ===== src/Tests/Direct.antt =====
-- Runs at concrete inputs: a direct order that crosses zero.
use openwallstreet.Prelude.{
  ℕ, ◌*◌, ◌^◌, ◌≡◌, refl, ap, ◌∙◌, true, false, Option, none, some, string_eq, [], ◌∷◌, pos, upper,
  strip, insert,
}
use openwallstreet.Float
use openwallstreet.Float.{Float, fin, literal, zero_float}
use openwallstreet.Orders.ExitClass.{reduces_exposure, reduces_position}
use openwallstreet.Orders.Quantity.{finite_positive}
use openwallstreet.Orders.Split.{
  SplitPlan, is_flip, split_order, as_finite, split_sane, split_flip, step_down,
}
use openwallstreet.Orders.Split.Walk.{step_down-fits}
use openwallstreet.Placement.Account.{Order, Trader}
use openwallstreet.Placement.Exposure.{
  split_for_order, held_position, signed_position, sum_positions, order_reduces_exposure,
}
use openwallstreet.Orders.Structure.{
  rejection_for_order, structural_rejection, normalize, sanity_check_order,
}
use openwallstreet.Risk.Checks.{Checks, pass, clean}
use openwallstreet.Risk.Events.{query_since}
use openwallstreet.Risk.Turnover.{check_daily_turnover}
use openwallstreet.Risk.Gate.{
  check_instrument, evaluate, stages, check_order_notional, check_option, check_open_orders,
  check_daily_loss, check_concentration, check_ratio, check_order_rate, recent_opens,
  check_turnover,
}
use openwallstreet.Broker.Book.{get_open_order_count, count_open}
use openwallstreet.Placement.Inputs.{gather_risk_inputs, daily_pnl_of, sum_pnl, net_liquidation}
use openwallstreet.Placement.Audit.{source_of}
use openwallstreet.Placement.Tier.{enforce_approver_tier, multiplier_of}
use openwallstreet.Placement.Sink.{
  ApprovedOrder, Placed, submitted, shape_of, is_authorised, account_refusal, submit, spend,
  subscribe_place_order_direct,
}
use openwallstreet.Placement.Executioner.{
  cleared, clear_open, evaluate_open, request_of, position_value, Call, Run, is_exit, clear,
  sanity_refusal, tier_error, mint, place_cleared, place_order,
}
use openwallstreet.Placement.Executioner.Authorised.{IsGated}
use openwallstreet.Placement.Direct.Halves.{place_order_simple-IsGated}
use openwallstreet.Placement.Direct.{
  SimpleClasses, Simple, sell, is_invalid, order_quantity, order_price, build_simple,
  helper_create_order, value_hint, call_of, is_raised, both, place_open, place_flip,
  place_order_simple,
}
use openwallstreet.Tests.Placement.{amd, market_order, trader, tick, run}

-- Long ten shares in a funded account, without an approver's tier.
abbrev crossing : Trader
crossing = record trader {
  approver_required_above_usd = zero_float;
  book = record { orders = []; trades = [] };
  account_values = some (
      record {
        tag = "NetLiquidation";
        currency = "USD";
        account = "DU1";
        value = some (literal 20000 1);
      }
      ∷ []);
}

abbrev classes : SimpleClasses
classes = record {
  market_order = λ a q ref acc. record market_order {
    action = a;
    total_quantity = q;
    order_ref = ref;
    account = acc;
  };
  limit_order = λ a q p ref acc. record market_order {
    action = a;
    total_quantity = q;
    order_type = "LMT";
    lmt_price = p;
    order_ref = ref;
    account = acc;
  };
}

abbrev selling : Simple
selling = record {
  contract = amd;
  action = sell;
  equity_amount = none;
  quantity = some (literal 12 1);
  limit_price = none;
  market_order = true;
  stop_loss_percentage = zero_float;
  algo_name = "momentum";
  debug = false;
  approver_key = "";
  allow_open = true;
}

abbrev moment : Run
moment = record run { start = crossing; at_tier = crossing; at_sink = crossing }

abbrev order_of : Float → Order
order_of q = record market_order { total_quantity = q }

abbrev plan : SplitPlan
plan = record { reduce_qty = literal 10 1; open_qty = literal 2 1 }

abbrev two_units : ℕ
two_units = 2 * 2 ^ 1074

fits : Float.lt (literal 12 1) (Float.add (literal 10 1) (literal 2 1)) ≡ false
unfolding Float.add Float.round Float.magnitude Float.is_pos Float.of_ratio Float.lt literal
    Float.nearest Float.round_div Float.quantum Float.overflow Float.unit
fits = refl

two : literal 2 1 ≡ fin (pos two_units)
unfolding literal Float.of_ratio Float.nearest Float.round_div Float.quantum Float.overflow
    Float.unit
two = refl

steps : step_down (literal 10 1) (literal 12 1) (literal 2 1) ≡ literal 2 1
steps = rw two (step_down-fits (literal 10 1) (literal 12 1) two_units (rw⁻¹ two fits))

flips : split_for_order crossing amd "SELL" (literal 12 1) ≡ record {
  reduce_qty = literal 10 1;
  open_qty = step_down (literal 10 1) (literal 12 1) (literal 2 1);
}
unfolding split_for_order held_position signed_position sum_positions split_order as_finite
    split_sane split_flip reduces_exposure reduces_position upper strip Float.sub Float.neg
    Float.abs Float.eq Float.le Float.lt Float.add Float.round Float.magnitude Float.is_pos
    Float.of_ratio Float.is_finite zero_float literal Float.nearest Float.round_div Float.quantum
    Float.overflow Float.unit
flips = refl

split : split_for_order crossing amd "SELL" (literal 12 1) ≡ plan
split = flips ∙ ap (λ (x : Float). record { reduce_qty = literal 10 1; open_qty = x }) steps

made_whole :
    helper_create_order classes "DU1" selling none (some (literal 12 1)) tick
    ≡ some (order_of (literal 12 1))
unfolding helper_create_order is_invalid order_quantity order_price build_simple Float.sub Float.neg
    Float.abs Float.eq Float.le Float.lt Float.add Float.mul Float.div Float.round Float.magnitude
    Float.is_pos Float.of_ratio Float.is_finite zero_float literal Float.nearest Float.round_div
    Float.quantum Float.overflow Float.unit
made_whole = refl

made_reduction :
    helper_create_order classes "DU1" selling none (some (literal 10 1)) tick
    ≡ some (order_of (literal 10 1))
unfolding helper_create_order is_invalid order_quantity order_price build_simple Float.sub Float.neg
    Float.abs Float.eq Float.le Float.lt Float.add Float.mul Float.div Float.round Float.magnitude
    Float.is_pos Float.of_ratio Float.is_finite zero_float literal Float.nearest Float.round_div
    Float.quantum Float.overflow Float.unit
made_reduction = refl

made_opening :
    helper_create_order classes "DU1" selling none (some (literal 2 1)) tick
    ≡ some (order_of (literal 2 1))
unfolding helper_create_order is_invalid order_quantity order_price build_simple Float.sub Float.neg
    Float.abs Float.eq Float.le Float.lt Float.add Float.mul Float.div Float.round Float.magnitude
    Float.is_pos Float.of_ratio Float.is_finite zero_float literal Float.nearest Float.round_div
    Float.quantum Float.overflow Float.unit
made_opening = refl

abbrev hint : Option Float
hint = value_hint selling tick (order_of (literal 12 1))

abbrev reduction : Placed
reduction = place_order moment (call_of selling hint false (order_of (literal 10 1)))

abbrev granted : Checks
granted =
    ("max_open_orders", pass)
    ∷ ("daily_loss", pass)
    ∷ ("concentration", pass)
    ∷ ("order_rate", pass)
    ∷ []

abbrev opening : Placed
opening = place_order moment (call_of selling hint true (order_of (literal 2 1)))

plan_flips : is_flip plan ≡ true
unfolding is_flip Float.sub Float.neg Float.abs Float.eq Float.le Float.lt Float.add Float.mul
    Float.div Float.round Float.magnitude Float.is_pos Float.of_ratio Float.is_finite zero_float
    literal Float.nearest Float.round_div Float.quantum Float.overflow Float.unit
plan_flips = refl

reduction_done : is_raised reduction ≡ false
unfolding place_order clear is_exit order_reduces_exposure held_position signed_position
    sum_positions reduces_exposure reduces_position upper strip sanity_refusal sanity_check_order
    rejection_for_order shape_of structural_rejection normalize finite_positive place_cleared
    tier_error enforce_approver_tier mint subscribe_place_order_direct spend is_authorised
    account_refusal submit Float.sub Float.neg Float.abs Float.eq Float.le Float.lt Float.add
    Float.mul Float.div Float.round Float.magnitude Float.is_pos Float.of_ratio Float.is_finite
    zero_float literal Float.nearest Float.round_div Float.quantum Float.overflow Float.unit
reduction_done = refl

placed : place_order_simple classes crossing moment moment selling tick ≡ both reduction opening
unfolding place_order_simple place_flip place_open
placed =
    rw
      (
        place_order_simple, made_whole, split, plan_flips, place_flip, made_reduction, place_open,
        reduction_done, split, made_opening,
      )
      refl

passed : clear moment (call_of selling hint true (order_of (literal 2 1))) ≡ cleared granted
unfolding clear clear_open evaluate_open is_exit request_of position_value value_hint multiplier_of
    finite_positive gather_risk_inputs daily_pnl_of sum_pnl net_liquidation check_instrument
    evaluate stages check_order_notional check_option check_open_orders check_daily_loss
    check_concentration check_ratio check_order_rate recent_opens query_since check_turnover
    get_open_order_count count_open source_of insert upper strip Float.sub Float.neg Float.abs
    Float.eq Float.le Float.lt Float.add Float.mul Float.div Float.round Float.magnitude
    Float.is_pos Float.of_ratio Float.is_finite zero_float literal Float.nearest Float.round_div
    Float.quantum Float.overflow Float.unit check_daily_turnover
passed = refl

abbrev token : ApprovedOrder
token = mint moment (call_of selling hint true (order_of (literal 2 1))) granted

sent :
    (place_cleared moment (call_of selling hint true (order_of (literal 2 1))) granted).0
    ≡ submitted token
unfolding place_cleared tier_error enforce_approver_tier mint is_exit subscribe_place_order_direct
    spend is_authorised account_refusal submit rejection_for_order shape_of structural_rejection
    normalize finite_positive upper strip Float.sub Float.neg Float.abs Float.eq Float.le Float.lt
    Float.add Float.mul Float.div Float.round Float.magnitude Float.is_pos Float.of_ratio
    Float.is_finite zero_float literal Float.nearest Float.round_div Float.quantum Float.overflow
    Float.unit clean
sent = refl

sane : sanity_refusal moment (call_of selling hint true (order_of (literal 2 1))) ≡ none
unfolding sanity_refusal sanity_check_order rejection_for_order shape_of structural_rejection
    normalize finite_positive upper strip Float.sub Float.neg Float.abs Float.eq Float.le Float.lt
    Float.add Float.mul Float.div Float.round Float.magnitude Float.is_pos Float.of_ratio
    Float.is_finite zero_float literal Float.nearest Float.round_div Float.quantum Float.overflow
    Float.unit
sane = refl

opened : opening.0 ≡ submitted token
unfolding place_order
opened = rw (place_order, passed, sane) sent

-- Ten of twelve shares are sold as an exit, and two are opened through the gates.
place_order_simple-IsGated_example :
    (k : Call) × (opening ≡ place_order moment k)
    × IsGated moment k token.checks
    × (token.is_exit ≡ false)
    × (selling.allow_open ≡ true)
place_order_simple-IsGated_example =
    place_order_simple-IsGated classes crossing selling tick moment moment reduction opening token
      placed opened
