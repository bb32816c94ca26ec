-- ===== src/Tests/Placement.antt =====
-- Runs at concrete inputs: the placement of orders.
use openwallstreet.Prelude.{
  ◌≡◌, ◌≢◌, ◌↔◌, ◌⊎◌, suc, refl, inl, true, false, not, ◌&&◌, none, some, arith, ◌==◌, string_eq,
  [], ◌∷◌, pos, upper, strip, if◌then◌else◌,
}
use openwallstreet.Float
use openwallstreet.Float.{Float, literal, zero_float}
use openwallstreet.Broker.Book.{new_book}
use openwallstreet.Orders.Quantity.{unset_sentinel, finite_positive}
use openwallstreet.Orders.Structure.{rejection_for_order, structural_rejection, normalize}
use openwallstreet.Risk.Events.{order_submitted}
use openwallstreet.Risk.Checks.{RiskLimits}
use openwallstreet.Risk.Gate.{World, recent_opens}
use openwallstreet.Risk.Turnover.{daily_open_notional}
use openwallstreet.Placement.Account.{Contract, unset, Order, Ticker, Trader}
use openwallstreet.Placement.Exposure.{
  order_reduces_exposure, held_position, signed_position, sum_positions,
}
use openwallstreet.Orders.ExitClass.{reduces_exposure, reduces_position}
use openwallstreet.Placement.Tier.{tier_notional, enforce_approver_tier, not_valued}
use openwallstreet.Placement.Tier.Key.{
  Covered, enforce_approver_tier_iff, enforce_approver_tier_unset,
}
use openwallstreet.Placement.Audit.{log_event, source_of}
use openwallstreet.Placement.Audit.Trace.{after, recent_opens-log_event}
use openwallstreet.Placement.Sink.{ApprovedOrder, submitted, shape_of}
use openwallstreet.Placement.Standalone.{OrderClasses, Standalone, success, place_standalone_order}
use openwallstreet.Placement.Standalone.Covered.{
  IsOrderly, IsAdmissible, Keeps, place_standalone_order_iff,
}
use openwallstreet.Placement.Executioner.{is_exit, Call, Run, mint, place_order}
use openwallstreet.Placement.Executioner.Authorised.{IsAuthorised, place_order-IsAuthorised}
use openwallstreet.Placement.Executioner.Blind.{place_order-blind}
use openwallstreet.Placement.Executioner.Exits.{IsWorkable, place_order_exit}

abbrev pub amd : Contract
amd = record {
  con_id = 4391;
  symbol = "AMD";
  exchange = "SMART";
  sec_type = "STK";
  multiplier = unset;
}

abbrev pub market_order : Order
market_order = record {
  order_id = 7;
  client_id = 1;
  action = "SELL";
  total_quantity = literal 10 1;
  order_type = "MKT";
  lmt_price = unset_sentinel;
  aux_price = unset_sentinel;
  order_ref = "momentum";
  account = "DU1";
}

abbrev pub limits : RiskLimits
limits = record {
  max_position_size_pct = literal 1 10;
  max_daily_loss = literal 1000 1;
  max_open_orders = pos 15;
  max_signals_per_hour = pos 20;
  max_leverage = literal 1 1;
  min_margin_cushion = literal 1 10;
  max_order_notional = zero_float;
  max_option_contracts_per_order = pos 0;
  max_estimated_option_debit = zero_float;
  max_daily_open_notional = zero_float;
  max_daily_open_notional_per_strategy = zero_float;
}

abbrev quiet : World
quiet = record { one_hour_ago = 4000; start_of_day = 1000; events = [] }

-- Long ten shares, with the approver's tier on.
abbrev pub trader : Trader
trader = record {
  execution_enabled = true;
  ib_account = "DU1";
  client_id = 1;
  approver_required_above_usd = literal 5000 1;
  approver_key = "secret";
  risk_gate = some (record { limits = limits; trading_filter = none });
  world = quiet;
  fills_readable = true;
  book = new_book;
  positions = some (record { con_id = 4391; symbol = "AMD"; quantity = literal 10 1 } ∷ []);
  pnl = some (literal 12 1 ∷ []);
  account_values = none;
  managed_accounts = "DU1" ∷ [];
  tickers = [];
}

abbrev pub tick : Ticker
tick = record {
  con_id = 4391;
  last = some (literal 100 1);
  close = some (literal 99 1);
  ask = some (literal 101 1);
  bid = some (literal 100 1);
}

enforce_approver_tier_iff_example :
    (enforce_approver_tier trader amd "BUY"
        (literal 10 1)
        "LIMIT"
        (some (literal 105 1))
        ""
        false
        (some tick)
      ≡ none)
    ↔ ((Float.le trader.approver_required_above_usd zero_float ≡ true)
        ⊎ ((false ≡ false) × (order_reduces_exposure trader amd "BUY" (literal 10 1) ≡ true))
        ⊎ Covered trader.approver_required_above_usd "" trader.approver_key
            (tier_notional amd "BUY" (literal 10 1) "LIMIT" (some (literal 105 1)) (some tick)))
enforce_approver_tier_iff_example =
    enforce_approver_tier_iff trader amd "BUY" (literal 10 1) "LIMIT" (some (literal 105 1)) ""
      false (some tick)

tier_on : Float.le trader.approver_required_above_usd zero_float ≡ false
unfolding Float.le zero_float literal Float.nearest Float.round_div Float.quantum Float.overflow
    Float.unit
tier_on = refl

buy_opens : (not true && order_reduces_exposure trader amd "BUY" (literal 10 1)) ≡ false
buy_opens = refl

not_spelled_market : upper (strip "MKT") ≢ "MARKET"
unfolding upper strip
not_spelled_market e = absurd (cc e)

enforce_approver_tier_unset_example :
    enforce_approver_tier trader amd "BUY"
      (literal 10 1)
      "MKT"
      (some unset_sentinel)
      "secret"
      true
      (some tick)
    ≡ some not_valued
enforce_approver_tier_unset_example =
    enforce_approver_tier_unset trader amd "BUY" (literal 10 1) "MKT" "secret" true (some tick)
      tier_on buy_opens not_spelled_market

recent_opens-log_event_example :
    (recent_opens
        (after (log_event 5000 trader order_submitted amd market_order false) quiet)
        "momentum"
      ≡ (if not false && (source_of market_order == "momentum")
          then suc (recent_opens quiet "momentum")
          else recent_opens quiet "momentum"))
    × (daily_open_notional 1000 (log_event 5000 trader order_submitted amd market_order true ∷ [])
        ≡ daily_open_notional 1000 [])
recent_opens-log_event_example =
    recent_opens-log_event 5000 trader amd market_order quiet false "momentum" (ground arith)

abbrev call : Call
call = record {
  contract = amd;
  order = market_order;
  sanity_check = true;
  position_value_hint = none;
  approver_key = "";
  force_open = false;
}

abbrev pub run : Run
run = record {
  now = 5000;
  start = trader;
  at_tier = trader;
  at_sink = trader;
  snapshot_arrives = true;
  snapshot = none;
  accepts = true;
}

sell_exits : order_reduces_exposure trader amd "SELL" (literal 10 1) ≡ true
unfolding order_reduces_exposure held_position signed_position sum_positions reduces_exposure
    reduces_position upper strip Float.eq Float.le Float.lt Float.add Float.round Float.magnitude
    Float.is_pos Float.of_ratio Float.is_finite zero_float literal Float.nearest Float.round_div
    Float.quantum Float.overflow Float.unit
sell_exits = refl

market_order_sane : rejection_for_order (shape_of market_order) ≡ none
unfolding rejection_for_order shape_of structural_rejection normalize upper strip finite_positive
    Float.is_finite Float.lt zero_float literal Float.nearest Float.round_div Float.quantum
    Float.overflow Float.unit
market_order_sane = refl

call-IsWorkable : IsWorkable run call
call-IsWorkable = record {
  unforced = refl;
  exit = sell_exits;
  still_exit = sell_exits;
  sane = market_order_sane;
  snapshot = refl;
  enabled = refl;
  pinned = (λ e. absurd (cc e), refl);
  accepted = refl;
}

place_order_exit_example : (place_order run call).0 ≡ submitted (mint run call [])
place_order_exit_example = place_order_exit run call call-IsWorkable

place_order-IsAuthorised_example : IsAuthorised run call (mint run call [])
place_order-IsAuthorised_example =
    place_order-IsAuthorised run call (mint run call []) (place_order_exit run call call-IsWorkable)

-- The order classes of ib_async, as dataclasses that keep their arguments.
abbrev classes : OrderClasses
classes = record {
  stop_order = λ a q p acc. record market_order {
    action = a;
    total_quantity = q;
    order_type = "STP";
    aux_price = p;
    account = acc;
  };
  trail_order = λ a q acc. record market_order {
    action = a;
    total_quantity = q;
    order_type = "TRAIL";
    account = acc;
  };
  limit_order = λ a q p acc. record market_order {
    action = a;
    total_quantity = q;
    order_type = "LMT";
    lmt_price = p;
    account = acc;
  };
}

classes-IsOrderly : IsOrderly classes
classes-IsOrderly = record {
  stop = λ a q p acc. (refl, refl, refl);
  trail = λ a q acc. (refl, refl, refl);
  limit = λ a q p acc. (refl, refl, refl);
}

abbrev protection : Standalone
protection = record {
  contract = amd;
  action = "SELL";
  quantity = literal 10 1;
  order_type = "STP";
  aux_price = literal 95 1;
  limit_price = zero_float;
  trailing_percent = zero_float;
  order_ref = "momentum";
}

place_standalone_order_iff_example :
    (((a : ApprovedOrder) × ((place_standalone_order classes 5000 trader true protection).0
          ≡ success a))
      ↔ IsAdmissible classes trader true protection)
    × ((a : ApprovedOrder)
        → (place_standalone_order classes 5000 trader true protection).0 ≡ success a
        → Keeps a.order "SELL" (literal 10 1) "DU1")
place_standalone_order_iff_example =
    place_standalone_order_iff classes classes-IsOrderly protection 5000 trader true

-- The profits and losses cannot be read.
abbrev blind : Run
blind = record run { start = record trader { pnl = none } }

abbrev forced : Call
forced = record call { force_open = true }

forced_opens : is_exit blind forced ≡ false
unfolding is_exit
forced_opens = refl

place_order-blind_example : (place_order blind forced).0 ≢ submitted (mint run call [])
place_order-blind_example =
    place_order-blind blind forced (mint run call []) forced_opens (inl (inl refl))
