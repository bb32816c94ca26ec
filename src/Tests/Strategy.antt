-- ===== src/Tests/Strategy.antt =====
-- Runs at concrete inputs: the execution of signals.
use openwallstreet.Prelude.{
  ◌≡◌, ◌↔◌, refl, true, false, none, some, string_eq, nat_eq, [], ◌∷◌, map, pos,
}
use openwallstreet.Float
use openwallstreet.Float.{Float, literal, zero_float}
use openwallstreet.Data.Ledger.{Key, key_eq}
use openwallstreet.Orders.Quantity.{reducible_quantity, finite_positive}
use openwallstreet.Orders.Protective
use openwallstreet.Orders.Protective.{
  ProtectiveStop, protective_stop_plan, as_float, target_price, hundredth, hundred, stop_for,
  stop_of_target, stop_of_cents, step_down_cents, step_down,
}
use openwallstreet.Placement.Direct.{buy, sell}
use openwallstreet.Strategy.Decision.{
  SignalWork, Directive, BarTs, Gates, while_flat, open_position, close_position, decide_signal,
}
use openwallstreet.Strategy.Decision.Rules.{
  IsOpening, IsClosing, decide_signal-opens_iff, decide_signal-closes_iff,
}
use openwallstreet.Strategy.State.{Position, held, all_open}
use openwallstreet.Strategy.State
use openwallstreet.Strategy.Sdk.{
  Definition, Ident, Holding, exact, resolve_exact, resolve_back, approved, placed, unset, number,
  Answers, protective_stop_pct, protect,
}
use openwallstreet.Strategy.Stops.{Executor, ensure_protective, holding_of, plan_for}
use openwallstreet.Strategy.Stops.Covered.{
  Protects, ensure_protective-Protects, ensure_protective-unread,
}
use openwallstreet.Strategy.Close.{execute_close}
use openwallstreet.Strategy.Close.Sold.{Closes, execute_close-Closes}
use openwallstreet.Strategy.Open.{key_of, execute_open, executed_quantity, quantity_of_orders}
use openwallstreet.Strategy.Open.Bought.{execute_open-unattributed}
use openwallstreet.Strategy.Executor.{of_signal, process_signal, new_executor, reconcile_once}
use openwallstreet.Strategy.Executor.Once.{IsOnce, live, live-IsOnce}
use openwallstreet.Strategy.Executor.Authorised.{Trades, process_signal-Trades}
use openwallstreet.Strategy.Executor.Reconciled.{settled, reconcile_once-settled}

abbrev definition : Definition
definition = record {
  symbol = "AMD";
  primary_exchange = "NASDAQ";
  exchange = "SMART";
  currency = "USD";
  sec_type = "STK";
}

abbrev ident : Ident
ident = record { symbol = "AMD"; exchange = "NASDAQ"; currency = "USD"; sec_type = "STK" }

abbrev holding : Holding
holding = record { conid = 4391; position = literal 10 1; avg_cost = literal 100 1 }

abbrev answers : Answers
answers = record {
  kill_switch_env = "";
  live_arm_env = "";
  stale_bar_env = unset;
  grace_env = unset;
  stop_env = number (literal 5 1);
  reconcile_clock = literal 1000 1;
  signal_clock = literal 1000 1;
  utc_clock = 60000000;
  gate_clock = 60000000;
  log_clock = 60000000;
  event_clock = 60000000;
  exec_clock = literal 1000 1;
  reconcile_holdings = some (holding ∷ []);
  resolver = record { defs = λ c. some (definition ∷ []); back = λ i. some (4391 ∷ []) };
  proposal_id = some 5;
  approval = some (approved (8 ∷ []));
  proposal_quantity = none;
  order_total = λ ids. some (literal 10 1);
  close_trades = some [];
  close_holdings = λ sent. some (holding ∷ []);
  stop_trades = none;
  stop_holdings = some (holding ∷ []);
  stop_resolver = record { defs = λ c. some (definition ∷ []); back = λ i. some (4391 ∷ []) };
  stop_placing = some (placed 9);
}

abbrev bar : BarTs
bar = record { wall = 0; offset = none }

abbrev signal : SignalWork
signal = record {
  strategy_name = "orb";
  conid = 4391;
  action = buy;
  bar_ts = bar;
  bar_size_seconds = literal 60 1;
  probability = literal 1 2;
  quantity = zero_float;
  trade_amount = literal 1000 1;
  auto_execute = true;
  paper_only = false;
  state_running = true;
  close_by_time = none;
  max_hold_bars = none;
  pyramid_max_adds = pos 1;
  manifest_allowed_conids = some (4391 ∷ []);
  manifest_direction = some "long";
  manifest_max_opens_per_day = some (pos 2);
  manifest_max_opens_per_hour = none;
}

abbrev key : Key
key = ("orb", 4391)

abbrev position : Position
position = record {
  key = key;
  quantity = literal 10 1;
  entry_bar_ts = 0;
  proposal_id = 4;
  close_by_time = none;
  max_hold_bars = none;
  status = held;
  close_proposal_id = none;
  protective_order_id = some 3;
  lots = some 1;
}

abbrev holder : Executor
holder = record {
  paper_trading = true;
  cooldown_seconds = literal 300 1;
  events = none;
  rows = position ∷ [];
  log = [];
  last_exec = [];
  stale_gate_warned = [];
  open_view = [];
  reconciled = false;
  first_empty_broker_read = none;
  sent = [];
}

abbrev gates : Gates
gates = record {
  kill_switch = false;
  paper_trading = true;
  held_qty = literal 10 1;
  already_executed_bar = false;
  cooldown_active = false;
  age = some (literal 60 1);
  stale_bar_multiple = literal 3 1;
  live_armed = false;
  held_lots = 1;
}

decide_signal-opens_iff_example :
    ((decide_signal signal gates).kind ≡ open_position) ↔ IsOpening signal gates
decide_signal-opens_iff_example = decide_signal-opens_iff signal gates

abbrev selling : SignalWork
selling = record signal { action = sell; auto_execute = false }

decide_signal-closes_iff_example :
    ((decide_signal selling gates).kind ≡ close_position) ↔ IsClosing selling gates
decide_signal-closes_iff_example = decide_signal-closes_iff selling gates

execute_close-Closes_example :
    Closes answers key 0 (literal 10 1) holder (execute_close answers key 0 (literal 10 1) holder).1
execute_close-Closes_example = execute_close-Closes answers key 0 (literal 10 1) holder

process_signal-Trades_example :
    Trades answers signal holder (process_signal answers signal holder).sent
process_signal-Trades_example = process_signal-Trades answers signal holder

live-IsOnce_example : IsOnce (
    live
      (((answers, of_signal signal) ∷ (answers, of_signal signal) ∷ [])
        ∷ ((answers, of_signal selling) ∷ [])
        ∷ [])
      (new_executor true (literal 300 1) none [] []))
live-IsOnce_example = live-IsOnce true (literal 300 1) none (
    ((answers, of_signal signal) ∷ (answers, of_signal signal) ∷ [])
    ∷ ((answers, of_signal selling) ∷ [])
    ∷ [])

one_open : all_open holder.rows ≡ position ∷ []
unfolding all_open
one_open = refl

reconcile_once-settled_example :
    (reconcile_once answers holder).rows ≡ map (settled (holding ∷ [])) holder.rows
reconcile_once-settled_example =
    reconcile_once-settled answers holder position [] holding [] refl one_open refl

abbrev early : Answers
early = record answers { reconcile_holdings = some [] }

-- A second reading, after 60 of 120 seconds.
abbrev minute_later : Answers
minute_later = record early { reconcile_clock = literal 1060 1 }

stops_on : Float.le (protective_stop_pct answers) zero_float ≡ false
unfolding protective_stop_pct Float.le zero_float literal Float.of_ratio Float.nearest
    Float.round_div Float.quantum Float.overflow Float.unit
stops_on = refl

found : State.open_position key holder.rows ≡ some position
unfolding State.open_position
found = refl

resolved : resolve_exact answers.stop_resolver 4391 ≡ exact ident
unfolding resolve_exact resolve_back
resolved = refl

ensure_protective-Protects_example :
    Protects answers key position holder (ensure_protective answers key holder)
ensure_protective-Protects_example = ensure_protective-Protects answers key holder position found

abbrev plan : ProtectiveStop
plan = record { quantity = literal 10 1; stop_price = literal 95 1 }

stop_planned : plan_for answers position holding ≡ some plan
unfolding plan_for protective_stop_pct protective_stop_plan as_float stop_for stop_of_target
    stop_of_cents step_down_cents Protective.step_down hundredth hundred target_price
    reducible_quantity finite_positive Float.sub Float.neg Float.add Float.min Float.mul Float.div
    Float.floor Float.of_ℤ Float.round Float.magnitude Float.is_pos Float.of_ratio Float.lt Float.le
    Float.is_finite zero_float literal Float.nearest Float.round_div Float.quantum Float.overflow
    Float.unit
stop_planned = refl

my_holding : holding_of 4391 (holding ∷ []) ≡ some holding
unfolding holding_of
my_holding = refl

ensure_protective-unread_example :
    (ensure_protective answers key holder).sent
    ≡ protect key ident (literal 10 1) (literal 95 1) ∷ []
ensure_protective-unread_example =
    ensure_protective-unread answers key holder position 3 (holding ∷ []) holding plan ident
      stops_on found refl refl refl refl my_holding stop_planned resolved

abbrev unknown_size : Answers
unknown_size = record answers { order_total = λ ids. none }

no_size : Float.le (executed_quantity unknown_size (8 ∷ [])) zero_float ≡ true
unfolding executed_quantity quantity_of_orders Float.le zero_float
no_size = refl

resolved_open : resolve_exact unknown_size.resolver signal.conid ≡ exact ident
unfolding resolve_exact resolve_back
resolved_open = refl

abbrev adding : Directive
adding = record { kind = open_position; reason = while_flat; quantity = none }

-- An add to a position of ten shares.
execute_open-unattributed_example :
    State.open_position (key_of signal) (execute_open unknown_size signal adding holder).1.rows
    ≡ none
execute_open-unattributed_example =
    execute_open-unattributed unknown_size signal adding holder ident 5 (8 ∷ []) resolved_open refl
      refl no_size
