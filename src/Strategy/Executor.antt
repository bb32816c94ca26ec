-- ===== src/Strategy/Executor.antt =====
-- `AutoExecutor` of trader/strategy/auto_executor.py: one worker takes signals and bars from a queue, each
-- with the answers that its calls of the SDK get. An exception ends the item and is logged.
pub mod Idle
pub mod Steps
pub mod Once
pub mod Authorised
pub mod Reconciled
use openwallstreet.Prelude.{
  ℕ, ◌*◌, Bool, true, false, not, ◌&&◌, ◌||◌, Option, none, some, String, KeyEq, ◌==◌, List, [],
  ◌∷◌, eqb, if◌then◌else◌, ℤ, Dict, lookup, insert, get_or,
}
use openwallstreet.Float
use openwallstreet.Float.{Float, zero_float}
use openwallstreet.Data.Ledger.{Key, key_eq}
use openwallstreet.Risk.Events.{TradingEvent}
use openwallstreet.Placement.Direct.{Action, sell}
use openwallstreet.Strategy.Decision.{
  BarTs, SignalWork, bar_age_seconds, Directive, Kind, Gates, decide_signal,
  accept_empty_broker_read, Trigger, check_time_exit, check_manifest,
}
use openwallstreet.Strategy.State.{
  Position, BarLog, Decision, skipped, closed_externally, executed_for_bar, count_opens_since,
  open_position, held_lots, all_open,
}
use openwallstreet.Strategy.State
use openwallstreet.Strategy.Sdk.{
  Holding, Answers, kill_switch, live_armed, stale_bar_multiple, empty_broker_grace_seconds,
  broker_quantity,
}
use openwallstreet.Strategy.Stops.{
  Inert, unknown_interval, undatable_bar, Executor, cancel_protective, load_open_view,
  ensure_protective,
}
use openwallstreet.Strategy.Close.{
  Flow, finished, refused, crashed, note, close_rows, tracked_of, execute_close,
}
use openwallstreet.Strategy.Open.{key_of, execute_open}

-- The row of a position that the broker does not hold.
unfoldable pub close_absent : List Holding → Position → Executor → Executor
unfolding broker_quantity
close_absent hs p s =
    if Float.le (broker_quantity p.key.1 hs) zero_float
    then cancel_protective p.key (tracked_of (some p)) (close_rows p.key closed_externally none s)
    else s

unfoldable pub close_all_absent : List Holding → List Position → Executor → Executor
unfolding close_absent
close_all_absent hs [] s = s
close_all_absent hs (p ∷ ps) s = close_all_absent hs ps (close_absent hs p s)

-- The rows, then the view and the flag.
unfoldable pub reconcile_rows : List Holding → Executor → Executor
unfolding close_all_absent load_open_view
reconcile_rows hs s = record (load_open_view (close_all_absent hs (all_open s.rows) s)) {
  reconciled = true;
}

-- `if self._first_empty_broker_read is None: ... = now`
abbrev pub first_empty : Float → Option Float → Float
first_empty now none = now
first_empty now (some t) = t

-- An empty reading of the broker's positions.
unfoldable pub reconcile_empty : Answers → Executor → Executor
unfolding reconcile_rows
reconcile_empty a s =
    let seen = some (first_empty a.reconcile_clock s.first_empty_broker_read) in
    let s' = record s { first_empty_broker_read = seen } in
    if accept_empty_broker_read seen a.reconcile_clock (empty_broker_grace_seconds a)
    then reconcile_rows [] s'
    else s'

unfoldable pub reconcile_read : Answers → Option (List Holding) → Executor → Executor
unfolding reconcile_empty reconcile_rows
reconcile_read a none s = s
reconcile_read a (some []) s = reconcile_empty a s
reconcile_read a (some (h ∷ hs)) s =
    reconcile_rows (h ∷ hs) (record s { first_empty_broker_read = none })

unfoldable pub reconcile_open : Answers → List Position → Executor → Executor
unfolding reconcile_read
reconcile_open a [] s = record s { reconciled = true }
reconcile_open a (p ∷ ps) s = reconcile_read a a.reconcile_holdings s

-- `_reconcile_once`
unfoldable pub reconcile_once : Answers → Executor → Executor
unfolding reconcile_open
reconcile_once a s = if s.reconciled then s else reconcile_open a (all_open s.rows) s

abbrev pub same_inert : Option Inert → Inert → Bool
same_inert (some (unknown_interval x)) (unknown_interval y) = Float.eq x y
same_inert (some undatable_bar) undatable_bar = true
same_inert _ _ = false

abbrev pub warn : Key → Inert → Executor → Executor
warn k r s =
    if same_inert (lookup k s.stale_gate_warned) r
    then s
    else record s { stale_gate_warned = insert k r s.stale_gate_warned }

-- `_warn_if_stale_gate_inert`
unfoldable pub warn_if_stale_gate_inert : SignalWork → Option Float → Executor → Executor
warn_if_stale_gate_inert w age s =
    if Float.le w.bar_size_seconds zero_float
    then warn (key_of w) (unknown_interval w.bar_size_seconds) s
    else elim age [ none ↦ warn (key_of w) undatable_bar s | some _ ↦ s ]

abbrev pub quantity_of : Option Position → Float
quantity_of none = zero_float
quantity_of (some p) = p.quantity

abbrev pub lots_of : Option Position → ℕ
lots_of none = 0
lots_of (some p) = held_lots p.lots

-- What `_process_signal` hands to the decision.
unfoldable pub gates : Answers → SignalWork → Executor → Gates
unfolding get_or
gates a w s =
    let k = key_of w in
    let pos = open_position k s.rows in
    record {
      kill_switch = kill_switch a;
      paper_trading = s.paper_trading;
      held_qty = quantity_of pos;
      already_executed_bar = executed_for_bar k w.bar_ts.wall s.log;
      cooldown_active =
          Float.lt (Float.sub a.signal_clock (get_or k zero_float s.last_exec)) s.cooldown_seconds;
      age = bar_age_seconds (some w.bar_ts) a.utc_clock;
      stale_bar_multiple = stale_bar_multiple a;
      live_armed = live_armed a;
      held_lots = lots_of pos;
    }

-- `count_opens_since` where a limit is declared.
abbrev pub opens_if : Option ℤ → ℕ → ℕ
opens_if none n = 0
opens_if (some limit) n = n

-- `_manifest_gate`; without a manifest the counts are not read, and nothing is refused.
unfoldable pub manifest_gate : Answers → SignalWork → Directive → Executor → Option Directive
manifest_gate a w d s =
    check_manifest w d
      (opens_if w.manifest_max_opens_per_day
        (count_opens_since w.strategy_name a.gate_clock 86400000000 s.log))
      (opens_if w.manifest_max_opens_per_hour
        (count_opens_since w.strategy_name a.gate_clock 3600000000 s.log))

-- `except AutoExecutionError`
unfoldable pub on_refusal : Answers → Key → ℕ → Action → Flow × Executor → Executor
on_refusal a k bar_ts action (refused, s) = note a k bar_ts action State.refused s
on_refusal a k bar_ts action (_, s) = s

abbrev pub or_zero : Option Float → Float
or_zero none = zero_float
or_zero (some x) = x

-- The gated execution of a directive to open.
unfoldable pub open_gated : Answers → SignalWork → Directive → Executor → Executor
unfolding on_refusal manifest_gate
open_gated a w d s = elim (manifest_gate a w d s) [
  | some refusal ↦ note a (key_of w) w.bar_ts.wall w.action State.refused s
  | none ↦ on_refusal a (key_of w) w.bar_ts.wall w.action (execute_open a w d s)
]

unfoldable pub follow : Answers → SignalWork → Directive → Kind → Executor → Executor
unfolding open_gated on_refusal
follow a w d Kind.skip s = note a (key_of w) w.bar_ts.wall w.action skipped s
follow a w d Kind.open_position s = open_gated a w d s
follow a w d Kind.close_position s =
    on_refusal a (key_of w) w.bar_ts.wall w.action
      (execute_close a (key_of w) w.bar_ts.wall (or_zero d.quantity) s)
follow a w d Kind.refused s = s

-- `_process_signal`
unfoldable pub process_signal : Answers → SignalWork → Executor → Executor
unfolding gates follow warn_if_stale_gate_inert
process_signal a w s =
    let g = gates a w s in
    let d = decide_signal w g in follow a w d d.kind (warn_if_stale_gate_inert w g.age s)

-- `BarWork`
pub record BarWork : Type 0 where
  pub strategy_name : String
  pub conid : ℕ
  pub bar_ts : BarTs
  pub bars_held : ℤ

abbrev pub bar_key : BarWork → Key
bar_key b = (b.strategy_name, b.conid)

-- The close of a time exit, once for a bar.
unfoldable pub exit_position : Answers → BarWork → Position → Executor → Executor
unfolding on_refusal
exit_position a b p s =
    if executed_for_bar (bar_key b) b.bar_ts.wall s.log
    then s
    else on_refusal a (bar_key b) b.bar_ts.wall sell
        (execute_close a (bar_key b) b.bar_ts.wall p.quantity s)

unfoldable pub process_held : Answers → BarWork → Position → Executor → Executor
unfolding exit_position
process_held a b p s = elim (check_time_exit b.bar_ts b.bars_held p.close_by_time p.max_hold_bars) [
  | none ↦ ensure_protective a (bar_key b) s
  | some t ↦ exit_position a b p (ensure_protective a (bar_key b) s)
]

-- `_process_bar`
unfoldable pub process_bar : Answers → BarWork → Executor → Executor
unfolding process_held
process_bar a b s = elim (open_position (bar_key b) s.rows) [
  | none ↦ s
  | some p ↦ process_held a b p s
]

pub data Item : Type 0 where
  of_signal : SignalWork → Item
  of_bar : BarWork → Item

-- The body of the loop of `_run`.
unfoldable pub work_on : Answers × Item → Executor → Executor
unfolding process_signal process_bar reconcile_once
work_on (a, of_signal w) s = process_signal a w (reconcile_once a s)
work_on (a, of_bar b) s = process_bar a b (reconcile_once a s)

-- `_run`, over the items of the queue.
unfoldable pub run : List (Answers × Item) → Executor → Executor
unfolding work_on
run [] s = s
run (x ∷ xs) s = run xs (work_on x s)

-- `AutoExecutor(...)`, on the tables as they stand.
unfoldable pub new_executor :
    Bool → Float → Option (List TradingEvent) → List Position → List BarLog → Executor
unfolding load_open_view
new_executor paper_trading cooldown_seconds events rows log = load_open_view (record {
  paper_trading = paper_trading;
  cooldown_seconds = cooldown_seconds;
  events = events;
  rows = rows;
  log = log;
  last_exec = [];
  stale_gate_warned = [];
  open_view = [];
  reconciled = false;
  first_empty_broker_read = none;
  sent = [];
})
