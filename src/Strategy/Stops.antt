-- ===== src/Strategy/Stops.antt =====
-- The state of `AutoExecutor` in trader/strategy/auto_executor.py, and its protective stops. Neither of the
-- operations on stops raises.
pub mod Quiet
pub mod Covered
use openwallstreet.Prelude.{
  ℕ, Bool, true, false, not, ◌&&◌, ◌||◌, Option, none, some, String, KeyEq, ◌==◌, string_eq, nat_eq,
  List, [], ◌∷◌, elem, eqb, if◌then◌else◌, Dict, insert,
}
use openwallstreet.Float
use openwallstreet.Float.{Float, zero_float}
use openwallstreet.Data.Ledger.{Key, key_eq}
use openwallstreet.Orders.Protective.{ProtectiveStop, protective_stop_plan}
use openwallstreet.Risk.Events.{TradingEvent}
use openwallstreet.Strategy.State.{Position, BarLog, open_position, set_protective, all_open}
use openwallstreet.Strategy.Sdk.{
  Ident, exact, resolve_exact, Holding, Placing, placed, not_placed, Answers, protective_stop_pct,
  own_live_protectives, Sent, cancel, protect,
}

-- Why the stale-bar gate cannot run.
pub data Inert : Type 0 where
  unknown_interval : Float → Inert
  undatable_bar : Inert

-- `sent` records what has been sent, newest first; the event store is none where there is none.
pub record Executor : Type 0 where
  pub paper_trading : Bool
  pub cooldown_seconds : Float
  pub events : Option (List TradingEvent)
  pub rows : List Position
  pub log : List BarLog
  pub last_exec : Dict Key Float
  pub stale_gate_warned : Dict Key Inert
  pub open_view : Dict Key ℕ
  pub reconciled : Bool
  pub first_empty_broker_read : Option Float
  pub sent : List Sent

abbrev pub send : Sent → Executor → Executor
send x s = record s { sent = x ∷ s.sent }

abbrev pub track : Key → Option ℕ → Executor → Executor
track k order_id s = record s { rows = set_protective k order_id s.rows }

-- `_load_open_view`
unfoldable pub view_of : List Position → Dict Key ℕ → Dict Key ℕ
view_of [] d = d
view_of (p ∷ ps) d = view_of ps (insert p.key p.entry_bar_ts d)

unfoldable pub load_open_view : Executor → Executor
unfolding view_of
load_open_view s = record s { open_view = view_of (all_open s.rows) [] }

-- `_cancel_protective`, whatever the cancellation answers; an id of 0 is none.
unfoldable pub cancel_protective : Key → ℕ → Executor → Executor
cancel_protective k order_id s =
    if eqb order_id 0 then s else track k none (send (cancel k order_id) s)

-- Python's truth of a tracked id.
abbrev pub is_tracked : Option ℕ → Bool
is_tracked none = false
is_tracked (some n) = not (eqb n 0)

-- From the answer to the placement on.
unfoldable pub track_placed : Key → Option Placing → Executor → Executor
track_placed k (some (placed order_id)) s = if eqb order_id 0 then s else track k (some order_id) s
track_placed k _ s = s

-- From the plan on; an instrument that does not resolve exactly is an exception, which ends here.
unfoldable pub place_stop : Answers → Key → ProtectiveStop → Executor → Executor
unfolding track_placed
place_stop a k plan s = elim (resolve_exact a.stop_resolver k.1) [
  | exact i ↦ track_placed k a.stop_placing (send (protect k i plan.quantity plan.stop_price) s)
  | _ ↦ s
]

-- `df[df['conId'] == conid]`, its first row
unfoldable pub holding_of : ℕ → List Holding → Option Holding
holding_of conid [] = none
holding_of conid (h ∷ hs) = if eqb h.conid conid then some h else holding_of conid hs

unfoldable pub plan_for : Answers → Position → Holding → Option ProtectiveStop
plan_for a p h =
    protective_stop_plan (some p.quantity) (some h.position) (some h.avg_cost)
      (some (protective_stop_pct a))

-- The placement of a stop for a position without one.
unfoldable pub place_missing : Answers → Key → Position → Executor → Executor
unfolding place_stop plan_for
place_missing a k p s = elim a.stop_holdings [
  | none ↦ s
  | some hs ↦ elim (holding_of k.1 hs) [
    | none ↦ s
    | some h ↦ elim (plan_for a p h) [ none ↦ s | some plan ↦ place_stop a k plan s ]
  ]
]

-- What is done about a tracked id that is not among the live ones.
unfoldable pub repair : Answers → Key → Position → List ℕ → Executor → Executor
unfolding place_missing
repair a k p [] s = place_missing a k p (track k none s)
repair a k p (own ∷ more) s = track k (some own) s

-- `int(tracked) in own`
abbrev pub is_live : Option ℕ → List ℕ → Bool
is_live none own = false
is_live (some n) own = elem n own

unfoldable pub ensure_for : Answers → Key → Position → Executor → Executor
unfolding place_missing repair
ensure_for a k p s =
    let own = own_live_protectives k a.stop_trades in
    if not (is_tracked p.protective_order_id)
    then place_missing a k p s
    else if is_live p.protective_order_id own
    then s
    else repair a k p own s

-- `_ensure_protective`
unfoldable pub ensure_protective : Answers → Key → Executor → Executor
unfolding ensure_for
ensure_protective a k s =
    if Float.le (protective_stop_pct a) zero_float
    then s
    else elim (open_position k s.rows) [ none ↦ s | some p ↦ ensure_for a k p s ]
