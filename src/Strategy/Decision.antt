-- ===== src/Strategy/Decision.antt =====
-- The decisions of trader/strategy/auto_executor.py, without I/O: `decide_signal`, `check_manifest`,
-- `check_time_exit` and `accept_empty_broker_read`. The bar of a signal is a datetime.
pub mod Rules
use openwallstreet.Prelude.{
  ℕ, suc, ◌%◌, ◌*◌, Bool, true, false, not, ◌&&◌, ◌||◌, Option, none, some, String, ◌==◌, string_eq,
  nat_eq, List, elem, leb, if◌then◌else◌, ℤ, pos, negsuc, ◌+ℤ◌, neg_ℤ, ltb_ℤ, leb_ℤ,
}
use openwallstreet.Float
use openwallstreet.Float.{Float, zero_float}
use openwallstreet.Placement.Direct.{Action, is_buy, is_sell}

-- A bar's timestamp: its wall clock in microseconds, and the offset of its time zone.
pub record BarTs : Type 0 where
  pub wall : ℕ
  pub offset : Option ℤ

-- `SignalWork`; the probability serves as confidence, the risk is not read.
pub record SignalWork : Type 0 where
  pub strategy_name : String
  pub conid : ℕ
  pub action : Action
  pub bar_ts : BarTs
  pub bar_size_seconds : Float
  pub probability : Float
  pub quantity : Float
  pub trade_amount : Float
  pub auto_execute : Bool
  pub paper_only : Bool
  pub state_running : Bool
  pub close_by_time : Option ℕ
  pub max_hold_bars : Option ℤ
  pub pyramid_max_adds : ℤ
  pub manifest_allowed_conids : Option (List ℕ)
  pub manifest_direction : Option String
  pub manifest_max_opens_per_day : Option ℤ
  pub manifest_max_opens_per_hour : Option ℤ

-- The time since a bar in microseconds; a naive timestamp is UTC.
unfoldable pub bar_age : BarTs → ℕ → ℤ
unfolding ◌+ℤ◌
bar_age ts now = pos now +ℤ neg_ℤ (pos ts.wall) +ℤ (elim ts.offset [ none ↦ pos 0 | some z ↦ z ])

-- `bar_age_seconds`; none is a timestamp that is absent or no datetime.
unfoldable pub bar_age_seconds : Option BarTs → ℕ → Option Float
unfolding bar_age Float.of_ratio Float.is_pos Float.magnitude
bar_age_seconds none now = none
bar_age_seconds (some ts) now =
    let age = bar_age ts now in
    some (Float.of_ratio (Float.is_pos age) (Float.magnitude age * Float.unit) 1000000)

-- `Directive`: its kind, and its reason without the texts.
pub data Kind : Type 0 where
  open_position close_position skip refused : Kind

pub data Reason : Type 0 where
  kill_switch_set auto_execute_off not_running paper_only_live bar_executed not_armed : Reason
  no_pyramiding stack_full undatable stale_bar cooling_down : Reason
  while_flat : Reason
  add_lot : ℕ → Reason
  sell_while_flat while_holding unsupported : Reason
  conid_not_allowed short_open day_cap hour_cap : Reason

pub record Directive : Type 0 where
  pub kind : Kind
  pub reason : Reason
  pub quantity : Option Float

abbrev pub skip_for : Reason → Directive
skip_for r = record { kind = skip; reason = r; quantity = none }

-- The keyword arguments of `decide_signal`.
pub record Gates : Type 0 where
  pub kill_switch : Bool
  pub paper_trading : Bool
  pub held_qty : Float
  pub already_executed_bar : Bool
  pub cooldown_active : Bool
  pub age : Option Float
  pub stale_bar_multiple : Float
  pub live_armed : Bool
  pub held_lots : ℕ

-- `held_qty > 0`
abbrev pub is_held : Gates → Bool
is_held g = Float.lt zero_float g.held_qty

-- The rules of pyramiding, for a position that is held.
unfoldable pub stack_reason : SignalWork → Gates → Option Reason
stack_reason w g =
    if is_held g
    then if leb_ℤ w.pyramid_max_adds (pos 0)
      then some no_pyramiding
      else if ltb_ℤ w.pyramid_max_adds (pos g.held_lots)
      then some stack_full
      else none
    else none

-- `bar_size_seconds > 0 and age > multiple * bar_size_seconds`
unfoldable pub is_stale : SignalWork → Gates → Float → Bool
is_stale w g age =
    Float.lt zero_float w.bar_size_seconds
    && Float.lt (Float.mul g.stale_bar_multiple w.bar_size_seconds) age

-- From the stale-bar gate on.
unfoldable pub decide_fresh : SignalWork → Gates → Directive
unfolding is_stale
decide_fresh w g = elim g.age [
  | none ↦ skip_for undatable
  | some age ↦
      if is_stale w g age
      then skip_for stale_bar
      else if g.cooldown_active
      then skip_for cooling_down
      else record {
        kind = open_position;
        reason = if Float.le g.held_qty zero_float then while_flat else add_lot (suc g.held_lots);
        quantity = if Float.lt zero_float w.quantity then some w.quantity else none;
      }
]

unfoldable pub decide_buy : SignalWork → Gates → Directive
unfolding stack_reason decide_fresh
decide_buy w g =
    if not g.paper_trading && not g.live_armed
    then skip_for not_armed
    else elim (stack_reason w g) [ some r ↦ skip_for r | none ↦ decide_fresh w g ]

unfoldable pub decide_sell : Gates → Directive
decide_sell g =
    if Float.le g.held_qty zero_float
    then skip_for sell_while_flat
    else record { kind = close_position; reason = while_holding; quantity = some g.held_qty }

unfoldable pub decide_action : SignalWork → Gates → Directive
unfolding decide_buy decide_sell
decide_action w g =
    if is_buy w.action
    then decide_buy w g
    else if is_sell w.action
    then decide_sell g
    else skip_for unsupported

unfoldable pub decide_signal : SignalWork → Gates → Directive
unfolding decide_action
decide_signal w g =
    if g.kill_switch
    then skip_for kill_switch_set
    else if not w.auto_execute && not (is_sell w.action && is_held g)
    then skip_for auto_execute_off
    else if not w.state_running
    then skip_for not_running
    else if w.paper_only && not g.paper_trading
    then skip_for paper_only_live
    else if g.already_executed_bar
    then skip_for bar_executed
    else decide_action w g

-- `accept_empty_broker_read`, whose numbers are floats.
unfoldable pub accept_empty_broker_read : Option Float → Float → Float → Bool
accept_empty_broker_read none now grace_seconds = false
accept_empty_broker_read (some first_empty_at) now grace_seconds =
    Float.le grace_seconds (Float.sub now first_empty_at)

pub data Trigger : Type 0 where
  max_hold close_by : Trigger

-- `bars_held >= max_hold_bars`, where that is given.
abbrev pub is_held_long : ℤ → Option ℤ → Bool
is_held_long bars_held none = false
is_held_long bars_held (some limit) = leb_ℤ limit bars_held

-- `bar_ts.time() >= close_by_time`, where that is given.
abbrev pub is_past_time : BarTs → Option ℕ → Bool
is_past_time ts none = false
is_past_time ts (some t) = leb t (ts.wall % 86400000000)

unfoldable pub check_time_exit : BarTs → ℤ → Option ℕ → Option ℤ → Option Trigger
check_time_exit ts bars_held close_by_time max_hold_bars =
    if is_held_long bars_held max_hold_bars
    then some max_hold
    else if is_past_time ts close_by_time
    then some close_by
    else none

-- `limit is not None and opens >= limit`
abbrev pub at_cap : Option ℤ → ℕ → Bool
at_cap none opens = false
at_cap (some limit) opens = leb_ℤ limit (pos opens)

abbrev pub refuse_for : Reason → Option Directive
refuse_for r = some (record { kind = refused; reason = r; quantity = none })

-- `directive.kind == 'open'`
abbrev pub is_open_kind : Kind → Bool
is_open_kind open_position = true
is_open_kind _ = false

-- `direction == 'long'` of a direction that may be absent.
abbrev pub is_long : Option String → Bool
is_long none = false
is_long (some d) = d == "long"

-- `allowed is not None and conid not in allowed`
abbrev pub is_outside : ℕ → Option (List ℕ) → Bool
is_outside conid none = false
is_outside conid (some allowed) = not (elem conid allowed)

unfoldable pub check_manifest : SignalWork → Directive → ℕ → ℕ → Option Directive
check_manifest w d opens_today opens_hour =
    if is_outside w.conid w.manifest_allowed_conids
    then refuse_for conid_not_allowed
    else if is_long w.manifest_direction && (is_open_kind d.kind && is_sell w.action)
    then refuse_for short_open
    else if at_cap w.manifest_max_opens_per_day opens_today
    then refuse_for day_cap
    else if at_cap w.manifest_max_opens_per_hour opens_hour
    then refuse_for hour_cap
    else none
