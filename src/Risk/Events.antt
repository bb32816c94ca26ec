-- ===== src/Risk/Events.antt =====
-- trader/data/event_store.py: the events that the gate reads.
use openwallstreet.Prelude.{
  ℕ, Bool, true, false, not, ◌&&◌, Option, none, some, String, ◌==◌, string_eq, List, leb,
  if◌then◌else◌, Dict, lookup, filter,
}
use openwallstreet.Float
use openwallstreet.Float.{Float}

pub data EventType : Type 0 where
  signal order_submitted order_filled order_cancelled order_rejected risk_gate_rejected : EventType

-- `==` on event types
abbrev pub same_type : EventType → EventType → Bool
same_type signal signal = true
same_type order_submitted order_submitted = true
same_type order_filled order_filled = true
same_type order_cancelled order_cancelled = true
same_type order_rejected order_rejected = true
same_type risk_gate_rejected risk_gate_rejected = true
same_type _ _ = false

-- A value of the metadata, read from JSON; a text and a container carry what Python makes of them:
-- `float(...)` of the text, and whether the container has anything in it. `big` is an integer beyond the
-- doubles, of which `float(...)` raises OverflowError.
pub data Json : Type 0 where
  null : Json
  flag : Bool → Json
  number : Float → Json
  big : Json
  text : String → Option Float → Json
  container : Bool → Json

-- Python's truth of a value.
abbrev pub truthy : Json → Bool
truthy null = false
truthy (flag b) = b
truthy big = true
truthy (number x) = not (Float.eq x Float.zero_float)
truthy (text s x) = not (s == "")
truthy (container full) = full

-- `float(value)`; `none` is a TypeError, a ValueError or, of `big`, an OverflowError.
abbrev pub to_float : Json → Option Float
to_float null = none
to_float (flag b) = some (if b then Float.literal 1 1 else Float.zero_float)
to_float (number x) = some x
to_float big = none
to_float (text s x) = x
to_float (container full) = none

-- `TradingEvent`; `price` and `quantity` are what `float(...)` makes of them.
pub record TradingEvent : Type 0 where
  pub event_type : EventType
  pub timestamp : ℕ
  pub strategy_name : String
  pub conid : ℕ
  pub symbol : String
  pub action : String
  pub quantity : Option Float
  pub price : Option Float
  pub order_id : ℕ
  pub signal_probability : Float
  pub signal_risk : Float
  pub metadata : Dict String Json

-- `query_since` with an event type. The events stand newest first, the order of the query.
unfoldable pub query_since : ℕ → EventType → List TradingEvent → List TradingEvent
query_since since type = filter (λ e. leb since e.timestamp && same_type e.event_type type)

-- `meta.get(key)` of a key that may be absent, as a truth.
abbrev pub get_truth : Option Json → Bool
get_truth none = false
get_truth (some v) = truthy v

-- `(e.metadata or {}).get('exit_class')`
unfoldable pub is_exit_class : TradingEvent → Bool
is_exit_class e = get_truth (lookup "exit_class" e.metadata)
